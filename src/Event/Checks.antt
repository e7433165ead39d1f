-- ===== src/Event/Checks.antt =====
-- Which events the constructors refuse.
use windforce_lite.Prelude.{
  ◌==◌, ◌≡◌, refl, ap, not, Bool, true, false, ◌&&◌, if◌then◌else◌, is_nil, Bool-cases, inl, inr,
  arith, ℕ_discrete,
}
use windforce_lite.Str.{Str, str, str_eq, str_dec, trim_space, trim_space-trim_space}
use windforce_lite.Contract.{normalize_workspace}
use windforce_lite.Contract.Tags.{normalize_workspace-normalize_workspace}
use windforce_lite.State.Types.{Time, invalid_event}
use windforce_lite.State.Result.{ok, err, ◌>>◌, guard}
use windforce_lite.Event.{
  Envelope, ReleasePublishedData, ReleaseRolledBackData, WebhookTestData, control_plane_source,
  release_subject, test_subject, or_system,
}
use windforce_lite.Event.Reading.{is_blank}
use windforce_lite.Event.Making.{
  is_event_id, validate_release_published, validate_release_rolled_back, validate_webhook_test,
  prepared_published, published_envelope, new_release_published, prepared_rolled_back,
  rolled_back_envelope, new_release_rolled_back, prepared_test, test_envelope, new_webhook_test,
}
use windforce_lite.Event.Made.{release_published-published_envelope}

str_eq_refl : (s : Str) → str_eq s s ≡ true
str_eq_refl s = ground arith

-- What the checks ask of the data of an event, as it is prepared.
abbrev pub publishable : Str → Time → ReleasePublishedData → Bool
publishable id now d =
    is_event_id (trim_space id)
    && not (now == 0)
    && not (is_blank d.app_key)
    && not (is_blank d.release_id)
    && not (is_blank d.commit)

system_not_blank : is_blank (str "system") ≡ false
unfolding trim_space
system_not_blank = refl

or_system_not_blank : (actor : Str) → is_blank (or_system (trim_space actor)) ≡ false
or_system_not_blank actor = elim (Bool-cases (is_nil (trim_space actor))) [
  | inl e ↦ rw e system_not_blank
  | inr e ↦ rw (e, trim_space-trim_space actor) e
]

-- A chain of checks is one check of all of them.
checks :
    (a b c d e : Bool) (made : Envelope)
    → ((guard a invalid_event
          >> (guard b invalid_event
              >> (guard c invalid_event
                  >> (guard d invalid_event >> (guard e invalid_event >> ok tt)))))
        >> ok made)
      ≡ (if a && b && c && d && e then ok made else err invalid_event)
checks false b c d e made = refl
checks true false c d e made = refl
checks true true false d e made = refl
checks true true true false e made = refl
checks true true true true false made = refl
checks true true true true true made = refl

module _ (id : Str) (now : Time) (d : ReleasePublishedData) where
  abbrev published : Envelope
  published = published_envelope id now (prepared_published d)

  published_source :
      str_eq published.source
        (control_plane_source (normalize_workspace (prepared_published d).workspace))
      ≡ true
  unfolding prepared_published published_envelope
  published_source =
      rw (normalize_workspace-normalize_workspace d.workspace)
        (str_eq_refl (control_plane_source (normalize_workspace d.workspace)))

  published_subject :
      str_eq published.subject
        (release_subject (prepared_published d).app_key (prepared_published d).release_id)
      ≡ true
  unfolding prepared_published published_envelope
  published_subject = str_eq_refl (release_subject d.app_key d.release_id)

  published_actor : is_blank (prepared_published d).actor ≡ false
  unfolding prepared_published
  published_actor = or_system_not_blank d.actor

  published_checked : new_release_published id now d ≡ (
      if is_event_id (trim_space id)
        && not (published.time == 0)
        && not (is_blank (prepared_published d).app_key)
        && not (is_blank (prepared_published d).release_id)
        && not (is_blank (prepared_published d).commit)
      then ok published
      else err invalid_event)
  unfolding new_release_published validate_release_published str_dec ℕ_discrete
  published_checked =
      rw
        (
          release_published-published_envelope id now (prepared_published d),
          published_actor,
          published_source,
          published_subject,
        )
        (checks (is_event_id (trim_space id)) (not (published.time == 0))
          (not (is_blank (prepared_published d).app_key))
          (not (is_blank (prepared_published d).release_id))
          (not (is_blank (prepared_published d).commit)) published)

  pub new_release_published_lem :
      new_release_published id now d
      ≡ (if publishable id now d then ok published else err invalid_event)
  unfolding prepared_published published_envelope
  new_release_published_lem = published_checked

-- What the checks ask of the data of a rollback.
abbrev pub can_roll_back : Str → Time → ReleaseRolledBackData → Bool
can_roll_back id now d =
    is_event_id (trim_space id)
    && not (now == 0)
    && (not (is_blank d.app_key) && not (is_blank d.release_id) && not (is_blank d.commit))
    && (not (is_blank d.previous_release_id) && not (is_blank d.previous_commit))
    && (not (is_blank d.actor) && not (is_blank d.reason))

more_checks :
    (a b c d e f g h i : Bool) (made : Envelope)
    → ((guard a invalid_event
          >> (guard b invalid_event
              >> (guard c invalid_event
                  >> (guard d invalid_event
                      >> (guard e invalid_event
                          >> (guard f invalid_event
                              >> (guard g invalid_event
                                  >> (guard h invalid_event
                                      >> (guard i invalid_event >> ok tt)))))))))
        >> ok made)
      ≡ (if a && b && (c && d && e) && (f && g) && (h && i) then ok made else err invalid_event)
more_checks false b c d e f g h i made = refl
more_checks true false c d e f g h i made = refl
more_checks true true false d e f g h i made = refl
more_checks true true true false e f g h i made = refl
more_checks true true true true false f g h i made = refl
more_checks true true true true true false g h i made = refl
more_checks true true true true true true false h i made = refl
more_checks true true true true true true true false i made = refl
more_checks true true true true true true true true false made = refl
more_checks true true true true true true true true true made = refl

is_blank-trim_space : (s : Str) → is_blank (trim_space s) ≡ is_blank s
is_blank-trim_space s = ap is_nil (trim_space-trim_space s)

module _ (id : Str) (now : Time) (d : ReleaseRolledBackData) where
  abbrev rolled_back : Envelope
  rolled_back = rolled_back_envelope id now (prepared_rolled_back d)

  rolled_back_source :
      str_eq rolled_back.source
        (control_plane_source (normalize_workspace (prepared_rolled_back d).workspace))
      ≡ true
  unfolding prepared_rolled_back rolled_back_envelope
  rolled_back_source =
      rw (normalize_workspace-normalize_workspace d.workspace)
        (str_eq_refl (control_plane_source (normalize_workspace d.workspace)))

  rolled_back_subject :
      str_eq rolled_back.subject
        (release_subject (prepared_rolled_back d).app_key (prepared_rolled_back d).release_id)
      ≡ true
  unfolding prepared_rolled_back rolled_back_envelope
  rolled_back_subject = str_eq_refl (release_subject d.app_key d.release_id)

  rolled_back_texts :
      (is_blank (prepared_rolled_back d).actor ≡ is_blank d.actor)
      × (is_blank (prepared_rolled_back d).reason ≡ is_blank d.reason)
  unfolding prepared_rolled_back
  rolled_back_texts = (is_blank-trim_space d.actor, is_blank-trim_space d.reason)

  rolled_back_checked : new_release_rolled_back id now d ≡ (
      if is_event_id (trim_space id)
        && not (rolled_back.time == 0)
        && (not (is_blank (prepared_rolled_back d).app_key)
            && not (is_blank (prepared_rolled_back d).release_id)
            && not (is_blank (prepared_rolled_back d).commit))
        && (not (is_blank (prepared_rolled_back d).previous_release_id)
            && not (is_blank (prepared_rolled_back d).previous_commit))
        && (not (is_blank d.actor) && not (is_blank d.reason))
      then ok rolled_back
      else err invalid_event)
  unfolding new_release_rolled_back validate_release_rolled_back str_dec ℕ_discrete
  rolled_back_checked =
      rw (rolled_back_texts.0, rolled_back_texts.1, rolled_back_source, rolled_back_subject)
        (more_checks (is_event_id (trim_space id)) (not (rolled_back.time == 0))
          (not (is_blank (prepared_rolled_back d).app_key))
          (not (is_blank (prepared_rolled_back d).release_id))
          (not (is_blank (prepared_rolled_back d).commit))
          (not (is_blank (prepared_rolled_back d).previous_release_id))
          (not (is_blank (prepared_rolled_back d).previous_commit)) (not (is_blank d.actor))
          (not (is_blank d.reason)) rolled_back)

  pub new_release_rolled_back_lem :
      new_release_rolled_back id now d
      ≡ (if can_roll_back id now d then ok rolled_back else err invalid_event)
  unfolding prepared_rolled_back rolled_back_envelope
  new_release_rolled_back_lem = rolled_back_checked

abbrev pub testable : Str → Time → WebhookTestData → Bool
testable id now d =
    is_event_id (trim_space id) && not (now == 0) && not (is_blank d.subscription_id)

few_checks :
    (a b c : Bool) (made : Envelope)
    → ((guard a invalid_event >> (guard b invalid_event >> (guard c invalid_event >> ok tt)))
        >> ok made)
      ≡ (if a && b && c then ok made else err invalid_event)
few_checks false b c made = refl
few_checks true false c made = refl
few_checks true true false made = refl
few_checks true true true made = refl

module _ (id : Str) (now : Time) (d : WebhookTestData) where
  abbrev tested : Envelope
  tested = test_envelope id now (prepared_test d)

  test_source :
      str_eq tested.source (control_plane_source (normalize_workspace (prepared_test d).workspace))
      ≡ true
  unfolding prepared_test test_envelope
  test_source =
      rw (normalize_workspace-normalize_workspace d.workspace)
        (str_eq_refl (control_plane_source (normalize_workspace d.workspace)))

  test_subject_fits : str_eq tested.subject (test_subject (prepared_test d).subscription_id) ≡ true
  unfolding prepared_test test_envelope
  test_subject_fits = str_eq_refl (test_subject (trim_space d.subscription_id))

  test_texts :
      (is_blank (prepared_test d).subscription_id ≡ is_blank d.subscription_id)
      × (is_blank (prepared_test d).actor ≡ false)
  unfolding prepared_test
  test_texts = (is_blank-trim_space d.subscription_id, or_system_not_blank d.actor)

  test_checked : new_webhook_test id now d ≡ (
      if is_event_id (trim_space id) && not (tested.time == 0) && not (is_blank d.subscription_id)
      then ok tested
      else err invalid_event)
  unfolding new_webhook_test validate_webhook_test str_dec ℕ_discrete
  test_checked =
      rw (test_texts.0, test_texts.1, test_source, test_subject_fits)
        (few_checks (is_event_id (trim_space id)) (not (tested.time == 0))
          (not (is_blank d.subscription_id)) tested)

  pub new_webhook_test_lem :
      new_webhook_test id now d ≡ (if testable id now d then ok tested else err invalid_event)
  unfolding prepared_test test_envelope
  new_webhook_test_lem = test_checked
