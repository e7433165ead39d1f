-- ===== src/Event/Checked.antt =====
-- Which events are made, and what they say.
use windforce_lite.Prelude.{
  ◌≡◌, refl, ◌∙◌, ap, ◌==◌, not, Bool, true, false, ◌&&◌, Option, none, some, [], ◌∷◌, ◌++◌, arith,
  if◌then◌else◌, is_nil,
}
use windforce_lite.Str.{Str, str, str_eq, trim_space, has_prefix}
use windforce_lite.Contract.{normalize_workspace}
use windforce_lite.State.Types.{Time, invalid_event}
use windforce_lite.State.Result.{Result, ok, err}
use windforce_lite.Event.{
  Envelope, ReleasePublishedData, ReleaseRolledBackData, WebhookTestData, trimmed_note,
}
use windforce_lite.Event.Reading.{release_published, release_rolled_back, webhook_test}
use windforce_lite.Event.Making.{
  is_event_id, prepared_published, published_envelope, new_release_published, prepared_rolled_back,
  rolled_back_envelope, new_release_rolled_back, prepared_test, test_envelope, new_webhook_test,
}
use windforce_lite.Event.Made.{
  release_published-published_envelope, release_rolled_back-rolled_back_envelope,
  webhook_test-test_envelope,
}
use windforce_lite.Event.Checks.{
  publishable, can_roll_back, testable, new_release_published_lem, new_release_rolled_back_lem,
  new_webhook_test_lem,
}

-- `evt_` and at least one more character.
abbrev names_event : Str → Bool
names_event (a ∷ b ∷ c ∷ d ∷ e ∷ rest) = str_eq (a ∷ b ∷ c ∷ d ∷ []) (str "evt_")
names_event _ = false

names_event-is_event_id : (id : Str) → is_event_id id ≡ names_event id
unfolding is_event_id has_prefix
names_event-is_event_id [] = refl
names_event-is_event_id (a ∷ []) = ground (arith, str_eq)
names_event-is_event_id (a ∷ b ∷ []) = ground (arith, str_eq)
names_event-is_event_id (a ∷ b ∷ c ∷ []) = ground (arith, str_eq)
names_event-is_event_id (a ∷ b ∷ c ∷ d ∷ []) = ground (arith, str_eq)
names_event-is_event_id (a ∷ b ∷ c ∷ d ∷ e ∷ rest) = ground (arith, str_eq)

-- The text is not only white space.
abbrev pub filled : Str → Bool
filled s = not (is_nil (trim_space s))

abbrev pub actor_or_system : Str → Str
actor_or_system actor = if is_nil (trim_space actor) then str "system" else trim_space actor

abbrev pub note_or_none : Option Str → Option Str
note_or_none none = none
note_or_none (some note) = if is_nil (trim_space note) then none else some (trim_space note)

-- The event has the id, the time, the type, the source of the workspace and the subject.
abbrev pub IsAbout : Str → Time → Str → Str → Str → Envelope → Type 0
IsAbout id now event_type workspace subject event =
    (event.id ≡ trim_space id)
    × (event.time ≡ now)
    × (event.event_type ≡ event_type)
    × (event.source ≡ str "/workspaces/" ++ normalize_workspace workspace ++ str "/control-plane")
    × (event.subject ≡ subject)

-- A success with an event of the property if the test holds, or else the error of a bad event.
abbrev pub MakesIf : Bool → (Envelope → Type 0) → Result Envelope → Type 0
MakesIf true P made = (event : Envelope) × (made ≡ ok event) × P event
MakesIf false P made = made ≡ err invalid_event

makes_if :
    (P : Envelope → Type 0) (test checked : Bool) (event : Envelope) (made : Result Envelope)
    → checked ≡ test
    → made ≡ (if checked then ok event else err invalid_event)
    → P event
    → MakesIf test P made
makes_if P true checked event made same e p = (event, rw same at e, p)
makes_if P false checked event made same e p = rw same at e

abbrev pub may_publish : Str → Time → ReleasePublishedData → Bool
may_publish id now p =
    names_event (trim_space id)
    && not (now == 0)
    && filled p.app_key
    && filled p.release_id
    && filled p.commit

abbrev pub Publishes : Str → Time → ReleasePublishedData → Envelope → Type 0
Publishes id now p event =
    IsAbout id now (str "windforce.release.published") p.workspace
      (str "apps/" ++ p.app_key ++ str "/releases/" ++ p.release_id) event
    × (release_published event
        ≡ ok (record p {
          workspace = normalize_workspace p.workspace;
          actor = actor_or_system p.actor;
          note = note_or_none p.note;
        }))

abbrev pub may_roll_back : Str → Time → ReleaseRolledBackData → Bool
may_roll_back id now r =
    names_event (trim_space id)
    && not (now == 0)
    && (filled r.app_key && filled r.release_id && filled r.commit)
    && (filled r.previous_release_id && filled r.previous_commit)
    && (filled r.actor && filled r.reason)

abbrev pub RollsBack : Str → Time → ReleaseRolledBackData → Envelope → Type 0
RollsBack id now r event =
    IsAbout id now (str "windforce.release.rolled_back") r.workspace
      (str "apps/" ++ r.app_key ++ str "/releases/" ++ r.release_id) event
    × (release_rolled_back event
        ≡ ok (record r {
          workspace = normalize_workspace r.workspace;
          actor = trim_space r.actor;
          reason = trim_space r.reason;
        }))

abbrev pub may_test : Str → Time → WebhookTestData → Bool
may_test id now w = names_event (trim_space id) && not (now == 0) && filled w.subscription_id

abbrev pub Tests : Str → Time → WebhookTestData → Envelope → Type 0
Tests id now w event =
    IsAbout id now (str "windforce.webhook.test") w.workspace
      (str "webhooks/" ++ trim_space w.subscription_id ++ str "/test") event
    × (webhook_test event
        ≡ ok (record {
          workspace = normalize_workspace w.workspace;
          subscription_id = trim_space w.subscription_id;
          actor = actor_or_system w.actor;
        }))

same_note : (note : Option Str) → trimmed_note note ≡ note_or_none note
same_note none = refl
same_note (some note) = refl

publishes :
    (id : Str) (now : Time) (p : ReleasePublishedData)
    → Publishes id now p (published_envelope id now (prepared_published p))
unfolding prepared_published published_envelope
publishes id now p = (
  (refl, refl, refl, refl, refl),
  release_published-published_envelope id now (prepared_published p)
      ∙ ap
          (λ note. ok (record p {
            workspace = normalize_workspace p.workspace;
            actor = actor_or_system p.actor;
            note = note;
          }))
          (same_note p.note),
)

rolls_back :
    (id : Str) (now : Time) (r : ReleaseRolledBackData)
    → RollsBack id now r (rolled_back_envelope id now (prepared_rolled_back r))
unfolding prepared_rolled_back rolled_back_envelope
rolls_back id now r = (
  (refl, refl, refl, refl, refl),
  release_rolled_back-rolled_back_envelope id now (prepared_rolled_back r),
)

tests :
    (id : Str) (now : Time) (w : WebhookTestData)
    → Tests id now w (test_envelope id now (prepared_test w))
unfolding prepared_test test_envelope
tests id now w =
    ((refl, refl, refl, refl, refl), webhook_test-test_envelope id now (prepared_test w))

-- Each constructor makes its event exactly if the id, trimmed, is `evt_` with more after it, the time
-- is not zero, and no member that the event needs is blank; otherwise it fails with ErrInvalidEvent.
-- A published release needs the app, the release and the commit; a rollback needs the previous
-- release and commit, the actor and the reason as well; a test needs the subscription. The event
-- names the type, the workspace and what it is about, and reads back as the data given, but for the
-- workspace, which is normalized, the actor, the note, the reason and the tested subscription, which
-- are trimmed, a missing actor, which becomes `system` except for a rollback, and a blank note, which
-- is left out.
pub event_made_exactly :
    (id : Str) (now : Time) (p : ReleasePublishedData) (r : ReleaseRolledBackData)
    (w : WebhookTestData)
    → MakesIf (may_publish id now p) (Publishes id now p) (new_release_published id now p)
      × MakesIf (may_roll_back id now r) (RollsBack id now r) (new_release_rolled_back id now r)
      × MakesIf (may_test id now w) (Tests id now w) (new_webhook_test id now w)
event_made_exactly id now p r w =
    let named = names_event-is_event_id (trim_space id) in
    (
      makes_if (Publishes id now p) (may_publish id now p) (publishable id now p) _ _
          (rw named refl) (new_release_published_lem id now p) (publishes id now p),
      makes_if (RollsBack id now r) (may_roll_back id now r) (can_roll_back id now r) _ _
          (rw named refl) (new_release_rolled_back_lem id now r) (rolls_back id now r),
      makes_if (Tests id now w) (may_test id now w) (testable id now w) _ _ (rw named refl)
          (new_webhook_test_lem id now w) (tests id now w),
    )
