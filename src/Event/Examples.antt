-- ===== src/Event/Examples.antt =====
-- Runs of the events.
use windforce_lite.Prelude.{◌≡◌, refl, some, none, ℕ_discrete}
use windforce_lite.Str.{str, str_dec, trim_space}
use windforce_lite.Contract.{normalize_workspace}
use windforce_lite.State.Types.{invalid_event}
use windforce_lite.State.Result.{ok, err}
use windforce_lite.Event.{ReleasePublishedData, ReleaseRolledBackData, WebhookTestData}
use windforce_lite.Event.Reading.{release_published}
use windforce_lite.Event.Making.{
  prepared_published, published_envelope, new_release_published, new_release_rolled_back,
  new_webhook_test,
}
use windforce_lite.Event.Checked.{
  event_made_exactly, MakesIf, may_publish, Publishes, may_roll_back, RollsBack, may_test, Tests,
}

abbrev release : ReleasePublishedData
release = record {
  workspace = str " team ";
  app_key = str "mail";
  release_id = str "r2";
  commit = str "c2";
  previous_release_id = some (str "r1");
  previous_commit = none;
  actor = str "";
  note = some (str " fix ");
}

abbrev rollback : ReleaseRolledBackData
rollback = record {
  workspace = str "team";
  app_key = str "mail";
  release_id = str "r1";
  commit = str "c1";
  previous_release_id = str "r2";
  previous_commit = str "c2";
  actor = str "ann";
  reason = str "";
}

abbrev hook : WebhookTestData
hook = record { workspace = str ""; subscription_id = str " s1"; actor = str "ann" }

published_reads :
    release_published (published_envelope (str "evt_1") 5 (prepared_published release))
    ≡ ok (record release { workspace = str "team"; actor = str "system"; note = some (str "fix") })
unfolding release_published published_envelope prepared_published normalize_workspace trim_space
    str_dec ℕ_discrete
published_reads = refl

refused_rollback : new_release_rolled_back (str "evt_2") 6 rollback ≡ err invalid_event
unfolding new_release_rolled_back normalize_workspace trim_space str_dec ℕ_discrete
refused_rollback = refl

event_made_exactly_example :
    MakesIf
      (may_publish (str "evt_1") 5 release)
      (Publishes (str "evt_1") 5 release)
      (new_release_published (str "evt_1") 5 release)
    × MakesIf
        (may_roll_back (str "evt_1") 5 rollback)
        (RollsBack (str "evt_1") 5 rollback)
        (new_release_rolled_back (str "evt_1") 5 rollback)
    × MakesIf
        (may_test (str "evt_1") 5 hook)
        (Tests (str "evt_1") 5 hook)
        (new_webhook_test (str "evt_1") 5 hook)
event_made_exactly_example = event_made_exactly (str "evt_1") 5 release rollback hook
