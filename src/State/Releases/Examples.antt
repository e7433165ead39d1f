-- ===== src/State/Releases/Examples.antt =====
-- A release is published to one subscription, and a rollback that has no release to leave.
use windforce_lite.Prelude.{◌≡◌, refl, Bool, true, false, none, some, [], ◌∷◌, ℕ_discrete}
use windforce_lite.Str.{str, str_dec, trim_space}
use windforce_lite.Table.{get}
use windforce_lite.Json.{absent}
use windforce_lite.Contract.{Deployment, normalize_workspace, source_workspace}
use windforce_lite.State.Payload.{zero_deployment}
use windforce_lite.State.Types.{invalid_event}
use windforce_lite.State.Result.{Result, ok, err}
use windforce_lite.Event.{Envelope}
use windforce_lite.Event.Making.{new_release_published, published_envelope, prepared_published}
use windforce_lite.Catalog.{CatalogSnapshot, new_catalog}
use windforce_lite.Catalog.Publish.{
  prepare_publication, add_publication, get_deployment_for_workspace,
}
use windforce_lite.Catalog.Rollback.{
  normalize_snapshot, normalize_deployment_map, backfill_active_history_ids, ReleaseRollbackRequest,
  ReleaseRollbackResult, new_release_rollback_result, prepared_request, switch_release,
  apply_release_rollback, prepare_release_rollback_request, roll_back, find_release, first_release,
  is_release,
}
use windforce_lite.State.Webhook.{SubscriptionRecord}
use windforce_lite.State.Releases.{
  Releases, Drawn, publish_release, rollback_release, tell, release_data,
}
use windforce_lite.State.Releases.Unheard.{rollback_release-unheard}
use windforce_lite.State.Releases.Told.{publish_release_lem, Announces, Delivers}

abbrev hook : SubscriptionRecord
hook = record {
  id = str "s";
  workspace_id = str "team";
  name = str "n";
  endpoint_encrypted = absent;
  signing_secret_encrypted = absent;
  event_types = some (str "windforce.release.published" ∷ []);
  app_keys = none;
  enabled = true;
  created_by = [];
  updated_by = [];
  created_at = 1;
  updated_at = 1;
  deleted_at = none;
}

abbrev start : Releases
start = record {
  catalog = new_catalog;
  hooks = record {
    subscriptions = (str "team/s", hook) ∷ [];
    deliveries = [];
    events = [];
    audits = [];
  };
}

abbrev mail : Deployment
mail = record zero_deployment { workspace = str "team"; app = str "mail"; commit = str "c1" }

abbrev drawn : Drawn
drawn = record { version = str "v1"; event = str "e1"; delivery = λ key. key }

abbrev published : Deployment
published = (prepare_publication (str "v1") mail 3 4).0

abbrev event : Envelope
event =
    published_envelope (str "evt_e1") 3
      (prepared_published (release_data (prepare_publication (str "v1") mail 3 4).1 none))

abbrev after : Releases
after = record {
  catalog =
      add_publication (normalize_snapshot new_catalog) published
        (prepare_publication (str "v1") mail 3 4).1 (prepare_publication (str "v1") mail 3 4).2;
  hooks = tell drawn.delivery event (source_workspace published) published.app start.hooks 4;
}

is_published : publish_release drawn mail 3 start 4 ≡ ok (after, published)
unfolding publish_release prepare_publication new_release_published normalize_snapshot
    source_workspace normalize_workspace trim_space str_dec ℕ_discrete
is_published = refl

subscribed : get (str "team/s") start.hooks.subscriptions ≡ some hook
unfolding get str_dec ℕ_discrete
subscribed = refl

publish_release_lem_example :
    (get_deployment_for_workspace (source_workspace published) published.app after.catalog
      ≡ ok published)
    × ((event : Envelope) × (get event.id after.hooks.events ≡ some event)
        × Announces (str "v1") event published
        × Delivers (λ key. key) 4 (str "team/s") hook event published start.hooks after.hooks)
unfolding get
publish_release_lem_example =
    publish_release_lem drawn mail 3 start after 4 published (λ j k e. e) (refl, tt) (str "team/s")
      hook subscribed is_published

-- A catalog that was imported with a release and without a deployment.
abbrev only_history : Releases
only_history = record start {
  catalog = record new_catalog { history = (prepare_publication (str "v1") mail 3 4).1 ∷ [] };
}

abbrev request : ReleaseRollbackRequest
request = record {
  workspace = str "team";
  app = str "mail";
  release_id = str "v1";
  actor = str "ann";
  reason = str "broken";
  rolled_back_at = 0;
}

abbrev is_ok {ℓ} : {A : Type ℓ} → Result A → Bool
is_ok (ok a) = true
is_ok (err e) = false

-- The catalog accepts the rollback, and names the release before it as none.
catalog_accepts : is_ok (apply_release_rollback (str "a") only_history.catalog request 9) ≡ true
unfolding apply_release_rollback prepare_release_rollback_request trim_space roll_back find_release
    first_release normalize_snapshot is_release str_dec normalize_workspace prepare_publication
    source_workspace get backfill_active_history_ids normalize_deployment_map
catalog_accepts = refl

abbrev unheard_result : ReleaseRollbackResult
unheard_result =
    new_release_rollback_result (str "v1") (prepare_publication (str "v1") mail 3 4).1 [] []
      (prepared_request request 9)

abbrev unheard_catalog : CatalogSnapshot
unheard_catalog =
    switch_release (normalize_snapshot only_history.catalog) (prepared_request request 9)
      (prepare_publication (str "v1") mail 3 4).1 unheard_result

unheard :
    apply_release_rollback (str "v1") only_history.catalog request 9
    ≡ ok (unheard_catalog, unheard_result)
unfolding apply_release_rollback prepare_release_rollback_request trim_space roll_back find_release
    first_release normalize_snapshot is_release str_dec normalize_workspace prepare_publication
    source_workspace get backfill_active_history_ids normalize_deployment_map
unheard = refl

rollback_release-unheard_example : rollback_release drawn request only_history 9 ≡ err invalid_event
unfolding new_release_rollback_result trim_space
rollback_release-unheard_example =
    rollback_release-unheard drawn request only_history 9 unheard_catalog unheard_result unheard
      refl
