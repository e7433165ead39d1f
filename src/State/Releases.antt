-- ===== src/State/Releases.antt =====
-- internal/state/local_catalog.go and webhook.go: the publication and the rollback of a release, with
-- the event and the deliveries that tell the webhooks of it.
pub mod Wanted
pub mod Told
pub mod Unheard
mod Examples
use windforce_lite.Prelude.{
  not, Bool, true, false, ◌&&◌, ◌||◌, Option, none, some, List, [], ◌∷◌, ◌++◌, if◌then◌else◌,
  is_nil,
}
use windforce_lite.Str.{Str, str, str_eq, trim_space}
use windforce_lite.Table.{Table, get, put, delete_where}
use windforce_lite.Contract.{
  Deployment, Slice, elements, contains, normalize_workspace, source_workspace,
}
use windforce_lite.State.Types.{Time}
use windforce_lite.State.Result.{Result, ok, ◌>>=◌}
use windforce_lite.Event.{Envelope, ReleasePublishedData, ReleaseRolledBackData}
use windforce_lite.Event.Making.{new_release_published, new_release_rolled_back}
use windforce_lite.Catalog.{DeploymentHistory, CatalogSnapshot}
use windforce_lite.Catalog.Publish.{prepare_publication, add_publication, or_trimmed}
use windforce_lite.Catalog.Rollback.{
  ReleaseRollbackRequest, ReleaseRollbackResult, normalize_snapshot, apply_release_rollback,
}
use windforce_lite.State.Webhook.{SubscriptionRecord, Delivery, DeliveryState, Webhooks}
use windforce_lite.State.Settings.Clients.{new_id}

-- The part of the snapshot that releases stand in.
pub record Releases : Type 0 where
  pub catalog : CatalogSnapshot
  pub hooks : Webhooks

-- What the random source gives in one operation: the id of the history or audit entry, and the digits
-- of the event and of the delivery to each subscription.
pub record Drawn : Type 0 where
  pub version : Str
  pub event : Str
  pub delivery : Str → Str

abbrev is_set {ℓ} : {A : Type ℓ} → Option A → Bool
is_set none = false
is_set (some a) = true

-- webhook.Matches, on the fields that the code copies from the record
unfoldable pub matches : SubscriptionRecord → Str → Str → Bool
unfolding contains
matches r event_type app_key =
    r.enabled
    && not (is_set r.deleted_at)
    && contains event_type (elements r.event_types)
    && (is_nil (elements r.app_keys) || contains app_key (elements r.app_keys))

abbrev pub is_matching : Str → Str → Str → SubscriptionRecord → Bool
is_matching workspace_id event_type app_key r =
    str_eq (normalize_workspace r.workspace_id) (normalize_workspace workspace_id)
    && matches r event_type app_key

-- The records that the loop keeps, with their keys.
unfoldable pub matching_subscriptions :
    Table SubscriptionRecord → Str → Str → Str → Table SubscriptionRecord
unfolding matches
matching_subscriptions records workspace_id event_type app_key =
    delete_where (λ key r. not (is_matching workspace_id event_type app_key r)) records

unfoldable pub new_webhook_delivery : Str → Envelope → Str → Str → Time → Delivery
new_webhook_delivery drawn event workspace_id subscription_id now = record {
  id = new_id (str "whd") drawn;
  workspace_id = normalize_workspace workspace_id;
  event_id = event.id;
  subscription_id = subscription_id;
  state = DeliveryState.pending;
  attempt = 0;
  next_attempt_at = now;
  lease_owner = none;
  lease_expires_at = none;
  response_status = none;
  latency_millis = none;
  error_summary = none;
  created_at = now;
  updated_at = now;
  completed_at = none;
}

-- The loop over the matching subscriptions.
unfoldable pub add_deliveries :
    (Str → Str) → Envelope → Str → Time → Table SubscriptionRecord → Table Delivery → Table Delivery
unfolding new_webhook_delivery
add_deliveries drawn event workspace_id now [] deliveries = deliveries
add_deliveries drawn event workspace_id now ((key, r) ∷ records) deliveries =
    add_deliveries drawn event workspace_id now records (
      put (new_id (str "whd") (drawn key))
        (new_webhook_delivery (drawn key) event workspace_id r.id now) deliveries)

-- The event is stored, and each matching subscription gets a delivery.
unfoldable pub tell : (Str → Str) → Envelope → Str → Str → Webhooks → Time → Webhooks
unfolding matching_subscriptions add_deliveries
tell drawn event workspace_id app_key hooks now = record hooks {
  events = put event.id event hooks.events;
  deliveries =
      add_deliveries drawn event workspace_id now
        (matching_subscriptions hooks.subscriptions workspace_id event.event_type app_key)
        hooks.deliveries;
}

-- The latest release of an app, where the list has the oldest first.
unfoldable pub latest_release_history :
    List DeploymentHistory → Str → Str → Option DeploymentHistory
latest_release_history [] workspace_id app_key = none
latest_release_history (history ∷ rest) workspace_id app_key =
    elim (latest_release_history rest workspace_id app_key) [
      | some latest ↦ some latest
      | none ↦
          if str_eq (normalize_workspace history.workspace) (normalize_workspace workspace_id)
            && str_eq history.app app_key
          then some history
          else none
    ]

-- if strings.TrimSpace(value) != "" { field = &value }
abbrev pub unless_blank : Str → Option Str
unless_blank value = if is_nil (trim_space value) then none else some value

abbrev pub previous_id : Option DeploymentHistory → Option Str
previous_id none = none
previous_id (some previous) = unless_blank previous.id

abbrev pub previous_commit_of : Option DeploymentHistory → Option Str
previous_commit_of none = none
previous_commit_of (some previous) = unless_blank previous.commit

abbrev pub release_data : DeploymentHistory → Option DeploymentHistory → ReleasePublishedData
release_data history previous = record {
  workspace = history.workspace;
  app_key = history.app;
  release_id = history.id;
  commit = history.commit;
  previous_release_id = previous_id previous;
  previous_commit = previous_commit_of previous;
  actor = or_trimmed (str "system") history.created_by;
  note = history.message;
}

unfoldable pub prepare_release_event :
    Str → DeploymentHistory → Option DeploymentHistory → Result Envelope
prepare_release_event drawn history previous =
    new_release_published (new_id (str "evt") drawn) history.created_at
      (release_data history previous)

unfoldable pub prepare_release_rollback_event : Str → ReleaseRollbackResult → Result Envelope
prepare_release_rollback_event drawn result =
    new_release_rolled_back (new_id (str "evt") drawn) result.rolled_back_at (record {
      workspace = result.target.workspace;
      app_key = result.target.app;
      release_id = result.target.id;
      commit = result.target.commit;
      previous_release_id = result.previous_release_id;
      previous_commit = result.previous_commit;
      actor = result.audit.actor;
      reason = result.reason;
    })

unfoldable pub publish_release :
    Drawn → Deployment → Time → Releases → Time → Result (Releases × Deployment)
unfolding latest_release_history prepare_release_event tell
publish_release drawn d released_at s now =
    let (published, history, audit) = prepare_publication drawn.version d released_at now in
    let catalog = normalize_snapshot s.catalog in
    let previous =
      latest_release_history catalog.history (source_workspace published) published.app in
    do
      event ← prepare_release_event drawn.event history previous
      ok (
        record {
          catalog = add_publication catalog published history audit;
          hooks = tell drawn.delivery event (source_workspace published) published.app s.hooks now;
        },
        published,
      )

unfoldable pub rollback_release :
    Drawn → ReleaseRollbackRequest → Releases → Time → Result (Releases × ReleaseRollbackResult)
unfolding prepare_release_rollback_event tell
rollback_release drawn request s now = do
  done ← apply_release_rollback drawn.version s.catalog request now
  event ← prepare_release_rollback_event drawn.event done.1
  ok (
    record {
      catalog = done.0;
      hooks = tell drawn.delivery event done.1.target.workspace done.1.target.app s.hooks now;
    },
    done.1,
  )
