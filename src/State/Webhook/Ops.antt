-- ===== src/State/Webhook/Ops.antt =====
-- internal/state/local_webhook.go: the operations on the queue of deliveries.
use windforce_lite.Prelude.{
  suc, ◌+◌, ltb, ◌==◌, Bool, true, false, not, ◌&&◌, ◌||◌, Option, none, some, List, [], ◌∷◌, ◌++◌,
  if◌then◌else◌, is_nil,
}
use windforce_lite.Prelude.Int.{ℤ}
use windforce_lite.Str.{Str, str, str_eq, trim_space}
use windforce_lite.Table.{Table, get, put, map_values}
use windforce_lite.Contract.{normalize_workspace}
use windforce_lite.Crypto.{Primitives}
use windforce_lite.State.Types.{
  Time, invalid_lease, no_pending_delivery, not_found, conflict, first_non_empty,
}
use windforce_lite.State.Result.{Result, ok, ◌>>=◌, ◌>>◌, guard, or_fail}
use windforce_lite.State.Crypto.{Config}
use windforce_lite.State.Ops.Lease.{lease_time}
use windforce_lite.State.Webhook.{
  Webhooks, Delivery, DeliveryState, DeliveryLease, DeliveryResult, SubscriptionRecord,
  ClaimedDelivery, Audit, subscription_key, delivery_eligible, local_subscription,
  validate_delivery_lease, validate_delivery_result, new_webhook_audit, is_none,
}

-- A delivery that is due earlier is taken first, then the older one.
unfoldable pub delivery_before : Delivery → Delivery → Bool
delivery_before d e =
    ltb d.next_attempt_at e.next_attempt_at
    || (d.next_attempt_at == e.next_attempt_at && ltb d.created_at e.created_at)

-- The delivery of the round, if it may be sent and comes before the one selected so far.
abbrev pub better :
    Delivery
    → Option SubscriptionRecord
    → Time
    → Option (Delivery × SubscriptionRecord)
    → Option (Delivery × SubscriptionRecord)
better d none now selected = selected
better d (some r) now none = if delivery_eligible d r now then some (d, r) else none
better d (some r) now (some (e, q)) =
    if delivery_eligible d r now && delivery_before d e then some (d, r) else some (e, q)

unfoldable pub select_delivery :
    Table SubscriptionRecord
    → Time
    → Table Delivery
    → Option (Delivery × SubscriptionRecord)
    → Option (Delivery × SubscriptionRecord)
select_delivery subscriptions now [] selected = selected
select_delivery subscriptions now ((id, d) ∷ deliveries) selected =
    select_delivery subscriptions now deliveries (
      better d (get (subscription_key d.workspace_id d.subscription_id) subscriptions) now selected)

abbrev pub delivering : Delivery → Str → Time → Time → Delivery
delivering d worker_id expires now = record d {
  state = DeliveryState.delivering;
  attempt = suc d.attempt;
  lease_owner = some worker_id;
  lease_expires_at = some expires;
  updated_at = now;
}

unfoldable pub claim_delivery :
    Primitives → Config → Str → ℤ → Webhooks → Time → Result (Webhooks × ClaimedDelivery)
unfolding select_delivery
claim_delivery p config worker lease_ttl w now = do
  let worker_id = trim_space worker
  guard (not (is_nil worker_id)) invalid_lease
  (d, r) ← or_fail (select_delivery w.subscriptions now w.deliveries none) no_pending_delivery
  subscription ← local_subscription p config r
  event ← or_fail (get d.event_id w.events) not_found
  let expires = now + lease_time lease_ttl
  let d' = delivering d worker_id expires now
  ok (
    record w { deliveries = put d'.id d' w.deliveries },
    record {
      delivery = d';
      event = event;
      subscription = subscription;
      lease = record {
        delivery_id = d'.id;
        worker_id = worker_id;
        attempt = d'.attempt;
        expires_at = expires;
      };
    },
  )

abbrev pub is_retrying : DeliveryState → Bool
is_retrying DeliveryState.retrying = true
is_retrying _ = false

-- A retry for a subscription that was deleted meanwhile is canceled.
unfoldable pub effective_state : DeliveryResult → SubscriptionRecord → DeliveryState
effective_state result r =
    if not (is_none r.deleted_at) && is_retrying result.state
    then DeliveryState.canceled
    else result.state

unfoldable pub effective_completed_at : DeliveryResult → SubscriptionRecord → Time → Option Time
unfolding effective_state
effective_completed_at result r now =
    if is_retrying (effective_state result r)
    then none
    else if not (is_none r.deleted_at) && is_retrying result.state
    then some now
    else some result.completed_at

unfoldable pub completed_delivery : Delivery → DeliveryResult → SubscriptionRecord → Time → Delivery
unfolding effective_state effective_completed_at
completed_delivery d result r now = record d {
  state = effective_state result r;
  next_attempt_at = result.next_attempt_at;
  response_status = result.response_status;
  latency_millis = result.latency_millis;
  error_summary = result.error_summary;
  lease_owner = none;
  lease_expires_at = none;
  updated_at = now;
  completed_at = effective_completed_at result r now;
}

unfoldable pub complete_delivery :
    DeliveryLease → DeliveryResult → Webhooks → Time → Result Webhooks
complete_delivery lease result w now = do
  validate_delivery_result result
  d ← or_fail (get lease.delivery_id w.deliveries) not_found
  validate_delivery_lease d lease
  r ← or_fail (get (subscription_key d.workspace_id d.subscription_id) w.subscriptions) not_found
  ok (record w { deliveries = put d.id (completed_delivery d result r now) w.deliveries })

abbrev or_no_audits : Option (List Audit) → List Audit
or_no_audits none = []
or_no_audits (some audits) = audits

-- snapshot.WebhookAudits[workspaceID] = append(snapshot.WebhookAudits[workspaceID], audit)
unfoldable pub append_audit : Str → Audit → Table (List Audit) → Table (List Audit)
append_audit workspace_id audit audits =
    put (normalize_workspace workspace_id)
      (or_no_audits (get (normalize_workspace workspace_id) audits) ++ audit ∷ []) audits

abbrev pub is_failed : DeliveryState → Bool
is_failed DeliveryState.failed = true
is_failed _ = false

-- !ok || record.DeletedAt != nil || !record.Enabled, negated
abbrev pub is_open : Option SubscriptionRecord → Bool
is_open none = false
is_open (some r) = is_none r.deleted_at && r.enabled

abbrev pub retried : Delivery → Time → Delivery
retried d now = record d {
  state = DeliveryState.retrying;
  next_attempt_at = now;
  lease_owner = none;
  lease_expires_at = none;
  completed_at = none;
  updated_at = now;
}

-- `fresh` is what NewID("wha") gives.
unfoldable pub retry_delivery : Str → Str → Str → Str → Webhooks → Time → Result Webhooks
retry_delivery fresh workspace_id delivery_id actor w now = do
  d ← or_fail (get delivery_id w.deliveries) not_found
  guard (str_eq (normalize_workspace d.workspace_id) (normalize_workspace workspace_id)) not_found
  guard (is_failed d.state) conflict
  guard (is_open (get (subscription_key d.workspace_id d.subscription_id) w.subscriptions)) conflict
  ok (record w {
    deliveries = put d.id (retried d now) w.deliveries;
    audits =
        append_audit workspace_id
          (new_webhook_audit fresh workspace_id d.subscription_id d.id
            (str "webhook_delivery_retried") (str "failed delivery queued for retry") actor now)
          w.audits;
  })

abbrev pub waits : DeliveryState → Bool
waits DeliveryState.pending = true
waits DeliveryState.retrying = true
waits _ = false

-- A delivery of the deleted subscription that still waits.
unfoldable pub cancel_delivery : Str → Str → Time → Delivery → Delivery
cancel_delivery workspace_id subscription_id now d =
    if str_eq (normalize_workspace d.workspace_id) (normalize_workspace workspace_id)
      && str_eq d.subscription_id subscription_id
      && waits d.state
    then record d { state = DeliveryState.canceled; updated_at = now; completed_at = some now }
    else d

abbrev pub deleted : SubscriptionRecord → Str → Time → SubscriptionRecord
deleted r actor now = record r {
  enabled = false;
  updated_by = first_non_empty (trim_space actor ∷ str "system" ∷ []);
  updated_at = now;
  deleted_at = some now;
}

unfoldable pub delete_subscription : Str → Str → Str → Str → Webhooks → Time → Result Webhooks
unfolding cancel_delivery
delete_subscription fresh workspace_id subscription_id actor w now = do
  r ← or_fail (get (subscription_key workspace_id subscription_id) w.subscriptions) not_found
  guard (is_none r.deleted_at) not_found
  ok (record w {
    subscriptions =
        put (subscription_key workspace_id subscription_id) (deleted r actor now) w.subscriptions;
    deliveries = map_values (cancel_delivery workspace_id subscription_id now) w.deliveries;
    audits =
        append_audit workspace_id
          (new_webhook_audit fresh workspace_id subscription_id []
            (str "webhook_subscription_deleted")
            (str "name=" ++ r.name ++ str "; subscription deleted") actor now)
          w.audits;
  })
