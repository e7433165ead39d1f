-- ===== src/State/Webhook.antt =====
-- internal/webhook/webhook.go, internal/state/webhook.go: webhook subscriptions and the queue of their deliveries.
pub mod Ops
pub mod Selected
pub mod Claims
pub mod Moves
pub mod Retries
mod Examples
use windforce_lite.Prelude.{
  ℕ, ◌≤◌, leb, ltb, ◌==◌, Bool, true, false, not, ◌&&◌, ◌||◌, Option, none, some, List, [], ◌∷◌,
  ◌++◌, if◌then◌else◌, is_nil,
}
use windforce_lite.Prelude.Int.{ℤ}
use windforce_lite.Str.{Str, str, str_eq, trim_space}
use windforce_lite.Table.{Table}
use windforce_lite.Json.{Raw, Json, json, text, null, malformed, absent}
use windforce_lite.Contract.{normalize_workspace, Slice, clone, elements}
use windforce_lite.Crypto.{Primitives}
use windforce_lite.Event.{Envelope}
use windforce_lite.State.Types.{
  Time, Err, invalid_lease, invalid_webhook, invalid_json, first_non_empty,
}
use windforce_lite.State.Result.{Result, ok, err, ◌>>=◌, guard, ◌>>◌}
use windforce_lite.State.Crypto.{Config, decrypt_json_at_rest}

pub data DeliveryState : Type 0 where
  pending delivering retrying succeeded failed canceled : DeliveryState

pub record Subscription : Type 0 where
  pub id : Str
  pub workspace_id : Str
  pub name : Str
  pub endpoint : Str
  pub signing_secret : Str
  pub event_types : Slice Str
  pub app_keys : Slice Str
  pub enabled : Bool
  pub created_by : Str
  pub updated_by : Str
  pub created_at : Time
  pub updated_at : Time
  pub deleted_at : Option Time

pub record SubscriptionRecord : Type 0 where
  pub id : Str
  pub workspace_id : Str
  pub name : Str
  pub endpoint_encrypted : Raw
  pub signing_secret_encrypted : Raw
  pub event_types : Slice Str
  pub app_keys : Slice Str
  pub enabled : Bool
  pub created_by : Str
  pub updated_by : Str
  pub created_at : Time
  pub updated_at : Time
  pub deleted_at : Option Time

pub record Delivery : Type 0 where
  pub id : Str
  pub workspace_id : Str
  pub event_id : Str
  pub subscription_id : Str
  pub state : DeliveryState
  pub attempt : ℕ
  pub next_attempt_at : Time
  pub lease_owner : Option Str
  pub lease_expires_at : Option Time
  pub response_status : Option ℤ
  pub latency_millis : Option ℤ
  pub error_summary : Option Str
  pub created_at : Time
  pub updated_at : Time
  pub completed_at : Option Time

pub record Audit : Type 0 where
  pub id : Str
  pub workspace_id : Str
  pub subscription_id : Str
  pub delivery_id : Str
  pub kind : Str
  pub detail : Str
  pub actor : Str
  pub created_at : Time

pub record DeliveryLease : Type 0 where
  pub delivery_id : Str
  pub worker_id : Str
  pub attempt : ℕ
  pub expires_at : Time

pub record DeliveryResult : Type 0 where
  pub state : DeliveryState
  pub next_attempt_at : Time
  pub response_status : Option ℤ
  pub latency_millis : Option ℤ
  pub error_summary : Option Str
  pub completed_at : Time

pub record ClaimedDelivery : Type 0 where
  pub delivery : Delivery
  pub event : Envelope
  pub subscription : Subscription
  pub lease : DeliveryLease

-- The part of the snapshot that the webhooks work on.
pub record Webhooks : Type 0 where
  pub subscriptions : Table SubscriptionRecord
  pub deliveries : Table Delivery
  pub events : Table Envelope
  pub audits : Table (List Audit)

unfoldable pub subscription_key : Str → Str → Str
subscription_key workspace_id subscription_id =
    normalize_workspace workspace_id ++ str "/" ++ subscription_id

-- json.Unmarshal into a string
abbrev decode_text : Raw → Result Str
decode_text (json (text s)) = ok s
decode_text (json null) = ok []
decode_text _ = err invalid_json

unfoldable pub decrypt_webhook_string : Primitives → Config → Str → Raw → Result Str
decrypt_webhook_string p config workspace_id value =
    decrypt_json_at_rest p none config workspace_id value (text []) >>= decode_text

unfoldable pub subscription_from_record : SubscriptionRecord → Str → Str → Subscription
subscription_from_record r endpoint signing_secret = record {
  id = r.id;
  workspace_id = r.workspace_id;
  name = r.name;
  endpoint = endpoint;
  signing_secret = signing_secret;
  event_types = clone (elements r.event_types);
  app_keys = clone (elements r.app_keys);
  enabled = r.enabled;
  created_by = r.created_by;
  updated_by = r.updated_by;
  created_at = r.created_at;
  updated_at = r.updated_at;
  deleted_at = r.deleted_at;
}

unfoldable pub local_subscription : Primitives → Config → SubscriptionRecord → Result Subscription
local_subscription p config r = do
  endpoint ← decrypt_webhook_string p config r.workspace_id r.endpoint_encrypted
  secret ← decrypt_webhook_string p config r.workspace_id r.signing_secret_encrypted
  ok (subscription_from_record r endpoint secret)

-- `fresh` is what NewID("wha") gives.
unfoldable pub new_webhook_audit : Str → Str → Str → Str → Str → Str → Str → Time → Audit
new_webhook_audit fresh workspace_id subscription_id delivery_id kind detail actor now = record {
  id = fresh;
  workspace_id = normalize_workspace workspace_id;
  subscription_id = trim_space subscription_id;
  delivery_id = trim_space delivery_id;
  kind = trim_space kind;
  detail = trim_space detail;
  actor = first_non_empty (trim_space actor ∷ str "system" ∷ []);
  created_at = now;
}

abbrev is_none : Option Time → Bool
is_none none = true
is_none (some t) = false

abbrev due : DeliveryState → Delivery → Time → Bool
due DeliveryState.pending d now = leb d.next_attempt_at now
due DeliveryState.retrying d now = leb d.next_attempt_at now
due DeliveryState.delivering d now = lease_ended d.lease_expires_at now
  where
    lease_ended : Option Time → Time → Bool
    lease_ended none now = false
    lease_ended (some t) now = leb t now
due _ d now = false

unfoldable pub delivery_eligible : Delivery → SubscriptionRecord → Time → Bool
delivery_eligible d r now = r.enabled && is_none r.deleted_at && due d.state d now

abbrev pub is_delivering : DeliveryState → Bool
is_delivering DeliveryState.delivering = true
is_delivering _ = false

abbrev lease_fits : Option Str → Option Time → Delivery → DeliveryLease → Bool
lease_fits (some owner) (some expires) d lease =
    str_eq owner lease.worker_id && d.attempt == lease.attempt && expires == lease.expires_at
lease_fits _ _ d lease = false

unfoldable pub validate_delivery_lease : Delivery → DeliveryLease → Result (Unit {0})
validate_delivery_lease d lease =
    guard (is_delivering d.state && lease_fits d.lease_owner d.lease_expires_at d lease)
      invalid_lease

abbrev result_fits : DeliveryState → DeliveryResult → Bool
result_fits DeliveryState.succeeded result = not (result.completed_at == 0)
result_fits DeliveryState.failed result = not (result.completed_at == 0)
result_fits DeliveryState.canceled result = not (result.completed_at == 0)
result_fits DeliveryState.retrying result = not (result.next_attempt_at == 0)
result_fits _ result = false

unfoldable pub validate_delivery_result : DeliveryResult → Result (Unit {0})
validate_delivery_result result = guard (result_fits result.state result) invalid_webhook
