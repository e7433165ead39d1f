-- ===== src/State/Webhook/Examples.antt =====
-- One subscription with one delivery: it is claimed, and then the subscription is deleted.
use windforce_lite.State.Webhook.Ops.{retry_delivery}
use windforce_lite.State.Webhook.Retries.{retry_delivery_lem, IsDueAgain}
use windforce_lite.Prelude.{ℕ, ℕ_discrete, ◌≡◌, ◌≢◌, refl, true, false, none, some, [], ◌∷◌, arith}
use windforce_lite.Prelude.Int.{pos}
use windforce_lite.Str.{str, str_dec, trim_space}
use windforce_lite.Table.{get, put, map_values}
use windforce_lite.Json.{json, text, absent}
use windforce_lite.Contract.{normalize_workspace}
use windforce_lite.Event.{Envelope}
use windforce_lite.Crypto.{Primitives, is_enc}
use windforce_lite.State.Types.{invalid_lease, first_non_empty}
use windforce_lite.State.Result.{Result, ok, err, Ensures}
use windforce_lite.State.Crypto.{Config, decrypt_json_at_rest}
use windforce_lite.State.Webhook.{
  Webhooks, Delivery, DeliveryState, DeliveryLease, DeliveryResult, SubscriptionRecord,
  ClaimedDelivery, subscription_key, delivery_eligible, decrypt_webhook_string,
  subscription_from_record, local_subscription, validate_delivery_result, new_webhook_audit,
}
use windforce_lite.State.Webhook.Ops.{
  claim_delivery, complete_delivery, select_delivery, delete_subscription, cancel_delivery,
  append_audit, waits,
}
use windforce_lite.State.Webhook.Moves.{
  fenced_delivery, deleted_never_claimed, deleted_never_waits, HasEnded,
}

-- No value of the example is encrypted, so the cipher is not used.
abbrev unused : Primitives
unused = record {
  encode = λ s. s;
  decode = λ s. none;
  seal = λ key nonce s. s;
  open_sealed = λ key nonce s. none;
  digest = λ s. s;
  marshal = λ j. [];
  unmarshal = λ s. none;
}

abbrev no_keys : Config
no_keys = record { secret_key = []; secret_key_previous = [] }

abbrev hook : SubscriptionRecord
hook = record {
  id = str "s";
  workspace_id = str "w";
  name = str "n";
  endpoint_encrypted = json (text (str "u"));
  signing_secret_encrypted = json (text (str "x"));
  event_types = none;
  app_keys = none;
  enabled = true;
  created_by = [];
  updated_by = [];
  created_at = 1;
  updated_at = 1;
  deleted_at = none;
}

abbrev delivery : Delivery
delivery = record {
  id = str "d";
  workspace_id = str "w";
  event_id = str "e";
  subscription_id = str "s";
  state = DeliveryState.pending;
  attempt = 0;
  next_attempt_at = 2;
  lease_owner = none;
  lease_expires_at = none;
  response_status = none;
  latency_millis = none;
  error_summary = none;
  created_at = 2;
  updated_at = 2;
  completed_at = none;
}

abbrev event : Envelope
event = record {
  spec_version = [];
  id = str "e";
  event_type = [];
  source = [];
  subject = [];
  time = 1;
  data_content_type = [];
  content = absent;
}

abbrev hooks : Webhooks
hooks = record {
  subscriptions = (str "w/s", hook) ∷ [];
  deliveries = (str "d", delivery) ∷ [];
  events = (str "e", event) ∷ [];
  audits = [];
}

abbrev claimed_or : Result (Webhooks × ClaimedDelivery) → Webhooks × ClaimedDelivery
claimed_or (ok r) = r
claimed_or (err e) = (
  hooks,
  record {
    delivery = delivery;
    event = event;
    subscription = subscription_from_record hook [] [];
    lease = record { delivery_id = []; worker_id = []; attempt = 0; expires_at = 0 };
  },
)

abbrev sending : Webhooks × ClaimedDelivery
sending = claimed_or (claim_delivery unused no_keys (str "k") (pos 5) hooks 3)

sends : claim_delivery unused no_keys (str "k") (pos 5) hooks 3 ≡ ok sending
unfolding claim_delivery select_delivery subscription_key normalize_workspace trim_space get str_dec
    ℕ_discrete delivery_eligible local_subscription decrypt_webhook_string decrypt_json_at_rest
    is_enc put
sends = refl

abbrev old_lease : DeliveryLease
old_lease = record { delivery_id = str "d"; worker_id = str "k"; attempt = 0; expires_at = 8 }

abbrev outcome : DeliveryResult
outcome = record {
  state = DeliveryState.retrying;
  next_attempt_at = 9;
  response_status = none;
  latency_millis = none;
  error_summary = none;
  completed_at = 0;
}

outcome_fits : validate_delivery_result outcome ≡ ok tt
unfolding validate_delivery_result
outcome_fits = refl

same_delivery : str "d" ≡ sending.1.lease.delivery_id
unfolding claim_delivery select_delivery subscription_key normalize_workspace trim_space get str_dec
    ℕ_discrete delivery_eligible local_subscription decrypt_webhook_string decrypt_json_at_rest
    is_enc put
same_delivery = refl

other_attempt : 0 ≢ sending.1.lease.attempt
unfolding claim_delivery select_delivery subscription_key normalize_workspace trim_space get str_dec
    ℕ_discrete delivery_eligible local_subscription decrypt_webhook_string decrypt_json_at_rest
    is_enc put
other_attempt e = omega (arith, e)

fenced_delivery_example : complete_delivery old_lease outcome sending.0 4 ≡ err invalid_lease
fenced_delivery_example =
    fenced_delivery unused no_keys (str "k") (pos 5) hooks 3 sending.0 sending.1 old_lease outcome 4
      sends same_delivery other_attempt outcome_fits

abbrev hooks_or : Result Webhooks → Webhooks
hooks_or (ok w) = w
hooks_or (err e) = hooks

-- A second subscription, whose delivery is claimed after the first is deleted.
abbrev two_hooks : Webhooks
two_hooks = record hooks {
  subscriptions = (str "w/s", hook) ∷ (str "w/t", record hook { id = str "t" }) ∷ [];
  deliveries =
      (str "d", delivery)
      ∷ (str "f", record delivery { id = str "f"; subscription_id = str "t" })
      ∷ [];
}

abbrev remaining : Webhooks
remaining = hooks_or (delete_subscription (str "a") (str "w") (str "s") [] two_hooks 4)

deletes : delete_subscription (str "a") (str "w") (str "s") [] two_hooks 4 ≡ ok remaining
unfolding delete_subscription subscription_key normalize_workspace trim_space get str_dec ℕ_discrete
deletes = refl

abbrev last : Webhooks × ClaimedDelivery
last = claimed_or (claim_delivery unused no_keys (str "k") (pos 5) remaining 5)

sends_last : claim_delivery unused no_keys (str "k") (pos 5) remaining 5 ≡ ok last
unfolding claim_delivery select_delivery subscription_key normalize_workspace trim_space get str_dec
    ℕ_discrete delivery_eligible local_subscription decrypt_webhook_string decrypt_json_at_rest
    is_enc put delete_subscription map_values cancel_delivery append_audit new_webhook_audit
    first_non_empty
sends_last = refl

deleted_never_claimed_example :
    subscription_key last.1.delivery.workspace_id last.1.delivery.subscription_id
    ≢ subscription_key (str "w") (str "s")
deleted_never_claimed_example =
    deleted_never_claimed (str "a") (str "w") (str "s") [] two_hooks 4 remaining deletes unused
      no_keys (str "k") (pos 5) 5 last.0 last.1 sends_last

abbrev canceled_delivery : Delivery
canceled_delivery = record delivery {
  state = DeliveryState.canceled;
  updated_at = 4;
  completed_at = some 4;
}

found_canceled : get (str "d") remaining.deliveries ≡ some canceled_delivery
unfolding delete_subscription subscription_key normalize_workspace trim_space get str_dec ℕ_discrete
    map_values cancel_delivery
found_canceled = refl

deleted_never_waits_example :
    (waits canceled_delivery.state ≡ false)
    × ((lease : DeliveryLease) (result : DeliveryResult) (later : ℕ)
        → Ensures
            (HasEnded canceled_delivery.id)
            (complete_delivery (record lease { delivery_id = str "d" }) result remaining later))
deleted_never_waits_example =
    deleted_never_waits (str "a") (str "w") (str "s") [] two_hooks 4 remaining deletes (str "d")
      canceled_delivery found_canceled refl refl

abbrev given_up : Webhooks
given_up = record hooks {
  deliveries = (str "d", record delivery { state = DeliveryState.failed }) ∷ [];
}

abbrev retrying : Webhooks
retrying = hooks_or (retry_delivery (str "a") (str "w") (str "d") [] given_up 9)

retries : retry_delivery (str "a") (str "w") (str "d") [] given_up 9 ≡ ok retrying
unfolding retry_delivery subscription_key normalize_workspace trim_space get str_dec ℕ_discrete
retries = refl

retry_delivery_lem_example : IsDueAgain (str "d") given_up 9 retrying
retry_delivery_lem_example =
    retry_delivery_lem (str "a") (str "w") (str "d") [] given_up 9 retrying retries
