-- ===== src/State/Webhook/Retries.antt =====
-- RetryDelivery: a failed delivery is due again at once.
use windforce_lite.Prelude.{◌≡◌, refl, true, Option, none, some, arith}
use windforce_lite.Str.{Str, str, str_eq}
use windforce_lite.Table.{get, put}
use windforce_lite.Table.Laws.{get-put_self}
use windforce_lite.Contract.{normalize_workspace}
use windforce_lite.State.Types.{Time}
use windforce_lite.State.Result.{ok, Ensures, Ensures-ok, Ensures-or_fail, Ensures-guard}
use windforce_lite.State.Webhook.{
  Webhooks, Delivery, SubscriptionRecord, subscription_key, delivery_eligible, new_webhook_audit,
}
use windforce_lite.State.Webhook.Ops.{retry_delivery, retried, is_failed, is_open, append_audit}

-- The subscription is there, enabled and not deleted, and so the retried delivery is eligible.
open_eligible :
    (o : Option SubscriptionRecord) (d : Delivery) (now : Time)
    → is_open o ≡ true
    → (r : SubscriptionRecord) × (o ≡ some r) × (delivery_eligible (retried d now) r now ≡ true)
open_eligible none d now h = cc
open_eligible (some r) d now h = (r, refl, unfold delivery_eligible in ground arith)

-- The delivery failed before, and may be sent now.
abbrev pub IsDueAgain : Str → Webhooks → Time → Webhooks → Type 0
IsDueAgain delivery_id w now t =
    (d : Delivery) × (r : SubscriptionRecord) × (get delivery_id w.deliveries ≡ some d)
    × (is_failed d.state ≡ true)
    × (get (subscription_key d.workspace_id d.subscription_id) t.subscriptions ≡ some r)
    × (get d.id t.deliveries ≡ some (retried d now))
    × (delivery_eligible (retried d now) r now ≡ true)

due_again :
    (delivery_id : Str) (w : Webhooks) (now : Time) (t : Webhooks) (d : Delivery)
    → get delivery_id w.deliveries ≡ some d
    → is_failed d.state ≡ true
    → (r : SubscriptionRecord) × (get
          (subscription_key d.workspace_id d.subscription_id)
          t.subscriptions
        ≡ some r)
      × (delivery_eligible (retried d now) r now ≡ true)
    → get d.id t.deliveries ≡ some (retried d now)
    → IsDueAgain delivery_id w now t
due_again delivery_id w now t d e f (r, there, eligible) s = (d, r, e, f, there, s, eligible)

retry_delivery-IsDueAgain :
    (fresh workspace_id delivery_id actor : Str) (w : Webhooks) (now : Time)
    → Ensures
        (IsDueAgain delivery_id w now)
        (retry_delivery fresh workspace_id delivery_id actor w now)
unfolding retry_delivery
retry_delivery-IsDueAgain fresh workspace_id delivery_id actor w now =
    Ensures-or_fail (IsDueAgain delivery_id w now) (get delivery_id w.deliveries) _ _ λ d e.
      Ensures-guard (IsDueAgain delivery_id w now)
        (str_eq (normalize_workspace d.workspace_id) (normalize_workspace workspace_id)) _ _
        λ _. Ensures-guard (IsDueAgain delivery_id w now) (is_failed d.state) _ _ λ f.
          Ensures-guard (IsDueAgain delivery_id w now)
            (is_open (get (subscription_key d.workspace_id d.subscription_id) w.subscriptions)) _ _
            λ o.
              due_again delivery_id w now
                (record w {
                  deliveries = put d.id (retried d now) w.deliveries;
                  audits =
                      append_audit workspace_id
                        (new_webhook_audit fresh workspace_id d.subscription_id d.id
                          (str "webhook_delivery_retried") (str "failed delivery queued for retry")
                          actor now)
                        w.audits;
                })
                d e f (open_eligible _ d now o) (get-put_self d.id (retried d now) w.deliveries)

-- RetryDelivery takes a delivery only if it failed and its subscription is enabled and not deleted;
-- the delivery then may be claimed at once.
pub retry_delivery_lem :
    (fresh workspace_id delivery_id actor : Str) (w : Webhooks) (now : Time) (t : Webhooks)
    → retry_delivery fresh workspace_id delivery_id actor w now ≡ ok t
    → IsDueAgain delivery_id w now t
retry_delivery_lem fresh workspace_id delivery_id actor w now t e =
    Ensures-ok (IsDueAgain delivery_id w now)
      (retry_delivery fresh workspace_id delivery_id actor w now)
      (retry_delivery-IsDueAgain fresh workspace_id delivery_id actor w now) e
