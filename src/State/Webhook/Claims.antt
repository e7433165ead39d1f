-- ===== src/State/Webhook/Claims.antt =====
-- What a claim of a delivery takes, and which delivery it is.
use windforce_lite.Prelude.{◌≡◌, suc, ◌+◌, ◌≤◌, ◌<◌, true, none, some, ◌⊎◌}
use windforce_lite.Prelude.Int.{ℤ, pos}
use windforce_lite.Str.{Str, trim_space}
use windforce_lite.Table.{Table, get}
use windforce_lite.Table.Laws.{AllEntries}
use windforce_lite.State.Types.{Time}
use windforce_lite.State.Webhook.{
  Webhooks, Delivery, DeliveryState, SubscriptionRecord, ClaimedDelivery, subscription_key,
}

-- The delivery waits and its time has come, or its worker's lease has ended.
abbrev pub IsDue : Time → Delivery → Type 0
IsDue now d =
    (((d.state ≡ DeliveryState.pending) ⊎ (d.state ≡ DeliveryState.retrying))
      × (d.next_attempt_at ≤ now))
    ⊎ ((ends : Time) × (d.state ≡ DeliveryState.delivering)
        × (d.lease_expires_at ≡ some ends)
        × (ends ≤ now))

-- The subscription of the delivery is there, enabled and not deleted, and the delivery is due.
abbrev pub MayBeSent : Webhooks → Time → Delivery → Type 0
MayBeSent w now d =
    (r : SubscriptionRecord) × (get (subscription_key d.workspace_id d.subscription_id)
        w.subscriptions
      ≡ some r)
    × (r.enabled ≡ true)
    × (r.deleted_at ≡ none)
    × IsDue now d

-- `d` is due earlier than `e`, or is due at the same time and not younger.
abbrev pub GoesFirst : Delivery → Delivery → Type 0
GoesFirst d e =
    (d.next_attempt_at < e.next_attempt_at)
    ⊎ ((d.next_attempt_at ≡ e.next_attempt_at) × (d.created_at ≤ e.created_at))

-- The time asked, where one that is not positive stands for thirty seconds.
abbrev pub asked_time : ℤ → Time
asked_time (pos (suc n)) = suc n
asked_time _ = 30_000_000_000

-- What a claim took from the webhooks `w`, and what it wrote.
pub record IsFirst (worker : Str) (lease_ttl : ℤ) (w : Webhooks) (now : Time) (t : Webhooks)
    (c : ClaimedDelivery) : Type 0 where
  pub found : Delivery
  pub may_be_sent : MayBeSent w now found
  pub goes_first :
      AllEntries (λ id other. MayBeSent w now other → GoesFirst found other) w.deliveries
  pub next_attempt : c.delivery ≡ record found {
    state = DeliveryState.delivering;
    attempt = suc found.attempt;
    lease_owner = some (trim_space worker);
    lease_expires_at = some (now + asked_time lease_ttl);
    updated_at = now;
  }
  pub lease : c.lease ≡ record {
    delivery_id = found.id;
    worker_id = trim_space worker;
    attempt = suc found.attempt;
    expires_at = now + asked_time lease_ttl;
  }
  pub carries : get found.event_id w.events ≡ some c.event
  pub stored : get found.id t.deliveries ≡ some c.delivery
