-- ===== src/State/Webhook/Selected.antt =====
-- What ClaimDelivery selects, in the words of its own tests: an eligible delivery that no other
-- eligible one comes before.
use windforce_lite.Prelude.{
  ◌≡◌, refl, sym, ◌∙◌, subst, ◌+◌, true, false, not, ◌&&◌, Option, none, some, [], ◌∷◌, is_nil,
  Bool-cases, inl, inr, arith,
}
use mathlib.Core.Option.{some-injective}
use windforce_lite.Prelude.Int.{ℤ}
use windforce_lite.Str.{Str, trim_space}
use windforce_lite.Table.{Table, get}
use windforce_lite.Table.Laws.{AllEntries, get-put_self}
use windforce_lite.Crypto.{Primitives}
use windforce_lite.State.Types.{Time}
use windforce_lite.State.Result.{
  ok, Ensures, Ensures-ok, Ensures-bind, Ensures-guard, Ensures-or_fail,
}
use windforce_lite.State.Crypto.{Config}
use windforce_lite.State.Ops.Lease.{lease_time}
use windforce_lite.State.Webhook.{
  Webhooks, Delivery, SubscriptionRecord, ClaimedDelivery, subscription_key, delivery_eligible,
  local_subscription,
}
use windforce_lite.State.Webhook.Ops.{
  claim_delivery, select_delivery, better, delivery_before, delivering,
}

before_asymm : (d e : Delivery) → delivery_before d e ≡ true → delivery_before e d ≡ false
unfolding delivery_before
before_asymm d e h = ground arith

before_weak :
    (d e f : Delivery)
    → delivery_before e d ≡ false
    → delivery_before f e ≡ false
    → delivery_before f d ≡ false
unfolding delivery_before
before_weak d e f h k = ground arith

module _ (subscriptions : Table SubscriptionRecord) (now : Time) where
  -- The delivery may be sent to the subscription.
  abbrev pub IsSendable : Delivery → SubscriptionRecord → Type 0
  IsSendable d r =
      (get (subscription_key d.workspace_id d.subscription_id) subscriptions ≡ some r)
      × (delivery_eligible d r now ≡ true)

  -- A delivery that may be sent does not come before `d`.
  abbrev pub IsBehind : Delivery → Str → Delivery → Type 0
  IsBehind d id e = (r : SubscriptionRecord) → IsSendable e r → delivery_before e d ≡ false

  abbrev SelectedSendable : Option (Delivery × SubscriptionRecord) → Type 0
  SelectedSendable none = Unit
  SelectedSendable (some (d, r)) = IsSendable d r

  abbrev SelectedBehind : Delivery → Option (Delivery × SubscriptionRecord) → Type 0
  SelectedBehind d none = Unit
  SelectedBehind d (some (e, r)) = delivery_before e d ≡ false

  better-Sendable :
      (x : Delivery) (o : Option SubscriptionRecord)
      (selected : Option (Delivery × SubscriptionRecord))
      → get (subscription_key x.workspace_id x.subscription_id) subscriptions ≡ o
      → SelectedSendable selected
      → SelectedSendable (better x o now selected)
  better-Sendable x none selected e s = s
  better-Sendable x (some r) none e s = elim (Bool-cases (delivery_eligible x r now)) [
    | inl h ↦ rw h (e, h)
    | inr h ↦ rw h tt
  ]
  better-Sendable x (some r) (some (d, q)) e s =
      elim (Bool-cases (delivery_eligible x r now && delivery_before x d)) [
        | inl h ↦ rw h (e, ground arith)
        | inr h ↦ rw h s
      ]

  better-Behind :
      (x : Delivery) (o : Option SubscriptionRecord)
      (selected : Option (Delivery × SubscriptionRecord)) (d : Delivery)
      → get (subscription_key x.workspace_id x.subscription_id) subscriptions ≡ o
      → SelectedBehind d (better x o now selected)
      → SelectedBehind d selected
        × ((r : SubscriptionRecord) → IsSendable x r → delivery_before x d ≡ false)
  better-Behind x none selected d e b = (b, λ r s. cc)
  better-Behind x (some r) none d e b = elim (Bool-cases (delivery_eligible x r now)) [
    | inl h ↦ (tt, λ q s. rw h at b)
    | inr h ↦ (
      tt,
      λ q s.
          let same : r ≡ q = some-injective r q (sym e ∙ s.0) in
          absurd (ground (arith, subst (λ q. delivery_eligible x q now ≡ true) (sym same) s.1)),
    )
  ]
  better-Behind x (some r) (some (f, q)) d e b =
      elim (Bool-cases (delivery_eligible x r now && delivery_before x f)) [
        | inl h ↦
            let b' : delivery_before x d ≡ false = rw h at b in
            (before_weak d x f b' (before_asymm x f (ground arith)), λ _ s. b')
        | inr h ↦
            let b' : delivery_before f d ≡ false = rw h at b in
            (
              b',
              λ p s.
                  let same : r ≡ p = some-injective r p (sym e ∙ s.0) in
                  let eligible : delivery_eligible x r now ≡ true =
                    subst (λ q. delivery_eligible x q now ≡ true) (sym same) s.1 in
                  before_weak d f x b' (ground arith),
            )
      ]

  select_delivery_lem :
      (deliveries : Table Delivery) (selected : Option (Delivery × SubscriptionRecord))
      (d : Delivery) (r : SubscriptionRecord)
      → SelectedSendable selected
      → select_delivery subscriptions now deliveries selected ≡ some (d, r)
      → IsSendable d r × SelectedBehind d selected × AllEntries (IsBehind d) deliveries
  unfolding select_delivery
  select_delivery_lem [] selected d r s e =
      (subst SelectedSendable e s, subst (SelectedBehind d) (sym e) (first d), tt)
    where
      first : (d : Delivery) → delivery_before d d ≡ false
      first d = unfold delivery_before in ground arith
  select_delivery_lem ((id, x) ∷ deliveries) selected d r s e =
      let o = get (subscription_key x.workspace_id x.subscription_id) subscriptions in
      let (sendable, behind, rest) =
        select_delivery_lem deliveries (better x o now selected) d r
          (better-Sendable x o selected refl s) e in
      let (b, here) = better-Behind x o selected d refl behind in (sendable, b, (here, rest))

-- What a claim took from the webhooks `w`.
pub record IsSelected (worker : Str) (lease_ttl : ℤ) (w : Webhooks) (now : Time) (t : Webhooks)
    (c : ClaimedDelivery) : Type 0 where
  pub found : Delivery
  pub subscription : SubscriptionRecord
  pub sendable : IsSendable w.subscriptions now found subscription
  pub none_before : AllEntries (IsBehind w.subscriptions now found) w.deliveries
  pub leased_now :
      c.delivery ≡ delivering found (trim_space worker) (now + lease_time lease_ttl) now
  pub stored : get c.lease.delivery_id t.deliveries ≡ some c.delivery
  pub leased : c.lease ≡ record {
    delivery_id = found.id;
    worker_id = trim_space worker;
    attempt = c.delivery.attempt;
    expires_at = now + lease_time lease_ttl;
  }
  pub carries : get found.event_id w.events ≡ some c.event
  pub lease_attempt : c.lease.attempt ≡ c.delivery.attempt
  pub same_subscriptions : t.subscriptions ≡ w.subscriptions

abbrev Selects : Str → ℤ → Webhooks → Time → Webhooks × ClaimedDelivery → Type 0
Selects worker lease_ttl w now (t, c) = IsSelected worker lease_ttl w now t c

pub claim_delivery-IsSelected :
    (p : Primitives) (config : Config) (worker : Str) (lease_ttl : ℤ) (w : Webhooks) (now : Time)
    (t : Webhooks) (c : ClaimedDelivery)
    → claim_delivery p config worker lease_ttl w now ≡ ok (t, c)
    → IsSelected worker lease_ttl w now t c
claim_delivery-IsSelected p config worker lease_ttl w now t c e =
    Ensures-ok (Selects worker lease_ttl w now) (claim_delivery p config worker lease_ttl w now)
      claimed e
  where
    claimed :
        Ensures (Selects worker lease_ttl w now) (claim_delivery p config worker lease_ttl w now)
    claimed =
        unfold claim_delivery in
        Ensures-guard (Selects worker lease_ttl w now) (not (is_nil (trim_space worker))) _ _ λ _.
          Ensures-or_fail (Selects worker lease_ttl w now)
            (select_delivery w.subscriptions now w.deliveries none) _ _
            λ s chosen.
              Ensures-bind (Selects worker lease_ttl w now) (local_subscription p config s.1) _
                λ subscription _.
                  Ensures-or_fail (Selects worker lease_ttl w now) (get s.0.event_id w.events) _ _
                    λ event carried.
                      let h =
                        select_delivery_lem w.subscriptions now w.deliveries none s.0 s.1 tt
                          chosen in
                      record {
                        found = s.0;
                        subscription = s.1;
                        sendable = h.0;
                        none_before = h.2;
                        leased_now = refl;
                        stored =
                            get-put_self s.0.id
                              (delivering s.0 (trim_space worker) (now + lease_time lease_ttl) now)
                              w.deliveries;
                        leased = refl;
                        carries = carried;
                        lease_attempt = refl;
                        same_subscriptions = refl;
                      }
