-- ===== src/State/Webhook/Moves.antt =====
-- Deliveries under a lease, and the deliveries of a subscription that is deleted.
use windforce_lite.Prelude.{
  ◌≡◌, ◌≢◌, refl, sym, ap, ◌∙◌, subst, true, false, ◌&&◌, some, if◌then◌else◌, Bool-cases, inl, inr,
  arith,
}
use mathlib.Core.Option.{some-injective}
use windforce_lite.Prelude.Int.{ℤ}
use windforce_lite.Str.{Str, str_eq}
use windforce_lite.Table.{get, put, map_values}
use windforce_lite.Table.Laws.{get-put_self, get-map_values_inv}
use windforce_lite.Contract.{normalize_workspace}
use windforce_lite.Crypto.{Primitives}
use windforce_lite.State.Types.{Time, invalid_lease, invalid_webhook}
use windforce_lite.State.Result.{
  ok, err, guard, or_fail, Ensures, Ensures-ok, Ensures-bind, Ensures-guard, Ensures-or_fail,
}
use windforce_lite.State.Crypto.{Config}
use windforce_lite.State.Webhook.{
  Webhooks, Delivery, DeliveryState, DeliveryLease, DeliveryResult, SubscriptionRecord,
  ClaimedDelivery, subscription_key, delivery_eligible, validate_delivery_lease,
  validate_delivery_result, is_none, lease_fits, result_fits, is_delivering,
}
use windforce_lite.State.Webhook.Ops.{
  claim_delivery, complete_delivery, completed_delivery, effective_state, delete_subscription,
  cancel_delivery, deleted, waits, is_retrying,
}
use windforce_lite.State.Webhook.Selected.{claim_delivery-IsSelected}

-- After a claim, a lease of the delivery with another attempt opens nothing: a completion with a result
-- that is valid in itself is refused.
pub fenced_delivery :
    (p : Primitives) (config : Config) (worker : Str) (lease_ttl : ℤ) (w : Webhooks) (now : Time)
    (t : Webhooks) (c : ClaimedDelivery) (old : DeliveryLease) (result : DeliveryResult)
    (later : Time)
    → claim_delivery p config worker lease_ttl w now ≡ ok (t, c)
    → old.delivery_id ≡ c.lease.delivery_id
    → old.attempt ≢ c.lease.attempt
    → validate_delivery_result result ≡ ok tt
    → complete_delivery old result t later ≡ err invalid_lease
unfolding complete_delivery validate_delivery_lease
fenced_delivery p config worker lease_ttl w now t c old result later e same other v =
    let h = claim_delivery-IsSelected p config worker lease_ttl w now t c e in
    let closed : (is_delivering c.delivery.state
          && lease_fits c.delivery.lease_owner c.delivery.lease_expires_at c.delivery old)
        ≡ false =
      subst
        (λ d. (is_delivering d.state && lease_fits d.lease_owner d.lease_expires_at d old) ≡ false)
        (sym h.leased_now)
        (ground (arith, h.lease_attempt ∙ ap (λ (d : Delivery). d.attempt) h.leased_now)) in
    rw (v, ap (λ i. get i t.deliveries) same ∙ h.stored, or_fail) (rw (closed, guard) refl)

-- What DeleteSubscription writes.
record IsDeleted (workspace_id subscription_id actor : Str) (w : Webhooks) (now : Time)
    (t : Webhooks) : Type 0 where
  gone : SubscriptionRecord
  subscriptions_after :
      t.subscriptions
      ≡ put (subscription_key workspace_id subscription_id) (deleted gone actor now) w.subscriptions
  deliveries_after :
      t.deliveries ≡ map_values (cancel_delivery workspace_id subscription_id now) w.deliveries

delete_subscription-IsDeleted :
    (fresh workspace_id subscription_id actor : Str) (w : Webhooks) (now : Time)
    → Ensures
        (IsDeleted workspace_id subscription_id actor w now)
        (delete_subscription fresh workspace_id subscription_id actor w now)
unfolding delete_subscription
delete_subscription-IsDeleted fresh workspace_id subscription_id actor w now =
    Ensures-or_fail (IsDeleted workspace_id subscription_id actor w now)
      (get (subscription_key workspace_id subscription_id) w.subscriptions) _ _
      λ r _.
        Ensures-guard (IsDeleted workspace_id subscription_id actor w now) (is_none r.deleted_at) _
          _ λ _. record { gone = r; subscriptions_after = refl; deliveries_after = refl }

-- The delivery is there and waits no more.
abbrev pub HasEnded : Str → Webhooks → Type 0
HasEnded id u = (d : Delivery) × (get id u.deliveries ≡ some d) × (waits d.state ≡ false)

module _ (fresh workspace_id subscription_id actor : Str) (w : Webhooks) (now : Time) (t : Webhooks)
    (e : delete_subscription fresh workspace_id subscription_id actor w now ≡ ok t) where
  deletion : IsDeleted workspace_id subscription_id actor w now t
  deletion =
      Ensures-ok (IsDeleted workspace_id subscription_id actor w now) _
        (delete_subscription-IsDeleted fresh workspace_id subscription_id actor w now) e

  record_after :
      get (subscription_key workspace_id subscription_id) t.subscriptions
      ≡ some (deleted deletion.gone actor now)
  record_after =
      ap (get (subscription_key workspace_id subscription_id)) deletion.subscriptions_after
      ∙ get-put_self (subscription_key workspace_id subscription_id)
          (deleted deletion.gone actor now) w.subscriptions

  -- A claim on the snapshot that a deletion of a subscription leaves never takes a delivery of it.
  pub deleted_never_claimed :
      (p : Primitives) (config : Config) (worker : Str) (lease_ttl : ℤ) (later : Time)
      (u : Webhooks) (c : ClaimedDelivery)
      → claim_delivery p config worker lease_ttl t later ≡ ok (u, c)
      → subscription_key c.delivery.workspace_id c.delivery.subscription_id
        ≢ subscription_key workspace_id subscription_id
  deleted_never_claimed p config worker lease_ttl later u c claimed same =
      let h = claim_delivery-IsSelected p config worker lease_ttl t later u c claimed in
      let key : subscription_key h.found.workspace_id h.found.subscription_id
          ≡ subscription_key workspace_id subscription_id =
        ap (λ (d : Delivery). subscription_key d.workspace_id d.subscription_id) (sym h.leased_now)
        ∙ same in
      let record_found =
        subst (λ k. get k t.subscriptions ≡ some h.subscription) key h.sendable.0 in
      let is_it : deleted deletion.gone actor now ≡ h.subscription =
        some-injective _ _ (sym record_after ∙ record_found) in
      not_eligible h.found
        (subst (λ r. delivery_eligible h.found r later ≡ true) (sym is_it) h.sendable.1)
    where
      not_eligible :
          (d : Delivery) → delivery_eligible d (deleted deletion.gone actor now) later ≢ true
      not_eligible d x = unfold delivery_eligible in cc

  -- A delivery after a deletion: it is what `cancel_delivery` made of one from before.
  canceled_waits :
      (d : Delivery)
      → str_eq (normalize_workspace d.workspace_id) (normalize_workspace workspace_id) ≡ true
      → str_eq d.subscription_id subscription_id ≡ true
      → waits (cancel_delivery workspace_id subscription_id now d).state ≡ false
  unfolding cancel_delivery
  canceled_waits d h k = elim (Bool-cases (waits d.state)) [
    | inl x ↦ rw (h, k, x) refl
    | inr x ↦ rw (h, k, x) x
  ]

  cancel_delivery-same :
      (d : Delivery)
      → ((cancel_delivery workspace_id subscription_id now d).workspace_id ≡ d.workspace_id)
        × ((cancel_delivery workspace_id subscription_id now d).subscription_id ≡ d.subscription_id)
  unfolding cancel_delivery
  cancel_delivery-same d =
      elim (Bool-cases (
        str_eq (normalize_workspace d.workspace_id) (normalize_workspace workspace_id)
        && str_eq d.subscription_id subscription_id
        && waits d.state)) [ inl x ↦ rw x (refl, refl) | inr x ↦ rw x (refl, refl) ]

  -- A completion for a subscription that is gone never leaves the delivery waiting.
  effective_state-deleted :
      (result : DeliveryResult)
      → validate_delivery_result result ≡ ok tt
      → waits (effective_state result (deleted deletion.gone actor now)) ≡ false
  unfolding effective_state validate_delivery_result
  effective_state-deleted result v = by_state result.state fits
    where
      fits : result_fits result.state result ≡ true
      fits = elim (Bool-cases (result_fits result.state result)) [
        | inl x ↦ x
        | inr x ↦ absurd (refused (rw (x, guard) at v))
      ]
        where
          refused : err invalid_webhook ≢ ok (tt {0})
          refused r = cc

      by_state :
          (s : DeliveryState)
          → result_fits s result ≡ true
          → waits (if is_retrying s then DeliveryState.canceled else s) ≡ false
      by_state DeliveryState.pending h = cc
      by_state DeliveryState.delivering h = cc
      by_state DeliveryState.retrying h = refl
      by_state DeliveryState.succeeded h = refl
      by_state DeliveryState.failed h = refl
      by_state DeliveryState.canceled h = refl

  -- In the snapshot that the deletion of a subscription leaves, none of its deliveries waits to
  -- be sent, and none waits again by a completion that is accepted: a worker that was sending
  -- one and reports a retry finds it canceled.
  pub deleted_never_waits :
      (id : Str) (d : Delivery)
      → get id t.deliveries ≡ some d
      → normalize_workspace d.workspace_id ≡ normalize_workspace workspace_id
      → d.subscription_id ≡ subscription_id
      → (waits d.state ≡ false)
        × ((lease : DeliveryLease) (result : DeliveryResult) (later : Time)
            → Ensures
                (HasEnded d.id)
                (complete_delivery (record lease { delivery_id = id }) result t later))
  deleted_never_waits id d there same_workspace same_id = (not_waiting, completed)
    where
      not_waiting : waits d.state ≡ false
      not_waiting =
          let (before, _, is_d) =
            get-map_values_inv id (cancel_delivery workspace_id subscription_id now) d w.deliveries
              (subst (λ m. get id m ≡ some d) deletion.deliveries_after there) in
          let (p, q) = cancel_delivery-same before in
          subst (λ (x : Delivery). waits x.state ≡ false) is_d
            (canceled_waits before
              (ground (
                arith,
                str_eq,
                ap normalize_workspace (sym p ∙ ap (λ (x : Delivery). x.workspace_id) is_d)
                    ∙ same_workspace,
              ))
              (ground
                (arith, str_eq, sym q ∙ ap (λ (x : Delivery). x.subscription_id) is_d ∙ same_id)))

      key :
          subscription_key d.workspace_id d.subscription_id
          ≡ subscription_key workspace_id subscription_id
      key = unfold subscription_key in rw (same_workspace, same_id) refl

      ended :
          (found : Delivery) (r : SubscriptionRecord) (result : DeliveryResult) (later : Time)
          → found ≡ d
          → r ≡ deleted deletion.gone actor now
          → validate_delivery_result result ≡ ok tt
          → HasEnded d.id (record t {
            deliveries = put found.id (completed_delivery found result r later) t.deliveries;
          })
      ended found r result later p q v = (
        completed_delivery found result r later,
        subst
            (λ i.
              get i (put found.id (completed_delivery found result r later) t.deliveries)
              ≡ some (completed_delivery found result r later))
            (ap (λ (x : Delivery). x.id) p) (get-put_self found.id _ t.deliveries),
        unfold completed_delivery in
            subst (λ r. waits (effective_state result r) ≡ false) (sym q)
              (effective_state-deleted result v),
      )

      completed :
          (lease : DeliveryLease) (result : DeliveryResult) (later : Time)
          → Ensures
              (HasEnded d.id)
              (complete_delivery (record lease { delivery_id = id }) result t later)
      completed lease result later =
          unfold complete_delivery in
          Ensures-bind (HasEnded d.id) (validate_delivery_result result) _ λ _ v.
            Ensures-or_fail (HasEnded d.id) (get id t.deliveries) _ _ λ found e'.
              let p = some-injective found d (sym e' ∙ there) in
              Ensures-bind (HasEnded d.id)
                (validate_delivery_lease found (record lease { delivery_id = id })) _
                λ _ _.
                  Ensures-or_fail (HasEnded d.id)
                    (get (subscription_key found.workspace_id found.subscription_id)
                      t.subscriptions)
                    _ _
                    λ r r_found.
                      ended found r result later p
                        (some-injective r (deleted deletion.gone actor now) (
                          sym r_found
                          ∙ ap (λ k. get k t.subscriptions)
                              (ap
                                  (λ (x : Delivery).
                                    subscription_key x.workspace_id x.subscription_id)
                                  p
                                ∙ key)
                          ∙ record_after))
                        v
