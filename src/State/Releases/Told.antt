-- ===== src/State/Releases/Told.antt =====
-- Who is told of a release that is published.
use windforce_lite.Prelude.{
  ◌≡◌, ◌≢◌, refl, ◌∙◌, ap, sym, subst₂, if_pos, if_neg, not, Bool, true, false, Option, none, some,
  [], ◌∷◌, if◌then◌else◌, Bool-cases, inl, inr,
}
use windforce_lite.Str.{Str, str, str_dec}
use windforce_lite.Table.{Table, get, put, Distinct}
use windforce_lite.Table.Laws.{
  get-put_self, get-put_ne, get-delete_where, delete_where-Distinct, drop_if,
}
use windforce_lite.Contract.{Deployment, source_workspace, normalize_workspace}
use windforce_lite.State.Types.{Time, deployment_not_found}
use windforce_lite.State.Result.{ok, or_fail}
use windforce_lite.Event.{Envelope, ReleasePublishedData, release_published_type}
use windforce_lite.Event.Reading.{release_published}
use windforce_lite.Event.Making.{published_envelope, prepared_published}
use windforce_lite.Event.Made.{release_published-published_envelope}
use windforce_lite.Event.Checks.{publishable, new_release_published_lem}
use windforce_lite.Catalog.{deployment_key, DeploymentHistory}
use windforce_lite.Catalog.Publish.{
  prepare_publication, add_publication, get_deployment_for_workspace,
}
use windforce_lite.Catalog.Rollback.{normalize_snapshot}
use windforce_lite.State.Webhook.{SubscriptionRecord, Delivery, DeliveryState, Webhooks}
use windforce_lite.State.Settings.Clients.{new_id}
use windforce_lite.State.Releases.Wanted.{Wants, matching-Wants, Wants-matching}
use windforce_lite.State.Releases.{
  Releases, Drawn, is_matching, matching_subscriptions, new_webhook_delivery, add_deliveries, tell,
  latest_release_history, release_data, prepare_release_event, publish_release,
}

ok_inj {ℓ} : {A : Type ℓ} {a b : A} → ok a ≡ ok b → a ≡ b
ok_inj e = cc

-- The id of the delivery to the subscription under a key.
abbrev pub delivery_id : (Str → Str) → Str → Str
delivery_id drawn key = new_id (str "whd") (drawn key)

module _ (drawn : Str → Str) (distinct : (j k : Str) → drawn j ≡ drawn k → j ≡ k) (event : Envelope)
    (workspace_id : Str) (now : Time) where
  abbrev delivery_to : Str → SubscriptionRecord → Delivery
  delivery_to key r = new_webhook_delivery (drawn key) event workspace_id r.id now

  delivery_id_inj : (j k : Str) → delivery_id drawn j ≡ delivery_id drawn k → j ≡ k
  delivery_id_inj j k e = distinct j k (cc)

  abbrev told : Str → Option SubscriptionRecord → Table Delivery → Option Delivery
  told key none deliveries = get (delivery_id drawn key) deliveries
  told key (some r) deliveries = some (delivery_to key r)

  told_other :
      (key j : Str) (r : SubscriptionRecord) (o : Option SubscriptionRecord)
      (deliveries : Table Delivery)
      → j ≢ key
      → told key o (put (delivery_id drawn j) (delivery_to j r) deliveries) ≡ told key o deliveries
  told_other key j r none deliveries q =
      get-put_ne (delivery_id drawn key) (delivery_id drawn j) (delivery_to j r) deliveries
        (λ e. q (delivery_id_inj j key e))
  told_other key j r (some x) deliveries q = refl

  told_self :
      (key j : Str) (r : SubscriptionRecord) (deliveries : Table Delivery)
      → j ≡ key
      → told key none (put (delivery_id drawn j) (delivery_to j r) deliveries)
        ≡ some (delivery_to key r)
  told_self key j r deliveries p =
      rw p (get-put_self (delivery_id drawn key) (delivery_to key r) deliveries)

  get-add_deliveries :
      (key : Str) (records : Table SubscriptionRecord) (deliveries : Table Delivery)
      → Distinct records
      → get (delivery_id drawn key) (add_deliveries drawn event workspace_id now records deliveries)
        ≡ told key (get key records) deliveries
  unfolding add_deliveries get
  get-add_deliveries key [] deliveries d = refl
  get-add_deliveries key ((j, r) ∷ records) deliveries d =
      get-add_deliveries key records (put (delivery_id drawn j) (delivery_to j r) deliveries) d.1
      ∙ elim (str_dec j key) [
        | yes p ↦
            ap (λ o. told key o (put (delivery_id drawn j) (delivery_to j r) deliveries))
              (ap (λ (i : Str). get i records) (sym p) ∙ d.0)
            ∙ told_self key j r deliveries p
            ∙ ap (λ o. told key o deliveries)
                (sym (if_pos (str_dec j key) p (some r) (get key records)))
        | no q ↦
            told_other key j r (get key records) deliveries q
            ∙ ap (λ o. told key o deliveries)
                (sym (if_neg (str_dec j key) q (some r) (get key records)))
      ]

-- The event reads back as the release with this id, and the app and commit of the deployment.
abbrev pub Announces : Str → Envelope → Deployment → Type 0
Announces version event deployment =
    (content : ReleasePublishedData) × (release_published event ≡ ok content)
    × (event.event_type ≡ str "windforce.release.published")
    × (content.release_id ≡ version)
    × (content.app_key ≡ deployment.app)
    × (content.commit ≡ deployment.commit)

-- What stands under the id drawn for the delivery to a subscription, before and after.
abbrev pub Delivers :
    (Str → Str)
    → Time
    → Str
    → SubscriptionRecord
    → Envelope
    → Deployment
    → Webhooks
    → Webhooks
    → Type 0
Delivers drawn now key r event deployment before after =
    (Wants (source_workspace deployment) deployment.app r
      → get (delivery_id drawn key) after.deliveries
        ≡ some (record {
          id = delivery_id drawn key;
          workspace_id = normalize_workspace (source_workspace deployment);
          event_id = event.id;
          subscription_id = r.id;
          state = DeliveryState.pending;
          attempt = 0;
          next_attempt_at = now;
          lease_owner = none;
          lease_expires_at = none;
          response_status = none;
          latency_millis = none;
          error_summary = none;
          created_at = now;
          updated_at = now;
          completed_at = none;
        }))
    × (¬ Wants (source_workspace deployment) deployment.app r
        → get (delivery_id drawn key) after.deliveries
          ≡ get (delivery_id drawn key) before.deliveries)

-- A publication that goes through, taken apart.
module _ (drawn : Drawn) (d : Deployment) (released_at : Time) (s t : Releases) (now : Time)
    (published : Deployment) where
  abbrev released : Deployment
  released = (prepare_publication drawn.version d released_at now).0

  abbrev history : DeploymentHistory
  history = (prepare_publication drawn.version d released_at now).1

  abbrev previous : Option DeploymentHistory
  previous =
      latest_release_history (normalize_snapshot s.catalog).history (source_workspace released)
        released.app

  abbrev event_data : ReleasePublishedData
  event_data = release_data history previous

  abbrev made : Envelope
  made =
      published_envelope (new_id (str "evt") drawn.event) history.created_at
        (prepared_published event_data)

  abbrev stored : Releases
  stored = record {
    catalog =
        add_publication (normalize_snapshot s.catalog) released history
          (prepare_publication drawn.version d released_at now).2;
    hooks = tell drawn.delivery made (source_workspace released) released.app s.hooks now;
  }

  is_stored :
      publish_release drawn d released_at s now ≡ ok (t, published)
      → (stored ≡ t) × (released ≡ published)
  unfolding publish_release prepare_release_event
  is_stored h =
      elim (Bool-cases
        (publishable (new_id (str "evt") drawn.event) history.created_at event_data)) [
          | inl e ↦
              let same : ok (stored, released) ≡ ok (t, published) =
                rw
                  (
                    new_release_published_lem (new_id (str "evt") drawn.event) history.created_at
                        event_data,
                    e,
                  )
                  at h in
              (
                ap (λ (x : Releases × Deployment). x.0) (ok_inj same),
                ap (λ (x : Releases × Deployment). x.1) (ok_inj same),
              )
          | inr e ↦ cc (
              rw
                (
                  new_release_published_lem (new_id (str "evt") drawn.event) history.created_at
                      event_data,
                  e,
                )
                at h)
        ]

  served :
      get_deployment_for_workspace (source_workspace released) released.app stored.catalog
      ≡ ok released
  unfolding get_deployment_for_workspace add_publication
  served =
      ap (λ o. or_fail o deployment_not_found)
        (get-put_self (deployment_key (source_workspace released) released.app) released
          (normalize_snapshot s.catalog).deployments)

  announced : Announces drawn.version made released
  unfolding prepare_publication prepared_published published_envelope
  announced = (
    prepared_published event_data,
    release_published-published_envelope (new_id (str "evt") drawn.event) history.created_at
        (prepared_published event_data),
    refl,
    refl,
    refl,
    refl,
  )

  event_stored : get made.id stored.hooks.events ≡ some made
  unfolding tell
  event_stored = get-put_self made.id made s.hooks.events

  module _ (distinct : (j k : Str) → drawn.delivery j ≡ drawn.delivery k → j ≡ k)
      (are_distinct : Distinct s.hooks.subscriptions) (key : Str) (r : SubscriptionRecord)
      (subscribed : get key s.hooks.subscriptions ≡ some r) where
    abbrev unmatched : Str → SubscriptionRecord → Bool
    unmatched k x =
        not (is_matching (source_workspace released) release_published_type released.app x)

    told_if :
        (fits : Bool)
        → told drawn.delivery distinct made
            (source_workspace released)
            now
            key
            (if not fits then none else some r)
            s.hooks.deliveries
          ≡ (if fits
              then some (
                  new_webhook_delivery
                    (drawn.delivery key)
                    made
                    (source_workspace released)
                    r.id
                    now)
              else get (delivery_id drawn.delivery key) s.hooks.deliveries)
    told_if true = refl
    told_if false = refl

    delivered_if : get (delivery_id drawn.delivery key) stored.hooks.deliveries ≡ (
        if is_matching (source_workspace released) release_published_type released.app r
        then some
            (new_webhook_delivery (drawn.delivery key) made (source_workspace released) r.id now)
        else get (delivery_id drawn.delivery key) s.hooks.deliveries)
    unfolding tell matching_subscriptions published_envelope
    delivered_if =
        get-add_deliveries drawn.delivery distinct made (source_workspace released) now key
          (matching_subscriptions s.hooks.subscriptions (source_workspace released)
            release_published_type released.app)
          s.hooks.deliveries (delete_where-Distinct unmatched s.hooks.subscriptions are_distinct)
        ∙ ap
            (λ o.
              told drawn.delivery distinct made (source_workspace released) now key o
                s.hooks.deliveries)
            (get-delete_where key unmatched s.hooks.subscriptions are_distinct
              ∙ ap (drop_if (unmatched key)) subscribed)
        ∙ told_if (is_matching (source_workspace released) release_published_type released.app r)

    delivered : Delivers drawn.delivery now key r made released s.hooks stored.hooks
    unfolding new_webhook_delivery
    delivered = (
      λ wants. rw (Wants-matching (source_workspace released) released.app r wants) at delivered_if,
      λ refuses.
          elim (Bool-cases
            (is_matching (source_workspace released) release_published_type released.app r)) [
              | inl e ↦
                  absurd (refuses (matching-Wants (source_workspace released) released.app r e))
              | inr e ↦ rw e at delivered_if
            ],
    )

    -- A publication that goes through is served, announced and delivered, all in one snapshot: the
    -- published deployment is what is looked up for its app; the event that is stored reads back as the
    -- release with its id, app and commit; and a subscription of the store gets a pending delivery of
    -- that event, due at once, exactly if it is enabled and not deleted, belongs to the workspace, and
    -- asks for releases that are published and for the app or for every app; nothing changes under the
    -- id drawn for any other subscription. The ids drawn for two subscriptions differ.
    pub publish_release_lem :
        publish_release drawn d released_at s now ≡ ok (t, published)
        → (get_deployment_for_workspace (source_workspace published) published.app t.catalog
            ≡ ok published)
          × ((event : Envelope) × (get event.id t.hooks.events ≡ some event)
              × Announces drawn.version event published
              × Delivers drawn.delivery now key r event published s.hooks t.hooks)
    publish_release_lem h =
        let (is_t, is_published) = is_stored h in
        subst₂
          (λ (x : Releases) (y : Deployment).
            (get_deployment_for_workspace (source_workspace y) y.app x.catalog ≡ ok y)
            × ((event : Envelope) × (get event.id x.hooks.events ≡ some event)
                × Announces drawn.version event y
                × Delivers drawn.delivery now key r event y s.hooks x.hooks))
          is_t is_published (served, (made, event_stored, announced, delivered))
