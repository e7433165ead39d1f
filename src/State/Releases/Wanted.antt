-- ===== src/State/Releases/Wanted.antt =====
-- Which subscriptions want a release that is published.
use windforce_lite.Prelude.{
  ◌≡◌, refl, true, Option, none, some, List, [], ◌∷◌, ◌⊎◌, inl, inr, arith,
}
use windforce_lite.Str.{Str, str, str_eq}
use windforce_lite.Contract.{normalize_workspace, contains, elements}
use windforce_lite.State.Types.{Time}
use windforce_lite.Event.{release_published_type}
use windforce_lite.State.Webhook.{SubscriptionRecord}
use windforce_lite.State.Releases.{matches, is_matching}

-- The subscription is enabled and not deleted, belongs to the workspace, and asks for releases that are
-- published and for the app, where no app stands for all.
abbrev pub Wants : Str → Str → SubscriptionRecord → Type 0
Wants workspace_id app_key r =
    (r.enabled ≡ true)
    × (r.deleted_at ≡ none)
    × (normalize_workspace r.workspace_id ≡ normalize_workspace workspace_id)
    × (contains (str "windforce.release.published") (elements r.event_types) ≡ true)
    × ((elements r.app_keys ≡ []) ⊎ (contains app_key (elements r.app_keys) ≡ true))

pub matching-Wants :
    (workspace_id app_key : Str) (r : SubscriptionRecord)
    → is_matching workspace_id release_published_type app_key r ≡ true
    → Wants workspace_id app_key r
unfolding matches
matching-Wants workspace_id app_key r h = by_fields r.deleted_at (elements r.app_keys) refl refl
  where
    by_fields :
        (gone : Option Time) (apps : List Str)
        → r.deleted_at ≡ gone
        → elements r.app_keys ≡ apps
        → Wants workspace_id app_key r
    by_fields (some t) apps e f = absurd (ground arith)
    by_fields none [] e f = (ground arith, e, ground (arith, str_eq), ground arith, inl f)
    by_fields none (a ∷ apps) e f =
        (ground arith, e, ground (arith, str_eq), ground arith, inr (ground arith))

pub Wants-matching :
    (workspace_id app_key : Str) (r : SubscriptionRecord)
    → Wants workspace_id app_key r
    → is_matching workspace_id release_published_type app_key r ≡ true
unfolding matches
Wants-matching workspace_id app_key r (on, kept, own, asks, inl none_named) =
    rw (on, kept, own, asks, none_named) (ground (arith, str_eq))
Wants-matching workspace_id app_key r (on, kept, own, asks, inr named) =
    rw (on, kept, own, asks, named) (ground (arith, str_eq))
