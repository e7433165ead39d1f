-- ===== src/Catalog/Active.antt =====
-- What a rollback does to the catalog.
use windforce_lite.Prelude.{
  ◌≡◌, ◌≢◌, refl, ◌∙◌, ap, sym, not, Bool, true, false, ◌&&◌, Option, Option-cases, none, some,
  List, [], ◌∷◌, if◌then◌else◌, is_nil, Bool-cases, inl, inr, arith, ite, if_pos,
}
use windforce_lite.Str.{Str, str_eq, str_dec, trim_space, trim_space-trim_space}
use windforce_lite.Table.{Table, get}
use windforce_lite.Table.Laws.{get-put, get-put_ne}
use windforce_lite.Contract.{Deployment, normalize_workspace}
use windforce_lite.Contract.Tags.{normalize_workspace-normalize_workspace}
use windforce_lite.State.Types.{Time, release_already_active}
use windforce_lite.State.Result.{ok, err, Ensures, Ensures-ok}
use windforce_lite.Catalog.{DeploymentHistory, CatalogSnapshot, deployment_key}
use windforce_lite.Catalog.Rollback.{
  ReleaseRollbackRequest, ReleaseRollbackResult, backfill_active_history_ids, normalize_snapshot,
  normalize_deployment_map, text_or_empty, is_release, first_release, find_release,
  prepare_release_rollback_request, prepared_request, roll_back, switch_release,
  new_release_rollback_result, commit_of, apply_release_rollback, latest_published, put_found,
}

first_release-found :
    (workspace app release_id : Str) (history : List DeploymentHistory) {h : DeploymentHistory}
    → first_release workspace app release_id history ≡ some h
    → is_release workspace app release_id h ≡ true
unfolding first_release
first_release-found workspace app release_id [] e = cc
first_release-found workspace app release_id (r ∷ history) e =
    elim (Bool-cases (is_release workspace app release_id r)) [
      | inl q ↦ ground arith
      | inr q ↦ first_release-found workspace app release_id history (rw q at e)
    ]

kept :
    (ids : Table Str) (k key id : Str) (found : Option Str)
    → get key ids ≡ some id
    → is_nil (trim_space id) ≡ false
    → get key (
        if not (is_nil (trim_space (text_or_empty (get k ids))))
        then ids
        else put_found k found ids)
      ≡ some id
kept ids k key id none e n = elim (Bool-cases (is_nil (trim_space (text_or_empty (get k ids))))) [
  | inl q ↦ rw q e
  | inr q ↦ rw q e
]
kept ids k key id (some other) e n = elim (str_dec k key) [
  | yes p ↦ rw (p, e, n) e
  | no q ↦ elim (Bool-cases (is_nil (trim_space (text_or_empty (get k ids))))) [
    | inl r ↦ rw (r, get-put_ne key k other ids q) e
    | inr r ↦ rw r e
  ]
]

-- A release that is set stays the active one when the catalog is loaded.
backfill-kept :
    (history : List DeploymentHistory) (deployments : Table Deployment) (ids : Table Str)
    (key id : Str)
    → get key ids ≡ some id
    → is_nil (trim_space id) ≡ false
    → get key (backfill_active_history_ids history deployments ids) ≡ some id
unfolding backfill_active_history_ids
backfill-kept history [] ids key id e n = e
backfill-kept history ((k, d) ∷ deployments) ids key id e n =
    backfill-kept history deployments
      (if not (is_nil (trim_space (text_or_empty (get k ids))))
        then ids
        else put_found k (latest_published k d history) ids)
      key id (kept ids k key id (latest_published k d history) e n) n

-- A prepared request: its texts are trimmed and not blank.
record IsPrepared (q : ReleaseRollbackRequest) : Type 0 where
  workspace_fixed : normalize_workspace q.workspace ≡ q.workspace
  app_fixed : trim_space q.app ≡ q.app
  release_fixed : trim_space q.release_id ≡ q.release_id
  release_named : is_nil q.release_id ≡ false

abbrev is_complete : ReleaseRollbackRequest → Bool
is_complete q =
    not (is_nil (trim_space q.app))
    && not (is_nil (trim_space q.release_id))
    && not (is_nil (trim_space q.actor))
    && not (is_nil (trim_space q.reason))

prepared_request-IsPrepared :
    (q : ReleaseRollbackRequest) (now : Time)
    → is_complete q ≡ true
    → IsPrepared (prepared_request q now)
prepared_request-IsPrepared q now e = record {
  workspace_fixed = normalize_workspace-normalize_workspace q.workspace;
  app_fixed = trim_space-trim_space q.app;
  release_fixed = trim_space-trim_space q.release_id;
  release_named = ground arith;
}

-- What a rollback leaves: the app runs the deployment of a release of its history, which is the
-- active one; the history is as before, and so is every other app.
pub record RolledBack (s t : CatalogSnapshot) (q : ReleaseRollbackRequest)
    (result : ReleaseRollbackResult) : Type 0 where
  pub is_target : first_release q.workspace q.app q.release_id s.history ≡ some result.target
  pub fits : is_release q.workspace q.app q.release_id result.target ≡ true
  pub deployed :
      (key : Str)
      → get key t.deployments
        ≡ ite
            (str_dec (deployment_key q.workspace q.app) key)
            (some result.target.deployment)
            (get key s.deployments)
  pub active :
      (key : Str)
      → get key t.active_history_ids
        ≡ ite
            (str_dec (deployment_key q.workspace q.app) key)
            (some q.release_id)
            (get key s.active_history_ids)
  pub same_history : t.history ≡ s.history
  pub changed :
      text_or_empty (get (deployment_key q.workspace q.app) s.active_history_ids) ≢ q.release_id
  pub recorded :
      result.previous_release_id
      ≡ text_or_empty (get (deployment_key q.workspace q.app) s.active_history_ids)

abbrev active_id : CatalogSnapshot → ReleaseRollbackRequest → Str
active_id s q = text_or_empty (get (deployment_key q.workspace q.app) s.active_history_ids)

abbrev result_of :
    Str → CatalogSnapshot → ReleaseRollbackRequest → DeploymentHistory → ReleaseRollbackResult
result_of fresh s q target =
    new_release_rollback_result fresh target (active_id s q)
      (commit_of (get (deployment_key q.workspace q.app) s.deployments)) q

release_id_of :
    (q : ReleaseRollbackRequest) (h : DeploymentHistory)
    → is_release q.workspace q.app q.release_id h ≡ true
    → h.id ≡ q.release_id
unfolding is_release
release_id_of q h e = ground (arith, str_eq)

switch-RolledBack :
    (fresh : Str) (s : CatalogSnapshot) (q : ReleaseRollbackRequest) (target : DeploymentHistory)
    → first_release q.workspace q.app q.release_id s.history ≡ some target
    → str_eq (active_id s q) target.id ≡ false
    → RolledBack s
        (switch_release s q target (result_of fresh s q target))
        q
        (result_of fresh s q target)
unfolding switch_release new_release_rollback_result
switch-RolledBack fresh s q target e n =
    let found = first_release-found q.workspace q.app q.release_id s.history e in
    let same = release_id_of q target found in
    record {
      is_target = e;
      fits = found;
      deployed =
          λ key. get-put key (deployment_key q.workspace q.app) target.deployment s.deployments;
      active = λ key.
          get-put key (deployment_key q.workspace q.app) target.id s.active_history_ids
          ∙ ap
              (λ id.
                ite (str_dec (deployment_key q.workspace q.app) key) (some id)
                  (get key s.active_history_ids))
              same;
      same_history = refl;
      changed = λ h. ground (arith, str_eq, same, h);
      recorded = refl;
    }

roll_back-RolledBack :
    (fresh : Str) (s : CatalogSnapshot) (q : ReleaseRollbackRequest)
    → IsPrepared q
    → Ensures (λ done. RolledBack s done.0 q done.1) (roll_back fresh s q)
unfolding roll_back find_release
roll_back-RolledBack fresh s q i =
    elim (Option-cases (first_release q.workspace q.app q.release_id s.history)) [
      | inl e ↦ rw (i.workspace_fixed, i.app_fixed, i.release_fixed, e) tt
      | inr (target, e) ↦ elim (Bool-cases (str_eq (active_id s q) target.id)) [
        | inl h ↦ rw (i.workspace_fixed, i.app_fixed, i.release_fixed, e, h) tt
        | inr h ↦
            rw (i.workspace_fixed, i.app_fixed, i.release_fixed, e, h)
              (switch-RolledBack fresh s q target e h)
      ]
    ]

-- A second rollback to a release that the first has made active.
roll_back_again :
    (fresh : Str) (t : CatalogSnapshot) (q : ReleaseRollbackRequest) (target : DeploymentHistory)
    → IsPrepared q
    → first_release q.workspace q.app q.release_id t.history ≡ some target
    → active_id t q ≡ target.id
    → roll_back fresh t q ≡ err release_already_active
unfolding roll_back find_release
roll_back_again fresh t q target i e same =
    rw (i.workspace_fixed, i.app_fixed, i.release_fixed, e, same) (ground arith)

module _ (fresh again : Str) (s t : CatalogSnapshot) (request : ReleaseRollbackRequest)
    (now later : Time) (result : ReleaseRollbackResult) where
  repeated :
      is_complete request ≡ true
      → RolledBack (normalize_snapshot s) t (prepared_request request now) result
      → roll_back again (normalize_snapshot t) (prepared_request request later)
        ≡ err release_already_active
  unfolding normalize_snapshot
  repeated e r =
      let i = prepared_request-IsPrepared request later e in
      let kept_active =
        backfill-kept t.history (normalize_deployment_map t.deployments) t.active_history_ids
          (deployment_key (normalize_workspace request.workspace) (trim_space request.app))
          (trim_space request.release_id)
          (r.active
              (deployment_key (normalize_workspace request.workspace) (trim_space request.app))
            ∙ if_pos (str_dec _ _) refl _ _)
          (rw i.release_fixed i.release_named) in
      roll_back_again again (normalize_snapshot t) (prepared_request request later) result.target i
        (rw r.same_history r.is_target)
        (ap text_or_empty kept_active
          ∙ sym (release_id_of (prepared_request request later) result.target r.fits))

  outcome-RolledBack :
      is_complete request ≡ true
      → roll_back fresh (normalize_snapshot s) (prepared_request request now) ≡ ok (t, result)
      → RolledBack (normalize_snapshot s) t (prepared_request request now) result
  outcome-RolledBack e h =
      Ensures-ok
        (λ done. RolledBack (normalize_snapshot s) done.0 (prepared_request request now) done.1)
        (roll_back fresh (normalize_snapshot s) (prepared_request request now))
        (roll_back-RolledBack fresh (normalize_snapshot s) (prepared_request request now)
          (prepared_request-IsPrepared request now e))
        h

  -- A rollback that succeeds makes the app run the deployment recorded with a release of its own
  -- history, which was not the active one and now is; the history stays as it was, and every other
  -- app keeps its deployment and its active release. To repeat the request, later, is refused because
  -- the release is already active.
  pub apply_release_rollback_lem :
      apply_release_rollback fresh s request now ≡ ok (t, result)
      → RolledBack (normalize_snapshot s) t (prepared_request request now) result
        × (apply_release_rollback again t request later ≡ err release_already_active)
  unfolding apply_release_rollback prepare_release_rollback_request
  apply_release_rollback_lem h = elim (Bool-cases (is_complete request)) [
    | inl e ↦ let r = outcome-RolledBack e (rw e at h) in (r, rw e (repeated e r))
    | inr e ↦ cc (rw e at h)
  ]
