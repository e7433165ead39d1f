-- ===== src/Catalog/Rollback.antt =====
-- internal/catalog/release_rollback.go and file_catalog.go: the normal form of a loaded catalog, and
-- the rollback of an app to an earlier release.
use windforce_lite.Prelude.{
  not, Bool, true, ◌&&◌, ◌||◌, Option, none, some, List, [], ◌∷◌, ◌++◌, if◌then◌else◌, is_nil,
}
use windforce_lite.Str.{Str, str, str_eq, trim_space}
use windforce_lite.Table.{Table, get, put}
use windforce_lite.Contract.{
  Deployment, normalize_workspace, source_workspace, source_git_source_id,
}
use windforce_lite.State.Types.{
  Time, non_zero_time, release_not_found, release_already_active, invalid_rollback,
}
use windforce_lite.State.Result.{Result, ok, ◌>>=◌, ◌>>◌, guard, or_fail}
use windforce_lite.Catalog.{
  AuditRecord, DeploymentHistory, CatalogSnapshot, deployment_key, source_release_key,
}
use windforce_lite.Catalog.Publish.{normalize_deployment_defaults, prepare_audit_record}

normalized_key : Str → Deployment → Str
normalized_key key d = if is_nil d.app then key else deployment_key (source_workspace d) d.app

-- The loop of normalizeDeploymentMap, into a new map.
normalize_loop : Table Deployment → Table Deployment → Table Deployment
unfolding normalized_key
normalize_loop [] normalized = normalized
normalize_loop ((key, d) ∷ rest) normalized = normalize_loop rest (
    put (normalized_key key (normalize_deployment_defaults d)) (normalize_deployment_defaults d)
      normalized)

unfoldable pub normalize_deployment_map : Table Deployment → Table Deployment
unfolding normalize_loop
normalize_deployment_map deployments = normalize_loop deployments []

-- Two deployment ids decide where both are there; otherwise the commit and the bundle do.
unfoldable pub matches_published_deployment : Deployment → DeploymentHistory → Bool
matches_published_deployment d history =
    let by_content =
      str_eq d.commit history.commit
      && (if not (is_nil d.bundle_digest) || not (is_nil history.deployment.bundle_digest)
          then str_eq d.bundle_digest history.deployment.bundle_digest
          else true) in
    elim d.deployment_id [
      | none ↦ by_content
      | some own ↦ elim history.deployment_id [
        | none ↦ by_content
        | some theirs ↦ not (is_nil (trim_space own)) && str_eq own theirs
      ]
    ]

-- The latest release of the list that is the deployment's, where the list has the oldest first.
unfoldable pub latest_published : Str → Deployment → List DeploymentHistory → Option Str
unfolding matches_published_deployment
latest_published key d [] = none
latest_published key d (history ∷ rest) = elim (latest_published key d rest) [
  | some id ↦ some id
  | none ↦
      if str_eq (deployment_key history.workspace history.app) key
        && matches_published_deployment d history
      then some history.id
      else none
]

abbrev pub text_or_empty : Option Str → Str
text_or_empty none = []
text_or_empty (some s) = s

abbrev pub put_found : Str → Option Str → Table Str → Table Str
put_found key none ids = ids
put_found key (some id) ids = put key id ids

unfoldable pub backfill_active_history_ids :
    List DeploymentHistory → Table Deployment → Table Str → Table Str
unfolding latest_published
backfill_active_history_ids history [] ids = ids
backfill_active_history_ids history ((key, d) ∷ deployments) ids =
    backfill_active_history_ids history deployments (
      if not (is_nil (trim_space (text_or_empty (get key ids))))
      then ids
      else put_found key (latest_published key d history) ids)

unfoldable pub normalize_snapshot : CatalogSnapshot → CatalogSnapshot
normalize_snapshot s = record s {
  deployments = normalize_deployment_map s.deployments;
  active_history_ids =
      backfill_active_history_ids s.history (normalize_deployment_map s.deployments)
        s.active_history_ids;
}

pub record ReleaseRollbackRequest : Type 0 where
  pub workspace : Str
  pub app : Str
  pub release_id : Str
  pub actor : Str
  pub reason : Str
  pub rolled_back_at : Time

pub record ReleaseRollbackResult : Type 0 where
  pub target : DeploymentHistory
  pub previous_release_id : Str
  pub previous_commit : Str
  pub reason : Str
  pub rolled_back_at : Time
  pub audit : AuditRecord

unfoldable pub is_release : Str → Str → Str → DeploymentHistory → Bool
is_release workspace app release_id history =
    str_eq (normalize_workspace history.workspace) workspace
    && str_eq history.app app
    && str_eq history.id release_id

-- The loop of FindRelease.
unfoldable pub first_release : Str → Str → Str → List DeploymentHistory → Option DeploymentHistory
first_release workspace app release_id [] = none
first_release workspace app release_id (history ∷ rest) =
    if is_release workspace app release_id history
    then some history
    else first_release workspace app release_id rest

unfoldable pub find_release : CatalogSnapshot → Str → Str → Str → Result DeploymentHistory
find_release s workspace app release_id =
    or_fail
      (first_release (normalize_workspace workspace) (trim_space app) (trim_space release_id)
        s.history)
      release_not_found

abbrev pub prepared_request : ReleaseRollbackRequest → Time → ReleaseRollbackRequest
prepared_request q now = record {
  workspace = normalize_workspace q.workspace;
  app = trim_space q.app;
  release_id = trim_space q.release_id;
  actor = trim_space q.actor;
  reason = trim_space q.reason;
  rolled_back_at = non_zero_time q.rolled_back_at now;
}

unfoldable pub prepare_release_rollback_request :
    ReleaseRollbackRequest → Time → Result ReleaseRollbackRequest
prepare_release_rollback_request q now = do
  guard
      (not (is_nil (trim_space q.app))
        && not (is_nil (trim_space q.release_id))
        && not (is_nil (trim_space q.actor))
        && not (is_nil (trim_space q.reason)))
      invalid_rollback
  ok (prepared_request q now)

-- The package's firstNonEmpty, which trims.
unfoldable pub first_trimmed : List Str → Str
first_trimmed [] = []
first_trimmed (value ∷ values) =
    if is_nil (trim_space value) then first_trimmed values else trim_space value

unfoldable pub release_git_source_id : DeploymentHistory → Str
unfolding first_trimmed
release_git_source_id history =
    first_trimmed (history.git_source_id ∷ source_git_source_id history.deployment ∷ [])

unfoldable pub empty_as_none : Str → Str
empty_as_none value = if is_nil (trim_space value) then str "none" else trim_space value

-- `fresh` is what newAppVersionID draws.
unfoldable pub new_release_rollback_result :
    Str → DeploymentHistory → Str → Str → ReleaseRollbackRequest → ReleaseRollbackResult
new_release_rollback_result fresh target previous_release_id previous_commit q = record {
  target = target;
  previous_release_id = previous_release_id;
  previous_commit = previous_commit;
  reason = q.reason;
  rolled_back_at = q.rolled_back_at;
  audit =
      prepare_audit_record fresh
        (record {
          id = [];
          workspace = q.workspace;
          git_source_id = release_git_source_id target;
          app = q.app;
          kind = str "release_rolled_back";
          detail =
              str "active release "
              ++ (empty_as_none previous_release_id
                  ++ (str " -> " ++ (target.id ++ (str "; reason: " ++ q.reason))));
          actor = q.actor;
          created_at = q.rolled_back_at;
        })
        q.rolled_back_at;
}

abbrev pub commit_of : Option Deployment → Str
commit_of none = []
commit_of (some d) = d.commit

-- The writes of ApplyReleaseRollback.
unfoldable pub switch_release :
    CatalogSnapshot
    → ReleaseRollbackRequest
    → DeploymentHistory
    → ReleaseRollbackResult
    → CatalogSnapshot
switch_release s q target result = record s {
  deployments = put (deployment_key q.workspace q.app) target.deployment s.deployments;
  active_history_ids = put (deployment_key q.workspace q.app) target.id s.active_history_ids;
  source_markers =
      put (source_release_key q.workspace (release_git_source_id target))
        (record {
          workspace = q.workspace;
          git_source_id = release_git_source_id target;
          commit = target.commit;
          released_at = q.rolled_back_at;
        })
        s.source_markers;
  audit = s.audit ++ result.audit ∷ [];
}

-- The rollback of a normalized catalog by a prepared request.
unfoldable pub roll_back :
    Str
    → CatalogSnapshot
    → ReleaseRollbackRequest
    → Result (CatalogSnapshot × ReleaseRollbackResult)
roll_back fresh s q = do
  target ← find_release s q.workspace q.app q.release_id
  let previous_id = text_or_empty (get (deployment_key q.workspace q.app) s.active_history_ids)
  guard (not (str_eq previous_id target.id)) release_already_active
  let previous_commit = commit_of (get (deployment_key q.workspace q.app) s.deployments)
  let result = new_release_rollback_result fresh target previous_id previous_commit q
  ok (switch_release s q target result, result)

unfoldable pub apply_release_rollback :
    Str
    → CatalogSnapshot
    → ReleaseRollbackRequest
    → Time
    → Result (CatalogSnapshot × ReleaseRollbackResult)
apply_release_rollback fresh s request now = do
  q ← prepare_release_rollback_request request now
  roll_back fresh (normalize_snapshot s) q
