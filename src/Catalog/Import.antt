-- ===== src/Catalog/Import.antt =====
-- internal/catalog/file_catalog.go and release_candidate.go: the import of a catalog into another, and
-- the release candidates.
use windforce_lite.Prelude.{
  ◌==◌, ltb, not, Bool, true, false, ◌&&◌, ◌||◌, Option, none, some, List, [], ◌∷◌, ◌++◌,
  if◌then◌else◌, is_nil,
}
use windforce_lite.Str.{Str, str_eq, str_ltb, trim_space}
use windforce_lite.Table.{Table, get, put}
use windforce_lite.Contract.{
  Deployment, normalize_workspace, normalize_git_source_id, source_workspace, source_git_source_id,
  contains,
}
use windforce_lite.State.Types.{Time, non_zero_time, not_found, invalid_state}
use windforce_lite.State.Result.{Result, ok, ◌>>=◌, ◌>>◌, guard, or_fail}
use windforce_lite.Catalog.{
  AuditRecord, DeploymentHistory, ReleaseCandidate, CatalogSnapshot, release_candidate_key,
}
use windforce_lite.Catalog.Publish.{normalize_deployment_defaults}
use windforce_lite.Catalog.Rollback.{normalize_snapshot}

abbrev is_there {ℓ} : {A : Type ℓ} → Option A → Bool
is_there none = false
is_there (some a) = true

-- for key, value := range imported { if _, exists := target[key]; !exists { target[key] = value } }
unfoldable pub merge_missing {ℓ} : {V : Type ℓ} → Table V → Table V → Table V
merge_missing [] target = target
merge_missing ((key, value) ∷ imported) target =
    merge_missing imported (if is_there (get key target) then target else put key value target)

abbrev history_ids : List DeploymentHistory → List Str
history_ids [] = []
history_ids (history ∷ rest) = history.id ∷ history_ids rest

unfoldable pub merge_history :
    List DeploymentHistory → List DeploymentHistory → List DeploymentHistory
unfolding contains
merge_history [] target = target
merge_history (r ∷ imported) target =
    merge_history imported (if contains r.id (history_ids target) then target else target ++ r ∷ [])

abbrev audit_ids : List AuditRecord → List Str
audit_ids [] = []
audit_ids (r ∷ rest) = r.id ∷ audit_ids rest

unfoldable pub merge_audit : List AuditRecord → List AuditRecord → List AuditRecord
unfolding contains
merge_audit [] target = target
merge_audit (r ∷ imported) target =
    merge_audit imported (if contains r.id (audit_ids target) then target else target ++ r ∷ [])

abbrev merge_normalized : CatalogSnapshot → CatalogSnapshot → CatalogSnapshot
merge_normalized target imported = record {
  deployments = merge_missing imported.deployments target.deployments;
  active_history_ids = merge_missing imported.active_history_ids target.active_history_ids;
  candidates = merge_missing imported.candidates target.candidates;
  history = merge_history imported.history target.history;
  audit = merge_audit imported.audit target.audit;
  source_markers = merge_missing imported.source_markers target.source_markers;
}

unfoldable pub merge_snapshot : CatalogSnapshot → CatalogSnapshot → CatalogSnapshot
unfolding merge_missing merge_history merge_audit
merge_snapshot target imported =
    merge_normalized (normalize_snapshot target) (normalize_snapshot imported)

-- A candidate needs its commit and its app; the id of its source is never blank.
unfoldable pub prepare_release_candidate : Deployment → Time → Time → Result ReleaseCandidate
prepare_release_candidate d synced_at now = do
  let deployment = normalize_deployment_defaults d
  let git_source_id = source_git_source_id deployment
  guard (not (is_nil (trim_space git_source_id))) invalid_state
  guard (not (is_nil (trim_space deployment.commit))) invalid_state
  guard (not (is_nil (trim_space deployment.app))) invalid_state
  ok (record {
    deployment = record deployment {
      workspace = source_workspace deployment;
      git_source_id = git_source_id;
    };
    synced_at = non_zero_time synced_at now;
  })

abbrev candidate_key : ReleaseCandidate → Str
candidate_key c =
    release_candidate_key (source_workspace c.deployment) (source_git_source_id c.deployment)
      c.deployment.commit

-- A candidate that is there stays as it is.
unfoldable pub save_release_candidate :
    Deployment → Time → CatalogSnapshot → Time → Result (CatalogSnapshot × ReleaseCandidate)
unfolding prepare_release_candidate
save_release_candidate d synced_at s now = do
  candidate ← prepare_release_candidate d synced_at now
  elim (get (candidate_key candidate) s.candidates) [
    | some existing ↦ ok (s, existing)
    | none ↦
        ok (
          record s { candidates = put (candidate_key candidate) candidate s.candidates },
          candidate,
        )
  ]

unfoldable pub get_release_candidate : Str → Str → Str → CatalogSnapshot → Result ReleaseCandidate
get_release_candidate workspace git_source_id commit s =
    or_fail (get (release_candidate_key workspace git_source_id commit) s.candidates) not_found

abbrev newer : ReleaseCandidate → Option ReleaseCandidate → Bool
newer c none = true
newer c (some latest) =
    ltb latest.synced_at c.synced_at
    || (c.synced_at == latest.synced_at && str_ltb latest.deployment.commit c.deployment.commit)

unfoldable pub latest_candidate :
    Str → Str → Table ReleaseCandidate → Option ReleaseCandidate → Option ReleaseCandidate
latest_candidate workspace git_source_id [] latest = latest
latest_candidate workspace git_source_id ((key, c) ∷ candidates) latest =
    latest_candidate workspace git_source_id candidates (
      if str_eq (source_workspace c.deployment) workspace
        && str_eq (source_git_source_id c.deployment) git_source_id
        && newer c latest
      then some c
      else latest)

unfoldable pub get_latest_release_candidate : Str → Str → CatalogSnapshot → Result ReleaseCandidate
unfolding latest_candidate
get_latest_release_candidate workspace git_source_id s =
    or_fail
      (latest_candidate (normalize_workspace workspace) (normalize_git_source_id git_source_id [])
        s.candidates none)
      not_found
