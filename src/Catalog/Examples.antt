-- ===== src/Catalog/Examples.antt =====
-- Two releases of an app; the second is active, and the first is restored.
use windforce_lite.Prelude.{◌≡◌, refl, ℕ_discrete}
use windforce_lite.Str.{Str, str, str_dec, trim_space}
use windforce_lite.Table.{get, put}
use windforce_lite.Contract.{Deployment, normalize_workspace, source_workspace}
use windforce_lite.State.Payload.{zero_deployment}
use windforce_lite.State.Types.{release_already_active}
use windforce_lite.State.Result.{ok, err}
use windforce_lite.Catalog.{CatalogSnapshot, DeploymentHistory, new_catalog, deployment_key}
use windforce_lite.Catalog.Publish.{prepare_publication, add_publication}
use windforce_lite.Catalog.Rollback.{
  ReleaseRollbackRequest, ReleaseRollbackResult, normalize_snapshot, prepared_request,
  first_release, is_release, prepare_release_rollback_request, roll_back, find_release,
  backfill_active_history_ids, normalize_deployment_map, switch_release,
  new_release_rollback_result, apply_release_rollback,
}
use windforce_lite.Catalog.Active.{RolledBack, apply_release_rollback_lem}

abbrev mail : Str → Deployment
mail commit = record zero_deployment { workspace = str "team"; app = str "mail"; commit = commit }

abbrev add : Str → Str → CatalogSnapshot → CatalogSnapshot
add version commit s =
    let p = prepare_publication version (mail commit) 1 1 in add_publication s p.0 p.1 p.2

abbrev two_releases : CatalogSnapshot
two_releases = add (str "v2") (str "c2") (add (str "v1") (str "c1") new_catalog)

abbrev request : ReleaseRollbackRequest
request = record {
  workspace = str "team";
  app = str "mail ";
  release_id = str "v1";
  actor = str "ann";
  reason = str "broken";
  rolled_back_at = 0;
}

abbrev target : DeploymentHistory
target = (prepare_publication (str "v1") (mail (str "c1")) 1 1).1

abbrev result : ReleaseRollbackResult
result =
    new_release_rollback_result (str "a1") target (str "v2") (str "c2") (prepared_request request 9)

abbrev restored : CatalogSnapshot
restored =
    switch_release (normalize_snapshot two_releases) (prepared_request request 9) target result

is_restored : apply_release_rollback (str "a1") two_releases request 9 ≡ ok (restored, result)
unfolding apply_release_rollback normalize_snapshot prepare_publication trim_space str_dec
    ℕ_discrete prepare_release_rollback_request roll_back find_release first_release add_publication
    is_release normalize_workspace source_workspace get backfill_active_history_ids
    normalize_deployment_map put deployment_key
is_restored = refl

apply_release_rollback_lem_example :
    RolledBack (normalize_snapshot two_releases) restored (prepared_request request 9) result
    × (apply_release_rollback (str "a2") restored request 10 ≡ err release_already_active)
apply_release_rollback_lem_example =
    apply_release_rollback_lem (str "a1") (str "a2") two_releases restored request 9 10 result
      is_restored
