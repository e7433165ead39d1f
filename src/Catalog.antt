-- ===== src/Catalog.antt =====
-- internal/catalog: what is deployed in each workspace, and the history of its releases.
pub mod Publish
pub mod Rollback
pub mod Import
pub mod Active
mod Examples
use windforce_lite.Prelude.{Option, List, [], ◌++◌}
use windforce_lite.Str.{Str, str, trim_space}
use windforce_lite.Table.{Table}
use windforce_lite.Contract.{Deployment, normalize_workspace, normalize_git_source_id}
use windforce_lite.State.Types.{Time}

pub record SourceReleaseMarker : Type 0 where
  pub workspace : Str
  pub git_source_id : Str
  pub commit : Str
  pub released_at : Time

pub record AuditRecord : Type 0 where
  pub id : Str
  pub workspace : Str
  pub git_source_id : Str
  pub app : Str
  pub kind : Str
  pub detail : Str
  pub actor : Str
  pub created_at : Time

pub record DeploymentHistory : Type 0 where
  pub id : Str
  pub workspace : Str
  pub git_source_id : Str
  pub app : Str
  pub commit : Str
  pub entrypoint : Str
  pub source : Str
  pub status : Str
  pub deployment_id : Option Str
  pub message : Option Str
  pub created_by : Option Str
  pub object_uri : Str
  pub deployment : Deployment
  pub created_at : Time

pub record ReleaseCandidate : Type 0 where
  pub deployment : Deployment
  pub synced_at : Time

-- The package's Snapshot. Its maps and slices are never nil once it is loaded.
pub record CatalogSnapshot : Type 0 where
  pub deployments : Table Deployment
  pub active_history_ids : Table Str
  pub candidates : Table ReleaseCandidate
  pub history : List DeploymentHistory
  pub audit : List AuditRecord
  pub source_markers : Table SourceReleaseMarker

abbrev pub new_catalog : CatalogSnapshot
new_catalog = record {
  deployments = [];
  active_history_ids = [];
  candidates = [];
  history = [];
  audit = [];
  source_markers = [];
}

unfoldable pub deployment_key : Str → Str → Str
deployment_key workspace app = normalize_workspace workspace ++ (str "/" ++ app)

unfoldable pub source_release_key : Str → Str → Str
source_release_key workspace git_source_id =
    normalize_workspace workspace ++ (str "/" ++ git_source_id)

unfoldable pub release_candidate_key : Str → Str → Str → Str
release_candidate_key workspace git_source_id commit =
    normalize_workspace workspace
    ++ (str "/" ++ (normalize_git_source_id git_source_id [] ++ (str "/" ++ trim_space commit)))
