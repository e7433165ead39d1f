-- ===== src/State/Settings.antt =====
-- internal/state/state.go: the API clients of a workspace and the input settings of its apps, with
-- their audits.
pub mod Clients
pub mod Registry
pub mod Calls
pub mod Tokens
pub mod Overlay
pub mod Merged
pub mod Objects
pub mod Resolved
pub mod Precedence
pub mod Changes
pub mod Stored
pub mod Listed
pub mod Locks
pub mod Locked
pub mod Audited
mod Examples
use windforce_lite.Prelude.{List}
use windforce_lite.Str.{Str}
use windforce_lite.Table.{Table}
use windforce_lite.Json.{Raw}
use windforce_lite.State.Types.{Time}

pub record Client : Type 0 where
  pub id : Str
  pub workspace_id : Str
  pub name : Str
  pub token_hash : Str
  pub created_by : Str
  pub updated_by : Str
  pub created_at : Time
  pub updated_at : Time

pub record ClientAudit : Type 0 where
  pub id : Str
  pub workspace_id : Str
  pub client_id : Str
  pub kind : Str
  pub detail : Str
  pub actor : Str
  pub created_at : Time

pub record InputConfig : Type 0 where
  pub workspace_id : Str
  pub app_key : Str
  pub action_key : Str
  pub client_id : Str
  pub config : Raw
  pub locked_keys : List Str
  pub updated_by : Str
  pub updated_at : Time

pub record InputConfigAudit : Type 0 where
  pub id : Str
  pub workspace_id : Str
  pub app_key : Str
  pub action_key : Str
  pub client_id : Str
  pub kind : Str
  pub detail : Str
  pub actor : Str
  pub created_at : Time

-- The part of the snapshot that clients and input settings stand in.
pub record Settings : Type 0 where
  pub clients : Table (Table Client)
  pub client_audits : Table (List ClientAudit)
  pub input_configs : Table (Table InputConfig)
  pub input_config_audits : Table (List InputConfigAudit)
