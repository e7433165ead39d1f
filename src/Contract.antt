-- ===== src/Contract.antt =====
-- internal/contract/contract.go: deployments, actions, results, and the rules that resolve a
-- job's workspace, route tag and required labels.
pub mod Labels
pub mod Tags
use windforce_lite.Prelude.{
  ℕ, Bool, true, false, not, ◌||◌, Option, none, some, List, [], ◌∷◌, ◌++◌, if◌then◌else◌, is_nil,
}
use windforce_lite.Prelude.Int.{ℤ}
use windforce_lite.Str.{Str, str, str_dec, str_eq, str_ltb, trim_space, has_prefix}
use windforce_lite.Table.{Table, get, put}
use windforce_lite.Json.{Raw}
use windforce_lite.Sort.{sort}

-- A slice: `none` is nil, which the code tells from an empty slice.
abbrev pub Slice : Type 0 → Type 0
Slice A = Option (List A)

abbrev pub elements : {A : Type 0} → Slice A → List A
elements none = []
elements (some xs) = xs

-- append([]T(nil), xs...), which is nil where there is nothing to append
abbrev pub clone : {A : Type 0} → List A → Slice A
clone [] = none
clone (x ∷ xs) = some (x ∷ xs)

pub record ActionAdapter : Type 0 where
  pub kind : Str
  pub command : Slice Str
  pub env : Slice Str
  pub options : Table Raw

pub record Action : Type 0 where
  pub action : Str
  pub tag : Option Str
  pub tag_override : Option Str
  pub runtime : Str
  pub entrypoint : Str
  pub command : Slice Str
  pub adapter : Option ActionAdapter
  pub input_schema : Str
  pub output_schema : Str
  pub operator_settings_schema : Str
  pub input_schema_body : Raw
  pub output_schema_body : Raw
  pub operator_settings_schema_body : Raw
  pub timeout_s : Option ℤ
  pub timeout_ms : ℤ
  pub capabilities : Option (List Str)
  pub runs_on : Option (List Str)
  pub updated_at : Option ℕ

pub record Deployment : Type 0 where
  pub workspace : Str
  pub git_source_id : Str
  pub app : Str
  pub version : Str
  pub tag : Str
  pub tag_override : Option Str
  pub entrypoint : Str
  pub runtime : Str
  pub script_lang : Str
  pub timeout_s : ℤ
  pub max_concurrent : Option ℤ
  pub required_capabilities : Slice Str
  pub required_labels : Slice Str
  pub commit : Str
  pub message : Option Str
  pub source : Str
  pub deployment_id : Option Str
  pub created_by : Option Str
  pub bundle_digest : Str
  pub bundle_uri : Str
  pub object_uri : Str
  pub actions : Option (Table Action)
  pub updated_at : Option ℕ

pub record JobResult : Type 0 where
  pub job_id : Str
  pub app : Str
  pub action : Str
  pub output : Raw
  pub exit_code : ℤ
  pub stdout : Str
  pub stderr : Str
  pub duration_ms : ℤ
  pub error : Str

abbrev pub job_token_prefix : Str
job_token_prefix = str "wfjob_"

abbrev pub workspace_token_prefix : Str
workspace_token_prefix = str "wfw_"

abbrev pub client_token_prefix : Str
client_token_prefix = str "wfk_"

abbrev cell_bearer_token_prefixes : List Str
cell_bearer_token_prefixes = job_token_prefix ∷ workspace_token_prefix ∷ client_token_prefix ∷ []

any_prefix : Str → List Str → Bool
any_prefix token [] = false
any_prefix token (prefix ∷ prefixes) = has_prefix token prefix || any_prefix token prefixes

unfoldable pub is_cell_bearer_token : Str → Bool
unfolding any_prefix has_prefix
is_cell_bearer_token token = any_prefix token cell_bearer_token_prefixes

abbrev pub default_workspace : Str
default_workspace = str "default"

abbrev pub default_git_source_id : Str
default_git_source_id = str "local"

abbrev pub default_route_tag : Str
default_route_tag = str "default"

-- An optional tag counts if it is there and is not blank; it is read trimmed.
trimmed_tag : Option Str → Str
trimmed_tag none = []
trimmed_tag (some s) = trim_space s

unfoldable pub effective_route_tag : Str → Option Str → Option Str → Option Str → Str
unfolding trimmed_tag
effective_route_tag app_tag app_tag_override action_tag action_tag_override =
    if not (is_nil (trimmed_tag action_tag_override))
    then trimmed_tag action_tag_override
    else if not (is_nil (trimmed_tag action_tag))
    then trimmed_tag action_tag
    else if not (is_nil (trimmed_tag app_tag_override))
    then trimmed_tag app_tag_override
    else if not (is_nil (trim_space app_tag))
    then trim_space app_tag
    else default_route_tag

unfoldable pub effective_route_tag_for_app : Deployment → Str
unfolding effective_route_tag
effective_route_tag_for_app d = effective_route_tag d.tag d.tag_override none none

unfoldable pub effective_route_tag_for_action : Deployment → Action → Str
unfolding effective_route_tag
effective_route_tag_for_action d a = effective_route_tag d.tag d.tag_override a.tag a.tag_override

-- The pinned deployment keeps the selected action only.
pinned_actions : Option (Table Action) → Str → Table Action
pinned_actions none key = []
pinned_actions (some actions) key = elim (get key actions) [
  | none ↦ []
  | some a ↦ put key (record a { command = clone (elements a.command) }) []
]

unfoldable pub pin_execution_deployment : Deployment → Str → Deployment
unfolding pinned_actions
pin_execution_deployment d key = record d {
  required_capabilities = clone (elements d.required_capabilities);
  required_labels = clone (elements d.required_labels);
  actions = some (pinned_actions d.actions key);
}

unfoldable pub normalize_workspace : Str → Str
normalize_workspace value =
    if is_nil (trim_space value) then default_workspace else trim_space value

unfoldable pub normalize_git_source_id : Str → Str → Str
normalize_git_source_id value app =
    if not (is_nil (trim_space value))
    then trim_space value
    else if not (is_nil (trim_space app))
    then trim_space app
    else default_git_source_id

unfoldable pub source_workspace : Deployment → Str
source_workspace d = normalize_workspace d.workspace

unfoldable pub source_git_source_id : Deployment → Str
source_git_source_id d = normalize_git_source_id d.git_source_id d.app

-- _, ok := seen[label]
unfoldable pub contains : Str → List Str → Bool
contains k [] = false
contains k (s ∷ seen) = str_eq s k || contains k seen

-- the loop of EffectiveRequiredLabels over the merged labels
distinct_labels : List Str → List Str → List Str
unfolding contains
distinct_labels seen [] = []
distinct_labels seen (raw ∷ rest) =
    let label = trim_space raw in
    let skipped = distinct_labels seen rest in
    let kept = label ∷ distinct_labels (label ∷ seen) rest in
    if is_nil label || contains label seen then skipped else kept

-- The labels that an action adds: `runsOn`, or else its capabilities.
contributed_labels : Option (List Str) → Option (List Str) → List Str
contributed_labels (some runs_on) capabilities = runs_on
contributed_labels none capabilities = elements capabilities

base_labels : Slice Str → Slice Str → List Str
base_labels (some labels) capabilities = labels
base_labels none capabilities = elements capabilities

pub merged_labels : Deployment → Action → List Str
unfolding contributed_labels base_labels
merged_labels d a =
    base_labels d.required_labels d.required_capabilities
    ++ contributed_labels a.runs_on a.capabilities

unfoldable pub effective_required_labels : Deployment → Action → Slice Str
unfolding distinct_labels merged_labels
effective_required_labels d a =
    if is_nil (merged_labels d a)
    then none
    else some (sort str_ltb (distinct_labels [] (merged_labels d a)))
