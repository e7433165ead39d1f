-- ===== src/State/Claim.antt =====
-- internal/state/job_views.go: which jobs a worker may claim, and in which order.
use windforce_lite.Prelude.{
  ℕ, zero, suc, ltb, leb, Bool, true, false, ◌&&◌, ◌||◌, Option, none, some, List, [], ◌∷◌,
  if◌then◌else◌, is_nil,
}
use windforce_lite.Prelude.Int.{ℤ, pos, negsuc, ltb_ℤ}
use windforce_lite.Str.{Str, str_eq, str_ltb, trim_space}
use windforce_lite.Table.{Table, count}
use windforce_lite.Contract.{Slice, elements, contains, effective_route_tag_for_action}
use windforce_lite.State.Types.{Job, Snapshot, is_queued, is_running}
use windforce_lite.State.Payload.{pinned_deployment, normalized_job_workspace}

unfoldable pub job_tag : Job → Str
job_tag job =
    if is_nil (trim_space job.payload.tag)
    then effective_route_tag_for_action (pinned_deployment job.payload) job.payload.action_spec
    else trim_space job.payload.tag

unfoldable pub job_app_key : Job → Str
job_app_key job =
    if is_nil (trim_space job.payload.app)
    then trim_space (pinned_deployment job.payload).app
    else trim_space job.payload.app

-- A limit of zero or less is none.
abbrev pub positive_limit : Option ℤ → Option ℕ
positive_limit none = none
positive_limit (some (negsuc n)) = none
positive_limit (some (pos zero)) = none
positive_limit (some (pos (suc n))) = some (suc n)

unfoldable pub job_max_concurrent : Job → Option ℕ
job_max_concurrent job = positive_limit (pinned_deployment job.payload).max_concurrent

-- A running job of the workspace and the app.
unfoldable pub runs_app : Str → Str → Str → Job → Bool
runs_app workspace_id app_key id job =
    is_running job.state
    && str_eq (normalized_job_workspace [] job) workspace_id
    && str_eq (job_app_key job) app_key

-- The number of running jobs of the workspace and the app.
unfoldable pub running_count : Str → Str → Table Job → ℕ
running_count workspace_id app_key jobs = count (runs_app workspace_id app_key) jobs

abbrev pub limit_reached : Option ℕ → Str → Str → Table Job → Bool
limit_reached none workspace_id app_key jobs = false
limit_reached (some limit) workspace_id app_key jobs =
    if is_nil app_key then false else leb limit (running_count workspace_id app_key jobs)

unfoldable pub max_concurrent_reached : Snapshot → Job → Bool
max_concurrent_reached s candidate =
    limit_reached (job_max_concurrent candidate) (normalized_job_workspace [] candidate)
      (job_app_key candidate) s.jobs

-- The set of the tags, trimmed, without the blank ones; nil is the empty set.
unfoldable pub normalize_claim_tags : List Str → List Str
normalize_claim_tags [] = []
normalize_claim_tags (tag ∷ tags) =
    if is_nil (trim_space tag)
    then normalize_claim_tags tags
    else trim_space tag ∷ normalize_claim_tags tags

abbrev pub pinned_labels : Slice Str → Slice Str → List Str
pinned_labels (some labels) capabilities = labels
pinned_labels none capabilities = elements capabilities

unfoldable pub job_required_labels : Job → List Str
job_required_labels job =
    pinned_labels job.payload.required_labels job.payload.required_capabilities

unfoldable pub covers : List Str → List Str → Bool
covers labels [] = true
covers labels (required ∷ rest) = contains required labels && covers labels rest

unfoldable pub claim_allowed : Job → List Str → List Str → Bool
claim_allowed job tags labels =
    (is_nil tags || contains (job_tag job) tags) && covers labels (job_required_labels job)

-- The order of claims: by priority, then by age, then by id.
unfoldable pub claim_before : Job → Job → Bool
claim_before left right =
    if ltb_ℤ left.priority right.priority
    then true
    else if ltb_ℤ right.priority left.priority
    then false
    else if ltb left.created_at right.created_at
    then true
    else if ltb right.created_at left.created_at
    then false
    else str_ltb left.id right.id

-- The queued jobs that the worker may claim, in the order of the map.
unfoldable pub candidates : List Str → List Str → Table Job → List Job
candidates tags labels [] = []
candidates tags labels ((id, job) ∷ jobs) =
    if is_queued job.state && claim_allowed job tags labels
    then job ∷ candidates tags labels jobs
    else candidates tags labels jobs

-- The first candidate whose app has room.
unfoldable pub first_with_room : Snapshot → List Job → Option Job
first_with_room s [] = none
first_with_room s (job ∷ rest) =
    if max_concurrent_reached s job then first_with_room s rest else some job
