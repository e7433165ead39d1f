-- ===== src/State/Types.antt =====
-- internal/state/state.go: the records of the store and the states they go through. A time is the
-- number of nanoseconds since the zero time.Time, which is 0.
use windforce_lite.Prelude.{
  ℕ, ◌==◌, Bool, true, false, Option, List, [], ◌∷◌, ◌||◌, if◌then◌else◌, is_nil,
}
use windforce_lite.Prelude.Int.{ℤ}
use windforce_lite.Str.{Str, str, trim_space}
use windforce_lite.Table.{Table}
use windforce_lite.Json.{Raw}
use windforce_lite.Contract.{Deployment, Action, JobResult, Slice}

abbrev pub Time : Type 0
Time = ℕ

pub data RunState : Type 0 where
  queued running waiting_human resuming succeeded failed canceled expired : RunState

pub data JobState : Type 0 where
  queued running succeeded failed : JobState

-- `unset` is the empty string, which a task may carry until it is stored.
pub data HumanTaskState : Type 0 where
  unset pending completed expired : HumanTaskState

pub data Err : Type 0 where
  not_found no_queued_job conflict invalid_state invalid_lease : Err
  -- the messages of errors that carry no sentinel
  invalid_json crypto_failure : Err
  -- of package webhook, whose other sentinels have the names above
  invalid_webhook no_pending_delivery : Err
  -- of input_config.go; the keys are those of LockedKeysError
  invalid_input_config input_not_object settings_not_object : Err
  locked_keys : List Str → Err
  -- of package catalog
  deployment_not_found action_not_found release_not_found : Err
  release_already_active invalid_rollback : Err
  -- of package event
  invalid_event : Err

pub record Run : Type 0 where
  pub id : Str
  pub adapter : Str
  pub app : Str
  pub action : Str
  pub state : RunState
  pub deployment : Deployment
  pub input : Raw
  pub input_config_resolved : Bool
  pub output : Raw
  pub result : Option JobResult
  pub error : Raw
  pub task_id : Str
  pub correlation_id : Str
  pub env : Slice Str
  pub created_by : Str
  pub permissioned_as : Str
  pub client_id : Str
  pub created_at : Time
  pub updated_at : Time
  pub expires_at : Option Time

pub record JobPayload : Type 0 where
  pub workspace : Str
  pub git_source_id : Str
  pub commit : Str
  pub app : Str
  pub action : Str
  pub version : Str
  pub tag : Str
  pub deployment_tag : Str
  pub deployment_tag_override : Option Str
  pub entrypoint : Str
  pub runtime : Str
  pub script_lang : Str
  pub timeout_s : ℤ
  pub max_concurrent : Option ℤ
  pub required_capabilities : Slice Str
  pub required_labels : Slice Str
  pub deployment_id : Option Str
  pub bundle_digest : Str
  pub bundle_uri : Str
  pub object_uri : Str
  pub trigger_kind : Str
  pub trigger_headers : Raw
  pub action_spec : Action
  pub input_schema : Raw
  pub output_schema : Raw
  pub input : Raw
  pub input_config_resolved : Bool
  pub deployment : Option Deployment
  pub correlation_id : Str
  pub env : Slice Str
  pub created_by : Str
  pub permissioned_as : Str
  pub client_id : Str
  pub flow_run_id : Str
  pub flow_step_id : Str
  pub flow_key : Str
  pub flow_step_key : Str

pub record Job : Type 0 where
  pub id : Str
  pub run_id : Str
  pub state : JobState
  pub kind : Str
  pub payload : JobPayload
  pub priority : ℤ
  pub attempt : ℕ
  pub lease_owner : Str
  pub lease_expires_at : Option Time
  pub started_at : Option Time
  pub canceled_by : Option Str
  pub canceled_reason : Option Str
  pub created_at : Time
  pub updated_at : Time

pub record Lease : Type 0 where
  pub job_id : Str
  pub worker_id : Str
  pub expires_at : Time
  pub attempt : ℕ
  pub acquired_at : Time

pub record HeartbeatResult : Type 0 where
  pub canceled_by : Option Str
  pub canceled_reason : Option Str
  pub still_owned : Bool

pub record HumanTask : Type 0 where
  pub id : Str
  pub run_id : Str
  pub state : HumanTaskState
  pub title : Str
  pub description : Str
  pub schema : Raw
  pub resume_input : Raw
  pub created_at : Time
  pub completed_at : Option Time
  pub expires_at : Option Time

pub record CancelResult : Type 0 where
  pub found : Bool
  pub completed_now : Bool
  pub soft_canceled : Bool
  pub already_completed : Bool

pub record RequeueAppSpec : Type 0 where
  pub workspace_id : Str
  pub app_key : Str
  pub action_key : Option Str
  pub action_tags : Table Str

pub record RunEvent : Type 0 where
  pub id : ℕ
  pub run_id : Str
  pub event_type : Str
  pub payload : Raw
  pub created_at : Time

pub record JobLog : Type 0 where
  pub job_id : Str
  pub workspace_id : Str
  pub logs : Str
  pub created_at : Time

-- The part of the snapshot that the queue works on.
pub record Snapshot : Type 0 where
  pub sequence : ℕ
  pub runs : Table Run
  pub jobs : Table Job
  pub human_tasks : Table HumanTask
  pub events : List RunEvent
  pub job_logs : Table JobLog

abbrev pub terminal_run_state : RunState → Bool
terminal_run_state succeeded = true
terminal_run_state failed = true
terminal_run_state canceled = true
terminal_run_state expired = true
terminal_run_state _ = false

abbrev pub is_terminal : Run → Bool
is_terminal run = terminal_run_state run.state

abbrev pub is_waiting_human : RunState → Bool
is_waiting_human waiting_human = true
is_waiting_human _ = false

unfoldable pub is_settled_for_trigger : Run → Bool
is_settled_for_trigger run = is_terminal run || is_waiting_human run.state

abbrev pub is_succeeded : RunState → Bool
is_succeeded succeeded = true
is_succeeded _ = false

unfoldable pub retention_cutoff : RunState → Time → Time → Time
retention_cutoff s success_older_than failure_older_than =
    if is_succeeded s then success_older_than else failure_older_than

abbrev pub is_queued : JobState → Bool
is_queued queued = true
is_queued _ = false

abbrev pub is_running : JobState → Bool
is_running running = true
is_running _ = false

-- job.State == JobSucceeded || job.State == JobFailed
abbrev pub is_settled : JobState → Bool
is_settled succeeded = true
is_settled failed = true
is_settled _ = false

abbrev pub non_zero_time : Time → Time → Time
non_zero_time value fallback = if value == 0 then fallback else value

abbrev pub default_actor_subject : Str
default_actor_subject = str "system"

unfoldable pub first_non_empty : List Str → Str
first_non_empty [] = []
first_non_empty (value ∷ values) = if is_nil value then first_non_empty values else value

unfoldable pub actor_created_by : Run → Str
actor_created_by run =
    if is_nil (trim_space run.created_by) then default_actor_subject else trim_space run.created_by

unfoldable pub actor_permissioned_as : Run → Str
unfolding actor_created_by
actor_permissioned_as run =
    if is_nil (trim_space run.permissioned_as)
    then actor_created_by run
    else trim_space run.permissioned_as

unfoldable pub cancel_actor_subject : Job → Run → Str → Str
unfolding first_non_empty
cancel_actor_subject job run by = first_non_empty (
    trim_space by
    ∷ trim_space run.permissioned_as
    ∷ trim_space run.created_by
    ∷ trim_space job.payload.permissioned_as
    ∷ trim_space job.payload.created_by
    ∷ default_actor_subject
    ∷ [])

abbrev pub cancel_before_execution_message : Str
cancel_before_execution_message = str "job canceled before execution"

abbrev pub cancel_during_execution_message : Str
cancel_during_execution_message = str "job canceled"

abbrev pub cancel_worker_lost_message : Str
cancel_worker_lost_message = str "job canceled; worker lost during execution"
