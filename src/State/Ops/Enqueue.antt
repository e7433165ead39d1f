-- ===== src/State/Ops/Enqueue.antt =====
-- CreateRunAndEnqueue, RetryRun and RequeueQueuedJobsForApp.
use windforce_lite.Prelude.{
  ℕ, Bool, true, false, not, ◌&&◌, Option, none, some, [], if◌then◌else◌, is_nil,
}
use windforce_lite.Str.{Str, str, str_eq, trim_space}
use windforce_lite.Table.{get, put, map_values, count}
use windforce_lite.Json.{Raw, absent}
use windforce_lite.Contract.{source_workspace, normalize_workspace}
use windforce_lite.State.Types.{
  Run, RunState, Job, Snapshot, Time, conflict, not_found, invalid_state, RequeueAppSpec,
  non_zero_time, is_queued,
}
use windforce_lite.State.Payload.{new_action_job, normalized_job_workspace}
use windforce_lite.State.Result.{Result, ok, ◌>>=◌, ◌>>◌, guard, or_fail}
use windforce_lite.State.AtRest.{AtRest}
use windforce_lite.State.Events.{append_event, event_payload, one_text, two_texts}

abbrev pub is_none {ℓ} : {A : Type ℓ} → Option A → Bool
is_none none = true
is_none (some a) = false

-- The job as it is stored, its input aside.
unfoldable pub stamped_job : Run → Job → Time → Job
stamped_job run job now = record job {
  created_at = non_zero_time job.created_at now;
  updated_at = now;
  payload = record (job.payload) {
    correlation_id =
        if is_nil job.payload.correlation_id
        then run.correlation_id
        else job.payload.correlation_id;
  };
}

abbrev pub with_input : Job → Raw → Job
with_input job input = record job { payload = record (job.payload) { input = input } }

unfoldable pub create_run_and_enqueue : AtRest → Run → Job → Snapshot → Time → Result Snapshot
unfolding stamped_job
create_run_and_enqueue rest run job s now = do
  guard (is_none (get run.id s.runs)) conflict
  guard (is_none (get job.id s.jobs)) conflict
  let job' = stamped_job run job now
  let workspace_id = normalized_job_workspace [] job'
  run_input ← rest.encrypt_input workspace_id run.input
  job_input ← rest.encrypt_input workspace_id job'.payload.input
  let run' = record run {
    created_at = non_zero_time run.created_at now;
    updated_at = now;
    input = run_input;
  }
  let s' = record s {
    runs = put run.id run' s.runs;
    jobs = put job.id (with_input job' job_input) s.jobs;
  }
  ok (
      append_event run.id (str "job_enqueued")
        (event_payload run.correlation_id (one_text (str "jobId") job.id)) now
        (append_event run.id (str "run_created")
          (event_payload run.correlation_id
            (two_texts (str "app") run.app (str "action") run.action))
          now s'))

-- case RunFailed, RunCanceled, RunExpired
abbrev pub can_retry : RunState → Bool
can_retry RunState.failed = true
can_retry RunState.canceled = true
can_retry RunState.expired = true
can_retry _ = false

abbrev pub queued_again : Run → Time → Run
queued_again run now = record run {
  state = RunState.queued;
  output = absent;
  result = none;
  error = absent;
  task_id = [];
  updated_at = now;
}

-- `fresh` is what NewID("job") gives.
unfoldable pub retry_run : AtRest → Str → Str → Snapshot → Time → Result (Snapshot × Run × Job)
retry_run rest run_id fresh s now = do
  run ← or_fail (get run_id s.runs) not_found
  guard (can_retry run.state) invalid_state
  let run' = queued_again run now
  plain ← rest.decrypt_input (source_workspace run.deployment) run.input
  let job = new_action_job fresh now run' plain
  stored ← rest.encrypt_input (normalized_job_workspace [] job) job.payload.input
  let s' = record s {
    runs = put run.id run' s.runs;
    jobs = put job.id (with_input job stored) s.jobs;
  }
  ok (
    append_event run.id (str "run_retried")
        (event_payload run.correlation_id (one_text (str "jobId") job.id)) now s',
    run',
    job,
  )

abbrev pub action_matches : Option Str → Str → Bool
action_matches none action = true
action_matches (some key) action = str_eq action key

-- The tag of the spec, unless it is missing, blank or the job's own.
abbrev pub new_tag : Option Str → Str → Option Str
new_tag none old = none
new_tag (some tag) old =
    if is_nil (trim_space tag)
    then none
    else if str_eq old (trim_space tag)
    then none
    else some (trim_space tag)

-- The tag that a queued job moves to, if it moves.
unfoldable pub requeue_tag : RequeueAppSpec → Job → Option Str
requeue_tag spec job =
    if is_queued job.state
      && str_eq (normalized_job_workspace [] job) (normalize_workspace spec.workspace_id)
      && str_eq job.payload.app spec.app_key
      && action_matches spec.action_key job.payload.action
    then new_tag (get job.payload.action spec.action_tags) job.payload.tag
    else none

abbrev pub retag : Time → Job → Option Str → Job
retag now job none = job
retag now job (some tag) = record job {
  payload = record (job.payload) { tag = tag };
  updated_at = now;
}

-- The number of jobs moved is at most the number of jobs, so it is left unbounded.
unfoldable pub requeue_queued_jobs_for_app :
    RequeueAppSpec → Snapshot → Time → Result (Snapshot × ℕ)
unfolding requeue_tag
requeue_queued_jobs_for_app spec s now = ok (
  record s { jobs = map_values (λ job. retag now job (requeue_tag spec job)) s.jobs },
  count (λ id job. not (is_none (requeue_tag spec job))) s.jobs,
)
