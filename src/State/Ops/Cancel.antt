-- ===== src/State/Ops/Cancel.antt =====
-- CancelJob, CancelRun and the settling of a canceled job.
use windforce_lite.Prelude.{
  Bool, true, false, not, ◌&&◌, ◌||◌, Option, none, some, [], if◌then◌else◌, is_nil,
}
use windforce_lite.Prelude.Int.{negsuc, pos}
use windforce_lite.Str.{Str, str, str_eq, trim_space}
use windforce_lite.Table.{get, put, map_values}
use windforce_lite.Json.{Raw, json, object, text, field, absent}
use windforce_lite.Contract.{JobResult, normalize_workspace}
use windforce_lite.State.Types.{
  Run, RunState, Job, JobState, HumanTask, HumanTaskState, Snapshot, Time, not_found, invalid_state,
  CancelResult, is_terminal, is_running, is_settled, cancel_actor_subject,
  cancel_before_execution_message,
}
use windforce_lite.State.Payload.{normalized_job_workspace}
use windforce_lite.State.Result.{Result, ok, ◌>>=◌, ◌>>◌, guard, or_fail}
use windforce_lite.State.AtRest.{AtRest}
use windforce_lite.State.Events.{append_event, event_payload, one_text, two_texts}

abbrev pub or_empty : Option Str → Str
or_empty none = []
or_empty (some s) = s

unfoldable pub canceled_reason_value : Job → Str
canceled_reason_value job = or_empty job.canceled_reason

unfoldable pub canceled_job_result : Job → Run → Str → JobResult
canceled_job_result job run message = record {
  job_id = job.id;
  app = run.app;
  action = run.action;
  output = json (object (two_texts (str "name") (str "Canceled") (str "message") message));
  exit_code = negsuc 0;
  stdout = [];
  stderr = [];
  duration_ms = pos 0;
  error = message;
}

unfoldable pub cancel_message : Str → Str
cancel_message message =
    if is_nil (trim_space message) then str "job canceled" else trim_space message

abbrev pub settled_by_cancel : Job → Str → Str → Time → Job
settled_by_cancel job by reason now = record job {
  state = JobState.failed;
  lease_expires_at = none;
  canceled_by = some by;
  canceled_reason = some reason;
  updated_at = now;
}

abbrev pub run_settled_by_cancel : Job → Run → Str → Str → Str → Time → Run
run_settled_by_cancel job run by reason message now = record run {
  state = RunState.canceled;
  result = some (canceled_job_result job run message);
  error = json (
      object (
        field (str "message") (text message)
          (two_texts (str "canceledBy") by (str "canceledReason") reason)));
  updated_at = now;
}

unfoldable pub apply_canceled_job : Job → Run → Str → Str → Str → Time → Snapshot → Snapshot
apply_canceled_job job run by reason message now s =
    append_event run.id (str "run_canceled")
      (event_payload run.correlation_id
        (field (str "jobId") (text job.id) (two_texts (str "by") by (str "reason") reason)))
      now
      (record s {
        jobs = put job.id (settled_by_cancel job by reason now) s.jobs;
        runs =
            put run.id (run_settled_by_cancel job run by reason (cancel_message message) now)
              s.runs;
      })

unfoldable pub encrypt_job_result : AtRest → Str → JobResult → Result JobResult
encrypt_job_result rest workspace_id result = do
  output ← rest.encrypt_result workspace_id result.output
  ok (record result { output = output })

abbrev pub encrypt_optional_result : AtRest → Str → Option JobResult → Result (Option JobResult)
encrypt_optional_result rest workspace_id none = ok none
encrypt_optional_result rest workspace_id (some result) = do
  stored ← encrypt_job_result rest workspace_id result
  ok (some stored)

abbrev pub encrypt_present : AtRest → Str → Raw → Result Raw
encrypt_present rest workspace_id absent = ok absent
encrypt_present rest workspace_id output = rest.encrypt_result workspace_id output

-- A missing run is no error.
abbrev pub encrypt_run : AtRest → Str → Option Run → Str → Snapshot → Result Snapshot
encrypt_run rest workspace_id none run_id s = ok s
encrypt_run rest workspace_id (some run) run_id s = do
  output ← encrypt_present rest workspace_id run.output
  result ← encrypt_optional_result rest workspace_id run.result
  ok (record s { runs = put run_id (record run { output = output; result = result }) s.runs })

unfoldable pub encrypt_stored_run_result : AtRest → Str → Str → Snapshot → Result Snapshot
encrypt_stored_run_result rest workspace_id run_id s =
    encrypt_run rest workspace_id (get run_id s.runs) run_id s

-- What every caller does with a canceled job: settle it, then encrypt the result of its run. The
-- workspace is that of the job as the caller holds it.
unfoldable pub settle_canceled :
    AtRest → Job → Run → Str → Str → Str → Time → Snapshot → Result Snapshot
settle_canceled rest job run by reason message now s =
    encrypt_stored_run_result rest (normalized_job_workspace [] job) run.id
      (apply_canceled_job job run by reason message now s)

abbrev pub cancel_not_found : CancelResult
cancel_not_found = record {
  found = false;
  completed_now = false;
  soft_canceled = false;
  already_completed = false;
}

abbrev pub marked_canceled : Job → Str → Str → Time → Job
marked_canceled job by reason now = record job {
  canceled_by = some by;
  canceled_reason = some reason;
  updated_at = now;
}

-- The branches of CancelJob, once the job and its run are found.
unfoldable pub cancel_found :
    AtRest → Job → Run → Str → Str → Snapshot → Time → Result (Snapshot × CancelResult)
cancel_found rest job run by reason s now =
    if is_terminal run || is_settled job.state
    then ok (s, record cancel_not_found { found = true; already_completed = true })
    else if is_running job.state
    then ok (
      record s {
        jobs = put job.id (marked_canceled job (cancel_actor_subject job run by) reason now) s.jobs;
      },
      record cancel_not_found { found = true; soft_canceled = true },
    )
    else (do
      s' ←
          settle_canceled rest job run (cancel_actor_subject job run by) reason
            cancel_before_execution_message now s
      ok (s', record cancel_not_found { found = true; completed_now = true }))

abbrev pub cancel_looked_up :
    AtRest → Str → Option Job → Str → Str → Snapshot → Time → Result (Snapshot × CancelResult)
cancel_looked_up rest workspace_id none by reason s now = ok (s, cancel_not_found)
cancel_looked_up rest workspace_id (some job) by reason s now =
    if not (str_eq (normalized_job_workspace [] job) (normalize_workspace workspace_id))
    then ok (s, cancel_not_found)
    else (do
      run ← or_fail (get job.run_id s.runs) not_found
      cancel_found rest job run by reason s now)

unfoldable pub cancel_job :
    AtRest → Str → Str → Str → Str → Snapshot → Time → Result (Snapshot × CancelResult)
cancel_job rest workspace_id job_id by reason s now =
    cancel_looked_up rest workspace_id (get job_id s.jobs) by reason s now

-- The job of the canceled run, if it is live.
unfoldable pub stop_job : Str → Time → Job → Job
stop_job run_id now job =
    if str_eq job.run_id run_id && not (is_settled job.state)
    then record job {
      state = JobState.failed;
      lease_owner = [];
      lease_expires_at = none;
      updated_at = now;
    }
    else job

abbrev pub is_pending : HumanTaskState → Bool
is_pending HumanTaskState.pending = true
is_pending _ = false

unfoldable pub expire_task : Str → HumanTask → HumanTask
expire_task run_id task =
    if str_eq task.run_id run_id && is_pending task.state
    then record task { state = HumanTaskState.expired }
    else task

unfoldable pub cancel_run : Str → Str → Snapshot → Time → Result (Snapshot × Run)
unfolding stop_job expire_task
cancel_run run_id reason s now = do
  run ← or_fail (get run_id s.runs) not_found
  guard (not (is_terminal run)) invalid_state
  let run' = record run {
    state = RunState.canceled;
    error = json (object (one_text (str "message") reason));
    updated_at = now;
  }
  let s' = record s {
    jobs = map_values (stop_job run_id now) s.jobs;
    human_tasks = map_values (expire_task run_id) s.human_tasks;
    runs = put run_id run' s.runs;
  }
  ok (
    append_event run_id (str "run_canceled")
        (event_payload run.correlation_id (one_text (str "reason") reason)) now s',
    run',
  )
