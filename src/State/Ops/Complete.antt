-- ===== src/State/Ops/Complete.antt =====
-- CompleteJobSucceeded, CompleteJobFailed and CompleteJobWaitingHuman.
use windforce_lite.Prelude.{
  zero, ◌++◌, Bool, true, false, not, ◌&&◌, Option, none, some, [], if◌then◌else◌, is_nil,
}
use windforce_lite.Prelude.Int.{ℤ, pos}
use windforce_lite.Str.{Str, str, format_int}
use windforce_lite.Table.{get, put}
use windforce_lite.Json.{json, object, text, number, field, no_fields, absent}
use windforce_lite.Contract.{JobResult}
use windforce_lite.State.Types.{
  Run, RunState, Job, JobState, HumanTask, HumanTaskState, Snapshot, Lease, Time, conflict,
  non_zero_time, cancel_during_execution_message,
}
use windforce_lite.State.Payload.{normalized_job_workspace}
use windforce_lite.State.Result.{Result, ok, ◌>>=◌, ◌>>◌, guard}
use windforce_lite.State.AtRest.{AtRest}
use windforce_lite.State.Events.{append_event, event_payload, one_text, two_texts}
use windforce_lite.State.Ops.Enqueue.{is_none}
use windforce_lite.State.Ops.Cancel.{settle_canceled, canceled_reason_value, encrypt_job_result}
use windforce_lite.State.Ops.Lease.{leased_job_and_run}

abbrev pub ended : Job → JobState → Time → Job
ended job state now = record job { state = state; lease_expires_at = none; updated_at = now }

-- A job that was canceled while it ran is settled as canceled, whatever it returned.
abbrev pub unless_canceled :
    AtRest → Option Str → Job → Run → Result Snapshot → Time → Snapshot → Result Snapshot
unless_canceled rest none job run finish now s = finish
unless_canceled rest (some by) job run finish now s =
    settle_canceled rest job run by (canceled_reason_value job) cancel_during_execution_message now
      s

abbrev pub run_succeeded : Run → JobResult → Time → Run
run_succeeded run result now = record run {
  state = RunState.succeeded;
  output = result.output;
  result = some result;
  error = absent;
  task_id = [];
  updated_at = now;
}

unfoldable pub finish_succeeded : AtRest → Job → Run → JobResult → Snapshot → Time → Result Snapshot
finish_succeeded rest job run result s now = do
  stored ← encrypt_job_result rest (normalized_job_workspace [] job) result
  ok (
      append_event run.id (str "run_succeeded")
        (event_payload run.correlation_id (one_text (str "jobId") job.id)) now
        (record s {
          jobs = put job.id (ended job JobState.succeeded now) s.jobs;
          runs = put run.id (run_succeeded run stored now) s.runs;
        }))

unfoldable pub complete_job_succeeded :
    AtRest → Lease → JobResult → Snapshot → Time → Result Snapshot
complete_job_succeeded rest lease result s now = do
  (job, run) ← leased_job_and_run s lease now
  unless_canceled rest job.canceled_by job run (finish_succeeded rest job run result s now) now s

abbrev pub is_zero : ℤ → Bool
is_zero (pos zero) = true
is_zero _ = false

-- A failure without a message gets one that names the exit code.
unfoldable pub with_error_message : JobResult → JobResult
with_error_message result =
    if is_nil result.error && not (is_zero result.exit_code)
    then record result { error = str "action exited with code " ++ format_int result.exit_code }
    else result

abbrev pub run_failed : Run → JobResult → JobResult → Time → Run
run_failed run stored result now = record run {
  state = RunState.failed;
  result = some stored;
  error = json (
      object (
        field (str "message") (text result.error)
          (field (str "exitCode") (number result.exit_code) no_fields)));
  updated_at = now;
}

unfoldable pub finish_failed : AtRest → Job → Run → JobResult → Snapshot → Time → Result Snapshot
finish_failed rest job run result s now = do
  stored ← encrypt_job_result rest (normalized_job_workspace [] job) result
  ok (
      append_event run.id (str "run_failed")
        (event_payload run.correlation_id (
          field (str "jobId") (text job.id) (
            field (str "error") (text result.error)
              (field (str "exitCode") (number result.exit_code) no_fields))))
        now
        (record s {
          jobs = put job.id (ended job JobState.failed now) s.jobs;
          runs = put run.id (run_failed run stored result now) s.runs;
        }))

unfoldable pub complete_job_failed : AtRest → Lease → JobResult → Snapshot → Time → Result Snapshot
complete_job_failed rest lease result s now = do
  (job, run) ← leased_job_and_run s lease now
  unless_canceled rest job.canceled_by job run
      (finish_failed rest job run (with_error_message result) s now) now s

abbrev pub or_pending : HumanTaskState → HumanTaskState
or_pending HumanTaskState.unset = HumanTaskState.pending
or_pending state = state

-- The task as it is stored; `fresh` is what NewID("human") gives.
unfoldable pub prepared_task : Str → Str → HumanTask → Time → HumanTask
prepared_task fresh run_id task now = record task {
  id = if is_nil task.id then fresh else task.id;
  run_id = if is_nil task.run_id then run_id else task.run_id;
  state = or_pending task.state;
  created_at = non_zero_time task.created_at now;
}

abbrev pub run_waiting : Run → JobResult → Str → Time → Run
run_waiting run result task_id now = record run {
  state = RunState.waiting_human;
  result = some result;
  error = absent;
  task_id = task_id;
  updated_at = now;
}

unfoldable pub finish_waiting :
    AtRest → Job → Run → JobResult → HumanTask → Snapshot → Time → Result Snapshot
finish_waiting rest job run result task s now = do
  stored ← encrypt_job_result rest (normalized_job_workspace [] job) result
  guard (is_none (get task.id s.human_tasks)) conflict
  ok (
      append_event run.id (str "human_task_created")
        (event_payload run.correlation_id (two_texts (str "jobId") job.id (str "taskId") task.id))
        now
        (record s {
          jobs = put job.id (ended job JobState.succeeded now) s.jobs;
          runs = put run.id (run_waiting run stored task.id now) s.runs;
          human_tasks = put task.id task s.human_tasks;
        }))

unfoldable pub complete_job_waiting_human :
    AtRest → Str → Lease → JobResult → HumanTask → Snapshot → Time → Result Snapshot
complete_job_waiting_human rest fresh lease result task s now = do
  (job, run) ← leased_job_and_run s lease now
  unless_canceled rest job.canceled_by job run
      (finish_waiting rest job run result (prepared_task fresh run.id task now) s now) now s
