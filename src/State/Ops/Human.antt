-- ===== src/State/Ops/Human.antt =====
-- ResumeHumanTask, ResumeRun and GetHumanTask.
use windforce_lite.Prelude.{not, some, [], if◌then◌else◌, is_nil}
use windforce_lite.Str.{Str, str}
use windforce_lite.Table.{get, put}
use windforce_lite.Json.{
  Raw, Json, json, absent, malformed, object, text, field, no_fields, set_field, is_absent, valid,
}
use windforce_lite.Contract.{source_workspace}
use windforce_lite.State.Types.{
  Run, RunState, Job, HumanTask, HumanTaskState, Snapshot, Time, not_found, invalid_state,
  invalid_json, is_waiting_human,
}
use windforce_lite.State.Payload.{new_action_job, normalized_job_workspace}
use windforce_lite.State.Result.{Result, ok, ◌>>=◌, ◌>>◌, guard, or_fail}
use windforce_lite.State.AtRest.{AtRest}
use windforce_lite.State.Events.{append_event, event_payload, two_texts}
use windforce_lite.State.Ops.Enqueue.{with_input}
use windforce_lite.State.Ops.Read.{get_run}
use windforce_lite.State.Ops.Cancel.{is_pending}

-- A message that is absent or no JSON counts as {}.
abbrev pub or_empty_object : Raw → Json
or_empty_object (json j) = j
or_empty_object absent = object no_fields
or_empty_object (malformed s) = object no_fields

abbrev pub resume_object : Str → Json → Json
resume_object task_id resume_input =
    object (field (str "humanTaskID") (text task_id) (field (str "input") resume_input no_fields))

-- An input that is an object gets the key `$resume`; any other is wrapped.
abbrev pub merge_into : Json → Json → Json
merge_into (object fs) resume = object (set_field (str "$resume") resume fs)
merge_into original resume =
    object (field (str "$input") original (field (str "$resume") resume no_fields))

unfoldable pub merge_resume_input : Raw → Str → Raw → Raw
merge_resume_input original task_id resume_input =
    json
      (merge_into (or_empty_object original) (resume_object task_id (or_empty_object resume_input)))

abbrev pub resumed_task : HumanTask → Raw → Time → HumanTask
resumed_task task resume_input now = record task {
  state = HumanTaskState.completed;
  resume_input = resume_input;
  completed_at = some now;
}

abbrev pub resumed_run : Run → Time → Run
resumed_run run now = record run { state = RunState.resuming; task_id = []; updated_at = now }

-- `fresh` is what NewID("job") gives.
unfoldable pub resume_human_task :
    AtRest → Str → Raw → Str → Snapshot → Time → Result (Snapshot × Run × Job)
resume_human_task rest task_id resume_input fresh s now = do
  task ← or_fail (get task_id s.human_tasks) not_found
  guard (is_pending task.state) invalid_state
  run ← or_fail (get task.run_id s.runs) not_found
  guard (is_waiting_human run.state) invalid_state
  let input = if is_absent resume_input then json (object no_fields) else resume_input
  guard (valid input) invalid_json
  let run' = resumed_run run now
  plain ← rest.decrypt_input (source_workspace run.deployment) run.input
  let job = new_action_job fresh now run' (merge_resume_input plain task.id input)
  stored ← rest.encrypt_input (normalized_job_workspace [] job) job.payload.input
  let s' = record s {
    human_tasks = put task.id (resumed_task task input now) s.human_tasks;
    runs = put run.id run' s.runs;
    jobs = put job.id (with_input job stored) s.jobs;
  }
  ok (
    append_event run.id (str "human_task_resumed")
        (event_payload run.correlation_id (two_texts (str "taskId") task.id (str "jobId") job.id))
        now s',
    run',
    job,
  )

-- ResumeRun reads the run, then resumes the task that it waits for.
unfoldable pub resume_run :
    AtRest → Str → Raw → Str → Snapshot → Time → Result (Snapshot × Run × Job)
resume_run rest run_id resume_input fresh s now = do
  run ← get_run rest run_id s
  guard (not (is_nil run.task_id)) invalid_state
  resume_human_task rest run.task_id resume_input fresh s now
