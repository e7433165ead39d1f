-- ===== src/State/Ops/Read.antt =====
-- GetRun, GetJob, GetHumanTask and GetLogs, which read the snapshot.
use windforce_lite.Prelude.{not, Option, none, some, [], if◌then◌else◌}
use windforce_lite.Str.{Str, str_eq}
use windforce_lite.Table.{get}
use windforce_lite.Json.{Raw, absent}
use windforce_lite.Contract.{JobResult, source_workspace, normalize_workspace}
use windforce_lite.State.Types.{Run, Job, HumanTask, Snapshot, not_found}
use windforce_lite.State.Payload.{normalized_job_workspace}
use windforce_lite.State.Result.{Result, ok, ◌>>=◌, or_fail}
use windforce_lite.State.AtRest.{AtRest}

abbrev pub decrypt_present : AtRest → Str → Raw → Result Raw
decrypt_present rest workspace_id absent = ok absent
decrypt_present rest workspace_id output = rest.decrypt_result workspace_id output

abbrev pub decrypt_optional_result : AtRest → Str → Option JobResult → Result (Option JobResult)
decrypt_optional_result rest workspace_id none = ok none
decrypt_optional_result rest workspace_id (some result) = do
  output ← decrypt_present rest workspace_id result.output
  ok (some (record result { output = output }))

unfoldable pub decrypt_run_result : AtRest → Str → Run → Result Run
decrypt_run_result rest workspace_id run = do
  output ← decrypt_present rest workspace_id run.output
  result ← decrypt_optional_result rest workspace_id run.result
  ok (record run { output = output; result = result })

unfoldable pub get_run : AtRest → Str → Snapshot → Result Run
unfolding decrypt_run_result
get_run rest run_id s = do
  run ← or_fail (get run_id s.runs) not_found
  input ← rest.decrypt_input (source_workspace run.deployment) run.input
  decrypt_run_result rest (source_workspace run.deployment) (record run { input = input })

abbrev job_with_input : Job → Raw → Job
job_with_input job input = record job { payload = record (job.payload) { input = input } }

get_found_job : AtRest → Option Job → Str → Snapshot → Result (Option (Job × Run))
get_found_job rest none workspace_id s = ok none
get_found_job rest (some job) workspace_id s =
    let workspace = normalized_job_workspace [] job in
    if not (str_eq workspace (normalize_workspace workspace_id)) then ok none else (do
      run ← or_fail (get job.run_id s.runs) not_found
      job_input ← rest.decrypt_input workspace job.payload.input
      run_input ← rest.decrypt_input (source_workspace run.deployment) run.input
      run' ← decrypt_run_result rest workspace (record run { input = run_input })
      ok (some (job_with_input job job_input, run')))

-- A job of another workspace reads as none.
unfoldable pub get_job : AtRest → Str → Str → Snapshot → Result (Option (Job × Run))
unfolding get_found_job decrypt_run_result
get_job rest workspace_id job_id s = get_found_job rest (get job_id s.jobs) workspace_id s

unfoldable pub get_human_task : Str → Snapshot → Result HumanTask
get_human_task task_id s = or_fail (get task_id s.human_tasks) not_found
