-- ===== src/State/Consistent/Starts.antt =====
-- The operations that enqueue a job keep the invariant.
use windforce_lite.Prelude.{◌≡◌, refl, true, false, not, some, [], arith, is_nil, if◌then◌else◌}
use windforce_lite.Str.{Str}
use windforce_lite.Table.{get}
use windforce_lite.Json.{Raw, json, object, no_fields, valid, is_absent}
use windforce_lite.Contract.{source_workspace}
use windforce_lite.State.Types.{Run, Job, Snapshot, Time, is_queued, is_waiting_human}
use windforce_lite.State.Payload.{new_action_job, normalized_job_workspace}
use windforce_lite.State.Result.{Ensures, Ensures-bind, Ensures-guard, Ensures-or_fail}
use windforce_lite.State.AtRest.{AtRest}
use windforce_lite.State.Events.{append_event}
use windforce_lite.State.Ops.Retention.{is_active}
use windforce_lite.State.Ops.Enqueue.{
  create_run_and_enqueue, retry_run, stamped_job, with_input, is_none, can_retry, queued_again,
}
use windforce_lite.State.Ops.Read.{get_run}
use windforce_lite.State.Ops.Human.{resume_human_task, resume_run, resumed_run, merge_resume_input}
use windforce_lite.State.Ops.Cancel.{is_pending}
use windforce_lite.State.Consistent.{Inv}
use windforce_lite.State.Consistent.Moves.{enqueue_job, run_at_id}
use windforce_lite.State.Consistent.Ops.{LeadInv}

-- A run and a job as NewRun and NewActionJob make them: both are queued, and the job is the run's.
pub create_run_and_enqueue-Inv :
    (rest : AtRest) (run : Run) (job : Job) (s : Snapshot) (now : Time)
    → is_active run.state ≡ true
    → is_queued job.state ≡ true
    → job.run_id ≡ run.id
    → Inv s
    → Ensures Inv (create_run_and_enqueue rest run job s now)
unfolding create_run_and_enqueue append_event
create_run_and_enqueue-Inv rest run job s now active queued same c =
    Ensures-guard Inv (is_none (get run.id s.runs)) _ _ λ new_run.
      Ensures-guard Inv (is_none (get job.id s.jobs)) _ _ λ new_job.
        Ensures-bind Inv
          (rest.encrypt_input (normalized_job_workspace [] (stamped_job run job now)) run.input) _
          λ run_input _.
            Ensures-bind Inv
              (rest.encrypt_input (normalized_job_workspace [] (stamped_job run job now)) _) _
              λ job_input _.
                enqueue_job c _ (with_input (stamped_job run job now) job_input)
                  (λ r e. ground arith) active queued same

-- The run that is found is the one at its own id.
same_run :
    (s : Snapshot) (rid : Str) (run : Run)
    → Inv s
    → get rid s.runs ≡ some run
    → is_active run.state ≡ false
    → (r : Run) → get run.id s.runs ≡ some r
    → is_active r.state ≡ false
same_run s rid run c found idle r e =
    let at : get run.id s.runs ≡ some run = run_at_id c rid run found in ground arith

pub retry_run-Inv :
    (rest : AtRest) (run_id fresh : Str) (s : Snapshot) (now : Time)
    → Inv s
    → Ensures LeadInv (retry_run rest run_id fresh s now)
unfolding retry_run append_event new_action_job
retry_run-Inv rest run_id fresh s now c =
    Ensures-or_fail LeadInv (get run_id s.runs) _ _ λ run found.
      Ensures-guard LeadInv (can_retry run.state) _ _ λ g.
        Ensures-bind LeadInv (rest.decrypt_input (source_workspace run.deployment) run.input) _
          λ plain _.
            let job = new_action_job fresh now (queued_again run now) plain in
            Ensures-bind LeadInv
              (rest.encrypt_input (normalized_job_workspace [] job) job.payload.input) _
              λ stored _.
                enqueue_job c (queued_again run now) (with_input job stored)
                  (same_run s run_id run c found (ground arith)) refl refl refl

pub resume_human_task-Inv :
    (rest : AtRest) (task_id : Str) (resume_input : Raw) (fresh : Str) (s : Snapshot) (now : Time)
    → Inv s
    → Ensures LeadInv (resume_human_task rest task_id resume_input fresh s now)
unfolding resume_human_task append_event new_action_job
resume_human_task-Inv rest task_id resume_input fresh s now c =
    Ensures-or_fail LeadInv (get task_id s.human_tasks) _ _ λ task _.
      Ensures-guard LeadInv (is_pending task.state) _ _ λ _.
        Ensures-or_fail LeadInv (get task.run_id s.runs) _ _ λ run found.
          Ensures-guard LeadInv (is_waiting_human run.state) _ _ λ g.
            let input : Raw =
              if is_absent resume_input then json (object no_fields) else resume_input in
            Ensures-guard LeadInv (valid input) _ _ λ _.
              Ensures-bind LeadInv (rest.decrypt_input (source_workspace run.deployment) run.input)
                _
                λ plain _.
                  let job =
                    new_action_job fresh now (resumed_run run now)
                      (merge_resume_input plain task.id input) in
                  Ensures-bind LeadInv
                    (rest.encrypt_input (normalized_job_workspace [] job) job.payload.input) _
                    λ stored _.
                      enqueue_job c (resumed_run run now) (with_input job stored)
                        (same_run s task.run_id run c found (ground arith)) refl refl refl

pub resume_run-Inv :
    (rest : AtRest) (run_id : Str) (resume_input : Raw) (fresh : Str) (s : Snapshot) (now : Time)
    → Inv s
    → Ensures LeadInv (resume_run rest run_id resume_input fresh s now)
unfolding resume_run
resume_run-Inv rest run_id resume_input fresh s now c =
    Ensures-bind LeadInv (get_run rest run_id s) _ λ run _.
      Ensures-guard LeadInv (not (is_nil run.task_id)) _ _
        λ _. resume_human_task-Inv rest run.task_id resume_input fresh s now c
