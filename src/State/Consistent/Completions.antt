-- ===== src/State/Consistent/Completions.antt =====
-- The operations that complete a job keep the invariant.
use windforce_lite.Prelude.{◌≡◌, refl, true, false, not, Option, none, some, [], arith}
use windforce_lite.Str.{Str}
use windforce_lite.Table.{get}
use windforce_lite.Contract.{JobResult}
use windforce_lite.State.Types.{
  Run, Job, JobState, Lease, HumanTask, Snapshot, Time, cancel_during_execution_message,
}
use windforce_lite.State.Payload.{normalized_job_workspace}
use windforce_lite.State.Result.{
  Result, ◌>>=◌, Ensures, Ensures-bind, Ensures-guard, Ensures-or_fail, Ensures-ok,
}
use windforce_lite.State.AtRest.{AtRest}
use windforce_lite.State.Events.{append_event}
use windforce_lite.State.Ops.Enqueue.{is_none}
use windforce_lite.State.Ops.Cancel.{canceled_reason_value, encrypt_job_result}
use windforce_lite.State.Ops.Lease.{leased_job_and_run, owns, lease_before}
use windforce_lite.State.Ops.Complete.{
  unless_canceled, ended, run_succeeded, run_failed, run_waiting, finish_succeeded, finish_failed,
  finish_waiting, complete_job_succeeded, complete_job_failed, complete_job_waiting_human,
  with_error_message, prepared_task,
}
use windforce_lite.State.Consistent.{Inv, IsLive}
use windforce_lite.State.Consistent.Moves.{settle_job}
use windforce_lite.State.Consistent.Ops.{settle_canceled-Inv}

-- What a lease gives access to: the running job that it names, and the job's run.
pub record Held (s : Snapshot) (lease : Lease) (now : Time) (job : Job) (run : Run) : Type 0 where
  pub job_found : get lease.job_id s.jobs ≡ some job
  pub run_found : get job.run_id s.runs ≡ some run
  pub owned : owns lease job ≡ true
  pub in_time : lease_before job.lease_expires_at now ≡ false

pub leased_job_and_run-Held :
    (s : Snapshot) (lease : Lease) (now : Time)
    → Ensures (λ (r : Job × Run). Held s lease now r.0 r.1) (leased_job_and_run s lease now)
unfolding leased_job_and_run
leased_job_and_run-Held s lease now =
    Ensures-or_fail (λ (r : Job × Run). Held s lease now r.0 r.1) (get lease.job_id s.jobs) _ _
      λ job fj.
        Ensures-guard (λ (r : Job × Run). Held s lease now r.0 r.1) (owns lease job) _ _
          λ o.
            Ensures-guard (λ (r : Job × Run). Held s lease now r.0 r.1)
              (not (lease_before job.lease_expires_at now)) _ _
              λ t.
                Ensures-or_fail (λ (r : Job × Run). Held s lease now r.0 r.1)
                  (get job.run_id s.runs) _ _
                  λ run fr. record {
                    job_found = fj;
                    run_found = fr;
                    owned = o;
                    in_time = ground arith;
                  }

pub held-IsLive : (lease : Lease) (job : Job) → owns lease job ≡ true → IsLive job
held-IsLive lease job h = ground arith

-- To complete a job by `finish` keeps the invariant if `finish` does.
complete-Inv :
    (rest : AtRest) (lease : Lease) (s : Snapshot) (now : Time)
    (finish : Job → Run → Result Snapshot)
    → Inv s
    → ((job : Job) (run : Run) → Held s lease now job run → Ensures Inv (finish job run))
    → Ensures Inv (
        leased_job_and_run s lease now >>= λ (r : Job × Run).
        unless_canceled rest r.0.canceled_by r.0 r.1 (finish r.0 r.1) now s)
complete-Inv rest lease s now finish c keeps =
    Ensures-bind Inv (leased_job_and_run s lease now) _ λ r e. by_cancel r.0 r.1 r.0.canceled_by (
      Ensures-ok (λ (r : Job × Run). Held s lease now r.0 r.1) _
        (leased_job_and_run-Held s lease now) e)
  where
    by_cancel :
        (job : Job) (run : Run) (by : Option Str)
        → Held s lease now job run
        → Ensures Inv (unless_canceled rest by job run (finish job run) now s)
    by_cancel job run none h = keeps job run h
    by_cancel job run (some by) h =
        settle_canceled-Inv rest s lease.job_id job run by (canceled_reason_value job)
          cancel_during_execution_message now c h.job_found h.run_found
          (held-IsLive lease job h.owned)

-- The job settles and its run moves on.
module _ (rest : AtRest) (lease : Lease) (s : Snapshot) (now : Time) (c : Inv s) where
  finish_succeeded-Inv :
      (result : JobResult) (job : Job) (run : Run)
      → Held s lease now job run
      → Ensures Inv (finish_succeeded rest job run result s now)
  unfolding finish_succeeded append_event
  finish_succeeded-Inv result job run h =
      Ensures-bind Inv (encrypt_job_result rest (normalized_job_workspace [] job) result) _
        λ stored _.
          settle_job c lease.job_id job (ended job JobState.succeeded now) run
            (run_succeeded run stored now) h.job_found h.run_found (held-IsLive lease job h.owned)
            refl refl refl refl

  finish_failed-Inv :
      (result : JobResult) (job : Job) (run : Run)
      → Held s lease now job run
      → Ensures Inv (finish_failed rest job run result s now)
  unfolding finish_failed append_event
  finish_failed-Inv result job run h =
      Ensures-bind Inv (encrypt_job_result rest (normalized_job_workspace [] job) result) _
        λ stored _.
          settle_job c lease.job_id job (ended job JobState.failed now) run
            (run_failed run stored result now) h.job_found h.run_found
            (held-IsLive lease job h.owned) refl refl refl refl

  finish_waiting-Inv :
      (result : JobResult) (task : HumanTask) (job : Job) (run : Run)
      → Held s lease now job run
      → Ensures Inv (finish_waiting rest job run result task s now)
  unfolding finish_waiting append_event
  finish_waiting-Inv result task job run h =
      Ensures-bind Inv (encrypt_job_result rest (normalized_job_workspace [] job) result) _
        λ stored _. Ensures-guard Inv (is_none (get task.id s.human_tasks)) _ _ λ _.
          settle_job c lease.job_id job (ended job JobState.succeeded now) run
            (run_waiting run stored task.id now) h.job_found h.run_found
            (held-IsLive lease job h.owned) refl refl refl refl

  pub complete_job_succeeded-Inv :
      (result : JobResult) → Ensures Inv (complete_job_succeeded rest lease result s now)
  unfolding complete_job_succeeded
  complete_job_succeeded-Inv result =
      complete-Inv rest lease s now (λ job run. finish_succeeded rest job run result s now) c
        (finish_succeeded-Inv result)

  pub complete_job_failed-Inv :
      (result : JobResult) → Ensures Inv (complete_job_failed rest lease result s now)
  unfolding complete_job_failed
  complete_job_failed-Inv result =
      complete-Inv rest lease s now
        (λ job run. finish_failed rest job run (with_error_message result) s now) c
        (finish_failed-Inv (with_error_message result))

  pub complete_job_waiting_human-Inv :
      (fresh : Str) (result : JobResult) (task : HumanTask)
      → Ensures Inv (complete_job_waiting_human rest fresh lease result task s now)
  unfolding complete_job_waiting_human
  complete_job_waiting_human-Inv fresh result task =
      complete-Inv rest lease s now
        (λ job run. finish_waiting rest job run result (prepared_task fresh run.id task now) s now)
        c (λ job run. finish_waiting-Inv result (prepared_task fresh run.id task now) job run)
