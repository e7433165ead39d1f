-- ===== src/State/History/Others.antt =====
-- The completions, the loops over the jobs of a run, and the operations that add a job.
use windforce_lite.Prelude.{
  ◌≡◌, refl, ℕ, Option, none, some, not, List, [], ◌∷◌, arith, Bool-cases, inl, inr, if◌then◌else◌,
}
use windforce_lite.Str.{Str}
use windforce_lite.Table.{Table, get, put, keys}
use windforce_lite.Json.{Raw, json, object, no_fields, valid, is_absent}
use windforce_lite.Contract.{JobResult, source_workspace}
use windforce_lite.State.Types.{
  Run, Job, JobState, Lease, HumanTask, Snapshot, Time, is_terminal, is_waiting_human,
  cancel_during_execution_message, RequeueAppSpec,
}
use windforce_lite.State.Payload.{new_action_job, normalized_job_workspace}
use windforce_lite.State.Result.{
  Result, ◌>>=◌, Ensures, Ensures-bind, Ensures-guard, Ensures-or_fail, Ensures-ok,
}
use windforce_lite.State.AtRest.{AtRest}
use windforce_lite.State.Events.{append_event}
use windforce_lite.State.Ops.Retention.{
  expire_job, expire_run, expire_if_stuck, expire_loop, expire_stuck_jobs, is_stuck,
}
use windforce_lite.State.Ops.Cancel.{
  encrypt_job_result, canceled_reason_value, stop_job, cancel_run, is_pending,
}
use windforce_lite.State.Ops.Enqueue.{
  create_run_and_enqueue, retry_run, stamped_job, with_input, is_none, can_retry, queued_again,
  requeue_queued_jobs_for_app, retag, requeue_tag,
}
use windforce_lite.State.Ops.Lease.{leased_job_and_run}
use windforce_lite.State.Ops.Complete.{
  unless_canceled, ended, finish_succeeded, finish_failed, finish_waiting, complete_job_succeeded,
  complete_job_failed, complete_job_waiting_human, with_error_message, prepared_task,
}
use windforce_lite.State.Ops.Human.{resume_human_task, resumed_run, merge_resume_input}
use windforce_lite.State.Consistent.{Inv, IsLive}
use windforce_lite.State.Consistent.Moves.{job_at_id}
use windforce_lite.State.Consistent.Completions.{Held, leased_job_and_run-Held, held-IsLive}
use windforce_lite.State.History.{
  Follows, Follows-refl, Extends, Extends-refl, Extends-trans, Extends-put, Extends-put_found,
  Extends-map,
}
use windforce_lite.State.History.Ops.{
  After, FirstAfter, LeadAfter, live_Follows, settle_canceled-After,
}

complete-After :
    (rest : AtRest) (lease : Lease) (s : Snapshot) (now : Time)
    (finish : Job → Run → Result Snapshot)
    → Inv s
    → ((job : Job) (run : Run)
        → get job.id s.jobs ≡ some job
        → IsLive job
        → Ensures (After s) (finish job run))
    → Ensures (After s) (
        leased_job_and_run s lease now >>= λ (r : Job × Run).
        unless_canceled rest r.0.canceled_by r.0 r.1 (finish r.0 r.1) now s)
complete-After rest lease s now finish c keeps =
    Ensures-bind (After s) (leased_job_and_run s lease now) _ λ r e.
      by_cancel r.0 r.1 r.0.canceled_by (
        Ensures-ok (λ (r : Job × Run). Held s lease now r.0 r.1) _
          (leased_job_and_run-Held s lease now) e)
  where
    by_cancel :
        (job : Job) (run : Run) (by : Option Str)
        → Held s lease now job run
        → Ensures (After s) (unless_canceled rest by job run (finish job run) now s)
    by_cancel job run none h =
        keeps job run (job_at_id c lease.job_id job h.job_found) (held-IsLive lease job h.owned)
    by_cancel job run (some by) h =
        settle_canceled-After rest s job run by (canceled_reason_value job)
          cancel_during_execution_message now (job_at_id c lease.job_id job h.job_found)
          (held-IsLive lease job h.owned)

module _ (s : Snapshot) (now : Time) (job : Job) (found : get job.id s.jobs ≡ some job)
    (live : IsLive job) where
  ended-After : (state : JobState) → Extends s.jobs (put job.id (ended job state now) s.jobs)
  ended-After state =
      Extends-put_found job.id (ended job state now) job s.jobs found
        (live_Follows job _ live (omega arith) refl)

module _ (rest : AtRest) (lease : Lease) (s : Snapshot) (now : Time) (c : Inv s) where
  pub complete_job_succeeded-After :
      (result : JobResult) → Ensures (After s) (complete_job_succeeded rest lease result s now)
  unfolding complete_job_succeeded finish_succeeded append_event
  complete_job_succeeded-After result =
      complete-After rest lease s now (λ job run. finish_succeeded rest job run result s now) c
        λ job run found live.
          Ensures-bind (After s) (encrypt_job_result rest (normalized_job_workspace [] job) result)
            _ λ stored _. ended-After s now job found live JobState.succeeded

  pub complete_job_failed-After :
      (result : JobResult) → Ensures (After s) (complete_job_failed rest lease result s now)
  unfolding complete_job_failed finish_failed append_event
  complete_job_failed-After result =
      complete-After rest lease s now
        (λ job run. finish_failed rest job run (with_error_message result) s now) c
        λ job run found live.
          Ensures-bind (After s)
            (encrypt_job_result rest (normalized_job_workspace [] job) (with_error_message result))
            _ λ stored _. ended-After s now job found live JobState.failed

  pub complete_job_waiting_human-After :
      (fresh : Str) (result : JobResult) (task : HumanTask)
      → Ensures (After s) (complete_job_waiting_human rest fresh lease result task s now)
  unfolding complete_job_waiting_human finish_waiting append_event
  complete_job_waiting_human-After fresh result task =
      complete-After rest lease s now
        (λ job run. finish_waiting rest job run result (prepared_task fresh run.id task now) s now)
        c
        λ job run found live.
          Ensures-bind (After s) (encrypt_job_result rest (normalized_job_workspace [] job) result)
            _
            λ stored _.
              Ensures-guard (After s)
                (is_none (get (prepared_task fresh run.id task now).id s.human_tasks)) _ _
                λ _. ended-After s now job found live JobState.succeeded

stop_job-Follows : (rid : Str) (now : Time) (b : Job) → Follows b (stop_job rid now b)
unfolding stop_job
stop_job-Follows rid now b = ground arith

expire_job-Follows :
    (rid reason : Str) (now : Time) (b : Job) → Follows b (expire_job rid reason now b)
unfolding expire_job
expire_job-Follows rid reason now b = ground arith

retag-Follows : (now : Time) (b : Job) (o : Option Str) → Follows b (retag now b o)
retag-Follows now b none = Follows-refl b
retag-Follows now b (some t) = ground arith

pub cancel_run-After :
    (run_id reason : Str) (s : Snapshot) (now : Time)
    → Ensures (FirstAfter s) (cancel_run run_id reason s now)
unfolding cancel_run append_event
cancel_run-After run_id reason s now =
    Ensures-or_fail (FirstAfter s) (get run_id s.runs) _ _ λ run fr.
      Ensures-guard (FirstAfter s) (not (is_terminal run)) _ _
        λ g. Extends-map (stop_job run_id now) s.jobs (stop_job-Follows run_id now)

pub requeue_queued_jobs_for_app-After :
    (spec : RequeueAppSpec) (s : Snapshot) (now : Time)
    → Ensures (FirstAfter s) (requeue_queued_jobs_for_app spec s now)
unfolding requeue_queued_jobs_for_app
requeue_queued_jobs_for_app-After spec s now =
    Extends-map (λ job. retag now job (requeue_tag spec job)) s.jobs
      (λ b. retag-Follows now b (requeue_tag spec b))

expire_if_stuck-After :
    (id reason : Str) (o : Option Run) (stuck_before now : Time) (s : Snapshot) (expired : ℕ)
    → After s (expire_if_stuck id reason o stuck_before now s expired).0
unfolding expire_if_stuck expire_run
expire_if_stuck-After id reason none stuck_before now s expired = Extends-refl s.jobs
expire_if_stuck-After id reason (some run) stuck_before now s expired =
    elim (Bool-cases (is_stuck id run stuck_before s.jobs)) [
      | inl x ↦
          rw x (Extends-map (expire_job id reason now) s.jobs (expire_job-Follows id reason now))
      | inr x ↦ rw x (Extends-refl s.jobs)
    ]

expire_loop-After :
    (ids : List Str) (reason : Str) (stuck_before now : Time) (s : Snapshot) (expired : ℕ)
    → After s (expire_loop ids reason stuck_before now s expired).0
unfolding expire_loop
expire_loop-After [] reason stuck_before now s expired = Extends-refl s.jobs
expire_loop-After (id ∷ ids) reason stuck_before now s expired =
    let r = expire_if_stuck id reason (get id s.runs) stuck_before now s expired in
    Extends-trans (expire_if_stuck-After id reason (get id s.runs) stuck_before now s expired)
      (expire_loop-After ids reason stuck_before now r.0 r.1)

pub expire_stuck_jobs-After :
    (reason : Str) (stuck_before : Time) (s : Snapshot) (now : Time)
    → Ensures (FirstAfter s) (expire_stuck_jobs reason stuck_before s now)
unfolding expire_stuck_jobs
expire_stuck_jobs-After reason stuck_before s now =
    expire_loop-After (keys s.runs) reason stuck_before now s 0

-- A job at an id that no job has.
Extends-put_new :
    (k : Str) (v : Job) (jobs : Table Job) → get k jobs ≡ none → Extends jobs (put k v jobs)
Extends-put_new k v jobs h = Extends-put k v jobs λ a e. ground arith

pub create_run_and_enqueue-After :
    (rest : AtRest) (run : Run) (job : Job) (s : Snapshot) (now : Time)
    → Ensures (After s) (create_run_and_enqueue rest run job s now)
unfolding create_run_and_enqueue append_event
create_run_and_enqueue-After rest run job s now =
    Ensures-guard (After s) (is_none (get run.id s.runs)) _ _ λ new_run.
      Ensures-guard (After s) (is_none (get job.id s.jobs)) _ _ λ new_job.
        Ensures-bind (After s)
          (rest.encrypt_input (normalized_job_workspace [] (stamped_job run job now)) run.input) _
          λ run_input _.
            Ensures-bind (After s)
              (rest.encrypt_input (normalized_job_workspace [] (stamped_job run job now)) _) _
              λ job_input _. Extends-put_new job.id _ s.jobs (ground arith)

pub retry_run-After :
    (rest : AtRest) (run_id fresh : Str) (s : Snapshot) (now : Time)
    → get fresh s.jobs ≡ none
    → Ensures (LeadAfter s) (retry_run rest run_id fresh s now)
unfolding retry_run append_event new_action_job
retry_run-After rest run_id fresh s now new =
    Ensures-or_fail (LeadAfter s) (get run_id s.runs) _ _ λ run found.
      Ensures-guard (LeadAfter s) (can_retry run.state) _ _ λ g.
        Ensures-bind (LeadAfter s) (rest.decrypt_input (source_workspace run.deployment) run.input)
          _
          λ plain _.
            let job = new_action_job fresh now (queued_again run now) plain in
            Ensures-bind (LeadAfter s)
              (rest.encrypt_input (normalized_job_workspace [] job) job.payload.input) _
              λ stored _. Extends-put_new fresh (with_input job stored) s.jobs new

pub resume_human_task-After :
    (rest : AtRest) (task_id : Str) (resume_input : Raw) (fresh : Str) (s : Snapshot) (now : Time)
    → get fresh s.jobs ≡ none
    → Ensures (LeadAfter s) (resume_human_task rest task_id resume_input fresh s now)
unfolding resume_human_task append_event new_action_job
resume_human_task-After rest task_id resume_input fresh s now new =
    Ensures-or_fail (LeadAfter s) (get task_id s.human_tasks) _ _ λ task _.
      Ensures-guard (LeadAfter s) (is_pending task.state) _ _ λ _.
        Ensures-or_fail (LeadAfter s) (get task.run_id s.runs) _ _ λ run found.
          Ensures-guard (LeadAfter s) (is_waiting_human run.state) _ _ λ g.
            let input : Raw =
              if is_absent resume_input then json (object no_fields) else resume_input in
            Ensures-guard (LeadAfter s) (valid input) _ _ λ _.
              Ensures-bind (LeadAfter s)
                (rest.decrypt_input (source_workspace run.deployment) run.input) _
                λ plain _.
                  let job =
                    new_action_job fresh now (resumed_run run now)
                      (merge_resume_input plain task.id input) in
                  Ensures-bind (LeadAfter s)
                    (rest.encrypt_input (normalized_job_workspace [] job) job.payload.input) _
                    λ stored _. Extends-put_new fresh (with_input job stored) s.jobs new
