-- ===== src/State/Outcomes/Resumed.antt =====
-- ResumeHumanTask and RetryRun: what the runs that start anew look like.
use windforce_lite.Prelude.{
  ◌≡◌, ◌≢◌, ◌⊎◌, inl, inr, refl, sym, ap, ◌∙◌, subst, true, none, some, [], if◌then◌else◌,
}
use mathlib.Core.Option.{some-injective}
use windforce_lite.Str.{Str}
use windforce_lite.Table.{Table, get, put}
use windforce_lite.Table.Laws.{get-put_self, get-put_ne}
use windforce_lite.Json.{Raw, json, absent, object, no_fields, is_absent, valid}
use windforce_lite.Contract.{source_workspace}
use windforce_lite.State.Types.{
  Run, RunState, Job, HumanTask, HumanTaskState, Snapshot, Time, invalid_state, is_queued,
  is_waiting_human,
}
use windforce_lite.State.Payload.{new_action_job, normalized_job_workspace}
use windforce_lite.State.Result.{
  ok, err, or_fail, guard, Ensures, Ensures-bind, Ensures-ok, Ensures-or_fail, Ensures-guard,
}
use windforce_lite.State.AtRest.{AtRest}
use windforce_lite.State.Events.{append_event}
use windforce_lite.State.Ops.Cancel.{is_pending}
use windforce_lite.State.Ops.Enqueue.{retry_run, can_retry, with_input, queued_again}
use windforce_lite.State.Ops.Human.{
  resume_human_task, resumed_task, resumed_run, merge_resume_input,
}

-- The run is there and has a queued job of the id.
abbrev pub HasJob : Str → Run → Table Run → Table Job → Type 0
HasJob job_id run runs jobs =
    (get run.id runs ≡ some run)
    × ((job : Job) × (get job_id jobs ≡ some job)
        × (job.id ≡ job_id)
        × (job.run_id ≡ run.id)
        × (is_queued job.state ≡ true))

put-HasJob :
    (run : Run) (job : Job) (runs : Table Run) (jobs : Table Job)
    → job.run_id ≡ run.id
    → is_queued job.state ≡ true
    → HasJob job.id run (put run.id run runs) (put job.id job jobs)
put-HasJob run job runs jobs p q =
    (get-put_self run.id run runs, (job, get-put_self job.id job jobs, refl, p, q))

abbrev pub IsCompleted : Str → Table HumanTask → Type 0
IsCompleted task_id tasks =
    (task : HumanTask) × (get task_id tasks ≡ some task) × (task.state ≡ HumanTaskState.completed)

abbrev pub IsResumed : Str → Str → Snapshot × Run × Job → Type 0
IsResumed task_id job_id (t, run, job) =
    (run.state ≡ RunState.resuming)
    × HasJob job_id run t.runs t.jobs
    × IsCompleted task_id t.human_tasks

put-IsCompleted :
    (task task' : HumanTask) (task_id : Str) (input : Raw) (now : Time) (tasks : Table HumanTask)
    → get task_id tasks ≡ some task
    → get task_id tasks ≡ some task'
    → task.id ≡ task_id
    → IsCompleted task_id (put task'.id (resumed_task task' input now) tasks)
put-IsCompleted task task' task_id input now tasks e e' k =
    subst (λ i. IsCompleted task_id (put i (resumed_task task' input now) tasks))
      (sym k ∙ ap (λ (t : HumanTask). t.id) (some-injective task task' (sym e ∙ e')))
      (
        resumed_task task' input now,
        get-put_self task_id (resumed_task task' input now) tasks,
        refl,
      )

resume_human_task-IsResumed :
    (rest : AtRest) (task_id : Str) (input : Raw) (fresh : Str) (s : Snapshot) (now : Time)
    (task : HumanTask)
    → get task_id s.human_tasks ≡ some task
    → task.id ≡ task_id
    → Ensures (IsResumed task_id fresh) (resume_human_task rest task_id input fresh s now)
unfolding resume_human_task append_event new_action_job
resume_human_task-IsResumed rest task_id input fresh s now task e k =
    Ensures-or_fail (IsResumed task_id fresh) (get task_id s.human_tasks) _ _ λ task' e'.
      Ensures-guard (IsResumed task_id fresh) (is_pending task'.state) _ _ λ _.
        Ensures-or_fail (IsResumed task_id fresh) (get task'.run_id s.runs) _ _ λ run _.
          Ensures-guard (IsResumed task_id fresh) (is_waiting_human run.state) _ _ λ _.
            let input' = if is_absent input then json (object no_fields) else input in
            Ensures-guard (IsResumed task_id fresh) (valid input') _ _ λ _.
              Ensures-bind (IsResumed task_id fresh)
                (rest.decrypt_input (source_workspace run.deployment) run.input) _
                λ plain _.
                  let job =
                    new_action_job fresh now (resumed_run run now)
                      (merge_resume_input plain task'.id input') in
                  Ensures-bind (IsResumed task_id fresh)
                    (rest.encrypt_input (normalized_job_workspace [] job) job.payload.input) _
                    λ stored _.
                      both run (put run.id (resumed_run run now) s.runs)
                        (put fresh (with_input job stored) s.jobs)
                        (put task'.id (resumed_task task' input' now) s.human_tasks)
                        (put-HasJob (resumed_run run now) (with_input job stored) s.runs s.jobs refl
                          refl)
                        (put-IsCompleted task task' task_id input' now s.human_tasks e e' k)
  where
    both :
        (run : Run) (runs : Table Run) (jobs : Table Job) (tasks : Table HumanTask)
        → HasJob fresh (resumed_run run now) runs jobs
        → IsCompleted task_id tasks
        → (RunState.resuming ≡ RunState.resuming)
          × HasJob fresh (resumed_run run now) runs jobs
          × IsCompleted task_id tasks
    both run runs jobs tasks h c = (refl, h, c)

-- A human task is answered at most once. When ResumeHumanTask succeeds on a task that stands
-- under its own id, the run is resuming, it has a queued job under the id drawn, and the task is
-- completed; every attempt to resume the task again in the snapshot that was written is refused.
pub resume_human_task_lem :
    (rest : AtRest) (task_id : Str) (input : Raw) (fresh : Str) (s : Snapshot) (now : Time)
    (task : HumanTask) (t : Snapshot) (run : Run) (job : Job)
    → get task_id s.human_tasks ≡ some task
    → task.id ≡ task_id
    → resume_human_task rest task_id input fresh s now ≡ ok (t, run, job)
    → IsResumed task_id fresh (t, run, job)
      × ((rest' : AtRest) (input' : Raw) (fresh' : Str) (later : Time)
          → resume_human_task rest' task_id input' fresh' t later ≡ err invalid_state)
resume_human_task_lem rest task_id input fresh s now task t run job e k r =
    let h =
      Ensures-ok (IsResumed task_id fresh) _
        (resume_human_task-IsResumed rest task_id input fresh s now task e k) r in
    (h, λ rest' input' fresh' later. refused rest' input' fresh' later h.2)
  where
    refused :
        (rest' : AtRest) (input' : Raw) (fresh' : Str) (later : Time)
        → (done : HumanTask) × (get task_id t.human_tasks ≡ some done)
          × (done.state ≡ HumanTaskState.completed)
        → resume_human_task rest' task_id input' fresh' t later ≡ err invalid_state
    refused rest' input' fresh' later (done, there, completed) =
        unfold resume_human_task in rw (there, or_fail, completed, guard) refl

-- The run has ended without success.
abbrev pub EndedBadly : Run → Type 0
EndedBadly run =
    (run.state ≡ RunState.failed) ⊎ (run.state ≡ RunState.canceled) ⊎ (run.state ≡ RunState.expired)

can_retry_inv : (run : Run) → can_retry run.state ≡ true → EndedBadly run
can_retry_inv run h = by_state run.state refl h
  where
    by_state : (state : RunState) → run.state ≡ state → can_retry state ≡ true → EndedBadly run
    by_state RunState.failed e h = inl e
    by_state RunState.canceled e h = inr (inl e)
    by_state RunState.expired e h = inr (inr e)
    by_state RunState.queued e h = cc
    by_state RunState.running e h = cc
    by_state RunState.waiting_human e h = cc
    by_state RunState.resuming e h = cc
    by_state RunState.succeeded e h = cc

-- What a retry of the run `old` gives and writes.
abbrev pub IsRetried : Run → Snapshot → Str → Time → Snapshot × Run × Job → Type 0
IsRetried old s job_id now (t, run, job) =
    EndedBadly old
    × (run ≡ record old {
      state = RunState.queued;
      output = absent;
      result = none;
      error = absent;
      task_id = [];
      updated_at = now;
    })
    × HasJob job_id run t.runs t.jobs
    × (job.id ≡ job_id)
    × ((id : Str) → old.id ≢ id → get id t.runs ≡ get id s.runs)
    × ((id : Str) → job_id ≢ id → get id t.jobs ≡ get id s.jobs)

retry_run-IsRetried :
    (rest : AtRest) (old : Run) (fresh : Str) (s : Snapshot) (now : Time)
    → get old.id s.runs ≡ some old
    → Ensures (IsRetried old s fresh now) (retry_run rest old.id fresh s now)
unfolding retry_run append_event new_action_job
retry_run-IsRetried rest old fresh s now there = rw there (
    Ensures-guard (IsRetried old s fresh now) (can_retry old.state) _ _ λ g.
      Ensures-bind (IsRetried old s fresh now)
        (rest.decrypt_input (source_workspace old.deployment) old.input) _
        λ plain _.
          let job = new_action_job fresh now (queued_again old now) plain in
          Ensures-bind (IsRetried old s fresh now)
            (rest.encrypt_input (normalized_job_workspace [] job) job.payload.input) _
            λ stored _. (
              can_retry_inv old g,
              refl,
              put-HasJob (queued_again old now) (with_input job stored) s.runs s.jobs refl refl,
              refl,
              λ id q. get-put_ne id old.id (queued_again old now) s.runs q,
              λ id q. get-put_ne id fresh (with_input job stored) s.jobs q,
            ))

-- RetryRun starts a run again only if the run has failed, was canceled or has expired. When it
-- succeeds on a run that stands under its own id, that run is queued again without output, result,
-- error and task, and has a queued job under the id drawn; all other runs and jobs are as before, and
-- every attempt to retry the run again in the snapshot that was written is refused.
pub retry_run_lem :
    (rest : AtRest) (fresh : Str) (s : Snapshot) (now : Time) (old : Run) (t : Snapshot) (run : Run)
    (job : Job)
    → get old.id s.runs ≡ some old
    → retry_run rest old.id fresh s now ≡ ok (t, run, job)
    → IsRetried old s fresh now (t, run, job)
      × ((rest' : AtRest) (fresh' : Str) (later : Time)
          → retry_run rest' old.id fresh' t later ≡ err invalid_state)
retry_run_lem rest fresh s now old t run job there r =
    let h =
      Ensures-ok (IsRetried old s fresh now) _ (retry_run-IsRetried rest old fresh s now there) r in
    (h, λ rest' fresh' later. refused rest' fresh' later h.1 h.2.0)
  where
    refused :
        (rest' : AtRest) (fresh' : Str) (later : Time)
        → run ≡ queued_again old now
        → get run.id t.runs ≡ some run
        → retry_run rest' old.id fresh' t later ≡ err invalid_state
    refused rest' fresh' later e stored =
        let found : get old.id t.runs ≡ some (queued_again old now) =
          subst (λ (r : Run). get r.id t.runs ≡ some r) e stored in
        unfold retry_run in rw (found, or_fail, guard) refl
