-- ===== src/State/Outcomes/Canceled.antt =====
-- CancelJob on each branch, and the completions of a job that was canceled while it ran.
use windforce_lite.Prelude.{
  subst₂, ◌≢◌, ◌⊎◌, ◌≡◌, refl, sym, ap, ◌∙◌, subst, true, false, not, ◌||◌, Option, none, some, [],
  arith, Bool-cases, inl, inr,
}
use windforce_lite.Str.{Str, str_eq}
use windforce_lite.Table.{get, put}
use windforce_lite.Table.Laws.{get-put_self}
use windforce_lite.Contract.{JobResult, normalize_workspace}
use windforce_lite.State.Types.{
  Run, RunState, Job, JobState, HumanTask, Lease, Snapshot, Time, CancelResult, is_terminal,
  is_settled, is_running, cancel_actor_subject, cancel_before_execution_message,
  cancel_during_execution_message,
}
use windforce_lite.State.Payload.{normalized_job_workspace}
use windforce_lite.State.Result.{
  Result, ok, err, ◌>>=◌, Ensures, Ensures-bind, Ensures-ok, Ensures-or_fail,
}
use windforce_lite.State.AtRest.{AtRest}
use windforce_lite.State.Events.{append_event}
use windforce_lite.State.Ops.Cancel.{
  settle_canceled, settled_by_cancel, canceled_reason_value, apply_canceled_job,
  encrypt_stored_run_result, encrypt_run, encrypt_present, encrypt_optional_result, cancel_job,
  cancel_looked_up, cancel_found, marked_canceled, run_settled_by_cancel, cancel_message,
}
use windforce_lite.State.Ops.Lease.{leased_job_and_run}
use windforce_lite.State.Ops.Complete.{
  complete_job_succeeded, complete_job_failed, complete_job_waiting_human, unless_canceled,
  finish_succeeded, finish_failed, finish_waiting, with_error_message, prepared_task,
}
use windforce_lite.State.Claims.Expired.{settle_canceled-Jobs}
use windforce_lite.State.Consistent.{Inv}
use windforce_lite.State.Consistent.Ops.{active_not_terminal}
use windforce_lite.State.Ops.Retention.{is_active}
use windforce_lite.State.Consistent.Completions.{Held, leased_job_and_run-Held}
use mathlib.Core.Option.{some-injective}

-- The run is there, and canceled.
abbrev pub IsCanceledRun : Str → Snapshot → Type 0
IsCanceledRun run_id t =
    (run : Run) × (get run_id t.runs ≡ some run) × (run.state ≡ RunState.canceled)

encrypt_run-IsCanceledRun :
    (rest : AtRest) (workspace_id : Str) (run : Run) (run_id : Str) (s : Snapshot)
    → run.state ≡ RunState.canceled
    → Ensures (IsCanceledRun run_id) (encrypt_run rest workspace_id (some run) run_id s)
encrypt_run-IsCanceledRun rest workspace_id run run_id s c =
    Ensures-bind (IsCanceledRun run_id) (encrypt_present rest workspace_id run.output) _ λ output _.
      Ensures-bind (IsCanceledRun run_id) (encrypt_optional_result rest workspace_id run.result) _
        λ result _. (
          record run { output = output; result = result },
          get-put_self run_id (record run { output = output; result = result }) s.runs,
          c,
        )

pub settle_canceled-IsCanceledRun :
    (rest : AtRest) (job : Job) (run : Run) (by reason message : Str) (now : Time) (s : Snapshot)
    → Ensures (IsCanceledRun run.id) (settle_canceled rest job run by reason message now s)
unfolding settle_canceled encrypt_stored_run_result apply_canceled_job append_event
settle_canceled-IsCanceledRun rest job run by reason message now s =
    rw
      (get-put_self run.id (run_settled_by_cancel job run by reason (cancel_message message) now)
        s.runs)
      (encrypt_run-IsCanceledRun rest (normalized_job_workspace [] job)
        (run_settled_by_cancel job run by reason (cancel_message message) now) run.id
        (apply_canceled_job job run by reason message now s) refl)

-- The job of the id is settled as canceled by `by`, and so is its run.
abbrev pub IsCanceledJob : Str → Str → Str → Snapshot → Type 0
IsCanceledJob job_id run_id by t =
    (job : Job) × (get job_id t.jobs ≡ some job)
    × (job.state ≡ JobState.failed)
    × (job.canceled_by ≡ some by)
    × IsCanceledRun run_id t

pub settle_canceled-IsCanceledJob :
    (rest : AtRest) (job : Job) (run : Run) (by reason message : Str) (now : Time) (s : Snapshot)
    → Ensures
        (IsCanceledJob job.id run.id by)
        (settle_canceled rest job run by reason message now s)
settle_canceled-IsCanceledJob rest job run by reason message now s =
    both (settle_canceled rest job run by reason message now s)
      (settle_canceled-Jobs rest job run by reason message now s)
      (settle_canceled-IsCanceledRun rest job run by reason message now s)
  where
    both :
        (r : Result Snapshot)
        → Ensures (λ t. t.jobs ≡ put job.id (settled_by_cancel job by reason now) s.jobs) r
        → Ensures (IsCanceledRun run.id) r
        → Ensures (IsCanceledJob job.id run.id by) r
    both (ok t) p q =
        (settled_by_cancel job by reason now, rw p (get-put_self job.id _ s.jobs), refl, refl, q)
    both (err e) p q = tt

-- A job of a consistent snapshot that carries a cancellation never succeeds and never waits for
-- a human: whatever its worker reports, a completion that is accepted settles it as canceled by
-- the actor who canceled it, and cancels its run.
pub completion_of_canceled :
    (rest : AtRest) (lease : Lease) (s : Snapshot) (now : Time) (job : Job) (by : Str)
    → Inv s
    → get lease.job_id s.jobs ≡ some job
    → job.canceled_by ≡ some by
    → ((result : JobResult)
        → Ensures
            (IsCanceledJob lease.job_id job.run_id by)
            (complete_job_succeeded rest lease result s now))
      × ((result : JobResult)
          → Ensures
              (IsCanceledJob lease.job_id job.run_id by)
              (complete_job_failed rest lease result s now))
      × ((fresh : Str) (result : JobResult) (task : HumanTask)
          → Ensures
              (IsCanceledJob lease.job_id job.run_id by)
              (complete_job_waiting_human rest fresh lease result task s now))
unfolding complete_job_succeeded complete_job_failed complete_job_waiting_human
completion_of_canceled rest lease s now job by c e by_e = (
  λ result. opened (λ j r. finish_succeeded rest j r result s now),
  λ result. opened (λ j r. finish_failed rest j r (with_error_message result) s now),
  λ fresh result task.
      opened (λ j r. finish_waiting rest j r result (prepared_task fresh r.id task now) s now),
)
  where
    settles :
        (j : Job) (r : Run) (finish : Job → Run → Result Snapshot)
        → Held s lease now j r
        → j ≡ job
        → Ensures
            (IsCanceledJob lease.job_id job.run_id by)
            (unless_canceled rest j.canceled_by j r (finish j r) now s)
    settles j r finish h p =
        subst
          (λ o.
            Ensures (IsCanceledJob lease.job_id job.run_id by)
              (unless_canceled rest o j r (finish j r) now s))
          (sym (ap (λ (j : Job). j.canceled_by) p ∙ by_e))
          (subst₂
            (λ i k. Ensures (IsCanceledJob i k by) (
              settle_canceled rest j r by (canceled_reason_value j) cancel_during_execution_message
                now s))
            (c.job_key lease.job_id j h.job_found)
            (c.run_key j.run_id r h.run_found ∙ ap (λ (j : Job). j.run_id) p)
            (settle_canceled-IsCanceledJob rest j r by (canceled_reason_value j)
              cancel_during_execution_message now s))

    opened :
        (finish : Job → Run → Result Snapshot)
        → Ensures (IsCanceledJob lease.job_id job.run_id by) (
            leased_job_and_run s lease now >>= λ (o : Job × Run).
            unless_canceled rest o.0.canceled_by o.0 o.1 (finish o.0 o.1) now s)
    opened finish =
        Ensures-bind (IsCanceledJob lease.job_id job.run_id by) (leased_job_and_run s lease now) _
          λ r o.
            let h =
              Ensures-ok (λ (r : Job × Run). Held s lease now r.0 r.1) _
                (leased_job_and_run-Held s lease now) o in
            settles r.0 r.1 finish h (some-injective r.0 job (sym h.job_found ∙ e))

-- The job of the id has settled, or it runs and is marked as canceled.
abbrev pub IsStopped : Str → Snapshot → Type 0
IsStopped job_id t =
    (job : Job) × (get job_id t.jobs ≡ some job)
    × ((is_settled job.state ≡ true) ⊎ ((is_running job.state ≡ true) × (job.canceled_by ≢ none)))

-- A successful cancellation tells that there is no such job, or the job is stopped.
abbrev CancelStops : Str → Snapshot × CancelResult → Type 0
CancelStops job_id (t, r) = (r.found ≡ false) ⊎ IsStopped job_id t

terminal_settled :
    (s : Snapshot) (job_id : Str) (job : Job) (run : Run)
    → Inv s
    → get job_id s.jobs ≡ some job
    → get job.run_id s.runs ≡ some run
    → (is_terminal run || is_settled job.state) ≡ true
    → is_settled job.state ≡ true
terminal_settled s job_id job run c e f h = elim (Bool-cases (is_settled job.state)) [
  | inl x ↦ x
  | inr x ↦
      let (r, there, active) = c.live_active job_id job e x in
      let same = some-injective r run (sym there ∙ f) in
      absurd (
        ground (
          arith,
          active_not_terminal run.state,
          subst (λ (r : Run). is_active r.state ≡ true) same active,
        ))
]

cancel_found-CancelStops :
    (rest : AtRest) (job_id : Str) (job : Job) (run : Run) (by reason : Str) (s : Snapshot)
    (now : Time)
    → Inv s
    → get job_id s.jobs ≡ some job
    → get job.run_id s.runs ≡ some run
    → Ensures (CancelStops job_id) (cancel_found rest job run by reason s now)
unfolding cancel_found
cancel_found-CancelStops rest job_id job run by reason s now c e f =
    elim (Bool-cases (is_terminal run || is_settled job.state)) [
      | inl x ↦ rw x (inr (job, e, inl (terminal_settled s job_id job run c e f x)))
      | inr x ↦ rw x (elim (Bool-cases (is_running job.state)) [
        | inl r ↦ rw r (
            inr (
              marked_canceled job (cancel_actor_subject job run by) reason now,
              rw (c.job_key job_id job e) (get-put_self job_id _ s.jobs),
              inr (r, λ p. cc),
            ))
        | inr r ↦ rw r (
            Ensures-bind (CancelStops job_id) _ _ λ t done.
              let (b, there, failed, _, _) =
                Ensures-ok (IsCanceledJob job.id run.id (cancel_actor_subject job run by)) _
                  (settle_canceled-IsCanceledJob rest job run (cancel_actor_subject job run by)
                    reason cancel_before_execution_message now s)
                  done in
              inr (b, rw⁻¹ (c.job_key job_id job e) there, inl (rw failed refl)))
      ])
    ]

-- When CancelJob succeeds on a consistent snapshot and has found the job, the job is out of the
-- queue: it has settled, or it still runs and is marked as canceled.
pub cancel_job_stops :
    (rest : AtRest) (workspace_id job_id by reason : Str) (s : Snapshot) (now : Time) (t : Snapshot)
    (r : CancelResult)
    → Inv s
    → cancel_job rest workspace_id job_id by reason s now ≡ ok (t, r)
    → r.found ≡ true
    → IsStopped job_id t
unfolding cancel_job
cancel_job_stops rest workspace_id job_id by reason s now t r c e f =
    elim (Ensures-ok (CancelStops job_id) (cancel_job rest workspace_id job_id by reason s now)
      (looked_up (get job_id s.jobs) refl) e) [
        | inl missing ↦ absurd (ground arith)
        | inr stopped ↦ stopped
      ]
  where
    looked_up :
        (o : Option Job)
        → get job_id s.jobs ≡ o
        → Ensures (CancelStops job_id) (cancel_looked_up rest workspace_id o by reason s now)
    looked_up none e = inl refl
    looked_up (some job) e =
        elim (Bool-cases
          (not (str_eq (normalized_job_workspace [] job) (normalize_workspace workspace_id)))) [
            | inl x ↦ rw x (inl refl)
            | inr x ↦ rw x (
                Ensures-or_fail (CancelStops job_id) (get job.run_id s.runs) _ _
                  λ run fr. cancel_found-CancelStops rest job_id job run by reason s now c e fr)
          ]
