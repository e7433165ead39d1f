-- ===== src/State/History/Ops.antt =====
-- Every operation but the pruner leaves each job there, and moves it on only.
use windforce_lite.Prelude.{
  ◌≡◌, refl, sym, subst, ◌≤◌, Option, none, some, not, ◌||◌, [], arith, Bool-cases, inl, inr,
}
use windforce_lite.Str.{Str, str_eq}
use windforce_lite.Table.{get}
use windforce_lite.Contract.{normalize_workspace}
use windforce_lite.State.Types.{
  Run, Job, Snapshot, Time, is_settled, is_running, is_terminal, cancel_actor_subject,
  cancel_before_execution_message,
}
use windforce_lite.State.Payload.{normalized_job_workspace}
use windforce_lite.State.Result.{Ensures, Ensures-bind, Ensures-or_fail, Ensures-ok, Ensures-imp}
use windforce_lite.State.AtRest.{AtRest}
use windforce_lite.State.Events.{append_event}
use windforce_lite.State.Ops.Cancel.{
  apply_canceled_job, encrypt_stored_run_result, encrypt_run, encrypt_present,
  encrypt_optional_result, settle_canceled, settled_by_cancel, cancel_found, cancel_looked_up,
  cancel_job, marked_canceled,
}
use windforce_lite.State.Consistent.{Inv, IsLive}
use windforce_lite.State.Consistent.Moves.{job_at_id}
use windforce_lite.State.History.{Follows, Extends, Extends-refl, Extends-trans, Extends-put_found}

abbrev pub After : Snapshot → Snapshot → Type 0
After s t = Extends s.jobs t.jobs

abbrev pub FirstAfter {ℓ} : {A : Type ℓ} → Snapshot → Snapshot × A → Type 0
FirstAfter s (t, a) = After s t

abbrev pub LeadAfter {ℓ κ} : {A : Type ℓ} {B : Type κ} → Snapshot → Snapshot × A × B → Type 0
LeadAfter s (t, a, b) = After s t

-- A live job may go to any state, with no fewer attempts.
pub live_Follows :
    (a b : Job) → IsLive a → a.attempt ≤ b.attempt → b.run_id ≡ a.run_id → Follows a b
live_Follows a b l n r = record { attempts_grow = n; same_run = r; final = λ h. cc }

encrypt_run-After :
    (rest : AtRest) (workspace_id : Str) (o : Option Run) (run_id : Str) (s : Snapshot)
    → Ensures (After s) (encrypt_run rest workspace_id o run_id s)
encrypt_run-After rest workspace_id none run_id s = Extends-refl s.jobs
encrypt_run-After rest workspace_id (some run) run_id s =
    Ensures-bind (After s) (encrypt_present rest workspace_id run.output) _ λ output _.
      Ensures-bind (After s) (encrypt_optional_result rest workspace_id run.result) _
        λ result _. Extends-refl s.jobs

pub settle_canceled-After :
    (rest : AtRest) (s : Snapshot) (job : Job) (run : Run) (by reason message : Str) (now : Time)
    → get job.id s.jobs ≡ some job
    → IsLive job
    → Ensures (After s) (settle_canceled rest job run by reason message now s)
unfolding settle_canceled encrypt_stored_run_result apply_canceled_job append_event
settle_canceled-After rest s job run by reason message now found live =
    Ensures-imp (After t) (After s) _ (λ u x. Extends-trans put_it x)
      (encrypt_run-After rest (normalized_job_workspace [] job) (get run.id t.runs) run.id t)
  where
    t : Snapshot
    t = apply_canceled_job job run by reason message now s

    put_it : After s t
    put_it =
        Extends-put_found job.id (settled_by_cancel job by reason now) job s.jobs found
          (live_Follows job _ live (omega arith) refl)

-- Only the jobs matter.
same_jobs-After : (s t : Snapshot) → t.jobs ≡ s.jobs → After s t
same_jobs-After s t e = subst (Extends s.jobs) (sym e) (Extends-refl s.jobs)

cancel_found-After :
    (rest : AtRest) (s : Snapshot) (job : Job) (run : Run) (by reason : Str) (now : Time)
    → get job.id s.jobs ≡ some job
    → Ensures (FirstAfter s) (cancel_found rest job run by reason s now)
unfolding cancel_found
cancel_found-After rest s job run by reason now found =
    elim (Bool-cases (is_terminal run || is_settled job.state)) [
      | inl e ↦ rw e (Extends-refl s.jobs)
      | inr e ↦ rw e (elim (Bool-cases (is_running job.state)) [
        | inl r ↦ rw r (
            Extends-put_found job.id
              (marked_canceled job (cancel_actor_subject job run by) reason now) job s.jobs found
              (live_Follows job _ (ground arith) (omega arith) refl))
        | inr r ↦ rw r (
            Ensures-bind (FirstAfter s)
              (settle_canceled rest job run (cancel_actor_subject job run by) reason
                cancel_before_execution_message now s)
              _
              λ s' done.
                Ensures-ok (After s) _
                  (settle_canceled-After rest s job run _ reason _ now found (ground arith)) done)
      ])
    ]

pub cancel_job-After :
    (rest : AtRest) (workspace_id job_id by reason : Str) (s : Snapshot) (now : Time)
    → Inv s
    → Ensures (FirstAfter s) (cancel_job rest workspace_id job_id by reason s now)
unfolding cancel_job
cancel_job-After rest workspace_id job_id by reason s now c = looked_up (get job_id s.jobs) refl
  where
    looked_up :
        (o : Option Job)
        → get job_id s.jobs ≡ o
        → Ensures (FirstAfter s) (cancel_looked_up rest workspace_id o by reason s now)
    looked_up none e = Extends-refl s.jobs
    looked_up (some job) e =
        elim (Bool-cases
          (not (str_eq (normalized_job_workspace [] job) (normalize_workspace workspace_id)))) [
            | inl x ↦ rw x (Extends-refl s.jobs)
            | inr x ↦ rw x (
                Ensures-or_fail (FirstAfter s) (get job.run_id s.runs) _ _ λ run fr.
                  cancel_found-After rest s job run by reason now (job_at_id c job_id job e))
          ]
