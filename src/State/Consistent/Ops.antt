-- ===== src/State/Consistent/Ops.antt =====
-- Every operation keeps the invariant: the settling operations.
use windforce_lite.Prelude.{
  ◌≡◌, refl, inl, inr, true, false, Option, none, some, not, ◌||◌, [], arith, Bool-cases,
}
use windforce_lite.Str.{Str, str_eq}
use windforce_lite.Table.{get}
use windforce_lite.Contract.{normalize_workspace}
use windforce_lite.State.Payload.{normalized_job_workspace}
use windforce_lite.State.Types.{
  Run, Job, Snapshot, Time, is_settled, is_running, is_terminal, cancel_actor_subject,
  cancel_before_execution_message, RunState, terminal_run_state,
}
use windforce_lite.State.Result.{Ensures, Ensures-bind, Ensures-or_fail, Ensures-ok}
use windforce_lite.State.AtRest.{AtRest}
use windforce_lite.State.Events.{append_event}
use windforce_lite.State.Ops.Retention.{is_active}
use windforce_lite.State.Ops.Cancel.{
  apply_canceled_job, encrypt_stored_run_result, encrypt_run, encrypt_present,
  encrypt_optional_result, settle_canceled, cancel_found, cancel_looked_up, cancel_job,
  settled_by_cancel, run_settled_by_cancel, cancel_message, marked_canceled,
}
use windforce_lite.State.Consistent.{Inv, IsLive}
use windforce_lite.State.Consistent.Writes.{keep_run, keep_job}
use windforce_lite.State.Consistent.Moves.{settle_job, job_at_id}

apply_canceled_job-Inv :
    (s : Snapshot) (jid : Str) (job : Job) (run : Run) (by reason message : Str) (now : Time)
    → Inv s
    → get jid s.jobs ≡ some job
    → get job.run_id s.runs ≡ some run
    → IsLive job
    → Inv (apply_canceled_job job run by reason message now s)
unfolding apply_canceled_job append_event
apply_canceled_job-Inv s jid job run by reason message now c fj fr live =
    settle_job c jid job (settled_by_cancel job by reason now) run
      (run_settled_by_cancel job run by reason (cancel_message message) now) fj fr live refl refl
      refl refl

encrypt_run-Inv :
    (rest : AtRest) (workspace_id : Str) (o : Option Run) (run_id : Str) (s : Snapshot)
    → get run_id s.runs ≡ o
    → Inv s
    → Ensures Inv (encrypt_run rest workspace_id o run_id s)
encrypt_run-Inv rest workspace_id none run_id s e c = c
encrypt_run-Inv rest workspace_id (some run) run_id s e c =
    Ensures-bind Inv (encrypt_present rest workspace_id run.output) _ λ output _.
      Ensures-bind Inv (encrypt_optional_result rest workspace_id run.result) _ λ result _.
        keep_run c run_id (record run { output = output; result = result }) (c.run_key run_id run e)
          (λ r f a. ground arith)

pub settle_canceled-Inv :
    (rest : AtRest) (s : Snapshot) (jid : Str) (job : Job) (run : Run) (by reason message : Str)
    (now : Time)
    → Inv s
    → get jid s.jobs ≡ some job
    → get job.run_id s.runs ≡ some run
    → IsLive job
    → Ensures Inv (settle_canceled rest job run by reason message now s)
unfolding settle_canceled encrypt_stored_run_result
settle_canceled-Inv rest s jid job run by reason message now c fj fr live =
    encrypt_run-Inv rest _ _ run.id (apply_canceled_job job run by reason message now s) refl
      (apply_canceled_job-Inv s jid job run by reason message now c fj fr live)

abbrev pub FirstInv {ℓ} : {A : Type ℓ} → Snapshot × A → Type 0
FirstInv (s, a) = Inv s

-- A run that has settled is not active.
pub active_not_terminal : (r : RunState) → terminal_run_state r ≡ true → is_active r ≡ false
active_not_terminal r h = ground arith

cancel_found-Inv :
    (rest : AtRest) (s : Snapshot) (jid : Str) (job : Job) (run : Run) (by reason : Str)
    (now : Time)
    → Inv s
    → get jid s.jobs ≡ some job
    → get job.run_id s.runs ≡ some run
    → Ensures FirstInv (cancel_found rest job run by reason s now)
unfolding cancel_found
cancel_found-Inv rest s jid job run by reason now c fj fr =
    elim (Bool-cases (is_terminal run || is_settled job.state)) [
      | inl e ↦ rw e c
      | inr e ↦ rw e (elim (Bool-cases (is_running job.state)) [
        | inl r ↦ rw r (
            keep_job c job.id job (marked_canceled job (cancel_actor_subject job run by) reason now)
              (job_at_id c jid job fj) refl refl (λ l. l) (c.running_leased jid job fj))
        | inr r ↦ rw r (
            Ensures-bind FirstInv
              (settle_canceled rest job run (cancel_actor_subject job run by) reason
                cancel_before_execution_message now s)
              _
              λ s' done.
                Ensures-ok Inv _
                  (settle_canceled-Inv rest s jid job run _ reason _ now c fj fr (ground arith))
                  done)
      ])
    ]

pub cancel_job-Inv :
    (rest : AtRest) (workspace_id job_id by reason : Str) (s : Snapshot) (now : Time)
    → Inv s
    → Ensures FirstInv (cancel_job rest workspace_id job_id by reason s now)
unfolding cancel_job
cancel_job-Inv rest workspace_id job_id by reason s now c = looked_up (get job_id s.jobs) refl
  where
    looked_up :
        (o : Option Job)
        → get job_id s.jobs ≡ o
        → Ensures FirstInv (cancel_looked_up rest workspace_id o by reason s now)
    looked_up none e = c
    looked_up (some job) e =
        elim (Bool-cases
          (not (str_eq (normalized_job_workspace [] job) (normalize_workspace workspace_id)))) [
            | inl x ↦ rw x c
            | inr x ↦ rw x (
                Ensures-or_fail FirstInv (get job.run_id s.runs) _ _
                  λ run fr. cancel_found-Inv rest s job_id job run by reason now c e fr)
          ]

abbrev pub LeadInv {ℓ κ} : {A : Type ℓ} {B : Type κ} → Snapshot × A × B → Type 0
LeadInv (s, a, b) = Inv s
