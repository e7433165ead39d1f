-- ===== src/State/History/Steps.antt =====
-- Every step moves the jobs on, and so does every history in which a job is kept.
use windforce_lite.Prelude.{◌≡◌, sym, subst, ◌∙◌, ℕ, some}
use mathlib.Core.Option.{some-injective}
use windforce_lite.Str.{Str}
use windforce_lite.Table.{get}
use windforce_lite.Table.Laws.{get-delete_where_inv}
use windforce_lite.State.Types.{Job, Snapshot, Time}
use windforce_lite.State.Result.{Ensures, Ensures-ok}
use windforce_lite.State.Ops.Retention.{prune_settled_jobs}
use windforce_lite.State.Consistent.{Inv}
use windforce_lite.State.Step.{
  Step, create, claim, heartbeat, succeed, fail, wait, resume, cancel, stop, retry, requeue, prune,
  expire,
}
use windforce_lite.State.Step.Reachable.{Step-Inv}
use windforce_lite.State.History.{Follows, Follows-refl, Follows-trans}
use windforce_lite.State.History.Ops.{After, FirstAfter, LeadAfter, cancel_job-After}
use windforce_lite.State.History.Leases.{claim_job_for_worker-After, heartbeat_job-After}
use windforce_lite.State.History.Others.{
  complete_job_succeeded-After, complete_job_failed-After, complete_job_waiting_human-After,
  cancel_run-After, requeue_queued_jobs_for_app-After, expire_stuck_jobs-After,
  create_run_and_enqueue-After, retry_run-After, resume_human_task-After,
}

-- In the later snapshot the job, if it is still there, has moved on.
abbrev Onward : Snapshot → Snapshot → Type 0
Onward s t = (id : Str) (a b : Job) → get id s.jobs ≡ some a → get id t.jobs ≡ some b → Follows a b

After-Onward : (s t : Snapshot) → After s t → Onward s t
After-Onward s t x id a b ea eb =
    let (b', eb', f) = x.later id a ea in subst (Follows a) (some-injective b' b (sym eb' ∙ eb)) f

prune_Onward :
    (success_older_than failure_older_than : Time) (s : Snapshot) (now : Time)
    → Inv s
    → Ensures
        (λ (r : Snapshot × ℕ). Onward s r.0)
        (prune_settled_jobs success_older_than failure_older_than s now)
unfolding prune_settled_jobs
prune_Onward x y s now c id a b ea eb =
    let kept = get-delete_where_inv id _ b s.jobs c.distinct_jobs eb in
    subst (Follows a) (some-injective a b (sym ea ∙ kept.0)) (Follows-refl a)

-- A job that is there before and after a step from a consistent snapshot keeps its run, its
-- attempt is not lowered, and if it has settled its state and its attempt stay.
pub Step-Follows :
    {s t : Snapshot} (id : Str) (a b : Job)
    → Step s t
    → Inv s
    → get id s.jobs ≡ some a
    → get id t.jobs ≡ some b
    → Follows a b
Step-Follows {s} {t} id a b st c = onward st id a b
  where
    onward : Step s t → Onward s t
    onward (create rest run job now x q k e) =
        After-Onward s t
          (Ensures-ok (After s) _ (create_run_and_enqueue-After rest run job s now) e)
    onward (claim rest fresh w tags labels ttl now job lease e) = After-Onward s t (
        Ensures-ok (LeadAfter s) _ (claim_job_for_worker-After rest fresh w tags labels ttl s now c)
          e)
    onward (heartbeat lease ttl now r e) =
        After-Onward s t (Ensures-ok (FirstAfter s) _ (heartbeat_job-After lease ttl s now c) e)
    onward (succeed rest lease result now e) =
        After-Onward s t
          (Ensures-ok (After s) _ (complete_job_succeeded-After rest lease s now c result) e)
    onward (fail rest lease result now e) =
        After-Onward s t
          (Ensures-ok (After s) _ (complete_job_failed-After rest lease s now c result) e)
    onward (wait rest fresh lease result task now e) = After-Onward s t (
        Ensures-ok (After s) _
          (complete_job_waiting_human-After rest lease s now c fresh result task) e)
    onward (resume rest task_id input fresh now run job n e) =
        After-Onward s t
          (Ensures-ok (LeadAfter s) _ (resume_human_task-After rest task_id input fresh s now n) e)
    onward (cancel rest workspace_id job_id by reason now r e) = After-Onward s t (
        Ensures-ok (FirstAfter s) _ (cancel_job-After rest workspace_id job_id by reason s now c) e)
    onward (stop run_id reason now run e) =
        After-Onward s t (Ensures-ok (FirstAfter s) _ (cancel_run-After run_id reason s now) e)
    onward (retry rest run_id fresh now run job n e) =
        After-Onward s t (Ensures-ok (LeadAfter s) _ (retry_run-After rest run_id fresh s now n) e)
    onward (requeue spec now n e) =
        After-Onward s t
          (Ensures-ok (FirstAfter s) _ (requeue_queued_jobs_for_app-After spec s now) e)
    onward (prune x y now n e) =
        Ensures-ok (λ (r : Snapshot × ℕ). Onward s r.0) _ (prune_Onward x y s now c) e
    onward (expire reason before now n e) =
        After-Onward s t
          (Ensures-ok (FirstAfter s) _ (expire_stuck_jobs-After reason before s now) e)

-- A history in which the job is there after every step.
pub data Track (id : Str) (s : Snapshot) : Snapshot → Type 0 where
  here : Track id s s
  next :
      {t u : Snapshot} → Track id s t → Step t u → (b : Job) → get id u.jobs ≡ some b → Track id s u

pub Track-Inv : {id : Str} {s t : Snapshot} → Track id s t → Inv s → Inv t
Track-Inv here c = c
Track-Inv (next r st b e) c = Step-Inv st (Track-Inv r c)

-- Along a history the job is found, and has moved on from where it was.
pub Track-Follows :
    {id : Str} {s t : Snapshot} (a : Job)
    → Track id s t
    → Inv s
    → get id s.jobs ≡ some a
    → (b : Job) × (get id t.jobs ≡ some b) × Follows a b
Track-Follows a here c e = (a, e, Follows-refl a)
Track-Follows {id} a (next r st b eb) c e =
    let (m, em, f) = Track-Follows a r c e in
    (b, eb, Follows-trans f (Step-Follows id m b st (Track-Inv r c) em eb))
