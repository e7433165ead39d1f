-- ===== src/State/Consistent/Stops.antt =====
-- The operations that stop all jobs of a run, or delete settled runs, keep the invariant.
use windforce_lite.Prelude.{
  ◌≡◌, refl, sym, ap, subst, ◌∙◌, inl, inr, ◌≢◌, true, false, Option, none, some, not, List, [],
  ◌∷◌, arith, Bool-cases, ℕ,
}
use windforce_lite.Str.{Str}
use windforce_lite.Table.{Table, get, map_values, keys}
use windforce_lite.Table.Laws.{get-map_values_inv}
use windforce_lite.State.Types.{Run, Job, Snapshot, Time, is_terminal, is_running, RequeueAppSpec}
use windforce_lite.State.Result.{Ensures, Ensures-guard, Ensures-or_fail}
use windforce_lite.State.Events.{append_event}
use windforce_lite.State.Ops.Cancel.{cancel_run, stop_job}
use windforce_lite.State.Ops.Enqueue.{requeue_queued_jobs_for_app, retag, requeue_tag}
use windforce_lite.State.Ops.Retention.{
  is_active, prune_settled_jobs, in_expired_runs, is_outdated, expire_stuck_jobs, expire_loop,
  expire_if_stuck, expire_run, expire_job, is_stuck,
}
use windforce_lite.State.Consistent.{Consistent, Inv, IsLive}
use windforce_lite.State.Consistent.Writes.{map_jobs, idle_run, delete_runs}
use windforce_lite.State.Consistent.Ops.{FirstInv, active_not_terminal}

-- A loop that settles every live job of a run leaves it with none.
stopped_idle :
    (f : Job → Job) (rid : Str) (jobs : Table Job)
    → ((b : Job) → IsLive (f b) → (f b).run_id ≢ rid)
    → (id : Str) (job : Job) → get id (map_values f jobs) ≡ some job
    → IsLive job
    → job.run_id ≢ rid
stopped_idle f rid jobs stops id job e l p =
    let (b, found, q) = get-map_values_inv id f job jobs e in
    stops b (subst IsLive (sym q) l) (ap (λ (x : Job). x.run_id) q ∙ p)

module _ (rid : Str) (now : Time) where
  stop_job-keeps :
      {runs : Table Run} {jobs : Table Job}
      → Consistent runs jobs
      → Consistent runs (map_values (stop_job rid now) jobs)
  unfolding stop_job
  stop_job-keeps c =
      map_jobs c (stop_job rid now) (λ b. ground arith) (λ b. ground arith) (λ b. ground arith)
        (λ b. ground arith)

  stop_job_stops : (b : Job) → IsLive (stop_job rid now b) → (stop_job rid now b).run_id ≢ rid
  unfolding stop_job
  stop_job_stops b l p = ground arith

  expire_job-keeps :
      (reason : Str) {runs : Table Run} {jobs : Table Job}
      → Consistent runs jobs
      → Consistent runs (map_values (expire_job rid reason now) jobs)
  unfolding expire_job
  expire_job-keeps reason c =
      map_jobs c (expire_job rid reason now) (λ b. ground arith) (λ b. ground arith)
        (λ b. ground arith) (λ b. ground arith)

  expire_job_stops :
      (reason : Str) (b : Job)
      → IsLive (expire_job rid reason now b)
      → (expire_job rid reason now b).run_id ≢ rid
  unfolding expire_job
  expire_job_stops reason b l p = ground arith

pub cancel_run-Inv :
    (run_id reason : Str) (s : Snapshot) (now : Time)
    → Inv s
    → Ensures FirstInv (cancel_run run_id reason s now)
unfolding cancel_run append_event
cancel_run-Inv run_id reason s now c = Ensures-or_fail FirstInv (get run_id s.runs) _ _ λ run fr.
    Ensures-guard FirstInv (not (is_terminal run)) _ _ λ g.
      idle_run (stop_job-keeps run_id now c) run_id _ (c.run_key run_id run fr)
        (stopped_idle (stop_job run_id now) run_id s.jobs (stop_job_stops run_id now))

pub requeue_queued_jobs_for_app-Inv :
    (spec : RequeueAppSpec) (s : Snapshot) (now : Time)
    → Inv s
    → Ensures FirstInv (requeue_queued_jobs_for_app spec s now)
unfolding requeue_queued_jobs_for_app
requeue_queued_jobs_for_app-Inv spec s now c =
    map_jobs c (λ job. retag now job (requeue_tag spec job)) (λ b. retag_id b (requeue_tag spec b))
      (λ b. retag_run b (requeue_tag spec b)) (λ b. retag_live b (requeue_tag spec b))
      (λ b. retag_lease b (requeue_tag spec b))
  where
    retag_id : (b : Job) (o : Option Str) → (retag now b o).id ≡ b.id
    retag_id b none = refl
    retag_id b (some t) = refl

    retag_run : (b : Job) (o : Option Str) → (retag now b o).run_id ≡ b.run_id
    retag_run b none = refl
    retag_run b (some t) = refl

    retag_live : (b : Job) (o : Option Str) → IsLive (retag now b o) → IsLive b
    retag_live b none l = l
    retag_live b (some t) l = l

    retag_lease :
        (b : Job) (o : Option Str)
        → is_running (retag now b o).state ≡ true
        → (is_running b.state ≡ true) × ((retag now b o).lease_expires_at ≡ b.lease_expires_at)
    retag_lease b none r = (r, refl)
    retag_lease b (some t) r = (r, refl)

-- A run that the pruner takes is not active.
pub expired_not_active :
    (success_older_than failure_older_than : Time) (runs : Table Run) (id : Str) (run : Run)
    → get id runs ≡ some run
    → in_expired_runs success_older_than failure_older_than runs id ≡ true
    → is_active run.state ≡ false
unfolding in_expired_runs is_outdated
expired_not_active a b runs id run e h = active_not_terminal run.state (ground arith)

pub prune_settled_jobs-Inv :
    (success_older_than failure_older_than : Time) (s : Snapshot) (now : Time)
    → Inv s
    → Ensures FirstInv (prune_settled_jobs success_older_than failure_older_than s now)
unfolding prune_settled_jobs
prune_settled_jobs-Inv a b s now c =
    delete_runs c (in_expired_runs a b s.runs) (expired_not_active a b s.runs)

expire_if_stuck-Inv :
    (id reason : Str) (o : Option Run) (stuck_before now : Time) (s : Snapshot) (expired : ℕ)
    → get id s.runs ≡ o
    → Inv s
    → Inv (expire_if_stuck id reason o stuck_before now s expired).0
unfolding expire_if_stuck expire_run
expire_if_stuck-Inv id reason none stuck_before now s expired e c = c
expire_if_stuck-Inv id reason (some run) stuck_before now s expired e c =
    elim (Bool-cases (is_stuck id run stuck_before s.jobs)) [
      | inr x ↦ rw x c
      | inl x ↦ rw x (
          idle_run (expire_job-keeps id now reason c) id _ (c.run_key id run e)
            (stopped_idle (expire_job id reason now) id s.jobs (expire_job_stops id now reason)))
    ]

expire_loop-Inv :
    (ids : List Str) (reason : Str) (stuck_before now : Time) (s : Snapshot) (expired : ℕ)
    → Inv s
    → Inv (expire_loop ids reason stuck_before now s expired).0
unfolding expire_loop
expire_loop-Inv [] reason stuck_before now s expired c = c
expire_loop-Inv (id ∷ ids) reason stuck_before now s expired c =
    let r = expire_if_stuck id reason (get id s.runs) stuck_before now s expired in
    expire_loop-Inv ids reason stuck_before now r.0 r.1
      (expire_if_stuck-Inv id reason (get id s.runs) stuck_before now s expired refl c)

pub expire_stuck_jobs-Inv :
    (reason : Str) (stuck_before : Time) (s : Snapshot) (now : Time)
    → Inv s
    → Ensures FirstInv (expire_stuck_jobs reason stuck_before s now)
unfolding expire_stuck_jobs
expire_stuck_jobs-Inv reason stuck_before s now c =
    expire_loop-Inv (keys s.runs) reason stuck_before now s 0 c
