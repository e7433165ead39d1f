-- ===== src/State/History/Leases.antt =====
-- The operations on leases move the jobs on only.
use windforce_lite.Prelude.{
  ◌≡◌, refl, ℕ, ◌+◌, true, Option, none, some, not, ◌&&◌, List, [], ◌∷◌, arith, Bool-cases, inl,
  inr, is_nil,
}
use windforce_lite.Prelude.Int.{ℤ}
use windforce_lite.Str.{Str}
use windforce_lite.Table.{get, put, keys}
use windforce_lite.State.Types.{
  Run, Job, Lease, Snapshot, Time, is_running, is_queued, cancel_worker_lost_message,
}
use windforce_lite.State.Result.{
  Ensures, Ensures-bind, Ensures-guard, Ensures-or_fail, Ensures-ok, Ensures-imp,
}
use windforce_lite.State.AtRest.{AtRest}
use windforce_lite.State.Events.{append_event}
use windforce_lite.State.Ops.Cancel.{canceled_reason_value}
use windforce_lite.State.Ops.Lease.{
  return_job, return_canceled, return_if_expired, return_expired, requeue_expired_jobs, lease_over,
  back_to_queue, take_job, leased, start_run, starts, pick_job, claim_job_for_worker, heartbeat_job,
  heartbeat_found, owns, renewed, lease_time,
}
use windforce_lite.State.Consistent.{Inv, IsLive}
use windforce_lite.State.Consistent.Moves.{job_at_id}
use windforce_lite.State.Consistent.Leases.{
  pick_job-Claimable, requeue_expired_jobs-Inv, return_if_expired-Inv,
}
use windforce_lite.State.History.{Extends-refl, Extends-trans, Extends-put_found}
use windforce_lite.State.History.Ops.{
  After, FirstAfter, LeadAfter, live_Follows, settle_canceled-After,
}

return_job-After :
    (rest : AtRest) (id : Str) (job : Job) (by : Option Str) (now : Time) (s : Snapshot)
    → get id s.jobs ≡ some job
    → IsLive job
    → Inv s
    → Ensures (After s) (return_job rest id job by now s)
unfolding return_job append_event
return_job-After rest id job none now s e l c =
    Extends-put_found id (back_to_queue job now) job s.jobs e
      (live_Follows job _ l (omega arith) refl)
return_job-After rest id job (some by) now s e l c = with_run (get job.run_id s.runs)
  where
    with_run : (o : Option Run) → Ensures (After s) (return_canceled rest job o by now s)
    with_run none = Extends-refl s.jobs
    with_run (some run) =
        settle_canceled-After rest s job run by (canceled_reason_value job)
          cancel_worker_lost_message now (job_at_id c id job e) l

return_if_expired-After :
    (rest : AtRest) (id : Str) (o : Option Job) (now : Time) (s : Snapshot)
    → get id s.jobs ≡ o
    → Inv s
    → Ensures (After s) (return_if_expired rest id o now s)
unfolding return_if_expired
return_if_expired-After rest id none now s e c = Extends-refl s.jobs
return_if_expired-After rest id (some job) now s e c =
    elim (Bool-cases (is_running job.state && lease_over job.lease_expires_at now)) [
      | inl x ↦ rw x (return_job-After rest id job job.canceled_by now s e (ground arith) c)
      | inr x ↦ rw x (Extends-refl s.jobs)
    ]

return_expired-After :
    (rest : AtRest) (ids : List Str) (now : Time) (s : Snapshot)
    → Inv s
    → Ensures (After s) (return_expired rest ids now s)
unfolding return_expired
return_expired-After rest [] now s c = Extends-refl s.jobs
return_expired-After rest (id ∷ ids) now s c =
    Ensures-bind (After s) (return_if_expired rest id (get id s.jobs) now s)
      (return_expired rest ids now)
      λ s' e.
        Ensures-imp (After s') (After s) (return_expired rest ids now s')
          (λ u x.
            Extends-trans
              (Ensures-ok (After s) _ (return_if_expired-After rest id (get id s.jobs) now s refl c)
                e)
              x)
          (return_expired-After rest ids now s'
            (Ensures-ok Inv _ (return_if_expired-Inv rest id (get id s.jobs) now s refl c) e))

pub requeue_expired_jobs-After :
    (rest : AtRest) (s : Snapshot) (now : Time)
    → Inv s
    → Ensures (After s) (requeue_expired_jobs rest s now)
unfolding requeue_expired_jobs
requeue_expired_jobs-After rest s now c = return_expired-After rest (keys s.jobs) now s c

-- The start of the run changes no job.
pub start_run-jobs :
    (o : Option Run) (job_id : Str) (now : Time) (s : Snapshot)
    → (start_run o job_id now s).jobs ≡ s.jobs
unfolding start_run append_event
start_run-jobs none job_id now s = refl
start_run-jobs (some run) job_id now s = elim (Bool-cases (starts run.state)) [
  | inl x ↦ rw x refl
  | inr x ↦ rw x refl
]

pub take_job-jobs :
    (job : Job) (worker_id : Str) (ttl : ℕ) (s : Snapshot) (now : Time)
    → (take_job job worker_id ttl s now).0.jobs
      ≡ put job.id (leased job worker_id (now + ttl) now) s.jobs
unfolding take_job append_event
take_job-jobs job worker_id ttl s now = start_run-jobs (get job.run_id s.runs) job.id now _

take_job-After :
    (job : Job) (worker_id : Str) (ttl : ℕ) (s : Snapshot) (now : Time)
    → get job.id s.jobs ≡ some job
    → is_queued job.state ≡ true
    → After s (take_job job worker_id ttl s now).0
take_job-After job worker_id ttl s now e q = rw (take_job-jobs job worker_id ttl s now) (
    Extends-put_found job.id (leased job worker_id (now + ttl) now) job s.jobs e
      (live_Follows job _ (ground arith) (omega arith) refl))

pub claim_job_for_worker-After :
    (rest : AtRest) (fresh worker_id : Str) (tags labels : List Str) (lease_ttl : ℤ) (s : Snapshot)
    (now : Time)
    → Inv s
    → Ensures (LeadAfter s) (claim_job_for_worker rest fresh worker_id tags labels lease_ttl s now)
unfolding claim_job_for_worker
claim_job_for_worker-After rest fresh worker_id tags labels lease_ttl s now c =
    Ensures-bind (LeadAfter s) (requeue_expired_jobs rest s now) _ λ s' done.
      let c' =
        Ensures-ok Inv (requeue_expired_jobs rest s now) (requeue_expired_jobs-Inv rest s now c)
          done in
      let x =
        Ensures-ok (After s) (requeue_expired_jobs rest s now)
          (requeue_expired_jobs-After rest s now c) done in
      Ensures-or_fail (LeadAfter s) (pick_job tags labels s') _ _ λ job e.
        Ensures-guard (LeadAfter s) (not (is_nil job.id)) _ _ λ g.
          let found = pick_job-Claimable tags labels s' c' e in
          Extends-trans x (take_job-After job _ (lease_time lease_ttl) s' now found.0.0 found.0.1)

pub heartbeat_job-After :
    (lease : Lease) (lease_ttl : ℤ) (s : Snapshot) (now : Time)
    → Inv s
    → Ensures (FirstAfter s) (heartbeat_job lease lease_ttl s now)
unfolding heartbeat_job
heartbeat_job-After lease lease_ttl s now c = found (get lease.job_id s.jobs) refl
  where
    found :
        (o : Option Job)
        → get lease.job_id s.jobs ≡ o
        → After s (heartbeat_found o lease (lease_time lease_ttl) s now).0
    found none e = Extends-refl s.jobs
    found (some job) e = elim (Bool-cases (owns lease job)) [
      | inl x ↦ rw x (
          Extends-put_found job.id (renewed job (now + lease_time lease_ttl) now) job s.jobs
            (job_at_id c lease.job_id job e) (live_Follows job _ (ground arith) (omega arith) refl))
      | inr x ↦ rw x (Extends-refl s.jobs)
    ]
