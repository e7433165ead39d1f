-- ===== src/State/Consistent/Leases.antt =====
-- The operations on leases keep the invariant.
use windforce_lite.Prelude.{
  ◌≡◌, refl, subst, inl, inr, ℕ, ◌+◌, true, false, Option, none, some, not, ◌&&◌, List, [], ◌∷◌,
  arith, Bool-cases, Option-cases, is_nil, All,
}
use mathlib.Core.Option.{some-injective}
use windforce_lite.Prelude.Int.{ℤ}
use windforce_lite.Str.{Str}
use windforce_lite.Sort.{sort-All}
use windforce_lite.Table.{Table, get, put, keys}
use windforce_lite.Table.Laws.{AllEntries, entries_of_get}
use windforce_lite.State.Types.{
  Run, Job, Lease, Snapshot, Time, is_running, is_queued, cancel_worker_lost_message,
}
use windforce_lite.State.Result.{Ensures, Ensures-bind, Ensures-guard, Ensures-or_fail, Ensures-ok}
use windforce_lite.State.AtRest.{AtRest}
use windforce_lite.State.Events.{append_event}
use windforce_lite.State.Claim.{
  claim_allowed, candidates, claim_before, first_with_room, max_concurrent_reached,
  normalize_claim_tags,
}
use windforce_lite.State.Ops.Cancel.{canceled_reason_value}
use windforce_lite.State.Ops.Lease.{
  return_job, return_if_expired, return_expired, requeue_expired_jobs, lease_over, back_to_queue,
  take_job, leased, starts, start_run, pick_job, claim_job_for_worker, heartbeat_job,
  heartbeat_found, owns, renewed, lease_time,
}
use windforce_lite.State.Consistent.{Inv, IsLive}
use windforce_lite.State.Consistent.Writes.{keep_job, keep_run}
use windforce_lite.State.Consistent.Moves.{job_at_id}
use windforce_lite.State.Consistent.Ops.{FirstInv, LeadInv, settle_canceled-Inv}

return_job-Inv :
    (rest : AtRest) (id : Str) (job : Job) (by : Option Str) (now : Time) (s : Snapshot)
    → get id s.jobs ≡ some job
    → IsLive job
    → Inv s
    → Ensures Inv (return_job rest id job by now s)
unfolding return_job append_event
return_job-Inv rest id job none now s e l c =
    keep_job c id job (back_to_queue job now) e refl refl (λ _. l) (λ r. cc)
return_job-Inv rest id job (some by) now s e l c = elim (Option-cases (get job.run_id s.runs)) [
  | inl x ↦ rw x c
  | inr (run, x) ↦ rw x (
      settle_canceled-Inv rest s id job run by (canceled_reason_value job)
        cancel_worker_lost_message now c e x l)
]

pub return_if_expired-Inv :
    (rest : AtRest) (id : Str) (o : Option Job) (now : Time) (s : Snapshot)
    → get id s.jobs ≡ o
    → Inv s
    → Ensures Inv (return_if_expired rest id o now s)
unfolding return_if_expired
return_if_expired-Inv rest id none now s e c = c
return_if_expired-Inv rest id (some job) now s e c =
    elim (Bool-cases (is_running job.state && lease_over job.lease_expires_at now)) [
      | inl x ↦ rw x (return_job-Inv rest id job job.canceled_by now s e (ground arith) c)
      | inr x ↦ rw x c
    ]

return_expired-Inv :
    (rest : AtRest) (ids : List Str) (now : Time) (s : Snapshot)
    → Inv s
    → Ensures Inv (return_expired rest ids now s)
unfolding return_expired
return_expired-Inv rest [] now s c = c
return_expired-Inv rest (id ∷ ids) now s c =
    Ensures-bind Inv (return_if_expired rest id (get id s.jobs) now s) (return_expired rest ids now)
      λ s' e.
        return_expired-Inv rest ids now s'
          (Ensures-ok Inv _ (return_if_expired-Inv rest id (get id s.jobs) now s refl c) e)

pub requeue_expired_jobs-Inv :
    (rest : AtRest) (s : Snapshot) (now : Time)
    → Inv s
    → Ensures Inv (requeue_expired_jobs rest s now)
unfolding requeue_expired_jobs
requeue_expired_jobs-Inv rest s now c = return_expired-Inv rest (keys s.jobs) now s c

pub start_run-Inv :
    (o : Option Run) (run_id job_id : Str) (now : Time) (s : Snapshot)
    → get run_id s.runs ≡ o
    → Inv s
    → Inv (start_run o job_id now s)
unfolding start_run append_event
start_run-Inv none run_id job_id now s e c = c
start_run-Inv (some run) run_id job_id now s e c = elim (Bool-cases (starts run.state)) [
  | inl x ↦ rw x (keep_run c run.id _ refl (λ r f a. refl))
  | inr x ↦ rw x c
]

pub take_job-Inv :
    (jid : Str) (job : Job) (worker_id : Str) (ttl : ℕ) (s : Snapshot) (now : Time)
    → get jid s.jobs ≡ some job
    → is_queued job.state ≡ true
    → Inv s
    → Inv (take_job job worker_id ttl s now).0
unfolding take_job append_event
take_job-Inv jid job worker_id ttl s now e q c =
    start_run-Inv (get job.run_id s.runs) job.run_id job.id now
      (record s { jobs = put job.id (leased job worker_id (now + ttl) now) s.jobs }) refl
      (keep_job c job.id job (leased job worker_id (now + ttl) now) (job_at_id c jid job e) refl
        refl (λ _. ground arith) (λ _ h. cc))

-- The job is a queued one of the snapshot, and the worker may claim it.
abbrev pub Claimable : List Str → List Str → Snapshot → Job → Type 0
Claimable tags labels s job =
    (get job.id s.jobs ≡ some job)
    × (is_queued job.state ≡ true)
    × (claim_allowed job tags labels ≡ true)

candidates-All :
    (P : Job → Type 0) (tags labels : List Str) (jobs : Table Job)
    → AllEntries
        (λ id job. is_queued job.state ≡ true → claim_allowed job tags labels ≡ true → P job)
        jobs
    → All P (candidates tags labels jobs)
unfolding candidates
candidates-All P tags labels [] h = tt
candidates-All P tags labels ((id, job) ∷ jobs) h =
    elim (Bool-cases (is_queued job.state && claim_allowed job tags labels)) [
      | inl x ↦ rw x (h.0 (ground arith) (ground arith), candidates-All P tags labels jobs h.1)
      | inr x ↦ rw x (candidates-All P tags labels jobs h.1)
    ]

pub candidates-Claimable :
    (tags labels : List Str) (s : Snapshot)
    → Inv s
    → All (Claimable tags labels s) (candidates tags labels s.jobs)
candidates-Claimable tags labels s c =
    candidates-All (Claimable tags labels s) tags labels s.jobs
      (entries_of_get _ s.jobs c.distinct_jobs λ id job e q a. (job_at_id c id job e, q, a))

pub first_with_room_lem {κ} :
    (P : Job → Type κ) (s : Snapshot) (xs : List Job) {job : Job}
    → All P xs
    → first_with_room s xs ≡ some job
    → P job × (max_concurrent_reached s job ≡ false)
unfolding first_with_room
first_with_room_lem P s [] h e = cc
first_with_room_lem P s (x ∷ xs) h e = elim (Bool-cases (max_concurrent_reached s x)) [
  | inl r ↦ first_with_room_lem P s xs h.1 (rw r at e)
  | inr r ↦
      let q = some-injective _ _ (rw r at e) in
      (subst P q h.0, subst (λ j. max_concurrent_reached s j ≡ false) q r)
]

-- The job that is picked is one that the worker may claim, and its app has room.
pub pick_job-Claimable :
    (tags labels : List Str) (s : Snapshot) {job : Job}
    → Inv s
    → pick_job tags labels s ≡ some job
    → Claimable (normalize_claim_tags tags) (normalize_claim_tags labels) s job
      × (max_concurrent_reached s job ≡ false)
unfolding pick_job
pick_job-Claimable tags labels s c e =
    first_with_room_lem _ s _
      (sort-All claim_before _ (candidates _ _ s.jobs) (candidates-Claimable _ _ s c)) e

pub claim_job_for_worker-Inv :
    (rest : AtRest) (fresh worker_id : Str) (tags labels : List Str) (lease_ttl : ℤ) (s : Snapshot)
    (now : Time)
    → Inv s
    → Ensures LeadInv (claim_job_for_worker rest fresh worker_id tags labels lease_ttl s now)
unfolding claim_job_for_worker
claim_job_for_worker-Inv rest fresh worker_id tags labels lease_ttl s now c =
    Ensures-bind LeadInv (requeue_expired_jobs rest s now) _ λ s' done.
      let c' =
        Ensures-ok Inv (requeue_expired_jobs rest s now) (requeue_expired_jobs-Inv rest s now c)
          done in
      Ensures-or_fail LeadInv (pick_job tags labels s') _ _ λ job e.
        Ensures-guard LeadInv (not (is_nil job.id)) _ _ λ g.
          let found = pick_job-Claimable tags labels s' c' e in
          take_job-Inv job.id job _ (lease_time lease_ttl) s' now found.0.0 found.0.1 c'

pub heartbeat_job-Inv :
    (lease : Lease) (lease_ttl : ℤ) (s : Snapshot) (now : Time)
    → Inv s
    → Ensures FirstInv (heartbeat_job lease lease_ttl s now)
unfolding heartbeat_job
heartbeat_job-Inv lease lease_ttl s now c = found (get lease.job_id s.jobs) refl
  where
    found :
        (o : Option Job)
        → get lease.job_id s.jobs ≡ o
        → Inv (heartbeat_found o lease (lease_time lease_ttl) s now).0
    found none e = c
    found (some job) e = elim (Bool-cases (owns lease job)) [
      | inl x ↦ rw x (
          keep_job c job.id job (renewed job (now + lease_time lease_ttl) now)
            (job_at_id c lease.job_id job e) refl refl (λ l. l) (λ _ h. cc))
      | inr x ↦ rw x c
    ]
