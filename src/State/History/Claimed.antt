-- ===== src/State/History/Claimed.antt =====
-- What a successful claim did, step by step.
use windforce_lite.Prelude.{
  ◌≡◌, refl, sym, subst, ap, ◌∙◌, ℕ, suc, ◌+◌, some, not, List, if◌then◌else◌, is_nil,
}
use windforce_lite.Prelude.Int.{ℤ}
use windforce_lite.Str.{Str}
use windforce_lite.Table.{get, put}
use windforce_lite.Table.Laws.{get-put_self}
use windforce_lite.State.Types.{Job, Lease, Snapshot, Time}
use windforce_lite.State.Result.{
  ok, Ensures, Ensures-bind, Ensures-guard, Ensures-or_fail, Ensures-ok,
}
use windforce_lite.State.AtRest.{AtRest}
use windforce_lite.State.Ops.Lease.{
  requeue_expired_jobs, take_job, leased, pick_job, claim_job_for_worker, lease_time,
}
use windforce_lite.State.Consistent.{Inv}
use windforce_lite.State.Consistent.Ops.{LeadInv}
use windforce_lite.State.Consistent.Leases.{claim_job_for_worker-Inv, requeue_expired_jobs-Inv}
use windforce_lite.State.History.Leases.{take_job-jobs}

-- What a successful claim did: it returned expired leases, picked a job and took it.
pub record Claimed (rest : AtRest) (worker_id : Str) (tags labels : List Str) (ttl : ℕ)
    (s : Snapshot) (now : Time) (r : Snapshot × Job × Lease) : Type 0 where
  pub before : Snapshot
  pub job : Job
  pub returned : requeue_expired_jobs rest s now ≡ ok before
  pub picked : pick_job tags labels before ≡ some job
  pub taken : r ≡ take_job job worker_id ttl before now

pub claim_Claimed :
    (rest : AtRest) (fresh worker_id : Str) (tags labels : List Str) (lease_ttl : ℤ) (s : Snapshot)
    (now : Time)
    → Ensures
        (Claimed rest
          (if is_nil worker_id then fresh else worker_id)
          tags
          labels
          (lease_time lease_ttl)
          s
          now)
        (claim_job_for_worker rest fresh worker_id tags labels lease_ttl s now)
unfolding claim_job_for_worker
claim_Claimed rest fresh worker_id tags labels lease_ttl s now =
    Ensures-bind P (requeue_expired_jobs rest s now) _ λ s' done.
      Ensures-or_fail P (pick_job tags labels s') _ _ λ job e.
        Ensures-guard P (not (is_nil job.id)) _ _
          λ g. record { before = s'; job = job; returned = done; picked = e; taken = refl }
  where
    P : Snapshot × Job × Lease → Type 0
    P =
        Claimed rest (if is_nil worker_id then fresh else worker_id) tags labels
          (lease_time lease_ttl) s now

-- What the snapshot holds of a job after its claim.
module _ (rest : AtRest) (fresh worker_id : Str) (tags labels : List Str) (lease_ttl : ℤ)
    (s : Snapshot) (now : Time) (t : Snapshot) (job : Job) (lease : Lease) (c : Inv s)
    (e : claim_job_for_worker rest fresh worker_id tags labels lease_ttl s now
      ≡ ok (t, job, lease)) where
  abbrev pub worker : Str
  worker = if is_nil worker_id then fresh else worker_id

  pub claimed : Claimed rest worker tags labels (lease_time lease_ttl) s now (t, job, lease)
  claimed =
      Ensures-ok (Claimed rest worker tags labels (lease_time lease_ttl) s now) _
        (claim_Claimed rest fresh worker_id tags labels lease_ttl s now) e

  pub before_Inv : Inv claimed.before
  before_Inv = Ensures-ok Inv _ (requeue_expired_jobs-Inv rest s now c) claimed.returned

  pub after_Inv : Inv t
  after_Inv =
      Ensures-ok LeadInv _
        (claim_job_for_worker-Inv rest fresh worker_id tags labels lease_ttl s now c) e

  abbrev pub taken_job : Job
  taken_job = leased claimed.job worker (now + lease_time lease_ttl) now

  pub job_taken : job ≡ taken_job
  unfolding take_job
  job_taken = ap (λ (r : Snapshot × Job × Lease). r.1) claimed.taken

  pub lease_taken : lease ≡ record {
    job_id = claimed.job.id;
    worker_id = worker;
    expires_at = now + lease_time lease_ttl;
    attempt = suc claimed.job.attempt;
    acquired_at = now;
  }
  unfolding take_job
  lease_taken = ap (λ (r : Snapshot × Job × Lease). r.2) claimed.taken

  pub jobs_taken : t.jobs ≡ put claimed.job.id taken_job claimed.before.jobs
  jobs_taken =
      ap (λ (r : Snapshot × Job × Lease). r.0.jobs) claimed.taken
      ∙ take_job-jobs claimed.job worker (lease_time lease_ttl) claimed.before now

  pub job_stored : get lease.job_id t.jobs ≡ some job
  job_stored =
      subst (λ (l : Lease). get l.job_id t.jobs ≡ some job) (sym lease_taken)
        (subst (λ (j : Job). get claimed.job.id t.jobs ≡ some j) (sym job_taken)
          (subst (λ m. get claimed.job.id m ≡ some taken_job) (sym jobs_taken)
            (get-put_self claimed.job.id taken_job claimed.before.jobs)))

  pub attempt_taken : job.attempt ≡ lease.attempt
  attempt_taken =
      ap (λ (j : Job). j.attempt) job_taken ∙ sym (ap (λ (l : Lease). l.attempt) lease_taken)
