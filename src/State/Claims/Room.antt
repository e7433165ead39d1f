-- ===== src/State/Claims/Room.antt =====
-- The limits of apps: a claim never takes an app over the number of jobs that it may run at once.
use windforce_lite.Prelude.{
  ℕ, suc, ◌≤◌, ◌<◌, leb, ◌≡◌, sym, false, some, List, [], arith, is_nil, if◌then◌else◌, subst₂,
}
use windforce_lite.Prelude.Int.{ℤ}
use windforce_lite.Str.{Str}
use windforce_lite.Table.{Table, get, put}
use windforce_lite.Table.Laws.{count-put_old}
use windforce_lite.State.Types.{Job, Lease, Snapshot, Time}
use windforce_lite.State.Payload.{normalized_job_workspace}
use windforce_lite.State.Result.{ok}
use windforce_lite.State.AtRest.{AtRest}
use windforce_lite.State.Claim.{
  max_concurrent_reached, job_max_concurrent, job_app_key, running_count, runs_app, limit_reached,
}
use windforce_lite.State.Ops.Lease.{claim_job_for_worker, leased}
use windforce_lite.State.Consistent.{Inv}
use windforce_lite.State.Consistent.Leases.{pick_job-Claimable}
use windforce_lite.State.History.Claimed.{claimed, before_Inv, job_taken, jobs_taken}

-- The lease changes neither the app of a job nor its limit, so a job joins the running ones of its
-- app with the lease.
running_count-leased :
    (workspace_id app_key worker_id : Str) (expires now : Time) (job : Job) (jobs : Table Job)
    → get job.id jobs ≡ some job
    → running_count workspace_id app_key (put job.id (leased job worker_id expires now) jobs)
      ≤ suc (running_count workspace_id app_key jobs)
unfolding running_count
running_count-leased workspace_id app_key worker_id expires now job jobs e = ground (
  arith,
  count-put_old (runs_app workspace_id app_key) job.id (leased job worker_id expires now) job jobs
      e,
)

room_left :
    (s : Snapshot) (job : Job) (limit : ℕ)
    → max_concurrent_reached s job ≡ false
    → job_max_concurrent job ≡ some limit
    → is_nil (job_app_key job) ≡ false
    → running_count (normalized_job_workspace [] job) (job_app_key job) s.jobs < limit
unfolding max_concurrent_reached
room_left s job limit h l k =
    let h' : (if is_nil (job_app_key job)
          then false
          else leb limit (running_count (normalized_job_workspace [] job) (job_app_key job) s.jobs))
        ≡ false =
      rw (l, limit_reached) at h in
    ground arith

-- The jobs and the job after a claim, with the claimed job `found` as it was before.
take_within_limit :
    (s : Snapshot) (found : Job) (worker_id : Str) (expires now : Time) (limit : ℕ)
    → get found.id s.jobs ≡ some found
    → max_concurrent_reached s found ≡ false
    → let job = leased found worker_id expires now in
      job_max_concurrent job ≡ some limit
      → is_nil (job_app_key job) ≡ false
      → running_count (normalized_job_workspace [] job) (job_app_key job) (put found.id job s.jobs)
        ≤ limit
unfolding job_max_concurrent job_app_key normalized_job_workspace
take_within_limit s found worker_id expires now limit e h l k = omega (
  arith,
  room_left s found limit h l k,
  running_count-leased (normalized_job_workspace [] found) (job_app_key found) worker_id expires now
      found s.jobs e,
)

-- After a claim on a consistent snapshot of a job whose deployment has a limit and whose app is
-- named, the running jobs of its workspace and app, the claimed one included, are no more than
-- the limit.
pub claim_within_limit :
    (rest : AtRest) (fresh worker_id : Str) (tags labels : List Str) (lease_ttl : ℤ) (s : Snapshot)
    (now : Time) (t : Snapshot) (job : Job) (lease : Lease) (limit : ℕ)
    → Inv s
    → claim_job_for_worker rest fresh worker_id tags labels lease_ttl s now ≡ ok (t, job, lease)
    → job_max_concurrent job ≡ some limit
    → is_nil (job_app_key job) ≡ false
    → running_count (normalized_job_workspace [] job) (job_app_key job) t.jobs ≤ limit
claim_within_limit rest fresh worker_id tags labels lease_ttl s now t job lease limit c e l k =
    let d = claimed rest fresh worker_id tags labels lease_ttl s now t job lease c e in
    let found =
      pick_job-Claimable tags labels d.before
        (before_Inv rest fresh worker_id tags labels lease_ttl s now t job lease c e) d.picked in
    let taken = job_taken rest fresh worker_id tags labels lease_ttl s now t job lease c e in
    subst₂
      (λ (j : Job) m.
        job_max_concurrent j ≡ some limit
        → is_nil (job_app_key j) ≡ false
        → running_count (normalized_job_workspace [] j) (job_app_key j) m ≤ limit)
      (sym taken)
      (sym (jobs_taken rest fresh worker_id tags labels lease_ttl s now t job lease c e))
      (take_within_limit d.before d.job _ _ now limit found.0.0 found.1) l k
