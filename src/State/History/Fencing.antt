-- ===== src/State/History/Fencing.antt =====
-- Leases are fenced by the attempt number: once a job is claimed anew, no older lease has effect, and
-- the new one is honoured until it ends.
use windforce_lite.Prelude.{
  ◌≡◌, refl, sym, subst₂, ap, ◌∙◌, ◌≤◌, ◌<◌, true, false, some, List, arith,
}
use windforce_lite.Prelude.Int.{ℤ}
use windforce_lite.Str.{Str}
use windforce_lite.Table.{get}
use windforce_lite.Contract.{JobResult}
use windforce_lite.State.Types.{Run, Job, Lease, HumanTask, Snapshot, Time, is_settled}
use windforce_lite.State.Result.{ok, err, or_fail, guard}
use windforce_lite.State.Types.{invalid_lease}
use windforce_lite.State.AtRest.{AtRest}
use windforce_lite.State.Ops.Lease.{
  claim_job_for_worker, heartbeat_job, heartbeat_found, owns, leased_job_and_run, lost_lease,
  lease_before,
}
use windforce_lite.State.Ops.Complete.{
  complete_job_succeeded, complete_job_failed, complete_job_waiting_human,
}
use windforce_lite.State.Consistent.{Inv}
use windforce_lite.State.History.Steps.{Track, Track-Follows}
use windforce_lite.State.History.Claimed.{
  after_Inv, job_stored, attempt_taken, job_taken, lease_taken,
}

-- A lease that the job does not carry opens nothing.
not_owned :
    (u : Snapshot) (old : Lease) (now : Time) (b : Job)
    → get old.job_id u.jobs ≡ some b
    → owns old b ≡ false
    → leased_job_and_run u old now ≡ err invalid_lease
unfolding leased_job_and_run
not_owned u old now b e o = rw (e, or_fail) (rw (o, guard) refl)

-- A lease that the job carries and that has not ended opens the job and its run.
opens :
    (t : Snapshot) (lease : Lease) (now : Time) (job : Job) (run : Run)
    → get lease.job_id t.jobs ≡ some job
    → owns lease job ≡ true
    → lease_before job.lease_expires_at now ≡ false
    → get job.run_id t.runs ≡ some run
    → leased_job_and_run t lease now ≡ ok (job, run)
unfolding leased_job_and_run
opens t lease now job run e o before r =
    rw (e, or_fail) (rw (o, guard) (rw before (rw (r, or_fail) refl)))

complete_not_owned :
    (u : Snapshot) (old : Lease) (now : Time) (b : Job)
    → get old.job_id u.jobs ≡ some b
    → owns old b ≡ false
    → ((rest : AtRest) (result : JobResult)
        → complete_job_succeeded rest old result u now ≡ err invalid_lease)
      × ((rest : AtRest) (result : JobResult)
          → complete_job_failed rest old result u now ≡ err invalid_lease)
      × ((rest : AtRest) (fresh : Str) (result : JobResult) (task : HumanTask)
          → complete_job_waiting_human rest fresh old result task u now ≡ err invalid_lease)
      × ((lease_ttl : ℤ) → heartbeat_job old lease_ttl u now ≡ ok (u, lost_lease))
unfolding complete_job_succeeded complete_job_failed complete_job_waiting_human heartbeat_job
complete_not_owned u old now b e o = (
  λ rest result. rw (not_owned u old now b e o) refl,
  λ rest result. rw (not_owned u old now b e o) refl,
  λ rest fresh result task. rw (not_owned u old now b e o) refl,
  λ lease_ttl. rw (e, heartbeat_found) (rw o refl),
)

module _ (rest : AtRest) (fresh worker_id : Str) (tags labels : List Str) (lease_ttl : ℤ)
    (s : Snapshot) (now : Time) (t : Snapshot) (job : Job) (lease : Lease) (c : Inv s)
    (e : claim_job_for_worker rest fresh worker_id tags labels lease_ttl s now
      ≡ ok (t, job, lease)) where
  -- After a claim on a consistent snapshot, in every later snapshot of a history that keeps the
  -- job, each lease of the job with an older attempt is refused by all three completions, and
  -- its heartbeat reports it lost and changes nothing.
  pub fenced_lease :
      (u : Snapshot) (old : Lease) (later : Time)
      → Track lease.job_id t u
      → old.job_id ≡ lease.job_id
      → old.attempt < lease.attempt
      → ((rest' : AtRest) (result : JobResult)
          → complete_job_succeeded rest' old result u later ≡ err invalid_lease)
        × ((rest' : AtRest) (result : JobResult)
            → complete_job_failed rest' old result u later ≡ err invalid_lease)
        × ((rest' : AtRest) (fresh' : Str) (result : JobResult) (task : HumanTask)
            → complete_job_waiting_human rest' fresh' old result task u later ≡ err invalid_lease)
        × ((ttl : ℤ) → heartbeat_job old ttl u later ≡ ok (u, lost_lease))
  fenced_lease u old later track same older =
      let (b, found, f) =
        Track-Follows job track
          (after_Inv rest fresh worker_id tags labels lease_ttl s now t job lease c e)
          (job_stored rest fresh worker_id tags labels lease_ttl s now t job lease c e) in
      let newer : old.attempt < b.attempt = omega (
        arith,
        attempt_taken rest fresh worker_id tags labels lease_ttl s now t job lease c e,
        f.attempts_grow,
      ) in
      complete_not_owned u old later b (rw same found) (ground arith)

  -- The lease of a claim on a consistent snapshot opens the job and its run, in the snapshot
  -- that the claim wrote, at every time up to its end.
  pub claimed_lease_accepted :
      (later : Time)
      → later ≤ lease.expires_at
      → (run : Run) × (get job.run_id t.runs ≡ some run)
        × (leased_job_and_run t lease later ≡ ok (job, run))
  claimed_lease_accepted later in_time =
      let c' = after_Inv rest fresh worker_id tags labels lease_ttl s now t job lease c e in
      let found = job_stored rest fresh worker_id tags labels lease_ttl s now t job lease c e in
      let jt = job_taken rest fresh worker_id tags labels lease_ttl s now t job lease c e in
      let lt = lease_taken rest fresh worker_id tags labels lease_ttl s now t job lease c e in
      let live : is_settled job.state ≡ false = ap (λ (j : Job). is_settled j.state) jt in
      let (run, there, _) = c'.live_active lease.job_id job found live in
      let ends : job.lease_expires_at ≡ some lease.expires_at =
        ap (λ (j : Job). j.lease_expires_at) jt ∙ sym (ap (λ (l : Lease). some l.expires_at) lt) in
      (
        run,
        there,
        opens t lease later job run found
            (subst₂ (λ (l : Lease) (j : Job). owns l j ≡ true) (sym lt) (sym jt) (ground arith))
            (rw ends (ground arith)) there,
      )
