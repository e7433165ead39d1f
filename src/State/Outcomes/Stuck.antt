-- ===== src/State/Outcomes/Stuck.antt =====
-- ExpireStuckJobs: which runs it gives up, and what becomes of them and their jobs.
use windforce_lite.Prelude.{
  ℕ, ltb, ◌≡◌, refl, ap, ◌∙◌, Bool, true, false, not, ◌&&◌, ◌||◌, Option, none, some, [], ◌∷◌,
  arith, if◌then◌else◌,
}
use windforce_lite.Str.{Str, str_eq}
use windforce_lite.Table.{Table, get}
use windforce_lite.Table.Laws.{map_option}
use windforce_lite.State.Types.{Run, RunState, Job, JobState, Snapshot, Time, is_settled}
use windforce_lite.State.Result.{ok}
use windforce_lite.State.Ops.Retention.{
  expire_stuck_jobs, expire_job, is_stuck, is_active, latest_update,
}
use windforce_lite.State.Consistent.{Inv}
use windforce_lite.State.Outcomes.Expiry.{
  is_stuck_in, stuck_option, expired_run, expired_job, newer, all_expired,
}

-- A run that is queued, running or resuming.
abbrev is_at_work : RunState → Bool
is_at_work RunState.queued = true
is_at_work RunState.running = true
is_at_work RunState.resuming = true
is_at_work RunState.waiting_human = false
is_at_work RunState.succeeded = false
is_at_work RunState.failed = false
is_at_work RunState.canceled = false
is_at_work RunState.expired = false

-- Every job of the run was last updated before the cutoff.
abbrev are_quiet : Str → Time → Table Job → Bool
are_quiet id cutoff [] = true
are_quiet id cutoff ((i, job) ∷ jobs) =
    (not (str_eq job.run_id id) || ltb job.updated_at cutoff) && are_quiet id cutoff jobs

abbrev stuck_run : Time → Str → Table Job → Option Run → Bool
stuck_run cutoff id jobs none = false
stuck_run cutoff id jobs (some run) =
    is_at_work run.state && ltb run.updated_at cutoff && are_quiet id cutoff jobs

-- The run is at work, and neither it nor a job of it was updated since the cutoff.
abbrev pub stands_still : Time → Snapshot → Str → Bool
stands_still cutoff s id = stuck_run cutoff id s.jobs (get id s.runs)

latest_update-before :
    (id : Str) (latest cutoff : Time) (jobs : Table Job)
    → ltb (latest_update id latest jobs) cutoff ≡ (ltb latest cutoff && are_quiet id cutoff jobs)
unfolding latest_update
latest_update-before id latest cutoff [] = ground arith
latest_update-before id latest cutoff ((i, job) ∷ jobs) =
    latest_update-before id (newer id latest job) cutoff jobs ∙ by_test (str_eq job.run_id id)
  where
    by_test :
        (own : Bool)
        → (ltb (if own && ltb latest job.updated_at then job.updated_at else latest) cutoff
            && are_quiet id cutoff jobs)
          ≡ (ltb latest cutoff
              && ((not own || ltb job.updated_at cutoff) && are_quiet id cutoff jobs))
    by_test true = ground arith
    by_test false = ground arith

is_at_work-is_active : (state : RunState) → is_active state ≡ is_at_work state
is_at_work-is_active RunState.queued = refl
is_at_work-is_active RunState.running = refl
is_at_work-is_active RunState.resuming = refl
is_at_work-is_active RunState.waiting_human = refl
is_at_work-is_active RunState.succeeded = refl
is_at_work-is_active RunState.failed = refl
is_at_work-is_active RunState.canceled = refl
is_at_work-is_active RunState.expired = refl

abbrev pub given_up_run : Time → Bool → Run → Run
given_up_run now still run =
    if still then record run { state = RunState.expired; updated_at = now } else run

abbrev pub given_up_job : Str → Time → Bool → JobState → Job → Job
given_up_job reason now true JobState.queued job = record job {
  state = JobState.failed;
  canceled_reason = some reason;
  updated_at = now;
}
given_up_job reason now true JobState.running job = record job {
  state = JobState.failed;
  canceled_reason = some reason;
  updated_at = now;
}
given_up_job reason now _ _ job = job

module _ (reason : Str) (cutoff now : Time) where
  still-stuck :
      (s : Snapshot) (id : Str) → is_stuck_in reason cutoff now s id ≡ stands_still cutoff s id
  unfolding is_stuck
  still-stuck s id = by_run (get id s.runs)
    where
      by_run :
          (o : Option Run)
          → stuck_option reason cutoff now id s.jobs o ≡ stuck_run cutoff id s.jobs o
      by_run none = refl
      by_run (some run) =
          rw (is_at_work-is_active run.state, latest_update-before id run.updated_at cutoff s.jobs)
            (ground arith)

  expired-given_up :
      (still : Bool) (job : Job)
      → expired_job reason cutoff now still job ≡ given_up_job reason now still job.state job
  unfolding expire_job
  expired-given_up false job = refl
  expired-given_up true job =
      let own : str_eq job.run_id job.run_id ≡ true = ground arith in rw own (by_state job.state)
    where
      by_state :
          (state : JobState)
          → (if not (is_settled state)
              then record job {
                state = JobState.failed;
                canceled_reason = some reason;
                updated_at = now;
              }
              else job)
            ≡ given_up_job reason now true state job
      by_state JobState.queued = refl
      by_state JobState.running = refl
      by_state JobState.succeeded = refl
      by_state JobState.failed = refl

-- ExpireStuckJobs never fails. On a consistent snapshot it gives up exactly the runs that stood still
-- in it: those that are queued, running or resuming, where neither the run nor a job of it was
-- updated since the cutoff. Each of them expires, each queued or running job of it fails with the
-- reason, and all other runs and jobs are as before; the order of the loop does not matter.
pub expire_stuck_jobs_lem :
    (reason : Str) (stuck_before now : Time) (s : Snapshot) (id : Str)
    → Inv s
    → (t : Snapshot) × (n : ℕ) × (expire_stuck_jobs reason stuck_before s now ≡ ok (t, n))
      × (get id t.runs
          ≡ map_option (given_up_run now (stands_still stuck_before s id)) (get id s.runs))
      × (get id t.jobs
          ≡ map_option
              (λ job.
                given_up_job reason now (stands_still stuck_before s job.run_id) job.state job)
              (get id s.jobs))
expire_stuck_jobs_lem reason cutoff now s id c =
    let (t, n, done, run, job) = all_expired reason cutoff now s id c in
    (
      t,
      n,
      done,
      run
          ∙ ap (λ still. map_option (expired_run reason cutoff now still) (get id s.runs))
              (still-stuck reason cutoff now s id),
      job ∙ by_job (get id s.jobs),
    )
  where
    by_job :
        (o : Option Job)
        → map_option
            (λ job. expired_job reason cutoff now (is_stuck_in reason cutoff now s job.run_id) job)
            o
          ≡ map_option
              (λ job. given_up_job reason now (stands_still cutoff s job.run_id) job.state job)
              o
    by_job none = refl
    by_job (some job) =
        ap (λ still. some (expired_job reason cutoff now still job))
          (still-stuck reason cutoff now s job.run_id)
        ∙ ap some (expired-given_up reason cutoff now (stands_still cutoff s job.run_id) job)
