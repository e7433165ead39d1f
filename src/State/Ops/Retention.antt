-- ===== src/State/Ops/Retention.antt =====
-- PruneSettledJobs and ExpireStuckJobs.
use windforce_lite.Prelude.{
  ℕ, suc, ltb, Bool, true, false, not, ◌&&◌, Option, none, some, List, [], ◌∷◌, if◌then◌else◌, keep,
}
use windforce_lite.Str.{Str, str_eq}
use windforce_lite.Table.{Table, get, put, delete_where, map_values, count, keys}
use windforce_lite.State.Types.{
  Run, RunState, Job, JobState, Snapshot, Time, terminal_run_state, retention_cutoff, is_settled,
}
use windforce_lite.State.Result.{Result, ok}

-- The run has settled, and before the cutoff of its outcome.
unfoldable pub is_outdated : Time → Time → Run → Bool
is_outdated success_older_than failure_older_than run =
    terminal_run_state run.state
    && ltb run.updated_at (retention_cutoff run.state success_older_than failure_older_than)

abbrev pub outdated_option : Time → Time → Option Run → Bool
outdated_option success_older_than failure_older_than none = false
outdated_option success_older_than failure_older_than (some run) =
    is_outdated success_older_than failure_older_than run

-- expiredRuns[id]
unfoldable pub in_expired_runs : Time → Time → Table Run → Str → Bool
in_expired_runs success_older_than failure_older_than runs id =
    outdated_option success_older_than failure_older_than (get id runs)

-- delete(snapshot.JobLogs, id) for every job of an expired run
abbrev pub log_expired : Time → Time → Snapshot → Option Job → Bool
log_expired success_older_than failure_older_than s none = false
log_expired success_older_than failure_older_than s (some job) =
    in_expired_runs success_older_than failure_older_than s.runs job.run_id

-- The result is the number of jobs removed. With no expired run every deletion is empty, which is
-- the early return.
unfoldable pub prune_settled_jobs : Time → Time → Snapshot → Time → Result (Snapshot × ℕ)
prune_settled_jobs success_older_than failure_older_than s now =
    let gone = in_expired_runs success_older_than failure_older_than s.runs in
    ok (
      record s {
        jobs = delete_where (λ id job. gone job.run_id) s.jobs;
        job_logs =
            delete_where
              (λ id log. log_expired success_older_than failure_older_than s (get id s.jobs))
              s.job_logs;
        human_tasks = delete_where (λ id task. gone task.run_id) s.human_tasks;
        events = keep (λ event. not (gone event.run_id)) s.events;
        runs = delete_where (λ id run. gone id) s.runs;
      },
      count (λ id job. gone job.run_id) s.jobs,
    )

-- run.State == RunQueued || run.State == RunRunning || run.State == RunResuming
abbrev pub is_active : RunState → Bool
is_active RunState.queued = true
is_active RunState.running = true
is_active RunState.resuming = true
is_active _ = false

-- The latest update of the run and its jobs.
unfoldable pub latest_update : Str → Time → Table Job → Time
latest_update run_id latest [] = latest
latest_update run_id latest ((id, job) ∷ jobs) =
    latest_update run_id
      (if str_eq job.run_id run_id && ltb latest job.updated_at then job.updated_at else latest)
      jobs

unfoldable pub is_stuck : Str → Run → Time → Table Job → Bool
is_stuck id run stuck_before jobs =
    is_active run.state && ltb (latest_update id run.updated_at jobs) stuck_before

-- A live job of the expired run fails; its lease stays as it is.
unfoldable pub expire_job : Str → Str → Time → Job → Job
expire_job run_id reason now job =
    if str_eq job.run_id run_id && not (is_settled job.state)
    then record job { state = JobState.failed; canceled_reason = some reason; updated_at = now }
    else job

unfoldable pub expire_run : Str → Str → Run → Time → Snapshot → Snapshot
unfolding expire_job
expire_run id reason run now s = record s {
  runs = put id (record run { state = RunState.expired; updated_at = now }) s.runs;
  jobs = map_values (expire_job id reason now) s.jobs;
}

unfoldable pub expire_if_stuck : Str → Str → Option Run → Time → Time → Snapshot → ℕ → Snapshot × ℕ
expire_if_stuck id reason none stuck_before now s expired = (s, expired)
expire_if_stuck id reason (some run) stuck_before now s expired =
    if is_stuck id run stuck_before s.jobs
    then (expire_run id reason run now s, suc expired)
    else (s, expired)

-- The range loop over the runs, which writes the run of the round and its jobs.
unfoldable pub expire_loop : List Str → Str → Time → Time → Snapshot → ℕ → Snapshot × ℕ
unfolding expire_if_stuck
expire_loop [] reason stuck_before now s expired = (s, expired)
expire_loop (id ∷ ids) reason stuck_before now s expired =
    let (s', expired') = expire_if_stuck id reason (get id s.runs) stuck_before now s expired in
    expire_loop ids reason stuck_before now s' expired'

-- `reason` is the text that names the cutoff. The result is the number of runs expired.
unfoldable pub expire_stuck_jobs : Str → Time → Snapshot → Time → Result (Snapshot × ℕ)
unfolding expire_loop
expire_stuck_jobs reason stuck_before s now =
    ok (expire_loop (keys s.runs) reason stuck_before now s 0)
