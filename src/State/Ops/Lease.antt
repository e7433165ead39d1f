-- ===== src/State/Ops/Lease.antt =====
-- ClaimJobForWorker, HeartbeatJob and the return of expired leases.
use windforce_lite.Prelude.{
  ℕ, zero, suc, ◌+◌, ltb, leb, Bool, true, false, not, ◌&&◌, ◌==◌, Option, none, some, List, [],
  ◌∷◌, if◌then◌else◌, is_nil,
}
use windforce_lite.Prelude.Int.{ℤ, pos, negsuc}
use windforce_lite.Str.{Str, str, str_eq}
use windforce_lite.Table.{get, put, keys}
use windforce_lite.Json.{text, number, field, no_fields}
use windforce_lite.Sort.{sort}
use windforce_lite.State.Types.{
  Run, RunState, Job, JobState, Snapshot, Lease, HeartbeatResult, Time, not_found, no_queued_job,
  invalid_lease, is_running, cancel_worker_lost_message,
}
use windforce_lite.State.Result.{Result, ok, ◌>>=◌, ◌>>◌, guard, or_fail}
use windforce_lite.State.AtRest.{AtRest}
use windforce_lite.State.Events.{append_event, event_payload, one_text}
use windforce_lite.State.Claim.{normalize_claim_tags, candidates, claim_before, first_with_room}
use windforce_lite.State.Ops.Cancel.{settle_canceled, canceled_reason_value}

-- job.LeaseExpiresAt != nil && !job.LeaseExpiresAt.After(now)
abbrev pub lease_over : Option Time → Time → Bool
lease_over none now = false
lease_over (some t) now = leb t now

abbrev pub back_to_queue : Job → Time → Job
back_to_queue job now = record job {
  state = JobState.queued;
  lease_owner = [];
  lease_expires_at = none;
  started_at = none;
  updated_at = now;
}

-- A canceled job whose run is missing stays as it is.
abbrev pub return_canceled : AtRest → Job → Option Run → Str → Time → Snapshot → Result Snapshot
return_canceled rest job none by now s = ok s
return_canceled rest job (some run) by now s =
    settle_canceled rest job run by (canceled_reason_value job) cancel_worker_lost_message now s

-- A job whose worker was lost goes back to the queue, unless it was canceled meanwhile.
unfoldable pub return_job : AtRest → Str → Job → Option Str → Time → Snapshot → Result Snapshot
return_job rest id job none now s = ok (
    append_event job.run_id (str "job_lease_expired")
      (event_payload job.payload.correlation_id (one_text (str "jobId") job.id)) now
      (record s { jobs = put id (back_to_queue job now) s.jobs }))
return_job rest id job (some by) now s = return_canceled rest job (get job.run_id s.runs) by now s

unfoldable pub return_if_expired : AtRest → Str → Option Job → Time → Snapshot → Result Snapshot
unfolding return_job
return_if_expired rest id none now s = ok s
return_if_expired rest id (some job) now s =
    if is_running job.state && lease_over job.lease_expires_at now
    then return_job rest id job job.canceled_by now s
    else ok s

-- The range loop over the jobs, which writes the entry of the round only.
unfoldable pub return_expired : AtRest → List Str → Time → Snapshot → Result Snapshot
unfolding return_if_expired
return_expired rest [] now s = ok s
return_expired rest (id ∷ ids) now s =
    return_if_expired rest id (get id s.jobs) now s >>= return_expired rest ids now

unfoldable pub requeue_expired_jobs : AtRest → Snapshot → Time → Result Snapshot
unfolding return_expired
requeue_expired_jobs rest s now = return_expired rest (keys s.jobs) now s

-- 30 * time.Second
abbrev pub default_lease_time : ℕ
default_lease_time = 30_000_000_000

abbrev pub lease_time : ℤ → ℕ
lease_time (negsuc n) = default_lease_time
lease_time (pos zero) = default_lease_time
lease_time (pos (suc n)) = suc n

abbrev pub leased : Job → Str → Time → Time → Job
leased job worker_id expires now = record job {
  state = JobState.running;
  attempt = suc job.attempt;
  lease_owner = worker_id;
  lease_expires_at = some expires;
  started_at = some now;
  updated_at = now;
}

-- run.State == RunQueued || run.State == RunResuming
abbrev pub starts : RunState → Bool
starts RunState.queued = true
starts RunState.resuming = true
starts _ = false

-- The run of the claimed job starts to run; a run that is missing or runs already stays.
unfoldable pub start_run : Option Run → Str → Time → Snapshot → Snapshot
start_run none job_id now s = s
start_run (some run) job_id now s =
    if starts run.state
    then append_event run.id (str "run_running")
        (event_payload run.correlation_id (one_text (str "jobId") job_id)) now
        (record s {
          runs = put run.id (record run { state = RunState.running; updated_at = now }) s.runs;
        })
    else s

-- What ClaimJobForWorker writes for the job that it takes.
unfoldable pub take_job : Job → Str → ℕ → Snapshot → Time → Snapshot × Job × Lease
unfolding start_run
take_job job worker_id ttl s now =
    let job' = leased job worker_id (now + ttl) now in
    (
      append_event job'.run_id (str "job_claimed")
          (event_payload job'.payload.correlation_id (
            field (str "jobId") (text job'.id) (
              field (str "workerId") (text worker_id)
                (field (str "attempt") (number (pos job'.attempt)) no_fields))))
          now
          (start_run (get job'.run_id s.runs) job'.id now
            (record s { jobs = put job'.id job' s.jobs })),
      job',
      record {
        job_id = job'.id;
        worker_id = worker_id;
        expires_at = now + ttl;
        attempt = job'.attempt;
        acquired_at = now;
      },
    )

-- The job that the worker takes from the snapshot.
unfoldable pub pick_job : List Str → List Str → Snapshot → Option Job
pick_job tags labels s = first_with_room s (
    sort claim_before (candidates (normalize_claim_tags tags) (normalize_claim_tags labels) s.jobs))

-- `fresh` is what NewID("worker") gives. A job with the empty id reads as no job.
unfoldable pub claim_job_for_worker :
    AtRest → Str → Str → List Str → List Str → ℤ → Snapshot → Time → Result (Snapshot × Job × Lease)
claim_job_for_worker rest fresh worker_id tags labels lease_ttl s now = do
  s' ← requeue_expired_jobs rest s now
  job ← or_fail (pick_job tags labels s') no_queued_job
  guard (not (is_nil job.id)) no_queued_job
  ok (take_job job (if is_nil worker_id then fresh else worker_id) (lease_time lease_ttl) s' now)

-- The lease is the one under which the job runs.
abbrev pub owns : Lease → Job → Bool
owns lease job =
    is_running job.state && str_eq job.lease_owner lease.worker_id && job.attempt == lease.attempt

abbrev pub lost_lease : HeartbeatResult
lost_lease = record { canceled_by = none; canceled_reason = none; still_owned = false }

abbrev pub renewed : Job → Time → Time → Job
renewed job expires now = record job { lease_expires_at = some expires; updated_at = now }

abbrev pub heartbeat_found : Option Job → Lease → ℕ → Snapshot → Time → Snapshot × HeartbeatResult
heartbeat_found none lease ttl s now = (s, lost_lease)
heartbeat_found (some job) lease ttl s now =
    if owns lease job
    then (
      record s { jobs = put job.id (renewed job (now + ttl) now) s.jobs },
      record {
        canceled_by = job.canceled_by;
        canceled_reason = job.canceled_reason;
        still_owned = true;
      },
    )
    else (s, lost_lease)

unfoldable pub heartbeat_job : Lease → ℤ → Snapshot → Time → Result (Snapshot × HeartbeatResult)
heartbeat_job lease lease_ttl s now =
    ok (heartbeat_found (get lease.job_id s.jobs) lease (lease_time lease_ttl) s now)

-- job.LeaseExpiresAt != nil && job.LeaseExpiresAt.Before(now)
abbrev pub lease_before : Option Time → Time → Bool
lease_before none now = false
lease_before (some t) now = ltb t now

unfoldable pub leased_job_and_run : Snapshot → Lease → Time → Result (Job × Run)
leased_job_and_run s lease now = do
  job ← or_fail (get lease.job_id s.jobs) not_found
  guard (owns lease job) invalid_lease
  guard (not (lease_before job.lease_expires_at now)) invalid_lease
  run ← or_fail (get job.run_id s.runs) not_found
  ok (job, run)
