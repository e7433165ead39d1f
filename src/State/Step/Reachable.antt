-- ===== src/State/Step/Reachable.antt =====
-- What holds of every snapshot that the operations can reach.
use windforce_lite.Table.{get}
use windforce_lite.State.Types.{Snapshot}
use windforce_lite.State.Result.{Ensures-ok}
use windforce_lite.State.Consistent.{Inv}
use windforce_lite.State.Consistent.Ops.{FirstInv, LeadInv, cancel_job-Inv}
use windforce_lite.State.Consistent.Leases.{claim_job_for_worker-Inv, heartbeat_job-Inv}
use windforce_lite.State.Consistent.Completions.{
  complete_job_succeeded-Inv, complete_job_failed-Inv, complete_job_waiting_human-Inv,
}
use windforce_lite.State.Consistent.Starts.{
  create_run_and_enqueue-Inv, retry_run-Inv, resume_human_task-Inv,
}
use windforce_lite.State.Consistent.Stops.{
  cancel_run-Inv, requeue_queued_jobs_for_app-Inv, prune_settled_jobs-Inv, expire_stuck_jobs-Inv,
}
use windforce_lite.State.Step.{
  Step, create, claim, heartbeat, succeed, fail, wait, resume, cancel, stop, retry, requeue, prune,
  expire, Reach, here, next, new_snapshot,
}

-- Every step keeps the invariant of the queue.
pub Step-Inv : {s t : Snapshot} → Step s t → Inv s → Inv t
Step-Inv {s} {t} (create rest run job now a q k e) c =
    Ensures-ok Inv _ (create_run_and_enqueue-Inv rest run job s now a q k c) e
Step-Inv {s} {t} (claim rest fresh w tags labels ttl now job lease e) c =
    Ensures-ok LeadInv _ (claim_job_for_worker-Inv rest fresh w tags labels ttl s now c) e
Step-Inv {s} {t} (heartbeat lease ttl now r e) c =
    Ensures-ok FirstInv _ (heartbeat_job-Inv lease ttl s now c) e
Step-Inv {s} {t} (succeed rest lease result now e) c =
    Ensures-ok Inv _ (complete_job_succeeded-Inv rest lease s now c result) e
Step-Inv {s} {t} (fail rest lease result now e) c =
    Ensures-ok Inv _ (complete_job_failed-Inv rest lease s now c result) e
Step-Inv {s} {t} (wait rest fresh lease result task now e) c =
    Ensures-ok Inv _ (complete_job_waiting_human-Inv rest lease s now c fresh result task) e
Step-Inv {s} {t} (resume rest task_id input fresh now run job n e) c =
    Ensures-ok LeadInv _ (resume_human_task-Inv rest task_id input fresh s now c) e
Step-Inv {s} {t} (cancel rest workspace_id job_id by reason now r e) c =
    Ensures-ok FirstInv _ (cancel_job-Inv rest workspace_id job_id by reason s now c) e
Step-Inv {s} {t} (stop run_id reason now run e) c =
    Ensures-ok FirstInv _ (cancel_run-Inv run_id reason s now c) e
Step-Inv {s} {t} (retry rest run_id fresh now run job n e) c =
    Ensures-ok LeadInv _ (retry_run-Inv rest run_id fresh s now c) e
Step-Inv {s} {t} (requeue spec now n e) c =
    Ensures-ok FirstInv _ (requeue_queued_jobs_for_app-Inv spec s now c) e
Step-Inv {s} {t} (prune a b now n e) c =
    Ensures-ok FirstInv _ (prune_settled_jobs-Inv a b s now c) e
Step-Inv {s} {t} (expire reason before now n e) c =
    Ensures-ok FirstInv _ (expire_stuck_jobs-Inv reason before s now c) e

new_snapshot-Inv : Inv new_snapshot
unfolding get
new_snapshot-Inv = record {
  distinct_runs = tt;
  distinct_jobs = tt;
  run_key = λ id run e. cc;
  job_key = λ id job e. cc;
  live_active = λ id job e l. cc;
  live_unique = λ i j a b ei ej la lb p. cc;
  running_leased = λ id job e r. cc;
}

-- Every snapshot that the store reaches from the empty one by its operations is consistent,
-- where runs are created active with a queued job of theirs and new jobs get ids that are not in
-- use: the keys of runs and jobs are their ids and stand once, a live job belongs to an active
-- run, a run has at most one live job, and a running job has a lease that ends.
pub Reach-Inv : {s : Snapshot} → Reach new_snapshot s → Inv s
Reach-Inv here = new_snapshot-Inv
Reach-Inv (next r st) = Step-Inv st (Reach-Inv r)
