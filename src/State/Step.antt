-- ===== src/State/Step.antt =====
-- The life of the store: every successful operation is a step from one snapshot to the next. A
-- failed operation writes nothing (`update` in internal/state/local_store.go), so it is no step.
pub mod Reachable
use windforce_lite.Prelude.{ℕ, ◌≡◌, true, none, List, []}
use windforce_lite.Prelude.Int.{ℤ}
use windforce_lite.Str.{Str}
use windforce_lite.Table.{get}
use windforce_lite.Json.{Raw}
use windforce_lite.Contract.{JobResult}
use windforce_lite.State.Types.{
  Run, Job, Lease, HeartbeatResult, HumanTask, CancelResult, RequeueAppSpec, Snapshot, Time,
  is_queued,
}
use windforce_lite.State.Result.{ok}
use windforce_lite.State.AtRest.{AtRest}
use windforce_lite.State.Ops.Enqueue.{
  create_run_and_enqueue, retry_run, requeue_queued_jobs_for_app,
}
use windforce_lite.State.Ops.Cancel.{cancel_job, cancel_run}
use windforce_lite.State.Ops.Lease.{claim_job_for_worker, heartbeat_job}
use windforce_lite.State.Ops.Complete.{
  complete_job_succeeded, complete_job_failed, complete_job_waiting_human,
}
use windforce_lite.State.Ops.Human.{resume_human_task, resume_run}
use windforce_lite.State.Ops.Retention.{prune_settled_jobs, expire_stuck_jobs, is_active}

-- The encryption may differ from step to step, as keys rotate. NewID draws a job id that is new.
pub data Step (s t : Snapshot) : Type 0 where
  -- The callers make the run and the job by NewRun and NewActionJob.
  create :
      (rest : AtRest) (run : Run) (job : Job) (now : Time)
      → is_active run.state ≡ true
      → is_queued job.state ≡ true
      → job.run_id ≡ run.id
      → create_run_and_enqueue rest run job s now ≡ ok t
      → Step s t
  claim :
      (rest : AtRest) (fresh worker_id : Str) (tags labels : List Str) (lease_ttl : ℤ) (now : Time)
      (job : Job) (lease : Lease)
      → claim_job_for_worker rest fresh worker_id tags labels lease_ttl s now ≡ ok (t, job, lease)
      → Step s t
  heartbeat :
      (lease : Lease) (lease_ttl : ℤ) (now : Time) (r : HeartbeatResult)
      → heartbeat_job lease lease_ttl s now ≡ ok (t, r)
      → Step s t
  succeed :
      (rest : AtRest) (lease : Lease) (result : JobResult) (now : Time)
      → complete_job_succeeded rest lease result s now ≡ ok t
      → Step s t
  fail :
      (rest : AtRest) (lease : Lease) (result : JobResult) (now : Time)
      → complete_job_failed rest lease result s now ≡ ok t
      → Step s t
  wait :
      (rest : AtRest) (fresh : Str) (lease : Lease) (result : JobResult) (task : HumanTask)
      (now : Time)
      → complete_job_waiting_human rest fresh lease result task s now ≡ ok t
      → Step s t
  resume :
      (rest : AtRest) (task_id : Str) (input : Raw) (fresh : Str) (now : Time) (run : Run)
      (job : Job)
      → get fresh s.jobs ≡ none
      → resume_human_task rest task_id input fresh s now ≡ ok (t, run, job)
      → Step s t
  cancel :
      (rest : AtRest) (workspace_id job_id by reason : Str) (now : Time) (r : CancelResult)
      → cancel_job rest workspace_id job_id by reason s now ≡ ok (t, r)
      → Step s t
  stop :
      (run_id reason : Str) (now : Time) (run : Run)
      → cancel_run run_id reason s now ≡ ok (t, run)
      → Step s t
  retry :
      (rest : AtRest) (run_id fresh : Str) (now : Time) (run : Run) (job : Job)
      → get fresh s.jobs ≡ none
      → retry_run rest run_id fresh s now ≡ ok (t, run, job)
      → Step s t
  requeue :
      (spec : RequeueAppSpec) (now : Time) (n : ℕ)
      → requeue_queued_jobs_for_app spec s now ≡ ok (t, n)
      → Step s t
  prune :
      (success_older_than failure_older_than now : Time) (n : ℕ)
      → prune_settled_jobs success_older_than failure_older_than s now ≡ ok (t, n)
      → Step s t
  expire :
      (reason : Str) (stuck_before now : Time) (n : ℕ)
      → expire_stuck_jobs reason stuck_before s now ≡ ok (t, n)
      → Step s t

-- newSnapshot
abbrev pub new_snapshot : Snapshot
new_snapshot = record {
  sequence = 0;
  runs = [];
  jobs = [];
  human_tasks = [];
  events = [];
  job_logs = [];
}

pub data Reach (s : Snapshot) : Snapshot → Type 0 where
  here : Reach s s
  next : {t u : Snapshot} → Reach s t → Step t u → Reach s u
