-- ===== src/State/Consistent.antt =====
-- The invariant of the queue: what holds of the runs and the jobs between two operations.
pub mod Ops
pub mod Stops
pub mod Leases
pub mod Completions
pub mod Starts
pub mod Writes
pub mod Moves
use windforce_lite.Prelude.{◌≡◌, Bool, true, false, Option, none, some, ◌≢◌}
use windforce_lite.Str.{Str}
use windforce_lite.Table.{Table, get, Distinct}
use windforce_lite.State.Types.{Run, Job, Time, Snapshot, is_settled, is_running}
use windforce_lite.State.Ops.Retention.{is_active}

-- The job may still be claimed or run.
abbrev pub IsLive : Job → Type 0
IsLive job = is_settled job.state ≡ false

abbrev pub HasLease : Job → Type 0
HasLease job = job.lease_expires_at ≢ none

-- The run is there and neither waits for a human nor has settled.
abbrev pub IsActiveIn : Table Run → Str → Type 0
IsActiveIn runs run_id = (run : Run) × (get run_id runs ≡ some run) × (is_active run.state ≡ true)

pub record Consistent (runs : Table Run) (jobs : Table Job) : Type 0 where
  pub distinct_runs : Distinct runs
  pub distinct_jobs : Distinct jobs
  pub run_key : (id : Str) (run : Run) → get id runs ≡ some run → run.id ≡ id
  pub job_key : (id : Str) (job : Job) → get id jobs ≡ some job → job.id ≡ id
  -- A live job belongs to an active run.
  pub live_active :
      (id : Str) (job : Job) → get id jobs ≡ some job → IsLive job → IsActiveIn runs job.run_id
  -- A run has one live job at most.
  pub live_unique :
      (i j : Str) (a b : Job)
      → get i jobs ≡ some a
      → get j jobs ≡ some b
      → IsLive a
      → IsLive b
      → a.run_id ≡ b.run_id
      → i ≡ j
  -- A running job has a lease, so a lost worker is noticed.
  pub running_leased :
      (id : Str) (job : Job) → get id jobs ≡ some job → is_running job.state ≡ true → HasLease job

abbrev pub Inv : Snapshot → Type 0
Inv s = Consistent s.runs s.jobs
