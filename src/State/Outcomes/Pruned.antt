-- ===== src/State/Outcomes/Pruned.antt =====
-- PruneSettledJobs: what retention removes, and what it never does.
use mathlib.Core.List.{Memᴰ}
use mathlib.Core.List.Memᴰ.{head, tail}
use windforce_lite.Prelude.{
  ℕ, suc, ◌+◌, ltb, not, ◌≡◌, refl, sym, ap, ◌∙◌, Bool, false, ◌&&◌, Option, none, some, List, [],
  ◌∷◌, arith, if◌then◌else◌, keep, All, Bool-cases, inl, inr,
}
use windforce_lite.Str.{Str}
use windforce_lite.Table.{Table, get, delete_where, count}
use windforce_lite.Table.Laws.{get-delete_where, get-delete_where-some, drop_if, AllEntries}
use windforce_lite.State.Types.{
  Run, RunState, RunEvent, Job, Snapshot, Time, is_settled, is_succeeded, terminal_run_state,
  retention_cutoff,
}
use windforce_lite.State.Result.{ok, Ensures-ok}
use windforce_lite.State.Ops.Retention.{
  prune_settled_jobs, is_outdated, in_expired_runs, outdated_option,
}
use windforce_lite.State.Consistent.{Inv}
use windforce_lite.State.Consistent.Ops.{active_not_terminal}

-- len(m)
pub size : Table Job → ℕ
size [] = 0
size (entry ∷ m) = suc (size m)

size-delete_where :
    (p : Str → Job → Bool) (m : Table Job) → size (delete_where p m) + count p m ≡ size m
unfolding size delete_where count
size-delete_where p [] = refl
size-delete_where p ((i, job) ∷ m) = ground (arith, size-delete_where p m)

-- The cutoff of a run that has settled, by its outcome.
abbrev cutoff_of : Time → Time → RunState → Option Time
cutoff_of success failure RunState.succeeded = some success
cutoff_of success failure RunState.failed = some failure
cutoff_of success failure RunState.canceled = some failure
cutoff_of success failure RunState.expired = some failure
cutoff_of success failure _ = none

abbrev is_older : Time → Option Time → Bool
is_older updated_at none = false
is_older updated_at (some cutoff) = ltb updated_at cutoff

-- The run has settled, and was last updated before the cutoff of its outcome.
abbrev pub has_aged : Time → Time → Run → Bool
has_aged success failure run = is_older run.updated_at (cutoff_of success failure run.state)

abbrev aged_option : Time → Time → Option Run → Bool
aged_option success failure none = false
aged_option success failure (some run) = has_aged success failure run

-- The run with the id has aged.
abbrev pub run_aged : Time → Time → Snapshot → Str → Bool
run_aged success failure s run_id = aged_option success failure (get run_id s.runs)

-- What PruneSettledJobs gives, by the snapshot before.
abbrev pub IsPruned : Time → Time → Str → Snapshot → Snapshot × ℕ → Type 0
IsPruned success failure id s (t, n) =
    (get id t.runs ≡ drop_if (has_aged success failure) (get id s.runs))
    × (get id t.jobs ≡ drop_if (λ job. run_aged success failure s job.run_id) (get id s.jobs))
    × (size t.jobs + n ≡ size s.jobs)
    × AllEntries (λ key task. run_aged success failure s task.run_id ≡ false) t.human_tasks
    × All {A = RunEvent} (λ event. run_aged success failure s event.run_id ≡ false) t.events
    × ((event : RunEvent)
        → Memᴰ event s.events
        → run_aged success failure s event.run_id ≡ false
        → Memᴰ event t.events)

is_outdated-has_aged : (x y : Time) (run : Run) → is_outdated x y run ≡ has_aged x y run
unfolding is_outdated retention_cutoff
is_outdated-has_aged x y run = by_state run.state
  where
    by_state :
        (state : RunState)
        → (terminal_run_state state && ltb run.updated_at (if is_succeeded state then x else y))
          ≡ is_older run.updated_at (cutoff_of x y state)
    by_state RunState.queued = refl
    by_state RunState.running = refl
    by_state RunState.waiting_human = refl
    by_state RunState.resuming = refl
    by_state RunState.succeeded = refl
    by_state RunState.failed = refl
    by_state RunState.canceled = refl
    by_state RunState.expired = refl

in_expired_runs-run_aged :
    (x y : Time) (s : Snapshot) (id : Str) → in_expired_runs x y s.runs id ≡ run_aged x y s id
unfolding in_expired_runs
in_expired_runs-run_aged x y s id = by_run (get id s.runs)
  where
    by_run : (o : Option Run) → outdated_option x y o ≡ aged_option x y o
    by_run none = refl
    by_run (some run) = is_outdated-has_aged x y run

drop_if_same {ℓ} :
    {V : Type ℓ} (p q : V → Bool) (o : Option V) → ((v : V) → p v ≡ q v) → drop_if p o ≡ drop_if q o
drop_if_same p q none h = refl
drop_if_same p q (some v) h = rw (h v) refl

runs_dropped :
    (x y : Time) (id : Str) (s : Snapshot)
    → drop_if (λ run. in_expired_runs x y s.runs id) (get id s.runs)
      ≡ drop_if (has_aged x y) (get id s.runs)
runs_dropped x y id s =
    ap (λ gone. drop_if (λ run. gone) (get id s.runs)) (in_expired_runs-run_aged x y s id)
    ∙ by_run (get id s.runs)
  where
    by_run : (o : Option Run) → drop_if (λ run. aged_option x y o) o ≡ drop_if (has_aged x y) o
    by_run none = refl
    by_run (some run) = refl

delete_where_none {ℓ} :
    {V : Type ℓ} (p q : V → Bool) (m : Table V)
    → ((v : V) → p v ≡ q v)
    → AllEntries (λ key v. q v ≡ false) (delete_where (λ key v. p v) m)
unfolding delete_where
delete_where_none p q [] h = tt
delete_where_none p q ((k, v) ∷ m) h = elim (Bool-cases (p v)) [
  | inl e ↦ rw e (delete_where_none p q m h)
  | inr e ↦ rw e (sym (h v) ∙ e, delete_where_none p q m h)
]

module _ {ℓ} {A : Type ℓ} (p q : A → Bool) (same : (a : A) → p a ≡ q a) where
  keep_none : (xs : List A) → All (λ a. q a ≡ false) (keep (λ a. not (p a)) xs)
  unfolding keep
  keep_none [] = tt
  keep_none (x ∷ xs) = elim (Bool-cases (p x)) [
    | inl e ↦ rw e (keep_none xs)
    | inr e ↦ rw e (sym (same x) ∙ e, keep_none xs)
  ]

  keep_rest : (a : A) (xs : List A) → Memᴰ a xs → q a ≡ false → Memᴰ a (keep (λ a. not (p a)) xs)
  unfolding keep
  keep_rest a [] m e = elim m [ ]
  keep_rest a (x ∷ xs) (head h) e =
      let kept : p x ≡ false = ap p (sym h) ∙ same a ∙ e in rw kept (head h)
  keep_rest a (x ∷ xs) (tail m) e = elim (Bool-cases (p x)) [
    | inl g ↦ rw g (keep_rest a xs m e)
    | inr g ↦ rw g (tail (keep_rest a xs m e))
  ]

-- PruneSettledJobs never fails. On a consistent snapshot it removes a run exactly if the run has
-- succeeded and was last updated before the cutoff for successes, or has failed, was canceled or
-- expired and was last updated before the cutoff for failures, and a job exactly if the run of the job
-- is removed; the number that it gives is that of the jobs removed. No task of a removed run remains,
-- and of the events exactly those of the removed runs go.
pub prune_settled_jobs_lem :
    (success_older_than failure_older_than : Time) (s : Snapshot) (now : Time) (id : Str)
    → Inv s
    → (t : Snapshot) × (n : ℕ) × (prune_settled_jobs success_older_than failure_older_than s now
        ≡ ok (t, n))
      × IsPruned success_older_than failure_older_than id s (t, n)
unfolding prune_settled_jobs
prune_settled_jobs_lem x y s now id c =
    let same = in_expired_runs-run_aged x y s in
    (
      _,
      _,
      refl,
      (
        get-delete_where id _ s.runs c.distinct_runs ∙ runs_dropped x y id s,
        get-delete_where id _ s.jobs c.distinct_jobs
            ∙ drop_if_same (λ job. in_expired_runs x y s.runs job.run_id)
                (λ job. run_aged x y s job.run_id) (get id s.jobs) (λ job. same job.run_id),
        size-delete_where _ s.jobs,
        delete_where_none (λ task. in_expired_runs x y s.runs task.run_id)
            (λ task. run_aged x y s task.run_id) s.human_tasks (λ task. same task.run_id),
        keep_none (λ event. in_expired_runs x y s.runs event.run_id)
            (λ event. run_aged x y s event.run_id) (λ event. same event.run_id) s.events,
        λ event m.
            keep_rest (λ event. in_expired_runs x y s.runs event.run_id)
              (λ event. run_aged x y s event.run_id) (λ event. same event.run_id) event s.events m,
      ),
    )

-- Retention never takes work away: a live job of a consistent snapshot, and its run, are there
-- unchanged after PruneSettledJobs, whatever the cutoffs are.
pub prune_keeps_live :
    (success_older_than failure_older_than : Time) (s : Snapshot) (now : Time) (t : Snapshot)
    (n : ℕ) (id : Str) (job : Job)
    → Inv s
    → prune_settled_jobs success_older_than failure_older_than s now ≡ ok (t, n)
    → get id s.jobs ≡ some job
    → is_settled job.state ≡ false
    → (run : Run) × (get id t.jobs ≡ some job)
      × (get job.run_id s.runs ≡ some run)
      × (get job.run_id t.runs ≡ some run)
unfolding prune_settled_jobs
prune_keeps_live x y s now t n id job c e there live =
    let (run, found, active) = c.live_active id job there live in
    let kept : outdated_option x y (get job.run_id s.runs) ≡ false =
      unfold is_outdated in rw found (ground (arith, active_not_terminal run.state)) in
    Ensures-ok
      (λ (r : Snapshot × ℕ).
        (run : Run) × (get id r.0.jobs ≡ some job)
        × (get job.run_id s.runs ≡ some run)
        × (get job.run_id r.0.runs ≡ some run))
      (prune_settled_jobs x y s now)
      (
        run,
        unfold in_expired_runs in get-delete_where-some id _ job s.jobs c.distinct_jobs there kept,
        found,
        unfold in_expired_runs in
            get-delete_where-some job.run_id _ run s.runs c.distinct_runs found kept,
      )
      e
