-- ===== src/State/Outcomes/Expiry.antt =====
-- ExpireStuckJobs: the loop over the runs expires exactly the runs that were stuck before it, in the
-- words of its own test and writes.
use windforce_lite.Prelude.{
  ℕ, suc, ltb, ◌≡◌, ◌≢◌, subst, refl, sym, ap, ◌∙◌, Bool, true, false, not, ◌&&◌, Option, none,
  some, List, [], ◌∷◌, arith, if◌then◌else◌, Bool-cases, inl, inr,
}
use windforce_lite.Str.{Str, str_dec, str_eq}
use windforce_lite.Table.{Table, get, map_values, keys, Distinct}
use windforce_lite.Table.Laws.{get-put_self, get-put_ne, get-map_values, map_option}
use windforce_lite.Contract.{contains}
use windforce_lite.State.Types.{Run, RunState, Job, Snapshot, Time, is_settled}
use windforce_lite.State.Result.{ok}
use windforce_lite.State.Ops.Retention.{
  expire_stuck_jobs, expire_loop, expire_if_stuck, expire_run, expire_job, is_stuck, latest_update,
}
use windforce_lite.State.Consistent.{Inv}

-- The later of a time and the last update of a job of the run.
abbrev pub newer : Str → Time → Job → Time
newer id latest job =
    if str_eq job.run_id id && ltb latest job.updated_at then job.updated_at else latest

-- No id of the list stands twice.
abbrev IsDistinct : List Str → Type 0
IsDistinct [] = Unit
IsDistinct (id ∷ ids) = (contains id ids ≡ false) × IsDistinct ids

module _ (reason : Str) (stuck_before now : Time) where
  -- The run is active, and neither it nor a job of it was updated since the cutoff.
  abbrev pub stuck_option : Str → Table Job → Option Run → Bool
  stuck_option id jobs none = false
  stuck_option id jobs (some run) = is_stuck id run stuck_before jobs

  abbrev pub is_stuck_in : Snapshot → Str → Bool
  is_stuck_in s id = stuck_option id s.jobs (get id s.runs)

  abbrev pub expired_run : Bool → Run → Run
  expired_run stuck run =
      if stuck then record run { state = RunState.expired; updated_at = now } else run

  abbrev pub expired_job : Bool → Job → Job
  expired_job stuck job = if stuck then expire_job job.run_id reason now job else job

  -- The expiry of another run does not show in the last update of a run.
  newer-expire_job :
      (id other : Str) (latest : Time) (job : Job)
      → str_eq other id ≡ false
      → newer id latest (expire_job other reason now job) ≡ newer id latest job
  unfolding expire_job
  newer-expire_job id other latest job h =
      elim (Bool-cases (str_eq job.run_id other && not (is_settled job.state))) [
        | inl e ↦
            let foreign : str_eq job.run_id id ≡ false = ground (arith, str_eq) in
            rw (e, foreign) refl
        | inr e ↦ rw e refl
      ]

  latest_update-other :
      (id other : Str) (latest : Time) (jobs : Table Job)
      → str_eq other id ≡ false
      → latest_update id latest (map_values (expire_job other reason now) jobs)
        ≡ latest_update id latest jobs
  unfolding latest_update map_values
  latest_update-other id other latest [] h = refl
  latest_update-other id other latest ((i, job) ∷ jobs) h =
      ap (λ l. latest_update id l (map_values (expire_job other reason now) jobs))
        (newer-expire_job id other latest job h)
      ∙ latest_update-other id other (newer id latest job) jobs h

  -- The runs and the jobs after the loop over some ids.
  record Expires (ids : List Str) (s t : Snapshot) : Type 0 where
    runs_after :
        (id : Str)
        → get id t.runs
          ≡ map_option (expired_run (contains id ids && is_stuck_in s id)) (get id s.runs)
    jobs_after :
        (id : Str)
        → get id t.jobs
          ≡ map_option
              (λ job. expired_job (contains job.run_id ids && is_stuck_in s job.run_id) job)
              (get id s.jobs)

  -- What the round of a stuck run leaves to the rounds of the others.
  stuck_after :
      (id other : Str) (run : Run) (s : Snapshot)
      → other ≢ id
      → is_stuck_in (expire_run other reason run now s) id ≡ is_stuck_in s id
  unfolding expire_run is_stuck
  stuck_after id other run s q =
      rw (get-put_ne id other (record run { state = RunState.expired; updated_at = now }) s.runs q)
        (by_run (get id s.runs))
    where
      by_run :
          (o : Option Run)
          → stuck_option id (map_values (expire_job other reason now) s.jobs) o
            ≡ stuck_option id s.jobs o
      by_run none = refl
      by_run (some r) = rw (latest_update-other id other r.updated_at s.jobs (ground arith)) refl

  -- The round of a run that is not stuck leaves the snapshot.
  skip_test :
      (id : Str) (ids : List Str) (s : Snapshot) (j : Str)
      → is_stuck_in s id ≡ false
      → (contains j (id ∷ ids) && is_stuck_in s j) ≡ (contains j ids && is_stuck_in s j)
  unfolding contains
  skip_test id ids s j h = elim (str_dec id j) [
    | yes p ↦ ground (arith, subst (λ i. is_stuck_in s i ≡ false) p h, str_eq)
    | no q ↦ ground (arith, str_eq)
  ]

  skip :
      (id : Str) (ids : List Str) (s t : Snapshot)
      → is_stuck_in s id ≡ false
      → Expires ids s t
      → Expires (id ∷ ids) s t
  skip id ids s t h x = record {
    runs_after = λ j. rw (skip_test id ids s j h) (x.runs_after j);
    jobs_after = λ j. x.jobs_after j ∙ by_job (get j s.jobs);
  }
    where
      by_job :
          (o : Option Job)
          → map_option
              (λ job. expired_job (contains job.run_id ids && is_stuck_in s job.run_id) job)
              o
            ≡ map_option
                (λ job.
                  expired_job (contains job.run_id (id ∷ ids) && is_stuck_in s job.run_id) job)
                o
      by_job none = refl
      by_job (some job) = ap (λ b. some (expired_job b job)) (sym (skip_test id ids s job.run_id h))

  -- The round of a stuck run: the run and its live jobs expire, and no later round sees them.
  runs_expired :
      (id : Str) (ids : List Str) (run : Run) (s : Snapshot) (j : Str)
      → contains id ids ≡ false
      → is_stuck_in s id ≡ true
      → get id s.runs ≡ some run
      → map_option
          (expired_run (contains j ids && is_stuck_in (expire_run id reason run now s) j))
          (get j (expire_run id reason run now s).runs)
        ≡ map_option (expired_run (contains j (id ∷ ids) && is_stuck_in s j)) (get j s.runs)
  unfolding contains
  runs_expired id ids run s j d h e = elim (str_dec id j) [
    | yes p ↦
        subst
          (λ j.
            map_option
              (expired_run (contains j ids && is_stuck_in (expire_run id reason run now s) j))
              (get j (expire_run id reason run now s).runs)
            ≡ map_option (expired_run (contains j (id ∷ ids) && is_stuck_in s j)) (get j s.runs))
          p
          (unfold expire_run in
            rw
              (
                get-put_self id (record run { state = RunState.expired; updated_at = now }) s.runs,
                d,
                h,
                e,
              )
              (ground arith))
    | no q ↦ rw (stuck_after j id run s q) (
        unfold expire_run in
        rw (get-put_ne j id (record run { state = RunState.expired; updated_at = now }) s.runs q) (
          ap (λ b. map_option (expired_run (b && is_stuck_in s j)) (get j s.runs))
            (ground (arith, str_eq))))
  ]

  expire_job-run_id : (id : Str) (job : Job) → (expire_job id reason now job).run_id ≡ job.run_id
  unfolding expire_job
  expire_job-run_id id job =
      elim (Bool-cases (str_eq job.run_id id && not (is_settled job.state))) [
        | inl e ↦ rw e refl
        | inr e ↦ rw e refl
      ]

  expire_job-other : (id : Str) (job : Job) → id ≢ job.run_id → expire_job id reason now job ≡ job
  unfolding expire_job
  expire_job-other id job q =
      let f : str_eq job.run_id id ≡ false = ground (arith, str_eq) in rw f refl

  job_expired :
      (id : Str) (ids : List Str) (run : Run) (s : Snapshot) (job : Job)
      → contains id ids ≡ false
      → is_stuck_in s id ≡ true
      → expired_job
          (contains (expire_job id reason now job).run_id ids
            && is_stuck_in (expire_run id reason run now s) (expire_job id reason now job).run_id)
          (expire_job id reason now job)
        ≡ expired_job (contains job.run_id (id ∷ ids) && is_stuck_in s job.run_id) job
  unfolding contains
  job_expired id ids run s job d h = elim (str_dec id job.run_id) [
    | yes p ↦
        ap
          (λ b.
            expired_job
              (b
                && is_stuck_in (expire_run id reason run now s)
                    (expire_job id reason now job).run_id)
              (expire_job id reason now job))
          (ap (λ i. contains i ids) (expire_job-run_id id job ∙ sym p) ∙ d)
        ∙ ap (λ i. expire_job i reason now job) p
        ∙ ap (λ b. expired_job b job) (sym (due p))
    | no q ↦
        rw (expire_job-other id job q, stuck_after job.run_id id run s q)
          (ap (λ b. expired_job (b && is_stuck_in s job.run_id) job) (ground (arith, str_eq)))
  ]
    where
      due : id ≡ job.run_id → (contains job.run_id (id ∷ ids) && is_stuck_in s job.run_id) ≡ true
      due p = ground (arith, str_eq, ap (is_stuck_in s) (sym p) ∙ h)

  stuck :
      (id : Str) (ids : List Str) (run : Run) (s t : Snapshot)
      → contains id ids ≡ false
      → is_stuck_in s id ≡ true
      → get id s.runs ≡ some run
      → Expires ids (expire_run id reason run now s) t
      → Expires (id ∷ ids) s t
  stuck id ids run s t d h e x = record {
    runs_after = λ j. x.runs_after j ∙ runs_expired id ids run s j d h e;
    jobs_after = λ j.
        x.jobs_after j
        ∙ (unfold expire_run in
            rw (get-map_values j (expire_job id reason now) s.jobs) (by_job (get j s.jobs)));
  }
    where
      by_job :
          (o : Option Job)
          → map_option
              (λ job.
                expired_job
                  (contains job.run_id ids
                    && is_stuck_in (expire_run id reason run now s) job.run_id)
                  job)
              (map_option (expire_job id reason now) o)
            ≡ map_option
                (λ job.
                  expired_job (contains job.run_id (id ∷ ids) && is_stuck_in s job.run_id) job)
                o
      by_job none = refl
      by_job (some job) = ap some (job_expired id ids run s job d h)

  expire_loop-Expires :
      (ids : List Str) (s : Snapshot) (expired : ℕ)
      → IsDistinct ids
      → Expires ids s (expire_loop ids reason stuck_before now s expired).0
  unfolding expire_loop expire_if_stuck
  expire_loop-Expires [] s expired d = record {
    runs_after = λ id. unfold contains in unchanged (get id s.runs);
    jobs_after = λ id. unfold contains in unchanged (get id s.jobs);
  }
    where
      unchanged : {A : Type 0} → (o : Option A) → o ≡ map_option (λ a. a) o
      unchanged none = refl
      unchanged (some a) = refl
  expire_loop-Expires (id ∷ ids) s expired d =
      by_run (get id s.runs) refl (λ s' n. expire_loop-Expires ids s' n d.1)
    where
      by_run :
          (o : Option Run)
          → get id s.runs ≡ o
          → ((s' : Snapshot) (n : ℕ)
              → Expires ids s' (expire_loop ids reason stuck_before now s' n).0)
          → let r = expire_if_stuck id reason o stuck_before now s expired in
            Expires (id ∷ ids) s (expire_loop ids reason stuck_before now r.0 r.1).0
      by_run none e rest = skip id ids s _ (rw e refl) (rest s expired)
      by_run (some run) e rest = elim (Bool-cases (is_stuck id run stuck_before s.jobs)) [
        | inl h ↦ rw h (
            stuck id ids run s _ d.0 (rw e h) e
              (rest (expire_run id reason run now s) (suc expired)))
        | inr h ↦ rw h (skip id ids s _ (rw e h) (rest s expired))
      ]

not_in-keys : (runs : Table Run) (id : Str) → get id runs ≡ none → contains id (keys runs) ≡ false
unfolding contains get
not_in-keys [] id e = refl
not_in-keys ((j, run) ∷ runs) id e = ground (arith, str_eq, not_in-keys runs id)

in-keys :
    (runs : Table Run) (id : Str) (run : Run)
    → get id runs ≡ some run
    → contains id (keys runs) ≡ true
unfolding contains get
in-keys [] id run e = cc
in-keys ((j, x) ∷ runs) id run e = ground (arith, str_eq, in-keys runs id run)

keys-IsDistinct : (runs : Table Run) → Distinct runs → IsDistinct (keys runs)
keys-IsDistinct [] d = tt
keys-IsDistinct ((i, run) ∷ runs) d = (not_in-keys runs i d.0, keys-IsDistinct runs d.1)

-- The loop over all runs, in terms of the code's own test and writes.
pub all_expired :
    (reason : Str) (stuck_before now : Time) (s : Snapshot) (id : Str)
    → Inv s
    → (t : Snapshot) × (n : ℕ) × (expire_stuck_jobs reason stuck_before s now ≡ ok (t, n))
      × (get id t.runs
          ≡ map_option
              (expired_run reason stuck_before now (is_stuck_in reason stuck_before now s id))
              (get id s.runs))
      × (get id t.jobs
          ≡ map_option
              (λ job.
                expired_job reason stuck_before now
                  (is_stuck_in reason stuck_before now s job.run_id)
                  job)
              (get id s.jobs))
unfolding expire_stuck_jobs
all_expired reason stuck_before now s id c =
    let x =
      expire_loop-Expires reason stuck_before now (keys s.runs) s 0
        (keys-IsDistinct s.runs c.distinct_runs) in
    (
      _,
      _,
      refl,
      x.runs_after id ∙ by_run (get id s.runs) refl,
      x.jobs_after id ∙ by_job (get id s.jobs),
    )
  where
    test :
        (j : Str) (o : Option Run)
        → get j s.runs ≡ o
        → (contains j (keys s.runs) && is_stuck_in reason stuck_before now s j)
          ≡ is_stuck_in reason stuck_before now s j
    test j none e = rw (not_in-keys s.runs j e, e) refl
    test j (some run) e = rw (in-keys s.runs j run e) refl

    by_run :
        (o : Option Run)
        → get id s.runs ≡ o
        → map_option
            (expired_run reason stuck_before now
              (contains id (keys s.runs) && is_stuck_in reason stuck_before now s id))
            (get id s.runs)
          ≡ map_option
              (expired_run reason stuck_before now (is_stuck_in reason stuck_before now s id))
              (get id s.runs)
    by_run o e =
        ap (λ b. map_option (expired_run reason stuck_before now b) (get id s.runs)) (test id o e)

    by_job :
        (o : Option Job)
        → map_option
            (λ job.
              expired_job reason stuck_before now
                (contains job.run_id (keys s.runs)
                  && is_stuck_in reason stuck_before now s job.run_id)
                job)
            o
          ≡ map_option
              (λ job.
                expired_job reason stuck_before now
                  (is_stuck_in reason stuck_before now s job.run_id)
                  job)
              o
    by_job none = refl
    by_job (some job) =
        ap (λ b. some (expired_job reason stuck_before now b job))
          (test job.run_id (get job.run_id s.runs) refl)
