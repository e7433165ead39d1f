-- ===== src/State/Consistent/Writes.antt =====
-- The writes that the operations make, and that each keeps the invariant.
use windforce_lite.Prelude.{◌≡◌, sym, ap, ◌∙◌, subst, ◌≢◌, inl, inr, Bool, true, false, some, arith}
use windforce_lite.Str.{Str, str_dec}
use windforce_lite.Table.{Table, get, put, map_values, delete_where}
use windforce_lite.Table.Laws.{
  get-put_self, get-put_ne, get-put_inv, get-map_values_inv, get-delete_where_inv,
  get-delete_where-some, put-Distinct, map_values-Distinct, delete_where-Distinct,
}
use windforce_lite.State.Types.{Run, Job, is_settled, is_running}
use windforce_lite.State.Ops.Retention.{is_active}
use windforce_lite.State.Consistent.{Consistent, IsLive, HasLease, IsActiveIn}

-- A write at a key keeps a property of all entries that the new entry has.
pub all-put {ℓ κ} :
    {V : Type ℓ} (P : Str → V → Type κ) (k : Str) (v : V) (m : Table V)
    → ((j : Str) (w : V) → get j m ≡ some w → P j w)
    → P k v
    → (j : Str) (w : V) → get j (put k v m) ≡ some w
    → P j w
all-put P k v m all new j w h = elim (get-put_inv j k v w m h) [
  | inl (p, q) ↦ subst (λ i. P i w) p (subst (P k) q new)
  | inr (_, e) ↦ all j w e
]

module _ {runs : Table Run} {jobs : Table Job} (c : Consistent runs jobs) where
  -- A run that is not active has no live job.
  pub not_live :
      (run_id : Str)
      → ((run : Run) → get run_id runs ≡ some run → is_active run.state ≡ false)
      → (id : Str) (job : Job) → get id jobs ≡ some job
      → IsLive job
      → job.run_id ≢ run_id
  not_live run_id h id job e l p =
      let (run, found, active) = c.live_active id job e l in ground (arith, h run)

  -- An entry of the runs is written that keeps its run active if it was.
  module _ (rid : Str) (run' : Run) (key : run'.id ≡ rid) where
    active-put :
        (active : (run : Run)
          → get rid runs ≡ some run
          → is_active run.state ≡ true
          → is_active run'.state ≡ true)
        → (id : Str) → IsActiveIn runs id
        → IsActiveIn (put rid run' runs) id
    active-put active id (run, found, a) = elim (str_dec rid id) [
      | yes p ↦ (run', rw (← p) (get-put_self rid run' runs), active run (rw p found) a)
      | no q ↦ (run, rw (get-put_ne id rid run' runs q) found, a)
    ]

    pub keep_run :
        ((run : Run)
          → get rid runs ≡ some run
          → is_active run.state ≡ true
          → is_active run'.state ≡ true)
        → Consistent (put rid run' runs) jobs
    keep_run active = record {
      distinct_runs = put-Distinct rid run' runs c.distinct_runs;
      distinct_jobs = c.distinct_jobs;
      run_key = all-put (λ id run. run.id ≡ id) rid run' runs c.run_key key;
      job_key = c.job_key;
      live_active = λ id job e l. active-put active job.run_id (c.live_active id job e l);
      live_unique = c.live_unique;
      running_leased = c.running_leased;
    }

    -- A run that no live job belongs to may change in any way.
    pub idle_run :
        ((id : Str) (job : Job) → get id jobs ≡ some job → IsLive job → job.run_id ≢ rid)
        → Consistent (put rid run' runs) jobs
    idle_run idle = record {
      distinct_runs = put-Distinct rid run' runs c.distinct_runs;
      distinct_jobs = c.distinct_jobs;
      run_key = all-put (λ id run. run.id ≡ id) rid run' runs c.run_key key;
      job_key = c.job_key;
      live_active = λ id job e l.
          let (run, found, a) = c.live_active id job e l in
          (run, rw (get-put_ne job.run_id rid run' runs (λ p. idle id job e l (sym p))) found, a);
      live_unique = c.live_unique;
      running_leased = c.running_leased;
    }

  module _ (jid : Str) (job' : Job) (key : job'.id ≡ jid)
      (active : IsLive job' → IsActiveIn runs job'.run_id)
      (alone : IsLive job'
        → (j : Str) (b : Job) → get j jobs ≡ some b
        → IsLive b
        → b.run_id ≡ job'.run_id
        → jid ≡ j)
      (leased : is_running job'.state ≡ true → HasLease job') where
    unique-put :
        (i j : Str) (a b : Job)
        → get i (put jid job' jobs) ≡ some a
        → get j (put jid job' jobs) ≡ some b
        → IsLive a
        → IsLive b
        → a.run_id ≡ b.run_id
        → i ≡ j
    unique-put i j a b ei ej la lb p = elim (get-put_inv i jid job' a jobs ei) [
      | inl (pi, qa) ↦ elim (get-put_inv j jid job' b jobs ej) [
        | inl (pj, qb) ↦ sym pi ∙ pj
        | inr (nj, fb) ↦ sym pi ∙ alone (subst IsLive (sym qa) la) j b fb lb (cc)
      ]
      | inr (ni, fa) ↦ elim (get-put_inv j jid job' b jobs ej) [
        | inl (pj, qb) ↦ sym (alone (subst IsLive (sym qb) lb) i a fa la (cc)) ∙ pj
        | inr (nj, fb) ↦ c.live_unique i j a b fa fb la lb p
      ]
    ]

    -- A job is written whose run is active and has no other live job, unless it is settled.
    pub put_job : Consistent runs (put jid job' jobs)
    put_job = record {
      distinct_runs = c.distinct_runs;
      distinct_jobs = put-Distinct jid job' jobs c.distinct_jobs;
      run_key = c.run_key;
      job_key = all-put (λ id job. job.id ≡ id) jid job' jobs c.job_key key;
      live_active =
          all-put (λ id job. IsLive job → IsActiveIn runs job.run_id) jid job' jobs c.live_active
            active;
      live_unique = unique-put;
      running_leased =
          all-put (λ id job. is_running job.state ≡ true → HasLease job) jid job' jobs
            c.running_leased leased;
    }

  module _ (jid : Str) (job job' : Job) (found : get jid jobs ≡ some job) (key : job'.id ≡ job.id)
      (same : job'.run_id ≡ job.run_id) where
    key_at : job'.id ≡ jid
    key_at = key ∙ c.job_key jid job found

    -- A job moves on, and is live only if it was.
    pub keep_job :
        (IsLive job' → IsLive job)
        → (is_running job'.state ≡ true → HasLease job')
        → Consistent runs (put jid job' jobs)
    keep_job live leased =
        put_job jid job' key_at
          (λ l. subst (IsActiveIn runs) (sym same) (c.live_active jid job found (live l)))
          (λ l j b e lb p. c.live_unique jid j job b found e (live l) lb (sym same ∙ sym p)) leased

    -- Once the live job of a run has settled, the run has no live job.
    pub settled_idle :
        IsLive job
        → is_settled job'.state ≡ true
        → (j : Str) (b : Job) → get j (put jid job' jobs) ≡ some b
        → IsLive b
        → b.run_id ≢ job.run_id
    settled_idle live settled j b e lb p = elim (get-put_inv j jid job' b jobs e) [
      | inl (_, q) ↦ cc (ap (λ (x : Job). is_settled x.state) q)
      | inr (n, f) ↦ n (c.live_unique jid j job b found f live lb (sym p))
    ]

  -- A range loop over the jobs that stops some of them.
  module _ (f : Job → Job) (key : (b : Job) → (f b).id ≡ b.id)
      (same : (b : Job) → (f b).run_id ≡ b.run_id) (live : (b : Job) → IsLive (f b) → IsLive b)
      (leased : (b : Job)
        → is_running (f b).state ≡ true
        → (is_running b.state ≡ true) × ((f b).lease_expires_at ≡ b.lease_expires_at)) where
    pub map_jobs : Consistent runs (map_values f jobs)
    map_jobs = record {
      distinct_runs = c.distinct_runs;
      distinct_jobs = map_values-Distinct f jobs c.distinct_jobs;
      run_key = c.run_key;
      job_key = λ id job e.
          let (b, found, q) = get-map_values_inv id f job jobs e in
          ap (λ (x : Job). x.id) (sym q) ∙ key b ∙ c.job_key id b found;
      live_active = λ id job e l.
          let (b, found, q) = get-map_values_inv id f job jobs e in
          subst (IsActiveIn runs) (sym (same b) ∙ ap (λ (x : Job). x.run_id) q)
            (c.live_active id b found (live b (subst IsLive (sym q) l)));
      live_unique = λ i j a b ei ej la lb p.
          let (a', fa, qa) = get-map_values_inv i f a jobs ei in
          let (b', fb, qb) = get-map_values_inv j f b jobs ej in
          c.live_unique i j a' b' fa fb (live a' (subst IsLive (sym qa) la))
            (live b' (subst IsLive (sym qb) lb)) (cc (same a', same b'));
      running_leased = λ id job e r.
          let (b, found, q) = get-map_values_inv id f job jobs e in
          let (was, kept) = leased b (subst (λ (x : Job). is_running x.state ≡ true) (sym q) r) in
          λ h. c.running_leased id b found was (cc);
    }

  -- Settled runs are deleted, with their jobs.
  module _ (gone : Str → Bool)
      (settled : (id : Str) (run : Run)
        → get id runs ≡ some run
        → gone id ≡ true
        → is_active run.state ≡ false) where
    pub delete_runs :
        Consistent
          (delete_where (λ id run. gone id) runs)
          (delete_where (λ id job. gone job.run_id) jobs)
    delete_runs = record {
      distinct_runs = delete_where-Distinct _ runs c.distinct_runs;
      distinct_jobs = delete_where-Distinct _ jobs c.distinct_jobs;
      run_key =
          λ id run e. c.run_key id run (get-delete_where_inv id _ run runs c.distinct_runs e).0;
      job_key =
          λ id job e. c.job_key id job (get-delete_where_inv id _ job jobs c.distinct_jobs e).0;
      live_active = λ id job e l.
          let (found, stays) = get-delete_where_inv id _ job jobs c.distinct_jobs e in
          let (run, there, a) = c.live_active id job found l in
          (
            run,
            get-delete_where-some job.run_id (λ i r. gone i) run runs c.distinct_runs there stays,
            a,
          );
      live_unique = λ i j a b ei ej.
          c.live_unique i j a b (get-delete_where_inv i _ a jobs c.distinct_jobs ei).0
            (get-delete_where_inv j _ b jobs c.distinct_jobs ej).0;
      running_leased = λ id job e.
          c.running_leased id job (get-delete_where_inv id _ job jobs c.distinct_jobs e).0;
    }
