-- ===== src/State/Consistent/Moves.antt =====
-- The two moves of a run and a job together: the job settles and the run follows, or the run is
-- taken up with a new job.
use windforce_lite.Prelude.{◌≡◌, sym, ◌∙◌, subst, true, false, some, arith, refl}
use windforce_lite.Str.{Str}
use windforce_lite.Table.{Table, get, put}
use windforce_lite.Table.Laws.{get-put_self}
use windforce_lite.State.Types.{Run, Job, is_settled, is_queued}
use windforce_lite.State.Ops.Retention.{is_active}
use windforce_lite.State.Consistent.{Consistent, IsLive}
use windforce_lite.State.Consistent.Writes.{keep_job, settled_idle, idle_run, not_live, put_job}

module _ {runs : Table Run} {jobs : Table Job} (c : Consistent runs jobs) where
  pub job_at_id : (jid : Str) (job : Job) → get jid jobs ≡ some job → get job.id jobs ≡ some job
  job_at_id jid job found = subst (λ k. get k jobs ≡ some job) (sym (c.job_key jid job found)) found

  pub run_at_id : (rid : Str) (run : Run) → get rid runs ≡ some run → get run.id runs ≡ some run
  run_at_id rid run found = subst (λ k. get k runs ≡ some run) (sym (c.run_key rid run found)) found

  pub settle_job :
      (jid : Str) (job job' : Job) (run run' : Run)
      → get jid jobs ≡ some job
      → get job.run_id runs ≡ some run
      → IsLive job
      → is_settled job'.state ≡ true
      → job'.id ≡ job.id
      → job'.run_id ≡ job.run_id
      → run'.id ≡ run.id
      → Consistent (put run.id run' runs) (put job.id job' jobs)
  settle_job jid job job' run run' fj fr live settled ki ks kr =
      idle_run kept run.id run' kr λ id b e l p.
        settled_idle c job.id job job' at ki ks live settled id b e l
          (p ∙ c.run_key job.run_id run fr)
    where
      at : get job.id jobs ≡ some job
      at = job_at_id jid job fj

      kept : Consistent runs (put job.id job' jobs)
      kept = keep_job c job.id job job' at ki ks (λ l. cc) (λ r. ground arith)

  pub enqueue_job :
      (run' : Run) (job' : Job)
      → ((run : Run) → get run'.id runs ≡ some run → is_active run.state ≡ false)
      → is_active run'.state ≡ true
      → is_queued job'.state ≡ true
      → job'.run_id ≡ run'.id
      → Consistent (put run'.id run' runs) (put job'.id job' jobs)
  enqueue_job run' job' idle active queued same =
      put_job taken job'.id job' refl
        (λ l. (run', rw same (get-put_self run'.id run' runs), active))
        (λ l j b e lb p. absurd (not_live c run'.id idle j b e lb (p ∙ same))) (λ r. ground arith)
    where
      taken : Consistent (put run'.id run' runs) jobs
      taken = idle_run c run'.id run' refl (not_live c run'.id idle)
