-- ===== src/State/Claims/Expired.antt =====
-- The return of expired leases: the loop over the jobs does to each job what `returned` says.
use windforce_lite.Prelude.{
  ◌≡◌, refl, sym, ap, ◌∙◌, subst, ite, Bool, true, false, ◌&&◌, leb, Option, none, some, List, [],
  ◌∷◌, arith, Bool-cases, inl, inr, if◌then◌else◌,
}
use windforce_lite.Str.{Str, str_dec, str_eq}
use windforce_lite.Table.{Table, get, put, keys}
use windforce_lite.Table.Laws.{get-put, map_option}
use windforce_lite.Contract.{contains}
use windforce_lite.State.Types.{
  Run, Job, JobState, Snapshot, Time, is_running, cancel_worker_lost_message,
}
use windforce_lite.State.Result.{ok, Ensures, Ensures-bind, Ensures-ok, Ensures-imp}
use windforce_lite.State.AtRest.{AtRest}
use windforce_lite.State.Events.{append_event}
use windforce_lite.State.Ops.Cancel.{
  settle_canceled, settled_by_cancel, canceled_reason_value, apply_canceled_job,
  encrypt_stored_run_result, encrypt_run, encrypt_present, encrypt_optional_result,
}
use windforce_lite.State.Ops.Lease.{
  return_job, return_canceled, return_if_expired, return_expired, requeue_expired_jobs, lease_over,
  back_to_queue,
}
use windforce_lite.State.Consistent.{Inv}
use windforce_lite.State.Consistent.Leases.{return_if_expired-Inv}

-- A lost job of the description: it goes back to the queue, or fails if it was canceled.
abbrev returned_lost : Time → Job → Option Str → Job
returned_lost now job none = back_to_queue job now
returned_lost now job (some by) = settled_by_cancel job by (canceled_reason_value job) now

abbrev is_lost : Time → Job → Bool
is_lost now job = is_running job.state && lease_over job.lease_expires_at now

-- What becomes of a job when expired leases are returned.
returned : Time → Job → Job
returned now job = if is_lost now job then returned_lost now job job.canceled_by else job

returned-returned : (now : Time) (job : Job) → returned now (returned now job) ≡ returned now job
unfolding returned
returned-returned now job = by_cancel job.canceled_by refl
  where
    by_cancel :
        (o : Option Str) → job.canceled_by ≡ o → returned now (returned now job) ≡ returned now job
    by_cancel none e = ground arith
    by_cancel (some by) e = ground arith

-- The jobs after a write of the snapshot `s`.
abbrev Jobs : Table Job → Snapshot → Type 0
Jobs m t = t.jobs ≡ m

encrypt_run-Jobs :
    (rest : AtRest) (workspace_id : Str) (o : Option Run) (run_id : Str) (s : Snapshot)
    → Ensures (Jobs s.jobs) (encrypt_run rest workspace_id o run_id s)
encrypt_run-Jobs rest workspace_id none run_id s = refl
encrypt_run-Jobs rest workspace_id (some run) run_id s =
    Ensures-bind (Jobs s.jobs) (encrypt_present rest workspace_id run.output) _ λ output _.
      Ensures-bind (Jobs s.jobs) (encrypt_optional_result rest workspace_id run.result) _
        λ result _. refl

pub settle_canceled-Jobs :
    (rest : AtRest) (job : Job) (run : Run) (by reason message : Str) (now : Time) (s : Snapshot)
    → Ensures
        (Jobs (put job.id (settled_by_cancel job by reason now) s.jobs))
        (settle_canceled rest job run by reason message now s)
unfolding settle_canceled encrypt_stored_run_result apply_canceled_job append_event
settle_canceled-Jobs rest job run by reason message now s = encrypt_run-Jobs rest _ _ run.id _

-- One round of the loop: the job of the round is returned, the others stay.
abbrev Round : Str → Time → Snapshot → Table Job → Type 0
Round id now s m =
    (j : Str)
    → get j m ≡ ite (str_dec id j) (map_option (returned now) (get j s.jobs)) (get j s.jobs)

stays :
    (id : Str) (now : Time) (s : Snapshot)
    → map_option (returned now) (get id s.jobs) ≡ get id s.jobs
    → Round id now s s.jobs
stays id now s h j = elim (str_dec id j) [
  | yes p ↦ ground (arith, subst (λ i. map_option (returned now) (get i s.jobs) ≡ get i s.jobs) p h)
  | no q ↦ ground arith
]

writes :
    (id : Str) (now : Time) (job : Job) (s : Snapshot) (m : Table Job)
    → get id s.jobs ≡ some job
    → m ≡ put id (returned now job) s.jobs
    → Round id now s m
writes id now job s m e w j =
    subst
      (λ m. get j m ≡ ite (str_dec id j) (map_option (returned now) (get j s.jobs)) (get j s.jobs))
      (sym w)
      (elim (str_dec id j) [
        | yes p ↦ ground (
          arith,
          get-put j id (returned now job) s.jobs,
          subst (λ i. get i s.jobs ≡ some job) p e,
        )
        | no q ↦ ground (arith, get-put j id (returned now job) s.jobs)
      ])

return_job-Round :
    (rest : AtRest) (id : Str) (job : Job) (by : Option Str) (now : Time) (s : Snapshot)
    → get id s.jobs ≡ some job
    → job.canceled_by ≡ by
    → is_lost now job ≡ true
    → Inv s
    → Ensures (λ t. Round id now s t.jobs) (return_job rest id job by now s)
unfolding return_job append_event
return_job-Round rest id job none now s e b l c =
    writes id now job s (put id (back_to_queue job now) s.jobs) e (ap (λ j. put id j s.jobs) lost)
  where
    lost : back_to_queue job now ≡ returned now job
    lost = unfold returned in rw (l, b) refl
return_job-Round rest id job (some by) now s e b l c = with_run (get job.run_id s.runs) refl
  where
    lost : settled_by_cancel job by (canceled_reason_value job) now ≡ returned now job
    lost = unfold returned in rw (l, b) refl

    with_run :
        (o : Option Run)
        → get job.run_id s.runs ≡ o
        → Ensures (λ t. Round id now s t.jobs) (return_canceled rest job o by now s)
    with_run none n =
        let (run, there, _) = c.live_active id job e (ground arith) in absurd (ground arith)
    with_run (some run) n =
        Ensures-imp
          (Jobs (put job.id (settled_by_cancel job by (canceled_reason_value job) now) s.jobs))
          (λ t. Round id now s t.jobs) _
          (λ t w. writes id now job s t.jobs e (
            w
            ∙ ap (λ k. put k (settled_by_cancel job by (canceled_reason_value job) now) s.jobs)
                (c.job_key id job e)
            ∙ ap (λ j. put id j s.jobs) lost))
          (settle_canceled-Jobs rest job run by (canceled_reason_value job)
            cancel_worker_lost_message now s)

return_if_expired-Round :
    (rest : AtRest) (id : Str) (now : Time) (s : Snapshot)
    → Inv s
    → Ensures (λ t. Round id now s t.jobs) (return_if_expired rest id (get id s.jobs) now s)
unfolding return_if_expired
return_if_expired-Round rest id now s c = by_job (get id s.jobs) refl
  where
    by_job :
        (o : Option Job)
        → get id s.jobs ≡ o
        → Ensures (λ t. Round id now s t.jobs) (return_if_expired rest id o now s)
    by_job none e = stays id now s (rw e refl)
    by_job (some job) e = elim (Bool-cases (is_lost now job)) [
      | inl l ↦ rw l (return_job-Round rest id job job.canceled_by now s e refl l c)
      | inr l ↦ rw l (stays id now s (rw e (ap some (unfold returned in rw l refl))))
    ]

returned_option :
    (now : Time) (o : Option Job)
    → map_option (returned now) (map_option (returned now) o) ≡ map_option (returned now) o
returned_option now none = refl
returned_option now (some job) = ap some (returned-returned now job)

-- The jobs of a snapshot after the loop over some ids.
Returns : List Str → Time → Snapshot → Snapshot → Type 0
Returns ids now s t =
    (j : Str)
    → get j t.jobs
      ≡ (if contains j ids then map_option (returned now) (get j s.jobs) else get j s.jobs)

then_rest :
    (id : Str) (ids : List Str) (now : Time) (s t u : Snapshot)
    → Round id now s t.jobs
    → Returns ids now t u
    → Returns (id ∷ ids) now s u
unfolding Returns contains
then_rest id ids now s t u r h j = elim (str_dec id j) [
  | yes p ↦ ground (arith, h j, r j, returned_option now (get j s.jobs), str_eq)
  | no q ↦ ground (arith, h j, r j, str_eq)
]

return_expired-Returns :
    (rest : AtRest) (ids : List Str) (now : Time) (s : Snapshot)
    → Inv s
    → Ensures (Returns ids now s) (return_expired rest ids now s)
unfolding return_expired Returns contains
return_expired-Returns rest [] now s c = λ j. refl
return_expired-Returns rest (id ∷ ids) now s c =
    Ensures-bind (Returns (id ∷ ids) now s) (return_if_expired rest id (get id s.jobs) now s) _
      λ t e.
        Ensures-imp (Returns ids now t) (Returns (id ∷ ids) now s) _
          (λ u.
            then_rest id ids now s t u (
              Ensures-ok (λ t. Round id now s t.jobs) _ (return_if_expired-Round rest id now s c)
                e))
          (return_expired-Returns rest ids now t
            (Ensures-ok Inv _ (return_if_expired-Inv rest id (get id s.jobs) now s refl c) e))

contains-keys : (j : Str) (m : Table Job) → contains j (keys m) ≡ false → get j m ≡ none
unfolding contains get
contains-keys j [] h = refl
contains-keys j ((i, x) ∷ m) h = elim (str_dec i j) [
  | yes p ↦ ground (arith, str_eq)
  | no q ↦ ground (arith, str_eq, contains-keys j m)
]

all_returned :
    (rest : AtRest) (s t : Snapshot) (now : Time) (id : Str)
    → Inv s
    → requeue_expired_jobs rest s now ≡ ok t
    → get id t.jobs ≡ map_option (returned now) (get id s.jobs)
unfolding requeue_expired_jobs Returns
all_returned rest s t now id c e =
    let h : Returns (keys s.jobs) now s t =
      Ensures-ok (Returns (keys s.jobs) now s) _ (return_expired-Returns rest (keys s.jobs) now s c)
        e in
    elim (Bool-cases (contains id (keys s.jobs))) [
      | inl x ↦ rw x at (h id)
      | inr x ↦ rw (contains-keys id s.jobs x) (rw (x, contains-keys id s.jobs x) at (h id))
    ]

-- A job, by its state, its lease, and who canceled it and why, when the time is `now`.
abbrev lease_ended : JobState → Option Time → Option Str → Option Str → Time → Job → Job
lease_ended JobState.running (some ends) none reason now job =
    if leb ends now
    then record job {
      state = JobState.queued;
      lease_owner = [];
      lease_expires_at = none;
      started_at = none;
      updated_at = now;
    }
    else job
lease_ended JobState.running (some ends) (some by) none now job =
    if leb ends now
    then record job {
      state = JobState.failed;
      lease_expires_at = none;
      canceled_by = some by;
      canceled_reason = some [];
      updated_at = now;
    }
    else job
lease_ended JobState.running (some ends) (some by) (some reason) now job =
    if leb ends now
    then record job {
      state = JobState.failed;
      lease_expires_at = none;
      canceled_by = some by;
      canceled_reason = some reason;
      updated_at = now;
    }
    else job
lease_ended _ _ _ _ now job = job

abbrev pub after_lease : Time → Job → Job
after_lease now job =
    lease_ended job.state job.lease_expires_at job.canceled_by job.canceled_reason now job

returned-eq-after_lease : (now : Time) (job : Job) → returned now job ≡ after_lease now job
unfolding returned canceled_reason_value
returned-eq-after_lease now job =
    by_field job.state job.lease_expires_at job.canceled_by job.canceled_reason refl
  where
    by_field :
        (state : JobState) (lease : Option Time) (by reason : Option Str)
        → job.canceled_reason ≡ reason
        → (if is_running state && lease_over lease now then returned_lost now job by else job)
          ≡ lease_ended state lease by reason now job
    by_field JobState.running (some ends) none reason e = refl
    by_field JobState.running (some ends) (some by) none e = rw e refl
    by_field JobState.running (some ends) (some by) (some reason) e = rw e refl
    by_field JobState.running none by reason e = refl
    by_field JobState.queued lease by reason e = refl
    by_field JobState.succeeded lease by reason e = refl
    by_field JobState.failed lease by reason e = refl

-- When the return of expired leases succeeds, every job of a consistent snapshot is afterwards what
-- `after_lease` makes of it: a running job whose lease ends by now is queued again without owner,
-- lease and start, or, if it was canceled meanwhile, has failed without a lease, with who canceled it
-- and why; every other job, and every other field of these, is as before.
pub requeue_expired_jobs_lem :
    (rest : AtRest) (s t : Snapshot) (now : Time) (id : Str)
    → Inv s
    → requeue_expired_jobs rest s now ≡ ok t
    → get id t.jobs ≡ map_option (after_lease now) (get id s.jobs)
requeue_expired_jobs_lem rest s t now id c e =
    all_returned rest s t now id c e ∙ by_job (get id s.jobs)
  where
    by_job : (o : Option Job) → map_option (returned now) o ≡ map_option (after_lease now) o
    by_job none = refl
    by_job (some job) = ap some (returned-eq-after_lease now job)
