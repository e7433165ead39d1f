-- ===== src/State/Outcomes/Requeued.antt =====
-- RequeueQueuedJobsForApp: queued jobs move to the tags of a new release, once.
use windforce_lite.Prelude.{
  ℕ, ◌≡◌, refl, ap, ◌∙◌, Bool, false, not, ◌&&◌, Option, none, some, [], ◌∷◌, is_nil, Bool-cases,
  inl, inr, arith,
}
use mathlib.Core.Option.{some-injective}
use windforce_lite.Str.{Str, str_eq, trim_space, trim_space-trim_space}
use windforce_lite.Table.{Table, get, map_values, count}
use windforce_lite.Table.Laws.{get-map_values, map_option}
use windforce_lite.Contract.{normalize_workspace}
use windforce_lite.State.Types.{Job, Snapshot, Time, RequeueAppSpec, is_queued}
use windforce_lite.State.Payload.{normalized_job_workspace, pinned_deployment}
use windforce_lite.State.Claim.{job_tag}
use windforce_lite.State.Result.{ok, Ensures-ok}
use windforce_lite.State.Ops.Enqueue.{
  requeue_queued_jobs_for_app, requeue_tag, retag, new_tag, action_matches, is_none,
}

-- A tag to move to is trimmed, not blank, and then the tag of the job.
new_tag-moved :
    (o : Option Str) (old tag : Str)
    → new_tag o old ≡ some tag
    → (trim_space tag ≡ tag) × (is_nil tag ≡ false) × (new_tag o tag ≡ none)
new_tag-moved none old tag e = cc
new_tag-moved (some value) old tag e = elim (Bool-cases (is_nil (trim_space value))) [
  | inl x ↦ cc (rw x at e)
  | inr x ↦ elim (Bool-cases (str_eq old (trim_space value))) [
    | inl y ↦ cc (rw (x, y) at e)
    | inr y ↦
        let same : trim_space value ≡ tag =
          some-injective (trim_space value) tag (rw (x, y) at e) in
        (rw⁻¹ same (trim_space-trim_space value), rw⁻¹ same x, rw x (ground (arith, str_eq, same)))
  ]
]

-- The job is one that the spec is about.
abbrev is_meant : RequeueAppSpec → Job → Bool
is_meant spec job =
    is_queued job.state
    && str_eq (normalized_job_workspace [] job) (normalize_workspace spec.workspace_id)
    && str_eq job.payload.app spec.app_key
    && action_matches spec.action_key job.payload.action

retag-meant :
    (spec : RequeueAppSpec) (now : Time) (job : Job) (tag : Str)
    → is_meant spec (retag now job (some tag)) ≡ is_meant spec job
unfolding normalized_job_workspace pinned_deployment
retag-meant spec now job tag = refl

requeue_tag-moved :
    (spec : RequeueAppSpec) (now : Time) (job : Job) (tag : Str)
    → requeue_tag spec job ≡ some tag
    → (trim_space tag ≡ tag)
      × (is_nil tag ≡ false)
      × (requeue_tag spec (retag now job (some tag)) ≡ none)
unfolding requeue_tag
requeue_tag-moved spec now job tag e = elim (Bool-cases (is_meant spec job)) [
  | inl x ↦
      let (trimmed, named, done) =
        new_tag-moved (get job.payload.action spec.action_tags) job.payload.tag tag (rw x at e) in
      (trimmed, named, rw (retag-meant spec now job tag ∙ x) done)
  | inr x ↦ cc (rw x at e)
]

requeue_tag-retag :
    (spec : RequeueAppSpec) (now : Time) (job : Job)
    → requeue_tag spec (retag now job (requeue_tag spec job)) ≡ none
requeue_tag-retag spec now job = by_tag (requeue_tag spec job) refl
  where
    by_tag : (o : Option Str) → requeue_tag spec job ≡ o → requeue_tag spec (retag now job o) ≡ none
    by_tag none e = e
    by_tag (some tag) e = (requeue_tag-moved spec now job tag e).2

-- Once the jobs have moved, none is left to move.
map_values-settled :
    (spec : RequeueAppSpec) (now later : Time) (jobs : Table Job)
    → map_values
        (λ job. retag later job (requeue_tag spec job))
        (map_values (λ job. retag now job (requeue_tag spec job)) jobs)
      ≡ map_values (λ job. retag now job (requeue_tag spec job)) jobs
unfolding map_values
map_values-settled spec now later [] = refl
map_values-settled spec now later ((id, job) ∷ jobs) =
    rw (requeue_tag-retag spec now job, map_values-settled spec now later jobs) refl

count-settled :
    (spec : RequeueAppSpec) (now : Time) (jobs : Table Job)
    → count
        (λ id job. not (is_none (requeue_tag spec job)))
        (map_values (λ job. retag now job (requeue_tag spec job)) jobs)
      ≡ 0
unfolding map_values count
count-settled spec now [] = refl
count-settled spec now ((id, job) ∷ jobs) =
    rw (requeue_tag-retag spec now job) (count-settled spec now jobs)

-- Where the spec moves a queued job to a tag, the job is afterwards claimed under that tag, and
-- to move the jobs again changes nothing: a second RequeueQueuedJobsForApp with the same spec
-- moves no job and leaves the snapshot.
pub requeue_queued_jobs_for_app_lem :
    (spec : RequeueAppSpec) (s t : Snapshot) (now later : Time) (n : ℕ) (id : Str) (job : Job)
    (tag : Str)
    → requeue_queued_jobs_for_app spec s now ≡ ok (t, n)
    → get id s.jobs ≡ some job
    → requeue_tag spec job ≡ some tag
    → (requeue_queued_jobs_for_app spec t later ≡ ok (t, 0))
      × ((moved : Job) × (get id t.jobs ≡ some moved) × (job_tag moved ≡ tag))
unfolding requeue_queued_jobs_for_app
requeue_queued_jobs_for_app_lem spec s t now later n id job tag e there moves =
    Ensures-ok
      (λ (r : Snapshot × ℕ).
        (requeue_queued_jobs_for_app spec r.0 later ≡ ok (r.0, 0))
        × ((moved : Job) × (get id r.0.jobs ≡ some moved) × (job_tag moved ≡ tag)))
      (requeue_queued_jobs_for_app spec s now) (again, (retag now job (some tag), found, tagged)) e
  where
    again :
        requeue_queued_jobs_for_app spec
          (record s { jobs = map_values (λ job. retag now job (requeue_tag spec job)) s.jobs })
          later
        ≡ ok
            (record s { jobs = map_values (λ job. retag now job (requeue_tag spec job)) s.jobs }, 0)
    again = rw (map_values-settled spec now later s.jobs, count-settled spec now s.jobs) refl

    found :
        get id (map_values (λ job. retag now job (requeue_tag spec job)) s.jobs)
        ≡ some (retag now job (some tag))
    found =
        get-map_values id (λ job. retag now job (requeue_tag spec job)) s.jobs
        ∙ ap (map_option (λ job. retag now job (requeue_tag spec job))) there
        ∙ ap (λ o. some (retag now job o)) moves

    tagged : job_tag (retag now job (some tag)) ≡ tag
    tagged =
        let (trimmed, named, _) = requeue_tag-moved spec now job tag moves in
        unfold job_tag in rw (trimmed, named) refl
