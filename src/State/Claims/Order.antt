-- ===== src/State/Claims/Order.antt =====
-- The order of claims: a worker gets the first job of those that it may claim and that have room.
use windforce_lite.Prelude.{
  ◌≡◌, refl, true, false, ◌&&◌, none, some, List, [], ◌∷◌, arith, Bool-cases, inl, inr, ◌⊎◌, ◌≢◌,
  if_pos, if_neg, Option-cases, All, is_nil, sym, subst, ap,
}
use mathlib.Core.Option.{some-injective}
use windforce_lite.Prelude.Int.{ℤ}
use windforce_lite.Str.{Str, str_dec}
use windforce_lite.Str.Order.{str_ltb_asymm, str_ltb_weak}
use windforce_lite.Sort.{IsWeakOrder, sort-All_inv}
use windforce_lite.Table.{Table, get}
use windforce_lite.State.Types.{Job, Lease, Snapshot, Time, Err, is_queued}
use windforce_lite.State.Result.{ok, err, or_fail, Ensures-ok}
use windforce_lite.State.AtRest.{AtRest}
use windforce_lite.State.Claim.{
  claim_before, claim_allowed, candidates, first_with_room, max_concurrent_reached,
  normalize_claim_tags,
}
use windforce_lite.State.Ops.Lease.{pick_job, claim_job_for_worker, requeue_expired_jobs}
use windforce_lite.State.Consistent.{Inv}
use windforce_lite.State.Consistent.Leases.{Claimable, pick_job-Claimable, requeue_expired_jobs-Inv}

claim_before_asymm : (x y : Job) → claim_before x y ≡ true → claim_before y x ≡ false
unfolding claim_before
claim_before_asymm x y h = ground (arith, str_ltb_asymm x.id y.id)

claim_before_weak :
    (x y z : Job) → claim_before y x ≡ false → claim_before z y ≡ false → claim_before z x ≡ false
unfolding claim_before
claim_before_weak x y z h k = ground (arith, str_ltb_weak x.id y.id z.id)

pub claim_order : IsWeakOrder claim_before
claim_order = record { asymm = claim_before_asymm; trans = claim_before_weak }

get-cons :
    (id i : Str) (x job : Job) (jobs : Table Job)
    → get id ((i, x) ∷ jobs) ≡ some job
    → (x ≡ job) ⊎ (get id jobs ≡ some job)
unfolding get
get-cons id i x job jobs e = elim (str_dec i id) [
  | yes p ↦ inl (some-injective x job (rw (if_pos _ p) at e))
  | no p ↦ inr (rw (if_neg _ p) at e)
]

-- Every queued job that the worker may claim is a candidate.
get-candidates :
    (P : Job → Type 0) (tags labels : List Str) (jobs : Table Job) (id : Str) (job : Job)
    → All P (candidates tags labels jobs)
    → get id jobs ≡ some job
    → is_queued job.state ≡ true
    → claim_allowed job tags labels ≡ true
    → P job
unfolding candidates get
get-candidates P tags labels [] id job a e q h = cc
get-candidates P tags labels ((i, x) ∷ jobs) id job a e q h =
    elim (Bool-cases (is_queued x.state && claim_allowed x tags labels)) [
      | inl test ↦
          let a' : P x × All P (candidates tags labels jobs) = rw test at a in
          elim (get-cons id i x job jobs e) [
            | inl p ↦ subst P p a'.0
            | inr e' ↦ get-candidates P tags labels jobs id job a'.1 e' q h
          ]
      | inr test ↦
          let a' : All P (candidates tags labels jobs) = rw test at a in
          elim (get-cons id i x job jobs e) [
            | inl p ↦ cc (
              sym test,
              ap (λ (j : Job). is_queued j.state && claim_allowed j tags labels) p,
              passes,
            )
            | inr e' ↦ get-candidates P tags labels jobs id job a' e' q h
          ]
    ]
  where
    passes : (is_queued job.state && claim_allowed job tags labels) ≡ true
    passes = rw (q, h) refl

-- Without room every candidate's app is at its limit.
first_with_room-none :
    (s : Snapshot) (xs : List Job)
    → first_with_room s xs ≡ none
    → All (λ other. max_concurrent_reached s other ≡ true) xs
unfolding first_with_room
first_with_room-none s [] e = tt
first_with_room-none s (x ∷ xs) e = elim (Bool-cases (max_concurrent_reached s x)) [
  | inl r ↦ (r, first_with_room-none s xs (rw r at e))
  | inr r ↦ absurd (not_none (rw r at e))
]
  where
    not_none : some x ≢ none
    not_none p = cc

pick_job-none :
    (tags labels : List Str) (s : Snapshot)
    → pick_job tags labels s ≡ none
    → All
        (λ other. max_concurrent_reached s other ≡ true)
        (candidates (normalize_claim_tags tags) (normalize_claim_tags labels) s.jobs)
unfolding pick_job
pick_job-none tags labels s e = sort-All_inv claim_before _ _ (first_with_room-none s _ e)

-- The job is queued in the snapshot and the worker may claim it.
abbrev pub IsEligible : List Str → List Str → Snapshot → Job → Type 0
IsEligible tags labels s job =
    Claimable (normalize_claim_tags tags) (normalize_claim_tags labels) s job

-- A worker is turned away only if there is nothing for it: on a consistent snapshot, where the
-- expired leases are returned without an error and every job then has a non-empty id, a claim
-- that fails means that each queued job that the worker may claim belongs to an app at its
-- limit.
pub claim_refused_only_when_idle :
    (rest : AtRest) (fresh worker_id : Str) (tags labels : List Str) (lease_ttl : ℤ)
    (s before : Snapshot) (now : Time) (x : Err)
    → Inv s
    → requeue_expired_jobs rest s now ≡ ok before
    → ((id : Str) (job : Job) → get id before.jobs ≡ some job → is_nil job.id ≡ false)
    → claim_job_for_worker rest fresh worker_id tags labels lease_ttl s now ≡ err x
    → (id : Str) (other : Job) → get id before.jobs ≡ some other
    → is_queued other.state ≡ true
    → claim_allowed other (normalize_claim_tags tags) (normalize_claim_tags labels) ≡ true
    → max_concurrent_reached before other ≡ true
unfolding claim_job_for_worker
claim_refused_only_when_idle rest fresh worker_id tags labels lease_ttl s before now x c done named
      e id other there q a =
    elim (Option-cases (pick_job tags labels before)) [
      | inl nothing ↦
          get-candidates (λ j. max_concurrent_reached before j ≡ true) (normalize_claim_tags tags)
            (normalize_claim_tags labels) before.jobs id other
            (pick_job-none tags labels before nothing) there q a
      | inr (job, some_job) ↦
          let c' = Ensures-ok Inv _ (requeue_expired_jobs-Inv rest s now c) done in
          let found = pick_job-Claimable tags labels before c' some_job in
          absurd (not_err (rw (done, some_job, or_fail, named job.id job found.0.0) at e))
    ]
  where
    not_err : {r : Snapshot × Job × Lease} → ok r ≢ err x
    not_err p = cc
