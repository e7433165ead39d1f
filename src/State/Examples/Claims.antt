-- ===== src/State/Examples/Claims.antt =====
-- The claim of the one job, and what follows from it.
use windforce_lite.Prelude.{
  ◌≡◌, refl, true, false, Option, none, some, [], ◌∷◌, ◌≤◌, ◌<◌, ◌∙◌, sym, is_nil, arith,
  ℕ_discrete,
}
use windforce_lite.Prelude.Int.{ℤ, pos}
use windforce_lite.Str.{Str, str, str_dec, trim_space}
use windforce_lite.Table.{get, put, count}
use windforce_lite.Table.Laws.{map_option}
use windforce_lite.Json.{set_field}
use windforce_lite.Contract.{
  effective_required_labels, normalize_workspace, source_workspace, source_git_source_id,
  normalize_git_source_id, JobResult,
}
use windforce_lite.Sort.{sort, insert}
use windforce_lite.State.Types.{
  Run, Job, HumanTask, Snapshot, actor_created_by, actor_permissioned_as, invalid_lease, is_queued,
  no_queued_job,
}
use windforce_lite.State.Payload.{
  new_action_job, find_action, pinned_deployment, normalized_job_workspace,
}
use windforce_lite.State.Result.{ok, err}
use windforce_lite.State.AtRest.{AtRest}
use windforce_lite.State.Events.{append_event, event_payload}
use windforce_lite.State.Claim.{
  first_with_room, candidates, claim_allowed, normalize_claim_tags, covers, job_required_labels,
  max_concurrent_reached, job_max_concurrent, job_app_key, running_count, runs_app,
}
use windforce_lite.State.Ops.Enqueue.{stamped_job, create_run_and_enqueue}
use windforce_lite.State.Ops.Lease.{
  claim_job_for_worker, requeue_expired_jobs, return_expired, return_if_expired, return_job,
  pick_job, take_job, start_run, heartbeat_job, leased_job_and_run, lost_lease, back_to_queue,
}
use windforce_lite.State.Ops.Complete.{
  complete_job_succeeded, complete_job_failed, complete_job_waiting_human,
}
use windforce_lite.State.Step.{Step, create, claim, here, next}
use windforce_lite.State.Step.Reachable.{Reach-Inv, Step-Inv}
use windforce_lite.State.Consistent.{Inv}
use windforce_lite.State.History.{Follows}
use windforce_lite.State.History.Steps.{Step-Follows, Track}
use windforce_lite.State.History.Fencing.{fenced_lease, claimed_lease_accepted}
use windforce_lite.State.Claims.Order.{claim_refused_only_when_idle}
use windforce_lite.State.Claims.Room.{claim_within_limit}
use windforce_lite.State.Claims.Expired.{requeue_expired_jobs_lem, after_lease}
use windforce_lite.State.Examples.{
  plain, run_1, job_1, value, created, creates, created-Inv, lease_0, claims, claiming,
}

claim-Step : Step created claims.0
claim-Step = claim plain [] (str "w") [] [] (pos 100) 3 claims.1 claims.2 claiming

pub running-Inv : Inv claims.0
running-Inv = Step-Inv claim-Step created-Inv

Reach-Inv_example : Inv claims.0
Reach-Inv_example = Reach-Inv (
    next
      (next here (
        create plain run_1 job_1 2 refl (unfold new_action_job in refl)
          (unfold new_action_job in refl) creates))
      claim-Step)

abbrev or_job : Option Job → Job
or_job none = job_1
or_job (some job) = job

abbrev queued_job : Job
queued_job = or_job (get (str "j") created.jobs)

found_queued : get (str "j") created.jobs ≡ some queued_job
unfolding create_run_and_enqueue get put str_dec ℕ_discrete append_event new_action_job
found_queued = refl

pub found_running : get (str "j") claims.0.jobs ≡ some claims.1
unfolding claim_job_for_worker create_run_and_enqueue stamped_job get put str_dec ℕ_discrete
    append_event event_payload set_field new_action_job find_action actor_created_by
    actor_permissioned_as requeue_expired_jobs return_expired return_if_expired pick_job
    first_with_room sort insert candidates claim_allowed normalize_claim_tags covers
    job_required_labels effective_required_labels max_concurrent_reached job_max_concurrent
    pinned_deployment job_app_key normalized_job_workspace normalize_workspace source_workspace
    source_git_source_id normalize_git_source_id trim_space running_count runs_app count take_job
    start_run
found_running = refl

lease_job : claims.2.job_id ≡ str "j"
unfolding claim_job_for_worker create_run_and_enqueue stamped_job get put str_dec ℕ_discrete
    append_event event_payload set_field new_action_job find_action actor_created_by
    actor_permissioned_as requeue_expired_jobs return_expired return_if_expired pick_job
    first_with_room sort insert candidates claim_allowed normalize_claim_tags covers
    job_required_labels effective_required_labels max_concurrent_reached job_max_concurrent
    pinned_deployment job_app_key normalized_job_workspace normalize_workspace source_workspace
    source_git_source_id normalize_git_source_id trim_space running_count runs_app count take_job
    start_run
lease_job = refl

Step-Follows_example : Follows queued_job claims.1
Step-Follows_example =
    Step-Follows (str "j") queued_job claims.1 claim-Step created-Inv found_queued found_running

older : lease_0.attempt < claims.2.attempt
unfolding claim_job_for_worker create_run_and_enqueue stamped_job get put str_dec ℕ_discrete
    append_event event_payload set_field new_action_job find_action actor_created_by
    actor_permissioned_as requeue_expired_jobs return_expired return_if_expired pick_job
    first_with_room sort insert candidates claim_allowed normalize_claim_tags covers
    job_required_labels effective_required_labels max_concurrent_reached job_max_concurrent
    pinned_deployment job_app_key normalized_job_workspace normalize_workspace source_workspace
    source_git_source_id normalize_git_source_id trim_space running_count runs_app count take_job
    start_run
older = omega arith

-- A lease of the job from before the claim opens nothing.
fenced_lease_example :
    ((rest' : AtRest) (result : JobResult)
      → complete_job_succeeded rest' lease_0 result claims.0 4 ≡ err invalid_lease)
    × ((rest' : AtRest) (result : JobResult)
        → complete_job_failed rest' lease_0 result claims.0 4 ≡ err invalid_lease)
    × ((rest' : AtRest) (fresh' : Str) (result : JobResult) (task : HumanTask)
        → complete_job_waiting_human rest' fresh' lease_0 result task claims.0 4
          ≡ err invalid_lease)
    × ((ttl : ℤ) → heartbeat_job lease_0 ttl claims.0 4 ≡ ok (claims.0, lost_lease))
fenced_lease_example =
    fenced_lease plain [] (str "w") [] [] (pos 100) created 3 claims.0 claims.1 claims.2 created-Inv
      claiming claims.0 lease_0 4 Track.here (sym lease_job) older

in_time : 103 ≤ claims.2.expires_at
unfolding claim_job_for_worker create_run_and_enqueue stamped_job get put str_dec ℕ_discrete
    append_event event_payload set_field new_action_job find_action actor_created_by
    actor_permissioned_as requeue_expired_jobs return_expired return_if_expired pick_job
    first_with_room sort insert candidates claim_allowed normalize_claim_tags covers
    job_required_labels effective_required_labels max_concurrent_reached job_max_concurrent
    pinned_deployment job_app_key normalized_job_workspace normalize_workspace source_workspace
    source_git_source_id normalize_git_source_id trim_space running_count runs_app count take_job
    start_run
in_time = omega arith

claimed_lease_accepted_example :
    (run : Run) × (get claims.1.run_id claims.0.runs ≡ some run)
    × (leased_job_and_run claims.0 claims.2 103 ≡ ok (claims.1, run))
claimed_lease_accepted_example =
    claimed_lease_accepted plain [] (str "w") [] [] (pos 100) created 3 claims.0 claims.1 claims.2
      created-Inv claiming 103 in_time

limit_one : job_max_concurrent claims.1 ≡ some 1
unfolding claim_job_for_worker create_run_and_enqueue stamped_job get put str_dec ℕ_discrete
    append_event event_payload set_field new_action_job find_action actor_created_by
    actor_permissioned_as requeue_expired_jobs return_expired return_if_expired pick_job
    first_with_room sort insert candidates claim_allowed normalize_claim_tags covers
    job_required_labels effective_required_labels max_concurrent_reached job_max_concurrent
    pinned_deployment job_app_key normalized_job_workspace normalize_workspace source_workspace
    source_git_source_id normalize_git_source_id trim_space running_count runs_app count take_job
    start_run
limit_one = refl

app_named : is_nil (job_app_key claims.1) ≡ false
unfolding claim_job_for_worker create_run_and_enqueue stamped_job get put str_dec ℕ_discrete
    append_event event_payload set_field new_action_job find_action actor_created_by
    actor_permissioned_as requeue_expired_jobs return_expired return_if_expired pick_job
    first_with_room sort insert candidates claim_allowed normalize_claim_tags covers
    job_required_labels effective_required_labels max_concurrent_reached job_max_concurrent
    pinned_deployment job_app_key normalized_job_workspace normalize_workspace source_workspace
    source_git_source_id normalize_git_source_id trim_space running_count runs_app count take_job
    start_run
app_named = refl

claim_within_limit_example :
    running_count (normalized_job_workspace [] claims.1) (job_app_key claims.1) claims.0.jobs ≤ 1
claim_within_limit_example =
    claim_within_limit plain [] (str "w") [] [] (pos 100) created 3 claims.0 claims.1 claims.2 1
      created-Inv claiming limit_one app_named

-- The lease ends at 103, so the job of the lost worker is queued again at 200.
abbrev later : Snapshot
later = value created (requeue_expired_jobs plain claims.0 200)

returning : requeue_expired_jobs plain claims.0 200 ≡ ok later
unfolding claim_job_for_worker create_run_and_enqueue stamped_job get put str_dec ℕ_discrete
    append_event event_payload set_field new_action_job find_action actor_created_by
    actor_permissioned_as requeue_expired_jobs return_expired return_if_expired pick_job
    first_with_room sort insert candidates claim_allowed normalize_claim_tags covers
    job_required_labels effective_required_labels max_concurrent_reached job_max_concurrent
    pinned_deployment job_app_key normalized_job_workspace normalize_workspace source_workspace
    source_git_source_id normalize_git_source_id trim_space running_count runs_app count take_job
    start_run return_job
returning = refl

requeue_expired_jobs_lem_example :
    get (str "j") later.jobs ≡ map_option (after_lease 200) (get (str "j") claims.0.jobs)
requeue_expired_jobs_lem_example =
    requeue_expired_jobs_lem plain claims.0 later 200 (str "j") running-Inv returning

requeued : get (str "j") later.jobs ≡ some (back_to_queue claims.1 200)
unfolding claim_job_for_worker create_run_and_enqueue stamped_job get put str_dec ℕ_discrete
    append_event event_payload set_field new_action_job find_action actor_created_by
    actor_permissioned_as requeue_expired_jobs return_expired return_if_expired pick_job
    first_with_room sort insert candidates claim_allowed normalize_claim_tags covers
    job_required_labels effective_required_labels max_concurrent_reached job_max_concurrent
    pinned_deployment job_app_key normalized_job_workspace normalize_workspace source_workspace
    source_git_source_id normalize_git_source_id trim_space running_count runs_app count take_job
    start_run return_job
requeued = refl

-- A second job of the app, which may run one job at a time only.
abbrev busy : Snapshot
busy = value created (
    create_run_and_enqueue plain (record run_1 { id = str "q" })
      (record job_1 { id = str "k"; run_id = str "q" }) claims.0 4)

adds :
    create_run_and_enqueue plain
      (record run_1 { id = str "q" })
      (record job_1 { id = str "k"; run_id = str "q" })
      claims.0
      4
    ≡ ok busy
unfolding claim_job_for_worker create_run_and_enqueue stamped_job get put str_dec ℕ_discrete
    append_event event_payload set_field new_action_job find_action actor_created_by
    actor_permissioned_as requeue_expired_jobs return_expired return_if_expired pick_job
    first_with_room sort insert candidates claim_allowed normalize_claim_tags covers
    job_required_labels effective_required_labels max_concurrent_reached job_max_concurrent
    pinned_deployment job_app_key normalized_job_workspace normalize_workspace source_workspace
    source_git_source_id normalize_git_source_id trim_space running_count runs_app count take_job
    start_run return_job
adds = refl

busy-Inv : Inv busy
busy-Inv =
    Step-Inv
      (create plain (record run_1 { id = str "q" })
        (record job_1 { id = str "k"; run_id = str "q" }) 4 refl (unfold new_action_job in refl)
        refl adds)
      running-Inv

nothing_lost : requeue_expired_jobs plain busy 5 ≡ ok busy
unfolding claim_job_for_worker create_run_and_enqueue stamped_job get put str_dec ℕ_discrete
    append_event event_payload set_field new_action_job find_action actor_created_by
    actor_permissioned_as requeue_expired_jobs return_expired return_if_expired pick_job
    first_with_room sort insert candidates claim_allowed normalize_claim_tags covers
    job_required_labels effective_required_labels max_concurrent_reached job_max_concurrent
    pinned_deployment job_app_key normalized_job_workspace normalize_workspace source_workspace
    source_git_source_id normalize_git_source_id trim_space running_count runs_app count take_job
    start_run return_job
nothing_lost = refl

refusal : claim_job_for_worker plain [] (str "w") [] [] (pos 100) busy 5 ≡ err no_queued_job
unfolding claim_job_for_worker create_run_and_enqueue stamped_job get put str_dec ℕ_discrete
    append_event event_payload set_field new_action_job find_action actor_created_by
    actor_permissioned_as requeue_expired_jobs return_expired return_if_expired pick_job
    first_with_room sort insert candidates claim_allowed normalize_claim_tags covers
    job_required_labels effective_required_labels max_concurrent_reached job_max_concurrent
    pinned_deployment job_app_key normalized_job_workspace normalize_workspace source_workspace
    source_git_source_id normalize_git_source_id trim_space running_count runs_app count take_job
    start_run return_job
refusal = refl

waiting_job : Job
waiting_job = or_job (get (str "k") busy.jobs)

found_waiting : get (str "k") busy.jobs ≡ some waiting_job
unfolding claim_job_for_worker create_run_and_enqueue stamped_job get put str_dec ℕ_discrete
    append_event event_payload set_field new_action_job find_action actor_created_by
    actor_permissioned_as requeue_expired_jobs return_expired return_if_expired pick_job
    first_with_room sort insert candidates claim_allowed normalize_claim_tags covers
    job_required_labels effective_required_labels max_concurrent_reached job_max_concurrent
    pinned_deployment job_app_key normalized_job_workspace normalize_workspace source_workspace
    source_git_source_id normalize_git_source_id trim_space running_count runs_app count take_job
    start_run waiting_job
found_waiting = refl

waiting_queued : is_queued waiting_job.state ≡ true
unfolding claim_job_for_worker create_run_and_enqueue stamped_job get put str_dec ℕ_discrete
    append_event event_payload set_field new_action_job find_action actor_created_by
    actor_permissioned_as requeue_expired_jobs return_expired return_if_expired pick_job
    first_with_room sort insert candidates claim_allowed normalize_claim_tags covers
    job_required_labels effective_required_labels max_concurrent_reached job_max_concurrent
    pinned_deployment job_app_key normalized_job_workspace normalize_workspace source_workspace
    source_git_source_id normalize_git_source_id trim_space running_count runs_app count take_job
    start_run waiting_job
waiting_queued = refl

waiting_allowed :
    claim_allowed waiting_job (normalize_claim_tags []) (normalize_claim_tags []) ≡ true
unfolding claim_job_for_worker create_run_and_enqueue stamped_job get put str_dec ℕ_discrete
    append_event event_payload set_field new_action_job find_action actor_created_by
    actor_permissioned_as requeue_expired_jobs return_expired return_if_expired pick_job
    first_with_room sort insert candidates claim_allowed normalize_claim_tags covers
    job_required_labels effective_required_labels max_concurrent_reached job_max_concurrent
    pinned_deployment job_app_key normalized_job_workspace normalize_workspace source_workspace
    source_git_source_id normalize_git_source_id trim_space running_count runs_app count take_job
    start_run waiting_job
waiting_allowed = refl

no_unnamed : get [] busy.jobs ≡ none
unfolding claim_job_for_worker create_run_and_enqueue stamped_job get put str_dec ℕ_discrete
    append_event event_payload set_field new_action_job find_action actor_created_by
    actor_permissioned_as requeue_expired_jobs return_expired return_if_expired pick_job
    first_with_room sort insert candidates claim_allowed normalize_claim_tags covers
    job_required_labels effective_required_labels max_concurrent_reached job_max_concurrent
    pinned_deployment job_app_key normalized_job_workspace normalize_workspace source_workspace
    source_git_source_id normalize_git_source_id trim_space running_count runs_app count take_job
    start_run
no_unnamed = refl

jobs_named : (id : Str) (job : Job) → get id busy.jobs ≡ some job → is_nil job.id ≡ false
jobs_named [] job e = let p : none ≡ some job = sym no_unnamed ∙ e in absurd (cc)
jobs_named (c ∷ id) job e = rw (busy-Inv.job_key (c ∷ id) job e) refl

claim_refused_only_when_idle_example : max_concurrent_reached busy waiting_job ≡ true
claim_refused_only_when_idle_example =
    claim_refused_only_when_idle plain [] (str "w") [] [] (pos 100) busy busy 5 no_queued_job
      busy-Inv nothing_lost jobs_named refusal (str "k") waiting_job found_waiting waiting_queued
      waiting_allowed
