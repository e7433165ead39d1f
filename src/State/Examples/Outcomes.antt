-- ===== src/State/Examples/Outcomes.antt =====
-- The one job canceled, returned, expired and pruned; a task answered and a run retried.
use windforce_lite.State.Types.{RequeueAppSpec}
use windforce_lite.State.Ops.Enqueue.{requeue_queued_jobs_for_app, requeue_tag}
use windforce_lite.State.Outcomes.Requeued.{requeue_queued_jobs_for_app_lem}
use windforce_lite.Prelude.{ℕ, ◌≡◌, refl, true, false, Option, none, some, [], ◌∷◌, ℕ_discrete}
use windforce_lite.Str.{Str, str, str_dec, trim_space}
use windforce_lite.Table.{get, put, count}
use windforce_lite.Table.Laws.{map_option}
use windforce_lite.Json.{set_field}
use windforce_lite.Contract.{
  effective_required_labels, normalize_workspace, source_workspace, source_git_source_id,
  normalize_git_source_id, JobResult,
}
use windforce_lite.Sort.{sort, insert}
use windforce_lite.State.Types.{
  Run, Job, Lease, HumanTask, Snapshot, actor_created_by, actor_permissioned_as, is_settled,
}
use windforce_lite.State.Payload.{
  new_action_job, find_action, pinned_deployment, normalized_job_workspace,
}
use windforce_lite.State.Result.{ok, err}
use windforce_lite.State.AtRest.{AtRest}
use windforce_lite.State.Events.{append_event, event_payload}
use windforce_lite.State.Claim.{
  first_with_room, candidates, claim_allowed, normalize_claim_tags, covers, job_required_labels,
  max_concurrent_reached, job_max_concurrent, job_app_key, running_count, runs_app,
}
use windforce_lite.State.Ops.Enqueue.{stamped_job, create_run_and_enqueue}
use windforce_lite.State.Ops.Lease.{
  claim_job_for_worker, requeue_expired_jobs, return_expired, return_if_expired, pick_job, take_job,
  start_run,
}
use windforce_lite.State.Ops.Complete.{
  complete_job_succeeded, complete_job_failed, complete_job_waiting_human,
}
use windforce_lite.State.Step.{new_snapshot}
use windforce_lite.State.Consistent.{Inv}
use windforce_lite.State.Consistent.Ops.{cancel_job-Inv, FirstInv}
use windforce_lite.State.Result.{Ensures-ok}
use windforce_lite.State.Types.{cancel_actor_subject, first_non_empty}
use windforce_lite.State.Ops.Cancel.{cancel_found}
use windforce_lite.State.Types.{RunState, HumanTaskState, Time, CancelResult, invalid_state}
use windforce_lite.Json.{Raw, absent}
use windforce_lite.Contract.{effective_route_tag_for_action}
use windforce_lite.Contract.{effective_route_tag}
use windforce_lite.Contract.Tags.{IsName, effective_route_tag-IsName}
use windforce_lite.State.Payload.Roundtrip.{
  pinned_deployment-new_action_job, claimed_as_deployed, IsPinned,
}
use windforce_lite.State.Claim.{job_tag, positive_limit}
use windforce_lite.State.Ops.Cancel.{cancel_job}
use windforce_lite.State.Ops.Human.{resume_human_task}
use windforce_lite.State.Ops.Enqueue.{retry_run}
use windforce_lite.State.Ops.Retention.{prune_settled_jobs, expire_stuck_jobs}
use windforce_lite.State.Outcomes.Canceled.{
  cancel_job_stops, IsStopped, completion_of_canceled, IsCanceledJob,
}
use windforce_lite.State.Outcomes.Pruned.{prune_settled_jobs_lem, prune_keeps_live, IsPruned}
use windforce_lite.State.Outcomes.Resumed.{
  resume_human_task_lem, retry_run_lem, IsResumed, IsRetried,
}
use windforce_lite.State.Outcomes.Stuck.{
  expire_stuck_jobs_lem, given_up_run, given_up_job, stands_still,
}
use windforce_lite.State.Result.{Ensures}
use windforce_lite.State.Examples.{plain, echo, run_1, job_1, value, created, claims}
use windforce_lite.State.Examples.Claims.{running-Inv, found_running}

abbrev missing : CancelResult
missing = record {
  found = false;
  completed_now = false;
  soft_canceled = false;
  already_completed = false;
}

abbrev canceling : Snapshot × CancelResult
canceling = value (created, missing) (cancel_job plain [] (str "j") [] [] claims.0 5)

cancels : cancel_job plain [] (str "j") [] [] claims.0 5 ≡ ok canceling
unfolding claim_job_for_worker create_run_and_enqueue stamped_job get put str_dec ℕ_discrete
    append_event event_payload set_field new_action_job find_action actor_created_by
    actor_permissioned_as requeue_expired_jobs return_expired return_if_expired pick_job
    first_with_room sort insert candidates claim_allowed normalize_claim_tags covers
    job_required_labels effective_required_labels max_concurrent_reached job_max_concurrent
    pinned_deployment job_app_key normalized_job_workspace normalize_workspace source_workspace
    source_git_source_id normalize_git_source_id trim_space running_count runs_app count take_job
    start_run cancel_job cancel_found cancel_actor_subject first_non_empty
cancels = refl

cancel_found_it : canceling.1.found ≡ true
unfolding claim_job_for_worker create_run_and_enqueue stamped_job get put str_dec ℕ_discrete
    append_event event_payload set_field new_action_job find_action actor_created_by
    actor_permissioned_as requeue_expired_jobs return_expired return_if_expired pick_job
    first_with_room sort insert candidates claim_allowed normalize_claim_tags covers
    job_required_labels effective_required_labels max_concurrent_reached job_max_concurrent
    pinned_deployment job_app_key normalized_job_workspace normalize_workspace source_workspace
    source_git_source_id normalize_git_source_id trim_space running_count runs_app count take_job
    start_run cancel_job cancel_found cancel_actor_subject first_non_empty
cancel_found_it = refl

cancel_job_stops_example : IsStopped (str "j") canceling.0
cancel_job_stops_example =
    cancel_job_stops plain [] (str "j") [] [] claims.0 5 canceling.0 canceling.1 running-Inv cancels
      cancel_found_it

abbrev or_job : Option Job → Job
or_job none = job_1
or_job (some job) = job

marked_job : Job
marked_job = or_job (get (str "j") canceling.0.jobs)

found_marked : get (str "j") canceling.0.jobs ≡ some marked_job
unfolding claim_job_for_worker create_run_and_enqueue stamped_job get put str_dec ℕ_discrete
    append_event event_payload set_field new_action_job find_action actor_created_by
    actor_permissioned_as requeue_expired_jobs return_expired return_if_expired pick_job
    first_with_room sort insert candidates claim_allowed normalize_claim_tags covers
    job_required_labels effective_required_labels max_concurrent_reached job_max_concurrent
    pinned_deployment job_app_key normalized_job_workspace normalize_workspace source_workspace
    source_git_source_id normalize_git_source_id trim_space running_count runs_app count take_job
    start_run cancel_job cancel_found cancel_actor_subject first_non_empty marked_job
found_marked = refl

marked_by : marked_job.canceled_by ≡ some (str "system")
unfolding claim_job_for_worker create_run_and_enqueue stamped_job get put str_dec ℕ_discrete
    append_event event_payload set_field new_action_job find_action actor_created_by
    actor_permissioned_as requeue_expired_jobs return_expired return_if_expired pick_job
    first_with_room sort insert candidates claim_allowed normalize_claim_tags covers
    job_required_labels effective_required_labels max_concurrent_reached job_max_concurrent
    pinned_deployment job_app_key normalized_job_workspace normalize_workspace source_workspace
    source_git_source_id normalize_git_source_id trim_space running_count runs_app count take_job
    start_run cancel_job cancel_found cancel_actor_subject first_non_empty marked_job
marked_by = refl

canceling-Inv : Inv canceling.0
canceling-Inv =
    Ensures-ok FirstInv (cancel_job plain [] (str "j") [] [] claims.0 5)
      (cancel_job-Inv plain [] (str "j") [] [] claims.0 5 running-Inv) cancels

abbrev lease_1 : Lease
lease_1 = record {
  job_id = str "j";
  worker_id = str "w";
  expires_at = 103;
  attempt = 1;
  acquired_at = 3;
}

completion_of_canceled_example :
    ((result : JobResult)
      → Ensures
          (IsCanceledJob (str "j") marked_job.run_id (str "system"))
          (complete_job_succeeded plain lease_1 result canceling.0 6))
    × ((result : JobResult)
        → Ensures
            (IsCanceledJob (str "j") marked_job.run_id (str "system"))
            (complete_job_failed plain lease_1 result canceling.0 6))
    × ((fresh : Str) (result : JobResult) (task : HumanTask)
        → Ensures
            (IsCanceledJob (str "j") marked_job.run_id (str "system"))
            (complete_job_waiting_human plain fresh lease_1 result task canceling.0 6))
completion_of_canceled_example =
    completion_of_canceled plain lease_1 canceling.0 6 marked_job (str "system") canceling-Inv
      found_marked marked_by

prune_settled_jobs_lem_example :
    (t : Snapshot) × (n : ℕ) × (prune_settled_jobs 1000 1000 claims.0 1000 ≡ ok (t, n))
    × IsPruned 1000 1000 (str "j") claims.0 (t, n)
prune_settled_jobs_lem_example =
    prune_settled_jobs_lem 1000 1000 claims.0 1000 (str "j") running-Inv

abbrev pruned : Snapshot × ℕ
pruned = value (created, 0) (prune_settled_jobs 1000 1000 claims.0 1000)

prunes : prune_settled_jobs 1000 1000 claims.0 1000 ≡ ok pruned
unfolding prune_settled_jobs
prunes = refl

running_live : is_settled claims.1.state ≡ false
unfolding claim_job_for_worker create_run_and_enqueue stamped_job get put str_dec ℕ_discrete
    append_event event_payload set_field new_action_job find_action actor_created_by
    actor_permissioned_as requeue_expired_jobs return_expired return_if_expired pick_job
    first_with_room sort insert candidates claim_allowed normalize_claim_tags covers
    job_required_labels effective_required_labels max_concurrent_reached job_max_concurrent
    pinned_deployment job_app_key normalized_job_workspace normalize_workspace source_workspace
    source_git_source_id normalize_git_source_id trim_space running_count runs_app count take_job
    start_run
running_live = refl

prune_keeps_live_example :
    (run : Run) × (get (str "j") pruned.0.jobs ≡ some claims.1)
    × (get claims.1.run_id claims.0.runs ≡ some run)
    × (get claims.1.run_id pruned.0.runs ≡ some run)
prune_keeps_live_example =
    prune_keeps_live 1000 1000 claims.0 1000 pruned.0 pruned.1 (str "j") claims.1 running-Inv prunes
      found_running running_live

expire_stuck_jobs_lem_example :
    (t : Snapshot) × (n : ℕ) × (expire_stuck_jobs (str "stuck") 50 claims.0 60 ≡ ok (t, n))
    × (get (str "r") t.runs
        ≡ map_option
            (given_up_run 60 (stands_still 50 claims.0 (str "r")))
            (get (str "r") claims.0.runs))
    × (get (str "r") t.jobs
        ≡ map_option
            (λ job.
              given_up_job (str "stuck") 60 (stands_still 50 claims.0 job.run_id) job.state job)
            (get (str "r") claims.0.jobs))
expire_stuck_jobs_lem_example =
    expire_stuck_jobs_lem (str "stuck") 50 60 claims.0 (str "r") running-Inv

-- A run that waits for the answer to its task.
abbrev task_1 : HumanTask
task_1 = record {
  id = str "h";
  run_id = str "r";
  state = HumanTaskState.pending;
  title = [];
  description = [];
  schema = absent;
  resume_input = absent;
  created_at = 5;
  completed_at = none;
  expires_at = none;
}

abbrev waiting : Snapshot
waiting = record new_snapshot {
  runs = (str "r", record run_1 { state = RunState.waiting_human; task_id = str "h" }) ∷ [];
  human_tasks = (str "h", task_1) ∷ [];
}

abbrev resumes : Snapshot × Run × Job
resumes =
    value (waiting, run_1, job_1) (resume_human_task plain (str "h") absent (str "k") waiting 7)

resuming : resume_human_task plain (str "h") absent (str "k") waiting 7 ≡ ok resumes
unfolding resume_human_task get put str_dec ℕ_discrete
resuming = refl

found_task : get (str "h") waiting.human_tasks ≡ some task_1
unfolding get str_dec ℕ_discrete
found_task = refl

resume_human_task_lem_example :
    IsResumed (str "h") (str "k") resumes
    × ((rest' : AtRest) (input' : Raw) (fresh' : Str) (later : Time)
        → resume_human_task rest' (str "h") input' fresh' resumes.0 later ≡ err invalid_state)
resume_human_task_lem_example =
    resume_human_task_lem plain (str "h") absent (str "k") waiting 7 task_1 resumes.0 resumes.1
      resumes.2 found_task refl resuming

abbrev failed_run : Run
failed_run = record run_1 { state = RunState.failed }

abbrev failed : Snapshot
failed = record new_snapshot { runs = (str "r", failed_run) ∷ [] }

abbrev retries : Snapshot × Run × Job
retries = value (failed, run_1, job_1) (retry_run plain (str "r") (str "k") failed 7)

retrying : retry_run plain (str "r") (str "k") failed 7 ≡ ok retries
unfolding retry_run get put str_dec ℕ_discrete
retrying = refl

failed_there : get (str "r") failed.runs ≡ some failed_run
unfolding get str_dec ℕ_discrete
failed_there = refl

retry_run_lem_example :
    IsRetried failed_run failed (str "k") 7 retries
    × ((rest : AtRest) (fresh : Str) (later : ℕ)
        → retry_run rest (str "r") fresh retries.0 later ≡ err invalid_state)
retry_run_lem_example =
    retry_run_lem plain (str "k") failed 7 failed_run retries.0 retries.1 retries.2 failed_there
      retrying

pinned_deployment-new_action_job_example :
    IsPinned echo (pinned_deployment (new_action_job (str "j") 1 run_1 absent).payload)
pinned_deployment-new_action_job_example = pinned_deployment-new_action_job (str "j") 1 run_1 absent

claimed_as_deployed_example :
    (job_tag (new_action_job (str "j") 1 run_1 absent)
      ≡ effective_route_tag_for_action echo (find_action echo.actions (str "a")))
    × (effective_route_tag_for_action
          (pinned_deployment (new_action_job (str "j") 1 run_1 absent).payload)
          (new_action_job (str "j") 1 run_1 absent).payload.action_spec
        ≡ job_tag (new_action_job (str "j") 1 run_1 absent))
    × (normalized_job_workspace [] (new_action_job (str "j") 1 run_1 absent)
        ≡ source_workspace echo)
    × (job_max_concurrent (new_action_job (str "j") 1 run_1 absent)
        ≡ positive_limit echo.max_concurrent)
claimed_as_deployed_example = claimed_as_deployed (str "j") 1 run_1 absent

effective_route_tag-IsName_example : IsName (effective_route_tag [] none (some (str " ")) none)
effective_route_tag-IsName_example = effective_route_tag-IsName [] none (some (str " ")) none

abbrev move_to_x : RequeueAppSpec
move_to_x = record {
  workspace_id = [];
  app_key = str "e";
  action_key = none;
  action_tags = (str "a", str "x") ∷ [];
}

abbrev moving : Snapshot × ℕ
moving = value (created, 0) (requeue_queued_jobs_for_app move_to_x created 9)

moves : requeue_queued_jobs_for_app move_to_x created 9 ≡ ok moving
unfolding requeue_queued_jobs_for_app
moves = refl

abbrev queued_job : Job
queued_job = or_job (get (str "j") created.jobs)

found_queued : get (str "j") created.jobs ≡ some queued_job
unfolding create_run_and_enqueue get put str_dec ℕ_discrete append_event new_action_job
found_queued = refl

moves_to_x : requeue_tag move_to_x queued_job ≡ some (str "x")
unfolding create_run_and_enqueue get put str_dec ℕ_discrete append_event new_action_job requeue_tag
    stamped_job normalized_job_workspace pinned_deployment normalize_workspace source_workspace
    trim_space effective_route_tag_for_action
moves_to_x = refl

requeue_queued_jobs_for_app_lem_example :
    (requeue_queued_jobs_for_app move_to_x moving.0 10 ≡ ok (moving.0, 0))
    × ((moved : Job) × (get (str "j") moving.0.jobs ≡ some moved) × (job_tag moved ≡ str "x"))
requeue_queued_jobs_for_app_lem_example =
    requeue_queued_jobs_for_app_lem move_to_x created moving.0 9 10 moving.1 (str "j") queued_job
      (str "x") moves found_queued moves_to_x
