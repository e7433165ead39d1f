-- ===== src/State/Examples.antt =====
-- A run of the echo app, from its creation on: each theorem with hypotheses holds of it.
mod Claims
mod Outcomes
use windforce_lite.Prelude.{
  ℕ, ◌≡◌, refl, Bool, true, false, Option, none, some, List, [], ◌∷◌, ℕ_discrete,
}
use windforce_lite.Prelude.Int.{ℤ, pos}
use windforce_lite.Str.{Str, str, str_dec, trim_space}
use windforce_lite.Table.{get, put, count}
use windforce_lite.Json.{Raw, absent, json, object, null, no_fields, set_field}
use windforce_lite.Contract.{
  Deployment, JobResult, effective_required_labels, normalize_workspace, source_workspace,
  source_git_source_id, normalize_git_source_id,
}
use windforce_lite.Sort.{sort, insert}
use windforce_lite.State.Types.{
  Run, RunState, Job, Lease, HumanTask, HumanTaskState, Snapshot, Time, actor_created_by,
  actor_permissioned_as,
}
use windforce_lite.State.Payload.{
  new_action_job, zero_deployment, find_action, pinned_deployment, normalized_job_workspace,
}
use windforce_lite.State.Events.{append_event, event_payload}
use windforce_lite.State.Claim.{
  first_with_room, candidates, claim_allowed, normalize_claim_tags, covers, job_required_labels,
  max_concurrent_reached, job_max_concurrent, job_app_key, running_count, runs_app,
}
use windforce_lite.State.Result.{Result, ok, err}
use windforce_lite.State.AtRest.{AtRest}
use windforce_lite.State.Ops.Enqueue.{stamped_job, create_run_and_enqueue}
use windforce_lite.State.Ops.Lease.{
  claim_job_for_worker, requeue_expired_jobs, return_expired, return_if_expired, pick_job, take_job,
  start_run,
}
use windforce_lite.State.Step.{Step, Reach, new_snapshot, create, claim, here, next}
use windforce_lite.State.Consistent.{Inv}
use windforce_lite.State.Step.Reachable.{Reach-Inv}

-- Without a secret key, inputs and results are stored as they are.
abbrev pub plain : AtRest
plain = record {
  encrypt_input = λ w r. ok r;
  decrypt_input = λ w r. ok r;
  encrypt_result = λ w r. ok r;
  decrypt_result = λ w r. ok r;
}

abbrev pub echo : Deployment
echo = record zero_deployment { app = str "e"; max_concurrent = some (pos 1) }

abbrev pub run_1 : Run
run_1 = record {
  id = str "r";
  adapter = [];
  app = str "e";
  action = str "a";
  state = RunState.queued;
  deployment = echo;
  input = absent;
  input_config_resolved = false;
  output = absent;
  result = none;
  error = absent;
  task_id = [];
  correlation_id = [];
  env = none;
  created_by = [];
  permissioned_as = [];
  client_id = [];
  created_at = 1;
  updated_at = 1;
  expires_at = none;
}

abbrev pub job_1 : Job
job_1 = new_action_job (str "j") 1 run_1 absent

-- The value of an operation that succeeds.
abbrev pub value : {A : Type 0} → A → Result A → A
value other (ok a) = a
value other (err e) = other

abbrev pub created : Snapshot
created = value new_snapshot (create_run_and_enqueue plain run_1 job_1 new_snapshot 2)

pub creates : create_run_and_enqueue plain run_1 job_1 new_snapshot 2 ≡ ok created
unfolding create_run_and_enqueue get
creates = refl

pub created-Inv : Inv created
created-Inv = Reach-Inv (
    next here (
      create plain run_1 job_1 2 refl (unfold new_action_job in refl)
        (unfold new_action_job in refl) creates))

abbrev pub lease_0 : Lease
lease_0 = record {
  job_id = str "j";
  worker_id = str "v";
  expires_at = 0;
  attempt = 0;
  acquired_at = 0;
}

abbrev pub claims : Snapshot × Job × Lease
claims =
    value (created, job_1, lease_0)
      (claim_job_for_worker plain [] (str "w") [] [] (pos 100) created 3)

pub claiming : claim_job_for_worker plain [] (str "w") [] [] (pos 100) created 3 ≡ ok claims
unfolding claim_job_for_worker create_run_and_enqueue stamped_job get put str_dec ℕ_discrete
    append_event event_payload set_field new_action_job find_action actor_created_by
    actor_permissioned_as requeue_expired_jobs return_expired return_if_expired pick_job
    first_with_room sort insert candidates claim_allowed normalize_claim_tags covers
    job_required_labels effective_required_labels max_concurrent_reached job_max_concurrent
    pinned_deployment job_app_key normalized_job_workspace normalize_workspace source_workspace
    source_git_source_id normalize_git_source_id trim_space running_count runs_app count take_job
    start_run
claiming = refl
