-- ===== src/State/Payload.antt =====
-- internal/state/state.go: NewActionJob pins a deployment onto a job, PinnedDeployment reads it back.
pub mod Roundtrip
use windforce_lite.Prelude.{
  ℕ, zero, Bool, true, false, Option, none, some, List, [], ◌∷◌, if◌then◌else◌, is_nil,
}
use windforce_lite.Prelude.Int.{ℤ, pos, negsuc}
use windforce_lite.Str.{Str, str, trim_space}
use windforce_lite.Table.{Table, get}
use windforce_lite.Json.{Raw, absent, is_absent}
use windforce_lite.Contract.{
  Deployment, Action, Slice, elements, clone, source_workspace, source_git_source_id,
  effective_route_tag_for_action, effective_required_labels, normalize_workspace,
}
use windforce_lite.State.Types.{
  Run, Job, JobPayload, JobState, Time, actor_created_by, actor_permissioned_as,
}

-- Action{}
abbrev pub zero_action : Action
zero_action = record {
  action = [];
  tag = none;
  tag_override = none;
  runtime = [];
  entrypoint = [];
  command = none;
  adapter = none;
  input_schema = [];
  output_schema = [];
  operator_settings_schema = [];
  input_schema_body = absent;
  output_schema_body = absent;
  operator_settings_schema_body = absent;
  timeout_s = none;
  timeout_ms = pos 0;
  capabilities = none;
  runs_on = none;
  updated_at = none;
}

-- Deployment{}
abbrev pub zero_deployment : Deployment
zero_deployment = record {
  workspace = [];
  git_source_id = [];
  app = [];
  version = [];
  tag = [];
  tag_override = none;
  entrypoint = [];
  runtime = [];
  script_lang = [];
  timeout_s = pos 0;
  max_concurrent = none;
  required_capabilities = none;
  required_labels = none;
  commit = [];
  message = none;
  source = [];
  deployment_id = none;
  created_by = none;
  bundle_digest = [];
  bundle_uri = [];
  object_uri = [];
  actions = none;
  updated_at = none;
}

-- actions[key], where a missing key and a nil map give the zero action
abbrev pub or_zero_action : Option Action → Action
or_zero_action none = zero_action
or_zero_action (some a) = a

unfoldable pub find_action : Option (Table Action) → Str → Action
find_action none key = zero_action
find_action (some actions) key = or_zero_action (get key actions)

-- The action as a job carries it, its schemas aside.
abbrev pub without_schemas : Action → Action
without_schemas a = record a {
  input_schema_body = absent;
  output_schema_body = absent;
  operator_settings_schema_body = absent;
}

-- `id` is what NewID("job") gives and `now` the time.
unfoldable pub new_action_job : Str → Time → Run → Raw → Job
unfolding find_action
new_action_job id now run input =
    let d = run.deployment in
    let spec = find_action d.actions run.action in
    record {
      id = id;
      run_id = run.id;
      state = JobState.queued;
      kind = str "action";
      priority = pos 100;
      attempt = 0;
      lease_owner = [];
      lease_expires_at = none;
      started_at = none;
      canceled_by = none;
      canceled_reason = none;
      created_at = now;
      updated_at = now;
      payload = record {
        workspace = source_workspace d;
        git_source_id = source_git_source_id d;
        commit = d.commit;
        app = run.app;
        action = run.action;
        version = d.version;
        tag = effective_route_tag_for_action d (without_schemas spec);
        deployment_tag = d.tag;
        deployment_tag_override = d.tag_override;
        entrypoint = d.entrypoint;
        runtime = d.runtime;
        script_lang = d.script_lang;
        timeout_s = d.timeout_s;
        max_concurrent = d.max_concurrent;
        required_capabilities = clone (elements d.required_capabilities);
        required_labels = effective_required_labels d (without_schemas spec);
        deployment_id = d.deployment_id;
        bundle_digest = d.bundle_digest;
        bundle_uri = d.bundle_uri;
        object_uri = d.object_uri;
        trigger_kind = run.adapter;
        trigger_headers = absent;
        action_spec = without_schemas spec;
        input_schema = spec.input_schema_body;
        output_schema = spec.output_schema_body;
        input = if is_absent input then run.input else input;
        input_config_resolved = run.input_config_resolved;
        deployment = none;
        correlation_id = run.correlation_id;
        env = clone (elements run.env);
        created_by = actor_created_by run;
        permissioned_as = actor_permissioned_as run;
        client_id = run.client_id;
        flow_run_id = [];
        flow_step_id = [];
        flow_key = [];
        flow_step_key = [];
      };
    }

-- if x == "" { x = y }
abbrev or_str : Str → Str → Str
or_str [] y = y
or_str (c ∷ x) y = c ∷ x

-- if x == nil { x = y }
abbrev or_pointer : {A : Type 0} → Option A → Option A → Option A
or_pointer none y = y
or_pointer (some x) y = some x

-- if x == 0 { x = y }
abbrev or_int : ℤ → ℤ → ℤ
or_int (pos zero) y = y
or_int x y = x

-- if len(x) == 0 { x = append([]T(nil), y...) }
abbrev or_slice : {A : Type 0} → Slice A → Slice A → Slice A
or_slice none y = clone (elements y)
or_slice (some []) y = clone (elements y)
or_slice (some (a ∷ x)) y = some (a ∷ x)

-- if x == nil && p.Action != "" { x = map[string]Action{p.Action: p.ActionSpec} }
abbrev or_actions : Option (Table Action) → Str → Action → Option (Table Action)
or_actions (some actions) key spec = some actions
or_actions none [] spec = none
or_actions none (c ∷ key) spec = some ((c ∷ key, spec) ∷ [])

abbrev or_deployment : Option Deployment → Deployment
or_deployment none = zero_deployment
or_deployment (some d) = d

unfoldable pub pinned_deployment : JobPayload → Deployment
pinned_deployment p =
    let d = or_deployment p.deployment in
    record d {
      workspace = or_str d.workspace p.workspace;
      git_source_id = or_str d.git_source_id p.git_source_id;
      commit = or_str d.commit p.commit;
      app = or_str d.app p.app;
      version = or_str d.version p.version;
      tag = or_str d.tag p.deployment_tag;
      tag_override = or_pointer d.tag_override p.deployment_tag_override;
      entrypoint = or_str d.entrypoint p.entrypoint;
      runtime = or_str d.runtime p.runtime;
      script_lang = or_str d.script_lang p.script_lang;
      timeout_s = or_int d.timeout_s p.timeout_s;
      max_concurrent = or_pointer d.max_concurrent p.max_concurrent;
      required_capabilities = or_slice d.required_capabilities p.required_capabilities;
      required_labels = or_slice d.required_labels p.required_labels;
      deployment_id = or_pointer d.deployment_id p.deployment_id;
      bundle_digest = or_str d.bundle_digest p.bundle_digest;
      bundle_uri = or_str d.bundle_uri p.bundle_uri;
      object_uri = or_str d.object_uri p.object_uri;
      actions = or_actions d.actions p.action p.action_spec;
    }

-- internal/state/job_views.go: the workspace of a job, an argument first, then the payload's, then
-- that of its deployment.
unfoldable pub normalized_job_workspace : Str → Job → Str
unfolding pinned_deployment
normalized_job_workspace workspace_id job =
    if is_nil workspace_id
    then (if is_nil job.payload.workspace
        then normalize_workspace (source_workspace (pinned_deployment job.payload))
        else normalize_workspace job.payload.workspace)
    else normalize_workspace workspace_id
