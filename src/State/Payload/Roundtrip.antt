-- ===== src/State/Payload/Roundtrip.antt =====
-- What is read back from the payload of a job made by NewActionJob.
use windforce_lite.Prelude.{◌≡◌, refl, []}
use windforce_lite.Str.{Str}
use windforce_lite.Json.{Raw}
use windforce_lite.Contract.{
  Deployment, source_workspace, source_git_source_id, effective_route_tag_for_action,
}
use windforce_lite.Contract.Tags.{
  effective_route_tag-IsName, normalize_workspace-IsName, normalize_workspace-name,
  normalize_git_source_id-IsName, normalize_git_source_id-name,
}
use windforce_lite.State.Types.{Run, Time}
use windforce_lite.State.Payload.{
  new_action_job, pinned_deployment, find_action, normalized_job_workspace,
}
use windforce_lite.State.Claim.{job_tag, job_max_concurrent, positive_limit}

-- The deployment that a job carries is where the deployment of its run came from: the same source,
-- code, limits and tags.
pub record IsPinned (d p : Deployment) : Type 0 where
  pub same_workspace : source_workspace p ≡ source_workspace d
  pub same_git_source : source_git_source_id p ≡ source_git_source_id d
  pub same_commit : p.commit ≡ d.commit
  pub same_version : p.version ≡ d.version
  pub same_tag : p.tag ≡ d.tag
  pub same_tag_override : p.tag_override ≡ d.tag_override
  pub same_entrypoint : p.entrypoint ≡ d.entrypoint
  pub same_runtime : p.runtime ≡ d.runtime
  pub same_script_lang : p.script_lang ≡ d.script_lang
  pub same_timeout : p.timeout_s ≡ d.timeout_s
  pub same_limit : p.max_concurrent ≡ d.max_concurrent
  pub same_deployment_id : p.deployment_id ≡ d.deployment_id
  pub same_bundle_digest : p.bundle_digest ≡ d.bundle_digest
  pub same_bundle_uri : p.bundle_uri ≡ d.bundle_uri
  pub same_object_uri : p.object_uri ≡ d.object_uri

module _ (id : Str) (now : Time) (run : Run) (input : Raw) where
  -- A job made by NewActionJob carries the deployment of its run: PinnedDeployment reads back the
  -- same workspace, git source, code, tags and limits.
  pub pinned_deployment-new_action_job :
      IsPinned run.deployment (pinned_deployment (new_action_job id now run input).payload)
  unfolding pinned_deployment new_action_job source_workspace source_git_source_id
  pinned_deployment-new_action_job = record {
    same_workspace =
        normalize_workspace-name _ (normalize_workspace-IsName run.deployment.workspace);
    same_git_source =
        normalize_git_source_id-name _ _
          (normalize_git_source_id-IsName run.deployment.git_source_id run.deployment.app);
    same_commit = refl;
    same_version = refl;
    same_tag = refl;
    same_tag_override = refl;
    same_entrypoint = refl;
    same_runtime = refl;
    same_script_lang = refl;
    same_timeout = refl;
    same_limit = refl;
    same_deployment_id = refl;
    same_bundle_digest = refl;
    same_bundle_uri = refl;
    same_object_uri = refl;
  }

  -- A job made by NewActionJob is claimed under the tag that its action has in the deployment, in the
  -- workspace of the deployment and under the deployment's limit, and the action and the deployment
  -- that it carries resolve to the same tag again.
  pub claimed_as_deployed :
      (job_tag (new_action_job id now run input)
        ≡ effective_route_tag_for_action run.deployment
            (find_action run.deployment.actions run.action))
      × (effective_route_tag_for_action
            (pinned_deployment (new_action_job id now run input).payload)
            (new_action_job id now run input).payload.action_spec
          ≡ job_tag (new_action_job id now run input))
      × (normalized_job_workspace [] (new_action_job id now run input)
          ≡ source_workspace run.deployment)
      × (job_max_concurrent (new_action_job id now run input)
          ≡ positive_limit run.deployment.max_concurrent)
  unfolding job_tag new_action_job pinned_deployment normalized_job_workspace job_max_concurrent
      source_workspace effective_route_tag_for_action
  claimed_as_deployed =
      let spec = find_action run.deployment.actions run.action in
      let d = run.deployment in
      let tag = effective_route_tag-IsName d.tag d.tag_override spec.tag spec.tag_override in
      let name = normalize_workspace-IsName d.workspace in
      (
        rw (tag.0, tag.1) refl,
        rw (tag.0, tag.1) refl,
        rw name.1 (normalize_workspace-name _ name),
        refl,
      )
