-- ===== src/Catalog/Publish.antt =====
-- internal/catalog/file_catalog.go: the defaults of a deployment, the publication of a release, and
-- the overrides of tags.
use windforce_lite.Prelude.{
  ◌==◌, ◌&&◌, Option, none, some, List, [], ◌∷◌, ◌++◌, if◌then◌else◌, is_nil,
}
use windforce_lite.Prelude.Int.{ℤ, pos, negsuc}
use windforce_lite.Str.{Str, str, str_eq, trim_space}
use windforce_lite.Table.{Table, get, put, map_values}
use windforce_lite.Contract.{
  Deployment, Action, default_route_tag, source_workspace, source_git_source_id,
}
use windforce_lite.State.Types.{Time, non_zero_time, deployment_not_found, action_not_found}
use windforce_lite.State.Result.{Result, ok, ◌>>=◌, or_fail}
use windforce_lite.Catalog.{
  AuditRecord, DeploymentHistory, CatalogSnapshot, deployment_key, source_release_key,
}

-- contract.DefaultTimeoutS
abbrev pub default_timeout_s : ℤ
default_timeout_s = pos 300

abbrev or_default_timeout : ℤ → ℤ
or_default_timeout (pos n) = if n == 0 then default_timeout_s else pos n
or_default_timeout (negsuc n) = negsuc n

unfoldable pub normalize_deployment_defaults : Deployment → Deployment
normalize_deployment_defaults d = record d {
  tag = if is_nil d.tag then default_route_tag else d.tag;
  timeout_s = or_default_timeout d.timeout_s;
  script_lang = if is_nil d.script_lang then str "typescript" else d.script_lang;
}

-- if updatedAt == nil { updatedAt = &at }
abbrev pub or_time : Option Time → Time → Option Time
or_time none at = some at
or_time (some t) at = some t

abbrev stamped_action : Time → Action → Action
stamped_action at a = record a { updated_at = or_time a.updated_at at }

abbrev stamped_actions : Time → Option (Table Action) → Option (Table Action)
stamped_actions at none = none
stamped_actions at (some actions) = some (map_values (stamped_action at) actions)

unfoldable pub ensure_deployment_updated_at : Deployment → Time → Deployment
ensure_deployment_updated_at d at = record d {
  updated_at = or_time d.updated_at at;
  actions = stamped_actions at d.actions;
}

-- An optional text counts if it is there and not blank; it is read trimmed.
abbrev pub or_trimmed : Str → Option Str → Str
or_trimmed fallback none = fallback
or_trimmed fallback (some s) = if is_nil (trim_space s) then fallback else trim_space s

-- `fresh` is what newAppVersionID draws.
unfoldable pub new_deployment_history : Str → Deployment → Time → DeploymentHistory
new_deployment_history fresh d created_at = record {
  id = fresh;
  workspace = source_workspace d;
  git_source_id = source_git_source_id d;
  app = d.app;
  commit = d.commit;
  entrypoint = d.entrypoint;
  source = if is_nil (trim_space d.source) then str "external_sync" else trim_space d.source;
  status = str "deployed";
  deployment_id = d.deployment_id;
  message = d.message;
  created_by = d.created_by;
  object_uri = d.object_uri;
  deployment = d;
  created_at = created_at;
}

unfoldable pub new_release_audit : DeploymentHistory → AuditRecord
new_release_audit history = record {
  id = history.id;
  workspace = history.workspace;
  git_source_id = history.git_source_id;
  app = history.app;
  kind = str "release_published";
  detail = or_trimmed (str "commit " ++ history.commit) history.message;
  actor = or_trimmed (str "system") history.created_by;
  created_at = history.created_at;
}

unfoldable pub prepare_publication :
    Str → Deployment → Time → Time → Deployment × DeploymentHistory × AuditRecord
unfolding normalize_deployment_defaults ensure_deployment_updated_at new_deployment_history
    new_release_audit
prepare_publication fresh d released_at now =
    let at = non_zero_time released_at now in
    let published = ensure_deployment_updated_at (normalize_deployment_defaults d) at in
    let history = new_deployment_history fresh published at in
    (published, history, new_release_audit history)

-- The writes of PublishRelease.
unfoldable pub add_publication :
    CatalogSnapshot → Deployment → DeploymentHistory → AuditRecord → CatalogSnapshot
add_publication s published history audit = record s {
  deployments =
      put (deployment_key (source_workspace published) published.app) published s.deployments;
  active_history_ids =
      put (deployment_key (source_workspace published) published.app) history.id
        s.active_history_ids;
  history = s.history ++ history ∷ [];
  audit = s.audit ++ audit ∷ [];
  source_markers =
      put (source_release_key (source_workspace published) (source_git_source_id published))
        (record {
          workspace = source_workspace published;
          git_source_id = source_git_source_id published;
          commit = published.commit;
          released_at = history.created_at;
        })
        s.source_markers;
}

unfoldable pub prepare_audit_record : Str → AuditRecord → Time → AuditRecord
prepare_audit_record fresh r created_at = record r {
  created_at = non_zero_time r.created_at created_at;
  id = if is_nil r.id then fresh else r.id;
}

unfoldable pub append_audit_record : Str → AuditRecord → CatalogSnapshot → Time → CatalogSnapshot
unfolding prepare_audit_record
append_audit_record fresh r s now = record s {
  audit = s.audit ++ prepare_audit_record fresh r now ∷ [];
}

unfoldable pub audit_trail : Str → Str → List AuditRecord → List AuditRecord
audit_trail workspace git_source_id [] = []
audit_trail workspace git_source_id (r ∷ records) =
    if str_eq r.workspace workspace && str_eq r.git_source_id git_source_id
    then r ∷ audit_trail workspace git_source_id records
    else audit_trail workspace git_source_id records

unfoldable pub get_deployment_for_workspace : Str → Str → CatalogSnapshot → Result Deployment
get_deployment_for_workspace workspace app s =
    or_fail (get (deployment_key workspace app) s.deployments) deployment_not_found

unfoldable pub set_app_tag_override :
    Str → Str → Option Str → CatalogSnapshot → Time → Result (CatalogSnapshot × Deployment)
set_app_tag_override workspace app tag_override s now = do
  d ← or_fail (get (deployment_key workspace app) s.deployments) deployment_not_found
  let updated = record d { tag_override = tag_override; updated_at = some now }
  ok (record s { deployments = put (deployment_key workspace app) updated s.deployments }, updated)

abbrev actions_of : Option (Table Action) → Table Action
actions_of none = []
actions_of (some actions) = actions

unfoldable pub set_action_tag_override :
    Str → Str → Str → Option Str → CatalogSnapshot → Time → Result (CatalogSnapshot × Action)
set_action_tag_override workspace app action_key tag_override s now = do
  d ← or_fail (get (deployment_key workspace app) s.deployments) deployment_not_found
  a ← or_fail (get action_key (actions_of d.actions)) action_not_found
  let updated = record a { tag_override = tag_override; updated_at = some now }
  let written = record d { actions = some (put action_key updated (actions_of d.actions)) }
  ok (record s { deployments = put (deployment_key workspace app) written s.deployments }, updated)
