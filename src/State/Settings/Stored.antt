-- ===== src/State/Settings/Stored.antt =====
-- internal/state/local_input_config.go: the input settings as they are stored, listed and applied to a
-- request. `stored_text` and `text_of` are the bytes of a value, stored and written anew.

use windforce_lite.Prelude.{
  not, Bool, ◌&&◌, Option, none, some, List, [], ◌∷◌, ◌++◌, if◌then◌else◌, is_nil,
}
use windforce_lite.Str.{Str, str, str_eq, str_ltb, trim_space}
use windforce_lite.Table.{Table, get, put, delete}
use windforce_lite.Json.{Json, Raw, no_fields, object}
use windforce_lite.Sort.{sort}
use windforce_lite.Contract.{normalize_workspace}
use windforce_lite.State.Types.{
  Time, not_found, invalid_input_config, first_non_empty, default_actor_subject,
}
use windforce_lite.State.Result.{Result, ok, ◌>>=◌, ◌>>◌, or_fail}
use windforce_lite.State.AtRest.{AtRest}
use windforce_lite.State.Crypto.{canonical}
use windforce_lite.State.Settings.{InputConfig, Settings}
use windforce_lite.State.Settings.Clients.{entries_at, clients_of, get_client}
use windforce_lite.State.Settings.Overlay.{
  unmarshal_object, marshal_object, normalized_locked_keys, resolve_input_configs,
}
use windforce_lite.State.Settings.Changes.{
  find_input_config, input_config_audit_detail, append_local_input_config_audit,
}

unfoldable pub input_config_key : Str → Str → Str → Str
input_config_key app_key action_key client_id = app_key ++ 0 ∷ action_key ++ 0 ∷ client_id

abbrev pub configs_of : Str → Settings → Table InputConfig
configs_of workspace_id s = entries_at (get workspace_id s.input_configs)

abbrev pub config_before : InputConfig → InputConfig → Bool
config_before c d =
    if not (str_eq c.app_key d.app_key)
    then str_ltb c.app_key d.app_key
    else if not (str_eq c.action_key d.action_key)
    then str_ltb c.action_key d.action_key
    else str_ltb c.client_id d.client_id

abbrev pub is_of_app : Str → InputConfig → Bool
is_of_app app_key config = str_eq config.app_key app_key

abbrev pub applies : Str → Str → InputConfig → Bool
applies action_key client_id config =
    not (not (is_nil config.action_key) && not (str_eq config.action_key action_key))
    && not (not (is_nil config.client_id) && not (str_eq config.client_id client_id))

-- The loop of ResolveInput over the settings.
unfoldable pub applicable : Str → Str → List InputConfig → List InputConfig
applicable action_key client_id [] = []
applicable action_key client_id (config ∷ configs) =
    let rest = applicable action_key client_id configs in
    if applies action_key client_id config then config ∷ rest else rest

abbrev known_client : Str → Str → Settings → Result (Unit {0})
known_client workspace_id client_id s = get_client workspace_id client_id s >>= λ client. ok tt

abbrev pub has_client : Settings → Str → Str → Result (Unit {0})
has_client s workspace_id client_id =
    if is_nil client_id
    then ok tt
    else or_fail (get client_id (clients_of workspace_id s)) not_found >>= λ client. ok tt

module _ (stored_text text_of : Json → Str) (drawn : Str) where
  -- The entry is stored encrypted, and answered and audited with the plain settings.
  abbrev pub write_config :
      InputConfig → Raw → Option InputConfig → Settings → Settings × InputConfig
  write_config saved plain previous s = (
    append_local_input_config_audit drawn saved (str "set")
        (input_config_audit_detail stored_text text_of previous
          (some (record saved { config = plain })))
        saved.updated_by
        (record s {
          input_configs =
              put saved.workspace_id
                (put (input_config_key saved.app_key saved.action_key saved.client_id) saved
                  (configs_of saved.workspace_id s))
                s.input_configs;
        })
        saved.updated_at,
    record saved { config = plain },
  )

  abbrev remove :
      Str → Str → Option InputConfig → Option InputConfig → Str → Settings → Time → Settings
  remove workspace_id key none previous actor s now = s
  remove workspace_id key (some config) previous actor s now =
      append_local_input_config_audit drawn config (str "deleted")
        (input_config_audit_detail stored_text text_of previous none) actor
        (record s {
          input_configs = put workspace_id (delete key (configs_of workspace_id s)) s.input_configs;
        })
        now

module _ (at_rest : AtRest) where
  -- The loop of listLocalInputConfigs.
  unfoldable pub decrypt_configs :
      Str → (InputConfig → Bool) → Table InputConfig → Result (List InputConfig)
  decrypt_configs workspace_id include [] = ok []
  decrypt_configs workspace_id include ((key, config) ∷ m) =
      let rest = decrypt_configs workspace_id include m in
      if include config
      then (do
        plain ← at_rest.decrypt_input workspace_id config.config
        configs ← rest
        ok (record config { config = plain } ∷ configs))
      else rest

  unfoldable pub list_local_input_configs :
      Str → (InputConfig → Bool) → Settings → Result (List InputConfig)
  unfolding decrypt_configs
  list_local_input_configs workspace include s = do
    configs ←
        decrypt_configs (normalize_workspace workspace) include
          (configs_of (normalize_workspace workspace) s)
    ok (sort config_before configs)

  unfoldable pub list_input_configs_for_app : Str → Str → Settings → Result (List InputConfig)
  unfolding list_local_input_configs
  list_input_configs_for_app workspace app_key s =
      list_local_input_configs workspace (is_of_app app_key) s

  unfoldable pub list_input_configs_for_client : Str → Str → Settings → Result (List InputConfig)
  unfolding list_local_input_configs get_client
  list_input_configs_for_client workspace client_id s = do
    client ← get_client workspace client_id s
    list_local_input_configs workspace (λ config. str_eq config.client_id client_id) s

  unfoldable pub resolve_input : Str → Str → Str → Str → Raw → Settings → Result Raw
  unfolding applicable list_input_configs_for_app get_client resolve_input_configs
  resolve_input workspace app_key action_key client_id request s =
      let workspace_id = normalize_workspace workspace in
      do
        if is_nil client_id then ok tt else known_client workspace_id client_id s
        configs ← list_input_configs_for_app workspace_id app_key s
        resolve_input_configs request (applicable action_key client_id configs)

  module _ (stored_text text_of : Json → Str) (drawn : Str) where
    -- `seen` is the snapshot that the settings are listed from, `s` the one that is changed.
    unfoldable pub set_input_config :
        InputConfig → Str → Settings → Settings → Time → Result (Settings × InputConfig)
    unfolding list_input_configs_for_app normalized_locked_keys append_local_input_config_audit
        input_config_audit_detail find_input_config unmarshal_object marshal_object input_config_key
    set_input_config config by seen s now =
        let workspace_id = normalize_workspace config.workspace_id in
        let app_key = trim_space config.app_key in
        let action_key = trim_space config.action_key in
        let client_id = trim_space config.client_id in
        let actor = first_non_empty (trim_space by ∷ default_actor_subject ∷ []) in
        do
          existing ← list_input_configs_for_app workspace_id app_key seen
          values ←
              or_fail (unmarshal_object (canonical config.config (object no_fields)))
                invalid_input_config
          locked ← normalized_locked_keys values config.locked_keys
          encrypted ← at_rest.encrypt_input workspace_id (marshal_object values)
          has_client s workspace_id client_id
          ok (
              write_config stored_text text_of drawn
                (record {
                  workspace_id = workspace_id;
                  app_key = app_key;
                  action_key = action_key;
                  client_id = client_id;
                  config = encrypted;
                  locked_keys = locked;
                  updated_by = actor;
                  updated_at = now;
                })
                (marshal_object values) (find_input_config existing action_key client_id) s)

    unfoldable pub delete_input_config :
        Str → Str → Str → Str → Str → Settings → Settings → Time → Result Settings
    unfolding list_input_configs_for_app append_local_input_config_audit input_config_audit_detail
        find_input_config input_config_key
    delete_input_config workspace app action client by seen s now =
        let workspace_id = normalize_workspace workspace in
        let app_key = trim_space app in
        let action_key = trim_space action in
        let client_id = trim_space client in
        let key = input_config_key app_key action_key client_id in
        do
          existing ← list_input_configs_for_app workspace_id app_key seen
          ok (
              remove stored_text text_of drawn workspace_id key
                (get key (configs_of workspace_id s))
                (find_input_config existing action_key client_id)
                (first_non_empty (trim_space by ∷ default_actor_subject ∷ [])) s now)
