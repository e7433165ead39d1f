-- ===== src/State/Settings/Changes.antt =====
-- internal/state/input_config.go: what the audit tells of a change of the input settings. `text_of` gives
-- the bytes that json.Marshal writes for a value, and `stored_text` those of a value of the settings as
-- they are stored: the two differ where the state file was written indented.
use windforce_lite.Prelude.{
  not, Bool, true, false, ◌&&◌, Option, none, some, List, [], ◌∷◌, ◌++◌, if◌then◌else◌, is_nil,
}
use windforce_lite.Str.{Str, str, str_eq, str_ltb}
use windforce_lite.Table.{get, put}
use windforce_lite.Json.{Json, Items, Fields, no_items, item, no_fields, field, object, array, text}
use windforce_lite.Sort.{sort}
use windforce_lite.Contract.{contains}
use windforce_lite.State.Types.{Time}
use windforce_lite.State.Settings.{InputConfig, Settings}
use windforce_lite.State.Settings.Clients.{entries_at, new_id}
use windforce_lite.State.Settings.Overlay.{Object, unmarshal_object}

-- The loop of findInputConfig.
unfoldable pub find_input_config : List InputConfig → Str → Str → Option InputConfig
find_input_config [] action_key client_id = none
find_input_config (config ∷ configs) action_key client_id =
    if str_eq config.action_key action_key && str_eq config.client_id client_id
    then some config
    else find_input_config configs action_key client_id

abbrev object_or_empty : Option Object → Object
object_or_empty none = []
object_or_empty (some values) = values

unfoldable pub input_config_values : Option InputConfig → Object
input_config_values none = []
input_config_values (some config) = object_or_empty (unmarshal_object config.config)

abbrev pub input_config_locked_keys : Option InputConfig → List Str
input_config_locked_keys none = []
input_config_locked_keys (some config) = config.locked_keys

-- The loop of changedStringSet.
unfoldable pub new_strings : List Str → List Str → List Str
new_strings existing [] = []
new_strings existing (value ∷ next) =
    (if contains value existing then [] else value ∷ []) ++ new_strings existing next

unfoldable pub changed_string_set : List Str → List Str → List Str
unfolding new_strings
changed_string_set previous next = sort str_ltb (new_strings previous next)

-- A member of the audit detail, which is omitted when empty.
abbrev items : List Str → Items
items [] = no_items
items (value ∷ rest) = item (text value) (items rest)

abbrev change : Str → List Str → Fields → Fields
change name keys rest = if is_nil keys then rest else field name (array (items keys)) rest

-- !exists, where value, exists := m[key]
abbrev pub is_missing : Option Json → Bool
is_missing none = true
is_missing (some value) = false

module _ (stored_text text_of : Json → Str) where
  abbrev pub is_updated : Option Json → Json → Bool
  is_updated none next = false
  is_updated (some previous) next = not (str_eq (stored_text previous) (text_of next))

  -- The two loops of changedInputKeys.
  unfoldable pub changed_in_next : Object → Object → Str → List Str
  changed_in_next previous [] kind = []
  changed_in_next previous ((key, value) ∷ next) kind =
      (if str_eq kind (str "added") && is_missing (get key previous) then key ∷ [] else [])
      ++ (if str_eq kind (str "updated") && is_updated (get key previous) value
          then key ∷ []
          else [])
      ++ changed_in_next previous next kind

  unfoldable pub missing_in_next : Object → Object → List Str
  missing_in_next [] next = []
  missing_in_next ((key, value) ∷ previous) next =
      (if is_missing (get key next) then key ∷ [] else []) ++ missing_in_next previous next

  unfoldable pub changed_input_keys : Object → Object → Str → List Str
  unfolding changed_in_next missing_in_next
  changed_input_keys previous next kind = sort str_ltb (
      changed_in_next previous next kind
      ++ (if str_eq kind (str "removed") then missing_in_next previous next else []))

  unfoldable pub input_config_audit_detail : Option InputConfig → Option InputConfig → Str
  unfolding changed_input_keys changed_string_set input_config_values
  input_config_audit_detail previous next =
      let before = input_config_values previous in
      let after = input_config_values next in
      let locked = input_config_locked_keys previous in
      let locked_next = input_config_locked_keys next in
      text_of (
        object (
          change (str "added") (changed_input_keys before after (str "added")) (
            change (str "updated") (changed_input_keys before after (str "updated")) (
              change (str "removed") (changed_input_keys before after (str "removed")) (
                change (str "locked") (changed_string_set locked locked_next)
                  (change (str "unlocked") (changed_string_set locked_next locked) no_fields))))))

-- `drawn` is what NewID("audit") draws.
unfoldable pub append_local_input_config_audit :
    Str → InputConfig → Str → Str → Str → Settings → Time → Settings
append_local_input_config_audit drawn config kind detail actor s now = record s {
  input_config_audits =
      put config.workspace_id
        (entries_at (get config.workspace_id s.input_config_audits)
          ++ record {
            id = new_id (str "audit") drawn;
            workspace_id = config.workspace_id;
            app_key = config.app_key;
            action_key = config.action_key;
            client_id = config.client_id;
            kind = kind;
            detail = detail;
            actor = actor;
            created_at = now;
          }
            ∷ [])
        s.input_config_audits;
}
