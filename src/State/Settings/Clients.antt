-- ===== src/State/Settings/Clients.antt =====
-- internal/state/local_clients.go: the API clients of a workspace and their tokens, which are stored
-- hashed.
use windforce_lite.Prelude.{
  not, Bool, false, ◌&&◌, ◌||◌, Option, none, some, List, [], ◌∷◌, ◌++◌, if◌then◌else◌, is_nil,
}
use windforce_lite.Str.{Str, str, str_eq, str_ltb}
use windforce_lite.Table.{Table, get, put, delete, delete_where}
use windforce_lite.Sort.{sort}
use windforce_lite.Contract.{normalize_workspace}
use windforce_lite.State.Types.{Time, not_found, conflict, invalid_state}
use windforce_lite.State.Result.{Result, ok, ◌>>=◌, ◌>>◌, guard, or_fail}
use windforce_lite.State.Settings.{Client, InputConfig, Settings}

-- m[k] for a map of maps, where a missing entry is the nil map
abbrev pub entries_at {ℓ} : {V : Type ℓ} → Option (List V) → List V
entries_at none = []
entries_at (some m) = m

abbrev pub clients_of : Str → Settings → Table Client
clients_of workspace_id s = entries_at (get workspace_id s.clients)

-- NewID, with the digits that are drawn
abbrev pub new_id : Str → Str → Str
new_id prefix drawn = prefix ++ str "_" ++ drawn

abbrev client_before : Client → Client → Bool
client_before c d = if not (str_eq c.name d.name) then str_ltb c.name d.name else str_ltb c.id d.id

abbrev values : Table Client → List Client
values [] = []
values ((key, client) ∷ m) = client ∷ values m

unfoldable pub list_clients : Str → Settings → List Client
list_clients workspace_id s =
    sort client_before (values (clients_of (normalize_workspace workspace_id) s))

unfoldable pub get_client : Str → Str → Settings → Result Client
get_client workspace_id id s =
    or_fail (get id (clients_of (normalize_workspace workspace_id) s)) not_found

-- The loop of GetClientByTokenHash.
unfoldable pub find_token : Str → Table Client → Option Client
find_token token_hash [] = none
find_token token_hash ((key, client) ∷ m) =
    if not (is_nil token_hash) && str_eq client.token_hash token_hash
    then some client
    else find_token token_hash m

unfoldable pub get_client_by_token_hash : Str → Str → Settings → Result Client
unfolding find_token
get_client_by_token_hash workspace_id token_hash s =
    or_fail (find_token token_hash (clients_of (normalize_workspace workspace_id) s)) not_found

-- The loop of clientTokenHashExists.
unfoldable pub other_holds : Str → Str → Table Client → Bool
other_holds token_hash except_id [] = false
other_holds token_hash except_id ((id, client) ∷ m) =
    (not (str_eq id except_id) && str_eq client.token_hash token_hash)
    || other_holds token_hash except_id m

unfoldable pub client_token_hash_exists : Table Client → Str → Str → Bool
unfolding other_holds
client_token_hash_exists clients token_hash except_id =
    not (is_nil token_hash) && other_holds token_hash except_id clients

-- `drawn` is what NewID("audit") draws.
unfoldable pub append_local_client_audit :
    Str → Str → Str → Str → Str → Str → Settings → Time → Settings
append_local_client_audit drawn workspace_id id kind detail actor s now = record s {
  client_audits =
      put workspace_id
        (entries_at (get workspace_id s.client_audits)
          ++ record {
            id = new_id (str "audit") drawn;
            workspace_id = workspace_id;
            client_id = id;
            kind = kind;
            detail = detail;
            actor = actor;
            created_at = now;
          }
            ∷ [])
        s.client_audits;
}

unfoldable pub client_change_detail : Client → Str → Str
client_change_detail current name =
    if not (str_eq current.name name) then str "name changed" else str "no value change"

-- snapshot.Clients[workspaceID][id] = client
abbrev pub put_client : Str → Str → Client → Settings → Settings
put_client workspace_id id client s = record s {
  clients = put workspace_id (put id client (clients_of workspace_id s)) s.clients;
}

module _ (drawn workspace : Str) where
  abbrev workspace_id : Str
  workspace_id = normalize_workspace workspace

  unfoldable pub create_client :
      Str → Str → Str → Str → Settings → Time → Result (Settings × Client)
  unfolding append_local_client_audit
  create_client drawn_id name token_hash actor s now = do
    guard (not (client_token_hash_exists (clients_of workspace_id s) token_hash [])) conflict
    let created : Client = record {
      id = new_id (str "client") drawn_id;
      workspace_id = workspace_id;
      name = name;
      token_hash = token_hash;
      created_by = actor;
      updated_by = actor;
      created_at = now;
      updated_at = now;
    }
    ok (
      append_local_client_audit drawn workspace_id created.id (str "created") [] actor
          (put_client workspace_id created.id created s) now,
      created,
    )

  unfoldable pub update_client : Str → Str → Str → Settings → Time → Result (Settings × Client)
  unfolding client_change_detail append_local_client_audit
  update_client id name actor s now = do
    current ← or_fail (get id (clients_of workspace_id s)) not_found
    let detail = client_change_detail current name
    let updated = record current { name = name; updated_by = actor; updated_at = now }
    ok (
      append_local_client_audit drawn workspace_id id (str "updated") detail actor
          (put_client workspace_id id updated s) now,
      updated,
    )

  unfoldable pub rotate_client_token :
      Str → Str → Str → Settings → Time → Result (Settings × Client)
  unfolding append_local_client_audit
  rotate_client_token id token_hash actor s now = do
    guard (not (is_nil token_hash)) invalid_state
    current ← or_fail (get id (clients_of workspace_id s)) not_found
    guard (not (client_token_hash_exists (clients_of workspace_id s) token_hash id)) conflict
    let updated = record current { token_hash = token_hash; updated_by = actor; updated_at = now }
    ok (
      append_local_client_audit drawn workspace_id id (str "token_rotated") [] actor
          (put_client workspace_id id updated s) now,
      updated,
    )

  unfoldable pub revoke_client_token : Str → Str → Settings → Time → Result (Settings × Client)
  unfolding append_local_client_audit
  revoke_client_token id actor s now = do
    current ← or_fail (get id (clients_of workspace_id s)) not_found
    guard (not (is_nil current.token_hash)) invalid_state
    let updated = record current { token_hash = []; updated_by = actor; updated_at = now }
    ok (
      append_local_client_audit drawn workspace_id id (str "token_revoked") [] actor
          (put_client workspace_id id updated s) now,
      updated,
    )

  abbrev is_for : Str → Str → InputConfig → Bool
  is_for id key config = str_eq config.client_id id

  -- The settings of a workspace, without those of the client.
  abbrev without_configs :
      Str → Option (Table InputConfig) → Table (Table InputConfig) → Table (Table InputConfig)
  without_configs id none configs = configs
  without_configs id (some m) configs = put workspace_id (delete_where (is_for id) m) configs

  unfoldable pub delete_client : Str → Str → Settings → Time → Result Settings
  unfolding append_local_client_audit
  delete_client id actor s now = do
    client ← or_fail (get id (clients_of workspace_id s)) not_found
    guard (is_nil client.token_hash) conflict
    ok (
        append_local_client_audit drawn workspace_id id (str "deleted") [] actor
          (record s {
            clients = put workspace_id (delete id (clients_of workspace_id s)) s.clients;
            input_configs = without_configs id (get workspace_id s.input_configs) s.input_configs;
          })
          now)
