-- ===== src/State/Settings/Examples.antt =====
-- Runs of the input settings and of the clients of a store.
mod Locking
use mathlib.Core.List.Memᴰ.{head}
use windforce_lite.Prelude.{ℕ_discrete, ◌≡◌, refl, none, some, List, [], ◌∷◌, ◌⊎◌, inl, inr, arith}
use windforce_lite.Prelude.Int.{pos}
use windforce_lite.Str.{Str, str, str_dec, str_ltb, trim_space}
use windforce_lite.Table.{get, put}
use windforce_lite.Json.{Json, Raw, json, object, field, no_fields, number, text}
use windforce_lite.Contract.{normalize_workspace, contains}
use windforce_lite.Sort.{sort}
use windforce_lite.State.Types.{Err, Time, conflict}
use windforce_lite.State.Result.{ok, err}
use windforce_lite.State.Settings.{InputConfig, Settings, Client, ClientAudit}
use windforce_lite.State.Settings.Overlay.{
  Object, ConfigLayer, resolve_input_configs, unmarshal_object, layers_of, layer_of,
  input_config_rank, rank_before,
}
use windforce_lite.State.Settings.Resolved.{resolve_input_configs_lem, Refused, Merges}
use windforce_lite.State.Settings.Precedence.{most_specific_wins}
use windforce_lite.State.Settings.Clients.{client_token_hash_exists}
use windforce_lite.State.Settings.Calls.{
  ClientCall, create, rotate, apply_call, run_calls, replay, registry_of, IsValid,
}
use windforce_lite.State.Settings.Tokens.{run_calls_refines}

abbrev settings_for : Str → Str → Json → List Str → InputConfig
settings_for action client value locked = record {
  workspace_id = str "team";
  app_key = str "mail";
  action_key = action;
  client_id = client;
  config = json (object (field (str "limit") value no_fields));
  locked_keys = locked;
  updated_by = str "ann";
  updated_at = 1;
}

abbrev for_app : InputConfig
for_app = settings_for [] [] (number (pos 1)) []

abbrev for_client : InputConfig
for_client = settings_for (str "send") (str "c1") (number (pos 9)) []

abbrev locking : InputConfig
locking = settings_for [] (str "c1") (number (pos 5)) (str "limit" ∷ [])

abbrev request : Raw
request = json (object (field (str "to") (text (str "bob")) no_fields))

abbrev greedy : Raw
greedy = json (object (field (str "limit") (number (pos 99)) no_fields))

abbrev layer_app : ConfigLayer
layer_app = record { config = (str "limit", number (pos 1)) ∷ []; locked_keys = [] }

abbrev layer_client : ConfigLayer
layer_client = record { config = (str "limit", number (pos 9)) ∷ []; locked_keys = [] }

abbrev layer_locking : ConfigLayer
layer_locking = record {
  config = (str "limit", number (pos 5)) ∷ [];
  locked_keys = str "limit" ∷ [];
}

abbrev resolved : Raw
resolved =
    json (
      object (field (str "limit") (number (pos 9)) (field (str "to") (text (str "bob")) no_fields)))

client_settings_win : resolve_input_configs request (for_client ∷ for_app ∷ []) ≡ ok resolved
unfolding resolve_input_configs put sort input_config_rank contains str_ltb str_dec ℕ_discrete
client_settings_win = refl

locked_key_refused :
    resolve_input_configs greedy (locking ∷ for_app ∷ []) ≡ err (Err.locked_keys (str "limit" ∷ []))
unfolding resolve_input_configs put sort input_config_rank contains str_dec ℕ_discrete
locked_key_refused = refl

sorted_layers :
    layers_of (sort rank_before (for_client ∷ for_app ∷ [])) ≡ ok (layer_app ∷ layer_client ∷ [])
unfolding layers_of put sort input_config_rank str_dec ℕ_discrete
sorted_layers = refl

locking_layers :
    layers_of (sort rank_before (locking ∷ for_app ∷ [])) ≡ ok (layer_app ∷ layer_locking ∷ [])
unfolding layers_of put sort input_config_rank str_dec ℕ_discrete
locking_layers = refl

read_request : unmarshal_object request ≡ some ((str "to", text (str "bob")) ∷ [])
unfolding unmarshal_object put
read_request = refl

read_greedy : unmarshal_object greedy ≡ some ((str "limit", number (pos 99)) ∷ [])
unfolding unmarshal_object put
read_greedy = refl

resolve_input_configs_lem_example :
    Refused
      ((str "limit", number (pos 99)) ∷ [])
      (layer_app ∷ layer_locking ∷ [])
      (resolve_input_configs greedy (locking ∷ for_app ∷ []))
    ⊎ Merges
        ((str "limit", number (pos 99)) ∷ [])
        (layer_app ∷ layer_locking ∷ [])
        (resolve_input_configs greedy (locking ∷ for_app ∷ []))
resolve_input_configs_lem_example =
    resolve_input_configs_lem greedy locking (for_app ∷ []) ((str "limit", number (pos 99)) ∷ [])
      (layer_app ∷ layer_locking ∷ []) read_greedy locking_layers

no_limit_asked : get (str "limit") ((str "to", text (str "bob")) ∷ []) ≡ none
unfolding get str_dec ℕ_discrete
no_limit_asked = refl

most_specific_wins_example :
    (merged : Object) × (unmarshal_object resolved ≡ some merged)
    × (get (str "limit") merged ≡ some (number (pos 9)))
unfolding layer_of get put input_config_rank str_dec ℕ_discrete
most_specific_wins_example =
    most_specific_wins request for_client (for_app ∷ []) ((str "to", text (str "bob")) ∷ [])
      (layer_app ∷ layer_client ∷ []) resolved (str "limit") for_client (number (pos 9))
      read_request sorted_layers client_settings_win no_limit_asked (head refl) refl
      (inr (inr refl), (inl (omega arith), tt))

abbrev no_settings : Settings
no_settings = record {
  clients = [];
  client_audits = [];
  input_configs = [];
  input_config_audits = [];
}

no_settings-IsValid : IsValid no_settings
unfolding get
no_settings-IsValid w = record {
  distinct = tt;
  named = λ k c e. cc;
  unique = λ j k c d e f n s. cc;
}

abbrev calls : List (ClientCall × Time)
calls =
    (create (str "a1") (str "team") (str "1") (str "Bob") (str "h1") (str "ann"), 1)
    ∷ (rotate (str "a2") (str "team") (str "client_1") (str "h2") (str "ann"), 2)
    ∷ []

abbrev audit_of : Str → Str → Time → ClientAudit
audit_of id kind now = record {
  id = id;
  workspace_id = str "team";
  client_id = str "client_1";
  kind = kind;
  detail = [];
  actor = str "ann";
  created_at = now;
}

abbrev bob : Client
bob = record {
  id = str "client_1";
  workspace_id = str "team";
  name = str "Bob";
  token_hash = str "h2";
  created_by = str "ann";
  updated_by = str "ann";
  created_at = 1;
  updated_at = 2;
}

abbrev with_bob : Settings
with_bob = record {
  clients = (str "team", (str "client_1", bob) ∷ []) ∷ [];
  client_audits =
      (
        str "team",
        audit_of (str "audit_a1") (str "created") 1
            ∷ audit_of (str "audit_a2") (str "token_rotated") 2
            ∷ [],
      )
      ∷ [];
  input_configs = [];
  input_config_audits = [];
}

calls_run : run_calls calls no_settings ≡ ok with_bob
unfolding run_calls client_token_hash_exists get put normalize_workspace trim_space str_dec
    ℕ_discrete
calls_run = refl

token_taken :
    apply_call
      (create (str "a3") (str "team") (str "2") (str "Eve") (str "h2") (str "eve"))
      with_bob
      3
    ≡ err conflict
unfolding apply_call client_token_hash_exists get put normalize_workspace trim_space str_dec
    ℕ_discrete
token_taken = refl

run_calls_refines_example :
    IsValid with_bob × (registry_of with_bob ≡ replay calls (registry_of no_settings))
run_calls_refines_example =
    run_calls_refines calls no_settings with_bob no_settings-IsValid calls_run
