-- ===== src/State/Settings/Overlay.antt =====
-- internal/state/input_config.go: how the input settings of an app and the input of a request make
-- the input of a run.
use windforce_lite.Prelude.{
  ℕ, ◌+◌, ltb, not, Bool, Option, none, some, List, [], ◌∷◌, ◌++◌, if◌then◌else◌, is_nil,
}
use windforce_lite.Str.{Str, str_ltb, trim_space}
use windforce_lite.Table.{Table, get, put}
use windforce_lite.Json.{Json, Raw, json, Fields, no_fields, field, object}
use windforce_lite.Sort.{sort}
use windforce_lite.Contract.{contains}
use windforce_lite.State.Types.{Err, input_not_object, settings_not_object, invalid_input_config}
use windforce_lite.State.Result.{Result, ok, err, ◌>>=◌, ◌>>◌, guard, or_fail}
use windforce_lite.State.Crypto.{canonical}
use windforce_lite.State.Settings.{InputConfig}

-- map[string]json.RawMessage, as encoding/json reads it: of two equal keys the last one stays.
abbrev pub Object : Type 0
Object = Table Json

unfoldable pub read_fields : Fields → Object → Object
read_fields no_fields values = values
read_fields (field key value rest) values = read_fields rest (put key value values)

-- json.Unmarshal into such a map, with a nil map refused as the callers do
unfoldable pub unmarshal_object : Raw → Option Object
unfolding read_fields
unmarshal_object (json (object fs)) = some (read_fields fs [])
unmarshal_object _ = none

unfoldable pub fields_of : Object → Fields
fields_of [] = no_fields
fields_of ((key, value) ∷ rest) = field key value (fields_of rest)

abbrev pub key_before : Str × Json → Str × Json → Bool
key_before entry other = str_ltb entry.0 other.0

-- json.Marshal of such a map writes the keys in order.
unfoldable pub marshal_object : Object → Raw
unfolding fields_of
marshal_object values = json (object (fields_of (sort key_before values)))

pub record ConfigLayer : Type 0 where
  pub config : Object
  pub locked_keys : List Str

-- for key, value := range layer.Config { effective[key] = cloneRaw(value) }
unfoldable pub put_all : Object → Object → Object
put_all [] effective = effective
put_all ((key, value) ∷ rest) effective = put_all rest (put key value effective)

unfoldable pub overlay_layers : List ConfigLayer → Object → List Str → Object × List Str
unfolding put_all
overlay_layers [] effective locked = (effective, locked)
overlay_layers (layer ∷ layers) effective locked =
    overlay_layers layers (put_all layer.config effective) (layer.locked_keys ++ locked)

-- The loop over the request: a locked key is rejected, any other is written over the settings.
unfoldable pub overlay_request : List Str → Object → Object → List Str → Object × List Str
overlay_request locked [] effective rejected = (effective, rejected)
overlay_request locked ((key, value) ∷ rest) effective rejected =
    overlay_request locked rest (if contains key locked then effective else put key value effective)
      (if contains key locked then rejected ++ key ∷ [] else rejected)

unfoldable pub apply_input_overlay : Object → List ConfigLayer → Object × List Str
unfolding overlay_layers overlay_request
apply_input_overlay request layers =
    let (base, locked) = overlay_layers layers [] [] in
    let (effective, rejected) = overlay_request locked request base [] in
    (effective, sort str_ltb rejected)

unfoldable pub input_config_rank : InputConfig → ℕ
input_config_rank config =
    (if is_nil config.action_key then 0 else 1) + (if is_nil config.client_id then 0 else 2)

abbrev pub rank_before : InputConfig → InputConfig → Bool
rank_before config other = ltb (input_config_rank config) (input_config_rank other)

abbrev pub layer_with : List Str → Option Object → Option ConfigLayer
layer_with keys none = none
layer_with keys (some values) = some (record { config = values; locked_keys = keys })

unfoldable pub layer_of : InputConfig → Option ConfigLayer
unfolding unmarshal_object
layer_of config =
    layer_with config.locked_keys (unmarshal_object (canonical config.config (object no_fields)))

unfoldable pub layers_of : List InputConfig → Result (List ConfigLayer)
unfolding layer_of
layers_of [] = ok []
layers_of (config ∷ configs) = do
  layer ← or_fail (layer_of config) settings_not_object
  layers ← layers_of configs
  ok (layer ∷ layers)

-- if len(rejected) > 0 { return nil, &LockedKeysError{Keys: rejected} }
unfoldable pub unless_rejected : Object × List Str → Result Raw
unfolding marshal_object
unless_rejected (effective, []) = ok (marshal_object effective)
unless_rejected (effective, key ∷ keys) = err (Err.locked_keys (key ∷ keys))

unfoldable pub resolve_input_configs : Raw → List InputConfig → Result Raw
unfolding unmarshal_object layers_of apply_input_overlay unless_rejected
resolve_input_configs request [] = ok request
resolve_input_configs request (config ∷ configs) = do
  values ← or_fail (unmarshal_object (canonical request (object no_fields))) input_not_object
  layers ← layers_of (sort rank_before (config ∷ configs))
  unless_rejected (apply_input_overlay values layers)

-- The loop of normalizedLockedKeys: each key is trimmed, must be set in the settings, and stands once.
unfoldable pub locked_keys_loop : Object → List Str → List Str → List Str → Result (List Str)
unfolding contains
locked_keys_loop values [] seen normalized = ok normalized
locked_keys_loop values (raw ∷ keys) seen normalized = do
  guard (not (is_nil (trim_space raw))) invalid_input_config
  found ← or_fail (get (trim_space raw) values) invalid_input_config
  locked_keys_loop values keys
      (if contains (trim_space raw) seen then seen else trim_space raw ∷ seen)
      (if contains (trim_space raw) seen then normalized else normalized ++ trim_space raw ∷ [])

unfoldable pub normalized_locked_keys : Object → List Str → Result (List Str)
unfolding locked_keys_loop
normalized_locked_keys values keys = do
  normalized ← locked_keys_loop values keys [] []
  ok (sort str_ltb normalized)
