-- ===== src/State/Settings/Resolved.antt =====
-- What a request with input settings is answered with: the merged input, or the locked keys that it
-- sets.
use windforce_lite.Prelude.{
  ◌≡◌, refl, ◌∙◌, sym, Bool, true, false, ◌&&◌, Option, none, some, List, [], ◌∷◌, ◌⊎◌, inl, inr,
  arith, if◌then◌else◌, is_nil,
}
use windforce_lite.Str.{Str}
use windforce_lite.Table.{get, Distinct}
use windforce_lite.Sort.{sort}
use windforce_lite.Json.{Json, Raw, no_fields, object}
use windforce_lite.Crypto.{is_some}
use windforce_lite.Contract.{contains}
use windforce_lite.State.Types.{Err}
use windforce_lite.State.Result.{
  Result, ok, err, ◌>>=◌, Ensures, Ensures-or_fail, Ensures-bind, Ensures-ok,
}
use windforce_lite.State.Crypto.{canonical}
use windforce_lite.State.Settings.{InputConfig}
use windforce_lite.State.Settings.Overlay.{
  Object, ConfigLayer, unmarshal_object, marshal_object, apply_input_overlay, layer_of, layers_of,
  unless_rejected, resolve_input_configs, rank_before, layer_with,
}
use windforce_lite.State.Settings.Merged.{
  or_else, layer_value, locks, AreMaps, merged_value, apply_input_overlay_lem,
}
use windforce_lite.State.Settings.Objects.{
  unmarshal_object-Distinct, unmarshal-marshal_object, apply_input_overlay-Distinct,
}

pub layer_with_inv :
    (keys : List Str) (o : Option Object) {layer : ConfigLayer}
    → layer_with keys o ≡ some layer
    → o ≡ some layer.config
layer_with_inv keys none e = cc
layer_with_inv keys (some values) e = ground arith

layer_of-IsMap :
    (config : InputConfig) (layer : ConfigLayer)
    → layer_of config ≡ some layer
    → Distinct layer.config
unfolding layer_of
layer_of-IsMap config layer e =
    unmarshal_object-Distinct (canonical config.config (object no_fields))
      (layer_with_inv config.locked_keys _ e)

merged_unlocked :
    (locked : Bool) (own setting : Option Json)
    → false ≡ (locked && is_some own)
    → (if locked then setting else or_else own setting) ≡ or_else own setting
merged_unlocked true none setting e = refl
merged_unlocked true (some value) setting e = cc
merged_unlocked false own setting e = refl

pub layers_of-AreMaps : (configs : List InputConfig) → Ensures AreMaps (layers_of configs)
unfolding layers_of
layers_of-AreMaps [] = tt
layers_of-AreMaps (config ∷ configs) =
    Ensures-or_fail AreMaps (layer_of config) Err.settings_not_object
      (λ layer. layers_of configs >>= λ layers. ok (layer ∷ layers))
      λ layer e.
        Ensures-bind AreMaps (layers_of configs) (λ layers. ok (layer ∷ layers))
          λ layers e'. (
            layer_of-IsMap config layer e,
            Ensures-ok AreMaps (layers_of configs) (layers_of-AreMaps configs) e',
          )

-- The request sets a key that a layer locks; the keys are exactly those.
abbrev pub Refused : Object → List ConfigLayer → Result Raw → Type 0
Refused request layers answer =
    (keys : List Str) × (answer ≡ err (Err.locked_keys keys))
    × (is_nil keys ≡ false)
    × ((key : Str) → contains key keys ≡ (locks key layers && is_some (get key request)))

-- The request sets no locked key; the answer is an object with the merged value at every key.
abbrev pub Merges : Object → List ConfigLayer → Result Raw → Type 0
Merges request layers answer =
    (input : Raw) × (values : Object) × (answer ≡ ok input)
    × (unmarshal_object input ≡ some values)
    × ((key : Str)
        → ((locks key layers && is_some (get key request)) ≡ false)
          × (get key values ≡ or_else (get key request) (layer_value key layers)))

unless_rejected_lem :
    (request : Object) (layers : List ConfigLayer) (keys : List Str) (effective : Object)
    → Distinct effective
    → ((key : Str)
        → (get key effective ≡ merged_value key request layers)
          × (contains key keys ≡ (locks key layers && is_some (get key request))))
    → Refused request layers (unless_rejected (effective, keys))
      ⊎ Merges request layers (unless_rejected (effective, keys))
unfolding unless_rejected contains
unless_rejected_lem request layers [] effective d h =
    let (back, e, same) = unmarshal-marshal_object effective d in
    inr (
      marshal_object effective,
      back,
      refl,
      e,
      λ key. (
        sym (h key).1,
        same key
            ∙ (h key).0
            ∙ merged_unlocked (locks key layers) (get key request) (layer_value key layers)
                (h key).1,
      ),
    )
unless_rejected_lem request layers (k ∷ ks) effective d h =
    inl (k ∷ ks, refl, refl, λ key. (h key).1)

-- A request to an app with input settings, where the request and the settings are JSON objects, has
-- one of two answers. If it sets a key that some entry locks, the answer is the error with exactly
-- those keys. Otherwise it is an object that has, at every key, the value of the request, if it has
-- one, or else that of the last entry in the order of rank that sets the key.
pub resolve_input_configs_lem :
    (request : Raw) (config : InputConfig) (configs : List InputConfig) (values : Object)
    (layers : List ConfigLayer)
    → unmarshal_object (canonical request (object no_fields)) ≡ some values
    → layers_of (sort rank_before (config ∷ configs)) ≡ ok layers
    → Refused values layers (resolve_input_configs request (config ∷ configs))
      ⊎ Merges values layers (resolve_input_configs request (config ∷ configs))
unfolding resolve_input_configs
resolve_input_configs_lem request config configs values layers e e' =
    rw (e, e')
      (unless_rejected_lem values layers (apply_input_overlay values layers).1
        (apply_input_overlay values layers).0 (apply_input_overlay-Distinct values layers)
        (apply_input_overlay_lem values layers
          (unmarshal_object-Distinct (canonical request (object no_fields)) e)
          (Ensures-ok AreMaps (layers_of (sort rank_before (config ∷ configs)))
            (layers_of-AreMaps (sort rank_before (config ∷ configs))) e')).0)
