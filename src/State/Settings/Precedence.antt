-- ===== src/State/Settings/Precedence.antt =====
-- Which of the input settings that apply to a request gives the value of a key.
use mathlib.Core.List.{Memᴰ}
use mathlib.Core.List.Memᴰ.{head, tail}
use windforce_lite.Prelude.{
  ◌<◌, ◌≡◌, refl, ◌∙◌, ap, sym, Bool, false, Option, none, some, List, [], ◌∷◌, ◌⊎◌, inl, inr,
  Bool-cases, arith, All,
}
use windforce_lite.Str.{Str}
use windforce_lite.Table.{get}
use windforce_lite.Sort.{sort, insert, IsSorted, IsWeakOrder, sort-IsSorted, sort-All}
use windforce_lite.Json.{Json, Raw, no_fields, object}
use windforce_lite.State.Types.{Err}
use windforce_lite.State.Result.{ok, ◌>>=◌, Ensures, Ensures-or_fail, Ensures-bind, Ensures-ok}
use windforce_lite.State.Crypto.{canonical}
use windforce_lite.State.Settings.{InputConfig}
use windforce_lite.State.Settings.Overlay.{
  ConfigLayer, Object, unmarshal_object, layer_of, layers_of, resolve_input_configs, rank_before,
  input_config_rank,
}
use windforce_lite.State.Settings.Merged.{or_else, layer_value}
use windforce_lite.State.Settings.Resolved.{resolve_input_configs_lem}

abbrev layer_key : Str → Option ConfigLayer → Option Json
layer_key key none = none
layer_key key (some layer) = get key layer.config

-- What the settings of one entry give the key.
abbrev pub config_value : Str → InputConfig → Option Json
config_value key config = layer_key key (layer_of config)

setting_of : Str → List InputConfig → Option Json
setting_of key [] = none
setting_of key (config ∷ configs) = or_else (setting_of key configs) (config_value key config)

layer_value-layers_of :
    (key : Str) (configs : List InputConfig)
    → Ensures (λ layers. layer_value key layers ≡ setting_of key configs) (layers_of configs)
unfolding layers_of layer_value setting_of
layer_value-layers_of key [] = refl
layer_value-layers_of key (config ∷ configs) =
    Ensures-or_fail (λ layers. layer_value key layers ≡ setting_of key (config ∷ configs))
      (layer_of config) Err.settings_not_object
      (λ layer. layers_of configs >>= λ layers. ok (layer ∷ layers))
      λ layer e.
        Ensures-bind (λ layers. layer_value key layers ≡ setting_of key (config ∷ configs))
          (layers_of configs) (λ layers. ok (layer ∷ layers))
          λ layers e'. rw (
            Ensures-ok (λ layers. layer_value key layers ≡ setting_of key configs)
                (layers_of configs) (layer_value-layers_of key configs) e',
            e,
          )

rank_order : IsWeakOrder rank_before
rank_order = record { asymm = λ x y h. ground arith; trans = λ x y z h k. ground arith }

module _ (key : Str) (config : InputConfig) (value : Json)
    (sets : config_value key config ≡ some value) where
  -- An entry that gives way: it is less specific, does not set the key, or is the one itself.
  abbrev Yields : InputConfig → Type 0
  Yields other =
      (input_config_rank other < input_config_rank config)
      ⊎ (config_value key other ≡ none)
      ⊎ (other ≡ config)

  behind :
      (configs : List InputConfig)
      → All {A = InputConfig} (λ other. rank_before other config ≡ false) configs
      → All {A = InputConfig} Yields configs
      → (setting_of key configs ≡ none) ⊎ (setting_of key configs ≡ some value)
  unfolding setting_of
  behind [] h y = inl refl
  behind (other ∷ others) h y = elim (behind others h.1 y.1) [
    | inr e ↦ inr (rw e)
    | inl e ↦ elim y.0 [
      | inl lower ↦ absurd (ground arith)
      | inr (inl unset) ↦ inl (rw (e, unset))
      | inr (inr same) ↦ inr (rw (e, same) sets)
    ]
  ]

  wins :
      (configs : List InputConfig)
      → IsSorted rank_before configs
      → Memᴰ config configs
      → All {A = InputConfig} Yields configs
      → setting_of key configs ≡ some value
  unfolding setting_of
  wins [] s m y = elim m [ ]
  wins (x ∷ xs) s (tail m) y = rw (wins xs s.1 m y.1)
  wins (x ∷ xs) s (head p) y = elim (behind xs (rw p s.0) y.1) [
    | inl e ↦ rw (e, ← p) sets
    | inr e ↦ rw e
  ]

ok_inj {ℓ} : {A : Type ℓ} {a b : A} → ok a ≡ ok b → a ≡ b
ok_inj e = cc

insert-Memᴰ {ℓ} :
    {A : Type ℓ} (before : A → A → Bool) (a x : A) (xs : List A)
    → Memᴰ a (x ∷ xs)
    → Memᴰ a (insert before x xs)
unfolding insert
insert-Memᴰ before a x [] m = m
insert-Memᴰ before a x (y ∷ ys) (head p) = elim (Bool-cases (before y x)) [
  | inl e ↦ rw e (tail (insert-Memᴰ before a x ys (head p)))
  | inr e ↦ rw e (head p)
]
insert-Memᴰ before a x (y ∷ ys) (tail (head p)) = elim (Bool-cases (before y x)) [
  | inl e ↦ rw e (head p)
  | inr e ↦ rw e (tail (head p))
]
insert-Memᴰ before a x (y ∷ ys) (tail (tail m)) = elim (Bool-cases (before y x)) [
  | inl e ↦ rw e (tail (insert-Memᴰ before a x ys (tail m)))
  | inr e ↦ rw e (tail (tail m))
]

pub sort-Memᴰ {ℓ} :
    {A : Type ℓ} (before : A → A → Bool) (a : A) (xs : List A) → Memᴰ a xs → Memᴰ a (sort before xs)
unfolding sort
sort-Memᴰ before a [] m = elim m [ ]
sort-Memᴰ before a (x ∷ xs) (head p) = insert-Memᴰ before a x (sort before xs) (head p)
sort-Memᴰ before a (x ∷ xs) (tail m) =
    insert-Memᴰ before a x (sort before xs) (tail (sort-Memᴰ before a xs m))

-- The most specific of the input settings that set a key decides it: if one entry gives the key a
-- value, and every other one is less specific or does not set the key, then a request that is
-- answered with an input and does not set the key itself has that value in the input. The order of
-- the entries does not matter.
pub most_specific_wins :
    (request : Raw) (first : InputConfig) (rest : List InputConfig) (values : Object)
    (layers : List ConfigLayer) (input : Raw) (key : Str) (config : InputConfig) (value : Json)
    → unmarshal_object (canonical request (object no_fields)) ≡ some values
    → layers_of (sort rank_before (first ∷ rest)) ≡ ok layers
    → resolve_input_configs request (first ∷ rest) ≡ ok input
    → get key values ≡ none
    → Memᴰ config (first ∷ rest)
    → config_value key config ≡ some value
    → All {A = InputConfig}
        (λ other.
          (input_config_rank other < input_config_rank config)
          ⊎ (config_value key other ≡ none)
          ⊎ (other ≡ config))
        (first ∷ rest)
    → (merged : Object) × (unmarshal_object input ≡ some merged) × (get key merged ≡ some value)
most_specific_wins request first rest values layers input key config value e l r free m sets y =
    elim (resolve_input_configs_lem request first rest values layers e l) [
      | inl refused ↦ absurd (cc (refused.1, r))
      | inr (out, merged, is_out, back, at_key) ↦
          let same : out ≡ input = ok_inj (sym is_out ∙ r) in
          let chosen : layer_value key layers ≡ some value =
            Ensures-ok
              (λ layers. layer_value key layers ≡ setting_of key (sort rank_before (first ∷ rest)))
              (layers_of (sort rank_before (first ∷ rest)))
              (layer_value-layers_of key (sort rank_before (first ∷ rest))) l
            ∙ wins key config value sets (sort rank_before (first ∷ rest))
                (sort-IsSorted rank_before rank_order (first ∷ rest))
                (sort-Memᴰ rank_before config (first ∷ rest) m)
                (sort-All rank_before (Yields key config value sets) (first ∷ rest) y) in
          (merged, ap unmarshal_object (sym same) ∙ back, (at_key key).1 ∙ rw (free, chosen))
    ]
