-- ===== src/State/Settings/Merged.antt =====
-- What the overlay of input settings and a request gives at each key.
use windforce_lite.Prelude.{
  ◌≡◌, refl, ◌∙◌, ap, sym, ite, Bool, false, ◌&&◌, ◌||◌, Option, none, some, List, [], ◌∷◌, ◌++◌,
  if◌then◌else◌, Bool-cases, inl, inr, arith,
}
use windforce_lite.Str.{Str, str_dec, str_eq, str_ltb}
use windforce_lite.Str.Order.{str_order}
use windforce_lite.Table.{get, put, Distinct}
use windforce_lite.Table.Laws.{get-put}
use windforce_lite.Sort.{sort, IsSorted, sort-IsSorted}
use windforce_lite.Json.{Json}
use windforce_lite.Crypto.{is_some}
use windforce_lite.Contract.{contains}
use windforce_lite.Contract.Labels.{contains-sort}
use windforce_lite.State.Settings.Overlay.{
  Object, ConfigLayer, put_all, overlay_layers, overlay_request, apply_input_overlay,
}

abbrev pub or_else {ℓ} : {A : Type ℓ} → Option A → Option A → Option A
or_else none other = other
or_else (some a) other = some a

or_else_assoc {ℓ} :
    {A : Type ℓ} (x y z : Option A) → or_else x (or_else y z) ≡ or_else (or_else x y) z
or_else_assoc none y z = refl
or_else_assoc (some a) y z = refl

pub or_else-none {ℓ} : {A : Type ℓ} (x : Option A) → or_else x none ≡ x
or_else-none none = refl
or_else-none (some a) = refl

-- The last layer that sets the key gives its value.
unfoldable pub layer_value : Str → List ConfigLayer → Option Json
layer_value key [] = none
layer_value key (layer ∷ layers) = or_else (layer_value key layers) (get key layer.config)

unfoldable pub locks : Str → List ConfigLayer → Bool
locks key [] = false
locks key (layer ∷ layers) = contains key layer.locked_keys || locks key layers

-- A locked key reads from the settings, any other from the request first.
abbrev pub merged_value : Str → Object → List ConfigLayer → Option Json
merged_value key request layers =
    if locks key layers
    then layer_value key layers
    else or_else (get key request) (layer_value key layers)

-- The settings of each layer are a map.
abbrev pub AreMaps : List ConfigLayer → Type 0
AreMaps [] = Unit
AreMaps (layer ∷ layers) = Distinct layer.config × AreMaps layers

pub contains-append :
    (key : Str) (xs ys : List Str) → contains key (xs ++ ys) ≡ (contains key xs || contains key ys)
unfolding contains
contains-append key [] ys = refl
contains-append key (x ∷ xs) ys = ground (arith, contains-append key xs ys)

pub get-put_all :
    (key : Str) (m effective : Object)
    → Distinct m
    → get key (put_all m effective) ≡ or_else (get key m) (get key effective)
unfolding get put_all
get-put_all key [] effective d = refl
get-put_all key ((k, v) ∷ m) effective d =
    rw (get-put_all key m (put k v effective) d.1, get-put key k v effective)
      (at_head (str_dec k key))
  where
    at_head :
        (q : Dec (k ≡ key))
        → or_else (get key m) (ite q (some v) (get key effective))
          ≡ or_else (ite q (some v) (get key m)) (get key effective)
    at_head (yes p) = rw (ap (λ (j : Str). get j m) (sym p) ∙ d.0)
    at_head (no q) = refl

get-overlay_layers :
    (key : Str) (layers : List ConfigLayer) (effective : Object) (locked : List Str)
    → AreMaps layers
    → get key (overlay_layers layers effective locked).0
      ≡ or_else (layer_value key layers) (get key effective)
unfolding overlay_layers layer_value
get-overlay_layers key [] effective locked d = refl
get-overlay_layers key (layer ∷ layers) effective locked d =
    get-overlay_layers key layers (put_all layer.config effective) (layer.locked_keys ++ locked) d.1
    ∙ ap (or_else (layer_value key layers)) (get-put_all key layer.config effective d.0)
    ∙ or_else_assoc (layer_value key layers) (get key layer.config) (get key effective)

contains-overlay_layers :
    (key : Str) (layers : List ConfigLayer) (effective : Object) (locked : List Str)
    → contains key (overlay_layers layers effective locked).1
      ≡ (locks key layers || contains key locked)
unfolding overlay_layers locks
contains-overlay_layers key [] effective locked = refl
contains-overlay_layers key (layer ∷ layers) effective locked = ground (
  arith,
  contains-overlay_layers key layers (put_all layer.config effective) (layer.locked_keys ++ locked),
  contains-append key layer.locked_keys locked,
)

get-overlay_request :
    (key : Str) (locked : List Str) (request effective : Object) (rejected : List Str)
    → Distinct request
    → get key (overlay_request locked request effective rejected).0 ≡ (
        if contains key locked
        then get key effective
        else or_else (get key request) (get key effective))
unfolding get overlay_request
get-overlay_request key locked [] effective rejected d = elim (Bool-cases (contains key locked)) [
  | inl e ↦ rw e
  | inr e ↦ rw e
]
get-overlay_request key locked ((k, v) ∷ m) effective rejected d = ground (
  arith,
  get-put key k v effective,
  ap (λ (j : Str). get j m),
  ap (λ (j : Str). contains j locked),
  get-overlay_request key locked m (if contains k locked then effective else put k v effective)
      (if contains k locked then rejected ++ k ∷ [] else rejected) d.1,
)

contains-overlay_request :
    (key : Str) (locked : List Str) (request effective : Object) (rejected : List Str)
    → contains key (overlay_request locked request effective rejected).1
      ≡ (contains key rejected || (contains key locked && is_some (get key request)))
unfolding get overlay_request contains
contains-overlay_request key locked [] effective rejected = ground arith
contains-overlay_request key locked ((k, v) ∷ m) effective rejected = ground (
  arith,
  str_eq,
  contains-overlay_request key locked m (if contains k locked then effective else put k v effective)
      (if contains k locked then rejected ++ k ∷ [] else rejected),
  contains-append key rejected (k ∷ []),
  ap (λ (j : Str). contains j locked),
)

module _ (request : Object) (layers : List ConfigLayer) where
  abbrev base : Object
  base = (overlay_layers layers [] []).0

  abbrev locked : List Str
  locked = (overlay_layers layers [] []).1

  contains-locked : (key : Str) → contains key locked ≡ locks key layers
  unfolding contains
  contains-locked key = ground (arith, contains-overlay_layers key layers [] [])

  merged :
      (key : Str)
      → Distinct request
      → AreMaps layers
      → get key (overlay_request locked request base []).0 ≡ merged_value key request layers
  unfolding get
  merged key d ds = ground (
    arith,
    contains-locked key,
    get-overlay_layers key layers [] [] ds,
    or_else-none (layer_value key layers),
    get-overlay_request key locked request base [] d,
  )

  rejects :
      (key : Str)
      → contains key (sort str_ltb (overlay_request locked request base []).1)
        ≡ (locks key layers && is_some (get key request))
  unfolding contains
  rejects key =
      contains-sort key (overlay_request locked request base []).1
      ∙ contains-overlay_request key locked request base []
      ∙ ap (λ b. b && is_some (get key request)) (contains-locked key)

-- ApplyInputOverlay agrees, at every key, with a reading of its arguments as functions: a key that
-- some layer locks has the value of the last layer that sets it, and any other key that of the
-- request, if it has one, or else of that layer. The keys rejected are exactly those of the request
-- that a layer locks, in order. The request and the settings of each layer hold no key twice.
pub apply_input_overlay_lem :
    (request : Object) (layers : List ConfigLayer)
    → Distinct request
    → AreMaps layers
    → ((key : Str)
        → (get key (apply_input_overlay request layers).0 ≡ merged_value key request layers)
          × (contains key (apply_input_overlay request layers).1
              ≡ (locks key layers && is_some (get key request))))
      × IsSorted str_ltb (apply_input_overlay request layers).1
unfolding apply_input_overlay
apply_input_overlay_lem request layers d ds = (
  λ key. (merged request layers key d ds, rejects request layers key),
  sort-IsSorted str_ltb str_order
      (overlay_request (locked request layers) request (base request layers) []).1,
)
