-- ===== src/State/Settings/Objects.antt =====
-- JSON objects that encoding/json reads into a map and writes from one.
use windforce_lite.Prelude.{
  ◌≡◌, refl, ◌∙◌, ap, ite, none, some, List, [], ◌∷◌, ◌++◌, inl, inr, subst, Bool-cases, arith,
  if◌then◌else◌,
}
use windforce_lite.Str.{Str, str_dec, str_ltb}
use windforce_lite.Table.{get, put, Distinct}
use windforce_lite.Table.Laws.{put-Distinct}
use windforce_lite.Sort.{sort, insert}
use windforce_lite.Json.{Json, Raw, Fields, field, no_fields, object, json}
use windforce_lite.Contract.{contains}
use windforce_lite.State.Settings.Overlay.{
  Object, ConfigLayer, read_fields, unmarshal_object, fields_of, key_before, marshal_object,
  put_all, overlay_layers, overlay_request, apply_input_overlay,
}
use windforce_lite.State.Settings.Merged.{or_else-none, get-put_all}

some_inj {ℓ} : {A : Type ℓ} {a b : A} → some a ≡ some b → a ≡ b
some_inj e = cc

read_fields-Distinct : (fs : Fields) (m : Object) → Distinct m → Distinct (read_fields fs m)
unfolding read_fields
read_fields-Distinct no_fields m d = d
read_fields-Distinct (field k v fs) m d = read_fields-Distinct fs (put k v m) (put-Distinct k v m d)

pub unmarshal_object-Distinct :
    (raw : Raw) {m : Object} → unmarshal_object raw ≡ some m → Distinct m
unfolding unmarshal_object
unmarshal_object-Distinct (json (object fs)) e =
    subst Distinct (some_inj e) (read_fields-Distinct fs [] tt)
unmarshal_object-Distinct _ e = cc

put_all-Distinct : (m effective : Object) → Distinct effective → Distinct (put_all m effective)
unfolding put_all
put_all-Distinct [] e d = d
put_all-Distinct ((k, v) ∷ m) e d = put_all-Distinct m (put k v e) (put-Distinct k v e d)

overlay_layers-Distinct :
    (layers : List ConfigLayer) (effective : Object) (locked : List Str)
    → Distinct effective
    → Distinct (overlay_layers layers effective locked).0
unfolding overlay_layers
overlay_layers-Distinct [] e l d = d
overlay_layers-Distinct (x ∷ xs) e l d =
    overlay_layers-Distinct xs (put_all x.config e) (x.locked_keys ++ l)
      (put_all-Distinct x.config e d)

overlay_request-Distinct :
    (locked : List Str) (request effective : Object) (rejected : List Str)
    → Distinct effective
    → Distinct (overlay_request locked request effective rejected).0
unfolding overlay_request
overlay_request-Distinct locked [] e r d = d
overlay_request-Distinct locked ((k, v) ∷ m) e r d =
    overlay_request-Distinct locked m (if contains k locked then e else put k v e)
      (if contains k locked then r ++ k ∷ [] else r)
      (elim (Bool-cases (contains k locked)) [
        | inl q ↦ rw q d
        | inr q ↦ rw q (put-Distinct k v e d)
      ])

read_fields-fields_of :
    (m effective : Object) → read_fields (fields_of m) effective ≡ put_all m effective
unfolding read_fields fields_of put_all
read_fields-fields_of [] e = refl
read_fields-fields_of ((k, v) ∷ m) e = read_fields-fields_of m (put k v e)

get-insert :
    (key k : Str) (v : Json) (m : Object)
    → get k m ≡ none
    → get key (insert key_before (k, v) m) ≡ ite (str_dec k key) (some v) (get key m)
unfolding get insert
get-insert key k v [] e = refl
get-insert key k v ((j, w) ∷ m) e = elim (Bool-cases (str_ltb j k)) [
  | inl q ↦ rw q (ground (arith, get-insert key k v m))
  | inr q ↦ rw q
]

get-sort : (key : Str) (m : Object) → Distinct m → get key (sort key_before m) ≡ get key m
unfolding get sort
get-sort key [] d = refl
get-sort key ((k, v) ∷ m) d =
    get-insert key k v (sort key_before m) (get-sort k m d.1 ∙ d.0)
    ∙ ap (ite (str_dec k key) (some v)) (get-sort key m d.1)

insert-Distinct :
    (k : Str) (v : Json) (m : Object)
    → get k m ≡ none
    → Distinct m
    → Distinct (insert key_before (k, v) m)
unfolding get insert
insert-Distinct k v [] e d = (refl, tt)
insert-Distinct k v ((j, w) ∷ m) e d = elim (Bool-cases (str_ltb j k)) [
  | inl q ↦ rw q (ground (arith, get-insert j k v m), insert-Distinct k v m (ground arith) d.1)
  | inr q ↦ rw q (e, d)
]

sort-Distinct : (m : Object) → Distinct m → Distinct (sort key_before m)
unfolding sort
sort-Distinct [] d = tt
sort-Distinct ((k, v) ∷ m) d =
    insert-Distinct k v (sort key_before m) (get-sort k m d.1 ∙ d.0) (sort-Distinct m d.1)

-- What is written is read back as the same map.
pub unmarshal-marshal_object :
    (m : Object)
    → Distinct m
    → (back : Object) × (unmarshal_object (marshal_object m) ≡ some back)
      × ((key : Str) → get key back ≡ get key m)
unfolding unmarshal_object marshal_object get
unmarshal-marshal_object m d = (
  read_fields (fields_of (sort key_before m)) [],
  refl,
  λ key.
      ap (get key) (read_fields-fields_of (sort key_before m) [])
      ∙ get-put_all key (sort key_before m) [] (sort-Distinct m d)
      ∙ or_else-none (get key (sort key_before m))
      ∙ get-sort key m d,
)

pub apply_input_overlay-Distinct :
    (request : Object) (layers : List ConfigLayer) → Distinct (apply_input_overlay request layers).0
unfolding apply_input_overlay
apply_input_overlay-Distinct request layers =
    overlay_request-Distinct (overlay_layers layers [] []).1 request (overlay_layers layers [] []).0
      [] (overlay_layers-Distinct layers [] [] tt)
