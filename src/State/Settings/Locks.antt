-- ===== src/State/Settings/Locks.antt =====
-- The keys that an entry of the input settings locks.
use mathlib.Core.List.{Memᴰ}
use mathlib.Core.List.Memᴰ.{head, tail}
use windforce_lite.Prelude.{
  ◌≡◌, refl, ◌∙◌, ap, sym, Bool, true, Option, none, some, List, [], ◌∷◌, ◌⊎◌, inl, inr, Bool-cases,
  arith, is_nil, not, if◌then◌else◌, ◌++◌,
}
use windforce_lite.Str.{Str, str_eq, trim_space}
use windforce_lite.Table.{get}
use windforce_lite.Contract.{contains}
use windforce_lite.Contract.Labels.{contains-sort}
use windforce_lite.State.Result.{Ensures, Ensures-guard, Ensures-or_fail, Ensures-bind, Ensures-ok}
use windforce_lite.State.Settings.{InputConfig}
use windforce_lite.State.Settings.Overlay.{
  Object, ConfigLayer, locked_keys_loop, normalized_locked_keys, layer_of, layer_with, layers_of,
}
use windforce_lite.State.Settings.Merged.{locks, contains-append}

layer_with_keys :
    (keys : List Str) (o : Option Object) {layer : ConfigLayer}
    → layer_with keys o ≡ some layer
    → keys ≡ layer.locked_keys
layer_with_keys keys none e = cc
layer_with_keys keys (some values) e = ground arith

layer_of_keys :
    (x : InputConfig) (layer : ConfigLayer)
    → layer_of x ≡ some layer
    → x.locked_keys ≡ layer.locked_keys
unfolding layer_of
layer_of_keys x layer e = layer_with_keys x.locked_keys _ e

pub layers_of-locks :
    (key : Str) (c : InputConfig) (configs : List InputConfig)
    → contains key c.locked_keys ≡ true
    → Memᴰ c configs
    → Ensures (λ layers. locks key layers ≡ true) (layers_of configs)
unfolding layers_of locks
layers_of-locks key c [] h m = elim m [ ]
layers_of-locks key c (x ∷ xs) h m =
    Ensures-or_fail (λ layers. locks key layers ≡ true) (layer_of x) _ _
      λ layer e.
        Ensures-bind (λ layers. locks key layers ≡ true) (layers_of xs) _
          λ layers e'. elim m [
            | head p ↦ ground (
              arith,
              layer_of_keys x layer e,
              ap (λ (i : InputConfig). contains key i.locked_keys) p,
            )
            | tail m' ↦
                let later : locks key layers ≡ true =
                  Ensures-ok (λ layers. locks key layers ≡ true) (layers_of xs)
                    (layers_of-locks key c xs h m') e' in
                ground (arith)
          ]

seen_found :
    (key x : Str) (seen normalized : List Str)
    → (contains key seen ≡ true → contains key normalized ≡ true)
    → contains key (if contains (trim_space x) seen then seen else trim_space x ∷ seen) ≡ true
    → contains key
        (if contains (trim_space x) seen then normalized else normalized ++ trim_space x ∷ [])
      ≡ true
unfolding contains
seen_found key x seen normalized h e = elim (Bool-cases (contains (trim_space x) seen)) [
  | inl q ↦ rw q (h (rw q at e))
  | inr q ↦ rw (q, contains-append key normalized (trim_space x ∷ [])) (ground arith)
]

now_found :
    (key x : Str) (seen normalized : List Str)
    → (contains key seen ≡ true → contains key normalized ≡ true)
    → (contains key normalized ≡ true) ⊎ (trim_space x ≡ key)
    → contains key
        (if contains (trim_space x) seen then normalized else normalized ++ trim_space x ∷ [])
      ≡ true
unfolding contains
now_found key x seen normalized h p = elim (Bool-cases (contains (trim_space x) seen)) [
  | inl q ↦ rw q (elim p [ inl e ↦ e | inr e ↦ h (ap (λ k. contains k seen) (sym e) ∙ q) ])
  | inr q ↦ rw (q, contains-append key normalized (trim_space x ∷ [])) (ground (arith, str_eq))
]

locked_keys_loop_has :
    (key : Str) (values : Object) (keys seen normalized : List Str)
    → (contains key seen ≡ true → contains key normalized ≡ true)
    → (contains key normalized ≡ true) ⊎ ((raw : Str) × Memᴰ raw keys × (trim_space raw ≡ key))
    → Ensures (λ out. contains key out ≡ true) (locked_keys_loop values keys seen normalized)
unfolding locked_keys_loop contains
locked_keys_loop_has key values [] seen normalized h (inl e) = e
locked_keys_loop_has key values [] seen normalized h (inr (raw, m, e)) = elim m [ ]
locked_keys_loop_has key values (x ∷ keys) seen normalized h p =
    let again : Bool = contains (trim_space x) seen in
    let seen' : List Str = if again then seen else trim_space x ∷ seen in
    let found : List Str = if again then normalized else normalized ++ trim_space x ∷ [] in
    Ensures-guard (λ out. contains key out ≡ true) (not (is_nil (trim_space x))) _ _
      λ t.
        Ensures-or_fail (λ out. contains key out ≡ true) (get (trim_space x) values) _
          (λ v. locked_keys_loop values keys seen' found)
          λ v g.
            locked_keys_loop_has key values keys seen' found (seen_found key x seen normalized h)
              (elim p [
                | inl e ↦ inl (now_found key x seen normalized h (inl e))
                | inr (raw, head q, e) ↦
                    inl (now_found key x seen normalized h (inr (ap trim_space (sym q) ∙ e)))
                | inr (raw, tail m, e) ↦ inr (raw, m, e)
              ])

pub normalized_locked_keys_has :
    (raw : Str) (values : Object) (keys : List Str)
    → Memᴰ raw keys
    → Ensures (λ out. contains (trim_space raw) out ≡ true) (normalized_locked_keys values keys)
unfolding normalized_locked_keys
normalized_locked_keys_has raw values keys m =
    Ensures-bind (λ out. contains (trim_space raw) out ≡ true) (locked_keys_loop values keys [] [])
      _
      λ normalized e.
        contains-sort (trim_space raw) normalized
        ∙ Ensures-ok (λ out. contains (trim_space raw) out ≡ true)
            (locked_keys_loop values keys [] [])
            (locked_keys_loop_has (trim_space raw) values keys [] [] (λ c. c) (inr (raw, m, refl)))
            e
