-- ===== src/State/Settings/Audited.antt =====
-- What the audit of a change of the input settings tells.
use windforce_lite.Prelude.{
  ◌≡◌, refl, ◌∙◌, ap, sym, not, Bool, true, false, ◌&&◌, ◌||◌, Option, none, some, List, [], ◌∷◌,
  ◌++◌, Bool-cases, inl, inr, arith, if◌then◌else◌, ℕ_discrete,
}
use windforce_lite.Str.{Str, str, str_dec, str_eq}
use windforce_lite.Table.{get, Distinct}
use windforce_lite.Json.{Json}
use windforce_lite.Crypto.{is_some}
use windforce_lite.Contract.{contains}
use windforce_lite.Contract.Labels.{contains-sort}
use windforce_lite.State.Settings.Overlay.{Object}
use windforce_lite.State.Settings.Merged.{contains-append}
use windforce_lite.State.Settings.Changes.{
  is_missing, is_updated, changed_in_next, missing_in_next, changed_input_keys,
}

contains-single :
    (key k : Str) (b : Bool) → contains key (if b then k ∷ [] else []) ≡ (b && str_eq k key)
unfolding contains
contains-single key k true = ground arith
contains-single key k false = refl

module _ (stored_text text_of : Json → Str) where
  abbrev is_changed : Bool → Bool → Option Json → Option Json → Bool
  is_changed added updated previous none = false
  is_changed added updated previous (some next) =
      (added && is_missing previous) || (updated && is_updated stored_text text_of previous next)

  contains-changed_in_next :
      (key : Str) (previous next : Object) (kind : Str)
      → Distinct next
      → contains key (changed_in_next stored_text text_of previous next kind)
        ≡ is_changed
            (str_eq kind (str "added"))
            (str_eq kind (str "updated"))
            (get key previous)
            (get key next)
  unfolding changed_in_next get contains
  contains-changed_in_next key previous [] kind d = refl
  contains-changed_in_next key previous ((k, v) ∷ next) kind d =
      let added : Bool = str_eq kind (str "added") && is_missing (get k previous) in
      let updated : Bool =
        str_eq kind (str "updated") && is_updated stored_text text_of (get k previous) v in
      let rest : List Str = changed_in_next stored_text text_of previous next kind in
      let all : contains key
            (((if added then k ∷ [] else []) ++ (if updated then k ∷ [] else [])) ++ rest)
          ≡ (((added && str_eq k key) || (updated && str_eq k key)) || contains key rest) =
        rw (
          contains-append key ((if added then k ∷ [] else []) ++ (if updated then k ∷ [] else []))
              rest,
          contains-append key (if added then k ∷ [] else []) (if updated then k ∷ [] else []),
          contains-single key k added,
          contains-single key k updated,
        ) in
      let later = contains-changed_in_next key previous next kind d.1 in
      all ∙ elim (str_dec k key) [
        | yes p ↦
            let gone : get key next ≡ none = ap (λ (i : Str). get i next) (sym p) ∙ d.0 in
            let same : get k previous ≡ get key previous = ap (λ (i : Str). get i previous) p in
            let silent : contains key rest ≡ false =
              later
              ∙ ap
                  (is_changed (str_eq kind (str "added")) (str_eq kind (str "updated"))
                    (get key previous))
                  gone in
            rw (silent, same) (ground (arith, str_eq))
        | no q ↦ ground (arith, str_eq, later)
      ]

  contains-missing_in_next :
      (key : Str) (previous next : Object)
      → contains key (missing_in_next stored_text text_of previous next)
        ≡ (is_some (get key previous) && is_missing (get key next))
  unfolding missing_in_next get contains
  contains-missing_in_next key [] next = refl
  contains-missing_in_next key ((k, v) ∷ previous) next =
      let added : Bool = is_missing (get k next) in
      let all : contains key
            ((if added then k ∷ [] else []) ++ missing_in_next stored_text text_of previous next)
          ≡ ((added && str_eq k key)
              || contains key (missing_in_next stored_text text_of previous next)) =
        rw (
          contains-append key (if added then k ∷ [] else [])
              (missing_in_next stored_text text_of previous next),
          contains-single key k added,
        ) in
      let later = contains-missing_in_next key previous next in
      all ∙ elim (str_dec k key) [
        | yes p ↦
            let same : get k next ≡ get key next = ap (λ (i : Str). get i next) p in
            ground (arith, str_eq, later, same)
        | no q ↦ ground (arith, str_eq, later)
      ]

  contains-changed_input_keys :
      (key : Str) (previous next : Object) (kind : Str)
      → Distinct next
      → contains key (changed_input_keys stored_text text_of previous next kind) ≡ (
          is_changed
            (str_eq kind (str "added"))
            (str_eq kind (str "updated"))
            (get key previous)
            (get key next)
          || (str_eq kind (str "removed")
              && (is_some (get key previous) && is_missing (get key next))))
  unfolding changed_input_keys contains
  contains-changed_input_keys key previous next kind d =
      contains-sort key _
      ∙ contains-append key (changed_in_next stored_text text_of previous next kind) _
      ∙ elim (Bool-cases (str_eq kind (str "removed"))) [
        | inl e ↦ rw (
          e,
          contains-changed_in_next key previous next kind d,
          contains-missing_in_next key previous next,
        )
        | inr e ↦ rw (e, contains-changed_in_next key previous next kind d)
      ]

  only_added :
      (previous next : Option Json)
      → (is_changed true false previous next || false) ≡ (is_some next && is_missing previous)
  only_added previous none = refl
  only_added none (some value) = refl
  only_added (some old) (some value) = refl

  only_removed :
      (previous next : Option Json) (removed : Bool)
      → (is_changed false false previous next || removed) ≡ removed
  only_removed previous none removed = refl
  only_removed previous (some value) removed = refl

  -- Both settings have the key, and the bytes stored are not those written anew.
  abbrev pub is_rewritten : Option Json → Option Json → Bool
  is_rewritten (some old) (some new) = not (str_eq (stored_text old) (text_of new))
  is_rewritten _ _ = false

  only_updated :
      (previous next : Option Json)
      → (is_changed false true previous next || false) ≡ is_rewritten previous next
  only_updated none none = refl
  only_updated (some old) none = refl
  only_updated none (some value) = refl
  only_updated (some old) (some value) = ground arith

  -- What the audit of a change of input settings tells of them. The keys that it lists as added are
  -- those that only the new settings have, as removed those that only the old ones have, and as
  -- updated those that both have where the bytes that the old value is stored with are not the bytes
  -- that the new value is written with; an equal value that is stored indented is one of these.
  pub changed_input_keys_lem :
      (previous next : Object) (key : Str)
      → Distinct next
      → (contains key (changed_input_keys stored_text text_of previous next (str "added"))
          ≡ (is_some (get key next) && is_missing (get key previous)))
        × (contains key (changed_input_keys stored_text text_of previous next (str "removed"))
            ≡ (is_some (get key previous) && is_missing (get key next)))
        × (contains key (changed_input_keys stored_text text_of previous next (str "updated"))
            ≡ is_rewritten (get key previous) (get key next))
  unfolding str_dec ℕ_discrete
  changed_input_keys_lem previous next key d = (
    contains-changed_input_keys key previous next (str "added") d
        ∙ only_added (get key previous) (get key next),
    contains-changed_input_keys key previous next (str "removed") d
        ∙ only_removed (get key previous) (get key next) _,
    contains-changed_input_keys key previous next (str "updated") d
        ∙ only_updated (get key previous) (get key next),
  )
