-- ===== src/State/Settings/Listed.antt =====
-- The listing of the input settings of an app has every stored entry of it.
use mathlib.Core.List.{Memᴰ}
use mathlib.Core.List.Memᴰ.{head, tail}
use windforce_lite.Prelude.{◌≡◌, refl, Bool, true, some, List, [], ◌∷◌, inl, inr, Bool-cases, arith}
use windforce_lite.Str.{Str, str_dec, str_eq}
use windforce_lite.Table.{Table, get}
use windforce_lite.Json.{Raw}
use windforce_lite.Contract.{normalize_workspace}
use windforce_lite.State.Result.{Ensures, Ensures-bind, Ensures-ok}
use windforce_lite.State.AtRest.{AtRest}
use windforce_lite.State.Settings.{InputConfig, Settings}
use windforce_lite.State.Settings.Precedence.{sort-Memᴰ}
use windforce_lite.State.Settings.Stored.{
  configs_of, config_before, is_of_app, decrypt_configs, list_local_input_configs,
  list_input_configs_for_app,
}

-- The entry, with its settings decrypted, is among the configs.
abbrev pub Lists : InputConfig → List InputConfig → Type 0
Lists c configs = (plain : Raw) × Memᴰ (record c { config = plain }) configs

module _ (at_rest : AtRest) (w : Str) (include : InputConfig → Bool) where
  decrypt_configs-Lists :
      (k : Str) (c : InputConfig) (m : Table InputConfig)
      → get k m ≡ some c
      → include c ≡ true
      → Ensures (Lists c) (decrypt_configs at_rest w include m)
  unfolding get decrypt_configs
  decrypt_configs-Lists k c [] e h = cc
  decrypt_configs-Lists k c ((j, d) ∷ m) e h = elim (str_dec j k) [
    | yes p ↦
        let same : d ≡ c = ground arith in
        rw (same, h)
          (Ensures-bind (Lists c) (at_rest.decrypt_input w c.config) _ λ plain e'.
            Ensures-bind (Lists c) (decrypt_configs at_rest w include m) _
              λ configs e''. (plain, head refl))
    | no q ↦
        let old : get k m ≡ some c = ground arith in
        let found = decrypt_configs-Lists k c m old h in
        elim (Bool-cases (include d)) [
          | inr x ↦ rw x found
          | inl x ↦ rw x (
              Ensures-bind (Lists c) (at_rest.decrypt_input w d.config) _ λ plain e'.
                Ensures-bind (Lists c) (decrypt_configs at_rest w include m) _ λ configs e''.
                  let (own, there) =
                    Ensures-ok (Lists c) (decrypt_configs at_rest w include m) found e'' in
                  (own, tail there))
        ]
  ]

pub list_input_configs_for_app-Lists :
    (at_rest : AtRest) (w app k : Str) (c : InputConfig) (s : Settings)
    → get k (configs_of (normalize_workspace w) s) ≡ some c
    → c.app_key ≡ app
    → Ensures (Lists c) (list_input_configs_for_app at_rest w app s)
unfolding list_input_configs_for_app list_local_input_configs
list_input_configs_for_app-Lists at_rest w app k c s e h =
    let m : Table InputConfig = configs_of (normalize_workspace w) s in
    Ensures-bind (Lists c) (decrypt_configs at_rest (normalize_workspace w) (is_of_app app) m) _
      λ configs e'.
        let (plain, there) =
          Ensures-ok (Lists c) (decrypt_configs at_rest (normalize_workspace w) (is_of_app app) m)
            (decrypt_configs-Lists at_rest (normalize_workspace w) (is_of_app app) k c m e
              (ground (arith, str_eq)))
            e' in
        (plain, sort-Memᴰ config_before _ configs there)
