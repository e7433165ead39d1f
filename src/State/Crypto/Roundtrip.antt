-- ===== src/State/Crypto/Roundtrip.antt =====
-- What is encrypted at rest is read back, also after the secret key was rotated.
use windforce_lite.Prelude.{
  ◌≡◌, refl, sym, ◌∙◌, subst, true, false, ◌||◌, Option, none, some, is_nil, length, Bool-cases,
  inl, inr, arith,
}
use windforce_lite.Str.{Str, trim_space}
use windforce_lite.Json.{Json, Raw, json, absent, malformed, valid}
use windforce_lite.Crypto.{Primitives, nonce_size, wrap_enc, unwrap_enc, is_enc}
use windforce_lite.Crypto.Roundtrip.{Laws, ReadsBack, unwrap_enc-wrap_enc, wrap_enc-IsEnvelope}
use windforce_lite.State.Types.{crypto_failure}
use windforce_lite.State.Result.{
  Ensures, Ensures-ok, Ensures-guard, Ensures-bind, ok, or_fail, guard,
}
use windforce_lite.State.Crypto.{
  Config, Provider, canonical, derived_dek, resolve_input_dek, encrypt_json_at_rest,
  decrypt_json_at_rest, unwrap_rotated,
}

not_absent : (r : Raw) (default : Json) → valid r ≡ true → canonical r default ≡ r
not_absent (json j) default h = refl
not_absent absent default h = cc
not_absent (malformed s) default h = cc

module _ (p : Primitives) (laws : Laws p) where
  -- A value that is no envelope is encrypted under a secret key that is there.
  encrypts :
      (config : Config) (nonce workspace_id : Str) (value : Raw) (default j : Json)
      → ReadsBack p j
      → canonical value default ≡ json j
      → length nonce ≡ nonce_size
      → is_enc (json j) ≡ false
      → is_nil (trim_space config.secret_key) ≡ false
      → (stored : Raw) × (encrypt_json_at_rest p none config (some nonce) workspace_id value default
          ≡ ok stored)
        × (is_enc stored ≡ true)
        × (canonical stored default ≡ stored)
        × (unwrap_enc p (derived_dek p config workspace_id) stored ≡ some (json j))
  unfolding encrypt_json_at_rest resolve_input_dek
  encrypts config nonce workspace_id value default j b same n x k =
      let (stored, wrapped, enveloped, opened) =
        unwrap_enc-wrap_enc p laws (derived_dek p config workspace_id) nonce j b n in
      (stored, rw (same, k, x, wrapped, or_fail) refl, enveloped, present stored enveloped, opened)
    where
      present : (r : Raw) → is_enc r ≡ true → canonical r default ≡ r
      present (json j) h = refl
      present absent h = unfold is_enc in cc
      present (malformed s) h = refl

  -- An input or a result of a workspace is stored and read back as it was under the same
  -- configuration, whatever the secret key, for every nonce of the size of AES-GCM and every
  -- JSON value that is no envelope itself and that encoding/json reads back. An absent message
  -- reads as its default.
  pub decrypt-encrypt_at_rest :
      (config : Config) (nonce workspace_id : Str) (value : Raw) (default j : Json)
      → ReadsBack p j
      → canonical value default ≡ json j
      → length nonce ≡ nonce_size
      → is_enc (json j) ≡ false
      → (stored : Raw) × (encrypt_json_at_rest p none config (some nonce) workspace_id value default
          ≡ ok stored)
        × (decrypt_json_at_rest p none config workspace_id stored default ≡ ok (json j))
  unfolding decrypt_json_at_rest resolve_input_dek
  decrypt-encrypt_at_rest config nonce workspace_id value default j b same n x =
      elim (Bool-cases (is_nil (trim_space config.secret_key))) [
        | inl blank ↦ (json j, unfold encrypt_json_at_rest in rw (same, blank) refl, rw x refl)
        | inr k ↦
            let (stored, encrypted, enveloped, there, opened) =
              encrypts config nonce workspace_id value default j b same n x k in
            (
              stored,
              encrypted,
              rw (there, enveloped, k) (rw (opened, unwrap_rotated, or_fail) refl),
            )
      ]

  -- After a rotation of the secret key, what was stored under the old key is still read back
  -- where the old key is configured as the previous one: neither key is blank, the value is no
  -- envelope itself and encoding/json reads it back, and the key of the workspace under the new
  -- secret does not open the stored value.
  pub decrypt-rotated :
      (old new : Config) (nonce workspace_id : Str) (value : Raw) (default j : Json) (stored : Raw)
      → ReadsBack p j
      → canonical value default ≡ json j
      → length nonce ≡ nonce_size
      → is_enc (json j) ≡ false
      → is_nil (trim_space old.secret_key) ≡ false
      → is_nil (trim_space new.secret_key) ≡ false
      → trim_space new.secret_key_previous ≡ trim_space old.secret_key
      → encrypt_json_at_rest p none old (some nonce) workspace_id value default ≡ ok stored
      → unwrap_enc p (derived_dek p new workspace_id) stored ≡ none
      → decrypt_json_at_rest p none new workspace_id stored default ≡ ok (json j)
  unfolding decrypt_json_at_rest resolve_input_dek derived_dek
  decrypt-rotated old new nonce workspace_id value default j stored b same n x k k' rotated e
        closed =
      let (other, encrypted, enveloped, there, opened) =
        encrypts old nonce workspace_id value default j b same n x k in
      let q : other ≡ stored = ok_inj other stored (sym encrypted ∙ e) in
      let enveloped' : is_enc stored ≡ true = subst (λ r. is_enc r ≡ true) q enveloped in
      let there' : canonical stored default ≡ stored =
        subst (λ r. canonical r default ≡ r) q there in
      let opened' =
        subst (λ r. unwrap_enc p (derived_dek p old workspace_id) r ≡ some (json j)) q opened in
      rw (there', enveloped', k')
        (rw (closed, unwrap_rotated) (rw (rotated, k, opened', or_fail) refl))
    where
      ok_inj : (a b : Raw) → ok a ≡ ok b → a ≡ b
      ok_inj a b h = cc

module _ (p : Primitives) where
  -- A stored value: one that is encrypted, or any where there is no secret key.
  stays :
      (provider : Provider) (config : Config) (random : Option Str) (workspace_id : Str) (r : Raw)
      (default : Json)
      → valid r ≡ true
      → (is_nil (trim_space config.secret_key) || is_enc r) ≡ true
      → encrypt_json_at_rest p provider config random workspace_id r default ≡ ok r
  unfolding encrypt_json_at_rest
  stays provider config random workspace_id r default v h =
      rw (not_absent r default v, v, guard, h) refl

  abbrev Stays : Provider → Config → Option Str → Str → Json → Raw → Type 0
  Stays provider config random workspace_id default r =
      encrypt_json_at_rest p provider config random workspace_id r default ≡ ok r

  -- To encrypt what is already stored changes nothing: where the first encryption of a value
  -- succeeds, the second under the same configuration gives the same, whatever the providers and
  -- the nonces of the two.
  pub encrypt-encrypt_at_rest :
      (provider provider' : Provider) (config : Config) (random random' : Option Str)
      (workspace_id : Str) (value : Raw) (default : Json) (stored : Raw)
      → encrypt_json_at_rest p provider config random workspace_id value default ≡ ok stored
      → encrypt_json_at_rest p provider' config random' workspace_id stored default ≡ ok stored
  encrypt-encrypt_at_rest provider provider' config random random' workspace_id value default stored
        e =
      Ensures-ok (Stays provider' config random' workspace_id default)
        (encrypt_json_at_rest p provider config random workspace_id value default) first e
    where
      wrapped :
          (o : Option Raw)
          → ((r : Raw) → o ≡ some r → (valid r ≡ true) × (is_enc r ≡ true))
          → Ensures (Stays provider' config random' workspace_id default) (or_fail o crypto_failure)
      wrapped none h = tt
      wrapped (some r) h =
          let (v, x) = h r refl in
          stays provider' config random' workspace_id r default v (rw x (ground arith))

      first :
          Ensures
            (Stays provider' config random' workspace_id default)
            (encrypt_json_at_rest p provider config random workspace_id value default)
      first =
          unfold encrypt_json_at_rest in
          Ensures-guard (Stays provider' config random' workspace_id default)
            (valid (canonical value default)) _ _
            λ v.
              elim (Bool-cases
                (is_nil (trim_space config.secret_key) || is_enc (canonical value default))) [
                  | inl h ↦ rw h (
                      stays provider' config random' workspace_id (canonical value default) default
                        v h)
                  | inr h ↦ rw h (
                      Ensures-bind (Stays provider' config random' workspace_id default)
                        (resolve_input_dek p provider config workspace_id) _
                        λ dek _.
                          wrapped (wrap_enc p random dek (canonical value default))
                            (λ r. wrap_enc-IsEnvelope p random dek (canonical value default) r))
                ]
