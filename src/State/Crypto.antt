-- ===== src/State/Crypto.antt =====
-- internal/state/crypto.go: inputs and results are encrypted at rest under the key of their workspace.
pub mod Roundtrip
mod Examples
use windforce_lite.Prelude.{
  Bool, true, false, not, ◌&&◌, ◌||◌, Option, none, some, List, [], ◌∷◌, ◌++◌, if◌then◌else◌,
  is_nil,
}
use windforce_lite.Prelude.Int.{ℤ}
use windforce_lite.Str.{Str, trim_space}
use windforce_lite.Json.{Json, Raw, json, absent, object, no_fields, null, valid, is_absent}
use windforce_lite.Contract.{normalize_workspace}
use windforce_lite.Crypto.{
  Primitives, derive_workspace_key, derive_kek, resolve_dek, wrap_enc, unwrap_enc, is_enc,
}
use windforce_lite.State.Types.{Err, invalid_json, crypto_failure}
use windforce_lite.State.Result.{Result, ok, err, ◌>>=◌, ◌>>◌, guard, or_fail}
use windforce_lite.State.AtRest.{AtRest}

-- inputCryptoConfig
pub record Config : Type 0 where
  pub secret_key : Str
  pub secret_key_previous : Str

-- inputWorkspaceKeyProvider: the stored key of a workspace and its version. LocalStore has none.
abbrev pub Provider : Type 0
Provider = Option (Str → Result (Str × ℤ))

-- canonicalJSONValue
abbrev pub canonical : Raw → Json → Raw
canonical value default = if is_absent value then json default else value

module _ (p : Primitives) where
  unfoldable pub input_keks : Config → List Str
  input_keks config =
      derive_kek p (trim_space config.secret_key)
      ∷ (if is_nil (trim_space config.secret_key_previous)
          then []
          else derive_kek p (trim_space config.secret_key_previous) ∷ [])

  -- The key of a workspace that has no stored one.
  unfoldable pub derived_dek : Config → Str → Str
  derived_dek config workspace_id =
      derive_workspace_key p (trim_space config.secret_key) (normalize_workspace workspace_id)

  abbrev provided_dek : Config → Str → Str × ℤ → Result Str
  provided_dek config workspace_id (key, version) =
      if is_nil key
      then ok (derived_dek config workspace_id)
      else or_fail (resolve_dek p key version (input_keks config)) crypto_failure

  unfoldable pub resolve_input_dek : Provider → Config → Str → Result Str
  unfolding derived_dek
  resolve_input_dek none config workspace_id = ok (derived_dek config workspace_id)
  resolve_input_dek (some provide) config workspace_id =
      provide (normalize_workspace workspace_id) >>= provided_dek config workspace_id

  unfoldable pub encrypt_json_at_rest :
      Provider → Config → Option Str → Str → Raw → Json → Result Raw
  unfolding resolve_input_dek
  encrypt_json_at_rest provider config random workspace_id value default = do
    guard (valid (canonical value default)) invalid_json
    if is_nil (trim_space config.secret_key) || is_enc (canonical value default)
        then ok (canonical value default)
        else (do
          dek ← resolve_input_dek provider config workspace_id
          or_fail (wrap_enc p random dek (canonical value default)) crypto_failure)

  abbrev no_provider : Provider → Bool
  no_provider none = true
  no_provider (some provide) = false

  -- Where the key does not open the value, the key of the previous secret may.
  abbrev unwrap_rotated : Provider → Config → Str → Raw → Option Raw → Option Raw
  unwrap_rotated provider config workspace_id value (some plain) = some plain
  unwrap_rotated provider config workspace_id value none =
      if no_provider provider && not (is_nil (trim_space config.secret_key_previous))
      then unwrap_enc p
          (derive_workspace_key p (trim_space config.secret_key_previous)
            (normalize_workspace workspace_id))
          value
      else none

  unfoldable pub decrypt_json_at_rest : Provider → Config → Str → Raw → Json → Result Raw
  unfolding resolve_input_dek
  decrypt_json_at_rest provider config workspace_id value default =
      if not (is_enc (canonical value default)) then ok (canonical value default) else (do
        guard (not (is_nil (trim_space config.secret_key))) crypto_failure
        dek ← resolve_input_dek provider config workspace_id
        plain ←
            or_fail
              (unwrap_rotated provider config workspace_id (canonical value default)
                (unwrap_enc p dek (canonical value default)))
              crypto_failure
        guard (valid plain) invalid_json
        ok plain)

  -- The methods of LocalStore: it has no stored keys, and the random source gives one nonce.
  unfoldable pub local_at_rest : Config → Option Str → AtRest
  local_at_rest config random = record {
    encrypt_input = λ workspace_id value.
        encrypt_json_at_rest none config random workspace_id value (object no_fields);
    decrypt_input = λ workspace_id value.
        decrypt_json_at_rest none config workspace_id value (object no_fields);
    encrypt_result =
        λ workspace_id value. encrypt_json_at_rest none config random workspace_id value null;
    decrypt_result = λ workspace_id value. decrypt_json_at_rest none config workspace_id value null;
  }
