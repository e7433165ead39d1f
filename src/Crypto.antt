-- ===== src/Crypto.antt =====
-- internal/crypto: the envelope of an encrypted JSON value, and the keys it is encrypted under.
pub mod Roundtrip
use windforce_lite.Prelude.{
  ℕ, zero, suc, ltb, ◌==◌, Bool, true, false, not, Option, none, some, List, [], ◌∷◌, ◌++◌,
  if◌then◌else◌, is_nil, length,
}
use windforce_lite.Prelude.Int.{ℤ, pos}
use windforce_lite.Str.{Str, str}
use windforce_lite.Json.{
  Json, Raw, json, absent, malformed, Fields, no_fields, field, find_field, object, text, number,
  null,
}

-- The parts of the standard library that the package builds on. A byte sequence is a list of numbers
-- as a text is; the keys are those that SHA-256 makes.
pub record Primitives : Type 0 where
  -- base64.StdEncoding
  pub encode : Str → Str
  pub decode : Str → Option Str
  -- cipher.AEAD under the key of a text: the key, the nonce and the text
  pub seal : Str → Str → Str → Str
  pub open_sealed : Str → Str → Str → Option Str
  -- SHA-256 of a text, in base64 without padding
  pub digest : Str → Str
  -- encoding/json
  pub marshal : Json → Str
  pub unmarshal : Str → Option Json

infixl 5 ◌>>=◌
abbrev pub ◌>>=◌ {ℓ κ} : {A : Type ℓ} {B : Type κ} → Option A → (A → Option B) → Option B
none >>= f = none
some a >>= f = f a

-- aead.NonceSize() of AES-GCM
abbrev pub nonce_size : ℕ
nonce_size = 12

-- raw[:n] and raw[n:]
unfoldable pub take : ℕ → Str → Str
take zero s = []
take (suc n) [] = []
take (suc n) (c ∷ s) = c ∷ take n s

unfoldable pub drop : ℕ → Str → Str
drop zero s = s
drop (suc n) [] = []
drop (suc n) (c ∷ s) = drop n s

module _ (p : Primitives) where
  unfoldable pub derive_workspace_key : Str → Str → Str
  derive_workspace_key secret workspace_id = p.digest (secret ++ str ":" ++ workspace_id)

  unfoldable pub derive_kek : Str → Str
  derive_kek secret = p.digest (secret ++ str ":wsdek-kek")

  -- The nonce is what the random source gives, if it does.
  unfoldable pub encrypt : Option Str → Str → Str → Option Str
  encrypt random key plaintext = do
    nonce ← random
    some (p.encode (nonce ++ p.seal key nonce plaintext))

  unfoldable pub decrypt : Str → Str → Option Str
  unfolding take drop
  decrypt key encoded = do
    raw ← p.decode encoded
    if ltb (length raw) nonce_size
        then none
        else p.open_sealed key (take nonce_size raw) (drop nonce_size raw)

  -- The loop over the candidate keys: the first that opens the stored key.
  unfoldable pub unwrap_dek : List Str → Str → Option Str
  unwrap_dek [] stored = none
  unwrap_dek (kek ∷ keks) stored =
      let rest = unwrap_dek keks stored in
      if is_nil kek then rest else (elim (decrypt kek stored) [ none ↦ rest | some dek ↦ some dek ])

  -- Version 0 is a stored key that is the key itself.
  unfoldable pub resolve_dek : Str → ℤ → List Str → Option Str
  resolve_dek stored (pos zero) keks = some stored
  resolve_dek stored version keks = unwrap_dek keks stored

-- "__wf_enc"
abbrev pub enc_marker_key : Str
enc_marker_key = str "__wf_enc"

abbrev pub is_some {ℓ} : {A : Type ℓ} → Option A → Bool
is_some none = false
is_some (some a) = true

-- Whether the value is an object with the marker.
unfoldable pub is_enc : Raw → Bool
is_enc (json (object fs)) = is_some (find_field enc_marker_key fs)
is_enc _ = false

abbrev pub envelope : Str → Json
envelope ct = object (field enc_marker_key (number (pos 1)) (field (str "ct") (text ct) no_fields))

-- json.Unmarshal into encEnvelope: a number or nothing for the version, a text or nothing for the
-- ciphertext. The names of the fields are read exactly.
abbrev pub version_fits : Option Json → Bool
version_fits none = true
version_fits (some null) = true
version_fits (some (number n)) = true
version_fits (some _) = false

abbrev pub text_field : Option Json → Option Str
text_field none = some []
text_field (some null) = some []
text_field (some (text ct)) = some ct
text_field (some _) = none

unfoldable pub envelope_text : Raw → Option Str
envelope_text (json (object fs)) =
    if version_fits (find_field enc_marker_key fs)
    then text_field (find_field (str "ct") fs)
    else none
envelope_text _ = none

abbrev pub raw_text : Primitives → Raw → Str
raw_text p absent = []
raw_text p (json j) = p.marshal j
raw_text p (malformed s) = s

unfoldable pub wrap_enc : Primitives → Option Str → Str → Raw → Option Raw
wrap_enc p random dek plaintext = do
  ct ← encrypt p random dek (raw_text p plaintext)
  some (json (envelope ct))

-- What bytes stand for: nothing, a value, or no JSON.
abbrev pub raw_of : Str → Option Json → Raw
raw_of [] o = absent
raw_of (c ∷ s) none = malformed (c ∷ s)
raw_of (c ∷ s) (some j) = json j

unfoldable pub unwrap_enc : Primitives → Str → Raw → Option Raw
unfolding is_enc envelope_text
unwrap_enc p dek value = if not (is_enc value) then some value else (do
  ct ← envelope_text value
  plain ← decrypt p dek ct
  some (raw_of plain (p.unmarshal plain)))
