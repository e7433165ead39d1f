-- ===== src/Crypto/Roundtrip.antt =====
-- What is encrypted under a key is read back under it.
use windforce_lite.Prelude.{
  ℕ_discrete, All, ltb, ◌+◌, ◌≡◌, refl, sym, ap, ◌∙◌, true, false, Option, none, some, List, [],
  ◌∷◌, ◌++◌, is_nil, length, arith, Bool-cases, inl, inr,
}
use mathlib.Core.Option.{some-injective}
use windforce_lite.Str.{Str, str_dec}
use windforce_lite.Json.{Json, Raw, json, find_field, valid}
use windforce_lite.Crypto.{
  Primitives, ◌>>=◌, nonce_size, take, drop, encrypt, decrypt, unwrap_dek, wrap_enc, unwrap_enc,
  is_enc, envelope_text, envelope, raw_of, raw_text,
}

-- What the documentation of the standard library promises.
pub record Laws (p : Primitives) : Type 0 where
  pub decode_encode : (s : Str) → p.decode (p.encode s) ≡ some s
  pub open_seal : (key nonce s : Str) → p.open_sealed key nonce (p.seal key nonce s) ≡ some s

-- encoding/json reads back what it wrote of the value.
pub record ReadsBack (p : Primitives) (j : Json) : Type 0 where
  pub unmarshal_marshal : p.unmarshal (p.marshal j) ≡ some j
  pub marshal_some : is_nil (p.marshal j) ≡ false

take-append : (s t : Str) → take (length s) (s ++ t) ≡ s
unfolding take
take-append [] t = refl
take-append (c ∷ s) t = ap (λ r. c ∷ r) (take-append s t)

drop-append : (s t : Str) → drop (length s) (s ++ t) ≡ t
unfolding drop
drop-append [] t = refl
drop-append (c ∷ s) t = drop-append s t

length-append : (s t : Str) → length (s ++ t) ≡ length s + length t
length-append [] t = omega arith
length-append (c ∷ s) t = omega (arith, length-append s t)

-- The envelope of a ciphertext is one, and carries it.
pub envelope-read :
    (ct : Str)
    → (is_enc (json (envelope ct)) ≡ true) × (envelope_text (json (envelope ct)) ≡ some ct)
unfolding is_enc envelope_text find_field str_dec ℕ_discrete
envelope-read ct = (refl, refl)

-- What WrapEnc gives is valid, and an envelope.
pub wrap_enc-IsEnvelope :
    (p : Primitives) (random : Option Str) (dek : Str) (value r : Raw)
    → wrap_enc p random dek value ≡ some r
    → (valid r ≡ true) × (is_enc r ≡ true)
unfolding wrap_enc
wrap_enc-IsEnvelope p random dek value r = by_text (encrypt p random dek (raw_text p value))
  where
    by_text :
        (o : Option Str)
        → (o >>= λ ct. some (json (envelope ct))) ≡ some r
        → (valid r ≡ true) × (is_enc r ≡ true)
    by_text none h = cc
    by_text (some ct) h =
        let same : json (envelope ct) ≡ r = some-injective (json (envelope ct)) r h in
        (ap valid (sym same), ap is_enc (sym same) ∙ (envelope-read ct).0)

module _ (p : Primitives) (laws : Laws p) where
  -- Decrypt reverses Encrypt under the same key, for every nonce of the size of AES-GCM.
  pub decrypt-encrypt :
      (key nonce s : Str)
      → length nonce ≡ nonce_size
      → (ct : Str) × (encrypt p (some nonce) key s ≡ some ct) × (decrypt p key ct ≡ some s)
  unfolding encrypt decrypt
  decrypt-encrypt key nonce s n = (p.encode (nonce ++ p.seal key nonce s), refl, opened)
    where
      long : ltb (length (nonce ++ p.seal key nonce s)) nonce_size ≡ false
      long = rw (length-append nonce (p.seal key nonce s), n) (ground arith)

      opened : decrypt p key (p.encode (nonce ++ p.seal key nonce s)) ≡ some s
      opened = rw (laws.decode_encode (nonce ++ p.seal key nonce s)) (
          rw long (
            rw
              (
                ap (λ k. take k (nonce ++ p.seal key nonce s)) (sym n)
                    ∙ take-append nonce (p.seal key nonce s),
                ap (λ k. drop k (nonce ++ p.seal key nonce s)) (sym n)
                    ∙ drop-append nonce (p.seal key nonce s),
              )
              (laws.open_seal key nonce s)))

  raw_of-marshal :
      (j : Json) → ReadsBack p j → raw_of (p.marshal j) (p.unmarshal (p.marshal j)) ≡ json j
  raw_of-marshal j r = rw r.unmarshal_marshal (by_bytes (p.marshal j) r.marshal_some)
    where
      by_bytes : (s : Str) → is_nil s ≡ false → raw_of s (some j) ≡ json j
      by_bytes [] h = cc
      by_bytes (c ∷ s) h = refl

  -- UnwrapEnc reverses WrapEnc under the same key; what WrapEnc gives is an envelope.
  pub unwrap_enc-wrap_enc :
      (key nonce : Str) (j : Json)
      → ReadsBack p j
      → length nonce ≡ nonce_size
      → (stored : Raw) × (wrap_enc p (some nonce) key (json j) ≡ some stored)
        × (is_enc stored ≡ true)
        × (unwrap_enc p key stored ≡ some (json j))
  unfolding wrap_enc unwrap_enc
  unwrap_enc-wrap_enc key nonce j r n =
      let (ct, encrypted, decrypted) = decrypt-encrypt key nonce (p.marshal j) n in
      let (enveloped, carried) = envelope-read ct in
      (
        json (envelope ct),
        rw encrypted refl,
        enveloped,
        rw (enveloped, carried, decrypted, raw_of-marshal j r) refl,
      )

  -- A key that was encrypted under one of the candidates, not an empty one, is found by the loop
  -- over the candidates if none before that one opens it, whatever follows.
  pub unwrap_dek-rotated :
      (older : List Str) (kek nonce dek stored : Str)
      → length nonce ≡ nonce_size
      → encrypt p (some nonce) kek dek ≡ some stored
      → is_nil kek ≡ false
      → All (λ k. decrypt p k stored ≡ none) older
      → (newer : List Str) → unwrap_dek p (older ++ kek ∷ newer) stored ≡ some dek
  unfolding unwrap_dek
  unwrap_dek-rotated [] kek nonce dek stored n e h f newer =
      let (ct, encrypted, decrypted) = decrypt-encrypt kek nonce dek n in
      let same : stored ≡ ct = some-injective stored ct (sym e ∙ encrypted) in
      rw (h, same, decrypted) refl
  unwrap_dek-rotated (k ∷ older) kek nonce dek stored n e h f newer =
      let rest = unwrap_dek-rotated older kek nonce dek stored n e h f.1 newer in
      elim (Bool-cases (is_nil k)) [ inl x ↦ rw x rest | inr x ↦ rw (x, f.0) rest ]
