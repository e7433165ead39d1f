-- ===== src/Token/Verified.antt =====
-- Which tokens are accepted: those that were signed with one of the secrets.
use windforce_lite.Prelude.{
  ℕ, ◌==◌, ◌≡◌, refl, ◌∙◌, ap, not, Bool, true, false, ◌&&◌, ◌||◌, Option, Option-cases, none, some,
  List, [], ◌∷◌, ◌++◌, if◌then◌else◌, is_nil, Bool-cases, inl, inr, arith,
}
use windforce_lite.Str.{Str, str, str_eq, has_prefix, trim_prefix}
use windforce_lite.Crypto.{◌>>=◌}
use windforce_lite.Contract.{contains, job_token_prefix}
use windforce_lite.Token.{
  JobClaims, Primitives, split_last, is_expired, only_if, sign, mint_job, read_claims, verify_job,
  verify_job_any, or_next,
}

-- What the documentation of the standard library promises: base64 is read back, and its alphabet for
-- URLs has no dot.
pub record Laws (p : Primitives) : Type 0 where
  pub decode_encode : (s : Str) → p.decode (p.encode s) ≡ some s
  pub encode_undotted : (s : Str) → split_last (p.encode s) ≡ none

some_inj {ℓ} : {A : Type ℓ} {a b : A} → some a ≡ some b → a ≡ b
some_inj e = cc

split_last-append : (s t : Str) → split_last t ≡ none → split_last (s ++ b'.' ∷ t) ≡ some (s, t)
unfolding split_last
split_last-append [] t h = rw h
split_last-append (c ∷ s) t h = rw (split_last-append s t h)

split_last_inv :
    (s before after : Str) → split_last s ≡ some (before, after) → s ≡ before ++ b'.' ∷ after
unfolding split_last
split_last_inv [] before after h = cc
split_last_inv (c ∷ s) before after h = elim (Option-cases (split_last s)) [
  | inr ((first, rest), e) ↦
      let same : (c ∷ first, rest) ≡ (before, after) = some_inj (rw e at h) in
      ap (λ (r : Str). c ∷ r) (split_last_inv s first rest e)
      ∙ ap (λ (r : Str × Str). r.0 ++ b'.' ∷ r.1) same
  | inl e ↦ elim (Bool-cases (c == b'.')) [
    | inl dot ↦
        let same : ([], s) ≡ (before, after) = some_inj (rw (e, dot) at h) in
        ap (λ d. d ∷ s) (ground arith) ∙ ap (λ (r : Str × Str). r.0 ++ b'.' ∷ r.1) same
    | inr other ↦ cc (rw (e, other) at h)
  ]
]

has_prefix-trim_prefix :
    (s prefix : Str) → has_prefix s prefix ≡ true → s ≡ prefix ++ trim_prefix s prefix
unfolding has_prefix trim_prefix
has_prefix-trim_prefix s [] h = refl
has_prefix-trim_prefix [] (d ∷ prefix) h = cc
has_prefix-trim_prefix (c ∷ s) (d ∷ prefix) h = ground (arith, has_prefix-trim_prefix s prefix)

module _ (p : Primitives) where
  -- The token is a payload and its signature under the secret, which is not empty.
  abbrev pub IsSigned : Str → Str → Str → Type 0
  IsSigned secret payload tok =
      (is_nil secret ≡ false)
      × (tok ≡ job_token_prefix ++ (payload ++ (str "." ++ sign p secret payload)))

  verify_job-IsSigned :
      (secret tok : Str) (now : ℕ) (c : JobClaims)
      → verify_job p secret tok now ≡ some c
      → (payload : Str) × IsSigned secret payload tok × (read_claims p payload now ≡ some c)
  unfolding verify_job
  verify_job-IsSigned secret tok now c h =
      elim (Bool-cases (is_nil secret || not (has_prefix tok job_token_prefix))) [
        | inl q ↦ cc (rw q at h)
        | inr q ↦ elim (Option-cases (split_last (trim_prefix tok job_token_prefix))) [
          | inl e ↦ cc (rw (q, e) at h)
          | inr ((payload, mac), e) ↦ elim (Bool-cases (str_eq mac (sign p secret payload))) [
            | inr n ↦ cc (rw (q, e, n) at h)
            | inl fits ↦ (
              payload,
              (
                ground arith,
                has_prefix-trim_prefix tok job_token_prefix (ground arith)
                    ∙ ap (λ (r : Str). job_token_prefix ++ r)
                        (split_last_inv (trim_prefix tok job_token_prefix) payload mac e
                          ∙ ap (λ (r : Str). payload ++ b'.' ∷ r) (ground (arith, str_eq))),
              ),
              rw (q, e, fits) at h,
            )
          ]
        ]
      ]

  -- No token is accepted without a signature: if a token is verified against some secrets, it is a
  -- payload with its signature under one of them that is not empty, and the claims are those of the
  -- payload, which has not expired.
  pub verify_job_any-IsSigned :
      (secrets : List Str) (tok : Str) (now : ℕ) (c : JobClaims)
      → verify_job_any p secrets tok now ≡ some c
      → (secret : Str) × (payload : Str) × (contains secret secrets ≡ true)
        × IsSigned secret payload tok
        × (read_claims p payload now ≡ some c)
  unfolding verify_job_any contains
  verify_job_any-IsSigned [] tok now c h = cc
  verify_job_any-IsSigned (secret ∷ secrets) tok now c h =
      elim (Option-cases (verify_job p secret tok now)) [
        | inr (d, e) ↦
            let (payload, signed, reads) = verify_job-IsSigned secret tok now d e in
            (secret, payload, ground (arith, str_eq), signed, reads ∙ (rw e at h))
        | inl e ↦
            let (other, payload, there, is_signed, reads) =
              verify_job_any-IsSigned secrets tok now c (rw e at h) in
            (other, payload, ground (arith, there), is_signed, reads)
      ]

  module _ (laws : Laws p) (secret : Str) (c : JobClaims) (now : ℕ)
      (reads_back : p.unmarshal (p.marshal c) ≡ some c) where
    abbrev payload : Str
    payload = p.encode (p.marshal c)

    abbrev unless_expired : Option JobClaims
    unless_expired = if is_expired c.exp now then none else some c

    read_claims-minted : read_claims p payload now ≡ unless_expired
    unfolding read_claims
    read_claims-minted =
        rw (laws.decode_encode (p.marshal c), reads_back)
          (elim (Bool-cases (is_expired c.exp now)) [ inl e ↦ rw e | inr e ↦ rw e ])

    signed :
        (fits : Bool)
        → (only_if fits >>= λ signed. unless_expired) ≡ (if fits then unless_expired else none)
    signed true = refl
    signed false = refl

    verify_job-mint_job :
        (other : Str)
        → verify_job p other (mint_job p secret c) now ≡ (
            if not (is_nil other) && str_eq (sign p secret payload) (sign p other payload)
            then unless_expired
            else none)
    unfolding verify_job mint_job
    verify_job-mint_job other = elim (Bool-cases (is_nil other)) [
      | inl e ↦ rw e
      | inr e ↦
          rw (e, split_last-append payload (sign p secret payload) (laws.encode_undotted _))
            (rw read_claims-minted (signed (str_eq (sign p secret payload) (sign p other payload))))
    ]

    fits : Str → Bool
    fits other = not (is_nil other) && str_eq (sign p secret payload) (sign p other payload)

    any_fits : List Str → Bool
    any_fits [] = false
    any_fits (other ∷ secrets) = fits other || any_fits secrets

    joined :
        (here rest : Bool)
        → or_next (if here then unless_expired else none) (if rest then unless_expired else none)
          ≡ (if here || rest then unless_expired else none)
    joined here rest = elim (Bool-cases (is_expired c.exp now)) [
      | inl e ↦ rw e (ground arith)
      | inr e ↦ rw e (ground arith)
    ]

    verify_job_any-fits :
        (secrets : List Str)
        → verify_job_any p secrets (mint_job p secret c) now
          ≡ (if any_fits secrets then unless_expired else none)
    unfolding verify_job_any any_fits fits
    verify_job_any-fits [] = refl
    verify_job_any-fits (other ∷ secrets) =
        rw (verify_job-mint_job other, verify_job_any-fits secrets)
          (joined (fits other) (any_fits secrets))

    fits_own :
        (other : Str) → is_nil secret ≡ false → str_eq other secret ≡ true → fits other ≡ true
    unfolding fits
    fits_own other n e =
        let same : other ≡ secret = ground (arith, str_eq) in rw (same, n) (ground arith)

    any_fits-member :
        (secrets : List Str)
        → is_nil secret ≡ false
        → contains secret secrets ≡ true
        → any_fits secrets ≡ true
    unfolding any_fits contains
    any_fits-member [] n h = cc
    any_fits-member (other ∷ secrets) n h =
        ground (arith, fits_own other n, any_fits-member secrets n)

    -- A token that is minted with one of the secrets is verified against all of them, whichever comes
    -- first, until it expires, and gives the claims that it was minted with: the secret is not empty,
    -- and encoding/json reads the claims back.
    pub verify_job_any-mint_job :
        (secrets : List Str)
        → is_nil secret ≡ false
        → contains secret secrets ≡ true
        → verify_job_any p secrets (mint_job p secret c) now ≡ unless_expired
    verify_job_any-mint_job secrets n h =
        verify_job_any-fits secrets ∙ rw (any_fits-member secrets n h)
