-- ===== src/Token.antt =====
-- internal/token/token.go: the stateless tokens by which a job calls the control plane.
pub mod Verified
mod Examples
use windforce_lite.Prelude.{
  ℕ, ltb, ◌==◌, not, Bool, true, false, ◌&&◌, ◌||◌, Option, none, some, List, [], ◌∷◌, ◌++◌,
  if◌then◌else◌, is_nil,
}
use windforce_lite.Prelude.Int.{ℤ, pos, negsuc}
use windforce_lite.Str.{Str, str, str_eq, has_prefix, trim_prefix}
use windforce_lite.Crypto.{◌>>=◌}
use windforce_lite.Contract.{job_token_prefix}

pub record JobClaims : Type 0 where
  pub workspace : Str
  pub job_id : Str
  pub subject : Str
  pub exp : ℤ

-- What the package uses of the standard library.
pub record Primitives : Type 0 where
  -- base64.RawURLEncoding
  pub encode : Str → Str
  pub decode : Str → Option Str
  -- HMAC with SHA-256: the key and the message
  pub hmac : Str → Str → Str
  -- encoding/json on the claims
  pub marshal : JobClaims → Str
  pub unmarshal : Str → Option JobClaims

-- body[:dot] and body[dot+1:] at the last dot, if there is one
unfoldable pub split_last : Str → Option (Str × Str)
split_last [] = none
split_last (c ∷ s) = elim (split_last s) [
  | some (before, after) ↦ some (c ∷ before, after)
  | none ↦ if c == b'.' then some ([], s) else none
]

unfoldable pub is_job_token : Str → Bool
is_job_token tok = has_prefix tok job_token_prefix

-- c.Exp != 0 && now > c.Exp, at a time after 1970
unfoldable pub is_expired : ℤ → ℕ → Bool
is_expired (pos exp) now = not (exp == 0) && ltb exp now
is_expired (negsuc n) now = true

abbrev pub only_if : Bool → Option (Unit {0})
only_if test = if test then some tt else none

-- if c, ok := f(); ok { return c, true }
abbrev pub or_next {ℓ} : {A : Type ℓ} → Option A → Option A → Option A
or_next none rest = rest
or_next (some a) rest = some a

module _ (p : Primitives) where
  unfoldable pub sign : Str → Str → Str
  sign secret msg = p.encode (p.hmac secret msg)

  unfoldable pub mint_job : Str → JobClaims → Str
  unfolding sign
  mint_job secret c =
      let payload = p.encode (p.marshal c) in
      job_token_prefix ++ (payload ++ (str "." ++ sign secret payload))

  -- Where the signature fits, the claims are read and their end is checked.
  unfoldable pub read_claims : Str → ℕ → Option JobClaims
  unfolding is_expired
  read_claims payload now = do
    raw ← p.decode payload
    c ← p.unmarshal raw
    live ← only_if (not (is_expired c.exp now))
    some c

  unfoldable pub verify_job : Str → Str → ℕ → Option JobClaims
  unfolding sign read_claims split_last trim_prefix has_prefix
  verify_job secret tok now =
      if is_nil secret || not (has_prefix tok job_token_prefix) then none else (do
        parts ← split_last (trim_prefix tok job_token_prefix)
        signed ← only_if (str_eq parts.1 (sign secret parts.0))
        read_claims parts.0 now)

  unfoldable pub verify_job_any : List Str → Str → ℕ → Option JobClaims
  verify_job_any [] tok now = none
  verify_job_any (secret ∷ secrets) tok now =
      or_next (verify_job secret tok now) (verify_job_any secrets tok now)
