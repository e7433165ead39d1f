-- ===== src/Token/Examples.antt =====
-- A toy encoding that keeps its promises: each character is moved out of the reach of the dot.
use windforce_lite.Prelude.{
  ◌+◌, ◌-◌, ◌≡◌, refl, ap, true, none, some, List, [], ◌∷◌, ◌++◌, if◌then◌else◌, arith, ℕ_discrete,
}
use windforce_lite.Prelude.Int.{pos}
use windforce_lite.Str.{Str, str, str_dec}
use windforce_lite.Contract.{contains}
use windforce_lite.Token.{
  JobClaims, Primitives, split_last, is_expired, mint_job, read_claims, verify_job, verify_job_any,
}
use windforce_lite.Token.Verified.{Laws, IsSigned, verify_job_any-IsSigned, verify_job_any-mint_job}

shift : Str → Str
shift [] = []
shift (c ∷ s) = (c + 1_000) ∷ shift s

unshift : Str → Str
unshift [] = []
unshift (c ∷ s) = (c - 1_000) ∷ unshift s

unshift-shift : (s : Str) → unshift (shift s) ≡ s
unfolding shift unshift
unshift-shift [] = refl
unshift-shift (c ∷ s) = ground (arith, unshift-shift s)

split_last-shift : (s : Str) → split_last (shift s) ≡ none
unfolding shift split_last
split_last-shift [] = refl
split_last-shift (c ∷ s) = rw (split_last-shift s) (ground arith)

abbrev claims : JobClaims
claims = record { workspace = str "team"; job_id = str "job_1"; subject = str "ann"; exp = pos 100 }

abbrev toy : Primitives
toy = record {
  encode = shift;
  decode = λ s. some (unshift s);
  hmac = λ secret msg. secret ++ msg;
  marshal = λ c. c.job_id;
  unmarshal = λ s. some claims;
}

toy-Laws : Laws toy
toy-Laws = record {
  decode_encode = λ s. ap some (unshift-shift s);
  encode_undotted = split_last-shift;
}

abbrev secrets : List Str
secrets = str "new" ∷ str "old" ∷ []

abbrev minted : Str
minted = mint_job toy (str "old") claims

minted_accepted : verify_job_any toy secrets minted 100 ≡ some claims
unfolding mint_job verify_job_any verify_job shift unshift str_dec ℕ_discrete is_expired
minted_accepted = refl

minted_expired : verify_job_any toy secrets minted 101 ≡ none
unfolding mint_job verify_job_any verify_job shift unshift str_dec ℕ_discrete is_expired
minted_expired = refl

old_in_use : contains (str "old") secrets ≡ true
unfolding contains str_dec ℕ_discrete
old_in_use = refl

verify_job_any-mint_job_example :
    verify_job_any toy secrets minted 100
    ≡ (if is_expired claims.exp 100 then none else some claims)
verify_job_any-mint_job_example =
    verify_job_any-mint_job toy toy-Laws (str "old") claims 100 refl secrets refl old_in_use

verify_job_any-IsSigned_example :
    (secret : Str) × (payload : Str) × (contains secret secrets ≡ true)
    × IsSigned toy secret payload minted
    × (read_claims toy payload 100 ≡ some claims)
verify_job_any-IsSigned_example =
    verify_job_any-IsSigned toy secrets minted 100 claims minted_accepted
