-- ===== src/State/Result.antt =====
-- The outcome of a store operation: a value, or one of the sentinel errors.
use windforce_lite.Prelude.{
  ◌≡◌, refl, Bool, true, false, Option, none, some, ◌⊎◌, inl, inr, subst, if◌then◌else◌,
}
use windforce_lite.State.Types.{Err}

pub data Result {ℓ} (A : Type ℓ) : Type ℓ where
  ok : A → Result A
  err : Err → Result A

-- if !test { return e }
abbrev pub guard : (test : Bool) (e : Err) → Result (Unit {0})
guard test e = if test then ok tt else err e

-- v, ok := m[k]; if !ok { return e }
abbrev pub or_fail {ℓ} : {A : Type ℓ} → Option A → Err → Result A
or_fail none e = err e
or_fail (some a) e = ok a

infixl 5 ◌>>=◌ ◌>>◌
-- if err != nil { return err }
abbrev pub ◌>>=◌ {ℓ κ} :
    {Found : Type ℓ} {Next : Type κ} (step : Result Found) (rest : Found → Result Next)
    → Result Next
err e >>= rest = err e
ok found >>= rest = rest found

abbrev pub ◌>>◌ {ℓ} : {Next : Type ℓ} (check : Result (Unit {0})) (rest : Result Next) → Result Next
check >> rest = check >>= λ done. rest

pub Result-cases {ℓ} :
    {A : Type ℓ} (r : Result A) → ((a : A) × (r ≡ ok a)) ⊎ ((e : Err) × (r ≡ err e))
Result-cases (ok a) = inl (a, refl)
Result-cases (err e) = inr (e, refl)

-- Every success has the property.
abbrev pub Ensures {ℓ κ} : {A : Type ℓ} → (A → Type κ) → Result A → Type κ
Ensures P (ok a) = P a
Ensures P (err e) = Unit

pub Ensures-bind {ℓ κ μ} :
    {A : Type ℓ} {B : Type κ} (P : B → Type μ) (m : Result A) (f : A → Result B)
    → ((a : A) → m ≡ ok a → Ensures P (f a))
    → Ensures P (m >>= f)
Ensures-bind P (ok a) f h = h a refl
Ensures-bind P (err e) f h = tt

pub Ensures-guard {ℓ κ} :
    {B : Type ℓ} (P : B → Type κ) (b : Bool) (e : Err) (m : Result B)
    → (b ≡ true → Ensures P m)
    → Ensures P (guard b e >> m)
Ensures-guard P true e m h = h refl
Ensures-guard P false e m h = tt

pub Ensures-or_fail {ℓ κ μ} :
    {A : Type ℓ} {B : Type κ} (P : B → Type μ) (o : Option A) (e : Err) (f : A → Result B)
    → ((a : A) → o ≡ some a → Ensures P (f a))
    → Ensures P (or_fail o e >>= f)
Ensures-or_fail P none e f h = tt
Ensures-or_fail P (some a) e f h = h a refl

ok_inj {ℓ} : {A : Type ℓ} (a b : A) → ok a ≡ ok b → a ≡ b
ok_inj a b p = cc

pub Ensures-ok {ℓ κ} :
    {A : Type ℓ} (P : A → Type κ) (r : Result A) {a : A} → Ensures P r → r ≡ ok a → P a
Ensures-ok P (ok b) h p = subst P (ok_inj _ _ p) h
Ensures-ok P (err e) h p = cc

pub Ensures-imp {ℓ κ μ} :
    {A : Type ℓ} (P : A → Type κ) (Q : A → Type μ) (r : Result A)
    → ((a : A) → P a → Q a)
    → Ensures P r
    → Ensures Q r
Ensures-imp P Q (ok a) h p = h a p
Ensures-imp P Q (err e) h p = tt
