-- ===== src/Str.antt =====
-- Go strings as lists of code points, and what the code uses of package strings.
pub mod Order
use Prim.Native.String.{String}
use Prim.Native.Char.{code}
use windforce_lite.Prelude.{
  ℕ, zero, suc, ◌+◌, ◌/◌, ◌%◌, ◌≡◌, refl, ap, ite, Bool, true, false, ◌&&◌, ◌||◌, List, [], ◌∷◌,
  arith, ltb, leb, ◌==◌, is_nil, length, ◌≤◌, if◌then◌else◌, ℕ_discrete, Bool-cases, inl, inr,
}
use windforce_lite.Prelude.Int.{ℤ, pos, negsuc}

abbrev pub Str : Type 0
Str = List ℕ

-- A string literal.
abbrev pub str : String → Str
str String.[] = []
str (String.◌∷◌ c s) = code c ∷ str s

-- Equality of strings, decided.
unfoldable pub str_dec : Discrete Str
unfolding ℕ_discrete
str_dec [] [] = yes refl
str_dec [] (d ∷ t) = no λ e. cc
str_dec (c ∷ s) [] = no λ e. cc
str_dec (c ∷ s) (d ∷ t) = elim (ℕ_discrete c d) [
  | no q ↦ no (λ e. q (cc))
  | yes p ↦ elim (str_dec s t) [ yes r ↦ yes (cc) | no q ↦ no (λ e. q (cc)) ]
]

-- s == t
abbrev pub str_eq : Str → Str → Bool
str_eq s t = ite (str_dec s t) true false

-- s < t, which on the bytes of UTF-8 is the order of the code points.
unfoldable pub str_ltb : Str → Str → Bool
str_ltb s [] = false
str_ltb [] (d ∷ t) = true
str_ltb (c ∷ s) (d ∷ t) = ltb c d || (c == d && str_ltb s t)

pub str_ltb_trans : (s t u : Str) → str_ltb s t ≡ true → str_ltb t u ≡ true → str_ltb s u ≡ true
unfolding str_ltb
str_ltb_trans [] [] u h k = cc
str_ltb_trans (c ∷ s) [] u h k = cc
str_ltb_trans [] (d ∷ t) [] h k = cc
str_ltb_trans [] (d ∷ t) (e ∷ u) h k = refl
str_ltb_trans (c ∷ s) (d ∷ t) [] h k = cc
str_ltb_trans (c ∷ s) (d ∷ t) (e ∷ u) h k = ground (arith, str_ltb_trans s t u)

pub str_ltb_total : (s t : Str) → str_ltb s t ≡ false → str_ltb t s ≡ false → s ≡ t
unfolding str_ltb
str_ltb_total [] [] h k = refl
str_ltb_total (c ∷ s) [] h k = cc
str_ltb_total [] (d ∷ t) h k = cc
str_ltb_total (c ∷ s) (d ∷ t) h k = ground (arith, str_ltb_total s t)

pub str_ltb_irrefl : (s : Str) → str_ltb s s ≡ false
unfolding str_ltb
str_ltb_irrefl [] = refl
str_ltb_irrefl (c ∷ s) = ground (arith, str_ltb_irrefl s)

-- unicode.IsSpace
is_space : ℕ → Bool
is_space c =
    (leb 9 c && leb c 13)
    || c == 32
    || c == 0x85
    || c == 0xa0
    || c == 0x1680
    || (leb 0x2000 c && leb c 0x200a)
    || c == 0x2028
    || c == 0x2029
    || c == 0x202f
    || c == 0x205f
    || c == 0x3000

trim_left : Str → Str
trim_left [] = []
trim_left (c ∷ s) = if is_space c then trim_left s else c ∷ s

trim_right : Str → Str
trim_right [] = []
trim_right (c ∷ s) = let r = trim_right s in if is_nil r && is_space c then [] else c ∷ r

-- strings.TrimSpace
unfoldable pub trim_space : Str → Str
unfolding trim_left trim_right is_space
trim_space s = trim_right (trim_left s)

trim_right-trim_right : (s : Str) → trim_right (trim_right s) ≡ trim_right s
unfolding trim_right
trim_right-trim_right [] = refl
trim_right-trim_right (c ∷ s) = ground (arith, trim_right-trim_right s)

length-trim_left-le : (s : Str) → length (trim_left s) ≤ length s
unfolding trim_left
length-trim_left-le [] = omega arith
length-trim_left-le (c ∷ s) = ground (arith, length-trim_left-le s)

-- A text that begins with no space begins with none when its end is trimmed.
trim_left-trim_right : (s : Str) → trim_left s ≡ s → trim_left (trim_right s) ≡ trim_right s
unfolding trim_left trim_right
trim_left-trim_right [] h = refl
trim_left-trim_right (c ∷ s) h = elim (Bool-cases (is_space c)) [
  | inl e ↦ absurd (omega (arith, ap length (rw e at h), length-trim_left-le s))
  | inr e ↦ ground arith
]

trim_left-trim_left : (s : Str) → trim_left (trim_left s) ≡ trim_left s
unfolding trim_left
trim_left-trim_left [] = refl
trim_left-trim_left (c ∷ s) = ground (arith, trim_left-trim_left s)

-- To trim a trimmed text changes nothing.
pub trim_space-trim_space : (s : Str) → trim_space (trim_space s) ≡ trim_space s
unfolding trim_space
trim_space-trim_space s =
    rw (trim_left-trim_right (trim_left s) (trim_left-trim_left s), trim_right-trim_right)

-- strings.HasPrefix
unfoldable pub has_prefix : Str → Str → Bool
has_prefix s [] = true
has_prefix [] (d ∷ prefix) = false
has_prefix (c ∷ s) (d ∷ prefix) = c == d && has_prefix s prefix

-- strings.TrimPrefix
unfoldable pub trim_prefix : Str → Str → Str
trim_prefix s [] = s
trim_prefix [] (d ∷ prefix) = []
trim_prefix (c ∷ s) (d ∷ prefix) = trim_prefix s prefix

-- The digits of a number, in front of those already written; the number is fuel enough.
decimal : ℕ → ℕ → Str → Str
decimal zero n rest = (b'0' + n % 10) ∷ rest
decimal (suc fuel) n rest =
    let more = decimal fuel (n / 10) ((b'0' + n % 10) ∷ rest) in
    if ltb n 10 then (b'0' + n) ∷ rest else more

-- %d
unfoldable pub format_int : ℤ → Str
unfolding decimal
format_int (pos n) = decimal n n []
format_int (negsuc n) = b'-' ∷ decimal (suc n) (suc n) []

formats : format_int (negsuc 119) ≡ str "-120"
unfolding format_int
formats = refl

trims : trim_space (str " a b\n") ≡ str "a b"
unfolding trim_space
trims = refl
