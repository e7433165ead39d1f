-- ===== src/Contract/Labels.antt =====
-- What EffectiveRequiredLabels gives: the merged labels, trimmed, once each, in order.
use windforce_lite.Prelude.{◌≡◌, refl, Bool, false, ◌||◌, List, [], ◌∷◌, arith}
use windforce_lite.Str.{Str, str_eq, str_ltb, trim_space}
use windforce_lite.Sort.{sort, insert}
use windforce_lite.Contract.{contains}

-- A label of the list, once trimmed.
unfoldable pub asks : Str → List Str → Bool
asks label [] = false
asks label (raw ∷ rest) = str_eq (trim_space raw) label || asks label rest

-- No label stands twice.
abbrev pub IsDistinct : List Str → Type 0
IsDistinct [] = Unit
IsDistinct (label ∷ labels) = (contains label labels ≡ false) × IsDistinct labels

contains-insert :
    (label x : Str) (xs : List Str)
    → contains label (insert str_ltb x xs) ≡ (str_eq x label || contains label xs)
unfolding insert contains
contains-insert label x [] = refl
contains-insert label x (y ∷ ys) = ground (arith, contains-insert label x ys)

pub contains-sort :
    (label : Str) (xs : List Str) → contains label (sort str_ltb xs) ≡ contains label xs
unfolding sort contains
contains-sort label [] = refl
contains-sort label (x ∷ xs) =
    rw (contains-insert label x (sort str_ltb xs), contains-sort label xs) refl
