-- ===== src/Str/Order.antt =====
-- The order of strings is one that a list can be sorted by.
use windforce_lite.Prelude.{◌≡◌, true, false, arith}
use windforce_lite.Str.{Str, str_ltb, str_ltb_irrefl, str_ltb_trans, str_ltb_total}
use windforce_lite.Sort.{IsWeakOrder}

pub str_ltb_asymm : (s t : Str) → str_ltb s t ≡ true → str_ltb t s ≡ false
str_ltb_asymm s t h = ground (arith, str_ltb_trans s t s h, str_ltb_irrefl s)

pub str_ltb_weak : (s t u : Str) → str_ltb t s ≡ false → str_ltb u t ≡ false → str_ltb u s ≡ false
str_ltb_weak s t u h k = ground (arith, str_ltb_trans u s t, str_ltb_total s t)

pub str_order : IsWeakOrder str_ltb
str_order = record { asymm = str_ltb_asymm; trans = str_ltb_weak }
