-- ===== src/Table.antt =====
-- Go maps with string keys, as association lists. Go leaves the order of a `range` loop open: a
-- loop here goes in the order of the list, and a statement about every list is one about every order.
pub mod Laws
use windforce_lite.Prelude.{
  ℕ, suc, ◌≡◌, ite, Bool, Option, none, some, List, [], ◌∷◌, map, if◌then◌else◌,
}
use windforce_lite.Str.{Str, str_dec}

abbrev pub Table {ℓ} : Type ℓ → Type ℓ
Table V = List (Str × V)

module _ {ℓ} {V : Type ℓ} where
  -- v, ok := m[k]
  unfoldable pub get : Str → Table V → Option V
  get k [] = none
  get k ((j, v) ∷ m) = ite (str_dec j k) (some v) (get k m)

  -- m[k] = v
  unfoldable pub put : Str → V → Table V → Table V
  put k v [] = (k, v) ∷ []
  put k v ((j, w) ∷ m) = ite (str_dec j k) ((k, v) ∷ m) ((j, w) ∷ put k v m)

  -- delete(m, k)
  unfoldable pub delete : Str → Table V → Table V
  delete k [] = []
  delete k ((j, w) ∷ m) = ite (str_dec j k) (delete k m) ((j, w) ∷ delete k m)

  -- for k, v := range m { m[k] = f(v) }
  unfoldable pub map_values : (V → V) → Table V → Table V
  map_values f [] = []
  map_values f ((j, v) ∷ m) = (j, f v) ∷ map_values f m

  -- for k, v := range m { if p(k, v) { delete(m, k) } }
  unfoldable pub delete_where : (Str → V → Bool) → Table V → Table V
  delete_where p [] = []
  delete_where p ((j, v) ∷ m) = if p j v then delete_where p m else (j, v) ∷ delete_where p m

  -- n := 0; for k, v := range m { if p(k, v) { n++ } }
  unfoldable pub count : (Str → V → Bool) → Table V → ℕ
  count p [] = 0
  count p ((j, v) ∷ m) = if p j v then suc (count p m) else count p m

  abbrev pub keys : Table V → List Str
  keys [] = []
  keys ((j, v) ∷ m) = j ∷ keys m

  -- No key stands twice: the list stands for a map.
  abbrev pub Distinct : Table V → Type ℓ
  Distinct [] = Unit
  Distinct ((j, v) ∷ m) = (get j m ≡ none) × Distinct m
