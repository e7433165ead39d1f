-- ===== src/Table/Laws.antt =====
-- The laws of maps: what a lookup sees after each operation.
use windforce_lite.Prelude.{
  suc, ◌≡◌, ◌≢◌, ◌⊎◌, inl, inr, refl, ap, ite, ◌+◌, Bool, false, Option, Option-cases, none, some,
  [], ◌∷◌, arith, if◌then◌else◌,
}
use windforce_lite.Str.{Str, str_dec}
use windforce_lite.Table.{Table, get, put, delete, map_values, delete_where, count, Distinct}

module _ {ℓ} {V : Type ℓ} where
  pub get-put :
      (j k : Str) (v : V) (m : Table V) → get j (put k v m) ≡ ite (str_dec k j) (some v) (get j m)
  unfolding get put
  get-put j k v [] = refl
  get-put j k v ((i, w) ∷ m) = ground (arith, get-put j k v m)

  pub get-put_self : (k : Str) (v : V) (m : Table V) → get k (put k v m) ≡ some v
  get-put_self k v m = rw (get-put k k v m) (ground arith)

  pub get-put_ne : (j k : Str) (v : V) (m : Table V) → k ≢ j → get j (put k v m) ≡ get j m
  get-put_ne j k v m h = rw (get-put j k v m) (ground arith)

  pub get-delete : (j k : Str) (m : Table V) → get j (delete k m) ≡ ite (str_dec k j) none (get j m)
  unfolding get delete
  get-delete j k [] = ground arith
  get-delete j k ((i, w) ∷ m) = ground (arith, get-delete j k m)

  abbrev pub map_option : (V → V) → Option V → Option V
  map_option f none = none
  map_option f (some v) = some (f v)

  pub get-map_values :
      (j : Str) (f : V → V) (m : Table V) → get j (map_values f m) ≡ map_option f (get j m)
  unfolding get map_values
  get-map_values j f [] = refl
  get-map_values j f ((i, w) ∷ m) = ground (arith, get-map_values j f m)

  abbrev pub drop_if : (V → Bool) → Option V → Option V
  drop_if p none = none
  drop_if p (some v) = if p v then none else some v

  get-delete_where-none :
      (j : Str) (p : Str → V → Bool) (m : Table V)
      → get j m ≡ none
      → get j (delete_where p m) ≡ none
  unfolding get delete_where
  get-delete_where-none j p [] h = refl
  get-delete_where-none j p ((i, w) ∷ m) h = ground (arith, get-delete_where-none j p m)

  pub get-delete_where :
      (j : Str) (p : Str → V → Bool) (m : Table V)
      → Distinct m
      → get j (delete_where p m) ≡ drop_if (p j) (get j m)
  unfolding get delete_where
  get-delete_where j p [] d = refl
  get-delete_where j p ((i, w) ∷ m) d =
      ground (arith, get-delete_where j p m d.1, get-delete_where-none j p m)

  pub put-Distinct : (k : Str) (v : V) (m : Table V) → Distinct m → Distinct (put k v m)
  unfolding get put
  put-Distinct k v [] d = (refl, tt)
  put-Distinct k v ((i, w) ∷ m) d = ground (arith, put-Distinct k v m d.1, get-put i k v m)

  pub map_values-Distinct : (f : V → V) (m : Table V) → Distinct m → Distinct (map_values f m)
  unfolding map_values
  map_values-Distinct f [] d = tt
  map_values-Distinct f ((i, w) ∷ m) d =
      (rw (get-map_values i f m, d.0), map_values-Distinct f m d.1)

  pub delete_where-Distinct :
      (p : Str → V → Bool) (m : Table V) → Distinct m → Distinct (delete_where p m)
  unfolding delete_where
  delete_where-Distinct p [] d = tt
  delete_where-Distinct p ((i, w) ∷ m) d =
      ground (arith, delete_where-Distinct p m d.1, get-delete_where-none i p m)

  pub delete-Distinct : (k : Str) (m : Table V) → Distinct m → Distinct (delete k m)
  unfolding delete
  delete-Distinct k [] d = tt
  delete-Distinct k ((i, w) ∷ m) d = ground (arith, delete-Distinct k m d.1, get-delete i k m)

  -- Replacing an entry moves a count by the difference of the two.
  pub count-put_old :
      (p : Str → V → Bool) (k : Str) (v w : V) (m : Table V)
      → get k m ≡ some w
      → count p (put k v m) + (if p k w then 1 else 0) ≡ count p m + (if p k v then 1 else 0)
  unfolding get put count
  count-put_old p k v w [] h = cc
  count-put_old p k v w ((i, x) ∷ m) h = ground (arith, count-put_old p k v w m)

  -- A write moves a count by what it does to the one entry.
  pub count-put :
      (p : Str → V → Bool) (k : Str) (v : V) (m : Table V)
      → get k m ≡ none
      → count p (put k v m) ≡ (if p k v then suc (count p m) else count p m)
  unfolding get put count
  count-put p k v [] h = refl
  count-put p k v ((i, w) ∷ m) h = ground (arith, count-put p k v m)

  -- Where an entry comes from, after each way to write.
  pub get-put_inv :
      (j k : Str) (v w : V) (m : Table V)
      → get j (put k v m) ≡ some w
      → ((k ≡ j) × (v ≡ w)) ⊎ ((k ≢ j) × (get j m ≡ some w))
  get-put_inv j k v w m h = elim (str_dec k j) [
    | yes p ↦ inl (p, ground (arith, get-put j k v m))
    | no q ↦ inr (q, ground (arith, get-put j k v m))
  ]

  pub get-map_values_inv :
      (j : Str) (f : V → V) (w : V) (m : Table V)
      → get j (map_values f m) ≡ some w
      → (v : V) × (get j m ≡ some v) × (f v ≡ w)
  get-map_values_inv j f w m h = elim (Option-cases (get j m)) [
    | inl e ↦ cc (get-map_values j f m, ap (map_option f) e)
    | inr (v, e) ↦ (v, e, ground (arith, get-map_values j f m))
  ]

  pub get-delete_where_inv :
      (j : Str) (p : Str → V → Bool) (w : V) (m : Table V)
      → Distinct m
      → get j (delete_where p m) ≡ some w
      → (get j m ≡ some w) × (p j w ≡ false)
  get-delete_where_inv j p w m d h = elim (Option-cases (get j m)) [
    | inl e ↦ cc (get-delete_where j p m d, ap (drop_if (p j)) e)
    | inr (v, e) ↦ ground (arith, get-delete_where j p m d)
  ]

  pub get-delete_where-some :
      (j : Str) (p : Str → V → Bool) (w : V) (m : Table V)
      → Distinct m
      → get j m ≡ some w
      → p j w ≡ false
      → get j (delete_where p m) ≡ some w
  get-delete_where-some j p w m d h e = ground (arith, get-delete_where j p m d)

  abbrev pub AllEntries {κ} : (Str → V → Type κ) → Table V → Type κ
  AllEntries P [] = Unit
  AllEntries P ((j, v) ∷ m) = P j v × AllEntries P m

  -- What holds of every lookup holds of every entry of the list.
  pub entries_of_get {κ} :
      (P : Str → V → Type κ) (m : Table V)
      → Distinct m
      → ((j : Str) (v : V) → get j m ≡ some v → P j v)
      → AllEntries P m
  unfolding get
  entries_of_get P [] d h = tt
  entries_of_get P ((i, w) ∷ m) d h =
      (h i w (ground arith), entries_of_get P m d.1 (λ j v e. h j v (ground arith)))
