-- ===== src/Sort.antt =====
-- sort.Slice, sort.SliceStable and sort.Strings, by insertion, which is stable. The code sorts stably,
-- or by total orders on distinct keys, where every sorting algorithm gives the same list.
use mathlib.Core.List.{Perm}
use mathlib.Core.List.Perm
use windforce_lite.Prelude.{
  ◌≡◌, Bool, true, false, List, [], ◌∷◌, if◌then◌else◌, All, Bool-cases, inl, inr,
}

module _ {ℓ} {A : Type ℓ} (before : A → A → Bool) where
  unfoldable pub insert : A → List A → List A
  insert x [] = x ∷ []
  insert x (y ∷ ys) = if before y x then y ∷ insert x ys else x ∷ y ∷ ys

  unfoldable pub sort : List A → List A
  unfolding insert
  sort [] = []
  sort (x ∷ xs) = insert x (sort xs)

  -- No element stands behind one that it comes before.
  abbrev pub IsSorted : List A → Type ℓ
  IsSorted [] = Unit
  IsSorted (x ∷ xs) = All {A = A} (λ y. before y x ≡ false) xs × IsSorted xs

  -- A strict order whose incomparability is transitive.
  pub record IsWeakOrder : Type ℓ where
    pub asymm : (x y : A) → before x y ≡ true → before y x ≡ false
    pub trans : (x y z : A) → before y x ≡ false → before z y ≡ false → before z x ≡ false

  insert-perm : (x : A) (xs : List A) → Perm (insert x xs) (x ∷ xs)
  unfolding insert
  insert-perm x [] = Perm.refl (x ∷ [])
  insert-perm x (y ∷ ys) = elim (Bool-cases (before y x)) [
    | inl e ↦ rw e (Perm.trans (Perm.cons y (insert-perm x ys)) (Perm.swap x y ys))
    | inr e ↦ rw e (Perm.refl (x ∷ y ∷ ys))
  ]

  pub sort-perm : (xs : List A) → Perm (sort xs) xs
  unfolding sort
  sort-perm [] = Perm.refl []
  sort-perm (x ∷ xs) = Perm.trans (insert-perm x (sort xs)) (Perm.cons x (sort-perm xs))

  module _ {κ} (P : A → Type κ) where
    insert-All : (x : A) (xs : List A) → P x → All P xs → All P (insert x xs)
    unfolding insert
    insert-All x [] p h = (p, tt)
    insert-All x (y ∷ ys) p h = elim (Bool-cases (before y x)) [
      | inl e ↦ rw e (h.0, insert-All x ys p h.1)
      | inr e ↦ rw e (p, h)
    ]

    pub sort-All : (xs : List A) → All P xs → All P (sort xs)
    unfolding sort
    sort-All [] h = tt
    sort-All (x ∷ xs) h = insert-All x (sort xs) h.0 (sort-All xs h.1)

  module _ {κ} (P : A → Type κ) where
    insert-All_inv : (x : A) (xs : List A) → All P (insert x xs) → P x × All P xs
    unfolding insert
    insert-All_inv x [] h = h
    insert-All_inv x (y ∷ ys) h = elim (Bool-cases (before y x)) [
      | inl e ↦
          let h' : P y × All P (insert x ys) = rw e at h in
          let (p, q) = insert-All_inv x ys h'.1 in (p, (h'.0, q))
      | inr e ↦ rw e at h
    ]

    pub sort-All_inv : (xs : List A) → All P (sort xs) → All P xs
    unfolding sort
    sort-All_inv [] h = tt
    sort-All_inv (x ∷ xs) h = let (p, q) = insert-All_inv x (sort xs) h in (p, sort-All_inv xs q)

  module _ (o : IsWeakOrder) where
    later_than :
        (x y : A) (ys : List A)
        → before y x ≡ false
        → All {A = A} (λ z. before z y ≡ false) ys
        → All {A = A} (λ z. before z x ≡ false) ys
    later_than x y [] e h = tt
    later_than x y (z ∷ zs) e h = (o.trans x y z e h.0, later_than x y zs e h.1)

    insert-IsSorted : (x : A) (xs : List A) → IsSorted xs → IsSorted (insert x xs)
    unfolding insert
    insert-IsSorted x [] h = (tt, tt)
    insert-IsSorted x (y ∷ ys) h = elim (Bool-cases (before y x)) [
      | inl e ↦
          rw e (
            insert-All (λ z. before z y ≡ false) x ys (o.asymm y x e) h.0,
            insert-IsSorted x ys h.1,
          )
      | inr e ↦ rw e ((e, later_than x y ys e h.0), h)
    ]

    pub sort-IsSorted : (xs : List A) → IsSorted (sort xs)
    unfolding sort
    sort-IsSorted [] = tt
    sort-IsSorted (x ∷ xs) = insert-IsSorted x (sort xs) (sort-IsSorted xs)
