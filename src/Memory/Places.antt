-- ===== src/Memory/Places.antt =====
-- Operations at a place of a list, behind a front whose length is the place.
use so_tp_2024_2c_the_last_o.Prelude.{
  ℕ, zero, suc, ◌+◌, ◌≡◌, refl, ap, ◌⊎◌, inl, inr, some, List, [], ◌∷◌, ◌++◌, arith, length,
  get_elem?, set,
}
use so_tp_2024_2c_the_last_o.Memory.Partitions.{insert_at, remove_at}

module _ {ℓ} {A : Type ℓ} where
  pub get_elem?-append :
      (front back : List A) (i j : ℕ)
      → i ≡ length front + j
      → get_elem? (front ++ back) i ≡ get_elem? back j
  get_elem?-append [] back i j h = ap (get_elem? back) (omega arith)
  get_elem?-append (x ∷ front) back zero j h = absurd (omega arith)
  get_elem?-append (x ∷ front) back (suc i) j h = get_elem?-append front back i j (omega arith)

  pub set-append :
      (front back : List A) (i j : ℕ) (v : A)
      → i ≡ length front + j
      → set (front ++ back) i v ≡ front ++ set back j v
  set-append [] back i j v h = ap (λ k. set back k v) (omega arith)
  set-append (x ∷ front) back zero j v h = absurd (omega arith)
  set-append (x ∷ front) back (suc i) j v h = ap (◌∷◌ x) (set-append front back i j v (omega arith))

  pub insert_at-append :
      (front back : List A) (i j : ℕ) (v : A)
      → i ≡ length front + j
      → insert_at (front ++ back) i v ≡ front ++ insert_at back j v
  unfolding insert_at
  insert_at-append [] back i j v h = ap (λ k. insert_at back k v) (omega arith)
  insert_at-append (x ∷ front) back zero j v h = absurd (omega arith)
  insert_at-append (x ∷ front) back (suc i) j v h =
      ap (◌∷◌ x) (insert_at-append front back i j v (omega arith))

  pub remove_at-append :
      (front back : List A) (i j : ℕ)
      → i ≡ length front + j
      → remove_at (front ++ back) i ≡ front ++ remove_at back j
  unfolding remove_at
  remove_at-append [] back i j h = ap (remove_at back) (omega arith)
  remove_at-append (x ∷ front) back zero j h = absurd (omega arith)
  remove_at-append (x ∷ front) back (suc i) j h =
      ap (◌∷◌ x) (remove_at-append front back i j (omega arith))

  -- The list around one of its places.
  pub split_at :
      (xs : List A) (i : ℕ) (x : A)
      → get_elem? xs i ≡ some x
      → (front back : List A) × (xs ≡ front ++ (x ∷ back)) × (length front ≡ i)
  split_at [] i x e = cc
  split_at (y ∷ xs) zero x e = ([], xs, cc, refl)
  split_at (y ∷ xs) (suc i) x e =
      let (front, back, same, place) = split_at xs i x e in
      (y ∷ front, back, ap (◌∷◌ y) same, ap suc place)

  -- A list is empty or ends in an element.
  pub last_cases :
      (xs : List A) → (xs ≡ []) ⊎ ((front : List A) × (x : A) × (xs ≡ front ++ (x ∷ [])))
  last_cases [] = inl refl
  last_cases (y ∷ xs) = elim (last_cases xs) [
    | inl e ↦ inr ([], y, ap (◌∷◌ y) e)
    | inr (front, x, e) ↦ inr (y ∷ front, x, ap (◌∷◌ y) e)
  ]
