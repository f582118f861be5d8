-- ===== src/Base/Sort.antt =====
-- Stable sorting: Python's `sorted(xs, key=rank, reverse=True)`, and ORDER BY.
use sentinel_wp.Base.{
  ℕ, zero, suc, ◌<◌, inl, inr, count_if, take, refl, sym, subst, ◌≤◌, ◌≡◌, ◌⊎◌, Bool, List, [], ◌∷◌,
  arith, ltb, if◌then◌else◌, In, All,
}

-- By a test whether `x` must stand behind `y`.
module _ {A : Type 0} (behind : A → A → Bool) where
  abbrev pub insert_by : A → List A → List A
  insert_by x [] = x ∷ []
  insert_by x (y ∷ ys) = if behind x y then y ∷ insert_by x ys else x ∷ y ∷ ys

  unfoldable pub sort_by : List A → List A
  sort_by [] = []
  sort_by (x ∷ xs) = insert_by x (sort_by xs)

  In-insert_by : (a x : A) (ys : List A) → In a (insert_by x ys) → (a ≡ x) ⊎ In a ys
  In-insert_by a x [] h = ground arith
  In-insert_by a x (y ∷ ys) h = ground (arith, In-insert_by a x ys)

  insert_by-In : (a x : A) (ys : List A) → (a ≡ x) ⊎ In a ys → In a (insert_by x ys)
  insert_by-In a x [] h = ground arith
  insert_by-In a x (y ∷ ys) h = ground (arith, insert_by-In a x ys)

  -- Sorting keeps the elements.
  pub In-sort_by : (a : A) (xs : List A) → In a (sort_by xs) → In a xs
  unfolding sort_by
  In-sort_by a [] h = h
  In-sort_by a (x ∷ xs) h = ground (arith, In-insert_by a x (sort_by xs) h, In-sort_by a xs)

  pub sort_by-In : (a : A) (xs : List A) → In a xs → In a (sort_by xs)
  unfolding sort_by
  sort_by-In a [] h = h
  sort_by-In a (x ∷ xs) h = insert_by-In a x (sort_by xs) (ground (arith, sort_by-In a xs))

  pub All-insert_by :
      (P : A → Type 0) (x : A) (ys : List A) → P x → All P ys → All P (insert_by x ys)
  All-insert_by P x [] p h = (p, tt)
  All-insert_by P x (y ∷ ys) p h = ground (arith, All-insert_by P x ys p h.1)

  count_if-insert_by :
      (p : A → Bool) (x : A) (ys : List A) → count_if p (insert_by x ys) ≡ count_if p (x ∷ ys)
  count_if-insert_by p x [] = refl
  count_if-insert_by p x (y ∷ ys) = ground (arith, count_if-insert_by p x ys)

  pub count_if-sort_by : (p : A → Bool) (xs : List A) → count_if p (sort_by xs) ≡ count_if p xs
  unfolding sort_by
  count_if-sort_by p [] = refl
  count_if-sort_by p (x ∷ xs) =
      ground (arith, count_if-insert_by p x (sort_by xs), count_if-sort_by p xs)

module _ {A : Type 0} (rank : A → ℕ) where
  abbrev lower : A → A → Bool
  lower x y = ltb (rank x) (rank y)

  abbrev higher : A → A → Bool
  higher x y = ltb (rank y) (rank x)

  unfoldable pub sort_desc : List A → List A
  unfolding sort_by
  sort_desc = sort_by lower

  unfoldable pub sort_asc : List A → List A
  unfolding sort_by
  sort_asc = sort_by higher

  -- No element is ranked higher than one that stands before it.
  abbrev pub IsDescending : List A → Type 0
  IsDescending [] = Unit
  IsDescending (x ∷ xs) = All (λ y. rank y ≤ rank x) xs × IsDescending xs

  All-below : (n m : ℕ) (ys : List A) → n ≤ m → All (λ y. rank y ≤ n) ys → All (λ y. rank y ≤ m) ys
  All-below n m [] h a = tt
  All-below n m (y ∷ ys) h a = (omega arith, All-below n m ys h a.1)

  insert-IsDescending :
      (x : A) (ys : List A) → IsDescending ys → IsDescending (insert_by lower x ys)
  insert-IsDescending x [] h = (tt, tt)
  insert-IsDescending x (y ∷ ys) h = ground (
    arith,
    insert-IsDescending x ys h.1,
    All-insert_by lower (λ z. rank z ≤ rank y) x ys,
    All-below (rank y) (rank x) ys,
  )

  pub sort_desc-IsDescending : (xs : List A) → IsDescending (sort_desc xs)
  unfolding sort_desc
  sort_desc-IsDescending [] = tt
  sort_desc-IsDescending (x ∷ xs) =
      insert-IsDescending x (sort_by lower xs) (sort_desc-IsDescending xs)

  -- No element is ranked lower than one that stands before it.
  abbrev pub IsAscending : List A → Type 0
  IsAscending [] = Unit
  IsAscending (x ∷ xs) = All (λ y. rank x ≤ rank y) xs × IsAscending xs

  All-above : (n m : ℕ) (ys : List A) → m ≤ n → All (λ y. n ≤ rank y) ys → All (λ y. m ≤ rank y) ys
  All-above n m [] h a = tt
  All-above n m (y ∷ ys) h a = (omega arith, All-above n m ys h a.1)

  insert-IsAscending : (x : A) (ys : List A) → IsAscending ys → IsAscending (insert_by higher x ys)
  insert-IsAscending x [] h = (tt, tt)
  insert-IsAscending x (y ∷ ys) h = ground (
    arith,
    insert-IsAscending x ys h.1,
    All-insert_by higher (λ z. rank y ≤ rank z) x ys,
    All-above (rank y) (rank x) ys,
  )

  pub sort_asc-IsAscending : (xs : List A) → IsAscending (sort_asc xs)
  unfolding sort_asc
  sort_asc-IsAscending [] = tt
  sort_asc-IsAscending (x ∷ xs) = insert-IsAscending x (sort_by higher xs) (sort_asc-IsAscending xs)

  pub In-sort_desc : (a : A) (xs : List A) → In a (sort_desc xs) → In a xs
  unfolding sort_desc
  In-sort_desc = In-sort_by lower

  pub sort_desc-In : (a : A) (xs : List A) → In a xs → In a (sort_desc xs)
  unfolding sort_desc
  sort_desc-In = sort_by-In lower

  pub In-sort_asc : (a : A) (xs : List A) → In a (sort_asc xs) → In a xs
  unfolding sort_asc
  In-sort_asc = In-sort_by higher

  pub sort_asc-In : (a : A) (xs : List A) → In a xs → In a (sort_asc xs)
  unfolding sort_asc
  sort_asc-In = sort_by-In higher

  pub count_if-sort_asc : (p : A → Bool) (xs : List A) → count_if p (sort_asc xs) ≡ count_if p xs
  unfolding sort_asc
  count_if-sort_asc = count_if-sort_by higher

  none_lower :
      (n : ℕ) (ys : List A) → All (λ y. n ≤ rank y) ys → count_if (λ y. ltb (rank y) n) ys ≡ 0
  none_lower n [] h = refl
  none_lower n (y ∷ ys) h = ground (arith, none_lower n ys h.1)

  -- Fewer than `n` elements are ranked lower than one of the first `n`.
  pub take-few_lower :
      (n : ℕ) (x : A) (xs : List A)
      → IsAscending xs
      → In x (take n xs)
      → count_if (λ y. ltb (rank y) (rank x)) xs < n
  take-few_lower zero x xs h i = absurd i
  take-few_lower (suc n) x [] h i = absurd i
  take-few_lower (suc n) x (y ∷ ys) h (inl e) =
      let z = none_lower (rank y) ys h.0 in
      subst (λ w. count_if (λ v. ltb (rank v) (rank w)) (y ∷ ys) < suc n) (sym e)
        (ground (arith, z))
  take-few_lower (suc n) x (y ∷ ys) h (inr i) = ground (arith, take-few_lower n x ys h.1 i)
