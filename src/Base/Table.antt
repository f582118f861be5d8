-- ===== src/Base/Table.antt =====
-- A database table: its rows, found by a numeric primary key. A write replaces the row it was read
-- from, so the table keeps one row for each key.
use mathlib.Core.Option
use sentinel_wp.Base.{
  ℕ, ◌≡◌, refl, Bool, Option, none, some, List, [], ◌∷◌, ◌++◌, arith, ◌==◌, if◌then◌else◌, count_if,
  In, ◌≢◌, inl, inr, any_of, keep, ◌&&◌, false,
}

module _ {R : Type 0} (key : R → ℕ) where
  -- `select(...).where(id == k)`, `.scalar_one_or_none()`
  abbrev pub get_row : ℕ → List R → Option R
  get_row k [] = none
  get_row k (r ∷ rs) = if key r == k then some r else get_row k rs

  -- Assignments to the attributes of the row under `k`, and a flush.
  abbrev pub modify_row : ℕ → (R → R) → List R → List R
  modify_row k f [] = []
  modify_row k f (r ∷ rs) = if key r == k then f r ∷ rs else r ∷ modify_row k f rs

  -- The row in place of the one with its key, or a new one: a flush of one object.
  abbrev pub put_row : R → List R → List R
  put_row x [] = x ∷ []
  put_row x (r ∷ rs) = if key r == key x then x ∷ rs else r ∷ put_row x rs

  -- A primary key: no two rows share it.
  abbrev pub Keyed : List R → Type 0
  Keyed [] = Unit
  Keyed (r ∷ rs) = (get_row (key r) rs ≡ none) × Keyed rs

  pub get_row-put_row :
      (j : ℕ) (x : R) (rs : List R)
      → get_row j (put_row x rs) ≡ (if key x == j then some x else get_row j rs)
  get_row-put_row j x [] = ground arith
  get_row-put_row j x (r ∷ rs) = ground (arith, get_row-put_row j x rs)

  pub Keyed-put_row : (x : R) (rs : List R) → Keyed rs → Keyed (put_row x rs)
  Keyed-put_row x [] h = ground arith
  Keyed-put_row x (r ∷ rs) h = ground (arith, Keyed-put_row x rs, get_row-put_row (key r) x rs)

  pub In-get_row : (j : ℕ) (rs : List R) (r : R) → get_row j rs ≡ some r → In r rs
  In-get_row j [] r h = cc
  In-get_row j (x ∷ rs) r h = ground (arith, In-get_row j rs r)

  absent-In : (j : ℕ) (rs : List R) (r : R) → get_row j rs ≡ none → In r rs → key r ≢ j
  absent-In j [] r h i = elim i [ ]
  absent-In j (x ∷ rs) r h i = ground (arith, absent-In j rs r)

  pub get_row-In : (rs : List R) (r : R) → Keyed rs → In r rs → get_row (key r) rs ≡ some r
  get_row-In [] r k i = elim i [ ]
  get_row-In (x ∷ rs) r k (inl e) = rw e (ground arith)
  get_row-In (x ∷ rs) r k (inr i) = ground (arith, get_row-In rs r, absent-In (key x) rs r (k.0) i)

  absent_none :
      (j : ℕ) (p q : R → Bool) (rs : List R)
      → get_row j rs ≡ none
      → any_of (λ r. key r == j && q r) (keep p rs) ≡ false
  absent_none j p q [] h = refl
  absent_none j p q (r ∷ rs) h = ground (arith, absent_none j p q rs)

  -- Among the kept rows, the one under `j` is the row of the table, if that is kept.
  pub any_of-keep-row :
      (j : ℕ) (p q : R → Bool) (rs : List R) (e : R)
      → Keyed rs
      → get_row j rs ≡ some e
      → any_of (λ r. key r == j && q r) (keep p rs) ≡ (p e && q e)
  any_of-keep-row j p q [] e k h = cc
  any_of-keep-row j p q (r ∷ rs) e k h =
      ground (arith, any_of-keep-row j p q rs e, absent_none j p q rs)

  pub key-get_row : (k : ℕ) (rs : List R) (r : R) → get_row k rs ≡ some r → key r ≡ k
  key-get_row k [] r h = cc
  key-get_row k (x ∷ rs) r h = ground (arith, key-get_row k rs r)

  pub get_row-modify_row :
      (j k : ℕ) (f : R → R) (rs : List R)
      → ((r : R) → key (f r) ≡ key r)
      → get_row j (modify_row k f rs)
        ≡ (if j == k then Option.map f (get_row k rs) else get_row j rs)
  get_row-modify_row j k f [] h = ground arith
  get_row-modify_row j k f (r ∷ rs) h = ground (arith, h r, get_row-modify_row j k f rs h)

  -- A row that a change does not move between the counted and the others leaves the count alone.
  pub count_if-modify_row :
      (p : R → Bool) (k : ℕ) (f : R → R) (rs : List R) (r : R)
      → get_row k rs ≡ some r
      → p (f r) ≡ p r
      → count_if p (modify_row k f rs) ≡ count_if p rs
  count_if-modify_row p k f [] r h e = refl
  count_if-modify_row p k f (x ∷ rs) r h e = ground (arith, count_if-modify_row p k f rs r)

  pub get_row-append :
      (k : ℕ) (rs xs : List R) (r : R) → get_row k rs ≡ some r → get_row k (rs ++ xs) ≡ some r
  get_row-append k [] xs r h = cc
  get_row-append k (x ∷ rs) xs r h = ground (arith, get_row-append k rs xs r)
