-- ===== src/Differential/Keys.antt =====
-- The fingerprints of a report in order: core/differential.py.
use sentinel_wp.Base.{
  ◌≡◌, refl, ◌↔◌, ◌⊎◌, inl, inr, true, false, List, [], ◌∷◌, arith, Bool-cases, any_of, In, All,
}
use sentinel_wp.Base.Text.{Text, text_eq, text_eq_iff}
use sentinel_wp.Differential.{Finding, text_lt, insert_key, sorted_keys}
use sentinel_wp.Differential.Index.{has}

text_lt_trans : (s t u : Text) → text_lt s t ≡ true → text_lt t u ≡ true → text_lt s u ≡ true
text_lt_trans s t [] h k = cc
text_lt_trans s [] (z ∷ u) h k = cc
text_lt_trans [] (y ∷ t) (z ∷ u) h k = refl
text_lt_trans (x ∷ s) (y ∷ t) (z ∷ u) h k = ground (arith, text_lt_trans s t u)

text_lt_total : (s t : Text) → text_eq s t ≡ false → text_lt s t ≡ false → text_lt t s ≡ true
text_lt_total [] [] h k = cc
text_lt_total [] (y ∷ t) h k = cc
text_lt_total (x ∷ s) [] h k = refl
text_lt_total (x ∷ s) (y ∷ t) h k = ground (arith, text_lt_total s t)

-- Each key comes before all that follow it, so no key stands twice.
abbrev pub Ascending : List Text → Type 0
Ascending [] = Unit
Ascending (k ∷ ks) = All (λ j. text_lt k j ≡ true) ks × Ascending ks

All-insert_key :
    (P : Text → Type 0) (k : Text) (ks : List Text) → P k → All P ks → All P (insert_key k ks)
All-insert_key P k [] p h = (p, h)
All-insert_key P k (x ∷ ks) p (q, h) = elim (Bool-cases (text_eq k x)) [
  | inl e ↦ rw e (q, h)
  | inr e ↦ elim (Bool-cases (text_lt k x)) [
    | inl l ↦ rw (e, l) (p, (q, h))
    | inr l ↦ rw (e, l) (q, All-insert_key P k ks p h)
  ]
]

All-text_lt :
    (k x : Text) (ks : List Text)
    → text_lt k x ≡ true
    → All (λ j. text_lt x j ≡ true) ks
    → All (λ j. text_lt k j ≡ true) ks
All-text_lt k x [] l h = h
All-text_lt k x (y ∷ ks) l (q, h) = (text_lt_trans k x y l q, All-text_lt k x ks l h)

insert_key-Ascending : (k : Text) (ks : List Text) → Ascending ks → Ascending (insert_key k ks)
insert_key-Ascending k [] h = (h, h)
insert_key-Ascending k (x ∷ ks) (q, h) = elim (Bool-cases (text_eq k x)) [
  | inl e ↦ rw e (q, h)
  | inr e ↦ elim (Bool-cases (text_lt k x)) [
    | inl l ↦ rw (e, l) ((l, All-text_lt k x ks l q), (q, h))
    | inr l ↦
        rw (e, l)
          (
            All-insert_key (λ j. text_lt x j ≡ true) k ks (text_lt_total k x e l) q,
            insert_key-Ascending k ks h,
          )
  ]
]

pub sorted_keys-Ascending : (fs : List Finding) → Ascending (sorted_keys fs)
sorted_keys-Ascending [] = ground arith
sorted_keys-Ascending (f ∷ fs) =
    insert_key-Ascending f.fingerprint (sorted_keys fs) (sorted_keys-Ascending fs)

In-insert_key : (j k : Text) (ks : List Text) → In j (insert_key k ks) ↔ ((j ≡ k) ⊎ In j ks)
In-insert_key j k [] = ground arith
In-insert_key j k (x ∷ ks) = ground (arith, In-insert_key j k ks, text_eq_iff k x)

pub In-sorted_keys :
    (k : Text) (fs : List Finding) → In k (sorted_keys fs) ↔ (any_of (has k) fs ≡ true)
In-sorted_keys k [] = ground arith
In-sorted_keys k (f ∷ fs) = ground (
  arith,
  In-sorted_keys k fs,
  In-insert_key k f.fingerprint (sorted_keys fs),
  text_eq_iff f.fingerprint k,
)
