-- ===== src/Version/Order.antt =====
-- `compare_versions` orders the versions: core/vulnerability_intelligence/version_matcher.py.
use sentinel_wp.Base.{
  ℕ, ◌+◌, ◌-◌, ◌≤◌, ◌≡◌, refl, sym, ◌≢◌, inl, inr, Bool, true, false, Option, none, some, List, [],
  ◌∷◌, arith, if◌then◌else◌, ◌||◌, Bool-cases,
}
use Prim.Native.Nat.{compare, Ordering}
use sentinel_wp.Base.Int.{ℤ, pos, negsuc}
use sentinel_wp.Base.Text.{Text, codes, text_eq, text_eq_iff}
use sentinel_wp.Version.{
  Part, number, word, suffix_weight, Comparison, less, equal, greater, compare_parts, or_next,
  compare_versions,
}

-- The place of a part among all: the four ranks of suffixes, then a missing part, then the numbers.
abbrev place_of : ℤ → ℕ
place_of (pos n) = 4
place_of (negsuc n) = 3 - n

pub place : Option Part → ℕ
place none = 4
place (some (number n)) = 5 + n
place (some (word w)) = place_of (suffix_weight w)

abbrev by_place : ℕ → ℕ → Comparison
by_place x y = elim (compare x y) [
  | Ordering.lt ↦ less
  | Ordering.eq ↦ equal
  | Ordering.gt ↦ greater
]

weight_ladder :
    (a b c : Bool)
    → let z = if a then negsuc 2 else if b then negsuc 1 else if c then negsuc 0 else negsuc 3 in
      (n : ℕ) × (z ≡ negsuc n) × (n ≤ 3)
weight_ladder true b c = (2, refl, omega arith)
weight_ladder false true c = (1, refl, omega arith)
weight_ladder false false true = (0, refl, omega arith)
weight_ladder false false false = (3, refl, omega arith)

suffix_weight_range : (w : Text) → (n : ℕ) × (suffix_weight w ≡ negsuc n) × (n ≤ 3)
unfolding suffix_weight
suffix_weight_range w =
    weight_ladder (text_eq w (codes "alpha") || text_eq w (codes "a"))
      (text_eq w (codes "beta") || text_eq w (codes "b")) (text_eq w (codes "rc"))

by_place_refl : (x : ℕ) → by_place x x ≡ equal
by_place_refl x = ground arith

same_word :
    (v w : Text)
    → text_eq v w ≡ true
    → compare_parts (some (word v)) (some (word w))
      ≡ by_place (place (some (word v))) (place (some (word w)))
unfolding compare_parts place
same_word v w same =
    rw (same, (text_eq_iff v w).0 same) (sym (by_place_refl (place_of (suffix_weight w))))

compare_parts-place : (a b : Option Part) → compare_parts a b ≡ by_place (place a) (place b)
unfolding compare_parts place
compare_parts-place none none = refl
compare_parts-place none (some (number n)) = ground arith
compare_parts-place none (some (word w)) =
    let (n, e, h) = suffix_weight_range w in rw e (ground arith)
compare_parts-place (some (number n)) none = ground arith
compare_parts-place (some (number n)) (some (number m)) = ground arith
compare_parts-place (some (number n)) (some (word w)) =
    let (k, e, h) = suffix_weight_range w in rw e (ground arith)
compare_parts-place (some (word v)) none =
    let (n, e, h) = suffix_weight_range v in rw e (ground arith)
compare_parts-place (some (word v)) (some (number m)) =
    let (n, e, h) = suffix_weight_range v in rw e (ground arith)
compare_parts-place (some (word v)) (some (word w)) =
    let (n, e, h) = suffix_weight_range v in
    let (m, e', h') = suffix_weight_range w in
    elim (Bool-cases (text_eq v w)) [
      | inl same ↦ same_word v w same
      | inr other ↦ rw (other, e, e') (ground arith)
    ]

abbrev pub flip : Comparison → Comparison
flip less = greater
flip equal = equal
flip greater = less

flip_step :
    (x y : ℕ) (r s : Comparison)
    → s ≡ flip r
    → or_next (by_place y x) s ≡ flip (or_next (by_place x y) r)
flip_step x y r s h = ground arith

-- Swapping the versions turns the comparison round.
pub compare_versions-flip : (v w : List Part) → compare_versions w v ≡ flip (compare_versions v w)
unfolding compare_versions
compare_versions-flip [] [] = refl
compare_versions-flip (a ∷ v) [] =
    rw (compare_parts-place none (some a), compare_parts-place (some a) none)
      (flip_step (place (some a)) (place none) _ _ (compare_versions-flip v []))
compare_versions-flip [] (b ∷ w) =
    rw (compare_parts-place (some b) none, compare_parts-place none (some b))
      (flip_step (place none) (place (some b)) _ _ (compare_versions-flip [] w))
compare_versions-flip (a ∷ v) (b ∷ w) =
    rw (compare_parts-place (some b) (some a), compare_parts-place (some a) (some b))
      (flip_step (place (some a)) (place (some b)) _ _ (compare_versions-flip v w))

or_next-equal : (c : Comparison) → or_next c equal ≡ c
or_next-equal less = refl
or_next-equal equal = refl
or_next-equal greater = refl

-- `t` is what follows from `r` and `s` for a comparison that is an order.
abbrev Chained : Comparison → Comparison → Comparison → Type 0
Chained r s t = r ≢ greater → s ≢ greater → t ≡ or_next r s

chain_step :
    (x y z : ℕ) (r s t : Comparison)
    → Chained r s t
    → Chained (or_next (by_place x y) r) (or_next (by_place y z) s) (or_next (by_place x z) t)
chain_step x y z r s t h p q = ground arith

-- A version that is not above another, which is not above a third, is not above the third, and
-- equals it only if all three are equal: the order of the versions is transitive.
pub compare_versions_trans :
    (u v w : List Part)
    → compare_versions u v ≢ greater
    → compare_versions v w ≢ greater
    → compare_versions u w ≡ or_next (compare_versions u v) (compare_versions v w)
unfolding compare_versions place
compare_versions_trans [] [] [] = λ p q. refl
compare_versions_trans [] [] (c ∷ w) = λ p q. refl
compare_versions_trans [] (b ∷ v) [] =
    rw (compare_parts-place none (some b), compare_parts-place (some b) none)
      (chain_step (place none) (place (some b)) (place none) _ _ equal
        (compare_versions_trans [] v []))
compare_versions_trans [] (b ∷ v) (c ∷ w) =
    rw
      (
        compare_parts-place none (some b),
        compare_parts-place (some b) (some c),
        compare_parts-place none (some c),
      )
      (chain_step (place none) (place (some b)) (place (some c)) _ _ _
        (compare_versions_trans [] v w))
compare_versions_trans (a ∷ u) [] [] = λ p q. sym (or_next-equal _)
compare_versions_trans (a ∷ u) [] (c ∷ w) =
    rw
      (
        compare_parts-place (some a) none,
        compare_parts-place none (some c),
        compare_parts-place (some a) (some c),
      )
      (chain_step (place (some a)) (place none) (place (some c)) _ _ _
        (compare_versions_trans u [] w))
compare_versions_trans (a ∷ u) (b ∷ v) [] =
    rw
      (
        compare_parts-place (some a) (some b),
        compare_parts-place (some b) none,
        compare_parts-place (some a) none,
      )
      (chain_step (place (some a)) (place (some b)) (place none) _ _ _
        (compare_versions_trans u v []))
compare_versions_trans (a ∷ u) (b ∷ v) (c ∷ w) =
    rw
      (
        compare_parts-place (some a) (some b),
        compare_parts-place (some b) (some c),
        compare_parts-place (some a) (some c),
      )
      (chain_step (place (some a)) (place (some b)) (place (some c)) _ _ _
        (compare_versions_trans u v w))
