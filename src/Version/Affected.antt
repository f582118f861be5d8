-- ===== src/Version/Affected.antt =====
-- Which versions are reported as affected: core/vulnerability_intelligence/version_matcher.py.
use sentinel_wp.Base.{
  ◌≡◌, refl, ◌≢◌, ◌↔◌, inl, inr, Bool, true, false, ◌||◌, Option, none, some, List, arith,
  Bool-cases,
}
use sentinel_wp.Base.Text.{Text}
use sentinel_wp.Version.{Part, version, parse_version, less, greater, compare_versions}
use sentinel_wp.Version.Order.{compare_versions-flip, compare_versions_trans}
use sentinel_wp.Version.Ranges.{
  AffectedRange, not_affected, range_unknown, below_from, above_to, bound, is_error, affected_by,
  with_status, is_version_affected,
}

above_stays :
    (f a b : List Part) (inclusive : Bool)
    → compare_versions a b ≢ greater
    → below_from a (some f) inclusive ≡ false
    → below_from b (some f) inclusive ≡ false
unfolding below_from
above_stays f a b inclusive le h =
    ground
      (arith, compare_versions-flip f a, compare_versions-flip f b, compare_versions_trans f a b)

below_stays :
    (t b c : List Part) (inclusive : Bool)
    → compare_versions b c ≢ greater
    → above_to c (some t) inclusive ≡ false
    → above_to b (some t) inclusive ≡ false
unfolding above_to
below_stays t b c inclusive le h = ground (arith, compare_versions_trans b c t)

lower_bound :
    (from : Option (List Part)) (a b : List Part) (inclusive : Bool)
    → compare_versions a b ≢ greater
    → below_from a from inclusive ≡ false
    → below_from b from inclusive ≡ false
unfolding below_from
lower_bound none a b inclusive le h = refl
lower_bound (some f) a b inclusive le h = above_stays f a b inclusive le h

upper_bound :
    (to : Option (List Part)) (b c : List Part) (inclusive : Bool)
    → compare_versions b c ≢ greater
    → above_to c to inclusive ≡ false
    → above_to b to inclusive ≡ false
unfolding above_to
upper_bound none b c inclusive le h = refl
upper_bound (some t) b c inclusive le h = below_stays t b c inclusive le h

-- `a` is before `b`, or equals it where the end counts.
abbrev pub Within : (inclusive : Bool) (a b : List Part) → Type 0
Within true a b = compare_versions a b ≢ greater
Within false a b = compare_versions a b ≡ less

-- What lies above a lower end, and below an upper one, if there is one.
abbrev pub From : Bool → Option (List Part) → List Part → Type 0
From inclusive none v = Unit
From inclusive (some from) v = Within inclusive from v

abbrev pub UpTo : Bool → Option (List Part) → List Part → Type 0
UpTo inclusive none v = Unit
UpTo inclusive (some to) v = Within inclusive v to

below_from_iff :
    (inclusive : Bool) (from : Option (List Part)) (v : List Part)
    → (below_from v from inclusive ≡ false) ↔ From inclusive from v
unfolding below_from
below_from_iff inclusive none v = ground arith
below_from_iff true (some f) v = ground (arith, compare_versions-flip f v)
below_from_iff false (some f) v = ground (arith, compare_versions-flip f v)

above_to_iff :
    (inclusive : Bool) (to : Option (List Part)) (v : List Part)
    → (above_to v to inclusive ≡ false) ↔ UpTo inclusive to v
unfolding above_to
above_to_iff inclusive none v = ground arith
above_to_iff true (some t) v = ground arith
above_to_iff false (some t) v = ground arith

-- Where a range lets a version in, as its bounds are read.
abbrev pub Contains : AffectedRange → List Part → Type 0
Contains r v =
    From r.from_inclusive (bound (parse_version r.from_version)) v
    × UpTo r.to_inclusive (bound (parse_version r.to_version)) v

abbrev pub is_unreadable : AffectedRange → Bool
is_unreadable r = is_error (parse_version r.from_version) || is_error (parse_version r.to_version)

-- A version that parses is reported as `range_unknown` if a bound of the range has a number that is
-- too long for `int`; otherwise it is affected if it lies between the two bounds that the range
-- gives, an end itself included exactly where the range says so, and not affected if it does not.
pub affected_iff_between :
    (x : Text) (v : List Part) (r : AffectedRange)
    → parse_version (some x) ≡ version v
    → let answer = is_version_affected (some x) r in
      (is_unreadable r ≡ true → answer ≡ some (with_status range_unknown))
      × (is_unreadable r ≡ false → Contains r v → answer ≡ some (affected_by r))
      × (is_unreadable r ≡ false → ¬ Contains r v → answer ≡ some (with_status not_affected))
unfolding is_version_affected
affected_iff_between x v r p =
    let low = below_from_iff r.from_inclusive (bound (parse_version r.from_version)) v in
    let high = above_to_iff r.to_inclusive (bound (parse_version r.to_version)) v in
    rw p (
      (λ e. rw e refl),
      (λ e (a, b). rw (e, low.1 a, high.1 b) refl),
      λ e out.
          elim (Bool-cases (below_from v (bound (parse_version r.from_version)) r.from_inclusive)) [
            | inl l ↦ rw (e, l) refl
            | inr l ↦
                elim (Bool-cases (above_to v (bound (parse_version r.to_version)) r.to_inclusive)) [
                  | inl h ↦ rw (e, l, h) refl
                  | inr h ↦ absurd (out (low.0 l, high.0 h))
                ]
          ],
    )

Contains-between :
    (r : AffectedRange) (a b c : List Part)
    → compare_versions a b ≢ greater
    → compare_versions b c ≢ greater
    → Contains r a
    → Contains r c
    → Contains r b
Contains-between r a b c ab bc ha hc =
    let from = bound (parse_version r.from_version) in
    let to = bound (parse_version r.to_version) in
    (
      (below_from_iff r.from_inclusive from b).0 (
          lower_bound from a b r.from_inclusive ab
            ((below_from_iff r.from_inclusive from a).1 ha.0)),
      (above_to_iff r.to_inclusive to b).0
          (upper_bound to b c r.to_inclusive bc ((above_to_iff r.to_inclusive to c).1 hc.1)),
    )

-- The versions that a range affects have no gap: if two versions are affected by a range that can be
-- read, so is every version that is not below the first and not above the second.
pub affected_between :
    (r : AffectedRange) (y : Text) (a b c : List Part)
    → is_unreadable r ≡ false
    → parse_version (some y) ≡ version b
    → compare_versions a b ≢ greater
    → compare_versions b c ≢ greater
    → Contains r a
    → Contains r c
    → is_version_affected (some y) r ≡ some (affected_by r)
affected_between r y a b c e py ab bc ha hc =
    (affected_iff_between y b r py).1 e (Contains-between r a b c ab bc ha hc)
