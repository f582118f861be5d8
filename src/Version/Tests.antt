-- ===== src/Version/Tests.antt =====
-- Runs of the version matcher, and the theorems at concrete versions.
use sentinel_wp.Base.{◌≡◌, refl, ◌≢◌, true, false, none, some, List, [], ◌∷◌}
use sentinel_wp.Base.Text.{codes, lower_char}
use sentinel_wp.Version.{
  Part, number, word, no_version, version, parse_version, has_long_number, less, greater,
  compare_versions, compare_parts, suffix_weight, or_next,
}
use sentinel_wp.Version.Order.{compare_versions_trans}
use sentinel_wp.Version.Ranges.{
  AffectedRange, affected_by, with_status, not_affected, range_unknown, is_version_affected,
  Software,
}
use sentinel_wp.Version.Affected.{Contains, is_unreadable, affected_iff_between}

parsed :
    parse_version (some (codes "1.10.2-RC1"))
    ≡ version (number 1 ∷ number 10 ∷ number 2 ∷ word (codes "rc") ∷ number 1 ∷ [])
unfolding parse_version lower_char has_long_number
parsed = refl

wildcard : parse_version (some (codes " * ")) ≡ no_version
unfolding parse_version lower_char has_long_number
wildcard = refl

abbrev early : List Part
early = number 1 ∷ number 9 ∷ []

abbrev late : List Part
late = number 1 ∷ number 10 ∷ []

abbrev later : List Part
later = number 2 ∷ []

in_order : compare_versions early late ≡ less
unfolding compare_versions compare_parts suffix_weight
in_order = refl

suffix_is_lower : compare_versions (number 1 ∷ word (codes "beta") ∷ []) (number 1 ∷ []) ≡ less
unfolding compare_versions compare_parts suffix_weight
suffix_is_lower = refl

not_above : (compare_versions early late ≢ greater) × (compare_versions late later ≢ greater)
unfolding compare_versions compare_parts suffix_weight
not_above = (cc, cc)

compare_versions_trans_example :
    compare_versions early later
    ≡ or_next (compare_versions early late) (compare_versions late later)
compare_versions_trans_example = compare_versions_trans early late later not_above.0 not_above.1

-- From 1.9 to 2, both included.
abbrev both_ends : AffectedRange
both_ends = record {
  from_version = some (codes "1.9");
  from_inclusive = true;
  to_version = some (codes "2");
  to_inclusive = true;
}

parse_late : parse_version (some (codes "1.10")) ≡ version late
unfolding parse_version lower_char has_long_number
parse_late = refl

affected_iff_between_example :
    let answer = is_version_affected (some (codes "1.10")) both_ends in
    (is_unreadable both_ends ≡ true → answer ≡ some (with_status range_unknown))
    × (is_unreadable both_ends ≡ false
        → Contains both_ends late
        → answer ≡ some (affected_by both_ends))
    × (is_unreadable both_ends ≡ false
        → ¬ Contains both_ends late
        → answer ≡ some (with_status not_affected))
affected_iff_between_example = affected_iff_between (codes "1.10") late both_ends parse_late

abbrev records : List Software
records =
    record {
      type_ = some (codes "plugin");
      slug = some (codes "forms");
      affected_versions = none ∷ some both_ends ∷ [];
    }
    ∷ []

dashes_are_no_version : (codes "---" ≢ []) × (parse_version (some (codes "---")) ≡ no_version)
unfolding parse_version lower_char has_long_number
dashes_are_no_version = (cc, refl)

-- A run of digits is too long once 4300 of them are read.
one_digit_more : has_long_number 4300 (codes "1") ≡ true
unfolding has_long_number
one_digit_more = refl

not_yet : has_long_number 4299 (codes "1.1") ≡ false
unfolding has_long_number
not_yet = refl
