-- ===== src/Version/Ranges.antt =====
-- Whether a detected version falls in a record's affected ranges: `is_version_affected` and
-- `match_software` of core/vulnerability_intelligence/version_matcher.py. The text of a match's
-- evidence is left out.
use sentinel_wp.Base.{
  Bool, true, false, not, ◌&&◌, ◌||◌, Option, none, some, List, [], ◌∷◌, if◌then◌else◌,
}
use sentinel_wp.Base.Text.{Text, text_eq}
use sentinel_wp.Version.{
  Part, Parsed, no_version, version, value_error, parse_version, Comparison, less, greater,
  compare_versions,
}

-- A record's range; `none` as a version is a value that is no string.
pub record AffectedRange : Type 0 where
  pub from_version : Option Text
  pub from_inclusive : Bool
  pub to_version : Option Text
  pub to_inclusive : Bool

pub data MatchStatus : Type 0 where
  affected not_affected version_unknown range_unknown : MatchStatus

pub record MatchResult : Type 0 where
  pub status : MatchStatus
  pub matched_range : Option AffectedRange

abbrev is_below : Comparison → Bool
is_below less = true
is_below _ = false

abbrev is_above : Comparison → Bool
is_above greater = true
is_above _ = false

-- The lower bound's two early returns.
unfoldable pub below_from : List Part → Option (List Part) → Bool → Bool
below_from det none inclusive = false
below_from det (some from) inclusive =
    let cmp = compare_versions det from in
    if inclusive && is_below cmp then true else not inclusive && not (is_above cmp)

-- The upper bound's.
unfoldable pub above_to : List Part → Option (List Part) → Bool → Bool
above_to det none inclusive = false
above_to det (some to) inclusive =
    let cmp = compare_versions det to in
    if inclusive && is_above cmp then true else not inclusive && not (is_below cmp)

-- A bound that is not there is none; one that `int` refuses is an exception.
abbrev pub bound : Parsed → Option (List Part)
bound (version v) = some v
bound _ = none

abbrev pub is_error : Parsed → Bool
is_error value_error = true
is_error _ = false

abbrev pub affected_by : AffectedRange → MatchResult
affected_by r = record { status = affected; matched_range = some r }

abbrev pub with_status : MatchStatus → MatchResult
with_status s = record { status = s; matched_range = none }

-- The body of the `try`: both bounds are parsed before a comparison.
abbrev pub in_range : List Part → AffectedRange → MatchResult
in_range det r =
    let from = parse_version r.from_version in
    let to = parse_version r.to_version in
    if is_error from || is_error to
    then with_status range_unknown
    else if below_from det (bound from) r.from_inclusive
    then with_status not_affected
    else if above_to det (bound to) r.to_inclusive
    then with_status not_affected
    else affected_by r

-- `none` is the ValueError of the detected version, which is parsed before the `try`.
abbrev pub on_parsed : Parsed → AffectedRange → Option MatchResult
on_parsed no_version r = some (with_status version_unknown)
on_parsed value_error r = none
on_parsed (version det) r = some (in_range det r)

unfoldable pub is_version_affected : Option Text → AffectedRange → Option MatchResult
unfolding below_from above_to
is_version_affected detected r = on_parsed (parse_version detected) r

-- A vulnerability's software record; a range is `none` where its data is no dict.
pub record Software : Type 0 where
  pub type_ : Option Text
  pub slug : Option Text
  pub affected_versions : List (Option AffectedRange)

-- How far the search comes: it goes on, returns, or ends with the ValueError.
pub data Search : Type 0 where
  goes_on : Search
  returns : MatchResult → Search
  raises : Search

abbrev pub stops : MatchStatus → Bool
stops affected = true
stops range_unknown = true
stops _ = false

-- One round of the loop over the ranges.
abbrev or_return : Option MatchResult → Search → Search
or_return none rest = raises
or_return (some result) rest = if stops result.status then returns result else rest

unfoldable pub match_ranges : Text → List (Option AffectedRange) → Search
unfolding is_version_affected
match_ranges detected [] = goes_on
match_ranges detected (none ∷ rs) = match_ranges detected rs
match_ranges detected (some r ∷ rs) =
    let rest = match_ranges detected rs in or_return (is_version_affected (some detected) r) rest

abbrev same_type : Option Text → Text → Bool
same_type none detected = false
same_type (some t) detected = text_eq t detected

-- A record without a slug is about every slug.
abbrev same_slug : Option Text → Text → Bool
same_slug none detected = true
same_slug (some []) detected = true
same_slug (some (c ∷ s)) detected = text_eq (c ∷ s) detected

abbrev pub concerns : Text → Text → Software → Bool
concerns detected_slug detected_type sw =
    same_type sw.type_ detected_type && same_slug sw.slug detected_slug

abbrev pub or_else_search : Search → Search → Search
or_else_search goes_on rest = rest
or_else_search (returns result) rest = returns result
or_else_search raises rest = raises

unfoldable pub match_records : Text → Text → Text → List Software → Search
unfolding match_ranges
match_records slug_ detected type_ [] = goes_on
match_records slug_ detected type_ (sw ∷ sws) =
    let rest = match_records slug_ detected type_ sws in
    if concerns slug_ type_ sw
    then or_else_search (match_ranges detected sw.affected_versions) rest
    else rest

abbrev pub result_of : Search → Option MatchResult
result_of goes_on = some (with_status not_affected)
result_of (returns result) = some result
result_of raises = none

-- `none` is the ValueError of the detected version.
unfoldable pub match_software : Text → Option Text → Text → List Software → Option MatchResult
unfolding match_records
match_software detected_slug none detected_type sws = some (with_status version_unknown)
match_software detected_slug (some []) detected_type sws = some (with_status version_unknown)
match_software detected_slug (some (c ∷ s)) detected_type sws =
    result_of (match_records detected_slug (c ∷ s) detected_type sws)
