-- ===== src/Version/Matching.antt =====
-- Which range settles the answer of `match_software`: core/vulnerability_intelligence/version_matcher.py.
use sentinel_wp.Base.{
  ◌≡◌, refl, ◌≢◌, inl, inr, ◌∙◌, Bool, true, Option, none, some, List, [], ◌∷◌, ◌++◌, arith,
  if◌then◌else◌, Bool-cases, Option-cases, find,
}
use sentinel_wp.Base.Text.{Text}
use sentinel_wp.Version.{no_version, parse_version}
use sentinel_wp.Version.Ranges.{
  AffectedRange, not_affected, version_unknown, with_status, is_version_affected, Software, Search,
  goes_on, returns, raises, stops, match_ranges, concerns, or_else_search, match_records, result_of,
  match_software,
}

-- The ranges of a record that are given.
abbrev pub given : List (Option AffectedRange) → List AffectedRange
given [] = []
given (none ∷ rs) = given rs
given (some r ∷ rs) = r ∷ given rs

-- The ranges that bear on the detected software, in the order of the records.
abbrev pub considered : Text → Text → List Software → List AffectedRange
considered slug type_ [] = []
considered slug type_ (sw ∷ sws) =
    let rest = considered slug type_ sws in
    if concerns slug type_ sw then given sw.affected_versions ++ rest else rest

-- The range settles the answer: by an exception, as affected, or as one that cannot be read.
abbrev pub is_decisive : Text → AffectedRange → Bool
is_decisive detected r = elim (is_version_affected (some detected) r) [
  | none ↦ true
  | some result ↦ stops result.status
]

-- What one range settles.
abbrev settled : Text → Option AffectedRange → Search
settled detected none = goes_on
settled detected (some r) = elim (is_version_affected (some detected) r) [
  | none ↦ raises
  | some result ↦ returns result
]

or_else_assoc :
    (a b c : Search) → or_else_search (or_else_search a b) c ≡ or_else_search a (or_else_search b c)
or_else_assoc a b c = ground arith

first_of :
    (detected : Text) (rs qs : List AffectedRange)
    → settled detected (find (is_decisive detected) (rs ++ qs))
      ≡ or_else_search
          (settled detected (find (is_decisive detected) rs))
          (settled detected (find (is_decisive detected) qs))
first_of detected [] qs = refl
first_of detected (r ∷ rs) qs = elim (Option-cases (is_version_affected (some detected) r)) [
  | inl e ↦ rw (is_decisive, e) (rw (settled, e) refl)
  | inr (m, e) ↦ elim (Bool-cases (stops m.status)) [
    | inl s ↦ rw (is_decisive, e, s) (rw (settled, e) refl)
    | inr s ↦ rw (is_decisive, e, s) (first_of detected rs qs)
  ]
]

match_ranges-settled :
    (detected : Text) (rs : List (Option AffectedRange))
    → match_ranges detected rs ≡ settled detected (find (is_decisive detected) (given rs))
unfolding match_ranges
match_ranges-settled detected [] = refl
match_ranges-settled detected (none ∷ rs) = match_ranges-settled detected rs
match_ranges-settled detected (some r ∷ rs) =
    elim (Option-cases (is_version_affected (some detected) r)) [
      | inl e ↦ rw (is_decisive, e) (rw (settled, e) refl)
      | inr (m, e) ↦ elim (Bool-cases (stops m.status)) [
        | inl s ↦ rw (is_decisive, e, s) (rw (settled, e) refl)
        | inr s ↦ rw (is_decisive, e, s) (match_ranges-settled detected rs)
      ]
    ]

match_records-settled :
    (slug detected type_ : Text) (sws : List Software)
    → match_records slug detected type_ sws
      ≡ settled detected (find (is_decisive detected) (considered slug type_ sws))
unfolding match_records
match_records-settled slug detected type_ [] = refl
match_records-settled slug detected type_ (sw ∷ sws) = elim (Bool-cases (concerns slug type_ sw)) [
  | inl e ↦
      rw
        (
          e,
          first_of detected (given sw.affected_versions) (considered slug type_ sws),
          match_ranges-settled detected sw.affected_versions,
          match_records-settled slug detected type_ sws,
        )
        refl
  | inr e ↦ rw e (match_records-settled slug detected type_ sws)
]

result_of-settled :
    (detected : Text) (o : Option AffectedRange)
    → result_of (settled detected o) ≡ (elim o [
      | none ↦ some (with_status not_affected)
      | some r ↦ is_version_affected (some detected) r
    ])
result_of-settled detected none = refl
result_of-settled detected (some r) = elim (Option-cases (is_version_affected (some detected) r)) [
  | inl e ↦ rw (result_of, settled, e) refl
  | inr (m, e) ↦ rw (result_of, settled, e) refl
]

pub match_software-first_decisive :
    (slug detected type_ : Text) (sws : List Software)
    → detected ≢ []
    → match_software slug (some detected) type_ sws
      ≡ (elim (find (is_decisive detected) (considered slug type_ sws)) [
        | none ↦ some (with_status not_affected)
        | some r ↦ is_version_affected (some detected) r
      ])
unfolding match_software
match_software-first_decisive slug [] type_ sws h = absurd (h refl)
match_software-first_decisive slug (c ∷ s) type_ sws h =
    rw (match_records-settled slug (c ∷ s) type_ sws)
      (result_of-settled (c ∷ s) (find (is_decisive (c ∷ s)) (considered slug type_ sws)))

no_decisive :
    (detected : Text) (rs : List AffectedRange)
    → parse_version (some detected) ≡ no_version
    → find (is_decisive detected) rs ≡ none
unfolding is_version_affected
no_decisive detected [] h = refl
no_decisive detected (r ∷ rs) h = rw (is_decisive, h) (no_decisive detected rs h)

-- For a text that is not empty and has no version in it, `is_version_affected` answers
-- `version_unknown` for every range, but `match_software` answers `not_affected`.
pub unparsed_is_not_affected :
    (slug : Text) (detected : Text) (type_ : Text) (sws : List Software)
    → detected ≢ []
    → parse_version (some detected) ≡ no_version
    → (match_software slug (some detected) type_ sws ≡ some (with_status not_affected))
      × ((r : AffectedRange)
          → is_version_affected (some detected) r ≡ some (with_status version_unknown))
unfolding is_version_affected
unparsed_is_not_affected slug detected type_ sws nonempty h = (
  match_software-first_decisive slug detected type_ sws nonempty
      ∙ rw (no_decisive detected (considered slug type_ sws) h) refl,
  λ r. rw h refl,
)
