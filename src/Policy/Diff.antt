-- ===== src/Policy/Diff.antt =====
-- The difference of two versions of a policy: `diff_versions` of core/policy/engine.py.
use sentinel_wp.Base.{
  ℕ, ◌≡◌, refl, inl, inr, Bool, true, false, not, Option, none, some, List, [], ◌∷◌, arith,
  if◌then◌else◌, Bool-cases, Option-cases, keep, is_some,
}
use sentinel_wp.Base.Text.{Text, text_eq, text_eq_iff, text_eq_refl}
use sentinel_wp.Policy.{PolicyVersion, Definition, Governance, get_policy_version}

-- `d.get(k)`; a dictionary has each key once, and the first entry is the one that counts.
abbrev pub lookup : {A : Type 0} → Text → List (Text × A) → Option A
lookup k [] = none
lookup k ((k', x) ∷ d) = if text_eq k' k then some x else lookup k d

abbrev pub has_key : {A : Type 0} → List (Text × A) → Text → Bool
has_key d k = is_some (lookup k d)

-- `{k: d[k] for k in d if k not in other}`
abbrev pub without : Definition → Definition → Definition
without d other = keep (λ e. not (has_key other e.0)) d

-- `same_value` is Python's `==` on the values that the JSON texts stand for, which finds 1, 1.0 and
-- true equal.
abbrev pub modified_entry :
    (same_value : Text → Text → Bool)
    → Text
    → Text
    → Option Text
    → List (Text × (Text × Text))
    → List (Text × (Text × Text))
modified_entry same_value k old none rest = rest
modified_entry same_value k old (some new) rest =
    if same_value old new then rest else (k, (old, new)) ∷ rest

-- The loop over the fields of the first version.
abbrev pub modified_of :
    (same_value : Text → Text → Bool) → Definition → Definition → List (Text × (Text × Text))
modified_of same_value [] db = []
modified_of same_value ((k, old) ∷ da) db =
    modified_entry same_value k old (lookup k db) (modified_of same_value da db)

pub record Diff : Type 0 where
  pub version_a : ℕ
  pub version_b : ℕ
  pub checksum_a : Text
  pub checksum_b : Text
  pub added : Definition
  pub removed : Definition
  pub modified : List (Text × (Text × Text))

unfoldable pub diff_of : (same_value : Text → Text → Bool) → PolicyVersion → PolicyVersion → Diff
diff_of same_value va vb = record {
  version_a = va.version;
  version_b = vb.version;
  checksum_a = va.checksum;
  checksum_b = vb.checksum;
  added = without vb.definition_json va.definition_json;
  removed = without va.definition_json vb.definition_json;
  modified = modified_of same_value va.definition_json vb.definition_json;
}

-- `none` is the ValueError of a version that is not there.
unfoldable pub diff_versions : (same_value : Text → Text → Bool) → ℕ → ℕ → Governance → Option Diff
unfolding diff_of
diff_versions same_value version_id_a version_id_b db = elim (get_policy_version version_id_a db) [
  | none ↦ none
  | some va ↦ elim (get_policy_version version_id_b db) [
    | none ↦ none
    | some vb ↦ some (diff_of same_value va vb)
  ]
]

-- Each field once, as in a dictionary.
abbrev pub IsDict : Definition → Type 0
IsDict [] = Unit
IsDict ((k, x) ∷ d) = (has_key d k ≡ false) × IsDict d

lookup-without :
    (k : Text) (d other : Definition)
    → lookup k (without d other) ≡ (if has_key other k then none else lookup k d)
lookup-without k [] other = ground arith
lookup-without k ((k', x) ∷ d) other = elim (Bool-cases (text_eq k' k)) [
  | inl e ↦ rw ((text_eq_iff k' k).0 e) (ground (arith, lookup-without k d other, text_eq_refl k))
  | inr e ↦ ground (arith, e, lookup-without k d other)
]

-- How one field appears among the modified ones.
abbrev change_at : (Text → Text → Bool) → Option Text → Option Text → Option (Text × Text)
change_at same (some old) (some new) = if same old new then none else some (old, new)
change_at same (some old) none = none
change_at same none _ = none

lookup-modified_of :
    (same : Text → Text → Bool) (k : Text) (da db : Definition)
    → IsDict da
    → lookup k (modified_of same da db) ≡ change_at same (lookup k da) (lookup k db)
lookup-modified_of same k [] db h = refl
lookup-modified_of same k ((k', x) ∷ da) db (once, h) = elim (Bool-cases (text_eq k' k)) [
  | inl e ↦
      let equal = (text_eq_iff k' k).0 e in
      ground (
        arith,
        equal,
        e,
        text_eq_refl k,
        once,
        lookup-modified_of same k da db h,
        Option-cases (lookup k db),
        Option-cases (lookup k da),
      )
  | inr e ↦ ground (arith, e, lookup-modified_of same k da db h, Option-cases (lookup k' db))
]

abbrev pub patched_modified : Option (Text × Text) → Option Text → Option Text
patched_modified none old = old
patched_modified (some (old, new)) _ = some new

-- A field of the first version after the changes that the difference lists.
abbrev pub patched : Diff → Text → Option Text → Option Text
patched d k old = elim (lookup k d.added) [
  | some x ↦ some x
  | none ↦ if has_key d.removed k then none else patched_modified (lookup k d.modified) old
]

-- A field is in both or in neither, with values that Python finds equal.
abbrev pub SameField : (Text → Text → Bool) → Option Text → Option Text → Type 0
SameField same none none = Unit
SameField same (some x) (some y) = same x y ≡ true
SameField same _ _ = ⊥

patched_field :
    (same : Text → Text → Bool) (a b added removed : Option Text) (changed : Option (Text × Text))
    → ((x : Text) → same x x ≡ true)
    → added ≡ (if is_some a then none else b)
    → removed ≡ (if is_some b then none else a)
    → changed ≡ change_at same a b
    → SameField same
        (elim added [
          | some x ↦ some x
          | none ↦ if is_some removed then none else patched_modified changed a
        ])
        b
patched_field same none none added removed changed r ea er ec = rw (ea, er, ec) tt
patched_field same none (some y) added removed changed r ea er ec = rw ea (r y)
patched_field same (some x) none added removed changed r ea er ec = rw (ea, er) tt
patched_field same (some x) (some y) added removed changed r ea er ec =
    elim (Bool-cases (same x y)) [ inl e ↦ rw (ea, er, ec, e) e | inr e ↦ rw (ea, er, ec, e) (r y) ]

-- The difference of two versions, applied to the first, gives the second, at every field that was
-- added, removed, modified or left alone, up to values that Python's `==` finds equal, if the first
-- version names each field once and every value equals itself.
pub patched-diff_of :
    (same : Text → Text → Bool) (va vb : PolicyVersion) (k : Text)
    → ((x : Text) → same x x ≡ true)
    → IsDict va.definition_json
    → SameField same
        (patched (diff_of same va vb) k (lookup k va.definition_json))
        (lookup k vb.definition_json)
unfolding diff_of
patched-diff_of same va vb k r h =
    let da = va.definition_json in
    let db = vb.definition_json in
    patched_field same (lookup k da) (lookup k db) _ _ _ r (lookup-without k db da)
      (lookup-without k da db) (lookup-modified_of same k da db h)
