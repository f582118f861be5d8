-- ===== src/Differential.antt =====
-- The difference of two scans of an asset: core/differential.py, with the two queries that it reads
-- scans and findings by (get_by_id of core/db/repositories/scan_repo.py and list_by_scan of
-- core/db/repositories/finding_repo.py). An absent text is `none`; a status or a severity is the
-- text that `str` gives.
pub mod Index
mod Keys
pub mod Changes
pub mod Report
pub mod Safety
pub mod Reopened
mod Tests
use sentinel_wp.Base.{
  ℕ, zero, suc, ◌+◌, Bool, true, false, not, ◌&&◌, ◌||◌, Option, none, some, List, [], ◌∷◌, ◌++◌,
  leb, ltb, ◌==◌, if◌then◌else◌, keep, find, count_if, any_of, is_some,
}
use sentinel_wp.Base.Text.{Text, codes, text_eq, upper}

-- The fields of a scan that the comparison reads.
pub record Scan : Type 0 where
  pub id : Text
  pub tenant_id : Text
  pub asset_id : Option Text
  pub status : Text
  pub wordpress_version : Option Text
  pub wp_version : Option Text

pub record Finding : Type 0 where
  pub id : Text
  pub tenant_id : Text
  pub scan_id : Text
  pub fingerprint : Text
  pub observation_count : ℕ
  pub title : Text
  pub category : Text
  pub severity : Text
  pub status : Text

pub record Observation : Type 0 where
  pub finding_id : Text
  pub scan_id : Text

-- The findings stand in the order of the query, the scans in that of list_scans.
pub record Posture : Type 0 where
  pub scans : List Scan
  pub findings : List Finding
  pub observations : List Observation

-- A tenant filter that is the empty text is none.
abbrev pub in_tenant : Text → Text → Bool
in_tenant [] row_tenant = true
in_tenant (c ∷ t) row_tenant = text_eq row_tenant (c ∷ t)

unfoldable pub get_scan : Text → Text → List Scan → Option Scan
get_scan scan_id tenant_id scans =
    find (λ s. text_eq s.id scan_id && in_tenant tenant_id s.tenant_id) scans

unfoldable pub list_by_scan : Text → Text → Posture → List Finding
list_by_scan scan_id tenant_id db =
    keep
      (λ f.
        (text_eq f.scan_id scan_id
          || any_of (λ o. text_eq o.scan_id scan_id && text_eq o.finding_id f.id) db.observations)
        && in_tenant tenant_id f.tenant_id)
      db.findings

pub data ChangeState : Type 0 where
  new persisting resolved reopened unknown : ChangeState

abbrev pub index : ChangeState → ℕ
index new = 0
index persisting = 1
index resolved = 2
index reopened = 3
index unknown = 4

abbrev pub is_state : ChangeState → ChangeState → Bool
is_state s t = index s == index t

-- _OPEN_STATUSES
unfoldable pub is_open : Text → Bool
is_open s =
    text_eq s (codes "OPEN") || text_eq s (codes "REOPENED") || text_eq s (codes "IN_PROGRESS")

-- _RESOLVED_STATUSES
unfoldable pub is_resolved : Text → Bool
is_resolved s =
    text_eq s (codes "VERIFIED") || text_eq s (codes "CLOSED") || text_eq s (codes "REMEDIATED")

pub record FindingChange : Type 0 where
  pub fingerprint : Text
  pub change_state : ChangeState
  pub finding_id : Option Text
  pub title : Text
  pub category : Text
  pub severity : Text
  pub baseline_status : Option Text
  pub new_status : Option Text

pub record ScanDifferential : Type 0 where
  pub baseline_scan_id : Text
  pub new_scan_id : Text
  pub asset_id : Option Text
  pub tenant_id : Text
  pub is_complete : Bool
  pub incomplete_reason : Option Text
  pub changes : List FindingChange
  pub new_count : ℕ
  pub persisting_count : ℕ
  pub resolved_count : ℕ
  pub reopened_count : ℕ
  pub wp_version_changed : Bool
  pub wp_version_baseline : Option Text
  pub wp_version_new : Option Text

abbrev pub count_state : ChangeState → List FindingChange → ℕ
count_state s cs = count_if (λ c. is_state c.change_state s) cs

-- `_recompute_counts`
unfoldable pub recompute_counts : ScanDifferential → ScanDifferential
recompute_counts d = record d {
  new_count = count_state new d.changes;
  persisting_count = count_state persisting d.changes;
  resolved_count = count_state resolved d.changes;
  reopened_count = count_state reopened d.changes;
}

-- A dictionary from fingerprints to findings, each under its own fingerprint.
abbrev pub by_fp : Text → List Finding → Option Finding
by_fp fp index_ = find (λ f. text_eq f.fingerprint fp) index_

-- `index[f.fingerprint] = f`
abbrev pub put : Finding → List Finding → List Finding
put f [] = f ∷ []
put f (g ∷ gs) = if text_eq g.fingerprint f.fingerprint then f ∷ gs else g ∷ put f gs

abbrev pub put_newer : Finding → Option Finding → List Finding → List Finding
put_newer f none index_ = put f index_
put_newer f (some existing) index_ =
    if ltb existing.observation_count f.observation_count then put f index_ else index_

-- One round of the loops that index the findings; one without a fingerprint is left out.
unfoldable pub index_one : Finding → List Finding → List Finding
index_one f index_ =
    if text_eq f.fingerprint [] then index_ else put_newer f (by_fp f.fingerprint index_) index_

unfoldable pub index_all : List Finding → List Finding → List Finding
unfolding index_one
index_all [] index_ = index_
index_all (f ∷ fs) index_ = index_all fs (index_one f index_)

-- The order of Python's texts.
abbrev pub text_lt : Text → Text → Bool
text_lt s [] = false
text_lt [] (y ∷ ys) = true
text_lt (x ∷ xs) (y ∷ ys) = ltb x y || x == y && text_lt xs ys

-- A fingerprint comes into a sorted list without repetitions.
abbrev pub insert_key : Text → List Text → List Text
insert_key k [] = k ∷ []
insert_key k (x ∷ xs) =
    if text_eq k x then x ∷ xs else if text_lt k x then k ∷ x ∷ xs else x ∷ insert_key k xs

-- `sorted(set(...))` of the fingerprints.
abbrev pub sorted_keys : List Finding → List Text
sorted_keys [] = []
sorted_keys (f ∷ fs) = insert_key f.fingerprint (sorted_keys fs)

abbrev pub status_of : Option Finding → Option Text
status_of none = none
status_of (some f) = some (upper f.status)

-- The branches on the two findings of one fingerprint.
unfoldable pub classify : Bool → Option Finding → Option Finding → ChangeState
classify completed none (some n) = new
classify completed (some b) none = if not completed then unknown else resolved
classify completed (some b) (some n) =
    if is_resolved (upper b.status) && is_open (upper n.status) then reopened else persisting
classify completed none none = unknown

abbrev pub representative : Option Finding → Option Finding → Option Finding
representative (some n) b = some n
representative none b = b

-- `getattr(representative, ..., default)`
abbrev pub attribute : (Finding → Text) → Text → Option Finding → Text
attribute field default none = default
attribute field default (some f) = field f

unfoldable pub change_of : Bool → List Finding → List Finding → Text → FindingChange
unfolding classify
change_of completed baseline_by_fp new_by_fp fp =
    let b = by_fp fp baseline_by_fp in
    let n = by_fp fp new_by_fp in
    let shown = representative n b in
    record {
      fingerprint = fp;
      change_state = classify completed b n;
      finding_id = elim shown [ none ↦ none | some f ↦ some f.id ];
      title = attribute (λ f. f.title) [] shown;
      category = attribute (λ f. f.category) [] shown;
      severity = attribute (λ f. f.severity) (codes "info") shown;
      baseline_status = status_of b;
      new_status = status_of n;
    }
