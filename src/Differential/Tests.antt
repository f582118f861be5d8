-- ===== src/Differential/Tests.antt =====
-- Runs of the comparison of scans, and the theorems at a concrete database.
use sentinel_wp.Base.{◌≡◌, refl, inl, inr, true, none, some, List, [], ◌∷◌, In, arith, map}
use sentinel_wp.Base.Text.{Text, codes, upper_char}
use sentinel_wp.Differential.{
  Scan, Finding, Posture, FindingChange, new, resolved, unknown, persisting, list_by_scan, classify,
  is_open, is_resolved,
}
use sentinel_wp.Differential.Changes.{fingerprints}
use sentinel_wp.Differential.Report.{
  changes_of, compute_scan_differential, get_latest_differential_for_asset,
}
use sentinel_wp.Differential.Safety.{Comparable, resolved_only_if_completed}
use sentinel_wp.Differential.Reopened.{OneRow}

abbrev tenant : Text
tenant = codes "t"

abbrev scan : Text → Text → Scan
scan id status = record {
  id = id;
  tenant_id = tenant;
  asset_id = some (codes "a");
  status = status;
  wordpress_version = some id;
  wp_version = none;
}

abbrev finding : Text → Text → Text → Finding
finding id scan_id status = record {
  id = id;
  tenant_id = tenant;
  scan_id = scan_id;
  fingerprint = id;
  observation_count = 1;
  title = codes "title";
  category = codes "plugin";
  severity = codes "high";
  status = status;
}

-- "x" stands in both scans, "y" only in the baseline, "z" only in the newer scan.
abbrev x_row : Finding
x_row = finding (codes "x") (codes "s2") (codes "OPEN")

abbrev y_row : Finding
y_row = finding (codes "y") (codes "s1") (codes "CLOSED")

abbrev z_row : Finding
z_row = finding (codes "z") (codes "s2") (codes "OPEN")

abbrev db : Posture
db = record {
  scans =
      scan (codes "s2") (codes "completed")
      ∷ scan (codes "s1") (codes "completed")
      ∷ scan (codes "s3") (codes "failed")
      ∷ [];
  findings = z_row ∷ y_row ∷ x_row ∷ [];
  observations = record { finding_id = codes "x"; scan_id = codes "s1" } ∷ [];
}

abbrev olds : List Finding
olds = y_row ∷ x_row ∷ []

abbrev news : List Finding
news = z_row ∷ x_row ∷ []

rows_listed :
    (list_by_scan (codes "s1") tenant db ≡ olds) × (list_by_scan (codes "s2") tenant db ≡ news)
unfolding list_by_scan
rows_listed = (refl, refl)

states : map (λ c. c.change_state) (changes_of true olds news) ≡ persisting ∷ resolved ∷ new ∷ []
unfolding changes_of classify is_open is_resolved upper_char
states = refl

no_resolution_by_failure :
    map
      (λ c. c.change_state)
      (compute_scan_differential db (codes "s1") (codes "s3") tenant none).changes
    ≡ unknown ∷ unknown ∷ []
unfolding compute_scan_differential upper_char is_open is_resolved classify
no_resolution_by_failure = refl

keys :
    (ks : List Text) × (fingerprints (changes_of true olds news) ≡ ks)
    × (ks ≡ codes "x" ∷ codes "y" ∷ codes "z" ∷ [])
unfolding changes_of classify is_open is_resolved upper_char
keys = (fingerprints (changes_of true olds news), refl, refl)

abbrev y_change : FindingChange
y_change = record {
  fingerprint = codes "y";
  change_state = resolved;
  finding_id = some (codes "y");
  title = codes "title";
  category = codes "plugin";
  severity = codes "high";
  baseline_status = some (codes "CLOSED");
  new_status = none;
}

y_is_reported : In y_change (changes_of true olds news)
unfolding changes_of classify is_open is_resolved upper_char
y_is_reported = inr (inl refl)

y_listed : In y_change (compute_scan_differential db (codes "s1") (codes "s2") tenant none).changes
unfolding compute_scan_differential changes_of classify is_open is_resolved upper_char
y_listed = inr (inl refl)

resolved_only_if_completed_example :
    Comparable db (codes "s1") (codes "s2") tenant
    × ((compute_scan_differential db (codes "s1") (codes "s2") tenant none).is_complete ≡ true)
resolved_only_if_completed_example =
    resolved_only_if_completed db (codes "s1") (codes "s2") tenant none y_change y_listed refl

is_complete_here :
    (compute_scan_differential db (codes "s1") (codes "s2") tenant none).is_complete ≡ true
unfolding compute_scan_differential upper_char
is_complete_here = refl

one_row : OneRow tenant db.findings
one_row f g i j u v h e = ground arith

latest :
    get_latest_differential_for_asset db (codes "a") tenant
    ≡ some (compute_scan_differential db (codes "s1") (codes "s2") tenant (some (codes "a")))
unfolding get_latest_differential_for_asset
latest = refl
