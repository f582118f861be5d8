-- ===== src/Differential/Report.antt =====
-- The report: `compute_scan_differential` and `get_latest_differential_for_asset` of
-- core/differential.py, with list_scans of core/db/repositories/scan_repo.py as the latter calls it.
use sentinel_wp.Base.{
  Bool, true, false, not, ◌&&◌, Option, none, some, List, [], ◌∷◌, ◌++◌, map, if◌then◌else◌, keep,
  take,
}
use sentinel_wp.Base.Text.{Text, codes, text_eq, upper}
use sentinel_wp.Differential.{
  Scan, Finding, Posture, get_scan, list_by_scan, FindingChange, ScanDifferential, recompute_counts,
  index_all, sorted_keys, change_of, in_tenant,
}

abbrev pub is_completed : Scan → Bool
is_completed s = text_eq (upper s.status) (codes "COMPLETED")

abbrev pub fresh : Text → Text → Text → Option Text → ScanDifferential
fresh baseline_scan_id new_scan_id tenant_id asset_id = record {
  baseline_scan_id = baseline_scan_id;
  new_scan_id = new_scan_id;
  asset_id = asset_id;
  tenant_id = tenant_id;
  is_complete = true;
  incomplete_reason = none;
  changes = [];
  new_count = 0;
  persisting_count = 0;
  resolved_count = 0;
  reopened_count = 0;
  wp_version_changed = false;
  wp_version_baseline = none;
  wp_version_new = none;
}

abbrev incomplete : Text → ScanDifferential → ScanDifferential
incomplete reason d = record d { is_complete = false; incomplete_reason = some reason }

abbrev not_completed : Text → Scan → Text
not_completed new_scan_id new_scan =
    codes "New scan "
    ++ new_scan_id
    ++ codes " status is '"
    ++ new_scan.status
    ++ codes "' (not completed). RESOLVED changes suppressed to prevent false resolutions."

abbrev pub mark_completeness : Text → Scan → ScanDifferential → ScanDifferential
mark_completeness new_scan_id new_scan d =
    if is_completed new_scan then d else incomplete (not_completed new_scan_id new_scan) d

-- The loop over the fingerprints.
unfoldable pub changes_of : Bool → List Finding → List Finding → List FindingChange
unfolding index_all change_of
changes_of completed baseline_findings new_findings =
    let baseline_by_fp = index_all baseline_findings [] in
    let new_by_fp = index_all new_findings [] in
    map (change_of completed baseline_by_fp new_by_fp) (sorted_keys (baseline_by_fp ++ new_by_fp))

abbrev given : Option Text → Bool
given none = false
given (some []) = false
given (some (c ∷ s)) = true

abbrev wp_of : Scan → Option Text
wp_of s = if given s.wordpress_version then s.wordpress_version else s.wp_version

abbrev same_version : Option Text → Option Text → Bool
same_version (some v) (some w) = text_eq v w
same_version none none = true
same_version _ _ = false

unfoldable pub compare_wp : Scan → Scan → ScanDifferential → ScanDifferential
compare_wp baseline_scan new_scan d =
    let b = wp_of baseline_scan in
    let n = wp_of new_scan in
    if given b && given n && not (same_version b n)
    then record d { wp_version_changed = true; wp_version_baseline = b; wp_version_new = n }
    else d

abbrev pub compare_scans :
    Posture → Text → Text → Text → Option Text → Option Scan → Option Scan → ScanDifferential
compare_scans db baseline_scan_id new_scan_id tenant_id asset_id none new_scan =
    incomplete (codes "Baseline scan " ++ baseline_scan_id ++ codes " not found")
      (fresh baseline_scan_id new_scan_id tenant_id asset_id)
compare_scans db baseline_scan_id new_scan_id tenant_id asset_id (some b) none =
    incomplete (codes "New scan " ++ new_scan_id ++ codes " not found")
      (fresh baseline_scan_id new_scan_id tenant_id asset_id)
compare_scans db baseline_scan_id new_scan_id tenant_id asset_id (some b) (some n) =
    let d =
      mark_completeness new_scan_id n (fresh baseline_scan_id new_scan_id tenant_id asset_id) in
    let changes =
      changes_of (is_completed n) (list_by_scan baseline_scan_id tenant_id db)
        (list_by_scan new_scan_id tenant_id db) in
    recompute_counts (compare_wp b n (record d { changes = changes }))

unfoldable pub compute_scan_differential :
    Posture → Text → Text → Text → Option Text → ScanDifferential
unfolding get_scan list_by_scan changes_of compare_wp recompute_counts
compute_scan_differential db baseline_scan_id new_scan_id tenant_id asset_id =
    compare_scans db baseline_scan_id new_scan_id tenant_id asset_id
      (get_scan baseline_scan_id tenant_id db.scans) (get_scan new_scan_id tenant_id db.scans)

abbrev of_asset : Text → Option Text → Bool
of_asset [] _ = true
of_asset (c ∷ a) none = false
of_asset (c ∷ a) (some row_asset) = text_eq row_asset (c ∷ a)

-- The completed scans of the asset, newest first.
unfoldable pub list_completed : Text → Text → List Scan → List Scan
list_completed asset_id tenant_id scans = take 2 (
    keep
      (λ s.
        of_asset asset_id s.asset_id
        && in_tenant tenant_id s.tenant_id
        && text_eq s.status (codes "completed"))
      scans)

abbrev latest_of : Posture → Text → Text → List Scan → Option ScanDifferential
latest_of db asset_id tenant_id [] = none
latest_of db asset_id tenant_id (n ∷ []) = none
latest_of db asset_id tenant_id (n ∷ b ∷ _) =
    some (compute_scan_differential db b.id n.id tenant_id (some asset_id))

unfoldable pub get_latest_differential_for_asset : Posture → Text → Text → Option ScanDifferential
unfolding list_completed compute_scan_differential
get_latest_differential_for_asset db asset_id tenant_id =
    latest_of db asset_id tenant_id (list_completed asset_id tenant_id db.scans)
