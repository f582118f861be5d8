-- ===== src/Findings/Reconciliation.antt =====
-- The loop of process_scan_findings and the reconciliation after it: core/db/adapter.py.
use sentinel_wp.Base.{
  ℕ, Bool, false, not, ◌&&◌, Option, none, some, List, [], ◌∷◌, ◌==◌, if◌then◌else◌, find, keep,
  elem, map,
}
use sentinel_wp.Base.Text.{codes, text_eq, lower}
use sentinel_wp.Lifecycle.{verification_pending, verified, value}
use sentinel_wp.Findings.{
  Finding, Scan, Store, finding_verified, in_tenant, save_finding, add_history, update_findings,
  Outcome, done, ◌>>=◌,
}
use sentinel_wp.Findings.Scans.{Context, RawFinding, process_one, scan_history}

-- The loop over `raw_findings`, with the list `processed`.
unfoldable pub process_all : Context → List RawFinding → Store → Outcome (List Finding × Store)
unfolding process_one
process_all c [] s = done ([], s)
process_all c (rf ∷ rfs) s =
    process_one c rf s >>= λ (f, s1). process_all c rfs s1 >>= λ (fs, s2). done (f ∷ fs, s2)

abbrev completed : Option Scan → Bool
completed none = false
completed (some scan) = text_eq (lower scan.status) (codes "completed")

unfoldable pub is_scan_completed : Context → Store → Bool
is_scan_completed c s =
    completed (find (λ (x : Scan). x.id == c.scan_id && in_tenant c.tenant_id x.tenant_id) s.scans)

-- The pending findings of the asset, in the order of the table.
unfoldable pub pending_verification : Context → Store → List Finding
pending_verification c s =
    keep
      (λ (f : Finding).
        f.asset_id == c.asset_id
        && in_tenant c.tenant_id f.tenant_id
        && text_eq f.status (value verification_pending))
      s.findings

abbrev pub verified_finding : Context → Finding → Finding
verified_finding c pv = record pv {
  status = value verified;
  verified_at = some c.now;
  verified_by_scan_id = c.scan_id;
}

unfoldable pub after_verified : Context → Finding → List Finding → Store → Store
unfolding update_findings add_history
after_verified c f fs s =
    add_history (scan_history c finding_verified (some (value verification_pending)) f)
      (update_findings fs s)

-- One round of the reconciliation.
unfoldable pub verify_one : Context → List ℕ → Finding → Store → Outcome Store
unfolding save_finding after_verified
verify_one c fingerprints pv s =
    if elem pv.fingerprint fingerprints
    then done s
    else let f = verified_finding c pv in
      (save_finding c.now f none s.findings >>= λ fs. done (after_verified c f fs s))

unfoldable pub verify_absent : Context → List ℕ → List Finding → Store → Outcome Store
unfolding verify_one
verify_absent c fingerprints [] s = done s
verify_absent c fingerprints (pv ∷ pvs) s =
    verify_one c fingerprints pv s >>= λ s1. verify_absent c fingerprints pvs s1

unfoldable pub reconcile : Context → List Finding → Store → Outcome (List Finding × Store)
unfolding verify_absent pending_verification is_scan_completed
reconcile c processed s =
    if not (c.asset_id == 0) && is_scan_completed c s
    then (verify_absent c (map (λ (f : Finding). f.fingerprint) processed)
          (pending_verification c s) s
        >>= λ s1. done (processed, s1))
    else done (processed, s)

unfoldable pub process_scan_findings :
    Context → List RawFinding → Store → Outcome (List Finding × Store)
unfolding process_all reconcile
process_scan_findings c raw_findings s =
    process_all c raw_findings s >>= λ (processed, s1). reconcile c processed s1
