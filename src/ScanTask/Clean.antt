-- ===== src/ScanTask/Clean.antt =====
-- A scan without findings: run_scan_task of core/tasks/scan_tasks.py and process_scan_findings of
-- core/db/adapter.py.
use sentinel_wp.Base.{
  ℕ, ◌≡◌, ◌≢◌, refl, ◌∙◌, true, not, ◌&&◌, Option, none, some, List, [], arith, inl, inr,
  Bool-cases,
}
use sentinel_wp.Lifecycle.{value, verified, verification_pending}
use sentinel_wp.Findings.{Finding, Scan, Store, done, row}
use sentinel_wp.Findings.Scans.{Context}
use sentinel_wp.Findings.Reconciliation.{process_scan_findings}
use sentinel_wp.Findings.Unique.{IsSound}
use sentinel_wp.Findings.Effect.{process_scan_findings-Effect, reconciles, status_after}
use sentinel_wp.ScanJob.{ScanJob, Jobs}
use sentinel_wp.ScanTask.{Admission, skipped, postponed, claimed}
use sentinel_wp.ScanTask.Execution.{
  Db, Delivery, finished, fail, processed, complete, settle, execute, check_scan, save_scan,
  run_admitted, run_scan_task, needs_authorization, is_active_tenant,
}

findings-execute :
    (d : Delivery) (job : ScanJob) (scan : Scan) (db : Db)
    → d.ending ≡ finished []
    → ((execute d job scan db).1).store.findings ≡ db.store.findings
unfolding execute settle complete processed save_scan
findings-execute d job scan db h = rw h refl

findings-check_scan :
    (d : Delivery) (job : ScanJob) (db : Db) (o : Option Scan)
    → d.ending ≡ finished []
    → ((check_scan d job db o).1).store.findings ≡ db.store.findings
unfolding check_scan fail save_scan
findings-check_scan d job db none h = refl
findings-check_scan d job db (some scan) h =
    elim (Bool-cases (not (is_active_tenant (d.tenant_status job.tenant_id)))) [
      | inl a ↦ rw a refl
      | inr a ↦ elim (Bool-cases (needs_authorization scan && not (d.verify scan))) [
        | inl b ↦ rw (a, b) refl
        | inr b ↦ rw (a, b) (findings-execute d job scan db h)
      ]
    ]

findings-run_admitted :
    (d : Delivery) (s : Store) (r : Jobs × Admission)
    → d.ending ≡ finished []
    → ((run_admitted d s r).1).store.findings ≡ s.findings
unfolding run_admitted
findings-run_admitted d s (jobs, skipped) h = refl
findings-run_admitted d s (jobs, postponed n) h = refl
findings-run_admitted d s (jobs, claimed job) h =
    findings-check_scan d job (record { jobs = jobs; store = s }) _ h

verified_without_findings :
    (c : Context) (s : Store) (e : Finding)
    → reconciles c s ≡ true
    → e.asset_id ≡ c.asset_id
    → e.tenant_id ≡ c.tenant_id
    → e.status ≡ value verification_pending
    → status_after c [] s e ≡ value verified
verified_without_findings c s e r a t p = rw (r, p, a, t) (ground arith)

-- A clean scan verifies nothing: the task changes no finding when the scan ends without findings.
-- Yet process_scan_findings, called with no findings for a completed scan of a tenant and an asset,
-- on a sound table, makes every VERIFICATION_PENDING finding of them VERIFIED.
pub clean_scan_verifies_nothing :
    (d : Delivery) (db : Db) (c : Context) (j : ℕ) (e : Finding)
    → d.ending ≡ finished []
    → c.tenant_id ≢ 0
    → IsSound db.store.findings
    → reconciles c db.store ≡ true
    → row j db.store.findings ≡ some e
    → e.asset_id ≡ c.asset_id
    → e.tenant_id ≡ c.tenant_id
    → e.status ≡ value verification_pending
    → (((run_scan_task d db).1).store.findings ≡ db.store.findings)
      × ((r : List Finding × Store) × (g : Finding) × (process_scan_findings c [] db.store ≡ done r)
          × (row j (r.1).findings ≡ some g)
          × (g.status ≡ value verified))
unfolding run_scan_task
clean_scan_verifies_nothing d db c j e h n w r q a t p =
    let (x, f) = process_scan_findings-Effect c [] db.store n w in
    let (g, y, tt1, k, b, st) = f.kept j e tt q in
    (
      findings-run_admitted d db.store _ h,
      (x, g, f.returns, y, st ∙ verified_without_findings c db.store e r a t p),
    )
