-- ===== src/ScanTask/Execution.antt =====
-- The second part of run_scan_task of core/tasks/scan_tasks.py: the checks on a claimed job, the
-- scan, and how each end of it is recorded. What the scan itself (scanners/orchestrator.py) ends
-- with, and what other transactions did to the jobs in the meantime, are parameters.
use Prim.Native.String.{String}
use sentinel_wp.Base.{
  ℕ, Bool, true, false, not, ◌&&◌, ◌||◌, Option, none, some, List, [], ◌∷◌, ◌==◌, if◌then◌else◌,
  find,
}
use sentinel_wp.Base.Int.{pos}
use sentinel_wp.Base.Table.{put_row}
use sentinel_wp.Base.Text.{Text, codes, text_eq}
use sentinel_wp.Authorization.{norm}
use sentinel_wp.Findings.{Finding, Scan, Store, Outcome, done, in_tenant}
use sentinel_wp.Findings.Fingerprint.{or_default}
use sentinel_wp.Findings.Scans.{Context, RawFinding}
use sentinel_wp.Findings.Reconciliation.{process_scan_findings}
use sentinel_wp.ScanJob.{
  ScanJob, ScanJobStatus, Jobs, failed, completed, cancelled, timed_out, retrying,
}
use sentinel_wp.ScanJob.Queue.{mark_status, update_progress}
use sentinel_wp.ScanTask.{Limits, Admission, skipped, postponed, claimed, admit}

pub record Db : Type 0 where
  pub jobs : Jobs
  pub store : Store

-- What the task returns, or its call of `self.retry`.
pub data Result : Type 0 where
  returned : Bool → Result
  retried : (countdown : ℕ) → Result

-- How the `try` block ends: with a finished scan and its findings, or with an exception.
pub data Ending : Type 0 where
  finished : List RawFinding → Ending
  interrupted soft_time_limit : Ending
  transient : (message : String) → Ending
  broken : (target_blocked : Bool) (message : String) → Ending

-- A delivery of the task and what it reads from elsewhere. `verify` is the verdict of
-- verify_scan_authorization on the scan, `tenant_status` that of the tenant's row,
-- `error_text` the text of an error of the database.
pub record Delivery : Type 0 where
  pub now : ℕ
  pub scan_job_id : ℕ
  pub worker_id : ℕ
  pub retries : ℕ
  pub limits : Limits
  pub tenant_status : ℕ → Option Text
  pub verify : Scan → Bool
  pub ending : Ending
  pub meanwhile : Jobs → Jobs
  pub context : Context
  pub error_text : String

unfoldable pub get_scan : (scan_id tenant_id : ℕ) → List Scan → Option Scan
get_scan scan_id tenant_id scans =
    find (λ (x : Scan). x.id == scan_id && in_tenant tenant_id x.tenant_id) scans

-- `scan.status = status` and `save_scan(scan)`.
unfoldable pub save_scan : Text → Scan → Store → Store
save_scan status scan s = record s {
  scans = put_row (λ (x : Scan). x.id) (record scan { status = status }) s.scans;
}

unfoldable pub mark :
    Delivery
    → ScanJobStatus
    → (error_code error_message : Option String) → (worker : Option ℕ) → Jobs
    → Jobs
unfolding mark_status
mark d status code message worker jobs =
    (mark_status d.now d.scan_job_id status code message worker jobs).0

abbrev with_scan : Text → Scan → Db → Db
with_scan status scan db = record db { store = save_scan status scan db.store }

unfoldable pub fail : Delivery → (error_code error_message : String) → (worker : Option ℕ) → Db → Db
unfolding mark
fail d code message worker db = record db {
  jobs = mark d failed (some code) (some message) worker db.jobs;
}

-- `scan.scan_mode or "passive"`, in the modes that need an authorization.
unfoldable pub needs_authorization : Scan → Bool
unfolding norm
needs_authorization scan =
    text_eq (norm (or_default scan.scan_mode (codes "passive"))) (codes "safe_active")
    || text_eq (norm (or_default scan.scan_mode (codes "passive"))) (codes "full")

abbrev pub is_active_tenant : Option Text → Bool
is_active_tenant none = false
is_active_tenant (some s) = text_eq s (codes "active")

-- RETRY_BACKOFF_STEPS[min(retries, len - 1)]
unfoldable pub backoff : ℕ → ℕ
backoff retries =
    if retries == 0 then 30 else if retries == 1 then 60 else if retries == 2 then 120 else 300

-- `except Exception`
unfoldable pub execution_failed : Delivery → Scan → (target_blocked : Bool) → String → Db → Db
unfolding fail
execution_failed d scan blocked message db =
    with_scan (codes "failed") scan
      (fail d (if blocked then "TARGET_BLOCKED" else "SCAN_EXECUTION_ERROR") message none db)

abbrev asset_of : Option ℕ → ℕ
asset_of none = 0
asset_of (some a) = a

abbrev stored : Outcome (List Finding × Store) → Option Store
stored (done r) = some r.1
stored _ = none

-- What the call of process_scan_findings is given.
abbrev pub scan_context : Delivery → ScanJob → Scan → Context
scan_context d job scan = record (d.context) {
  now = d.now;
  scan_id = scan.id;
  tenant_id = job.tenant_id;
  asset_id = asset_of job.asset_id;
}

-- The findings are processed only if there are some.
unfoldable pub processed : Delivery → ScanJob → Scan → List RawFinding → Store → Option Store
unfolding process_scan_findings
processed d job scan [] s = some s
processed d job scan (rf ∷ rfs) s =
    stored (process_scan_findings (scan_context d job scan) (rf ∷ rfs) s)

-- The end of the `try` block, from the store with the findings.
unfoldable pub complete : Delivery → Scan → Db → Option Store → Result × Db
unfolding mark update_progress execution_failed
complete d scan db none = (returned false, execution_failed d scan false d.error_text db)
complete d scan db (some s) = (
  returned true,
  record {
    jobs =
        (update_progress d.now d.scan_job_id (pos 100) "Completed" (some d.worker_id)
          (mark d completed none none none db.jobs)).0;
    store = s;
  },
)

unfoldable pub settle : Delivery → ScanJob → Scan → Db → Ending → Result × Db
unfolding complete processed save_scan mark execution_failed backoff
settle d job scan db (finished rfs) =
    let db1 = with_scan (codes "completed") scan db in
    complete d scan db1 (processed d job scan rfs db1.store)
settle d job scan db interrupted = (
  returned false,
  record db {
    jobs = mark d cancelled none none none db.jobs;
    store = save_scan (codes "failed") scan db.store;
  },
)
settle d job scan db soft_time_limit = (
  returned false,
  record db {
    jobs =
        mark d timed_out (some "TASK_TIMEOUT") (some "Scan exceeded maximum execution time limit")
          none db.jobs;
    store = save_scan (codes "failed") scan db.store;
  },
)
settle d job scan db (transient message) = (
  retried (backoff d.retries),
  record db { jobs = mark d retrying (some "TRANSIENT_NETWORK_ERROR") (some message) none db.jobs },
)
settle d job scan db (broken blocked message) =
    (returned false, execution_failed d scan blocked message db)

-- The scan starts, runs and ends.
unfoldable pub execute : Delivery → ScanJob → Scan → Db → Result × Db
unfolding settle update_progress save_scan
execute d job scan db =
    let started =
      (update_progress d.now d.scan_job_id (pos 5) "Initializing Scanners" (some d.worker_id)
        db.jobs).0 in
    let probing =
      (update_progress d.now d.scan_job_id (pos 15) "Target Recon & Fingerprinting"
        (some d.worker_id) started).0 in
    settle d job scan
      (record { jobs = d.meanwhile probing; store = save_scan (codes "running") scan db.store })
      d.ending

abbrev rejected : Delivery → (code message : String) → Scan → Db → Result × Db
rejected d code message scan db =
    (returned false, with_scan (codes "failed") scan (fail d code message (some d.worker_id) db))

-- The checks on the scan of a claimed job.
unfoldable pub check_scan : Delivery → ScanJob → Db → Option Scan → Result × Db
unfolding execute fail save_scan needs_authorization
check_scan d job db none =
    (returned false, fail d "SCAN_NOT_FOUND" "Scan entity not found" (some d.worker_id) db)
check_scan d job db (some scan) =
    if not (is_active_tenant (d.tenant_status job.tenant_id))
    then rejected d "TENANT_INACTIVE" "Tenant is inactive" scan db
    else if needs_authorization scan && not (d.verify scan)
    then rejected d "AUTHORIZATION_EXPIRED" "Target scan authorization expired or invalid" scan db
    else execute d job scan db

unfoldable pub run_admitted : Delivery → Store → Jobs × Admission → Result × Db
unfolding check_scan get_scan
run_admitted d s (jobs, skipped) = (returned false, record { jobs = jobs; store = s })
run_admitted d s (jobs, postponed n) = (retried n, record { jobs = jobs; store = s })
run_admitted d s (jobs, claimed job) =
    check_scan d job (record { jobs = jobs; store = s })
      (get_scan job.scan_id job.tenant_id s.scans)

unfoldable pub run_scan_task : Delivery → Db → Result × Db
unfolding run_admitted admit
run_scan_task d db =
    run_admitted d db.store (admit d.limits d.now d.scan_job_id d.worker_id db.jobs)
