-- ===== src/Schedule/Reconciliation.antt =====
-- Runs whose job is gone or over: reconcile_orphaned_scheduled_runs of
-- core/tasks/maintenance_tasks.py, alike on both databases. `latest_job` is the job of the newest scan
-- that the schedule started, if both exist. Audit events are left out.
use sentinel_wp.Base.{
  ℕ, Bool, ◌+◌, ◌-◌, ◌&&◌, ◌||◌, Option, none, some, List, [], ◌∷◌, ◌==◌, leb, if◌then◌else◌, keep,
  take,
}
use sentinel_wp.Base.Sort.{sort_asc}
use sentinel_wp.Base.Table.{get_row}
use sentinel_wp.Base.Text.{Text, codes, text_eq}
use sentinel_wp.ScanJob.{ScanJob, Jobs, job_key, same, completed, failed}
use sentinel_wp.Schedule.{ScheduledRun}

pub record Reconciled : Type 0 where
  pub reconciled : ℕ
  pub failed_count : ℕ
  pub completed_count : ℕ
  pub runs : List ScheduledRun

-- UPDATE scheduled_runs SET ... WHERE id = run_id
unfoldable pub update_run :
    ℕ → (ScheduledRun → ScheduledRun) → List ScheduledRun → List ScheduledRun
update_run i f [] = []
update_run i f (r ∷ rs) = if r.id == i then f r ∷ rs else r ∷ update_run i f rs

abbrev with_status : Text → ScheduledRun → ScheduledRun
with_status status r = record r { status = status }

abbrev linked_to : ℕ → ScheduledRun → ScheduledRun
linked_to job_id r = record r { scan_job_id = job_id }

unfoldable pub fail_run : ScheduledRun → Reconciled → Reconciled
unfolding update_run
fail_run r x = record x {
  failed_count = x.failed_count + 1;
  runs = update_run r.id (with_status (codes "failed")) x.runs;
}

-- A run without a job: it is linked to the job, or failed.
unfoldable pub link_run : ScheduledRun → Option ℕ → Reconciled → Reconciled
unfolding update_run fail_run
link_run r none x = fail_run r x
link_run r (some job_id) x = record x {
  reconciled = x.reconciled + 1;
  runs = update_run r.id (linked_to job_id) x.runs;
}

abbrev tenant_job : (tenant_id : ℕ) → Option ScanJob → Option ScanJob
tenant_job t none = none
tenant_job t (some j) = if t == 0 || j.tenant_id == t then some j else none

-- `get_scan_job(job_id, tenant_id=...)`
unfoldable pub get_scan_job : (job_id tenant_id : ℕ) → Jobs → Option ScanJob
get_scan_job job_id tenant_id jobs = tenant_job tenant_id (get_row job_key job_id jobs)

-- A run with a job id, from the job.
unfoldable pub verify_run : ScheduledRun → Option ScanJob → Reconciled → Reconciled
unfolding update_run fail_run
verify_run r none x = fail_run r x
verify_run r (some job) x =
    if same job.status completed
    then record x {
      completed_count = x.completed_count + 1;
      runs = update_run r.id (with_status (codes "completed")) x.runs;
    }
    else if same job.status failed
    then fail_run r x
    else x

unfoldable pub reconcile_run :
    (latest_job : ScheduledRun → Option ℕ) → Jobs → ScheduledRun → Reconciled → Reconciled
unfolding link_run verify_run get_scan_job
reconcile_run latest_job jobs r x =
    if r.scan_job_id == 0
    then link_run r (latest_job r) x
    else verify_run r (get_scan_job r.scan_job_id r.tenant_id jobs) x

unfoldable pub reconcile_listed :
    (latest_job : ScheduledRun → Option ℕ) → Jobs → List ScheduledRun → Reconciled → Reconciled
unfolding reconcile_run
reconcile_listed latest_job jobs [] x = x
reconcile_listed latest_job jobs (r ∷ rs) x =
    reconcile_listed latest_job jobs rs (reconcile_run latest_job jobs r x)

abbrev pub is_orphan : (now threshold : ℕ) → ScheduledRun → Bool
is_orphan now threshold r =
    text_eq r.status (codes "dispatched") && leb r.created_at (now - threshold)

-- The oldest runs that are still dispatched.
unfoldable pub orphaned_runs : (now threshold limit : ℕ) → List ScheduledRun → List ScheduledRun
unfolding sort_asc
orphaned_runs now threshold limit runs =
    take limit (sort_asc (λ r. r.created_at) (keep (is_orphan now threshold) runs))

unfoldable pub reconcile_orphaned_scheduled_runs :
    (latest_job : ScheduledRun → Option ℕ)
    → (now threshold limit : ℕ) → Jobs
    → List ScheduledRun
    → Reconciled
unfolding orphaned_runs reconcile_listed
reconcile_orphaned_scheduled_runs latest_job now threshold limit jobs runs =
    reconcile_listed latest_job jobs (orphaned_runs now threshold limit runs)
      (record { reconciled = 0; failed_count = 0; completed_count = 0; runs = runs })
