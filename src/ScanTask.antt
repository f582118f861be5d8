-- ===== src/ScanTask.antt =====
-- The worker's task: run_scan_task of core/tasks/scan_tasks.py, over the table of scan jobs, the
-- scans and the findings. Here is its first part, up to the claim; Execution has the rest. The
-- inventory of assets, audit events and log lines are left out.
pub mod Execution
pub mod Concurrency
pub mod Starvation
pub mod Settling
pub mod Clean
pub mod Recovery
pub mod Kept
pub mod Attempts
mod Tests
use sentinel_wp.Base.{
  ℕ, ◌+◌, Bool, true, false, Option, none, some, List, [], ◌∷◌, leb, if◌then◌else◌,
}
use sentinel_wp.Base.Table.{get_row}
use sentinel_wp.ScanJob.{ScanJob, Jobs, job_key, same, is_terminal, is_set, running}
use sentinel_wp.ScanJob.Queue.{try_claim_for_execution}
use sentinel_wp.ScanJob.Queries.{
  count_active_jobs_for_asset, count_active_jobs_for_tenant, count_active_jobs_global,
}

-- MAX_CONCURRENT_SCANS_PER_ASSET, _PER_TENANT and _GLOBAL of config.py.
pub record Limits : Type 0 where
  pub per_asset : ℕ
  pub per_tenant : ℕ
  pub global : ℕ

-- How the first part ends: the task returns False, asks for another delivery after some seconds, or
-- goes on with the row that it claimed.
pub data Admission : Type 0 where
  skipped : Admission
  postponed : (countdown : ℕ) → Admission
  claimed : ScanJob → Admission

-- `count >= MAX + 1`
abbrev pub exceeds : ℕ → ℕ → Bool
exceeds count max = leb (max + 1) count

abbrev pub asset_busy : Limits → Option ℕ → Jobs → Bool
asset_busy l none jobs = false
asset_busy l (some a) jobs =
    if is_set (some a) then exceeds (count_active_jobs_for_asset a jobs) l.per_asset else false

-- A claim that failed, from the row as it is now.
abbrev pub after_lost_claim : Option ScanJob → Admission
after_lost_claim none = postponed 15
after_lost_claim (some fresh) =
    if same fresh.status running
    then skipped
    else if is_terminal fresh.status
    then skipped
    else postponed 15

abbrev pub after_claim : ℕ → Jobs × Option ScanJob → Jobs × Admission
after_claim job_id (jobs, some job) = (jobs, claimed job)
after_claim job_id (jobs, none) = (jobs, after_lost_claim (get_row job_key job_id jobs))

abbrev pub admit_job :
    Limits → (now job_id worker_id : ℕ) → Jobs → Option ScanJob → Jobs × Admission
admit_job l now job_id worker_id jobs none = (jobs, skipped)
admit_job l now job_id worker_id jobs (some job) =
    if is_terminal job.status
    then (jobs, skipped)
    else if asset_busy l job.asset_id jobs
    then (jobs, postponed 30)
    else if exceeds (count_active_jobs_for_tenant job.tenant_id jobs) l.per_tenant
    then (jobs, postponed 45)
    else if exceeds (count_active_jobs_global jobs) l.global
    then (jobs, postponed 20)
    else after_claim job_id (try_claim_for_execution now job_id worker_id jobs)

-- From the delivery to the claim.
unfoldable pub admit : Limits → (now job_id worker_id : ℕ) → Jobs → Jobs × Admission
admit l now job_id worker_id jobs =
    admit_job l now job_id worker_id jobs (get_row job_key job_id jobs)
