-- ===== src/Schedule.antt =====
-- Scheduled scans: core/db/repositories/scheduler_repo.py and dispatch_scheduled_scans_task of
-- core/tasks/maintenance_tasks.py. Ids, addresses and modes are numbers, 0 for an absent one, 1 for
-- "default-tenant", 2 for "scheduler" and 3 for "passive"; `planned_at` is the instant of its text. Audit events are left out.
pub mod Dispatch
pub mod Reconciliation
pub mod Clogged
pub mod Once
pub mod Stuck
pub mod Crash
pub mod Purge
pub mod Batches
mod Tests
use sentinel_wp.Base.{
  ℕ, ◌+◌, ◌*◌, Bool, true, false, not, ◌&&◌, ◌||◌, Option, none, some, List, [], ◌∷◌, ◌++◌, ◌==◌,
  leb, ltb, if◌then◌else◌, any_of, take, is_some,
}
use sentinel_wp.Base.Int.{pos}
use sentinel_wp.Base.Table.{get_row, put_row}
use sentinel_wp.Base.Text.{Text, codes, text_eq}
use sentinel_wp.Sla.{Stamp, at, malformed}
use sentinel_wp.Findings.{or_number, default_tenant}
use sentinel_wp.ScanJob.{ScanJob, Jobs, queued}
use sentinel_wp.ScanJob.Queue.{create_job}

pub record ScheduledScan : Type 0 where
  pub id : ℕ
  pub tenant_id : ℕ
  pub target_url : ℕ
  pub scan_mode : ℕ
  pub interval_hours : ℕ
  pub last_run_at : Option ℕ
  pub next_run_at : Option Stamp
  pub enabled : Bool
  pub created_by : ℕ
  pub consecutive_failures : ℕ
  pub last_success_at : Option ℕ
  pub paused_until : Option Stamp
  pub created_at : ℕ

pub record ScheduledRun : Type 0 where
  pub id : ℕ
  pub schedule_id : ℕ
  pub tenant_id : ℕ
  pub planned_at : ℕ
  pub started_at : Option ℕ
  pub completed_at : Option ℕ
  pub scan_job_id : ℕ
  pub status : Text
  pub created_at : ℕ

pub record Db : Type 0 where
  pub schedules : List ScheduledScan
  pub runs : List ScheduledRun
  pub jobs : Jobs

abbrev pub hour : ℕ
hour = 3600000000

abbrev pub schedule : ℕ → List ScheduledScan → Option ScheduledScan
schedule = get_row (λ (s : ScheduledScan). s.id)

abbrev pub saved_over : ScheduledScan → Option ScheduledScan → ScheduledScan
saved_over s none = record s { tenant_id = or_number s.tenant_id default_tenant }
saved_over s (some model) = record s {
  tenant_id = or_number s.tenant_id model.tenant_id;
  created_at = model.created_at;
}

-- `save`: the columns of the row, or a new row.
unfoldable pub save : ScheduledScan → List ScheduledScan → List ScheduledScan
save s rows = put_row (λ (x : ScheduledScan). x.id) (saved_over s (schedule s.id rows)) rows

-- The unique constraint on (schedule_id, planned_at).
abbrev pub has_run : (schedule_id planned_at : ℕ) → List ScheduledRun → Bool
has_run schedule_id planned_at =
    any_of (λ (r : ScheduledRun). r.schedule_id == schedule_id && r.planned_at == planned_at)

abbrev pub claimed_run : (run_id schedule_id tenant_id planned_at now : ℕ) → ScheduledRun
claimed_run run_id schedule_id tenant_id planned_at now = record {
  id = run_id;
  schedule_id = schedule_id;
  tenant_id = tenant_id;
  planned_at = planned_at;
  started_at = none;
  completed_at = none;
  scan_job_id = 0;
  status = codes "dispatched";
  created_at = now;
}

unfoldable pub claim_scheduled_run :
    (run_id schedule_id tenant_id planned_at now : ℕ)
    → List ScheduledRun
    → Option ScheduledRun × List ScheduledRun
claim_scheduled_run run_id schedule_id tenant_id planned_at now runs =
    if has_run schedule_id planned_at runs
    then (none, runs)
    else let run = claimed_run run_id schedule_id tenant_id planned_at now in (some run, run ∷ runs)

-- The columns that the new status sets.
abbrev pub stamped : (now : ℕ) → Text → ScheduledRun → ScheduledRun
stamped now status r =
    if text_eq status (codes "running") && unset r.started_at
    then record r { started_at = some now }
    else if text_eq status (codes "completed") || text_eq status (codes "failed")
    then record r { completed_at = some now }
    else r
  where
    unset : Option ℕ → Bool
    unset none = true
    unset (some t) = false

unfoldable pub update_run_status :
    (now run_id : ℕ) → Text → (scan_job_id : ℕ) → List ScheduledRun → List ScheduledRun
update_run_status now run_id status job_id [] = []
update_run_status now run_id status job_id (r ∷ rs) =
    if r.id == run_id
    then stamped now status
        (record r { status = status; scan_job_id = or_number job_id r.scan_job_id })
      ∷ rs
    else r ∷ update_run_status now run_id status job_id rs

-- What one round draws: the ids of the run, the scan, the job and the asset (`ensure_asset`).
pub record Draw : Type 0 where
  pub now : ℕ
  pub run_id : ℕ
  pub scan_id : ℕ
  pub job_id : ℕ
  pub asset_id : ℕ

abbrev pub new_job : Draw → ScheduledScan → ScanJob
new_job d s = record {
  id = d.job_id;
  tenant_id = or_number s.tenant_id default_tenant;
  asset_id = some d.asset_id;
  scan_id = d.scan_id;
  task_id = none;
  status = queued;
  requested_by = or_number s.created_by 2;
  profile = or_number s.scan_mode 3;
  queued_at = d.now;
  started_at = none;
  completed_at = none;
  failed_at = none;
  cancelled_at = none;
  progress_percent = pos 0;
  current_step = "Initialized";
  attempt = 1;
  max_attempts = 3;
  error_code = none;
  error_message = none;
  worker_id = none;
  heartbeat_at = none;
  created_at = d.now;
  updated_at = none;
}
