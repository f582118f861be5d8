-- ===== src/Schedule/Tests.antt =====
-- One schedule of every day, due at 50, and schedulers at 60 and later; old jobs; a clogged run.
use sentinel_wp.Base.{All, ℕ, ◌≤◌, ◌≡◌, refl, true, none, some, Option, List, [], ◌∷◌, arith}
use sentinel_wp.Base.Int.{pos}
use sentinel_wp.Base.Table.{get_row}
use sentinel_wp.Base.Text.{codes}
use sentinel_wp.Sla.{at}
use sentinel_wp.ScanJob.{ScanJob, Jobs, completed, cancelled}
use sentinel_wp.Schedule.{ScheduledScan, ScheduledRun, Db, Draw}
use sentinel_wp.Schedule.Dispatch.{dispatch_one}
use sentinel_wp.Schedule.Once.{Beat, pass, crash, beats, claims_of, at_most_once}
use sentinel_wp.Schedule.Stuck.{IsStuck, claims_for}
use sentinel_wp.Schedule.Crash.{passes, crashed_for_ever}
use sentinel_wp.Schedule.Purge.{purge_at_once, purge_batches, batch, delete_ids}
use sentinel_wp.Schedule.Batches.{purge_batches-eq-purge_at_once}
use sentinel_wp.Schedule.Reconciliation.{orphaned_runs, reconcile_orphaned_scheduled_runs}
use sentinel_wp.Schedule.Clogged.{run_key, IsUnsettled, newer_runs_wait}

abbrev daily : ScheduledScan
daily = record {
  id = 6;
  tenant_id = 4;
  target_url = 9;
  scan_mode = 3;
  interval_hours = 24;
  last_run_at = none;
  next_run_at = some (at 50);
  enabled = true;
  created_by = 0;
  consecutive_failures = 0;
  last_success_at = none;
  paused_until = none;
  created_at = 10;
}

abbrev tables : Db
tables = record { schedules = daily ∷ []; runs = []; jobs = [] }

abbrev draw_at : ℕ → Draw
draw_at now = record { now = now; run_id = 30; scan_id = 31; job_id = 32; asset_id = 33 }

abbrev every : ℕ → ScheduledScan → Draw
every now s = draw_at now

-- Two schedulers that both read the schedule when it was due.
abbrev both : List Beat
both = pass (every 60) (daily ∷ []) ∷ crash 1 (draw_at 61) daily ∷ []

at_most_once_example : claims_of 6 50 (beats both ([], tables)).0 ≤ 1
at_most_once_example = at_most_once both tables 6 50

crashed_for_ever_example :
    (((dispatch_one 0 (draw_at 60) daily ([], tables)).1).jobs ≡ [])
    × (claims_for 6
          (passes
            (every 70 ∷ every 90000000000 ∷ [])
            (dispatch_one 0 (draw_at 60) daily ([], tables))).0
        ≡ 1)
    × IsStuck 6 50
        (passes
          (every 70 ∷ every 90000000000 ∷ [])
          (dispatch_one 0 (draw_at 60) daily ([], tables))).1
crashed_for_ever_example =
    crashed_for_ever 50 (draw_at 60) daily (every 70 ∷ every 90000000000 ∷ []) tables (ground arith)
      refl refl refl refl (omega arith) refl

abbrev job : (id : ℕ) → (created_at : ℕ) → ScanJob
job id created_at = record {
  id = id;
  tenant_id = 4;
  asset_id = some 8;
  scan_id = 71;
  task_id = none;
  status = completed;
  requested_by = 3;
  profile = 2;
  queued_at = 90;
  started_at = none;
  completed_at = none;
  failed_at = none;
  cancelled_at = none;
  progress_percent = pos 0;
  current_step = "Initialized";
  attempt = 1;
  max_attempts = 3;
  error_code = none;
  error_message = none;
  worker_id = none;
  heartbeat_at = none;
  created_at = created_at;
  updated_at = none;
}

abbrev old_jobs : Jobs
old_jobs = job 1 10 ∷ job 2 90 ∷ job 3 20 ∷ job 4 30 ∷ []

two_rounds : purge_batches 4 2 50 (0, old_jobs) ≡ (3, job 2 90 ∷ [])
unfolding purge_batches batch delete_ids
two_rounds = refl

purge_batches-eq-purge_at_once_example :
    purge_batches 4 2 50 (0, old_jobs) ≡ purge_at_once 50 old_jobs
purge_batches-eq-purge_at_once_example =
    purge_batches-eq-purge_at_once 4 2 50 old_jobs (omega arith) (ground arith) (omega arith)

abbrev orphan : ScheduledRun
orphan = record {
  id = 30;
  schedule_id = 6;
  tenant_id = 4;
  planned_at = 50;
  started_at = none;
  completed_at = none;
  scan_job_id = 1;
  status = codes "dispatched";
  created_at = 60;
}

abbrev cancelled_jobs : Jobs
cancelled_jobs = record (job 1 60) { status = cancelled } ∷ []

abbrev no_job : ScheduledRun → Option ℕ
no_job r = none

abbrev newer : ScheduledRun
newer = record orphan { id = 40; schedule_id = 7; scan_job_id = 0; created_at = 70 }

newer_runs_wait_example :
    let after =
      reconcile_orphaned_scheduled_runs no_job 900 600 1 cancelled_jobs (orphan ∷ newer ∷ []) in
    (get_row run_key 40 after.runs ≡ some newer)
    × (All (IsUnsettled cancelled_jobs) (orphaned_runs 900 600 1 (orphan ∷ newer ∷ []))
        → after.runs ≡ orphan ∷ newer ∷ [])
newer_runs_wait_example =
    newer_runs_wait no_job 900 600 1 cancelled_jobs (orphan ∷ newer ∷ []) newer (ground arith) refl
      (omega arith)
