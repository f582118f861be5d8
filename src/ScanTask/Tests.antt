-- ===== src/ScanTask/Tests.antt =====
-- Two queued jobs of one asset, a scan whose finding waits for verification, and deliveries.
use sentinel_wp.Base.{
  inl, ℕ, ◌+◌, ◌-◌, ◌≤◌, ◌≡◌, ◌≢◌, refl, true, false, none, some, List, [], ◌∷◌, arith,
}
use sentinel_wp.Base.Int.{pos}
use sentinel_wp.Base.Text.{codes, lower_char}
use sentinel_wp.Lifecycle.{value, verified, verification_pending}
use sentinel_wp.Sla.{medium, on_track}
use sentinel_wp.Findings.{Finding, Scan, Store, done, row}
use sentinel_wp.Findings.Scans.{Context}
use sentinel_wp.Findings.Reconciliation.{process_scan_findings, is_scan_completed}
use sentinel_wp.Findings.Unique.{IsSound}
use sentinel_wp.ScanJob.{ScanJob, Jobs, queued, running, timed_out}
use sentinel_wp.ScanJob.Queue.{try_claim_for_execution, claim, try_reclaim_stale_for_retry}
use sentinel_wp.ScanJob.Queries.{
  count_active_jobs_for_asset, count_active_jobs_for_tenant, count_active_jobs_global,
}
use sentinel_wp.ScanTask.{Limits, claimed, admit}
use sentinel_wp.ScanTask.Concurrency.{claimed_within_limits}
use sentinel_wp.ScanTask.Execution.{
  Db, Delivery, Ending, finished, soft_time_limit, settle, run_scan_task,
}
use sentinel_wp.ScanTask.Starvation.{IsCrowded, deliver, blocked_for_ever}
use sentinel_wp.ScanTask.Settling.{HasStatus, settle-HasStatus}
use sentinel_wp.ScanTask.Clean.{clean_scan_verifies_nothing}
use sentinel_wp.ScanTask.Recovery.{recover_job}
use sentinel_wp.ScanTask.Kept.{HasAttempts}
use sentinel_wp.ScanTask.Attempts.{History, start, recovery, bounded_recoveries}

abbrev first : ScanJob
first = record {
  id = 1;
  tenant_id = 5;
  asset_id = some 8;
  scan_id = 71;
  task_id = none;
  status = queued;
  requested_by = 3;
  profile = 2;
  queued_at = 90;
  started_at = none;
  completed_at = none;
  failed_at = none;
  cancelled_at = none;
  progress_percent = pos 0;
  current_step = "Initialized";
  attempt = 1;
  max_attempts = 3;
  error_code = none;
  error_message = none;
  worker_id = none;
  heartbeat_at = none;
  created_at = 90;
  updated_at = none;
}

abbrev second : ScanJob
second = record first { id = 2; scan_id = 72 }

abbrev limits : Limits
limits = record { per_asset = 1; per_tenant = 5; global = 25 }

abbrev running_first : Jobs
running_first = claim 100 7 first ∷ []

admitted : admit limits 100 1 7 (first ∷ []) ≡ (running_first, claimed (claim 100 7 first))
unfolding admit try_claim_for_execution count_active_jobs_for_asset count_active_jobs_for_tenant
    count_active_jobs_global
admitted = refl

claimed_within_limits_example :
    (count_active_jobs_for_tenant 5 running_first ≤ 5)
    × (count_active_jobs_global running_first ≤ 25)
    × ((a : ℕ) → some 8 ≡ some a → a ≢ 0 → count_active_jobs_for_asset a running_first ≤ 1)
claimed_within_limits_example =
    claimed_within_limits limits 100 1 7 (first ∷ []) running_first (claim 100 7 first) admitted

abbrev pending : Finding
pending = record {
  id = 1;
  tenant_id = 5;
  asset_id = 8;
  scan_id = 70;
  category = codes "headers";
  title = codes "x";
  reference = [];
  cve_id = [];
  severity = medium;
  fingerprint = 21;
  status = value verification_pending;
  first_seen_at = 10;
  last_seen_at = 10;
  first_scan_id = 70;
  last_scan_id = 70;
  observation_count = 1;
  version = 3;
  priority_score = 50;
  priority_band = codes "P3";
  kev = false;
  sla_policy_id = none;
  sla_due_at = none;
  sla_status = on_track;
  sla_paused_at = none;
  sla_pause_reason = [];
  verified_at = none;
  verified_by_scan_id = 0;
  updated_at = none;
  content = 0;
}

abbrev scan : Scan
scan = record { id = 71; tenant_id = 5; status = codes "completed"; scan_mode = codes "passive" }

abbrev store : Store
store = record { findings = pending ∷ []; observations = []; history = []; scans = scan ∷ [] }

abbrev context : Context
context = record {
  now = 100;
  scan_id = 71;
  tenant_id = 5;
  asset_id = 8;
  asset = none;
  policies = [];
  name = λ n. n ∷ [];
  url_path = λ t. t;
  sha256 = λ t. 20;
  calculate_priority_score = λ f c i. (50, codes "P3");
}

abbrev delivery : ℕ → Ending → Delivery
delivery k ending = record {
  now = 100;
  scan_job_id = k;
  worker_id = 7;
  retries = 0;
  limits = limits;
  tenant_status = λ t. some (codes "active");
  verify = λ s. true;
  ending = ending;
  meanwhile = λ jobs. jobs;
  context = context;
  error_text = "";
}

abbrev both_queued : Db
both_queued = record { jobs = first ∷ second ∷ []; store = store }

abbrev deliveries : List Delivery
deliveries = delivery 1 (finished []) ∷ delivery 2 (finished []) ∷ delivery 1 (finished []) ∷ []

two_wait : IsCrowded both_queued (delivery 1 (finished []))
two_wait = (first, refl, inl (cc, omega arith))

second_waits : IsCrowded both_queued (delivery 2 (finished []))
second_waits = (second, refl, inl (cc, omega arith))

blocked_for_ever_example : deliver deliveries both_queued ≡ both_queued
blocked_for_ever_example =
    blocked_for_ever deliveries both_queued (two_wait, (second_waits, (two_wait, tt)))

abbrev in_progress : Db
in_progress = record { jobs = running_first; store = store }

settle-HasStatus_example :
    HasStatus 1 timed_out
      ((settle (delivery 1 soft_time_limit) first scan in_progress soft_time_limit).1).jobs
settle-HasStatus_example =
    settle-HasStatus (delivery 1 soft_time_limit) first scan in_progress soft_time_limit running
      (claim 100 7 first, refl, refl)

store_IsSound : IsSound store.findings
store_IsSound = record {
  keyed = ground arith;
  unique = λ i j f g p q t e. ground arith;
  tenanted = λ i f p. ground arith;
}

clean_scan_verifies_nothing_example :
    (((run_scan_task (delivery 1 (finished [])) in_progress).1).store.findings ≡ pending ∷ [])
    × ((r : List Finding × Store) × (g : Finding) × (process_scan_findings context [] store
          ≡ done r)
        × (row 1 (r.1).findings ≡ some g)
        × (g.status ≡ value verified))
unfolding is_scan_completed lower_char
clean_scan_verifies_nothing_example =
    clean_scan_verifies_nothing (delivery 1 (finished [])) in_progress context 1 pending refl
      (omega arith) store_IsSound refl refl refl refl refl

abbrev silent : Jobs
silent = record (claim 100 7 first) { heartbeat_at = some 100 } ∷ []

abbrev recovered_jobs : Jobs
recovered_jobs =
    (recover_job 900 600 (claim 100 7 first)
      (record { recovered = 0; exhausted = 0; jobs = silent })).jobs

recovered_once : History 1 silent recovered_jobs 1
unfolding recover_job try_reclaim_stale_for_retry
recovered_once = recovery silent silent 0 900 600 (claim 100 7 first) (start silent) refl

bounded_recoveries_example : (1 ≤ 3 - 1) × HasAttempts 1 (1 + 1) 3 recovered_jobs
bounded_recoveries_example =
    bounded_recoveries 1 1 3 1 silent recovered_jobs (claim 100 7 first, refl, refl, refl)
      recovered_once
