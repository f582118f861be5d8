-- ===== src/ScanJob/Queue.antt =====
-- The methods of ScanJobRepository that write: core/db/repositories/scan_job_repo.py.
use Prim.Native.String.{String}
use sentinel_wp.Base.{
  ℕ, ◌+◌, ◌-◌, min, Bool, true, false, not, ◌&&◌, ◌||◌, Option, none, some, [], ◌∷◌, ◌++◌, ltb,
  if◌then◌else◌, is_some,
}
use sentinel_wp.Base.Int.{ℤ, pos, negsuc}
use sentinel_wp.Base.Table.{get_row, modify_row}
use sentinel_wp.ScanJob.{
  ScanJobStatus, running, completed, failed, timed_out, cancelled, retrying, ScanJob, Jobs, job_key,
  same, is_terminal, is_claimable, is_set,
}

-- The columns that `update_job` writes.
abbrev pub overwrite : (now : ℕ) → ScanJob → ScanJob → ScanJob
overwrite now job model = record model {
  status = job.status;
  task_id = job.task_id;
  requested_by = job.requested_by;
  profile = job.profile;
  started_at = job.started_at;
  completed_at = job.completed_at;
  failed_at = job.failed_at;
  cancelled_at = job.cancelled_at;
  progress_percent = job.progress_percent;
  current_step = job.current_step;
  attempt = job.attempt;
  max_attempts = job.max_attempts;
  error_code = job.error_code;
  error_message = job.error_message;
  worker_id = job.worker_id;
  heartbeat_at = job.heartbeat_at;
  updated_at = some now;
}

unfoldable pub update_job : (now : ℕ) → ScanJob → Jobs → Jobs × ScanJob
update_job now job jobs = elim (get_row job_key job.id jobs) [
  | none ↦ (jobs, job)
  | some model ↦
      if is_terminal model.status && not (is_terminal job.status)
      then (jobs, model)
      else (modify_row job_key job.id (overwrite now job) jobs, job)
]

unfoldable pub create_job : (now : ℕ) → ScanJob → Jobs → Jobs × ScanJob
create_job now job jobs = elim (get_row job_key job.id jobs) [
  | none ↦ (jobs ++ job ∷ [], job)
  | some existing ↦
      if is_terminal existing.status then (jobs, existing) else update_job now job jobs
]

-- `max(0, min(100, n))`
abbrev pub clamp_percent : ℤ → ℤ
clamp_percent (pos n) = pos (min 100 n)
clamp_percent (negsuc n) = pos 0

-- `if worker_id: model.worker_id = worker_id`
abbrev pub set_worker : Option ℕ → ScanJob → ScanJob
set_worker worker m = if is_set worker then record m { worker_id = worker } else m

-- An assignment to the row under `k`, and whether there is one.
abbrev pub assign : ℕ → (ScanJob → ScanJob) → Jobs → Jobs × Bool
assign k f jobs =
    if is_some (get_row job_key k jobs) then (modify_row job_key k f jobs, true) else (jobs, false)

unfoldable pub update_progress :
    (now job_id : ℕ) (progress_percent : ℤ) (current_step : String) (worker_id : Option ℕ)
    → Jobs
    → Jobs × Bool
update_progress now job_id progress_percent current_step worker_id = assign job_id λ m.
    set_worker worker_id (record m {
      progress_percent = clamp_percent progress_percent;
      current_step = current_step;
      heartbeat_at = some now;
      updated_at = some now;
    })

abbrev pub heartbeat_row : (now : ℕ) → Option ℕ → ScanJob → ScanJob
heartbeat_row now worker_id m =
    set_worker worker_id (record m { heartbeat_at = some now; updated_at = some now })

unfoldable pub record_heartbeat : (now job_id : ℕ) → Option ℕ → Jobs → Jobs × Bool
record_heartbeat now job_id worker_id = assign job_id (heartbeat_row now worker_id)

-- The branches of `mark_status` on the new status; a status that no branch names sets no more.
abbrev pub mark_fields :
    ScanJobStatus → (now : ℕ) (error_code error_message : Option String) → ScanJob → ScanJob
mark_fields running now code message m =
    if is_set m.started_at then m else record m { started_at = some now; heartbeat_at = some now }
mark_fields completed now code message m = record m {
  completed_at = some now;
  progress_percent = pos 100;
  current_step = "Completed";
}
mark_fields failed now code message m = record m {
  failed_at = some now;
  error_code = code;
  error_message = message;
}
mark_fields timed_out now code message m = record m {
  failed_at = some now;
  error_code = code;
  error_message = message;
}
mark_fields cancelled now code message m = record m { cancelled_at = some now }
mark_fields _ now code message m = m

unfoldable pub mark_status :
    (now job_id : ℕ) (status : ScanJobStatus) (error_code error_message : Option String)
    (worker_id : Option ℕ)
    → Jobs
    → Jobs × Bool
mark_status now job_id status code message worker_id jobs = elim (get_row job_key job_id jobs) [
  | none ↦ (jobs, false)
  | some model ↦ if is_terminal model.status then (jobs, same model.status status) else (
    modify_row job_key job_id
        (λ m. set_worker worker_id (
          mark_fields status now code message
            (record m { status = status; updated_at = some now })))
        jobs,
    true,
  )
]

-- UPDATE ... WHERE id = k AND guard RETURNING: the row as it is afterwards.
abbrev pub update_returning :
    ℕ → (ScanJob → Bool) → (ScanJob → ScanJob) → Jobs → Jobs × Option ScanJob
update_returning k guard f jobs = elim (get_row job_key k jobs) [
  | none ↦ (jobs, none)
  | some m ↦ if guard m then (modify_row job_key k f jobs, some (f m)) else (jobs, none)
]

abbrev pub claim : (now worker_id : ℕ) → ScanJob → ScanJob
claim now worker_id m = record m {
  status = running;
  worker_id = some worker_id;
  started_at = if is_set m.started_at then m.started_at else some now;
  heartbeat_at = some now;
  updated_at = some now;
}

unfoldable pub try_claim_for_execution : (now job_id worker_id : ℕ) → Jobs → Jobs × Option ScanJob
try_claim_for_execution now job_id worker_id =
    update_returning job_id (λ m. is_claimable m.status) (claim now worker_id)

abbrev pub before : ℕ → Option ℕ → Bool
before cutoff none = false
before cutoff (some t) = ltb t cutoff

-- The guard of the UPDATE: the worker of a running job was last heard of before the cutoff, by its
-- heartbeat, or where there was none by its start.
abbrev pub is_stale : (cutoff : ℕ) → ScanJob → Bool
is_stale cutoff m =
    same m.status running
    && ((is_some m.heartbeat_at && before cutoff m.heartbeat_at)
        || (not (is_some m.heartbeat_at) && (is_some m.started_at && before cutoff m.started_at)))

abbrev pub requeue : (now : ℕ) → ScanJob → ScanJob
requeue now m = record m {
  status = retrying;
  attempt = m.attempt + 1;
  error_code = some "STALE_HEARTBEAT_RETRY";
  error_message = some "Worker heartbeat timed out; job requeued for retry";
  updated_at = some now;
}

unfoldable pub try_reclaim_stale_for_retry :
    (now job_id stale_threshold : ℕ) → Jobs → Jobs × Option ScanJob
try_reclaim_stale_for_retry now job_id stale_threshold =
    update_returning job_id (is_stale (now - stale_threshold)) (requeue now)
