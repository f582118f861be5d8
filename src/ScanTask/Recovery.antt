-- ===== src/ScanTask/Recovery.antt =====
-- Jobs of silent workers: recover_stale_jobs_task of core/tasks/maintenance_tasks.py over
-- core/db/repositories/scan_job_repo.py. The scans that it marks FAILED, the delivery of requeued
-- jobs and the audit events are left out; the reconciliation of scheduled runs is another part.
use sentinel_wp.Base.{ℕ, ◌+◌, Option, none, some, List, [], ◌∷◌, ltb, if◌then◌else◌}
use sentinel_wp.ScanJob.{ScanJob, Jobs, failed}
use sentinel_wp.ScanJob.Queue.{try_reclaim_stale_for_retry, mark_status}
use sentinel_wp.ScanJob.Queries.{find_stale_jobs}

-- The counts that the task returns.
pub record Recovered : Type 0 where
  pub recovered : ℕ
  pub exhausted : ℕ
  pub jobs : Jobs

abbrev reclaimed : Recovered → Jobs × Option ScanJob → Recovered
reclaimed r (jobs, none) = record r { jobs = jobs }
reclaimed r (jobs, some job) = record r { recovered = r.recovered + 1; jobs = jobs }

-- The body of the loop over the stale jobs, as they were listed.
unfoldable pub recover_job : (now threshold : ℕ) → ScanJob → Recovered → Recovered
unfolding try_reclaim_stale_for_retry mark_status
recover_job now threshold job r =
    if ltb job.attempt job.max_attempts
    then reclaimed r (try_reclaim_stale_for_retry now job.id threshold r.jobs)
    else record r {
      exhausted = r.exhausted + 1;
      jobs =
          (mark_status now job.id failed (some "STALE_WORKER_HEARTBEAT_EXHAUSTED")
            (some "Worker terminated unexpectedly and max retry attempts exhausted") none r.jobs).0;
    }

unfoldable pub recover_listed : (now threshold : ℕ) → List ScanJob → Recovered → Recovered
unfolding recover_job
recover_listed now threshold [] r = r
recover_listed now threshold (job ∷ js) r =
    recover_listed now threshold js (recover_job now threshold job r)

unfoldable pub recover_stale_jobs_task : (now threshold : ℕ) → Jobs → Recovered
unfolding recover_listed find_stale_jobs
recover_stale_jobs_task now threshold jobs =
    recover_listed now threshold (find_stale_jobs now threshold jobs)
      (record { recovered = 0; exhausted = 0; jobs = jobs })
