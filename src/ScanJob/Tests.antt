-- ===== src/ScanJob/Tests.antt =====
-- Two jobs of one tenant: one queued, one running since time 100.
use sentinel_wp.Base.{ℕ, ◌≡◌, refl, false, none, some, List, [], ◌∷◌, In, ◌-◌, ◌↔◌}
use sentinel_wp.Base.Int.{pos, negsuc}
use sentinel_wp.Base.Table.{get_row}
use sentinel_wp.ScanJob.{queued, running, completed, failed, ScanJob, Jobs, job_key}
use sentinel_wp.ScanJob.Queue.{
  mark_status, update_progress, try_claim_for_execution, try_reclaim_stale_for_retry, requeue,
  claim,
}
use sentinel_wp.ScanJob.Queries.{find_stale_jobs, list_jobs}
use sentinel_wp.ScanJob.Terminal.{Op, run, Finished, run-Finished}
use sentinel_wp.ScanJob.Claims.{winners, one_winner}
use sentinel_wp.ScanJob.Stale.{IsSilent, reclaim_iff_IsSilent}

abbrev waiting : ScanJob
waiting = record {
  id = 1;
  tenant_id = 5;
  asset_id = some 8;
  scan_id = 11;
  task_id = none;
  status = queued;
  requested_by = 3;
  profile = 2;
  queued_at = 90;
  started_at = none;
  completed_at = none;
  failed_at = none;
  cancelled_at = none;
  progress_percent = pos 0;
  current_step = "Initialized";
  attempt = 1;
  max_attempts = 3;
  error_code = none;
  error_message = none;
  worker_id = none;
  heartbeat_at = none;
  created_at = 90;
  updated_at = none;
}

abbrev busy : ScanJob
busy = record waiting {
  id = 2;
  scan_id = 12;
  status = running;
  started_at = some 100;
  worker_id = some 77;
}

abbrev done : ScanJob
done = record waiting { id = 3; scan_id = 13; status = completed; completed_at = some 120 }

abbrev jobs : Jobs
jobs = waiting ∷ busy ∷ done ∷ []

abbrev tries : List (ℕ × ℕ)
tries = (200, 41) ∷ (201, 42) ∷ (202, 43) ∷ []

claimed_once : winners 1 tries jobs ≡ 41 ∷ []
unfolding winners try_claim_for_execution
claimed_once = refl

progress_clamped :
    get_row job_key 2 (update_progress 130 2 (negsuc 4) "Headers" none jobs).0
    ≡ some
        (record busy { current_step = "Headers"; heartbeat_at = some 130; updated_at = some 130 })
unfolding update_progress
progress_clamped = refl

newest_first : list_jobs (some 5) (some running) 10 0 jobs ≡ busy ∷ []
unfolding list_jobs
newest_first = refl

-- `mark_status` on a finished job changes nothing; a late redelivery does not either.
late_mark : mark_status 300 3 failed (some "E") none none jobs ≡ (jobs, false)
unfolding mark_status
late_mark = refl

abbrev later : List Op
later =
    Op.mark 300 3 running none none none
    ∷ Op.create 310 (record done { status = queued })
    ∷ Op.update 320 (record done { status = failed })
    ∷ Op.claim_job 330 3 41
    ∷ Op.reclaim 340 3 10
    ∷ []

run-Finished_example : Finished 3 (run later jobs)
run-Finished_example = run-Finished later 3 jobs (done, refl, refl)

one_winner_example : winners 1 ((200, 41) ∷ (201, 42) ∷ []) jobs ≡ 41 ∷ []
one_winner_example = one_winner 1 200 41 ((201, 42) ∷ []) jobs waiting refl refl

reclaim_iff_IsSilent_example :
    let (t', r) = try_reclaim_stale_for_retry 200 2 50 jobs in
    (In busy (find_stale_jobs 200 50 jobs) ↔ IsSilent (200 - 50) busy)
    × (IsSilent (200 - 50) busy
        → (r ≡ some (requeue 200 busy))
          × ((later w : ℕ)
              → (try_claim_for_execution later 2 w t').1 ≡ some (claim later w (requeue 200 busy))))
    × (¬ IsSilent (200 - 50) busy → (r ≡ none) × (t' ≡ jobs))
reclaim_iff_IsSilent_example = reclaim_iff_IsSilent 200 2 50 jobs busy refl
