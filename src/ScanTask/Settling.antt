-- ===== src/ScanTask/Settling.antt =====
-- How a claimed job ends: the second part of run_scan_task of core/tasks/scan_tasks.py.
use Prim.Native.String.{String}
use sentinel_wp.Base.{
  ℕ, ◌≡◌, ◌∙◌, Option, none, some, arith, if◌then◌else◌, inl, inr, Option-cases, Bool-cases,
}
use sentinel_wp.Base.Int.{ℤ, pos}
use sentinel_wp.Base.Text.{codes}
use sentinel_wp.Base.Table.{get_row}
use sentinel_wp.Findings.{Scan, Store}
use sentinel_wp.ScanJob.{
  ScanJob, ScanJobStatus, Jobs, job_key, is_terminal, failed, completed, cancelled, timed_out,
  retrying,
}
use sentinel_wp.ScanJob.Queue.{mark_status, update_progress, set_worker, mark_fields, assign}
use sentinel_wp.ScanJob.Claims.{get_row-modified}
use sentinel_wp.ScanTask.Execution.{
  Db, Delivery, Ending, finished, interrupted, soft_time_limit, transient, broken, mark, fail,
  execution_failed, processed, complete, settle, save_scan,
}

-- The status that a delivery records for its job.
abbrev pub outcome_of : Ending → Option Store → ScanJobStatus
outcome_of (finished rfs) (some s) = completed
outcome_of (finished rfs) none = failed
outcome_of interrupted o = cancelled
outcome_of soft_time_limit o = timed_out
outcome_of (transient message) o = retrying
outcome_of (broken blocked message) o = failed

-- The row under `k` has the status.
abbrev pub HasStatus : ℕ → ScanJobStatus → Jobs → Type 0
HasStatus k s jobs = (m : ScanJob) × (get_row job_key k jobs ≡ some m) × (m.status ≡ s)

-- A status that is terminal stays, any other gives way.
abbrev pub settled_as : ScanJobStatus → ScanJobStatus → ScanJobStatus
settled_as old new = if is_terminal old then old else new

marked-id :
    (s : ScanJobStatus) (now : ℕ) (code message : Option String) (w : Option ℕ) (m : ScanJob)
    → ((set_worker w
          (mark_fields s now code message (record m { status = s; updated_at = some now }))).id
        ≡ m.id)
      × ((set_worker w (
            mark_fields s now code message (record m { status = s; updated_at = some now }))).status
          ≡ s)
marked-id s now code message w m = ground arith

HasStatus-mark :
    (d : Delivery) (s old : ScanJobStatus) (code message : Option String) (w : Option ℕ)
    (jobs : Jobs)
    → HasStatus d.scan_job_id old jobs
    → HasStatus d.scan_job_id (settled_as old s) (mark d s code message w jobs)
unfolding mark mark_status
HasStatus-mark d s old code message w jobs (m, e, h) = elim (Bool-cases (is_terminal m.status)) [
  | inl t ↦ rw (e, t, mark, mark_status) (m, e, ground arith)
  | inr t ↦
      rw (e, t, mark, mark_status)
        (
          set_worker w
              (mark_fields s d.now code message (record m { status = s; updated_at = some d.now })),
          get_row-modified d.scan_job_id _ jobs m (λ j. (marked-id s d.now code message w j).0) e,
          (marked-id s d.now code message w m).1 ∙ ground arith,
        )
]

progress-id :
    (d : Delivery) (p : ℤ) (step : String) (m : ScanJob)
    → let f = set_worker (some d.worker_id) (record m {
      progress_percent = p;
      current_step = step;
      heartbeat_at = some d.now;
      updated_at = some d.now;
    }) in
      (f.id ≡ m.id) × (f.status ≡ m.status)
progress-id d p step m = ground arith

assign-row :
    (k : ℕ) (f : ScanJob → ScanJob) (jobs : Jobs) (s : ScanJobStatus)
    → ((m : ScanJob) → (f m).id ≡ m.id)
    → ((m : ScanJob) → (f m).status ≡ m.status)
    → HasStatus k s jobs
    → HasStatus k s (assign k f jobs).0
assign-row k f jobs s i h (m, e, q) = rw e (f m, get_row-modified k f jobs m i e, h m ∙ q)

HasStatus-update_progress :
    (d : Delivery) (p : ℤ) (step : String) (s : ScanJobStatus) (jobs : Jobs)
    → HasStatus d.scan_job_id s jobs
    → HasStatus d.scan_job_id s
        (update_progress d.now d.scan_job_id p step (some d.worker_id) jobs).0
unfolding update_progress
HasStatus-update_progress d p step s jobs h =
    assign-row d.scan_job_id _ jobs s (λ m. (progress-id d _ step m).0)
      (λ m. (progress-id d _ step m).1) h

-- The findings are stored, or the database failed.
abbrev pub findings_of : Delivery → ScanJob → Scan → Store → Ending → Option Store
findings_of d job scan s (finished rfs) = processed d job scan rfs s
findings_of d job scan s _ = none

-- However the scan ends, its job is settled: the job that still was open becomes COMPLETED after a
-- finished scan whose findings could be stored, CANCELLED after an interruption, TIMED_OUT after the
-- soft time limit, RETRYING after a transient error, and FAILED after any other; a job that someone
-- else ended in the meantime keeps its status.
pub settle-HasStatus :
    (d : Delivery) (job : ScanJob) (scan : Scan) (db : Db) (e : Ending) (old : ScanJobStatus)
    → HasStatus d.scan_job_id old db.jobs
    → HasStatus d.scan_job_id
        (settled_as old
          (outcome_of e (findings_of d job scan (save_scan (codes "completed") scan db.store) e)))
        ((settle d job scan db e).1).jobs
unfolding settle execution_failed fail
settle-HasStatus d job scan db (finished rfs) old h =
    elim (Option-cases (processed d job scan rfs (save_scan (codes "completed") scan db.store))) [
      | inl n ↦ rw (n, complete) (HasStatus-mark d failed old _ _ none db.jobs h)
      | inr (s, n) ↦
          rw (n, complete)
            (HasStatus-update_progress d (pos 100) "Completed" (settled_as old completed) _
              (HasStatus-mark d completed old none none none db.jobs h))
    ]
settle-HasStatus d job scan db interrupted old h =
    HasStatus-mark d cancelled old none none none db.jobs h
settle-HasStatus d job scan db soft_time_limit old h =
    HasStatus-mark d timed_out old _ _ none db.jobs h
settle-HasStatus d job scan db (transient message) old h =
    HasStatus-mark d retrying old (some "TRANSIENT_NETWORK_ERROR") (some message) none db.jobs h
settle-HasStatus d job scan db (broken blocked message) old h =
    HasStatus-mark d failed old _ _ none db.jobs h
