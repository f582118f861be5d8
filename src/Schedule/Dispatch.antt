-- ===== src/Schedule/Dispatch.antt =====
-- dispatch_scheduled_scans_task of core/tasks/maintenance_tasks.py: due schedules become jobs. A
-- round is its claim and a list of transactions, so that it can be cut short by a crash.
use sentinel_wp.Base.{
  ℕ, ◌+◌, ◌*◌, Bool, false, not, Option, none, some, List, [], ◌∷◌, leb, ltb, if◌then◌else◌, take,
  is_some,
}
use sentinel_wp.Base.Text.{codes}
use sentinel_wp.Sla.{Stamp, at}
use sentinel_wp.Findings.{or_number, default_tenant}
use sentinel_wp.ScanJob.Queue.{create_job}
use sentinel_wp.Schedule.{
  ScheduledScan, Db, Draw, hour, save, claim_scheduled_run, update_run_status, new_job,
}

-- The transactions after the claim, in their order; a crash may come between two of them. The row of
-- the scan, which nothing here reads, is left out.
abbrev pub advanced : (now : ℕ) → ScheduledScan → ScheduledScan
advanced now s = record s {
  last_run_at = some now;
  next_run_at = some (at (now + s.interval_hours * hour));
}

unfoldable pub advance : Draw → ScheduledScan → Db → Db
unfolding save
advance d s db = record db { schedules = save (advanced d.now s) db.schedules }

unfoldable pub submit : Draw → ScheduledScan → Db → Db
unfolding create_job
submit d s db = record db { jobs = (create_job d.now (new_job d s) db.jobs).0 }

unfoldable pub link : Draw → Db → Db
unfolding update_run_status
link d db = record db {
  runs = update_run_status d.now d.run_id (codes "dispatched") d.job_id db.runs;
}

unfoldable pub succeed : Draw → ScheduledScan → Db → Db
unfolding save
succeed d s db = record db {
  schedules =
      save (record (advanced d.now s) { consecutive_failures = 0; last_success_at = some d.now })
        db.schedules;
}

abbrev pub stages : Draw → ScheduledScan → List (Db → Db)
stages d s = advance d s ∷ submit d s ∷ link d ∷ succeed d s ∷ []

unfoldable pub perform : List (Db → Db) → Db → Db
perform [] db = db
perform (f ∷ fs) db = perform fs (f db)

-- The slots that were claimed, (schedule, planned time), and the tables.
abbrev pub Claims : Type 0
Claims = List (ℕ × ℕ)

-- A due schedule: the claim, and the first `n` transactions after it.
unfoldable pub dispatch_due :
    (n : ℕ) → Draw → ScheduledScan → (planned_at : ℕ) → Claims × Db → Claims × Db
unfolding claim_scheduled_run perform
dispatch_due n d s planned_at (log, db) =
    let tenant = or_number s.tenant_id default_tenant in
    let (run, runs) = claim_scheduled_run d.run_id s.id tenant planned_at d.now db.runs in
    elim run [
      | none ↦ (log, db)
      | some r ↦
          ((s.id, planned_at) ∷ log, perform (take n (stages d s)) (record db { runs = runs }))
    ]

-- `paused_until`: still paused, over, or unreadable.
abbrev pub still_paused : (now : ℕ) → Option Stamp → Bool
still_paused now (some (at t)) = ltb now t
still_paused now _ = false

abbrev pub pause_is_over : (now : ℕ) → Option Stamp → Bool
pause_is_over now (some (at t)) = leb t now
pause_is_over now _ = false

abbrev pub unpaused : ScheduledScan → ScheduledScan
unpaused s = record s { paused_until = none }

-- The slot of a schedule whose time has come.
abbrev pub due_slot : (now : ℕ) → Option Stamp → Option ℕ
due_slot now (some (at t)) = if leb t now then some t else none
due_slot now _ = none

unfoldable pub dispatch_slot : ℕ → Draw → ScheduledScan → Option ℕ → Claims × Db → Claims × Db
unfolding dispatch_due
dispatch_slot n d s none r = r
dispatch_slot n d s (some t) r = dispatch_due n d s t r

-- One round of the loop over the schedules, up to a crash after `n` transactions.
unfoldable pub dispatch_one : (n : ℕ) → Draw → ScheduledScan → Claims × Db → Claims × Db
unfolding dispatch_slot save
dispatch_one n d s r =
    if not s.enabled
    then r
    else if not (is_some s.next_run_at)
    then r
    else if still_paused d.now s.paused_until
    then r
    else if pause_is_over d.now s.paused_until
    then dispatch_slot n d (unpaused s) (due_slot d.now s.next_run_at)
        (r.0, record (r.1) { schedules = save (unpaused s) (r.1).schedules })
    else dispatch_slot n d s (due_slot d.now s.next_run_at) r

unfoldable pub dispatch_listed :
    (ScheduledScan → Draw) → List ScheduledScan → Claims × Db → Claims × Db
unfolding dispatch_one
dispatch_listed draw [] r = r
dispatch_listed draw (s ∷ ss) r = dispatch_listed draw ss (dispatch_one 4 (draw s) s r)

-- The task, over the schedules that `list_scheduled_scans` gave it.
unfoldable pub dispatch_scheduled_scans_task : (ScheduledScan → Draw) → Db → Claims × Db
unfolding dispatch_listed
dispatch_scheduled_scans_task draw db = dispatch_listed draw db.schedules ([], db)
