-- ===== src/Schedule/Stuck.antt =====
-- A scheduler that crashes between the claim of a slot and the next write:
-- dispatch_scheduled_scans_task of core/tasks/maintenance_tasks.py.
use sentinel_wp.Base.{
  ℕ, zero, suc, ◌≡◌, ◌≢◌, refl, sym, ◌∙◌, subst, true, Option, none, some, List, [], ◌∷◌, ◌==◌,
  arith, if◌then◌else◌, inl, inr, Bool-cases, count_if, take, All,
}
use sentinel_wp.Base.Table.{Keyed, Keyed-put_row, get_row-put_row}
use sentinel_wp.Base.Text.{codes}
use sentinel_wp.Sla.{at}
use sentinel_wp.Schedule.{
  ScheduledScan, Db, Draw, schedule, saved_over, has_run, claim_scheduled_run, save,
}
use sentinel_wp.Schedule.Dispatch.{
  Claims, stages, perform, advance, advanced, submit, link, succeed, dispatch_due,
}
use sentinel_wp.Schedule.Once.{has_run-update_run_status}

abbrev pub IsKeyed : Db → Type 0
IsKeyed db = Keyed (λ (s : ScheduledScan). s.id) db.schedules

-- The schedule waits for a slot that a run has already.
abbrev pub IsStuck : (k t : ℕ) → Db → Type 0
IsStuck k t db =
    ((s : ScheduledScan) × (schedule k db.schedules ≡ some s) × (s.next_run_at ≡ some (at t)))
    × (has_run k t db.runs ≡ true)

-- How often a slot of the schedule was claimed.
abbrev pub claims_for : ℕ → Claims → ℕ
claims_for k log = count_if (λ (c : ℕ × ℕ). c.0 == k) log

schedule-save :
    (k : ℕ) (s : ScheduledScan) (rows : List ScheduledScan)
    → schedule k (save s rows)
      ≡ (if s.id == k then some (saved_over s (schedule s.id rows)) else schedule k rows)
unfolding save
schedule-save k s rows =
    get_row-put_row (λ (x : ScheduledScan). x.id) k (saved_over s (schedule s.id rows)) rows
    ∙ ground (arith)

next_run_at-saved_over :
    (s : ScheduledScan) (o : Option ScheduledScan) → (saved_over s o).next_run_at ≡ s.next_run_at
next_run_at-saved_over s none = refl
next_run_at-saved_over s (some m) = refl

-- The save of another schedule, or of this one with the same next time.
IsStuck-save :
    (k t : ℕ) (s : ScheduledScan) (db : Db)
    → (s.id ≡ k → s.next_run_at ≡ some (at t))
    → IsStuck k t db
    → IsStuck k t (record db { schedules = save s db.schedules })
IsStuck-save k t s db h ((x, e, p), r) = elim (Bool-cases (s.id == k)) [
  | inl b ↦ (
    (
      saved_over s (schedule s.id db.schedules),
      schedule-save k s db.schedules ∙ rw b refl,
      next_run_at-saved_over s (schedule s.id db.schedules) ∙ h (ground (arith, b)),
    ),
    r,
  )
  | inr b ↦ ((x, schedule-save k s db.schedules ∙ rw b e, p), r)
]

IsKeyed-save :
    (s : ScheduledScan) (db : Db)
    → IsKeyed db
    → IsKeyed (record db { schedules = save s db.schedules })
unfolding save
IsKeyed-save s db h =
    Keyed-put_row (λ (x : ScheduledScan). x.id) (saved_over s (schedule s.id db.schedules))
      db.schedules h

abbrev pub Waits : (k t : ℕ) → Db → Type 0
Waits k t db = IsKeyed db × IsStuck k t db

perform-take-keeps :
    (P : Db → Type 0) (n : ℕ) (fs : List (Db → Db)) (db : Db)
    → All (λ f. (x : Db) → P x → P (f x)) fs
    → P db
    → P (perform (take n fs) db)
unfolding perform
perform-take-keeps P zero fs db h p = p
perform-take-keeps P (suc n) [] db h p = p
perform-take-keeps P (suc n) (f ∷ fs) db (k, h) p = perform-take-keeps P n fs (f db) h (k db p)

pub Waits-save :
    (k t : ℕ) (s : ScheduledScan) (db : Db)
    → (s.id ≡ k → s.next_run_at ≡ some (at t))
    → Waits k t db
    → Waits k t (record db { schedules = save s db.schedules })
Waits-save k t s db h (a, b) = (IsKeyed-save s db a, IsStuck-save k t s db h b)

stages-Waits :
    (k t : ℕ) (d : Draw) (s : ScheduledScan)
    → s.id ≢ k
    → All (λ f. (x : Db) → Waits k t x → Waits k t (f x)) (stages d s)
unfolding advance submit link succeed
stages-Waits k t d s n = (
  (λ x w. Waits-save k t (advanced d.now s) x (λ e. absurd (n e)) w),
  (
    (λ x w. w),
    (
      (λ x w. (
        w.0,
        (
          (w.1).0,
          has_run-update_run_status k t d.now d.run_id (codes "dispatched") d.job_id x.runs
              ∙ (w.1).1,
        ),
      )),
      (
        (λ x w.
            Waits-save k t
              (record (advanced d.now s) { consecutive_failures = 0; last_success_at = some d.now })
              x (λ e. absurd (n e)) w),
        tt,
      ),
    ),
  ),
)

-- Nothing is claimed for the schedule while it waits.
abbrev pub Quiet : (k t n : ℕ) → Claims × Db → Type 0
Quiet k t n r = Waits k t (r.1) × (claims_for k (r.0) ≡ n)

pub dispatch_due-Quiet :
    (k t n m : ℕ) (d : Draw) (s : ScheduledScan) (x : ℕ) (r : Claims × Db)
    → (s.id ≡ k → x ≡ t)
    → Quiet k t m r
    → Quiet k t m (dispatch_due n d s x r)
unfolding dispatch_due claim_scheduled_run
dispatch_due-Quiet k t n m d s x (log, db) h ((a, (b, c)), q) =
    elim (Bool-cases (has_run s.id x db.runs)) [
      | inl e ↦ rw (e, claim_scheduled_run, dispatch_due) ((a, (b, c)), q)
      | inr e ↦ elim (Bool-cases (s.id == k)) [
        | inl i ↦
            let g : has_run s.id x db.runs ≡ true =
              subst (λ y. has_run y x db.runs ≡ true) (ground (arith, i))
                (subst (λ y. has_run k y db.runs ≡ true) (sym (h (ground (arith, i)))) c) in
            absurd (cc (e, g))
        | inr i ↦
            rw (e, claim_scheduled_run, dispatch_due)
              (
                perform-take-keeps (Waits k t) n (stages d s) _
                    (stages-Waits k t d s (ground (arith, i))) (a, (b, ground (arith, c))),
                rw i q,
              )
      ]
    ]
