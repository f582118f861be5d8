-- ===== src/Schedule/Once.antt =====
-- No slot of a schedule is dispatched twice: dispatch_scheduled_scans_task of
-- core/tasks/maintenance_tasks.py over claim_scheduled_run of
-- core/db/repositories/scheduler_repo.py.
use sentinel_wp.Base.{
  ℕ, ◌≤◌, ◌≡◌, refl, ◌∙◌, Bool, not, ◌&&◌, Option, none, some, List, [], ◌∷◌, ◌==◌, arith,
  if◌then◌else◌, inl, inr, Bool-cases, count_if, take, is_some, All, zero, suc,
}
use sentinel_wp.Base.Text.{Text, codes}
use sentinel_wp.Schedule.{
  ScheduledScan, ScheduledRun, Db, Draw, has_run, claim_scheduled_run, update_run_status, save,
}
use sentinel_wp.Schedule.Dispatch.{
  Claims, stages, perform, advance, submit, link, succeed, dispatch_due, dispatch_one,
  dispatch_slot, dispatch_listed, still_paused, pause_is_over, due_slot, unpaused,
}

abbrev pub is_slot : (k t : ℕ) → ℕ × ℕ → Bool
is_slot k t c = c.0 == k && c.1 == t

-- How often the slot was claimed.
abbrev pub claims_of : (k t : ℕ) → Claims → ℕ
claims_of k t log = count_if (is_slot k t) log

-- The slot was claimed at most once, and not at all while no run has it.
abbrev pub IsCounted : (k t : ℕ) → Claims × Db → Type 0
IsCounted k t r = claims_of k t (r.0) ≤ (if has_run k t (r.1).runs then 1 else 0)

pub has_run-update_run_status :
    (k t now i : ℕ) (status : Text) (job : ℕ) (rs : List ScheduledRun)
    → has_run k t (update_run_status now i status job rs) ≡ has_run k t rs
unfolding update_run_status
has_run-update_run_status k t now i status job [] = refl
has_run-update_run_status k t now i status job (r ∷ rs) =
    ground (arith, has_run-update_run_status k t now i status job rs)

abbrev Keeps : (Db → Bool) → (Db → Db) → Type 0
Keeps p f = (db : Db) → p (f db) ≡ p db

perform-take :
    (p : Db → Bool) (n : ℕ) (fs : List (Db → Db)) (db : Db)
    → All (Keeps p) fs
    → p (perform (take n fs) db) ≡ p db
unfolding perform
perform-take p zero fs db h = refl
perform-take p (suc n) [] db h = refl
perform-take p (suc n) (f ∷ fs) db (k, h) = perform-take p n fs (f db) h ∙ k db

slot_kept :
    (k t : ℕ) (d : Draw) (s : ScheduledScan) → All (Keeps (λ db. has_run k t db.runs)) (stages d s)
unfolding advance submit link succeed
slot_kept k t d s = (
  (λ db. refl),
  (
    (λ db. refl),
    (
      (λ db. has_run-update_run_status k t d.now d.run_id (codes "dispatched") d.job_id db.runs),
      ((λ db. refl), tt),
    ),
  ),
)

dispatch_due-IsCounted :
    (k t n : ℕ) (d : Draw) (s : ScheduledScan) (x : ℕ) (r : Claims × Db)
    → IsCounted k t r
    → IsCounted k t (dispatch_due n d s x r)
unfolding dispatch_due claim_scheduled_run
dispatch_due-IsCounted k t n d s x (log, db) h = elim (Bool-cases (has_run s.id x db.runs)) [
  | inl e ↦ rw (e, claim_scheduled_run, dispatch_due) h
  | inr e ↦
      rw (e, claim_scheduled_run, dispatch_due)
        (rw (perform-take (λ y. has_run k t y.runs) n (stages d s) _ (slot_kept k t d s))
          (ground (arith, h)))
]

dispatch_slot-IsCounted :
    (k t n : ℕ) (d : Draw) (s : ScheduledScan) (o : Option ℕ) (r : Claims × Db)
    → IsCounted k t r
    → IsCounted k t (dispatch_slot n d s o r)
unfolding dispatch_slot
dispatch_slot-IsCounted k t n d s none r h = h
dispatch_slot-IsCounted k t n d s (some x) r h = dispatch_due-IsCounted k t n d s x r h

dispatch_one-IsCounted :
    (k t n : ℕ) (d : Draw) (s : ScheduledScan) (r : Claims × Db)
    → IsCounted k t r
    → IsCounted k t (dispatch_one n d s r)
unfolding dispatch_one
dispatch_one-IsCounted k t n d s (log, db) h = elim (Bool-cases (not s.enabled)) [
  | inl a ↦ rw a h
  | inr a ↦ elim (Bool-cases (not (is_some s.next_run_at))) [
    | inl b ↦ rw (a, b) h
    | inr b ↦ elim (Bool-cases (still_paused d.now s.paused_until)) [
      | inl c ↦ rw (a, b, c) h
      | inr c ↦ elim (Bool-cases (pause_is_over d.now s.paused_until)) [
        | inl e ↦
            rw (a, b, c, e)
              (dispatch_slot-IsCounted k t n d (unpaused s) (due_slot d.now s.next_run_at)
                (log, record db { schedules = save (unpaused s) db.schedules }) h)
        | inr e ↦
            rw (a, b, c, e)
              (dispatch_slot-IsCounted k t n d s (due_slot d.now s.next_run_at) (log, db) h)
      ]
    ]
  ]
]

dispatch_listed-IsCounted :
    (k t : ℕ) (draw : ScheduledScan → Draw) (ss : List ScheduledScan) (r : Claims × Db)
    → IsCounted k t r
    → IsCounted k t (dispatch_listed draw ss r)
unfolding dispatch_listed
dispatch_listed-IsCounted k t draw [] r h = h
dispatch_listed-IsCounted k t draw (s ∷ ss) r h =
    dispatch_listed-IsCounted k t draw ss (dispatch_one 4 (draw s) s r)
      (dispatch_one-IsCounted k t 4 (draw s) s r h)

-- What schedulers do: a pass over the schedules that one of them read, or one round that ends with a
-- crash after `n` transactions.
pub data Beat : Type 0 where
  pass : (ScheduledScan → Draw) → List ScheduledScan → Beat
  crash : (n : ℕ) → Draw → ScheduledScan → Beat

unfoldable pub beats : List Beat → Claims × Db → Claims × Db
unfolding dispatch_listed dispatch_one
beats [] r = r
beats (pass draw ss ∷ bs) r = beats bs (dispatch_listed draw ss r)
beats (crash n d s ∷ bs) r = beats bs (dispatch_one n d s r)

beats-IsCounted :
    (k t : ℕ) (bs : List Beat) (r : Claims × Db) → IsCounted k t r → IsCounted k t (beats bs r)
unfolding beats
beats-IsCounted k t [] r h = h
beats-IsCounted k t (pass draw ss ∷ bs) r h =
    beats-IsCounted k t bs (dispatch_listed draw ss r) (dispatch_listed-IsCounted k t draw ss r h)
beats-IsCounted k t (crash n d s ∷ bs) r h =
    beats-IsCounted k t bs (dispatch_one n d s r) (dispatch_one-IsCounted k t n d s r h)

-- Whatever schedulers run, one after the other, each over schedules that it may have read long ago,
-- and wherever one of them crashes: every planned time of a schedule is claimed, and so dispatched,
-- at most once.
pub at_most_once : (bs : List Beat) (db : Db) (k t : ℕ) → claims_of k t (beats bs ([], db)).0 ≤ 1
at_most_once bs db k t = ground (arith, beats-IsCounted k t bs ([], db) (ground arith))
