-- ===== src/Schedule/Crash.antt =====
-- A schedule whose slot was claimed by a scheduler that crashed: dispatch_scheduled_scans_task of
-- core/tasks/maintenance_tasks.py.
use sentinel_wp.Base.{
  ℕ, ◌≤◌, ◌≡◌, refl, sym, ◌∙◌, subst, true, false, not, none, some, List, [], ◌∷◌, arith, inl, inr,
  Bool-cases, Option-cases, is_some, In,
}
use sentinel_wp.Base.Table.{get_row-In}
use sentinel_wp.Sla.{at}
use sentinel_wp.Schedule.{ScheduledScan, Db, Draw, schedule, has_run, claim_scheduled_run, save}
use sentinel_wp.Schedule.Dispatch.{
  Claims, perform, dispatch_due, dispatch_one, dispatch_slot, dispatch_listed, still_paused,
  pause_is_over, due_slot, unpaused,
}
use sentinel_wp.Schedule.Stuck.{
  IsKeyed, IsStuck, claims_for, Waits, Waits-save, Quiet, dispatch_due-Quiet,
}

dispatch_slot-Quiet :
    (k t n m : ℕ) (d : Draw) (s : ScheduledScan) (r : Claims × Db)
    → (s.id ≡ k → s.next_run_at ≡ some (at t))
    → Quiet k t m r
    → Quiet k t m (dispatch_slot n d s (due_slot d.now s.next_run_at) r)
unfolding dispatch_slot
dispatch_slot-Quiet k t n m d s r h q = elim (Option-cases (due_slot d.now s.next_run_at)) [
  | inl e ↦ rw e q
  | inr (x, e) ↦ rw e (
      dispatch_due-Quiet k t n m d s x r
        (λ i. slot_time d.now t x (subst (λ o. due_slot d.now o ≡ some x) (h i) e)) q)
]
  where
    slot_time : (now t x : ℕ) → due_slot now (some (at t)) ≡ some x → x ≡ t
    slot_time now t x e = ground (arith, e)

dispatch_one-Quiet :
    (k t n m : ℕ) (d : Draw) (s : ScheduledScan) (r : Claims × Db)
    → (s.id ≡ k → s.next_run_at ≡ some (at t))
    → Quiet k t m r
    → Quiet k t m (dispatch_one n d s r)
unfolding dispatch_one
dispatch_one-Quiet k t n m d s (log, db) h q = elim (Bool-cases (not s.enabled)) [
  | inl a ↦ rw a q
  | inr a ↦ elim (Bool-cases (not (is_some s.next_run_at))) [
    | inl b ↦ rw (a, b) q
    | inr b ↦ elim (Bool-cases (still_paused d.now s.paused_until)) [
      | inl c ↦ rw (a, b, c) q
      | inr c ↦ elim (Bool-cases (pause_is_over d.now s.paused_until)) [
        | inl e ↦
            rw (a, b, c, e)
              (dispatch_slot-Quiet k t n m d (unpaused s)
                (log, record db { schedules = save (unpaused s) db.schedules }) h
                (Waits-save k t (unpaused s) db h (q.0), q.1))
        | inr e ↦ rw (a, b, c, e) (dispatch_slot-Quiet k t n m d s (log, db) h q)
      ]
    ]
  ]
]

dispatch_listed-Quiet :
    (k t m : ℕ) (draw : ScheduledScan → Draw) (ss : List ScheduledScan) (r : Claims × Db)
    → ((s : ScheduledScan) → In s ss → s.id ≡ k → s.next_run_at ≡ some (at t))
    → Quiet k t m r
    → Quiet k t m (dispatch_listed draw ss r)
unfolding dispatch_listed
dispatch_listed-Quiet k t m draw [] r h q = q
dispatch_listed-Quiet k t m draw (s ∷ ss) r h q =
    dispatch_listed-Quiet k t m draw ss (dispatch_one 4 (draw s) s r) (λ x i. h x (inr i))
      (dispatch_one-Quiet k t 4 m (draw s) s r (h s (inl refl)) q)

-- The rows that a pass reads.
listed-Waits :
    (k t : ℕ) (db : Db) (s : ScheduledScan)
    → Waits k t db
    → In s db.schedules
    → s.id ≡ k
    → s.next_run_at ≡ some (at t)
listed-Waits k t db s (a, ((x, e, p), c)) i j =
    let f = get_row-In (λ (y : ScheduledScan). y.id) db.schedules s a i in
    let g : schedule k db.schedules ≡ some s = subst (λ y. schedule y db.schedules ≡ some s) j f in
    let same : x ≡ s = ground (arith, sym e ∙ g) in subst (λ y. y.next_run_at ≡ some (at t)) same p

-- Passes of the task, each over the schedules as they are then.
unfoldable pub passes : List (ScheduledScan → Draw) → Claims × Db → Claims × Db
unfolding dispatch_listed
passes [] r = r
passes (draw ∷ ds) r = passes ds (dispatch_listed draw (r.1).schedules r)

passes-Quiet :
    (k t m : ℕ) (ds : List (ScheduledScan → Draw)) (r : Claims × Db)
    → Quiet k t m r
    → Quiet k t m (passes ds r)
unfolding passes
passes-Quiet k t m [] r q = q
passes-Quiet k t m (draw ∷ ds) r q =
    passes-Quiet k t m ds (dispatch_listed draw (r.1).schedules r) (
      dispatch_listed-Quiet k t m draw (r.1).schedules r (λ s i. listed-Waits k t (r.1) s (q.0) i)
        q)

due_round :
    (t : ℕ) (d : Draw) (s : ScheduledScan) (r : Claims × Db)
    → not s.enabled ≡ false
    → not (is_some s.next_run_at) ≡ false
    → still_paused d.now s.paused_until ≡ false
    → pause_is_over d.now s.paused_until ≡ false
    → due_slot d.now s.next_run_at ≡ some t
    → dispatch_one 0 d s r ≡ dispatch_due 0 d s t r
unfolding dispatch_one dispatch_slot
due_round t d s r a b c e f = rw (a, b, c, e, f) refl

claimed_round :
    (t : ℕ) (d : Draw) (s : ScheduledScan) (db : Db)
    → IsKeyed db
    → schedule s.id db.schedules ≡ some s
    → s.next_run_at ≡ some (at t)
    → has_run s.id t db.runs ≡ false
    → Quiet s.id t 1 (dispatch_due 0 d s t ([], db))
      × (((dispatch_due 0 d s t ([], db)).1).jobs ≡ db.jobs)
unfolding dispatch_due claim_scheduled_run perform
claimed_round t d s db w e c n =
    rw (n, claim_scheduled_run, dispatch_due) (((w, ((s, e, c), ground arith)), ground arith), refl)

crashed_round :
    (t : ℕ) (d : Draw) (s : ScheduledScan) (db : Db)
    → IsKeyed db
    → schedule s.id db.schedules ≡ some s
    → s.enabled ≡ true
    → s.paused_until ≡ none
    → s.next_run_at ≡ some (at t)
    → t ≤ d.now
    → has_run s.id t db.runs ≡ false
    → Quiet s.id t 1 (dispatch_one 0 d s ([], db))
      × (((dispatch_one 0 d s ([], db)).1).jobs ≡ db.jobs)
crashed_round t d s db w e a b c l n =
    rw
      (due_round t d s ([], db) (ground (arith, a)) (ground (arith, c)) (ground (arith, b))
        (ground (arith, b)) (ground (arith, c, l)))
      (claimed_round t d s db w e c n)

-- A schedule that is due and neither disabled nor paused, and whose scheduler crashes right after
-- the claim of the slot, is never scanned again: no job was created, and however often the task runs
-- later, over the schedules as they are then, no other slot of it is claimed and its next time stays
-- the claimed one, for which there is a run already. (The table of schedules has one row for each
-- id.)
pub crashed_for_ever :
    (t : ℕ) (d : Draw) (s : ScheduledScan) (ds : List (ScheduledScan → Draw)) (db : Db)
    → IsKeyed db
    → schedule s.id db.schedules ≡ some s
    → s.enabled ≡ true
    → s.paused_until ≡ none
    → s.next_run_at ≡ some (at t)
    → t ≤ d.now
    → has_run s.id t db.runs ≡ false
    → let r = dispatch_one 0 d s ([], db) in
      ((r.1).jobs ≡ db.jobs)
      × (claims_for s.id (passes ds r).0 ≡ 1)
      × IsStuck s.id t (passes ds r).1
crashed_for_ever t d s ds db w e a b c l n =
    let (q, j) = crashed_round t d s db w e a b c l n in
    let (y, z) = passes-Quiet s.id t 1 ds (dispatch_one 0 d s ([], db)) q in (j, z, y.1)
