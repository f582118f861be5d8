-- ===== src/ScanTask/Attempts.antt =====
-- How often a job can be taken back: recover_stale_jobs_task of core/tasks/maintenance_tasks.py and
-- the writes of core/db/repositories/scan_job_repo.py that workers make.
use Prim.Native.String.{String}
use sentinel_wp.Base.{
  ℕ, ◌+◌, ◌-◌, ◌≤◌, ◌<◌, ◌≡◌, ◌⊎◌, refl, sym, ◌∙◌, subst, Option, none, some, ltb, arith, inl, inr,
  Bool-cases,
}
use sentinel_wp.Base.Int.{ℤ}
use sentinel_wp.Base.Table.{get_row, key-get_row}
use sentinel_wp.ScanJob.{ScanJob, ScanJobStatus, Jobs, job_key, failed}
use sentinel_wp.ScanJob.Queue.{
  update_job, try_reclaim_stale_for_retry, mark_status, try_claim_for_execution, update_progress,
  record_heartbeat, requeue, claim, is_stale, set_worker,
}
use sentinel_wp.ScanJob.Claims.{update_returning-true, update_returning-false, get_row-modified}
use sentinel_wp.ScanTask.Recovery.{recover_job}
use sentinel_wp.ScanTask.Kept.{
  HasAttempts, assign-HasAttempts, update_returning-HasAttempts, mark_status-HasAttempts,
  KeepsAttempts, update_job-HasAttempts,
}

-- What workers do to jobs, and what marks them for users: the writes of the repository but
-- `create_job`, `update_job` and the reclaim.
pub data Work : Type 0 where
  claims : (now job_id worker_id : ℕ) → Work
  marks : (now job_id : ℕ) → ScanJobStatus → (code message : Option String) → Option ℕ → Work
  reports : (now job_id : ℕ) → ℤ → String → Option ℕ → Work
  beats : (now job_id : ℕ) → Option ℕ → Work

unfoldable pub work : Work → Jobs → Jobs
work (claims now i w) t = (try_claim_for_execution now i w t).0
work (marks now i s code message w) t = (mark_status now i s code message w t).0
work (reports now i p step w) t = (update_progress now i p step w t).0
work (beats now i w) t = (record_heartbeat now i w t).0

set_worker-IsWork :
    (w : Option ℕ) (m : ScanJob)
    → ((set_worker w m).id ≡ m.id)
      × ((set_worker w m).attempt ≡ m.attempt)
      × ((set_worker w m).max_attempts ≡ m.max_attempts)
set_worker-IsWork w m = ground arith

work-HasAttempts :
    (k a b : ℕ) (x : Work) (t : Jobs) → HasAttempts k a b t → HasAttempts k a b (work x t)
unfolding work try_claim_for_execution update_progress record_heartbeat
work-HasAttempts k a b (claims now i w) t h =
    update_returning-HasAttempts k i a b _ (claim now w) t (λ m. (refl, refl, refl)) h
work-HasAttempts k a b (marks now i s code message w) t h =
    mark_status-HasAttempts now k i a b s code message w t h
work-HasAttempts k a b (reports now i p step w) t h =
    assign-HasAttempts k i a b _ t (λ m. set_worker-IsWork w _) h
work-HasAttempts k a b (beats now i w) t h =
    assign-HasAttempts k i a b _ t (λ m. set_worker-IsWork w _) h

-- A history of the job `k`: work on any job, calls of `update_job` that write back the attempts they
-- read, and recoveries of the row that `k` has. The number is that of the recoveries that gave it
-- back to the queue.
pub data History (k : ℕ) : Jobs → Jobs → ℕ → Type 0 where
  start : (t : Jobs) → History k t t 0
  worked : (t t1 : Jobs) (n : ℕ) (x : Work) → History k t t1 n → History k t (work x t1) n
  updated :
      (t t1 : Jobs) (n now : ℕ) (job : ScanJob)
      → KeepsAttempts job t1
      → History k t t1 n
      → History k t (update_job now job t1).0 n
  recovery :
      (t t1 : Jobs) (n now threshold : ℕ) (j : ScanJob)
      → History k t t1 n
      → get_row job_key k t1 ≡ some j
      → History k t
          (recover_job now threshold j (record { recovered = n; exhausted = 0; jobs = t1 })).jobs
          (recover_job now threshold j
            (record { recovered = n; exhausted = 0; jobs = t1 })).recovered

-- One recovery: an attempt more for each recovery that is counted, and none beyond the maximum.
recover_job-HasAttempts :
    (now threshold n e : ℕ) (t : Jobs) (j : ScanJob)
    → get_row job_key j.id t ≡ some j
    → let r = recover_job now threshold j (record { recovered = n; exhausted = e; jobs = t }) in
      ((r.recovered ≡ n) × HasAttempts j.id j.attempt j.max_attempts r.jobs)
      ⊎ ((r.recovered ≡ n + 1)
          × HasAttempts j.id (j.attempt + 1) j.max_attempts r.jobs
          × (j.attempt < j.max_attempts))
unfolding recover_job try_reclaim_stale_for_retry
recover_job-HasAttempts now threshold n e t j h = elim (Bool-cases (ltb j.attempt j.max_attempts)) [
  | inr b ↦ rw b (
      inl (
        refl,
        mark_status-HasAttempts now j.id j.id j.attempt j.max_attempts failed
            (some "STALE_WORKER_HEARTBEAT_EXHAUSTED")
            (some "Worker terminated unexpectedly and max retry attempts exhausted") none t
            (j, h, refl, refl),
      ))
  | inl b ↦
      let stale = is_stale (now - threshold) in
      elim (Bool-cases (stale j)) [
        | inr s ↦
            rw (b, update_returning-false j.id stale (requeue now) t j h s)
              (inl (refl, (j, h, refl, refl)))
        | inl s ↦
            rw (b, update_returning-true j.id stale (requeue now) t j h s)
              (inr (
                refl,
                (requeue now j, get_row-modified j.id (requeue now) t j (λ m. refl) h, refl, refl),
                ground arith,
              ))
      ]
]

step_bound :
    (k n a b : ℕ) (t1 : Jobs) (now threshold : ℕ) (j : ScanJob)
    → get_row job_key k t1 ≡ some j
    → HasAttempts k (a + n) b t1
    → (n ≡ 0) ⊎ (a + n ≤ b)
    → let r = recover_job now threshold j (record { recovered = n; exhausted = 0; jobs = t1 }) in
      HasAttempts k (a + r.recovered) b r.jobs × ((r.recovered ≡ 0) ⊎ (a + r.recovered ≤ b))
step_bound k n a b t1 now threshold j h (j1, h1, p, q) c =
    let i : j.id ≡ k = key-get_row job_key k t1 j h in
    let same : j1 ≡ j = ground (arith, sym h1 ∙ h) in
    let p1 : j.attempt ≡ a + n = subst (λ x. x.attempt ≡ a + n) same p in
    let q1 : j.max_attempts ≡ b = subst (λ x. x.max_attempts ≡ b) same q in
    let r = recover_job now threshold j (record { recovered = n; exhausted = 0; jobs = t1 }) in
    elim (recover_job-HasAttempts now threshold n 0 t1 j
      (subst (λ x. get_row job_key x t1 ≡ some j) (sym i) h)) [
        | inl (x, (m, y, u, v)) ↦ (
          (m, subst (λ z. get_row job_key z r.jobs ≡ some m) i y, omega (arith, u, x, p1), v ∙ q1),
          ground (arith, x, c),
        )
        | inr (x, (m, y, u, v), l) ↦ (
          (m, subst (λ z. get_row job_key z r.jobs ≡ some m) i y, omega (arith, u, x, p1), v ∙ q1),
          inr (omega (arith, x, l, p1, q1)),
        )
      ]

history_bound :
    (k a b n : ℕ) (t t1 : Jobs)
    → History k t t1 n
    → HasAttempts k a b t
    → HasAttempts k (a + n) b t1 × ((n ≡ 0) ⊎ (a + n ≤ b))
history_bound k a b n t t1 (start t0) (j, e, p, q) = ((j, e, omega (arith, p), q), inl refl)
history_bound k a b n t t1 (worked t0 t2 n0 x h) w =
    let (y, c) = history_bound k a b n0 t t2 h w in (work-HasAttempts k (a + n0) b x t2 y, c)
history_bound k a b n t t1 (updated t0 t2 n0 now job keeps h) w =
    let (y, c) = history_bound k a b n0 t t2 h w in
    (update_job-HasAttempts now k (a + n0) b job t2 keeps y, c)
history_bound k a b n t t1 (recovery t0 t2 n0 now threshold j h e) w =
    let (y, c) = history_bound k a b n0 t t2 h w in step_bound k n0 a b t2 now threshold j e y c

-- The maintenance does not requeue a job for ever: whatever is claimed, marked, reported and updated
-- in between, where `update_job` writes back the attempts that were read, a job of attempt `a` is
-- given back to the queue at most `max_attempts - a` times, each time as one more attempt. Nothing
-- is said of an `update_job` that raises or resets the attempts itself.
pub bounded_recoveries :
    (k a b n : ℕ) (t t1 : Jobs)
    → HasAttempts k a b t
    → History k t t1 n
    → (n ≤ b - a) × HasAttempts k (a + n) b t1
bounded_recoveries k a b n t t1 w h =
    let (y, c) = history_bound k a b n t t1 h w in (ground arith, y)
