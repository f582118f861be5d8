-- ===== src/ScanJob/Claims.antt =====
-- One worker for each job: `try_claim_for_execution` of core/db/repositories/scan_job_repo.py.
use sentinel_wp.Base.{
  ℕ, ◌-◌, ◌≡◌, refl, inl, inr, Bool, true, false, none, some, List, [], ◌∷◌, arith, Option-cases,
  Bool-cases, count_if,
}
use sentinel_wp.Base.Table.{get_row, modify_row, get_row-modify_row, count_if-modify_row}
use sentinel_wp.ScanJob.{ScanJob, Jobs, job_key, is_claimable, is_active}
use sentinel_wp.ScanJob.Queue.{
  try_claim_for_execution, try_reclaim_stale_for_retry, update_returning, claim, requeue, is_stale,
}
use sentinel_wp.ScanJob.Queries.{count_active_jobs_global}

module _ (k : ℕ) (guard : ScanJob → Bool) (f : ScanJob → ScanJob) (t : Jobs) (m : ScanJob)
    (found : get_row job_key k t ≡ some m) where
  pub update_returning-true :
      guard m ≡ true → update_returning k guard f t ≡ (modify_row job_key k f t, some (f m))
  update_returning-true g = ground arith

  pub update_returning-false : guard m ≡ false → update_returning k guard f t ≡ (t, none)
  update_returning-false g = ground arith

pub update_returning-none :
    (k : ℕ) (guard : ScanJob → Bool) (f : ScanJob → ScanJob) (t : Jobs)
    → get_row job_key k t ≡ none
    → update_returning k guard f t ≡ (t, none)
update_returning-none k guard f t e = ground arith

-- The row that an update leaves under its own key.
pub get_row-modified :
    (k : ℕ) (f : ScanJob → ScanJob) (t : Jobs) (m : ScanJob)
    → ((j : ScanJob) → (f j).id ≡ j.id)
    → get_row job_key k t ≡ some m
    → get_row job_key k (modify_row job_key k f t) ≡ some (f m)
get_row-modified k f t m same_id e = rw (get_row-modify_row job_key k k f t same_id) (ground arith)

-- Of a job that stands in the table, a worker is given the row exactly when the job is queued or
-- waits for a retry; the row then is the returned one, running under that worker. Otherwise the
-- table does not change.
pub try_claim_cases :
    (now k w : ℕ) (t : Jobs) (j : ScanJob)
    → get_row job_key k t ≡ some j
    → (is_claimable j.status ≡ true
        → ((try_claim_for_execution now k w t).1 ≡ some (claim now w j))
          × (get_row job_key k (try_claim_for_execution now k w t).0 ≡ some (claim now w j)))
      × (is_claimable j.status ≡ false → try_claim_for_execution now k w t ≡ (t, none))
unfolding try_claim_for_execution
try_claim_cases now k w t j e = (
  (λ c.
      rw (update_returning-true k (λ m. is_claimable m.status) (claim now w) t j e c)
        (refl, get_row-modified k (claim now w) t j (λ _. refl) e)),
  update_returning-false k (λ m. is_claimable m.status) (claim now w) t j e,
)

-- Workers that try to claim one job, one after the other: those that were given it.
unfoldable pub winners : ℕ → List (ℕ × ℕ) → Jobs → List ℕ
winners k [] t = []
winners k ((now, w) ∷ tries) t =
    let (t', r) = try_claim_for_execution now k w t in
    let rest = winners k tries t' in elim r [ none ↦ rest | some _ ↦ w ∷ rest ]

winners_of_busy :
    (k : ℕ) (tries : List (ℕ × ℕ)) (t : Jobs) (j : ScanJob)
    → get_row job_key k t ≡ some j
    → is_claimable j.status ≡ false
    → winners k tries t ≡ []
unfolding winners
winners_of_busy k [] t j e b = refl
winners_of_busy k ((now, w) ∷ tries) t j e b =
    ground (arith, (try_claim_cases now k w t j e).1 b, winners_of_busy k tries t j e b)

-- However many workers try to claim a queued job, in whatever order, the first is given it and no
-- other is.
pub one_winner :
    (k now w : ℕ) (tries : List (ℕ × ℕ)) (t : Jobs) (j : ScanJob)
    → get_row job_key k t ≡ some j
    → is_claimable j.status ≡ true
    → winners k ((now, w) ∷ tries) t ≡ w ∷ []
unfolding winners
one_winner k now w tries t j e c =
    let (given, now_running) = (try_claim_cases now k w t j e).0 c in
    ground (
      arith,
      winners_of_busy k tries (try_claim_for_execution now k w t).0 (claim now w j) now_running
          refl,
    )

update_returning-count :
    (p : ScanJob → Bool) (k : ℕ) (guard : ScanJob → Bool) (f : ScanJob → ScanJob) (t : Jobs)
    → ((m : ScanJob) → guard m ≡ true → p (f m) ≡ p m)
    → count_if p (update_returning k guard f t).0 ≡ count_if p t
update_returning-count p k guard f t h = elim (Option-cases (get_row job_key k t)) [
  | inl e ↦ rw (update_returning-none k guard f t e)
  | inr (m, e) ↦ elim (Bool-cases (guard m)) [
    | inl g ↦
        rw (update_returning-true k guard f t m e g)
          (count_if-modify_row job_key p k f t m e (h m g))
    | inr g ↦ rw (update_returning-false k guard f t m e g)
  ]
]

-- Claiming a job, and giving a stale one back, leave the number of active jobs as it was.
pub count_active_unchanged :
    (now k w threshold : ℕ) (t : Jobs)
    → (count_active_jobs_global (try_claim_for_execution now k w t).0 ≡ count_active_jobs_global t)
      × (count_active_jobs_global (try_reclaim_stale_for_retry now k threshold t).0
          ≡ count_active_jobs_global t)
unfolding try_claim_for_execution try_reclaim_stale_for_retry count_active_jobs_global
count_active_unchanged now k w threshold t = (
  update_returning-count (λ j. is_active j.status) k (λ m. is_claimable m.status) (claim now w) t
      (λ m g. ground arith),
  update_returning-count (λ j. is_active j.status) k (is_stale (now - threshold)) (requeue now) t
      (λ m g. ground arith),
)
