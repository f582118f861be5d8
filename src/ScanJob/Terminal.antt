-- ===== src/ScanJob/Terminal.antt =====
-- Finished jobs stay finished: core/db/repositories/scan_job_repo.py.
use Prim.Native.String.{String}
use sentinel_wp.Base.{
  ℕ, ◌≡◌, refl, inl, inr, Bool, true, false, Option, some, List, [], ◌∷◌, ◌++◌, arith, ◌==◌,
  if◌then◌else◌, Option-cases, Bool-cases, is_some, not, ◌&&◌,
}
use sentinel_wp.Base.Int.{ℤ}
use sentinel_wp.Base.Table.{get_row, modify_row, get_row-modify_row, get_row-append}
use sentinel_wp.ScanJob.{ScanJobStatus, ScanJob, Jobs, job_key, is_terminal}
use sentinel_wp.ScanJob.Queue.{
  update_job, create_job, update_progress, record_heartbeat, mark_status, try_claim_for_execution,
  try_reclaim_stale_for_retry, set_worker, mark_fields, assign, update_returning, overwrite, claim,
  requeue,
}

-- A call of a method that writes, at a time.
pub data Op : Type 0 where
  create update : (now : ℕ) → ScanJob → Op
  progress : (now job_id : ℕ) → ℤ → String → Option ℕ → Op
  heartbeat : (now job_id : ℕ) → Option ℕ → Op
  mark : (now job_id : ℕ) → ScanJobStatus → (code message : Option String) → Option ℕ → Op
  claim_job : (now job_id worker_id : ℕ) → Op
  reclaim : (now job_id stale_threshold : ℕ) → Op

unfoldable pub apply : Op → Jobs → Jobs
apply (create now job) t = (create_job now job t).0
apply (update now job) t = (update_job now job t).0
apply (progress now k p step w) t = (update_progress now k p step w t).0
apply (heartbeat now k w) t = (record_heartbeat now k w t).0
apply (mark now k s code message w) t = (mark_status now k s code message w t).0
apply (claim_job now k w) t = (try_claim_for_execution now k w t).0
apply (reclaim now k threshold) t = (try_reclaim_stale_for_retry now k threshold t).0

unfoldable pub run : List Op → Jobs → Jobs
unfolding apply
run [] t = t
run (op ∷ ops) t = run ops (apply op t)

-- The job under `k` has finished.
abbrev pub Finished : ℕ → Jobs → Type 0
Finished k t = (j : ScanJob) × (get_row job_key k t ≡ some j) × (is_terminal j.status ≡ true)

-- What a write to the row `i` leaves under `k`.
get_row_after :
    (k i : ℕ) (f : ScanJob → ScanJob) (t : Jobs) (j : ScanJob)
    → ((m : ScanJob) → (f m).id ≡ m.id)
    → get_row job_key k t ≡ some j
    → get_row job_key k (modify_row job_key i f t) ≡ some (if k == i then f j else j)
get_row_after k i f t j same_id found =
    rw (get_row-modify_row job_key k i f t same_id) (ground arith)

-- A write to the row `i` keeps `k` finished if what it does to a finished row `i` is finished.
modify_row-Finished :
    (k i : ℕ) (f : ScanJob → ScanJob) (t : Jobs)
    → ((m : ScanJob) → (f m).id ≡ m.id)
    → ((m : ScanJob)
        → get_row job_key i t ≡ some m
        → is_terminal m.status ≡ true
        → is_terminal (f m).status ≡ true)
    → Finished k t
    → Finished k (modify_row job_key i f t)
modify_row-Finished k i f t same_id keeps (j, found, done) =
    ((if k == i then f j else j), get_row_after k i f t j same_id found, ground (arith, keeps j))

assign-Finished :
    (k i : ℕ) (f : ScanJob → ScanJob) (t : Jobs)
    → ((m : ScanJob) → (f m).id ≡ m.id)
    → ((m : ScanJob) → (f m).status ≡ m.status)
    → Finished k t
    → Finished k (assign i f t).0
assign-Finished k i f t same_id same_status h = elim (Bool-cases (is_some (get_row job_key i t))) [
  | inl e ↦ rw e (modify_row-Finished k i f t same_id (λ m _ d. rw (same_status m) d) h)
  | inr e ↦ rw e h
]

append-Finished : (k : ℕ) (t : Jobs) (job : ScanJob) → Finished k t → Finished k (t ++ job ∷ [])
append-Finished k t job (j, found, done) = (j, get_row-append job_key k t (job ∷ []) j found, done)

update_job-Finished :
    (now k : ℕ) (job : ScanJob) (t : Jobs) → Finished k t → Finished k (update_job now job t).0
unfolding update_job
update_job-Finished now k job t h = elim (Option-cases (get_row job_key job.id t)) [
  | inl e ↦ rw (e, update_job) h
  | inr (m, e) ↦ elim (Bool-cases (is_terminal m.status && not (is_terminal job.status))) [
    | inl b ↦ rw (e, b, update_job) h
    | inr b ↦
        rw (e, b, update_job)
          (modify_row-Finished k job.id (overwrite now job) t (λ _. refl) (λ m' e' d. ground arith)
            h)
  ]
]

update_returning-Finished :
    (k i : ℕ) (guard : ScanJob → Bool) (f : ScanJob → ScanJob) (t : Jobs)
    → ((m : ScanJob) → (f m).id ≡ m.id)
    → ((m : ScanJob) → guard m ≡ true → is_terminal m.status ≡ false)
    → Finished k t
    → Finished k (update_returning i guard f t).0
update_returning-Finished k i guard f t same_id open_ h =
    elim (Option-cases (get_row job_key i t)) [
      | inl e ↦ rw (e, update_returning) h
      | inr (m, e) ↦ elim (Bool-cases (guard m)) [
        | inl b ↦
            rw (e, b, update_returning)
              (modify_row-Finished k i f t same_id (λ m' e' d. ground (arith, open_ m)) h)
        | inr b ↦ rw (e, b, update_returning) h
      ]
    ]

create_job-Finished :
    (now k : ℕ) (job : ScanJob) (t : Jobs) → Finished k t → Finished k (create_job now job t).0
unfolding create_job
create_job-Finished now k job t h = elim (Option-cases (get_row job_key job.id t)) [
  | inl e ↦ rw (e, create_job) (append-Finished k t job h)
  | inr (m, e) ↦ elim (Bool-cases (is_terminal m.status)) [
    | inl b ↦ rw (e, b, create_job) h
    | inr b ↦ rw (e, b, create_job) (update_job-Finished now k job t h)
  ]
]

mark_fields-id :
    (s : ScanJobStatus) (now : ℕ) (code message : Option String) (w : Option ℕ) (m : ScanJob)
    → (set_worker w
        (mark_fields s now code message (record m { status = s; updated_at = some now }))).id
      ≡ m.id
mark_fields-id s now code message w m = ground arith

mark_status-Finished :
    (now k i : ℕ) (s : ScanJobStatus) (code message : Option String) (w : Option ℕ) (t : Jobs)
    → Finished k t
    → Finished k (mark_status now i s code message w t).0
unfolding mark_status
mark_status-Finished now k i s code message w t h = elim (Option-cases (get_row job_key i t)) [
  | inl e ↦ rw (e, mark_status) h
  | inr (m, e) ↦ elim (Bool-cases (is_terminal m.status)) [
    | inl b ↦ rw (e, b, mark_status) h
    | inr b ↦
        rw (e, b, mark_status)
          (modify_row-Finished k i _ t (mark_fields-id s now code message w)
            (λ m' e' d. ground arith) h)
  ]
]

set_worker-id : (w : Option ℕ) (m : ScanJob) → (set_worker w m).id ≡ m.id
set_worker-id w m = ground arith

set_worker-status : (w : Option ℕ) (m : ScanJob) → (set_worker w m).status ≡ m.status
set_worker-status w m = ground arith

apply-Finished : (op : Op) (k : ℕ) (t : Jobs) → Finished k t → Finished k (apply op t)
unfolding apply update_progress record_heartbeat try_claim_for_execution try_reclaim_stale_for_retry
apply-Finished (create now job) k t h = create_job-Finished now k job t h
apply-Finished (update now job) k t h = update_job-Finished now k job t h
apply-Finished (progress now i p step w) k t h =
    assign-Finished k i _ t (λ m. set_worker-id w _) (λ m. set_worker-status w _) h
apply-Finished (heartbeat now i w) k t h =
    assign-Finished k i _ t (λ m. set_worker-id w _) (λ m. set_worker-status w _) h
apply-Finished (mark now i s code message w) k t h =
    mark_status-Finished now k i s code message w t h
apply-Finished (claim_job now i w) k t h =
    update_returning-Finished k i _ (claim now w) t (λ _. refl) (λ m g. ground arith) h
apply-Finished (reclaim now i threshold) k t h =
    update_returning-Finished k i _ (requeue now) t (λ _. refl) (λ m g. ground arith) h

-- A job that is completed, failed, timed out or cancelled stays in one of these statuses, whatever
-- methods are called after that, with whatever arguments, and its row is never lost.
pub run-Finished : (ops : List Op) (k : ℕ) (t : Jobs) → Finished k t → Finished k (run ops t)
unfolding run
run-Finished [] k t h = h
run-Finished (op ∷ ops) k t h = run-Finished ops k (apply op t) (apply-Finished op k t h)
