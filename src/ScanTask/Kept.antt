-- ===== src/ScanTask/Kept.antt =====
-- Writes of core/db/repositories/scan_job_repo.py that leave the attempts of a job alone.
use Prim.Native.String.{String}
use sentinel_wp.Base.{
  ℕ, ◌≡◌, refl, sym, ◌∙◌, subst, Bool, Option, some, false, not, ◌&&◌, ◌==◌, arith, inl, inr,
  Option-cases, Bool-cases, is_some,
}
use sentinel_wp.Base.Table.{get_row, modify_row, get_row-modify_row}
use sentinel_wp.ScanJob.{ScanJob, ScanJobStatus, Jobs, job_key, is_terminal}
use sentinel_wp.ScanJob.Queue.{
  update_job, overwrite, mark_status, update_returning, assign, set_worker, mark_fields,
}

-- The job under `k` is in the table, with these attempts.
abbrev pub HasAttempts : ℕ → ℕ → ℕ → Jobs → Type 0
HasAttempts k attempt max_attempts jobs =
    (j : ScanJob) × (get_row job_key k jobs ≡ some j)
    × (j.attempt ≡ attempt)
    × (j.max_attempts ≡ max_attempts)

-- A change that keeps the id and the attempts of a row.
abbrev pub IsWork : (ScanJob → ScanJob) → Type 0
IsWork f =
    (m : ScanJob)
    → ((f m).id ≡ m.id) × ((f m).attempt ≡ m.attempt) × ((f m).max_attempts ≡ m.max_attempts)

modify_row-HasAttempts :
    (k i a b : ℕ) (f : ScanJob → ScanJob) (t : Jobs)
    → IsWork f
    → HasAttempts k a b t
    → HasAttempts k a b (modify_row job_key i f t)
modify_row-HasAttempts k i a b f t w (j, e, p, q) = elim (Bool-cases (k == i)) [
  | inl s ↦ (
    f j,
    get_row-modify_row job_key k i f t (λ m. (w m).0) ∙ ground (arith, s, e),
    (w j).1 ∙ p,
    (w j).2 ∙ q,
  )
  | inr s ↦ (j, get_row-modify_row job_key k i f t (λ m. (w m).0) ∙ ground (arith, s, e), p, q)
]

pub assign-HasAttempts :
    (k i a b : ℕ) (f : ScanJob → ScanJob) (t : Jobs)
    → IsWork f
    → HasAttempts k a b t
    → HasAttempts k a b (assign i f t).0
assign-HasAttempts k i a b f t w h = elim (Bool-cases (is_some (get_row job_key i t))) [
  | inl e ↦ rw e (modify_row-HasAttempts k i a b f t w h)
  | inr e ↦ rw e h
]

pub update_returning-HasAttempts :
    (k i a b : ℕ) (guard : ScanJob → Bool) (f : ScanJob → ScanJob) (t : Jobs)
    → IsWork f
    → HasAttempts k a b t
    → HasAttempts k a b (update_returning i guard f t).0
update_returning-HasAttempts k i a b guard f t w h = elim (Option-cases (get_row job_key i t)) [
  | inl e ↦ rw (e, update_returning) h
  | inr (m, e) ↦ elim (Bool-cases (guard m)) [
    | inl g ↦ rw (e, g, update_returning) (modify_row-HasAttempts k i a b f t w h)
    | inr g ↦ rw (e, g, update_returning) h
  ]
]

mark_fields-IsWork :
    (s : ScanJobStatus) (now : ℕ) (code message : Option String) (w : Option ℕ)
    → IsWork (λ m.
      set_worker w
        (mark_fields s now code message (record m { status = s; updated_at = some now })))
mark_fields-IsWork s now code message w m = ground arith

pub mark_status-HasAttempts :
    (now k i a b : ℕ) (s : ScanJobStatus) (code message : Option String) (w : Option ℕ) (t : Jobs)
    → HasAttempts k a b t
    → HasAttempts k a b (mark_status now i s code message w t).0
unfolding mark_status
mark_status-HasAttempts now k i a b s code message w t h =
    elim (Option-cases (get_row job_key i t)) [
      | inl e ↦ rw (e, mark_status) h
      | inr (m, e) ↦ elim (Bool-cases (is_terminal m.status)) [
        | inl g ↦ rw (e, g, mark_status) h
        | inr g ↦
            rw (e, g, mark_status)
              (modify_row-HasAttempts k i a b _ t (mark_fields-IsWork s now code message w) h)
      ]
    ]

-- A job that `update_job` is called with has the attempts of the row that it was read from, or
-- `update_job` does not write it, since the row is finished and the job is not.
abbrev pub KeepsAttempts : ScanJob → Jobs → Type 0
KeepsAttempts job t =
    (m : ScanJob)
    → get_row job_key job.id t ≡ some m
    → (is_terminal m.status && not (is_terminal job.status)) ≡ false
    → (job.attempt ≡ m.attempt) × (job.max_attempts ≡ m.max_attempts)

pub update_job-HasAttempts :
    (now k a b : ℕ) (job : ScanJob) (t : Jobs)
    → KeepsAttempts job t
    → HasAttempts k a b t
    → HasAttempts k a b (update_job now job t).0
unfolding update_job
update_job-HasAttempts now k a b job t keeps (j, e, p, q) =
    elim (Option-cases (get_row job_key job.id t)) [
      | inl n ↦ rw (n, update_job) (j, e, p, q)
      | inr (m, n) ↦ elim (Bool-cases (is_terminal m.status && not (is_terminal job.status))) [
        | inl g ↦ rw (n, g, update_job) (j, e, p, q)
        | inr g ↦
            let f = overwrite now job in
            let read = get_row-modify_row job_key k job.id f t (λ x. refl) in
            let (u, v) = keeps m n g in
            elim (Bool-cases (k == job.id)) [
              | inl s ↦
                  let one : m ≡ j = ground (arith, s, n, e) in
                  rw (n, g, update_job)
                    (
                      overwrite now job m,
                      read ∙ ground (arith, s, n),
                      u ∙ subst (λ x. x.attempt ≡ a) (sym one) p,
                      v ∙ subst (λ x. x.max_attempts ≡ b) (sym one) q,
                    )
              | inr s ↦ rw (n, g, update_job) (j, read ∙ ground (arith, s, e), p, q)
            ]
      ]
    ]
