-- ===== src/ScanJob/Stale.antt =====
-- Stale jobs go back into the queue: core/db/repositories/scan_job_repo.py.
use sentinel_wp.Base.{
  ℕ, ◌+◌, ◌-◌, ◌≤◌, ◌<◌, ◌≡◌, ◌↔◌, refl, inl, inr, true, false, not, ◌&&◌, ◌||◌, Option, none, some,
  [], ◌∷◌, arith, is_some, Bool-cases, In, In-keep, keep-In,
}
use sentinel_wp.Base.Table.{get_row, modify_row}
use sentinel_wp.ScanJob.{ScanJob, ScanJobStatus, running, same, Jobs, job_key}
use sentinel_wp.ScanJob.Queue.{
  try_reclaim_stale_for_retry, try_claim_for_execution, claim, requeue, before, is_stale,
  record_heartbeat, heartbeat_row, assign,
}
use sentinel_wp.ScanJob.Queries.{find_stale_jobs, is_listed_stale}
use sentinel_wp.ScanJob.Claims.{
  update_returning-true, update_returning-false, get_row-modified, try_claim_cases,
}

get_row-In : (k : ℕ) (t : Jobs) (j : ScanJob) → get_row job_key k t ≡ some j → In j t
get_row-In k [] j e = cc
get_row-In k (x ∷ t) j e = ground (arith, get_row-In k t j)

-- The worker was last heard of before the cutoff: by its heartbeat, or if it sent none by its start.
abbrev pub SilentSince : (cutoff : ℕ) (heartbeat start : Option ℕ) → Type 0
SilentSince cutoff (some h) start = h < cutoff
SilentSince cutoff none (some s) = s < cutoff
SilentSince cutoff none none = ⊥

abbrev pub IsSilent : (cutoff : ℕ) → ScanJob → Type 0
IsSilent cutoff j = (j.status ≡ running) × SilentSince cutoff j.heartbeat_at j.started_at

same-running : (s : ScanJobStatus) → (same s running ≡ true) ↔ (s ≡ running)
same-running s = ground arith

silent_iff :
    (cutoff : ℕ) (s : ScanJobStatus) (heartbeat start : Option ℕ)
    → ((same s running
          && ((is_some heartbeat && before cutoff heartbeat)
              || (not (is_some heartbeat) && (is_some start && before cutoff start))))
        ≡ true)
      ↔ ((s ≡ running) × SilentSince cutoff heartbeat start)
silent_iff cutoff s none none = ground (arith, same-running s)
silent_iff cutoff s none (some t) = ground (arith, same-running s)
silent_iff cutoff s (some h) none = ground (arith, same-running s)
silent_iff cutoff s (some h) (some t) = ground (arith, same-running s)

-- The jobs that are listed as stale are the running ones whose worker was last heard of before the
-- cutoff, by its heartbeat or without one by the start, and a reclaim at the same time gives back
-- just these: the job then waits as one more attempt, and any worker may claim it at any time. A
-- reclaim of any other job changes nothing.
pub reclaim_iff_IsSilent :
    (now k threshold : ℕ) (t : Jobs) (j : ScanJob)
    → get_row job_key k t ≡ some j
    → let (t', r) = try_reclaim_stale_for_retry now k threshold t in
      (In j (find_stale_jobs now threshold t) ↔ IsSilent (now - threshold) j)
      × (IsSilent (now - threshold) j
          → (r ≡ some (requeue now j))
            × ((later w : ℕ)
                → (try_claim_for_execution later k w t').1 ≡ some (claim later w (requeue now j))))
      × (¬ IsSilent (now - threshold) j → (r ≡ none) × (t' ≡ t))
unfolding try_reclaim_stale_for_retry find_stale_jobs
reclaim_iff_IsSilent now k threshold t j e =
    let cutoff = now - threshold in
    let exact = silent_iff cutoff j.status j.heartbeat_at j.started_at in
    (
      (
        (λ listed. exact.0 ((In-keep (is_listed_stale cutoff) j t listed).1)),
        λ silent. keep-In (is_listed_stale cutoff) j t (get_row-In k t j e) (exact.1 silent),
      ),
      (λ silent.
          rw (update_returning-true k (is_stale cutoff) (requeue now) t j e (exact.1 silent)) (
            refl,
            λ later w.
                ((try_claim_cases later k w (modify_row job_key k (requeue now) t) (requeue now j)
                    (get_row-modified k (requeue now) t j (λ _. refl) e)).0
                  refl).0,
          )),
      λ fresh. elim (Bool-cases (is_stale cutoff j)) [
        | inl s ↦ absurd (fresh (exact.0 s))
        | inr s ↦ rw (update_returning-false k (is_stale cutoff) (requeue now) t j e s) (refl, refl)
      ],
    )

heartbeat-id : (sent : ℕ) (w : Option ℕ) (m : ScanJob) → (heartbeat_row sent w m).id ≡ m.id
heartbeat-id sent w m = ground arith

fresh_heartbeat :
    (sent now threshold : ℕ) (w : Option ℕ) (m : ScanJob)
    → now ≤ sent + threshold
    → is_stale (now - threshold) (heartbeat_row sent w m) ≡ false
fresh_heartbeat sent now threshold w m h = ground arith

assign-some :
    (k : ℕ) (f : ScanJob → ScanJob) (t : Jobs) (j : ScanJob)
    → get_row job_key k t ≡ some j
    → assign k f t ≡ (modify_row job_key k f t, true)
assign-some k f t j e = ground arith

-- A worker that has sent a heartbeat keeps its job: until more than the threshold has passed since
-- then, a reclaim changes nothing.
pub heartbeat_protects :
    (sent now k threshold : ℕ) (w : Option ℕ) (t : Jobs) (j : ScanJob)
    → get_row job_key k t ≡ some j
    → now ≤ sent + threshold
    → let t' = (record_heartbeat sent k w t).0 in
      try_reclaim_stale_for_retry now k threshold t' ≡ (t', none)
unfolding try_reclaim_stale_for_retry record_heartbeat
heartbeat_protects sent now k threshold w t j e h =
    let f = heartbeat_row sent w in
    rw (assign-some k f t j e) (
      update_returning-false k (is_stale (now - threshold)) (requeue now) (modify_row job_key k f t)
        (f j) (get_row-modified k f t j (heartbeat-id sent w) e)
        (fresh_heartbeat sent now threshold w j h))
