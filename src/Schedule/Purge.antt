-- ===== src/Schedule/Purge.antt =====
-- Old jobs are deleted: purge_expired_records_task of core/tasks/maintenance_tasks.py, in one
-- statement on PostgreSQL and in batches on SQLite. The purge of audit events, which configuration
-- switches on, runs the same loop over another table.
use sentinel_wp.Base.{
  ℕ, zero, suc, ◌+◌, Bool, true, false, not, ◌&&◌, ◌||◌, List, ◌==◌, ltb, keep, take, map, elem,
  length, count_if,
}
use sentinel_wp.ScanJob.{ScanJob, Jobs, same, completed, failed, cancelled}

-- The WHERE clause; it does not name TIMED_OUT.
abbrev pub is_expired : (job_cutoff : ℕ) → ScanJob → Bool
is_expired cutoff j =
    (same j.status completed || (same j.status failed || same j.status cancelled))
    && ltb j.created_at cutoff

-- DELETE FROM scan_jobs WHERE ...: the number of rows, and the rows that stay.
unfoldable pub purge_at_once : (job_cutoff : ℕ) → Jobs → ℕ × Jobs
purge_at_once cutoff jobs =
    (count_if (is_expired cutoff) jobs, keep (λ j. not (is_expired cutoff j)) jobs)

-- SELECT id FROM scan_jobs WHERE ... LIMIT
unfoldable pub batch : (batch_size job_cutoff : ℕ) → Jobs → List ℕ
batch batch_size cutoff jobs =
    map (λ (j : ScanJob). j.id) (take batch_size (keep (is_expired cutoff) jobs))

-- DELETE FROM scan_jobs WHERE id IN (...)
unfoldable pub delete_ids : List ℕ → Jobs → Jobs
delete_ids ids jobs = keep (λ j. not (elem j.id ids)) jobs

-- The loop, with the number of rounds that it may take.
unfoldable pub purge_batches : (fuel : ℕ) → (batch_size job_cutoff : ℕ) → ℕ × Jobs → ℕ × Jobs
unfolding batch delete_ids
purge_batches zero batch_size cutoff r = r
purge_batches (suc fuel) batch_size cutoff (total, jobs) =
    let ids = batch batch_size cutoff jobs in
    let rest : ℕ × Jobs = (total + length ids, delete_ids ids jobs) in
    elim (length ids == 0) [
      | true ↦ (total, jobs)
      | false ↦ elim (ltb (length ids) batch_size) [
        | true ↦ rest
        | false ↦ purge_batches fuel batch_size cutoff rest
      ]
    ]
