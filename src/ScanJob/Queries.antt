-- ===== src/ScanJob/Queries.antt =====
-- The methods of ScanJobRepository that read: core/db/repositories/scan_job_repo.py.
use sentinel_wp.Base.{
  ℕ, ◌-◌, Bool, true, false, not, is_some, ◌&&◌, ◌||◌, Option, none, some, List, ◌==◌, keep, find,
  take, drop, count_if,
}
use sentinel_wp.Base.Sort.{sort_desc}
use sentinel_wp.ScanJob.{ScanJobStatus, running, ScanJob, Jobs, same, is_active}
use sentinel_wp.ScanJob.Queue.{before}

-- `if tenant_id: stmt = stmt.where(tenant_id == ...)`
abbrev pub in_tenant : Option ℕ → ℕ → Bool
in_tenant none owner = true
in_tenant (some t) owner = t == 0 || t == owner

unfoldable pub get_by_id : (job_id : ℕ) → Option ℕ → Jobs → Option ScanJob
get_by_id job_id tenant_id = find (λ j. j.id == job_id && in_tenant tenant_id j.tenant_id)

-- The latest by creation.
unfoldable pub get_by_scan_id : (scan_id : ℕ) → Option ℕ → Jobs → Option ScanJob
unfolding sort_desc
get_by_scan_id scan_id tenant_id jobs =
    find (λ j. true)
      (sort_desc (λ j. j.created_at)
        (keep (λ j. j.scan_id == scan_id && in_tenant tenant_id j.tenant_id) jobs))

abbrev has_status : Option ScanJobStatus → ScanJobStatus → Bool
has_status none s = true
has_status (some t) s = same s t

unfoldable pub list_jobs :
    Option ℕ → Option ScanJobStatus → (limit offset : ℕ) → Jobs → List ScanJob
unfolding sort_desc
list_jobs tenant_id status limit offset jobs = take limit (
    drop offset (
      sort_desc (λ j. j.queued_at)
        (keep (λ j. in_tenant tenant_id j.tenant_id && has_status status j.status) jobs)))

-- The WHERE of `find_stale_jobs`.
abbrev pub is_listed_stale : (cutoff : ℕ) → ScanJob → Bool
is_listed_stale cutoff m =
    same m.status running
    && ((is_some m.heartbeat_at && before cutoff m.heartbeat_at)
        || (not (is_some m.heartbeat_at) && (is_some m.started_at && before cutoff m.started_at)))

unfoldable pub find_stale_jobs : (now stale_threshold : ℕ) → Jobs → List ScanJob
find_stale_jobs now stale_threshold = keep (is_listed_stale (now - stale_threshold))

abbrev pub has_asset : ℕ → Option ℕ → Bool
has_asset a none = false
has_asset a (some b) = a == b

unfoldable pub count_active_jobs_for_tenant : ℕ → Jobs → ℕ
count_active_jobs_for_tenant tenant_id =
    count_if (λ j. j.tenant_id == tenant_id && is_active j.status)

unfoldable pub count_active_jobs_global : Jobs → ℕ
count_active_jobs_global = count_if (λ j. is_active j.status)

unfoldable pub count_active_jobs_for_asset : ℕ → Jobs → ℕ
count_active_jobs_for_asset asset_id =
    count_if (λ j. has_asset asset_id j.asset_id && is_active j.status)
