-- ===== src/ScanTask/Starvation.antt =====
-- Deliveries while a limit is exceeded: run_scan_task of core/tasks/scan_tasks.py.
use sentinel_wp.Base.{
  ℕ, ◌≡◌, refl, ◌≢◌, ◌≤◌, ◌<◌, ◌⊎◌, Bool, true, Option, none, some, List, [], ◌∷◌, arith, inl, inr,
  Bool-cases, All, ◌||◌, ◌&&◌, ◌==◌, count_if,
}
use sentinel_wp.Base.Table.{get_row}
use sentinel_wp.ScanJob.{ScanJob, Jobs, job_key, is_terminal, same, queued}
use sentinel_wp.ScanJob.Queries.{
  has_asset, count_active_jobs_for_asset, count_active_jobs_for_tenant, count_active_jobs_global,
}
use sentinel_wp.ScanTask.{Limits, exceeds, asset_busy, admit}
use sentinel_wp.ScanTask.Execution.{Delivery, Db, run_scan_task, run_admitted}

-- The jobs that only wait in the queue, among those of interest.
abbrev pub waiting : (ScanJob → Bool) → Jobs → ℕ
waiting of_interest = count_if (λ j. same j.status queued && of_interest j)

abbrev pub AssetWaits : Limits → Option ℕ → Jobs → Type 0
AssetWaits l none jobs = ⊥
AssetWaits l (some a) jobs = (a ≢ 0) × (l.per_asset < waiting (λ j. has_asset a j.asset_id) jobs)

-- The job that is delivered is in the table, and more jobs than the limit of its asset, of its
-- tenant or of all wait in the queue.
abbrev pub IsCrowded : Db → Delivery → Type 0
IsCrowded db d =
    (j : ScanJob) × (get_row job_key d.scan_job_id db.jobs ≡ some j)
    × (AssetWaits d.limits j.asset_id db.jobs
        ⊎ (d.limits.per_tenant < waiting (λ q. q.tenant_id == j.tenant_id) db.jobs)
        ⊎ (d.limits.global < waiting (λ q. true) db.jobs))

-- What `admit` tests: one active job more than a limit.
abbrev IsBlocked : Db → Delivery → Type 0
IsBlocked db d =
    (j : ScanJob) × (get_row job_key d.scan_job_id db.jobs ≡ some j)
    × ((asset_busy d.limits j.asset_id db.jobs
          || (exceeds (count_active_jobs_for_tenant j.tenant_id db.jobs) d.limits.per_tenant
              || exceeds (count_active_jobs_global db.jobs) d.limits.global))
        ≡ true)

waiting-asset :
    (a : ℕ) (t : Jobs) → waiting (λ j. has_asset a j.asset_id) t ≤ count_active_jobs_for_asset a t
unfolding count_active_jobs_for_asset
waiting-asset a [] = omega arith
waiting-asset a (j ∷ t) = ground (arith, waiting-asset a t)

waiting-tenant :
    (n : ℕ) (t : Jobs) → waiting (λ j. j.tenant_id == n) t ≤ count_active_jobs_for_tenant n t
unfolding count_active_jobs_for_tenant
waiting-tenant n [] = omega arith
waiting-tenant n (j ∷ t) = ground (arith, waiting-tenant n t)

waiting-global : (t : Jobs) → waiting (λ j. true) t ≤ count_active_jobs_global t
unfolding count_active_jobs_global
waiting-global [] = omega arith
waiting-global (j ∷ t) = ground (arith, waiting-global t)

exceeds_of : (waits active limit : ℕ) → waits ≤ active → limit < waits → exceeds active limit ≡ true
exceeds_of waits active limit h l = ground arith

asset_busy_of : (l : Limits) (a : Option ℕ) (t : Jobs) → AssetWaits l a t → asset_busy l a t ≡ true
asset_busy_of l none t h = absurd h
asset_busy_of l (some a) t (nonzero, h) =
    ground (arith, exceeds_of _ _ l.per_asset (waiting-asset a t) h)

crowded-IsBlocked : (d : Delivery) (db : Db) → IsCrowded db d → IsBlocked db d
crowded-IsBlocked d db (j, e, inl a) =
    (j, e, ground (arith, asset_busy_of d.limits j.asset_id db.jobs a))
crowded-IsBlocked d db (j, e, inr (inl n)) = (
  j,
  e,
  ground (arith, exceeds_of _ _ d.limits.per_tenant (waiting-tenant j.tenant_id db.jobs) n),
)
crowded-IsBlocked d db (j, e, inr (inr n)) =
    (j, e, ground (arith, exceeds_of _ _ d.limits.global (waiting-global db.jobs) n))

-- One delivery after the other.
unfoldable pub deliver : List Delivery → Db → Db
unfolding run_scan_task
deliver [] db = db
deliver (d ∷ ds) db = deliver ds (run_scan_task d db).1

blocked_delivery : (d : Delivery) (db : Db) → IsBlocked db d → (run_scan_task d db).1 ≡ db
unfolding run_scan_task run_admitted admit
blocked_delivery d db (j, e, b) = elim (Bool-cases (is_terminal j.status)) [
  | inl t ↦ rw (e, t) refl
  | inr t ↦ elim (Bool-cases (asset_busy d.limits j.asset_id db.jobs)) [
    | inl a ↦ rw (e, t, a) refl
    | inr a ↦
        elim (Bool-cases
          (exceeds (count_active_jobs_for_tenant j.tenant_id db.jobs) d.limits.per_tenant)) [
            | inl c ↦ rw (e, t, a, c) refl
            | inr c ↦
                let g : exceeds (count_active_jobs_global db.jobs) d.limits.global ≡ true =
                  ground (arith, rw (a, c) at b) in
                rw (e, t, a, c, g) refl
          ]
  ]
]

-- Jobs that wait block each other, though none of them runs: while more jobs than the limit of their
-- asset, of their tenant or of all wait in the queue, no delivery of a job of that asset or tenant,
-- or of any, changes a job, a scan or a finding, however often, in whatever order and by whatever
-- workers they are delivered.
pub blocked_for_ever : (ds : List Delivery) (db : Db) → All (IsCrowded db) ds → deliver ds db ≡ db
unfolding deliver
blocked_for_ever [] db h = refl
blocked_for_ever (d ∷ ds) db (b, h) =
    rw (blocked_delivery d db (crowded-IsBlocked d db b)) (blocked_for_ever ds db h)
