-- ===== src/Schedule/Clogged.antt =====
-- Runs that the reconciliation does not come to: reconcile_orphaned_scheduled_runs of
-- core/tasks/maintenance_tasks.py.
use sentinel_wp.Base.{
  ℕ, ◌≤◌, ◌<◌, ◌≡◌, refl, inl, inr, Bool, false, ◌&&◌, Option, some, List, [], ◌∷◌, arith, ◌==◌,
  ltb, keep, All, In, In-take, In-keep, count_if, Bool-cases, Option-cases, subst, ◌≢◌, ap, ◌∙◌,
}
use sentinel_wp.Base.Sort.{
  sort_asc, sort_asc-IsAscending, In-sort_asc, count_if-sort_asc, take-few_lower,
}
use sentinel_wp.Base.Table.{get_row, Keyed, get_row-In}
use sentinel_wp.ScanJob.{ScanJob, Jobs, same, completed, failed}
use sentinel_wp.Schedule.{ScheduledRun}
use sentinel_wp.Schedule.Reconciliation.{
  Reconciled, update_run, fail_run, link_run, get_scan_job, verify_run, reconcile_run,
  reconcile_listed, is_orphan, orphaned_runs, reconcile_orphaned_scheduled_runs,
}

abbrev pub run_key : ScheduledRun → ℕ
run_key r = r.id

-- The run has a job that is neither COMPLETED nor FAILED.
abbrev pub IsUnsettled : Jobs → ScheduledRun → Type 0
IsUnsettled jobs r =
    (j : ScanJob) × ((r.scan_job_id == 0) ≡ false)
    × (get_scan_job r.scan_job_id r.tenant_id jobs ≡ some j)
    × (same j.status completed ≡ false)
    × (same j.status failed ≡ false)

listed_unsettled :
    (latest_job : ScheduledRun → Option ℕ) (jobs : Jobs) (rs : List ScheduledRun) (x : Reconciled)
    → All (IsUnsettled jobs) rs
    → reconcile_listed latest_job jobs rs x ≡ x
unfolding reconcile_listed reconcile_run verify_run
listed_unsettled latest_job jobs [] x h = refl
listed_unsettled latest_job jobs (r ∷ rs) x ((j, a, e, b, c), h) =
    rw (a, e, b, c, reconcile_listed) (listed_unsettled latest_job jobs rs x h)

-- While the oldest dispatched runs, as
-- many as one call takes, have jobs that are neither COMPLETED nor FAILED, a call changes no run and
-- counts none.
clogged :
    (latest_job : ScheduledRun → Option ℕ) (now threshold limit : ℕ) (jobs : Jobs)
    → (runs : List ScheduledRun) → All (IsUnsettled jobs) (orphaned_runs now threshold limit runs)
    → reconcile_orphaned_scheduled_runs latest_job now threshold limit jobs runs
      ≡ record { reconciled = 0; failed_count = 0; completed_count = 0; runs = runs }
unfolding reconcile_orphaned_scheduled_runs
clogged latest_job now threshold limit jobs runs h =
    listed_unsettled latest_job jobs (orphaned_runs now threshold limit runs)
      (record { reconciled = 0; failed_count = 0; completed_count = 0; runs = runs }) h

get_row-update_run :
    (k i : ℕ) (f : ScheduledRun → ScheduledRun) (rs : List ScheduledRun)
    → k ≢ i
    → ((r : ScheduledRun) → (f r).id ≡ r.id)
    → get_row run_key k (update_run i f rs) ≡ get_row run_key k rs
unfolding update_run
get_row-update_run k i f [] n same_id = refl
get_row-update_run k i f (r ∷ rs) n same_id =
    ground (arith, get_row-update_run k i f rs n same_id, same_id r)

-- One round leaves every run alone but its own.
reconcile_run-other :
    (latest_job : ScheduledRun → Option ℕ) (jobs : Jobs) (q : ScheduledRun) (x : Reconciled) (k : ℕ)
    → k ≢ q.id
    → get_row run_key k (reconcile_run latest_job jobs q x).runs ≡ get_row run_key k x.runs
unfolding reconcile_run link_run verify_run fail_run
reconcile_run-other latest_job jobs q x k n =
    let kept = λ (f : ScheduledRun → ScheduledRun) (same_id : (r : ScheduledRun) → (f r).id ≡ r.id).
      get_row-update_run k q.id f x.runs n same_id in
    elim (Bool-cases (q.scan_job_id == 0)) [
      | inl z ↦ elim (Option-cases (latest_job q)) [
        | inl e ↦ rw (z, e) (kept _ (λ r. refl))
        | inr (j, e) ↦ rw (z, e) (kept _ (λ r. refl))
      ]
      | inr z ↦ elim (Option-cases (get_scan_job q.scan_job_id q.tenant_id jobs)) [
        | inl e ↦ rw (z, e) (kept _ (λ r. refl))
        | inr (j, e) ↦ elim (Bool-cases (same j.status completed)) [
          | inl c ↦ rw (z, e, c) (kept _ (λ r. refl))
          | inr c ↦ elim (Bool-cases (same j.status failed)) [
            | inl b ↦ rw (z, e, c, b) (kept _ (λ r. refl))
            | inr b ↦ rw (z, e, c, b) refl
          ]
        ]
      ]
    ]

reconcile_listed-other :
    (latest_job : ScheduledRun → Option ℕ) (jobs : Jobs) (rs : List ScheduledRun) (x : Reconciled)
    (k : ℕ)
    → ((q : ScheduledRun) → In q rs → k ≢ q.id)
    → get_row run_key k (reconcile_listed latest_job jobs rs x).runs ≡ get_row run_key k x.runs
unfolding reconcile_listed
reconcile_listed-other latest_job jobs [] x k h = refl
reconcile_listed-other latest_job jobs (q ∷ rs) x k h =
    reconcile_listed-other latest_job jobs rs (reconcile_run latest_job jobs q x) k
      (λ p i. h p (inr i))
    ∙ reconcile_run-other latest_job jobs q x k (h q (inl refl))

count_if-keep :
    (p q : ScheduledRun → Bool) (rs : List ScheduledRun)
    → count_if q (keep p rs) ≡ count_if (λ r. p r && q r) rs
count_if-keep p q [] = refl
count_if-keep p q (r ∷ rs) = ground (arith, count_if-keep p q rs)

-- Fewer than `limit` orphaned runs are older than one that a call takes up.
listed_among_oldest :
    (now threshold limit : ℕ) (runs : List ScheduledRun) (r : ScheduledRun)
    → In r (orphaned_runs now threshold limit runs)
    → (count_if (λ q. is_orphan now threshold q && ltb q.created_at r.created_at) runs < limit)
      × In r runs
unfolding orphaned_runs
listed_among_oldest now threshold limit runs r i =
    let rank = λ (q : ScheduledRun). q.created_at in
    let older = λ (q : ScheduledRun). ltb q.created_at r.created_at in
    let orphans = keep (is_orphan now threshold) runs in
    let few =
      take-few_lower rank limit r (sort_asc rank orphans) (sort_asc-IsAscending rank orphans) i in
    (
      rw
          (
            ← count_if-keep (is_orphan now threshold) older runs,
            ← count_if-sort_asc rank older orphans,
          )
          few,
      (In-keep (is_orphan now threshold) r runs
          (In-sort_asc rank r orphans (In-take limit r (sort_asc rank orphans) i))).0,
    )

not_listed :
    (now threshold limit : ℕ) (runs : List ScheduledRun) (r : ScheduledRun)
    → Keyed run_key runs
    → get_row run_key r.id runs ≡ some r
    → limit ≤ count_if (λ q. is_orphan now threshold q && ltb q.created_at r.created_at) runs
    → (q : ScheduledRun) → In q (orphaned_runs now threshold limit runs)
    → r.id ≢ q.id
not_listed now threshold limit runs r keyed here many q i same =
    let (few, stands) = listed_among_oldest now threshold limit runs q i in
    let row = get_row-In run_key runs q keyed stands in
    let one : q ≡ r = ground (arith, row, here, same) in
    let few_r =
      subst
        (λ (z : ScheduledRun).
          count_if (λ p. is_orphan now threshold p && ltb p.created_at z.created_at) runs < limit)
        one few in
    omega (arith, few_r, many)

-- A call takes up the oldest dispatched runs, as many as its limit: where the ids of the runs are
-- unique and that many dispatched runs past the threshold are older than a run, a call leaves the run
-- as it is, whatever has become of its job. And if the runs that the call takes up have jobs that are
-- neither COMPLETED nor FAILED, such as cancelled or timed out ones, it changes no run at all.
pub newer_runs_wait :
    (latest_job : ScheduledRun → Option ℕ) (now threshold limit : ℕ) (jobs : Jobs)
    (runs : List ScheduledRun) (r : ScheduledRun)
    → Keyed run_key runs
    → get_row run_key r.id runs ≡ some r
    → limit ≤ count_if (λ q. is_orphan now threshold q && ltb q.created_at r.created_at) runs
    → let after = reconcile_orphaned_scheduled_runs latest_job now threshold limit jobs runs in
      (get_row run_key r.id after.runs ≡ some r)
      × (All (IsUnsettled jobs) (orphaned_runs now threshold limit runs) → after.runs ≡ runs)
newer_runs_wait latest_job now threshold limit jobs runs r keyed here many = (
  unfold reconcile_orphaned_scheduled_runs in
      (reconcile_listed-other latest_job jobs (orphaned_runs now threshold limit runs)
          (record { reconciled = 0; failed_count = 0; completed_count = 0; runs = runs }) r.id
          (not_listed now threshold limit runs r keyed here many)
        ∙ here),
  λ unsettled.
      ap (λ (x : Reconciled). x.runs) (clogged latest_job now threshold limit jobs runs unsettled),
)
