-- ===== src/ScanTask/Concurrency.antt =====
-- The limits on concurrent scans: the first part of run_scan_task of core/tasks/scan_tasks.py.
use sentinel_wp.Base.{
  ℕ, ◌≤◌, ◌≡◌, ◌≢◌, refl, sym, ap, Bool, true, false, Option, none, some, ◌==◌, ◌&&◌, arith, inl,
  inr, Option-cases, Bool-cases, count_if,
}
use sentinel_wp.Base.Table.{get_row, modify_row, count_if-modify_row}
use sentinel_wp.ScanJob.{ScanJob, Jobs, job_key, is_terminal, is_claimable, is_active}
use sentinel_wp.ScanJob.Queue.{try_claim_for_execution, claim}
use sentinel_wp.ScanJob.Queries.{
  count_active_jobs_for_asset, count_active_jobs_for_tenant, count_active_jobs_global, has_asset,
}
use sentinel_wp.ScanJob.Claims.{update_returning-true, update_returning-false}
use sentinel_wp.ScanTask.{Limits, claimed, exceeds, asset_busy, admit, after_lost_claim}

-- A delivery that claims the job `j`: it stood in the table, and none of the limits was exceeded.
pub record Claimed (l : Limits) (now k w : ℕ) (jobs jobs1 : Jobs) (job j : ScanJob) : Type 0 where
  pub found : get_row job_key k jobs ≡ some j
  pub claimable : is_claimable j.status ≡ true
  pub row : job ≡ claim now w j
  pub table : jobs1 ≡ modify_row job_key k (claim now w) jobs
  pub asset_free : asset_busy l j.asset_id jobs ≡ false
  pub tenant_free : exceeds (count_active_jobs_for_tenant j.tenant_id jobs) l.per_tenant ≡ false
  pub free : exceeds (count_active_jobs_global jobs) l.global ≡ false

lost_claim : (o : Option ScanJob) (job : ScanJob) → after_lost_claim o ≢ claimed job
lost_claim none job = λ h. cc
lost_claim (some x) job = ground arith

pub admit-Claimed :
    (l : Limits) (now k w : ℕ) (jobs jobs1 : Jobs) (job : ScanJob)
    → admit l now k w jobs ≡ (jobs1, claimed job)
    → (j : ScanJob) × Claimed l now k w jobs jobs1 job j
unfolding admit try_claim_for_execution
admit-Claimed l now k w jobs jobs1 job h = elim (Option-cases (get_row job_key k jobs)) [
  | inl e ↦ absurd (cc (ap (λ x. x.1) (rw e at h)))
  | inr (j, e) ↦ elim (Bool-cases (is_terminal j.status)) [
    | inl a ↦ absurd (cc (ap (λ x. x.1) (rw (e, a) at h)))
    | inr a ↦ elim (Bool-cases (asset_busy l j.asset_id jobs)) [
      | inl b ↦ absurd (cc (ap (λ x. x.1) (rw (e, a, b) at h)))
      | inr b ↦
          elim (Bool-cases (exceeds (count_active_jobs_for_tenant j.tenant_id jobs) l.per_tenant)) [
            | inl c ↦ absurd (cc (ap (λ x. x.1) (rw (e, a, b, c) at h)))
            | inr c ↦ elim (Bool-cases (exceeds (count_active_jobs_global jobs) l.global)) [
              | inl d ↦ absurd (cc (ap (λ x. x.1) (rw (e, a, b, c, d) at h)))
              | inr d ↦ elim (Bool-cases (is_claimable j.status)) [
                | inr f ↦ absurd (
                    lost_claim (get_row job_key k jobs) job (
                      ap (λ x. x.1)
                        (rw
                          (
                            e,
                            a,
                            b,
                            c,
                            d,
                            update_returning-false k (λ m. is_claimable m.status) (claim now w) jobs
                                j e f,
                          )
                          at h)))
                | inl f ↦
                    let g =
                      rw
                        (
                          e,
                          a,
                          b,
                          c,
                          d,
                          update_returning-true k (λ m. is_claimable m.status) (claim now w) jobs j
                              e f,
                        )
                        at h in
                    (
                      j,
                      record {
                        found = e;
                        claimable = f;
                        row = ground (arith, ap (λ x. x.1) g);
                        table = sym (ap (λ x. x.0) g);
                        asset_free = b;
                        tenant_free = c;
                        free = d;
                      },
                    )
              ]
            ]
          ]
    ]
  ]
]

active_kept :
    (p : ScanJob → Bool) (now k w : ℕ) (jobs : Jobs) (j : ScanJob)
    → get_row job_key k jobs ≡ some j
    → is_claimable j.status ≡ true
    → ((x : ScanJob) → p (claim now w x) ≡ p x)
    → count_if (λ x. p x && is_active x.status) (modify_row job_key k (claim now w) jobs)
      ≡ count_if (λ x. p x && is_active x.status) jobs
active_kept p now k w jobs j e c h =
    count_if-modify_row job_key (λ x. p x && is_active x.status) k (claim now w) jobs j e
      (ground (arith, h j))

-- A worker claims a job only while the limits hold: after a delivery that goes on with a job, the
-- active jobs of its tenant, all active jobs and, if it has an asset, those of its asset are at most
-- as many as the limits say.
pub claimed_within_limits :
    (l : Limits) (now k w : ℕ) (jobs jobs1 : Jobs) (job : ScanJob)
    → admit l now k w jobs ≡ (jobs1, claimed job)
    → (count_active_jobs_for_tenant job.tenant_id jobs1 ≤ l.per_tenant)
      × (count_active_jobs_global jobs1 ≤ l.global)
      × ((a : ℕ)
          → job.asset_id ≡ some a
          → a ≢ 0
          → count_active_jobs_for_asset a jobs1 ≤ l.per_asset)
unfolding count_active_jobs_for_tenant count_active_jobs_global count_active_jobs_for_asset
claimed_within_limits l now k w jobs jobs1 job h =
    let (j, c) = admit-Claimed l now k w jobs jobs1 job h in
    let kept : (p : ScanJob → Bool) → ((x : ScanJob) → p (claim now w x) ≡ p x) → _ =
      λ p q. active_kept p now k w jobs j c.found c.claimable q in
    (
      rw (c.row, c.table)
          (ground (arith, kept (λ x. x.tenant_id == j.tenant_id) (λ x. refl), c.tenant_free)),
      rw c.table (
          ground (
            arith,
            count_if-modify_row job_key (λ x. is_active x.status) k (claim now w) jobs j c.found,
            c.claimable,
            c.free,
          )),
      λ a e n. rw c.table (
          ground (
            arith,
            kept (λ x. has_asset a x.asset_id) (λ x. refl),
            c.asset_free,
            rw c.row at e,
            n,
          )),
    )
