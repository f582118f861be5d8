-- ===== src/Findings/Effect.antt =====
-- process_scan_findings of core/db/adapter.py as a whole.
use sentinel_wp.Base.{
  ℕ, ◌≡◌, ◌≢◌, refl, ◌∙◌, Bool, not, ◌&&◌, some, List, [], ◌∷◌, ◌==◌, arith, if◌then◌else◌, inl,
  inr, Bool-cases, elem, map, All, In, In-keep,
}
use sentinel_wp.Base.Text.{Text, text_eq}
use sentinel_wp.Base.Table.{any_of-keep-row, get_row-In}
use sentinel_wp.Lifecycle.{value, verified, verification_pending}
use sentinel_wp.Findings.{Finding, Store, done, row, in_tenant}
use sentinel_wp.Findings.Scans.{Context, RawFinding}
use sentinel_wp.Findings.Reconciliation.{
  is_scan_completed, pending_verification, reconcile, process_scan_findings,
}
use sentinel_wp.Findings.Unique.{IsSound}
use sentinel_wp.Findings.Observed.{Holds, seen, fingerprints, status_when_seen, process_all-Pass}
use sentinel_wp.Findings.Verified.{IsStored, hit, status_if, verify_absent-Verification}

-- The scan may verify: it names an asset and it is completed.
abbrev pub reconciles : Context → Store → Bool
reconciles c s = not (c.asset_id == 0) && is_scan_completed c s

abbrev is_pending : Context → Finding → Bool
is_pending c f =
    f.asset_id == c.asset_id
    && in_tenant c.tenant_id f.tenant_id
    && text_eq f.status (value verification_pending)

-- The status that a finding has after the call, from the finding before.
abbrev pub status_after : Context → List RawFinding → Store → Finding → Text
status_after c rfs s e =
    if seen c rfs e
    then status_when_seen e.status
    else if reconciles c s && is_pending c e
    then value verified
    else e.status

-- What the call returns and leaves.
pub record Effect (c : Context) (rfs : List RawFinding) (s : Store) (r : List Finding × Store)
    : Type 0 where
  pub returns : process_scan_findings c rfs s ≡ done r
  pub sound : IsSound (r.1).findings
  pub kept :
      (j : ℕ) (e : Finding)
      → All (λ (rf : RawFinding). rf.finding.id ≢ j) rfs
      → row j s.findings ≡ some e
      → Holds j e (status_after c rfs s e) (r.1).findings

All-IsStored :
    (fs : List Finding) (xs : List Finding)
    → IsSound fs
    → ((f : Finding) → In f xs → In f fs)
    → All (IsStored fs) xs
All-IsStored fs [] w h = tt
All-IsStored fs (x ∷ xs) w h = (
  (x, get_row-In (λ (f : Finding). f.id) fs x w.keyed (h x (inl refl)), refl, refl, refl),
  All-IsStored fs xs w (λ f i. h f (inr i)),
)

pending-IsStored :
    (c : Context) (s : Store)
    → IsSound s.findings
    → All (IsStored s.findings) (pending_verification c s)
unfolding pending_verification
pending-IsStored c s w =
    All-IsStored s.findings (pending_verification c s) w
      (λ f i. (In-keep (is_pending c) f s.findings i).0)

hit_iff :
    (c : Context) (fps : List ℕ) (s : Store) (j : ℕ) (e : Finding)
    → IsSound s.findings
    → row j s.findings ≡ some e
    → hit fps j (pending_verification c s) ≡ (is_pending c e && not (elem e.fingerprint fps))
unfolding pending_verification
hit_iff c fps s j e w h =
    any_of-keep-row (λ (f : Finding). f.id) j (is_pending c) (λ f. not (elem f.fingerprint fps))
      s.findings e w.keyed h

scans_alike :
    (c : Context) (s s1 : Store)
    → s1.scans ≡ s.scans
    → is_scan_completed c s1 ≡ is_scan_completed c s
unfolding is_scan_completed
scans_alike c s s1 e = rw e refl

-- The status after the loop and the reconciliation.
status-both :
    (c : Context) (rfs : List RawFinding) (s : Store) (e g : Finding)
    → c.tenant_id ≢ 0
    → g.tenant_id ≡ e.tenant_id
    → g.fingerprint ≡ e.fingerprint
    → g.asset_id ≡ e.asset_id
    → g.status ≡ (if seen c rfs e then status_when_seen e.status else e.status)
    → (if reconciles c s
        then status_if (is_pending c g && not (elem g.fingerprint (fingerprints c rfs))) g.status
        else g.status)
      ≡ status_after c rfs s e
status-both c rfs s e g n t k a st = ground (arith)

-- The reconciliation on the table that the loop leaves.
reconcile-done :
    (c : Context) (xs : List Finding) (s : Store)
    → IsSound s.findings
    → (s1 : Store) × (reconcile c xs s ≡ done (xs, s1))
      × IsSound s1.findings
      × ((j : ℕ) (e : Finding)
          → row j s.findings ≡ some e
          → Holds j e
              (if reconciles c s
                then status_if
                    (is_pending c e
                      && not (elem e.fingerprint (map (λ (f : Finding). f.fingerprint) xs)))
                    e.status
                else e.status)
              s1.findings)
unfolding reconcile
reconcile-done c xs s w = elim (Bool-cases (reconciles c s)) [
  | inl b ↦
      let fps = map (λ (f : Finding). f.fingerprint) xs in
      let (s1, v) =
        verify_absent-Verification c fps (pending_verification c s) s w (pending-IsStored c s w) in
      (
        s1,
        rw (b, v.returns) refl,
        v.sound,
        λ j e h. rw b (rw (hit_iff c fps s j e w h) at (v.kept j e h)),
      )
  | inr b ↦ (s, rw b refl, w, λ j e h. rw b (e, h, refl, refl, refl, refl))
]

-- For a tenant and a table that is sound (one row for each id, one row for each fingerprint of a
-- tenant, a tenant in every row), the call returns and leaves a sound table. A finding that was
-- there, and whose id no raw finding has, is there afterwards with its tenant, fingerprint and
-- asset. If the scan saw its fingerprint, it is REOPENED when it was VERIFIED, CLOSED, REMEDIATED
-- or VERIFICATION_PENDING, and keeps its status otherwise. If the scan did not see it, it is
-- VERIFIED when it was VERIFICATION_PENDING, belongs to the scan's tenant and asset, and the scan
-- is COMPLETED, and keeps its status otherwise.
pub process_scan_findings-Effect :
    (c : Context) (rfs : List RawFinding) (s : Store)
    → c.tenant_id ≢ 0
    → IsSound s.findings
    → (r : List Finding × Store) × Effect c rfs s r
unfolding process_scan_findings
process_scan_findings-Effect c rfs s n w =
    let (r, p) = process_all-Pass c rfs s n w in
    let (s2, q, w2, k) = reconcile-done c (r.0) (r.1) p.sound in
    (
      (r.0, s2),
      record {
        returns = rw (p.returns, q) refl;
        sound = w2;
        kept = λ j e a h.
            let (g, y, t, f, x, st) = p.kept j e a h in
            let (g2, y2, t2, f2, x2, st2) = k j g y in
            (
              g2,
              y2,
              t2 ∙ t,
              f2 ∙ f,
              x2 ∙ x,
              st2
                  ∙ (rw (p.processed, scans_alike c s (r.1) p.scans)
                      (status-both c rfs s e g n t f x st)),
            );
      },
    )
