-- ===== src/Findings/Verified.antt =====
-- The reconciliation after a scan, and process_scan_findings as a whole: core/db/adapter.py.
use sentinel_wp.Base.{
  ℕ, ◌≡◌, ◌≢◌, refl, ◌∙◌, Bool, true, false, not, ◌&&◌, ◌||◌, some, List, [], ◌∷◌, ◌==◌, arith,
  if◌then◌else◌, inl, inr, Bool-cases, elem, All, any_of,
}
use sentinel_wp.Base.Text.{Text}
use sentinel_wp.Lifecycle.{value, verified}
use sentinel_wp.Findings.{Finding, Store, done, row}
use sentinel_wp.Findings.Scans.{Context}
use sentinel_wp.Findings.Reconciliation.{verified_finding, verify_absent}
use sentinel_wp.Findings.Rounds.{saved, verify_one_seen, verify_one_absent}
use sentinel_wp.Findings.Unique.{IsSound, IsSound-saved, Covers-IsRead}
use sentinel_wp.Findings.Observed.{Holds, Holds-saved, row-saved-other}

-- The finding stands in the table as it was read: its key and its asset.
abbrev pub IsStored : List Finding → Finding → Type 0
IsStored fs f =
    (g : Finding) × (row f.id fs ≡ some g)
    × (g.tenant_id ≡ f.tenant_id)
    × (g.fingerprint ≡ f.fingerprint)
    × (g.asset_id ≡ f.asset_id)

-- A round of the reconciliation verifies the row under `j`.
abbrev pub hit : List ℕ → ℕ → List Finding → Bool
hit fps j pvs = any_of (λ (pv : Finding). pv.id == j && not (elem pv.fingerprint fps)) pvs

abbrev pub status_if : Bool → Text → Text
status_if b status = if b then value verified else status

-- A finding of the table, after the save of the verified `pv`.
Holds-verified :
    (c : Context) (pv e : Finding) (j : ℕ) (fs : List Finding)
    → e.tenant_id ≢ 0
    → row j fs ≡ some e
    → IsStored fs pv
    → Holds j e (status_if (pv.id == j) e.status) (saved c.now (verified_finding c pv) fs)
Holds-verified c pv e j fs n h (g, p, t, k, a) = elim (Bool-cases (pv.id == j)) [
  | inl i ↦ rw i (
      Holds-saved c.now j (verified_finding c pv) e fs (ground arith) n (ground arith)
        (ground arith) (ground arith))
  | inr i ↦ rw i (
    e,
    rw (row-saved-other c.now j (verified_finding c pv) fs (ground arith)) h,
    refl,
    refl,
    refl,
    refl,
  )
]

and_true : (b : Bool) → (b && not false) ≡ b
and_true b = ground arith

and_false : (b : Bool) → (b && not true) ≡ false
and_false b = ground arith

-- What the loop over the pending findings leaves.
pub record Verification (c : Context) (fps : List ℕ) (pvs : List Finding) (s s1 : Store)
    : Type 0 where
  pub returns : verify_absent c fps pvs s ≡ done s1
  pub sound : IsSound s1.findings
  pub kept :
      (j : ℕ) (e : Finding)
      → row j s.findings ≡ some e
      → Holds j e (status_if (hit fps j pvs) e.status) s1.findings

-- Saves of verified findings leave every finding stored.
IsStored-after :
    (i : ℕ) (fs fs1 pvs : List Finding)
    → ((j : ℕ) (e : Finding) → row j fs ≡ some e → Holds j e (status_if (i == j) e.status) fs1)
    → All (IsStored fs) pvs
    → All (IsStored fs1) pvs
IsStored-after i fs fs1 [] h a = a
IsStored-after i fs fs1 (pv ∷ pvs) h ((g, p, t, k, x), a) =
    let (g', p', t', k', x', st) = h pv.id g p in
    ((g', p', t' ∙ t, k' ∙ k, x' ∙ x), IsStored-after i fs fs1 pvs h a)

Holds-twice :
    (j : ℕ) (e : Finding) (a b : Bool) (fs1 fs2 : List Finding)
    → Holds j e (status_if a e.status) fs1
    → ((g : Finding) → row j fs1 ≡ some g → Holds j g (status_if b g.status) fs2)
    → Holds j e (status_if (a || b) e.status) fs2
Holds-twice j e a b fs1 fs2 (g, p, t, k, x, st) next =
    let (h, p', t', k', x', st') = next g p in (h, p', t' ∙ t, k' ∙ k, x' ∙ x, ground arith)

pub verify_absent-Verification :
    (c : Context) (fps : List ℕ) (pvs : List Finding) (s : Store)
    → IsSound s.findings
    → All (IsStored s.findings) pvs
    → (s1 : Store) × Verification c fps pvs s s1
unfolding verify_absent
verify_absent-Verification c fps [] s w a =
    (s, record { returns = refl; sound = w; kept = λ j e q. (e, q, refl, refl, refl, refl) })
verify_absent-Verification c fps (pv ∷ pvs) s w (h, a) =
    elim (Bool-cases (elem pv.fingerprint fps)) [
      | inl e ↦
          let (s1, v) = verify_absent-Verification c fps pvs s w a in
          (
            s1,
            record {
              returns = rw (verify_one_seen c fps pv s e) v.returns;
              sound = v.sound;
              kept = λ j g q. rw (e, and_false (pv.id == j)) (v.kept j g q);
            },
          )
      | inr e ↦
          let (s2, o, f, z) = verify_one_absent c fps pv s e in
          let (g, p, t, k, x) = h in
          let w2 : IsSound s2.findings = rw f (
            IsSound-saved c.now (verified_finding c pv) s.findings w
              (Covers-IsRead (verified_finding c pv) s.findings w (g, p, t, k))) in
          let step : (j : ℕ) (y : Finding)
              → row j s.findings ≡ some y
              → Holds j y (status_if (pv.id == j) y.status) s2.findings =
            λ j y q. rw f (Holds-verified c pv y j s.findings (w.tenanted j y q) q h) in
          let (s1, v) =
            verify_absent-Verification c fps pvs s2 w2
              (IsStored-after (pv.id) s.findings s2.findings pvs step a) in
          (
            s1,
            record {
              returns = rw o v.returns;
              sound = v.sound;
              kept = λ j y q.
                  rw (e, and_true (pv.id == j))
                    (Holds-twice j y (pv.id == j) (hit fps j pvs) s2.findings s1.findings
                      (step j y q) (λ g. v.kept j g));
            },
          )
    ]
