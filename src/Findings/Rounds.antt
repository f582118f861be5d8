-- ===== src/Findings/Rounds.antt =====
-- What one round of process_scan_findings writes: core/db/adapter.py.
use sentinel_wp.Base.{
  ℕ, ◌≡◌, refl, ap, ◌∙◌, Bool, true, false, Option, none, some, List, ◌==◌, if◌then◌else◌, inl, inr,
  Option-cases, elem,
}
use sentinel_wp.Base.Table.{put_row, get_row-put_row}
use sentinel_wp.Findings.{
  Finding, Store, done, row, saved_over, save_finding, is_locked, get_by_fingerprint,
  update_findings, add_history,
}
use sentinel_wp.Findings.Scans.{
  Context, RawFinding, identified, discovered, seen_again, should_reopen, process_known,
  process_new, process_one, process_as, add_if, store_observation, after_known, after_new,
}
use sentinel_wp.Findings.Reconciliation.{verified_finding, verify_one, after_verified}

-- The table after the save of `f`.
abbrev pub saved : ℕ → Finding → List Finding → List Finding
saved now f fs = put_row (λ (r : Finding). r.id) (saved_over now f (row f.id fs)) fs

id-saved_over : (now : ℕ) (f : Finding) (o : Option Finding) → (saved_over now f o).id ≡ f.id
unfolding saved_over
id-saved_over now f none = refl
id-saved_over now f (some g) = refl

pub row-saved :
    (j now : ℕ) (f : Finding) (fs : List Finding)
    → row j (saved now f fs)
      ≡ (if f.id == j then some (saved_over now f (row f.id fs)) else row j fs)
row-saved j now f fs =
    get_row-put_row (λ (r : Finding). r.id) j (saved_over now f (row f.id fs)) fs
    ∙ ap (λ i. if i == j then some (saved_over now f (row f.id fs)) else row j fs)
        (id-saved_over now f (row f.id fs))

unlocked : (o : Option Finding) → is_locked none o ≡ false
unlocked none = refl
unlocked (some m) = refl

-- Without an expected version a save goes through.
pub save_finding-unlocked :
    (now : ℕ) (f : Finding) (fs : List Finding) → save_finding now f none fs ≡ done (saved now f fs)
unfolding save_finding
save_finding-unlocked now f fs = rw (unlocked (row f.id fs)) refl

-- Where the finding that a round appends comes from.
pub data Origin (c : Context) (rf : RawFinding) (fs : List Finding) (f : Finding) : Type 0 where
  known :
      (e : Finding)
      → get_by_fingerprint c.tenant_id (identified c rf).fingerprint fs ≡ some e
      → f ≡ seen_again c e
      → Origin c rf fs f
  fresh :
      get_by_fingerprint c.tenant_id (identified c rf).fingerprint fs ≡ none
      → f ≡ discovered c (identified c rf)
      → Origin c rf fs f

pub record Round (c : Context) (rf : RawFinding) (s : Store) (r : Finding × Store) : Type 0 where
  pub returns : process_one c rf s ≡ done r
  pub origin : Origin c rf s.findings (r.0)
  pub findings : (r.1).findings ≡ saved c.now (r.0) s.findings
  pub scans : (r.1).scans ≡ s.scans

scans-add_if : (b : Bool) (c : Context) (s : Store) (h : _) → (add_if b h s).scans ≡ s.scans
unfolding add_if add_history
scans-add_if true c s h = refl
scans-add_if false c s h = refl

pub process_one-Round :
    (c : Context) (rf : RawFinding) (s : Store) → (r : Finding × Store) × Round c rf s r
unfolding process_one process_as process_known process_new after_known after_new store_observation
    update_findings add_history
process_one-Round c rf s =
    elim (Option-cases (get_by_fingerprint c.tenant_id (identified c rf).fingerprint s.findings)) [
      | inl e ↦
          let f = discovered c (identified c rf) in
          (
            (f, after_new c rf f (saved c.now f s.findings) s),
            record {
              returns = rw (e, save_finding-unlocked c.now f s.findings) refl;
              origin = fresh e refl;
              findings = refl;
              scans = refl;
            },
          )
      | inr (g, e) ↦
          let f = seen_again c g in
          (
            (f, after_known c rf g (saved c.now f s.findings) s),
            record {
              returns = rw (e, save_finding-unlocked c.now f s.findings) refl;
              origin = known g e refl;
              findings = refl;
              scans = scans-add_if (should_reopen g.status) c s _;
            },
          )
    ]

-- A round of the reconciliation.
pub verify_one_seen :
    (c : Context) (fps : List ℕ) (pv : Finding) (s : Store)
    → elem pv.fingerprint fps ≡ true
    → verify_one c fps pv s ≡ done s
unfolding verify_one
verify_one_seen c fps pv s e = rw e refl

pub verify_one_absent :
    (c : Context) (fps : List ℕ) (pv : Finding) (s : Store)
    → elem pv.fingerprint fps ≡ false
    → (s1 : Store) × (verify_one c fps pv s ≡ done s1)
      × (s1.findings ≡ saved c.now (verified_finding c pv) s.findings)
      × (s1.scans ≡ s.scans)
unfolding verify_one after_verified update_findings add_history
verify_one_absent c fps pv s e =
    let f = verified_finding c pv in
    (
      after_verified c f (saved c.now f s.findings) s,
      rw (e, save_finding-unlocked c.now f s.findings) refl,
      refl,
      refl,
    )
