-- ===== src/Findings/Observed.antt =====
-- What the loop of process_scan_findings makes of a finding that the tenant had: core/db/adapter.py.
use sentinel_wp.Base.{
  ℕ, ◌≡◌, ◌≢◌, refl, ◌∙◌, Bool, ◌&&◌, Option, none, some, List, [], ◌∷◌, ◌==◌, arith, if◌then◌else◌,
  inl, inr, Bool-cases, elem, map, All,
}
use sentinel_wp.Base.Text.{Text}
use sentinel_wp.Lifecycle.{value, reopened}
use sentinel_wp.Findings.{Finding, Store, done, row, saved_over}
use sentinel_wp.Findings.Scans.{Context, RawFinding, identified, seen_again, should_reopen}
use sentinel_wp.Findings.Reconciliation.{process_all}
use sentinel_wp.Findings.Rounds.{saved, row-saved, Origin, known, fresh, process_one-Round}
use sentinel_wp.Findings.Unique.{
  IsSound, IsSound-saved, Covers-Origin, by_fingerprint, no_row_with_key, key-seen_again,
  key-discovered,
}

-- `set(f.fingerprint for f in ...)` of the raw findings.
abbrev pub fingerprints : Context → List RawFinding → List ℕ
fingerprints c rfs = map (λ rf. (identified c rf).fingerprint) rfs

-- The scan saw the finding.
abbrev pub seen : Context → List RawFinding → Finding → Bool
seen c rfs e = e.tenant_id == c.tenant_id && elem e.fingerprint (fingerprints c rfs)

abbrev pub status_when_seen : Text → Text
status_when_seen status = if should_reopen status then value reopened else status

-- A row that holds the finding `e`, with this status.
abbrev pub Holds : ℕ → Finding → Text → List Finding → Type 0
Holds j e status fs =
    (g : Finding) × (row j fs ≡ some g)
    × (g.tenant_id ≡ e.tenant_id)
    × (g.fingerprint ≡ e.fingerprint)
    × (g.asset_id ≡ e.asset_id)
    × (g.status ≡ status)

status-saved_over :
    (now : ℕ) (f : Finding) (o : Option Finding)
    → f.tenant_id ≢ 0
    → ((saved_over now f o).status ≡ f.status)
      × ((saved_over now f o).asset_id ≡ f.asset_id)
      × ((saved_over now f o).fingerprint ≡ f.fingerprint)
      × ((saved_over now f o).tenant_id ≡ f.tenant_id)
unfolding saved_over
status-saved_over now f none n = ground arith
status-saved_over now f (some g) n = ground arith

status-seen_again :
    (c : Context) (e : Finding) → (seen_again c e).status ≡ status_when_seen e.status
unfolding seen_again
status-seen_again c e = ground arith

-- The save of a finding that was read from the table.
pub Holds-saved :
    (now j : ℕ) (f e : Finding) (fs : List Finding)
    → f.id ≡ j
    → e.tenant_id ≢ 0
    → f.tenant_id ≡ e.tenant_id
    → f.fingerprint ≡ e.fingerprint
    → f.asset_id ≡ e.asset_id
    → Holds j e f.status (saved now f fs)
Holds-saved now j f e fs i n t k a =
    ground (arith, row-saved j now f fs, status-saved_over now f (row f.id fs))

-- The save of another finding.
pub row-saved-other :
    (now j : ℕ) (f : Finding) (fs : List Finding) → f.id ≢ j → row j (saved now f fs) ≡ row j fs
row-saved-other now j f fs n = ground (arith, row-saved j now f fs)

-- One round: the finding stays, and it is reopened if its key came up and it counts as resolved.
round_Holds :
    (c : Context) (rf : RawFinding) (fs : List Finding) (f : Finding) (j : ℕ) (e : Finding)
    → c.tenant_id ≢ 0
    → IsSound fs
    → rf.finding.id ≢ j
    → Origin c rf fs f
    → row j fs ≡ some e
    → Holds j e
        (if seen c (rf ∷ []) e then status_when_seen e.status else e.status)
        (saved c.now f fs)
round_Holds c rf fs f j e n s new (known g h p) q =
    let k = by_fingerprint c.tenant_id (identified c rf).fingerprint fs g s h in
    rw p (elim (Bool-cases (g.id == j)) [
      | inl i ↦ ground (
        arith,
        key-seen_again c g,
        status-seen_again c g,
        Holds-saved c.now j (seen_again c g) e fs,
        s.tenanted j e,
      )
      | inr i ↦ (
        e,
        ground (arith, key-seen_again c g, row-saved-other c.now j (seen_again c g) fs),
        refl,
        refl,
        refl,
        ground (arith, s.unique j g.id e g q),
      )
    ])
round_Holds c rf fs f j e n s new (fresh h p) q = (
  e,
  ground (arith, key-discovered c rf, row-saved-other c.now j f fs),
  refl,
  refl,
  refl,
  ground (arith, no_row_with_key c.tenant_id (identified c rf).fingerprint j fs e h),
)

-- What the loop leaves.
pub record Pass (c : Context) (rfs : List RawFinding) (s : Store) (r : List Finding × Store)
    : Type 0 where
  pub returns : process_all c rfs s ≡ done r
  pub sound : IsSound (r.1).findings
  pub scans : (r.1).scans ≡ s.scans
  pub processed : map (λ (f : Finding). f.fingerprint) (r.0) ≡ fingerprints c rfs
  pub kept :
      (j : ℕ) (e : Finding)
      → All (λ (rf : RawFinding). rf.finding.id ≢ j) rfs
      → row j s.findings ≡ some e
      → Holds j e (if seen c rfs e then status_when_seen e.status else e.status) (r.1).findings

fingerprint-Origin :
    (c : Context) (rf : RawFinding) (fs : List Finding) (f : Finding)
    → IsSound fs
    → Origin c rf fs f
    → f.fingerprint ≡ (identified c rf).fingerprint
fingerprint-Origin c rf fs f s (known e h p) =
    ground
      (arith, key-seen_again c e, by_fingerprint c.tenant_id (identified c rf).fingerprint fs e s h)
fingerprint-Origin c rf fs f s (fresh h p) = ground (arith, key-discovered c rf)

status_when_seen_idem : (s : Text) → status_when_seen (status_when_seen s) ≡ status_when_seen s
unfolding should_reopen
status_when_seen_idem s = elim (Bool-cases (should_reopen s)) [
  | inl h ↦ rw h refl
  | inr h ↦ rw (h, h) refl
]

-- The first raw finding, then the others.
Holds-seen :
    (c : Context) (rf : RawFinding) (rfs : List RawFinding) (j : ℕ) (e : Finding)
    → (fs1 fs2 : List Finding)
    → Holds j e (if seen c (rf ∷ []) e then status_when_seen e.status else e.status) fs1
    → ((g : Finding)
        → row j fs1 ≡ some g
        → Holds j g (if seen c rfs g then status_when_seen g.status else g.status) fs2)
    → Holds j e (if seen c (rf ∷ rfs) e then status_when_seen e.status else e.status) fs2
Holds-seen c rf rfs j e fs1 fs2 (g, p, t, k, a, st) next =
    let (h, p', t', k', a', st') = next g p in
    (h, p', t' ∙ t, k' ∙ k, a' ∙ a, ground (arith, status_when_seen_idem e.status))

pub process_all-Pass :
    (c : Context) (rfs : List RawFinding) (s : Store)
    → c.tenant_id ≢ 0
    → IsSound s.findings
    → (r : List Finding × Store) × Pass c rfs s r
unfolding process_all
process_all-Pass c [] s n w = (
  ([], s),
  record {
    returns = refl;
    sound = w;
    scans = refl;
    processed = refl;
    kept = λ j e a q. (e, q, refl, refl, refl, ground arith);
  },
)
process_all-Pass c (rf ∷ rfs) s n w =
    let (r, o) = process_one-Round c rf s in
    let w1 : IsSound (r.1).findings =
      rw o.findings (
        IsSound-saved c.now (r.0) s.findings w
          (Covers-Origin c rf s.findings (r.0) n w o.origin)) in
    let (q, p) = process_all-Pass c rfs (r.1) n w1 in
    (
      (r.0 ∷ q.0, q.1),
      record {
        returns = rw (o.returns, p.returns) refl;
        sound = p.sound;
        scans = p.scans ∙ o.scans;
        processed = λ i. fingerprint-Origin c rf s.findings (r.0) w o.origin i ∷ p.processed i;
        kept = λ j e a h.
            Holds-seen c rf rfs j e (r.1).findings (q.1).findings
              (rw o.findings (round_Holds c rf s.findings (r.0) j e n w (a.0) o.origin h))
              (λ g. p.kept j g (a.1));
      },
    )
