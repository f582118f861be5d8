-- ===== src/Findings/Unique.antt =====
-- One row for each fingerprint of a tenant: process_scan_findings of core/db/adapter.py over
-- save_finding of core/db/repositories/finding_repo.py.
use sentinel_wp.Base.{
  ℕ, ◌≡◌, ◌≢◌, refl, sym, Option, none, some, List, arith, inl, inr, Bool-cases, find-In,
  find-eq-none,
}
use sentinel_wp.Base.Table.{Keyed, Keyed-put_row, In-get_row, get_row-In}
use sentinel_wp.Findings.{
  Finding, row, saved_over, default_tenant, or_number, has_key, get_by_fingerprint,
}
use sentinel_wp.Findings.Scans.{
  Context, RawFinding, identified, discovered, seen_again, should_reopen,
}
use sentinel_wp.Findings.Rounds.{saved, row-saved, Origin, known, fresh}

-- The primary key, one row for each key of deduplication, and a tenant in every row.
pub record IsSound (fs : List Finding) : Type 0 where
  pub keyed : Keyed (λ (f : Finding). f.id) fs
  pub unique :
      (i j : ℕ) (f g : Finding)
      → row i fs ≡ some f
      → row j fs ≡ some g
      → f.tenant_id ≡ g.tenant_id
      → f.fingerprint ≡ g.fingerprint
      → i ≡ j
  pub tenanted : (i : ℕ) (f : Finding) → row i fs ≡ some f → f.tenant_id ≢ 0

-- Whatever row has the key of `f` has its id too.
abbrev pub Covers : Finding → List Finding → Type 0
Covers f fs =
    (j : ℕ) (g : Finding)
    → row j fs ≡ some g
    → g.tenant_id ≡ or_number f.tenant_id default_tenant
    → g.fingerprint ≡ f.fingerprint
    → j ≡ f.id

key-saved_over :
    (now : ℕ) (f : Finding) (o : Option Finding)
    → ((saved_over now f o).tenant_id ≡ or_number f.tenant_id default_tenant)
      × ((saved_over now f o).fingerprint ≡ f.fingerprint)
unfolding saved_over
key-saved_over now f none = (refl, refl)
key-saved_over now f (some g) = (refl, refl)

pub IsSound-saved :
    (now : ℕ) (f : Finding) (fs : List Finding)
    → IsSound fs
    → Covers f fs
    → IsSound (saved now f fs)
IsSound-saved now f fs s c = record {
  keyed = Keyed-put_row _ (saved_over now f (row f.id fs)) fs s.keyed;
  unique = λ i j g h p q t e. ground (
    arith,
    row-saved i now f fs,
    row-saved j now f fs,
    key-saved_over now f (row f.id fs),
    s.unique i j g h,
    c i g,
    c j h,
  );
  tenanted = λ i g p.
      ground (arith, row-saved i now f fs, key-saved_over now f (row f.id fs), s.tenanted i g);
}

-- A finding that was read from the table, its key unchanged.
abbrev pub IsRead : Finding → List Finding → Type 0
IsRead f fs =
    (g : Finding) × (row f.id fs ≡ some g)
    × (g.tenant_id ≡ f.tenant_id)
    × (g.fingerprint ≡ f.fingerprint)

pub Covers-IsRead : (f : Finding) (fs : List Finding) → IsSound fs → IsRead f fs → Covers f fs
Covers-IsRead f fs s (g, p, t, e) j h q u v =
    ground (arith, s.unique j f.id h g q p, s.tenanted f.id g p)

pub key-seen_again :
    (c : Context) (e : Finding)
    → ((seen_again c e).id ≡ e.id)
      × ((seen_again c e).tenant_id ≡ e.tenant_id)
      × ((seen_again c e).fingerprint ≡ e.fingerprint)
      × ((seen_again c e).asset_id ≡ e.asset_id)
unfolding seen_again
key-seen_again c e = elim (Bool-cases (should_reopen e.status)) [
  | inl h ↦ rw h (refl, refl, refl, refl)
  | inr h ↦ rw h (refl, refl, refl, refl)
]

pub key-discovered :
    (c : Context) (rf : RawFinding)
    → ((discovered c (identified c rf)).id ≡ rf.finding.id)
      × ((discovered c (identified c rf)).tenant_id ≡ c.tenant_id)
      × ((discovered c (identified c rf)).fingerprint ≡ (identified c rf).fingerprint)
unfolding discovered identified
key-discovered c rf = (refl, refl, refl)

-- The row that a fingerprint finds.
pub by_fingerprint :
    (t fp : ℕ) (fs : List Finding) (e : Finding)
    → IsSound fs
    → get_by_fingerprint t fp fs ≡ some e
    → (row e.id fs ≡ some e) × (e.tenant_id ≡ t) × (e.fingerprint ≡ fp)
unfolding get_by_fingerprint
by_fingerprint t fp fs e s h =
    let (i, k) = find-In (has_key t fp) fs e h in
    (get_row-In (λ (f : Finding). f.id) fs e s.keyed i, ground arith, ground arith)

pub no_row_with_key :
    (t fp j : ℕ) (fs : List Finding) (g : Finding)
    → get_by_fingerprint t fp fs ≡ none
    → row j fs ≡ some g
    → g.tenant_id ≡ t
    → g.fingerprint ≢ fp
unfolding get_by_fingerprint
no_row_with_key t fp j fs g h p e =
    ground (arith, find-eq-none (has_key t fp) fs g h (In-get_row (λ (f : Finding). f.id) j fs g p))

pub Covers-Origin :
    (c : Context) (rf : RawFinding) (fs : List Finding) (f : Finding)
    → c.tenant_id ≢ 0
    → IsSound fs
    → Origin c rf fs f
    → Covers f fs
Covers-Origin c rf fs f n s (known e h p) =
    let (i, t, k, a) = key-seen_again c e in
    let (q, u, v) = by_fingerprint c.tenant_id (identified c rf).fingerprint fs e s h in
    rw p (Covers-IsRead (seen_again c e) fs s (e, rw i q, sym t, sym k))
Covers-Origin c rf fs f n s (fresh h p) =
    λ j g q u v. ground (arith, key-discovered c rf, no_row_with_key c.tenant_id _ j fs g h q)
