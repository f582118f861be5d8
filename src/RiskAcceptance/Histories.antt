-- ===== src/RiskAcceptance/Histories.antt =====
-- Everything that happens to the findings of a tenant: scans (process_scan_findings of
-- core/db/adapter.py), changes of status (transition_finding_status) and expiries of accepted risks
-- (core/tasks/remediation_tasks.py); and how core/differential.py reads the result.
use sentinel_wp.Base.{
  ℕ, ◌≡◌, ◌≢◌, refl, sym, ap, ◌∙◌, subst, true, Option, some, List, [], ◌∷◌, arith, inl, inr,
  Bool-cases, Option-cases, map, In-map,
}
use sentinel_wp.Base.Text.{Text, text_eq, text_eq_iff, upper, strip}
use sentinel_wp.Base.Table.{get_row-In}
use sentinel_wp.Lifecycle.{value, risk_accepted}
use sentinel_wp.Sla.{severity_value}
use sentinel_wp.Findings.{
  Finding, Observation, Store, done, row, get_by_id, update_findings, add_history,
}
use sentinel_wp.Findings.Transitions.{entered, transition_finding_status}
use sentinel_wp.Findings.Scans.{Context, RawFinding}
use sentinel_wp.Findings.Reconciliation.{process_scan_findings}
use sentinel_wp.Findings.Rounds.{saved, save_finding-unlocked}
use sentinel_wp.Findings.Unique.{IsSound, IsSound-saved, Covers-IsRead}
use sentinel_wp.Findings.Versions.{transition-Transitioned, get_by_id-row, key-entered}
use sentinel_wp.Findings.Effect.{process_scan_findings-Effect}
use sentinel_wp.Differential
use sentinel_wp.Differential.{Posture}
use sentinel_wp.Differential.Report.{compute_scan_differential}
use sentinel_wp.Differential.Reopened.{OneRow, never_reopened}
use sentinel_wp.RiskAcceptance.{reopen_accepted, reopen_found}

-- The storage as calls leave it that succeed. A scan has a tenant.
pub data Reach : Store → Type 0 where
  empty : (s : Store) → s.findings ≡ [] → Reach s
  scan_rows : (s s1 : Store) → Reach s → s1.findings ≡ s.findings → Reach s1
  scanned :
      (c : Context) (rfs : List RawFinding) (s : Store) (r : List Finding × Store)
      → Reach s
      → c.tenant_id ≢ 0
      → process_scan_findings c rfs s ≡ done r
      → Reach (r.1)
  moved :
      (now i : ℕ) (st : Text) (u t : ℕ) (comment : Text) (x : Option ℕ) (s s1 : Store)
      → Reach s
      → transition_finding_status now i st u t comment x s ≡ done s1
      → Reach s1
  expired :
      (now t i : ℕ) (s : Store) → Reach s → Reach (reopen_found now t s (get_by_id i t s.findings))

done_inj : {A : Type 0} (a b : A) → done a ≡ done b → a ≡ b
done_inj a b h = cc

key-reopen_accepted :
    (now : ℕ) (f : Finding)
    → ((reopen_accepted now f).id ≡ f.id)
      × ((reopen_accepted now f).tenant_id ≡ f.tenant_id)
      × ((reopen_accepted now f).fingerprint ≡ f.fingerprint)
unfolding reopen_accepted
key-reopen_accepted now f = (refl, refl, refl)

-- A save of a finding that was looked up and kept its key.
IsSound-updated :
    (now : ℕ) (f g : Finding) (i t : ℕ) (fs : List Finding)
    → IsSound fs
    → get_by_id i t fs ≡ some f
    → g.id ≡ f.id
    → g.tenant_id ≡ f.tenant_id
    → g.fingerprint ≡ f.fingerprint
    → IsSound (saved now g fs)
IsSound-updated now f g i t fs w h a b c =
    let (p, q, r) = get_by_id-row i t fs f h in
    IsSound-saved now g fs w
      (Covers-IsRead g fs w (f, subst (λ k. row k fs ≡ some f) (sym (a ∙ q)) p, sym b, sym c))

IsSound-reopen_found :
    (now t i : ℕ) (s : Store)
    → IsSound s.findings
    → IsSound (reopen_found now t s (get_by_id i t s.findings)).findings
unfolding reopen_found add_history update_findings
IsSound-reopen_found now t i s w = elim (Option-cases (get_by_id i t s.findings)) [
  | inl e ↦ rw e w
  | inr (f, e) ↦ elim (Bool-cases (text_eq f.status (value risk_accepted))) [
    | inr b ↦ rw (e, b) w
    | inl b ↦
        let (k, l, m) = key-reopen_accepted now f in
        rw (e, b, save_finding-unlocked now (reopen_accepted now f) s.findings)
          (IsSound-updated now f (reopen_accepted now f) i t s.findings w e k l m)
  ]
]

IsSound-empty : IsSound []
IsSound-empty = record { keyed = tt; unique = λ i j f g p q t k. cc; tenanted = λ i f p. cc }

-- However findings are scanned, moved by users and taken back from accepted risks, starting with
-- none, the table keeps one row for each id, one row for each fingerprint of a tenant, and a tenant
-- in every row.
pub Reach-IsSound : {s : Store} → Reach s → IsSound s.findings
Reach-IsSound (empty s e) = rw e IsSound-empty
Reach-IsSound (scan_rows s s1 r e) = rw e (Reach-IsSound r)
Reach-IsSound (scanned c rfs s r h n e) =
    let (q, f) = process_scan_findings-Effect c rfs s n (Reach-IsSound h) in
    subst (λ x. IsSound (x.1).findings) (done_inj q r (sym f.returns ∙ e)) f.sound
Reach-IsSound (moved now i st u t comment x s s1 h e) =
    let (f, o) = transition-Transitioned now i st u t comment x s s1 e in
    let (k, l, m, z) = key-entered now comment f.status (strip (upper st)) f in
    rw o.findings (
      IsSound-updated now f (entered now comment f.status (strip (upper st)) f) i t s.findings
        (Reach-IsSound h) o.found k l m)
Reach-IsSound (expired now t i s h) = IsSound-reopen_found now t i s (Reach-IsSound h)

module _ (name : ℕ → Text) where
  -- The rows as the comparison of scans reads them; `name` is the text of an id or digest.
  unfoldable pub view : Finding → Differential.Finding
  view f = record {
    id = name f.id;
    tenant_id = name f.tenant_id;
    scan_id = name f.scan_id;
    fingerprint = name f.fingerprint;
    observation_count = f.observation_count;
    title = f.title;
    category = f.category;
    severity = severity_value f.severity;
    status = f.status;
  }

  view_observation : Observation → Differential.Observation
  view_observation o = record { finding_id = name o.finding_id; scan_id = name o.scan_id }

  unfoldable pub posture : Store → List Differential.Scan → Posture
  unfolding view view_observation
  posture s scans = record {
    scans = scans;
    findings = map view s.findings;
    observations = map view_observation s.observations;
  }

module _ (name : ℕ → Text) (differ : (a b : ℕ) → name a ≡ name b → a ≡ b) where
  in_named_tenant :
      (t f : ℕ) → name t ≢ [] → Differential.in_tenant (name t) (name f) ≡ true → f ≡ t
  in_named_tenant t f n h = differ f t (named (name t) (name f) n h)
    where
      named : (a b : Text) → a ≢ [] → Differential.in_tenant a b ≡ true → b ≡ a
      named [] b m k = absurd (m refl)
      named (x ∷ a) b m k = (text_eq_iff b (x ∷ a)).0 k

  OneRow-sound :
      (t : ℕ) (s : Store) (scans : List Differential.Scan)
      → name t ≢ []
      → IsSound s.findings
      → OneRow (name t) (posture name s scans).findings
  unfolding posture view
  OneRow-sound t s scans n w f g i j u v k e =
      let (f0, i0, p) = In-map (view name) f s.findings i in
      let (g0, j0, q) = In-map (view name) g s.findings j in
      let a = get_row-In (λ (x : Finding). x.id) s.findings f0 w.keyed i0 in
      let b = get_row-In (λ (x : Finding). x.id) s.findings g0 w.keyed j0 in
      let tf = in_named_tenant t f0.tenant_id n (rw p at u) in
      let tg = in_named_tenant t g0.tenant_id n (rw q at v) in
      let fps = differ f0.fingerprint g0.fingerprint (rw (p, q) at e) in
      let ids = w.unique f0.id g0.id f0 g0 a b (tf ∙ sym tg) fps in
      let b2 : row f0.id s.findings ≡ some g0 =
        subst (λ k. row k s.findings ≡ some g0) (sym ids) b in
      let same : f0 ≡ g0 = ground (arith, sym a ∙ b2) in p ∙ ap (view name) same ∙ sym q

  -- Whatever scans, users and expiries did to a tenant's findings before, the comparison of two of
  -- its scans reports no finding as REOPENED, also when a finding that was remediated came back.
  -- Texts of ids are different for different ids, and the tenant's is not empty.
  pub never_reports_reopened :
      {s : Store} (t : ℕ) (scans : List Differential.Scan) (old_id new_id : Text)
      → (a : Option Text) → name t ≢ []
      → Reach s
      → (compute_scan_differential (posture name s scans) old_id new_id (name t) a).reopened_count
        ≡ 0
  never_reports_reopened {s} t scans old_id new_id a n r =
      never_reopened (posture name s scans) old_id new_id (name t) a
        (OneRow-sound t s scans n (Reach-IsSound r))
