-- ===== src/Findings/Versions.antt =====
-- What a change of status writes, and the optimistic lock: transition_finding_status of
-- core/db/adapter.py over save_finding of core/db/repositories/finding_repo.py.
use sentinel_wp.Base.{
  ℕ, ◌+◌, ◌≡◌, ◌⊎◌, subst, refl, ◌∙◌, true, false, Option, some, List, [], ◌∷◌, ◌++◌, ◌==◌, arith,
  inl, inr, Bool-cases, Option-cases,
}
use sentinel_wp.Base.Text.{Text, upper, strip}
use sentinel_wp.Base.Table.{key-get_row}
use sentinel_wp.Lifecycle.{
  FindingStatus, Validated, ok, invalid, validate_transition, can_transition,
}
use sentinel_wp.Lifecycle.Validation.{validate_transition-eq-ok_iff}
use sentinel_wp.Findings.{
  Finding, Store, done, locked, refused, user, row, get_by_id, in_tenant, saved_over, save_finding,
  is_locked, conflicts, or_number, default_tenant, add_history, update_findings, expected_of,
}
use sentinel_wp.Findings.Transitions.{entered, history_of, move, transition_finding_status, checked}
use sentinel_wp.Findings.Rounds.{saved, row-saved}

-- A successful call of transition_finding_status, on the finding `f`.
pub record Transitioned (now i : ℕ) (st : Text) (u t : ℕ) (comment : Text) (expected : Option ℕ)
    (s s1 : Store) (f : Finding) : Type 0 where
  pub found : get_by_id i t s.findings ≡ some f
  pub current : conflicts expected f.version ≡ false
  pub permitted : can_transition f.status (strip (upper st)) ≡ true
  pub findings :
      s1.findings ≡ saved now (entered now comment f.status (strip (upper st)) f) s.findings
  pub history :
      s1.history
      ≡ s.history
        ++ history_of now (user u) f.status (entered now comment f.status (strip (upper st)) f) ∷ []
  pub scans : s1.scans ≡ s.scans

-- A save that is done wrote the row, and one that has another version fails.
pub save_finding_cases :
    (now : ℕ) (f : Finding) (x : Option ℕ) (fs : List Finding)
    → (save_finding now f x fs ≡ done (saved now f fs))
      ⊎ (save_finding now f x fs ≡ locked f.id (expected_of x))
unfolding save_finding
save_finding_cases now f x fs = elim (Bool-cases (is_locked x (row f.id fs))) [
  | inl e ↦ inr (rw e refl)
  | inr e ↦ inl (rw e refl)
]

checked-done :
    (c t : Text) (v : Validated)
    → ((r : FindingStatus) × (v ≡ ok r) × (checked c t v ≡ done r))
      ⊎ ((a b : Text) × (checked c t v ≡ refused a b))
checked-done c t (ok r) = inl (r, refl, refl)
checked-done c t (invalid a b r) = inr (a, b, refl)

move_checked :
    (now : ℕ) (st : Text) (u : ℕ) (comment : Text) (x : Option ℕ) (f : Finding) (s s1 : Store)
    → move now st u comment x f s ≡ done s1
    → (conflicts x f.version ≡ false)
      × (can_transition f.status (strip (upper st)) ≡ true)
      × (s1
          ≡ add_history
              (history_of now (user u) f.status (entered now comment f.status (strip (upper st)) f))
              (update_findings
                (saved now (entered now comment f.status (strip (upper st)) f) s.findings)
                s))
unfolding move
move_checked now st u comment x f s s1 h =
    let target = strip (upper st) in
    let g = entered now comment f.status target f in
    elim (Bool-cases (conflicts x f.version)) [
      | inl e ↦ absurd (cc (rw e at h))
      | inr e ↦ elim (checked-done f.status target (validate_transition f.status target)) [
        | inr (a, b, k) ↦ absurd (cc (rw (e, k) at h))
        | inl (r, v, k) ↦ elim (save_finding_cases now g x s.findings) [
          | inr l ↦ absurd (cc (rw (e, k, l) at h))
          | inl l ↦ (
            e,
            ((validate_transition-eq-ok_iff f.status target r).0 v).0,
            ground (arith, rw (e, k, l) at h),
          )
        ]
      ]
    ]

pub get_by_id-row :
    (i t : ℕ) (fs : List Finding) (f : Finding)
    → get_by_id i t fs ≡ some f
    → (row i fs ≡ some f) × (f.id ≡ i) × (in_tenant t f.tenant_id ≡ true)
unfolding get_by_id
get_by_id-row i t fs f h = elim (Option-cases (row i fs)) [
  | inl e ↦ absurd (cc (rw e at h))
  | inr (g, e) ↦ elim (Bool-cases (in_tenant t g.tenant_id)) [
    | inr b ↦ absurd (cc (rw (e, b) at h))
    | inl b ↦
        let k : g ≡ f = ground (arith, rw (e, b) at h) in
        subst (λ x. (row i fs ≡ some x) × (x.id ≡ i) × (in_tenant t x.tenant_id ≡ true)) k
          (e, key-get_row (λ (x : Finding). x.id) i fs g e, b)
  ]
]

pub transition-Transitioned :
    (now i : ℕ) (st : Text) (u t : ℕ) (comment : Text) (x : Option ℕ) (s s1 : Store)
    → transition_finding_status now i st u t comment x s ≡ done s1
    → (f : Finding) × Transitioned now i st u t comment x s s1 f
unfolding transition_finding_status add_history update_findings
transition-Transitioned now i st u t comment x s s1 h =
    elim (Option-cases (get_by_id i t s.findings)) [
      | inl e ↦ absurd (cc (rw e at h))
      | inr (f, e) ↦
          let (c, p, k) = move_checked now st u comment x f s s1 (rw e at h) in
          (
            f,
            record {
              found = e;
              current = c;
              permitted = p;
              findings = rw k refl;
              history = rw k refl;
              scans = rw k refl;
            },
          )
    ]

pub key-entered :
    (now : ℕ) (comment old target : Text) (f : Finding)
    → ((entered now comment old target f).id ≡ f.id)
      × ((entered now comment old target f).tenant_id ≡ f.tenant_id)
      × ((entered now comment old target f).fingerprint ≡ f.fingerprint)
      × ((entered now comment old target f).status ≡ target)
unfolding entered
key-entered now comment old target f = ground arith

version-saved_over :
    (now : ℕ) (f g : Finding) → (saved_over now f (some g)).version ≡ or_number g.version 1 + 1
unfolding saved_over
version-saved_over now f g = refl

-- The row after a change of status.
pub row-Transitioned :
    (now i : ℕ) (st : Text) (u t : ℕ) (comment : Text) (x : Option ℕ) (s s1 : Store) (f : Finding)
    → Transitioned now i st u t comment x s s1 f
    → row i s1.findings
      ≡ some (saved_over now (entered now comment f.status (strip (upper st)) f) (some f))
row-Transitioned now i st u t comment x s s1 f o =
    let target = strip (upper st) in
    let g = entered now comment f.status target f in
    let (p, k, b) = get_by_id-row i t s.findings f o.found in
    let e : g.id ≡ i = (key-entered now comment f.status target f).0 ∙ k in
    rw o.findings (row-saved i now g s.findings ∙ rw (e, p) (ground arith))

refused_by_version :
    (now i : ℕ) (st : Text) (u t : ℕ) (comment : Text) (v : ℕ) (s : Store) (f : Finding)
    → row i s.findings ≡ some f
    → f.id ≡ i
    → in_tenant t f.tenant_id ≡ true
    → (f.version == v) ≡ false
    → transition_finding_status now i st u t comment (some v) s ≡ locked i v
unfolding transition_finding_status get_by_id move
refused_by_version now i st u t comment v s f p k b n = rw (p, b, n, k) refl

key-saved :
    (now : ℕ) (comment old target : Text) (f : Finding)
    → let g = saved_over now (entered now comment old target f) (some f) in
      (g.id ≡ f.id) × (g.tenant_id ≡ or_number f.tenant_id default_tenant)
unfolding saved_over entered
key-saved now comment old target f = ground arith

-- Of two changes of a finding that run one after the other and expect the same version, the second
-- fails: once the first is committed, the second, read with the same tenant filter, ends with
-- OptimisticLockError, whatever status it asks for.
pub later_change_refused :
    (now i : ℕ) (st : Text) (u t : ℕ) (comment : Text) (v : ℕ) (s s1 : Store)
    → (now2 : ℕ) (st2 : Text) (u2 : ℕ) (comment2 : Text)
    → transition_finding_status now i st u t comment (some v) s ≡ done s1
    → transition_finding_status now2 i st2 u2 t comment2 (some v) s1 ≡ locked i v
later_change_refused now i st u t comment v s s1 now2 st2 u2 comment2 h =
    let (f, o) = transition-Transitioned now i st u t comment (some v) s s1 h in
    let (p, k, b) = get_by_id-row i t s.findings f o.found in
    let target = strip (upper st) in
    let (a, z) = key-saved now comment f.status target f in
    refused_by_version now2 i st2 u2 t comment2 v s1 _
      (row-Transitioned now i st u t comment (some v) s s1 f o) (a ∙ k) (rw z (ground arith))
      (rw (version-saved_over now (entered now comment f.status target f) f)
        (ground (arith, o.current)))
