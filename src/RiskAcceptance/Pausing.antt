-- ===== src/RiskAcceptance/Pausing.antt =====
-- What becomes of the deadline of an accepted risk: transition_finding_status of core/db/adapter.py,
-- expire_risk_acceptances of core/tasks/remediation_tasks.py and core/sla_engine.py.
use sentinel_wp.Base.{
  ℕ, ◌≡◌, ◌⊎◌, refl, sym, ◌∙◌, subst, true, Option, none, some, [], ◌∷◌, arith, inl, inr,
}
use sentinel_wp.Base.Text.{Text, codes, text_eq_iff, upper, strip}
use sentinel_wp.Lifecycle.{value, risk_accepted, opened, reopened, in_progress}
use sentinel_wp.Sla.{paused, evaluate_finding_sla_status, is_paused}
use sentinel_wp.Findings.{
  Finding, Store, done, row, saved_over, get_by_id, update_findings, add_history,
}
use sentinel_wp.Findings.Transitions.{
  entered, sla_now, sla_view, is_one_of, transition_finding_status,
}
use sentinel_wp.Findings.Rounds.{row-saved, save_finding-unlocked}
use sentinel_wp.Findings.Versions.{transition-Transitioned, row-Transitioned, get_by_id-row}
use sentinel_wp.RiskAcceptance.{reopen_accepted, reopen_found}

paused_stays : (now : ℕ) (f : Finding) → f.sla_status ≡ paused → sla_now now f ≡ paused
unfolding sla_now sla_view evaluate_finding_sla_status is_paused
paused_stays now f e = rw e (ground arith)

sla_status-saved_over :
    (now : ℕ) (f g : Finding)
    → ((saved_over now f (some g)).sla_status ≡ f.sla_status)
      × ((saved_over now f (some g)).sla_paused_at ≡ f.sla_paused_at)
      × ((saved_over now f (some g)).status ≡ f.status)
unfolding saved_over
sla_status-saved_over now f g = (refl, refl, refl)

entered_accepted :
    (now : ℕ) (comment old target : Text) (f : Finding)
    → target ≡ value risk_accepted
    → ((entered now comment old target f).sla_status ≡ paused)
      × ((entered now comment old target f).status ≡ value risk_accepted)
unfolding entered
entered_accepted now comment old target f e = rw e (refl, refl)

-- The finding as its deadline is computed anew.
abbrev left_pause : (now : ℕ) (target : Text) → Finding → Finding
left_pause now target f = record f {
  status = target;
  updated_at = some now;
  sla_paused_at = none;
  sla_pause_reason = [];
}

-- The three statuses that resume the deadline.
resumes :
    (target : Text)
    → is_one_of target (opened ∷ reopened ∷ in_progress ∷ []) ≡ true
    → (target ≡ value opened) ⊎ (target ≡ value reopened) ⊎ (target ≡ value in_progress)
resumes target h = ground (
  arith,
  text_eq_iff target (value opened),
  text_eq_iff target (value reopened),
  text_eq_iff target (value in_progress),
)

entered_resumed :
    (now : ℕ) (comment old target : Text) (f : Finding)
    → old ≡ value risk_accepted
    → f.sla_status ≡ paused
    → is_one_of target (opened ∷ reopened ∷ in_progress ∷ []) ≡ true
    → ((entered now comment old target f).sla_status ≡ paused)
      × ((entered now comment old target f).sla_paused_at ≡ none)
unfolding entered
entered_resumed now comment old target f o p h = elim (resumes target h) [
  | inl e ↦ rw (e, o) (paused_stays now (left_pause now (value opened) f) p, refl)
  | inr (inl e) ↦ rw (e, o) (paused_stays now (left_pause now (value reopened) f) p, refl)
  | inr (inr e) ↦ rw (e, o) (paused_stays now (left_pause now (value in_progress) f) p, refl)
]

-- The row after a change of status.
accepted_row :
    (now i : ℕ) (st : Text) (u t : ℕ) (comment : Text) (x : Option ℕ) (s s1 : Store)
    → transition_finding_status now i st u t comment x s ≡ done s1
    → strip (upper st) ≡ value risk_accepted
    → (g : Finding) × (row i s1.findings ≡ some g)
      × (g.sla_status ≡ paused)
      × (g.status ≡ value risk_accepted)
accepted_row now i st u t comment x s s1 h e =
    let (f, o) = transition-Transitioned now i st u t comment x s s1 h in
    let f1 = entered now comment f.status (strip (upper st)) f in
    let (a, b) = entered_accepted now comment f.status (strip (upper st)) f e in
    let (k, l, m) = sla_status-saved_over now f1 f in
    (saved_over now f1 (some f), row-Transitioned now i st u t comment x s s1 f o, k ∙ a, m ∙ b)

-- A deadline that an accepted risk paused is never tracked again: after a change to RISK_ACCEPTED
-- and a later change of the finding to OPEN, REOPENED or IN_PROGRESS, `sla_paused_at` is cleared,
-- but the SLA engine answers PAUSED for the finding at every time.
pub accepted_stays_paused :
    (now i : ℕ) (st : Text) (u t : ℕ) (comment : Text) (x : Option ℕ) (s s1 : Store)
    → (now2 : ℕ) (st2 : Text) (u2 t2 : ℕ) (comment2 : Text) (x2 : Option ℕ) (s2 : Store)
    → transition_finding_status now i st u t comment x s ≡ done s1
    → strip (upper st) ≡ value risk_accepted
    → transition_finding_status now2 i st2 u2 t2 comment2 x2 s1 ≡ done s2
    → is_one_of (strip (upper st2)) (opened ∷ reopened ∷ in_progress ∷ []) ≡ true
    → (g : Finding) × (row i s2.findings ≡ some g)
      × (g.sla_paused_at ≡ none)
      × ((later : ℕ) → sla_now later g ≡ paused)
accepted_stays_paused now i st u t comment x s s1 now2 st2 u2 t2 comment2 x2 s2 h e h2 e2 =
    let (g1, p1, k1, b1) = accepted_row now i st u t comment x s s1 h e in
    let (f, o) = transition-Transitioned now2 i st2 u2 t2 comment2 x2 s1 s2 h2 in
    let (p, q, r) = get_by_id-row i t2 s1.findings f o.found in
    let same : g1 ≡ f = ground (arith, sym p1 ∙ p) in
    let f1 = entered now2 comment2 f.status (strip (upper st2)) f in
    let (a, b) =
      entered_resumed now2 comment2 f.status (strip (upper st2)) f
        (subst (λ y. y.status ≡ value risk_accepted) same b1)
        (subst (λ y. y.sla_status ≡ paused) same k1) e2 in
    let (k, l, m) = sla_status-saved_over now2 f1 f in
    (
      saved_over now2 f1 (some f),
      row-Transitioned now2 i st2 u2 t2 comment2 x2 s1 s2 f o,
      l ∙ b,
      λ later. paused_stays later (saved_over now2 f1 (some f)) (k ∙ a),
    )

sla_status-reopen_accepted :
    (now : ℕ) (f : Finding) → f.sla_status ≡ paused → (reopen_accepted now f).sla_status ≡ paused
unfolding reopen_accepted
sla_status-reopen_accepted now f k =
    paused_stays now
      (record f {
        status = value reopened;
        sla_paused_at = none;
        sla_pause_reason = codes "Risk acceptance expired";
      })
      k

-- The expiry of the acceptance, which the finding's row and its tenant filter find, reopens the
-- finding, and its deadline stays PAUSED too, whatever the engine is asked later.
pub expired_stays_paused :
    (now t i : ℕ) (s : Store) (f : Finding)
    → get_by_id i t s.findings ≡ some f
    → f.status ≡ value risk_accepted
    → f.sla_status ≡ paused
    → (g : Finding) × (row i (reopen_found now t s (get_by_id i t s.findings)).findings ≡ some g)
      × (g.status ≡ value reopened)
      × ((later : ℕ) → sla_now later g ≡ paused)
unfolding reopen_found reopen_accepted add_history update_findings
expired_stays_paused now t i s f h e k =
    let (p, q, r) = get_by_id-row i t s.findings f h in
    let f1 = reopen_accepted now f in
    let (a, b, m) = sla_status-saved_over now f1 f in
    (
      saved_over now f1 (some f),
      rw (h, e, save_finding-unlocked now f1 s.findings)
          (row-saved i now f1 s.findings ∙ rw (q, p) (ground arith)),
      m,
      λ later.
          paused_stays later (saved_over now f1 (some f)) (a ∙ sla_status-reopen_accepted now f k),
    )
