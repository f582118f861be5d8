-- ===== src/RiskAcceptance.antt =====
-- Accepted risks: the risk acceptances of core/db/repositories/governance_repo.py and the task
-- expire_risk_acceptances of core/tasks/remediation_tasks.py, over the storage of findings. The
-- audit log is left out.
pub mod Expiry
pub mod Due
pub mod Pausing
pub mod Histories
mod Tests
use sentinel_wp.Base.{
  ℕ, ◌+◌, Bool, true, false, ◌&&◌, Option, none, some, List, [], ◌∷◌, ◌==◌, leb, if◌then◌else◌,
  keep, find,
}
use sentinel_wp.Base.Text.{Text, codes, text_eq, upper}
use sentinel_wp.Base.Table.{get_row, put_row}
use sentinel_wp.Lifecycle.{value, risk_accepted, reopened}
use sentinel_wp.Sla.{Stamp, at, malformed}
use sentinel_wp.Findings.{
  Finding, History, Store, risk_governance, risk_acceptance_expired, get_by_id, save_finding,
  add_history, update_findings, Outcome, done, not_found, locked, refused, default_tenant,
  or_number,
}
use sentinel_wp.Findings.Fingerprint.{or_default}
use sentinel_wp.Findings.Transitions.{sla_now}

-- `valid_until` is `none` for the empty text.
pub record RiskAcceptance : Type 0 where
  pub id : ℕ
  pub tenant_id : ℕ
  pub finding_id : ℕ
  pub requested_by : ℕ
  pub approved_by : ℕ
  pub reason : Text
  pub business_justification : Text
  pub compensating_controls : Text
  pub valid_from : Option ℕ
  pub valid_until : Option Stamp
  pub status : Text
  pub created_at : Option ℕ
  pub updated_at : Option ℕ

abbrev pub acceptance : ℕ → List RiskAcceptance → Option RiskAcceptance
acceptance = get_row (λ (ra : RiskAcceptance). ra.id)

abbrev time_or : ℕ → Option ℕ → Option ℕ
time_or now none = some now
time_or now (some t) = some t

unfoldable pub saved_acceptance :
    (now : ℕ) → RiskAcceptance → Option RiskAcceptance → RiskAcceptance
saved_acceptance now ra (some model) = record model {
  status = ra.status;
  approved_by = ra.approved_by;
  reason = ra.reason;
  business_justification = ra.business_justification;
  compensating_controls = ra.compensating_controls;
  valid_until = ra.valid_until;
  updated_at = some now;
}
saved_acceptance now ra none = record ra {
  tenant_id = or_number ra.tenant_id default_tenant;
  status = or_default ra.status (codes "PENDING");
  valid_from = time_or now ra.valid_from;
  created_at = time_or now ra.created_at;
}

unfoldable pub save_risk_acceptance :
    (now : ℕ) → RiskAcceptance → List RiskAcceptance → List RiskAcceptance
unfolding saved_acceptance
save_risk_acceptance now ra ras =
    put_row (λ (x : RiskAcceptance). x.id) (saved_acceptance now ra (acceptance ra.id ras)) ras

-- The rows with the status, in the order of the table.
unfoldable pub list_risk_acceptances : ℕ → Text → List RiskAcceptance → List RiskAcceptance
list_risk_acceptances tenant_id status ras =
    keep (λ (ra : RiskAcceptance). ra.tenant_id == tenant_id && text_eq ra.status (upper status))
      ras

abbrev with_status : (now : ℕ) → Text → RiskAcceptance → RiskAcceptance
with_status now status ra = record ra { status = status; updated_at = some now }

-- Whether there was such a row, and the table.
unfoldable pub revoke_risk_acceptance :
    (now ra_id tenant_id : ℕ) → List RiskAcceptance → Bool × List RiskAcceptance
revoke_risk_acceptance now ra_id tenant_id [] = (false, [])
revoke_risk_acceptance now ra_id tenant_id (ra ∷ ras) =
    if ra.id == ra_id && ra.tenant_id == tenant_id
    then (true, with_status now (codes "REVOKED") ra ∷ ras)
    else let rest = revoke_risk_acceptance now ra_id tenant_id ras in (rest.0, ra ∷ rest.1)

-- The two tables that the task writes.
pub record World : Type 0 where
  pub acceptances : List RiskAcceptance
  pub store : Store

-- The finding whose acceptance expired.
unfoldable pub reopen_accepted : (now : ℕ) → Finding → Finding
unfolding sla_now
reopen_accepted now f0 =
    let f : Finding = record f0 {
      status = value reopened;
      sla_paused_at = none;
      sla_pause_reason = codes "Risk acceptance expired";
    } in
    record f { sla_status = sla_now now f }

abbrev expiry_history : (now tenant_id : ℕ) → Finding → History
expiry_history now tenant_id f = record {
  tenant_id = tenant_id;
  finding_id = f.id;
  actor = risk_governance;
  action = risk_acceptance_expired;
  old_status = some (value risk_accepted);
  new_status = value reopened;
  created_at = now;
}

-- An exception is logged, and the loop goes on.
abbrev stored : Store → (List Finding → Store) → Outcome (List Finding) → Store
stored s k (done fs) = k fs
stored s k (not_found i) = s
stored s k (locked i v) = s
stored s k (refused a b) = s

unfoldable pub reopen_found : (now tenant_id : ℕ) → Store → Option Finding → Store
unfolding reopen_accepted save_finding add_history update_findings
reopen_found now tenant_id s none = s
reopen_found now tenant_id s (some f) =
    if text_eq f.status (value risk_accepted)
    then stored s (λ fs. add_history (expiry_history now tenant_id f) (update_findings fs s))
        (save_finding now (reopen_accepted now f) none s.findings)
    else s

-- The row is written and its finding looked up.
unfoldable pub expire : (now tenant_id : ℕ) → RiskAcceptance → World → World
unfolding save_risk_acceptance reopen_found get_by_id
expire now tenant_id ra w = record {
  acceptances = save_risk_acceptance now (record ra { status = codes "EXPIRED" }) w.acceptances;
  store = reopen_found now tenant_id w.store (get_by_id ra.finding_id tenant_id w.store.findings);
}

-- A missing end is skipped, and one that does not parse is an exception before any write.
abbrev pub is_over : (now : ℕ) → Option Stamp → Bool
is_over now none = false
is_over now (some malformed) = false
is_over now (some (at t)) = leb t now

unfoldable pub expire_listed : (now tenant_id : ℕ) → List RiskAcceptance → ℕ × World → ℕ × World
unfolding expire
expire_listed now tenant_id [] r = r
expire_listed now tenant_id (ra ∷ ras) r =
    expire_listed now tenant_id ras
      (if is_over now ra.valid_until then (r.0 + 1, expire now tenant_id ra r.1) else r)

unfoldable pub expire_tenants : (now : ℕ) → (tenants : List ℕ) → ℕ × World → ℕ × World
unfolding expire_listed list_risk_acceptances
expire_tenants now [] r = r
expire_tenants now (t ∷ ts) r =
    expire_tenants now ts
      (expire_listed now t (list_risk_acceptances t (codes "APPROVED") r.1.acceptances) r)

-- The number of expired acceptances, and the tables.
unfoldable pub expire_risk_acceptances : (now : ℕ) → (tenants : List ℕ) → World → ℕ × World
unfolding expire_tenants
expire_risk_acceptances now tenants w = expire_tenants now tenants (0, w)
