-- ===== src/RiskAcceptance/Tests.antt =====
-- A finding whose risk is accepted until 200, its acceptance, and the table on the way.
use sentinel_wp.Base.{ℕ, ◌+◌, ◌<◌, In, true, ◌≡◌, refl, false, none, some, [], ◌∷◌, arith}
use sentinel_wp.Base.Text.{Text, codes, text_eq, upper_char, strip}
use sentinel_wp.Lifecycle.{
  value, opened, risk_accepted, reopened, allowed, of_text, can_transition, validate_transition,
}
use sentinel_wp.Sla.{
  medium, on_track, paused, at, is_paused, is_resolved, evaluate_finding_sla_status,
}
use sentinel_wp.Findings.{
  Finding, Store, done, row, get_by_id, get_by_fingerprint, save_finding, user, add_history,
  update_findings,
}
use sentinel_wp.Findings.Transitions.{
  transition_finding_status, move, entered, sla_now, sla_view, history_of,
}
use sentinel_wp.Findings.Rounds.{saved}
use sentinel_wp.Findings.Scans.{
  Context, RawFinding, discovered, identified, after_new, process_one, process_as, process_new,
  store_observation,
}
use sentinel_wp.Findings.Reconciliation.{
  process_scan_findings, process_all, reconcile, is_scan_completed,
}
use sentinel_wp.Findings.Unique.{IsSound}
use sentinel_wp.Differential
use sentinel_wp.Differential.Report.{compute_scan_differential}
use sentinel_wp.RiskAcceptance.{
  World, RiskAcceptance, acceptance, expire_risk_acceptances, expire_tenants, expire_listed,
  list_risk_acceptances, reopen_found,
}
use sentinel_wp.RiskAcceptance.Due.{expires_due}
use sentinel_wp.RiskAcceptance.Pausing.{accepted_stays_paused, expired_stays_paused}
use sentinel_wp.RiskAcceptance.Histories.{
  Reach, empty, scanned, Reach-IsSound, posture, never_reports_reopened,
}

abbrev finding : Finding
finding = record {
  id = 1;
  tenant_id = 4;
  asset_id = 8;
  scan_id = 70;
  category = codes "headers";
  title = codes "x";
  reference = [];
  cve_id = [];
  severity = medium;
  fingerprint = 21;
  status = value opened;
  first_seen_at = 10;
  last_seen_at = 10;
  first_scan_id = 70;
  last_scan_id = 70;
  observation_count = 1;
  version = 3;
  priority_score = 50;
  priority_band = codes "P3";
  kev = false;
  sla_policy_id = none;
  sla_due_at = some (at 500);
  sla_status = on_track;
  sla_paused_at = none;
  sla_pause_reason = [];
  verified_at = none;
  verified_by_scan_id = 0;
  updated_at = none;
  content = 0;
}

abbrev store : Store
store = record { findings = finding ∷ []; observations = []; history = []; scans = [] }

abbrev moved_store : Text → Text → ℕ → Finding → Store → Store
moved_store old target now f s =
    add_history (history_of now (user 5) old (entered now [] old target f))
      (update_findings (saved now (entered now [] old target f) s.findings) s)

abbrev accepted_store : Store
accepted_store = moved_store (value opened) (value risk_accepted) 110 finding store

accepted :
    transition_finding_status 110 1 (codes "RISK_ACCEPTED") 5 4 [] none store ≡ done accepted_store
unfolding transition_finding_status get_by_id move validate_transition can_transition of_text
    allowed strip upper_char save_finding entered
accepted = refl

-- The row of an accepted finding.
abbrev accepted_finding : Finding
accepted_finding = record finding {
  status = value risk_accepted;
  sla_status = paused;
  sla_paused_at = some 110;
  sla_pause_reason = codes "Risk acceptance approved";
  version = 4;
  updated_at = some 110;
}

abbrev reopened_store : Store
reopened_store =
    moved_store (value risk_accepted) (value reopened) 120 accepted_finding accepted_store

reopened_again :
    transition_finding_status 120 1 (codes "REOPENED") 5 4 [] none accepted_store
    ≡ done reopened_store
unfolding transition_finding_status get_by_id move validate_transition can_transition of_text
    allowed strip upper_char save_finding entered sla_now sla_view evaluate_finding_sla_status
    is_paused is_resolved add_history update_findings
reopened_again = refl

accepted_stays_paused_example :
    (g : Finding) × (row 1 reopened_store.findings ≡ some g)
    × (g.sla_paused_at ≡ none)
    × ((later : ℕ) → sla_now later g ≡ paused)
unfolding strip upper_char
accepted_stays_paused_example =
    accepted_stays_paused 110 1 (codes "RISK_ACCEPTED") 5 4 [] none store accepted_store 120
      (codes "REOPENED") 5 4 [] none reopened_store accepted refl reopened_again refl

abbrev accepting : Store
accepting = record store { findings = accepted_finding ∷ [] }

expired_stays_paused_example :
    (g : Finding) × (row 1
        (reopen_found 200 4 accepting (get_by_id 1 4 accepting.findings)).findings
      ≡ some g)
    × (g.status ≡ value reopened)
    × ((later : ℕ) → sla_now later g ≡ paused)
unfolding get_by_id
expired_stays_paused_example =
    expired_stays_paused 200 4 1 accepting accepted_finding refl refl refl

abbrev world : World
world = record {
  acceptances =
      record {
        id = 6;
        tenant_id = 4;
        finding_id = 1;
        requested_by = 5;
        approved_by = 5;
        reason = [];
        business_justification = [];
        compensating_controls = [];
        valid_from = some 110;
        valid_until = some (at 200);
        status = codes "APPROVED";
        created_at = some 110;
        updated_at = none;
      }
      ∷ [];
  store = accepting;
}

one_expires : (expire_risk_acceptances 200 (4 ∷ []) world).0 ≡ 1
unfolding expire_risk_acceptances expire_tenants expire_listed list_risk_acceptances upper_char
one_expires = refl

expires_due_example :
    let w' = (expire_risk_acceptances 200 (4 ∷ []) world).1 in
    ((g : RiskAcceptance) (u : ℕ)
      → acceptance g.id w'.acceptances ≡ some g
      → In g.tenant_id (4 ∷ [])
      → text_eq g.status (codes "APPROVED") ≡ true
      → g.valid_until ≡ some (at u)
      → 200 < u)
    × ((g : RiskAcceptance)
        → acceptance g.id world.acceptances ≡ some g
        → (text_eq g.status (codes "APPROVED") ≡ true
            → (u : ℕ) → g.valid_until ≡ some (at u)
            → 200 < u)
        → acceptance g.id w'.acceptances ≡ some g)
    × (expire_risk_acceptances 200 (4 ∷ []) w' ≡ (0, w'))
expires_due_example = expires_due 200 (4 ∷ []) world (ground arith)

abbrev no_findings : Store
no_findings = record { findings = []; observations = []; history = []; scans = [] }

abbrev context : Context
context = record {
  now = 100;
  scan_id = 70;
  tenant_id = 4;
  asset_id = 8;
  asset = none;
  policies = [];
  name = λ n. n ∷ [];
  url_path = λ t. t;
  sha256 = λ t. 20 + 1;
  calculate_priority_score = λ f c i. (50, codes "P3");
}

abbrev reported : RawFinding
reported = record {
  finding = finding;
  scanner = none;
  finding_type = none;
  location = none;
  path = none;
  cve_id = none;
  vulnerability_id = none;
}

abbrev new_finding : Finding
new_finding = discovered context (identified context reported)

abbrev found_store : Store
found_store = after_new context reported new_finding (saved 100 new_finding []) no_findings

found :
    process_scan_findings context (reported ∷ []) no_findings ≡ done (new_finding ∷ [], found_store)
unfolding process_scan_findings process_all process_one process_as process_new get_by_fingerprint
    save_finding reconcile is_scan_completed after_new store_observation update_findings add_history
found = refl

reached : Reach found_store
reached =
    scanned context (reported ∷ []) no_findings (new_finding ∷ [], found_store)
      (empty no_findings refl) (omega arith) found

Reach-IsSound_example : IsSound found_store.findings
Reach-IsSound_example = Reach-IsSound reached

named_differ : (a b : ℕ) → (a ∷ []) ≡ (b ∷ []) → a ≡ b
named_differ a b h = cc

abbrev scan : ℕ → Text → Differential.Scan
scan n status = record {
  id = n ∷ [];
  tenant_id = 4 ∷ [];
  asset_id = some (8 ∷ []);
  status = status;
  wordpress_version = none;
  wp_version = none;
}

never_reports_reopened_example :
    (compute_scan_differential
      (posture
        (λ n. n ∷ [])
        found_store
        (scan 69 (codes "completed") ∷ scan 70 (codes "completed") ∷ []))
      (69 ∷ [])
      (70 ∷ [])
      (4 ∷ [])
      (some (8 ∷ []))).reopened_count
    ≡ 0
never_reports_reopened_example =
    never_reports_reopened (λ n. n ∷ []) named_differ 4
      (scan 69 (codes "completed") ∷ scan 70 (codes "completed") ∷ []) (69 ∷ []) (70 ∷ [])
      (some (8 ∷ [])) (λ h. cc) reached
