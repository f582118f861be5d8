-- ===== src/Findings/Tests.antt =====
-- A table with two findings of tenant 4 and asset 8, and a scan that sees one of them.
use sentinel_wp.Base.{ℕ, ◌+◌, ◌≡◌, refl, false, none, some, List, [], ◌∷◌, arith}
use sentinel_wp.Base.Text.{Text, codes, upper_char, lower_char, strip}
use sentinel_wp.Lifecycle.{
  value, verified, verification_pending, reopened, allowed, of_text, can_transition,
  validate_transition,
}
use sentinel_wp.Sla.{medium, on_track}
use sentinel_wp.Findings.{
  Finding, Store, user, done, get_by_id, save_finding, add_history, update_findings,
}
use sentinel_wp.Findings.Rounds.{saved}
use sentinel_wp.Findings.Transitions.{history_of, transition_finding_status, move, entered}
use sentinel_wp.Findings.Scans.{Context, RawFinding, identified, should_reopen}
use sentinel_wp.Findings.Reconciliation.{is_scan_completed}
use sentinel_wp.Findings.Unique.{IsSound}
use sentinel_wp.Findings.Effect.{Effect, process_scan_findings-Effect, status_after}

abbrev finding : (id fingerprint : ℕ) (status : Text) → Finding
finding id fingerprint status = record {
  id = id;
  tenant_id = 4;
  asset_id = 8;
  scan_id = 70;
  category = codes "headers";
  title = codes "x";
  reference = [];
  cve_id = [];
  severity = medium;
  fingerprint = fingerprint;
  status = status;
  first_seen_at = 10;
  last_seen_at = 10;
  first_scan_id = 70;
  last_scan_id = 70;
  observation_count = 1;
  version = 3;
  priority_score = 50;
  priority_band = codes "P3";
  kev = false;
  sla_policy_id = none;
  sla_due_at = none;
  sla_status = on_track;
  sla_paused_at = none;
  sla_pause_reason = [];
  verified_at = none;
  verified_by_scan_id = 0;
  updated_at = none;
  content = 0;
}

abbrev store : Store
store = record {
  findings =
      finding 1 21 (value verification_pending) ∷ finding 2 22 (value verification_pending) ∷ [];
  observations = [];
  history = [];
  scans = record { id = 71; tenant_id = 4; status = codes "completed"; scan_mode = [] } ∷ [];
}

abbrev context : Context
context = record {
  now = 100;
  scan_id = 71;
  tenant_id = 4;
  asset_id = 8;
  asset = none;
  policies = [];
  name = λ n. n ∷ [];
  url_path = λ t. t;
  sha256 = λ t. 20 + 1;
  calculate_priority_score = λ f c i. (50, codes "P3");
}

abbrev reported : RawFinding
reported = record {
  finding = finding 9 0 [];
  scanner = none;
  finding_type = none;
  location = none;
  path = none;
  cve_id = none;
  vulnerability_id = none;
}

store_IsSound : IsSound store.findings
store_IsSound = record {
  keyed = ground arith;
  unique = λ i j f g p q t e. ground arith;
  tenanted = λ i f p. ground arith;
}

one_reopened :
    status_after context (reported ∷ []) store (finding 1 21 (value verification_pending))
    ≡ value reopened
unfolding identified should_reopen
one_reopened = refl

one_verified :
    status_after context (reported ∷ []) store (finding 2 22 (value verification_pending))
    ≡ value verified
unfolding identified should_reopen is_scan_completed lower_char
one_verified = refl

process_scan_findings-Effect_example :
    (r : List Finding × Store) × Effect context (reported ∷ []) store r
process_scan_findings-Effect_example =
    process_scan_findings-Effect context (reported ∷ []) store (omega arith) store_IsSound

abbrev pending_one : Finding
pending_one = finding 1 21 (value verification_pending)

abbrev moved_one : Finding
moved_one = entered 110 [] (value verification_pending) (value verified) pending_one

-- After user 5 verified finding 1.
abbrev moved_store : Store
moved_store =
    add_history (history_of 110 (user 5) (value verification_pending) moved_one)
      (update_findings (saved 110 moved_one store.findings) store)

moved_once :
    transition_finding_status 110 1 (codes " verified") 5 4 [] (some 3) store ≡ done moved_store
unfolding transition_finding_status get_by_id move validate_transition can_transition of_text
    allowed strip upper_char save_finding entered
moved_once = refl

abbrev first_save : Finding
first_save = record pending_one { category = codes "first" }

abbrev second_save : Finding
second_save = record pending_one { category = codes "second" }
