-- ===== src/Findings/Scans.antt =====
-- The findings of a scan enter the storage: process_scan_findings of core/db/adapter.py. The audit
-- log and the evidence store are left out; the priority (floats) is a parameter.
use sentinel_wp.Base.{ℕ, ◌+◌, Bool, true, Option, none, some, List, [], ◌∷◌, if◌then◌else◌}
use sentinel_wp.Base.Text.{Text, codes, text_eq}
use sentinel_wp.Lifecycle.{
  opened, remediated, verification_pending, verified, closed, reopened, value,
}
use sentinel_wp.Sla.{
  SlaPolicy, at, on_track, match_sla_policy, calculate_sla_due_date, or_text, text_or_empty,
}
use sentinel_wp.Findings.{
  Finding, Observation, History, Store, scanner, Action, finding_created, finding_reopened,
  get_by_fingerprint, save_finding, save_observation, add_history, update_findings, Outcome, done,
  ◌>>=◌,
}
use sentinel_wp.Findings.Fingerprint.{or_default, compute_finding_fingerprint}
use sentinel_wp.Findings.Transitions.{is_one_of, sla_view}

-- A finding as a scanner reports it, with the entries of `raw_data` that are looked up.
pub record RawFinding : Type 0 where
  pub finding : Finding
  pub scanner : Option Text
  pub finding_type : Option Text
  pub location : Option Text
  pub path : Option Text
  pub cve_id : Option Text
  pub vulnerability_id : Option Text

pub record Asset : Type 0 where
  pub criticality : Text
  pub internet_exposure : Text
  pub internet_facing : Bool

-- What the call is given and what it reads from elsewhere. `name` is the text of an id, empty for
-- an absent one.
pub record Context : Type 0 where
  pub now : ℕ
  pub scan_id : ℕ
  pub tenant_id : ℕ
  pub asset_id : ℕ
  pub asset : Option Asset
  pub policies : List SlaPolicy
  pub name : ℕ → Text
  pub url_path : Text → Text
  pub sha256 : Text → ℕ
  pub calculate_priority_score : Finding → (criticality : Text) (internet_facing : Bool) → ℕ × Text

abbrev criticality_of : Option Asset → Text
criticality_of none = codes "medium"
criticality_of (some a) = a.criticality

abbrev internet_facing_of : Option Asset → Bool
internet_facing_of none = true
internet_facing_of (some a) =
    if text_eq a.internet_exposure []
    then a.internet_facing
    else text_eq a.internet_exposure (codes "external")

abbrev scanner_of : RawFinding → Text
scanner_of rf =
    or_default (text_or_empty (or_text rf.scanner (some rf.finding.category))) (codes "general")

-- `rf` with its tenant, asset, scan and fingerprint.
unfoldable pub identified : Context → RawFinding → Finding
unfolding compute_finding_fingerprint
identified c rf = record rf.finding {
  tenant_id = c.tenant_id;
  asset_id = c.asset_id;
  scan_id = c.scan_id;
  fingerprint =
      compute_finding_fingerprint c.url_path c.sha256 (c.name c.tenant_id) (c.name c.asset_id)
        (scanner_of rf)
        (or_default (text_or_empty (or_text rf.finding_type (some rf.finding.category)))
          rf.finding.title)
        (text_or_empty (or_text rf.location (or_text rf.path (some rf.finding.reference))))
        (or_default
          (text_or_empty (or_text (some rf.finding.cve_id) (or_text rf.cve_id rf.vulnerability_id)))
          rf.finding.title)
        [];
}

unfoldable pub should_reopen : Text → Bool
should_reopen status = is_one_of status (verified ∷ closed ∷ remediated ∷ verification_pending ∷ [])

abbrev pub scan_history : Context → Action → (old : Option Text) → Finding → History
scan_history c action old f = record {
  tenant_id = c.tenant_id;
  finding_id = f.id;
  actor = scanner;
  action = action;
  old_status = old;
  new_status = f.status;
  created_at = c.now;
}

abbrev pub observation_of : Context → RawFinding → Finding → Observation
observation_of c rf f = record {
  finding_id = f.id;
  scan_id = c.scan_id;
  tenant_id = c.tenant_id;
  asset_id = c.asset_id;
  scanner_id = scanner_of rf;
  observed_at = c.now;
  severity = f.severity;
  reference = rf.finding.reference;
  status = f.status;
}

-- The known finding, seen once more.
unfoldable pub seen_again : Context → Finding → Finding
unfolding should_reopen
seen_again c existing =
    let f : Finding = record existing {
      last_seen_at = c.now;
      last_scan_id = c.scan_id;
      observation_count = existing.observation_count + 1;
      scan_id = c.scan_id;
    } in
    if should_reopen existing.status
    then record f { status = value reopened; verified_at = none; verified_by_scan_id = 0 }
    else f

abbrev with_priority : ℕ × Text → Finding → Finding
with_priority p f = record f { priority_score = p.0; priority_band = p.1 }

abbrev with_deadline : ℕ × Option ℕ → Finding → Finding
with_deadline d f = record f {
  sla_due_at = some (at d.0);
  sla_policy_id = d.1;
  sla_status = on_track;
}

-- A finding that the tenant did not have.
unfoldable pub discovered : Context → Finding → Finding
unfolding match_sla_policy calculate_sla_due_date sla_view
discovered c rf =
    let crit = criticality_of c.asset in
    let facing = internet_facing_of c.asset in
    let f : Finding = with_priority (c.calculate_priority_score rf crit facing) (record rf {
      first_seen_at = c.now;
      last_seen_at = c.now;
      first_scan_id = c.scan_id;
      last_scan_id = c.scan_id;
      observation_count = 1;
      status = value opened;
    }) in
    with_deadline
      (calculate_sla_due_date c.now (at c.now) f.priority_band
        (match_sla_policy (sla_view f) c.policies (some crit) facing))
      f

unfoldable pub store_observation : Observation → Store → Store
unfolding save_observation
store_observation o s = record s { observations = save_observation o s.observations }

unfoldable pub add_if : Bool → History → Store → Store
unfolding add_history
add_if b h s = if b then add_history h s else s

-- What the branch of a known finding leaves, once the save gave the table `fs`.
unfoldable pub after_known : Context → RawFinding → Finding → List Finding → Store → Store
unfolding store_observation add_if seen_again update_findings should_reopen
after_known c rf existing fs s = store_observation (observation_of c rf (seen_again c existing)) (
    update_findings fs (
      add_if (should_reopen existing.status)
        (scan_history c finding_reopened (some existing.status) (seen_again c existing)) s))

-- The body of the loop, with the finding that has the fingerprint: the new state and the finding
-- that is appended to `processed`.
unfoldable pub process_known : Context → RawFinding → Finding → Store → Outcome (Finding × Store)
unfolding seen_again save_finding after_known
process_known c rf existing s = save_finding c.now (seen_again c existing) none s.findings >>= λ fs.
    done (seen_again c existing, after_known c rf existing fs s)

unfoldable pub after_new : Context → RawFinding → Finding → List Finding → Store → Store
unfolding store_observation update_findings add_history
after_new c rf f fs s =
    add_history (scan_history c finding_created none f)
      (store_observation (observation_of c rf f) (update_findings fs s))

unfoldable pub process_new : Context → RawFinding → Store → Outcome (Finding × Store)
unfolding discovered identified save_finding after_new
process_new c rf s =
    let f = discovered c (identified c rf) in
    save_finding c.now f none s.findings >>= λ fs. done (f, after_new c rf f fs s)

unfoldable pub process_as :
    Context → RawFinding → Option Finding → Store → Outcome (Finding × Store)
unfolding process_known process_new
process_as c rf none s = process_new c rf s
process_as c rf (some existing) s = process_known c rf existing s

unfoldable pub process_one : Context → RawFinding → Store → Outcome (Finding × Store)
unfolding process_as identified get_by_fingerprint
process_one c rf s =
    process_as c rf (get_by_fingerprint c.tenant_id (identified c rf).fingerprint s.findings) s
