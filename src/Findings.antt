-- ===== src/Findings.antt =====
-- The storage of findings: core/db/repositories/finding_repo.py over the tables of core/db/models.py.
-- An id is a number, 0 for an absent one; 1 is the id "default-tenant". `content` stands for the
-- columns that the service copies without looking at them.
pub mod Fingerprint
pub mod Transitions
pub mod Scans
pub mod Reconciliation
pub mod Rounds
pub mod Versions
pub mod Unique
pub mod Observed
pub mod Verified
pub mod Effect
mod Tests
use sentinel_wp.Base.{
  ℕ, ◌+◌, Bool, true, false, not, ◌&&◌, ◌||◌, Option, none, some, List, [], ◌∷◌, ◌++◌, ◌==◌,
  if◌then◌else◌, find,
}
use sentinel_wp.Base.Text.{Text}
use sentinel_wp.Base.Table.{get_row, put_row}
use sentinel_wp.Sla.{Severity, SlaStatus, Stamp}

pub record Finding : Type 0 where
  pub id : ℕ
  pub tenant_id : ℕ
  pub asset_id : ℕ
  pub scan_id : ℕ
  pub category : Text
  pub title : Text
  pub reference : Text
  pub cve_id : Text
  pub severity : Severity
  pub fingerprint : ℕ
  pub status : Text
  pub first_seen_at : ℕ
  pub last_seen_at : ℕ
  pub first_scan_id : ℕ
  pub last_scan_id : ℕ
  pub observation_count : ℕ
  pub version : ℕ
  pub priority_score : ℕ
  pub priority_band : Text
  pub kev : Bool
  pub sla_policy_id : Option ℕ
  pub sla_due_at : Option Stamp
  pub sla_status : SlaStatus
  pub sla_paused_at : Option ℕ
  pub sla_pause_reason : Text
  pub verified_at : Option ℕ
  pub verified_by_scan_id : ℕ
  pub updated_at : Option ℕ
  pub content : ℕ

pub record Observation : Type 0 where
  pub finding_id : ℕ
  pub scan_id : ℕ
  pub tenant_id : ℕ
  pub asset_id : ℕ
  pub scanner_id : Text
  pub observed_at : ℕ
  pub severity : Severity
  pub reference : Text
  pub status : Text

pub data Actor : Type 0 where
  user : ℕ → Actor
  scanner risk_governance sla_monitor : Actor

pub data Action : Type 0 where
  status_transition finding_created finding_reopened finding_verified : Action
  risk_acceptance_expired sla_breached : Action

-- A row of the history; its message is left out.
pub record History : Type 0 where
  pub tenant_id : ℕ
  pub finding_id : ℕ
  pub actor : Actor
  pub action : Action
  pub old_status : Option Text
  pub new_status : Text
  pub created_at : ℕ

-- The fields of a scan that the reconciliation and the scan task read.
pub record Scan : Type 0 where
  pub id : ℕ
  pub tenant_id : ℕ
  pub status : Text
  pub scan_mode : Text

pub record Store : Type 0 where
  pub findings : List Finding
  pub observations : List Observation
  pub history : List History
  pub scans : List Scan

abbrev pub default_tenant : ℕ
default_tenant = 1

-- `x or d` for a number.
abbrev pub or_number : ℕ → ℕ → ℕ
or_number n d = if n == 0 then d else n

abbrev pub row : ℕ → List Finding → Option Finding
row = get_row (λ (f : Finding). f.id)

-- A tenant filter that is empty is none.
abbrev pub in_tenant : ℕ → ℕ → Bool
in_tenant tenant_id row_tenant = tenant_id == 0 || row_tenant == tenant_id

abbrev owned : ℕ → Option Finding → Option Finding
owned tenant_id none = none
owned tenant_id (some f) = if in_tenant tenant_id f.tenant_id then some f else none

unfoldable pub get_by_id : ℕ → ℕ → List Finding → Option Finding
get_by_id finding_id tenant_id fs = owned tenant_id (row finding_id fs)

abbrev pub has_key : ℕ → ℕ → Finding → Bool
has_key tenant_id fingerprint f = f.tenant_id == tenant_id && f.fingerprint == fingerprint

unfoldable pub get_by_fingerprint : ℕ → ℕ → List Finding → Option Finding
get_by_fingerprint tenant_id fingerprint fs = find (has_key tenant_id fingerprint) fs

-- What a call ends with. An exception rolls the session back, so only `done` has a new state.
pub data Outcome (A : Type 0) : Type 0 where
  done : A → Outcome A
  not_found : ℕ → Outcome A
  locked : (finding_id expected_version : ℕ) → Outcome A
  refused : (current_status target_status : Text) → Outcome A

infixl 5 ◌>>=◌
abbrev pub ◌>>=◌ : {A B : Type 0} → Outcome A → (A → Outcome B) → Outcome B
done a >>= k = k a
not_found n >>= k = not_found n
locked n v >>= k = locked n v
refused s t >>= k = refused s t

-- `expected is not None and current != expected`
abbrev pub conflicts : Option ℕ → ℕ → Bool
conflicts none current = false
conflicts (some expected) current = not (current == expected)

abbrev pub expected_of : Option ℕ → ℕ
expected_of none = 0
expected_of (some v) = v

abbrev updated_or : ℕ → Option ℕ → Option ℕ
updated_or now none = some now
updated_or now (some t) = some t

-- What the row of a finding holds after its save: over an existing row, or as a new one.
unfoldable pub saved_over : ℕ → Finding → Option Finding → Finding
saved_over now f (some model) = record f {
  tenant_id = or_number f.tenant_id default_tenant;
  version = or_number model.version 1 + 1;
  updated_at = some now;
}
saved_over now f none = record f {
  tenant_id = or_number f.tenant_id default_tenant;
  version = or_number f.version 1;
  updated_at = updated_or now f.updated_at;
}

abbrev pub is_locked : Option ℕ → Option Finding → Bool
is_locked expected none = false
is_locked expected (some model) = conflicts expected (or_number model.version 1)

-- The second half of `save_finding`: the check of the version and the write, on the row that the
-- SELECT returned. The UPDATE is by id alone.
abbrev pub write_finding :
    (now : ℕ)
    → Finding
    → (expected_version : Option ℕ) (model : Option Finding) → List Finding
    → Outcome (List Finding)
write_finding now f expected model fs =
    if is_locked expected model
    then locked f.id (expected_of expected)
    else done (put_row (λ (r : Finding). r.id) (saved_over now f model) fs)

-- The SELECT and the write with no other transaction in between.
unfoldable pub save_finding :
    (now : ℕ) → Finding → (expected_version : Option ℕ) → List Finding → Outcome (List Finding)
unfolding saved_over
save_finding now f expected fs = write_finding now f expected (row f.id fs) fs

-- One observation for each finding and scan: a second one overwrites what it saw.
abbrev observes : ℕ → ℕ → Observation → Bool
observes finding_id scan_id o = o.finding_id == finding_id && o.scan_id == scan_id

abbrev seen_as : Observation → Observation → Observation
seen_as obs model = record model {
  observed_at = obs.observed_at;
  severity = obs.severity;
  reference = obs.reference;
  status = obs.status;
}

unfoldable pub save_observation : Observation → List Observation → List Observation
save_observation obs [] = obs ∷ []
save_observation obs (o ∷ os) =
    if observes obs.finding_id obs.scan_id o
    then seen_as obs o ∷ os
    else o ∷ save_observation obs os

unfoldable pub add_history : History → Store → Store
add_history h s = record s { history = s.history ++ h ∷ [] }

unfoldable pub update_findings : List Finding → Store → Store
update_findings fs s = record s { findings = fs }
