-- ===== src/Sla.antt =====
-- Remediation deadlines: core/sla_engine.py over SLAPolicy and Finding of core/models.py and
-- SLAStatus of core/lifecycle.py. Times are microseconds, and the text of a time is what
-- `fromisoformat` makes of it.
pub mod Seeds
pub mod Matching
pub mod Deadlines
mod Tests
use sentinel_wp.Base.{
  ℕ, ◌+◌, ◌*◌, Bool, true, false, not, ◌&&◌, ◌||◌, Option, none, some, List, [], ◌∷◌, leb, ◌==◌,
  if◌then◌else◌, find, is_some,
}
use sentinel_wp.Base.Text.{Text, codes, text_eq, upper, lower}
use sentinel_wp.Base.Sort.{sort_desc}
use sentinel_wp.Lifecycle

pub data Severity : Type 0 where
  critical high medium low info : Severity

abbrev pub severity_value : Severity → Text
severity_value critical = codes "critical"
severity_value high = codes "high"
severity_value medium = codes "medium"
severity_value low = codes "low"
severity_value info = codes "info"

pub data SlaStatus : Type 0 where
  on_track warning breached paused complied not_applicable : SlaStatus

-- A text that should hold a time.
pub data Stamp : Type 0 where
  at : ℕ → Stamp
  malformed : Stamp

pub record SlaPolicy : Type 0 where
  pub id : ℕ
  pub severity : Option Text
  pub criticality : Option Text
  pub asset_criticality : Option Text
  pub priority_band : Option Text
  pub kev : Option Bool
  pub internet_exposed : Option Bool
  pub due_days : ℕ
  pub warning_days : ℕ
  pub enabled : Bool

-- The fields of a finding that the engine reads. `sla_paused` says that `sla_paused_at` is set.
pub record Finding : Type 0 where
  pub severity : Severity
  pub priority_band : Text
  pub kev : Bool
  pub status : Text
  pub sla_status : SlaStatus
  pub sla_paused : Bool
  pub sla_due_at : Option Stamp

abbrev pub day : ℕ
day = 86400000000

-- `a or b` for texts that may be absent.
abbrev pub or_text : Option Text → Option Text → Option Text
or_text none b = b
or_text (some []) b = b
or_text (some (c ∷ s)) b = some (c ∷ s)

-- `if text:`
abbrev pub is_set : Option Text → Bool
is_set none = false
is_set (some []) = false
is_set (some (c ∷ s)) = true

abbrev pub text_or_empty : Option Text → Text
text_or_empty none = []
text_or_empty (some s) = s

abbrev points : Bool → ℕ → ℕ
points b n = if b then n else 0

abbrev policy_crit : SlaPolicy → Option Text
policy_crit p = or_text p.asset_criticality p.criticality

unfoldable pub policy_specificity : SlaPolicy → ℕ
policy_specificity p =
    points (is_some p.kev) 8
    + points (is_some p.internet_exposed) 4
    + points (is_set (policy_crit p)) 4
    + points (is_set p.priority_band) 2
    + points (is_set p.severity) 2

-- A criterion that is unset, or that the folded text meets.
abbrev meets : (Text → Text) → Option Text → Text → Bool
meets fold criterion actual =
    not (is_set criterion) || text_eq (fold (text_or_empty criterion)) actual

abbrev same_bool : Bool → Bool → Bool
same_bool true b = b
same_bool false b = not b

abbrev agrees : Option Bool → Bool → Bool
agrees none b = true
agrees (some a) b = same_bool a b

-- The body of the loop: whether the policy is returned.
unfoldable pub applies :
    Finding → (asset_criticality : Option Text) (internet_facing : Bool) → SlaPolicy → Bool
applies f asset_criticality internet_facing p =
    p.enabled
    && (meets lower p.severity (severity_value f.severity)
        && (meets lower (policy_crit p) (lower (text_or_empty asset_criticality))
            && (meets upper p.priority_band (upper f.priority_band)
                && (agrees p.kev f.kev && agrees p.internet_exposed internet_facing))))

unfoldable pub match_sla_policy :
    Finding
    → List SlaPolicy
    → (asset_criticality : Option Text) (internet_facing : Bool) → Option SlaPolicy
unfolding applies policy_specificity sort_desc
match_sla_policy f policies asset_criticality internet_facing =
    find (applies f asset_criticality internet_facing) (sort_desc policy_specificity policies)

-- DEFAULT_SLA_DAYS and DEFAULT_WARNING_DAYS, with the defaults of their `get`.
unfoldable pub default_days : Text → ℕ
default_days band =
    if text_eq band (codes "P1")
    then 2
    else if text_eq band (codes "P2")
    then 14
    else if text_eq band (codes "P3")
    then 30
    else if text_eq band (codes "P4")
    then 90
    else 30

unfoldable pub default_warning_days : Text → ℕ
default_warning_days band =
    if text_eq band (codes "P1")
    then 1
    else if text_eq band (codes "P2")
    then 3
    else if text_eq band (codes "P3")
    then 7
    else if text_eq band (codes "P4")
    then 15
    else 5

abbrev pub start_of : (now : ℕ) → Stamp → ℕ
start_of now (at t) = t
start_of now malformed = now

-- The policy, if it is given and enabled.
abbrev pub in_force : Option SlaPolicy → Option SlaPolicy
in_force none = none
in_force (some p) = if p.enabled then some p else none

abbrev due_days_of : Text → Option SlaPolicy → ℕ
due_days_of band none = default_days (upper band)
due_days_of band (some p) = p.due_days

abbrev id_of : Option SlaPolicy → Option ℕ
id_of none = none
id_of (some p) = some p.id

unfoldable pub calculate_sla_due_date :
    (now : ℕ) → Stamp → (priority_band : Text) → Option SlaPolicy → ℕ × Option ℕ
calculate_sla_due_date now created_at band policy =
    (start_of now created_at + due_days_of band (in_force policy) * day, id_of (in_force policy))

abbrev is_status : SlaStatus → SlaStatus → Bool
is_status paused paused = true
is_status breached breached = true
is_status _ _ = false

unfoldable pub is_paused : Finding → Bool
is_paused f =
    text_eq (upper f.status) (Lifecycle.value Lifecycle.risk_accepted)
    || (f.sla_paused || is_status f.sla_status paused)

-- The status is in `terminal_statuses`.
unfoldable pub is_resolved : Finding → Bool
is_resolved f =
    text_eq (upper f.status) (Lifecycle.value Lifecycle.remediated)
    || (text_eq (upper f.status) (Lifecycle.value Lifecycle.verified)
        || (text_eq (upper f.status) (Lifecycle.value Lifecycle.closed)
            || text_eq (upper f.status) (Lifecycle.value Lifecycle.false_positive)))

abbrev warning_days_of : Text → Option SlaPolicy → ℕ
warning_days_of band none = default_warning_days (upper band)
warning_days_of band (some p) = p.warning_days

-- The two comparisons of `now`; `due - warning <= now` without negative times.
abbrev pub by_time : (due warning_days now : ℕ) → SlaStatus
by_time due warning_days now =
    if leb due now
    then breached
    else if leb due (now + warning_days * day)
    then warning
    else on_track

abbrev by_stamp : (warning_days now : ℕ) → Option Stamp → SlaStatus
by_stamp warning_days now none = not_applicable
by_stamp warning_days now (some malformed) = not_applicable
by_stamp warning_days now (some (at due)) = by_time due warning_days now

unfoldable pub evaluate_finding_sla_status : Finding → Option SlaPolicy → (now : ℕ) → SlaStatus
evaluate_finding_sla_status f policy now =
    if is_paused f
    then paused
    else if is_resolved f
    then if is_status f.sla_status breached then breached else complied
    else by_stamp (warning_days_of f.priority_band (in_force policy)) now f.sla_due_at
