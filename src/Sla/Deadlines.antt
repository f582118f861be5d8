-- ===== src/Sla/Deadlines.antt =====
-- The SLA status in time: core/sla_engine.py.
use sentinel_wp.Base.{
  ℕ, ◌+◌, ◌*◌, ◌≤◌, ◌<◌, ◌≡◌, ◌↔◌, Bool, false, Option, none, some, arith, leb, if◌then◌else◌,
}
use sentinel_wp.Base.Text.{Text, codes, text_eq, upper}
use sentinel_wp.Sla.{
  SlaStatus, on_track, warning, breached, Stamp, at, SlaPolicy, Finding, day, in_force,
  default_days, default_warning_days, by_time, calculate_sla_due_date, is_paused, is_resolved,
  evaluate_finding_sla_status,
}

-- How late a status says that a finding is.
abbrev pub lateness : SlaStatus → ℕ
lateness warning = 1
lateness breached = 2
lateness _ = 0

by_time_mono :
    (due w now later : ℕ)
    → now ≤ later
    → lateness (by_time due w now) ≤ lateness (by_time due w later)
by_time_mono due w now later h = ground arith

-- With nothing but time passing, the status of a finding never gets less late.
pub evaluate_mono :
    (f : Finding) (policy : Option SlaPolicy) (now later : ℕ)
    → now ≤ later
    → lateness (evaluate_finding_sla_status f policy now)
      ≤ lateness (evaluate_finding_sla_status f policy later)
unfolding evaluate_finding_sla_status
evaluate_mono f policy now later h = ground arith

-- A finding that is neither paused nor resolved.
abbrev pub IsOpen : Finding → Type 0
IsOpen f = (is_paused f ≡ false) × (is_resolved f ≡ false)

abbrev pub with_deadline : Finding → (now : ℕ) → Stamp → Option SlaPolicy → Finding
with_deadline f now created policy = record f {
  sla_due_at = some (at (calculate_sla_due_date now created f.priority_band policy).0);
}

windows_ladder :
    (a b c d : Bool)
    → (if a then 1 else if b then 3 else if c then 7 else if d then 15 else 5)
      < (if a then 2 else if b then 14 else if c then 30 else if d then 90 else 30)
windows_ladder a b c d = ground arith

default_windows : (band : Text) → default_warning_days band < default_days band
unfolding default_days default_warning_days
default_windows band =
    windows_ladder (text_eq band (codes "P1")) (text_eq band (codes "P2"))
      (text_eq band (codes "P3")) (text_eq band (codes "P4"))

by_time_at_start :
    (created due_days warning_days : ℕ)
    → by_time (created + due_days * day) warning_days created ≡ (
        if leb due_days 0
        then breached
        else if leb due_days warning_days
        then warning
        else on_track)
by_time_at_start created due_days warning_days = ground arith

by_time_default :
    (created : ℕ) (band : Text)
    → by_time (created + default_days band * day) (default_warning_days band) created ≡ on_track
by_time_default created band =
    rw (by_time_at_start created (default_days band) (default_warning_days band))
      (ground (arith, default_windows band))

-- An open finding whose deadline was calculated at its creation is, at that moment, on track where
-- no policy is in force; under a policy in force it is breached if the policy gives no day, at once
-- in warning if the warning window is as long as the deadline, and on track otherwise.
pub status_at_creation :
    (f : Finding) (policy : Option SlaPolicy) (created : ℕ)
    → IsOpen (with_deadline f created (at created) policy)
    → let s =
        evaluate_finding_sla_status (with_deadline f created (at created) policy) policy created in
      (in_force policy ≡ none → s ≡ on_track)
      × ((p : SlaPolicy)
          → in_force policy ≡ some p
          → s ≡ (
              if leb p.due_days 0
              then breached
              else if leb p.due_days p.warning_days
              then warning
              else on_track))
unfolding evaluate_finding_sla_status calculate_sla_due_date
status_at_creation f policy created h = (
  (λ e. rw (h.0, h.1, e) (by_time_default created (upper f.priority_band))),
  λ p e. rw (h.0, h.1, e) (by_time_at_start created p.due_days p.warning_days),
)

by_time_exact :
    (due w now : ℕ)
    → ((by_time due w now ≡ breached) ↔ (due ≤ now))
      × ((by_time due w now ≡ warning) ↔ ((now < due) × (due ≤ now + w * day)))
      × ((by_time due w now ≡ on_track) ↔ (now + w * day < due))
by_time_exact due w now = ground arith

-- Where a policy is in force, an open finding whose deadline was calculated at its creation is
-- BREACHED exactly from `due_days` after its creation on, in WARNING exactly for the last
-- `warning_days` before that, and ON_TRACK exactly until then; and as time passes it goes from one to
-- the next and never back.
pub status_by_age :
    (f : Finding) (p : SlaPolicy) (policy : Option SlaPolicy) (created now later : ℕ)
    → IsOpen (with_deadline f created (at created) policy)
    → in_force policy ≡ some p
    → now ≤ later
    → let status =
        evaluate_finding_sla_status (with_deadline f created (at created) policy) policy in
      let due = created + p.due_days * day in
      ((status now ≡ breached) ↔ (due ≤ now))
      × ((status now ≡ warning) ↔ ((now < due) × (due ≤ now + p.warning_days * day)))
      × ((status now ≡ on_track) ↔ (now + p.warning_days * day < due))
      × (lateness (status now) ≤ lateness (status later))
unfolding evaluate_finding_sla_status calculate_sla_due_date
status_by_age f p policy created now later h e le =
    let due = created + p.due_days * day in
    let exact = by_time_exact due p.warning_days now in
    rw (h.0, h.1, e) (exact.0, exact.1, exact.2, by_time_mono due p.warning_days now later le)
