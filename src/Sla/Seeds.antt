-- ===== src/Sla/Seeds.antt =====
-- DEFAULT_SLA_SEEDS of core/sla_engine.py, as the enabled policies that they become.
use sentinel_wp.Base.{ℕ, Bool, true, Option, none, some, List, [], ◌∷◌}
use sentinel_wp.Sla.{Severity, critical, high, medium, low, severity_value, SlaPolicy}

abbrev seed :
    (id : ℕ)
    → Severity
    → (kev internet_exposed : Option Bool) (due_days warning_days : ℕ) → SlaPolicy
seed id severity kev internet_exposed due_days warning_days = record {
  id = id;
  severity = some (severity_value severity);
  criticality = none;
  asset_criticality = none;
  priority_band = none;
  kev = kev;
  internet_exposed = internet_exposed;
  due_days = due_days;
  warning_days = warning_days;
  enabled = true;
}

abbrev pub default_sla_seeds : List SlaPolicy
default_sla_seeds =
    seed 1 critical (some true) (some true) 1 1
    ∷ seed 2 critical none none 3 1
    ∷ seed 3 high none none 7 3
    ∷ seed 4 medium none none 30 7
    ∷ seed 5 low none none 90 15
    ∷ []
