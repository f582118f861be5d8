-- ===== src/Sla/Tests.antt =====
-- A critical, exploited finding on an exposed asset, under the default policies.
use sentinel_wp.Base.{
  ℕ, ◌≤◌, ◌≡◌, refl, true, false, Option, none, some, arith, In, ◌*◌, ◌+◌, ◌<◌, ◌↔◌,
}
use sentinel_wp.Base.Text.{codes, upper_char, lower_char}
use sentinel_wp.Sla.{
  default_days, critical, at, SlaPolicy, Finding, on_track, warning, breached, not_applicable, day,
  policy_specificity, applies, match_sla_policy, calculate_sla_due_date,
  evaluate_finding_sla_status, is_paused, is_resolved,
}
use sentinel_wp.Sla.Seeds.{default_sla_seeds}
use sentinel_wp.Sla.Matching.{match_sla_policy_most_specific}
use sentinel_wp.Sla.Deadlines.{lateness, status_by_age, IsOpen, with_deadline}

abbrev exploited : Finding
exploited = record {
  severity = critical;
  priority_band = codes "p1";
  kev = true;
  status = codes "open";
  sla_status = not_applicable;
  sla_paused = false;
  sla_due_at = some (at (10 * day));
}

abbrev due_days : Option SlaPolicy → ℕ
due_days none = 0
due_days (some p) = p.due_days

exposed_policy : due_days (match_sla_policy exploited default_sla_seeds none true) ≡ 1
unfolding match_sla_policy lower_char upper_char
exposed_policy = refl

internal_policy : due_days (match_sla_policy exploited default_sla_seeds none false) ≡ 3
unfolding match_sla_policy lower_char upper_char
internal_policy = refl

two_days : (calculate_sla_due_date 0 (at day) (codes "p1") none).0 ≡ 3 * day
unfolding calculate_sla_due_date upper_char default_days
two_days = refl

match_sla_policy_most_specific_example :
    ((p : SlaPolicy)
      → match_sla_policy exploited default_sla_seeds none true ≡ some p
      → In p default_sla_seeds
        × (applies exploited none true p ≡ true)
        × ((q : SlaPolicy)
            → In q default_sla_seeds
            → applies exploited none true q ≡ true
            → policy_specificity q ≤ policy_specificity p))
    × (match_sla_policy exploited default_sla_seeds none true ≡ none
        → (q : SlaPolicy) → In q default_sla_seeds
        → applies exploited none true q ≡ false)
match_sla_policy_most_specific_example =
    match_sla_policy_most_specific exploited default_sla_seeds none true

-- Three days, a warning on the last.
abbrev three_days : SlaPolicy
three_days = record {
  id = 4;
  severity = none;
  criticality = none;
  asset_criticality = none;
  priority_band = none;
  kev = none;
  internet_exposed = none;
  due_days = 3;
  warning_days = 1;
  enabled = true;
}

exploited-IsOpen : IsOpen (with_deadline exploited 0 (at 0) (some three_days))
unfolding is_paused is_resolved upper_char
exploited-IsOpen = (refl, refl)

status_by_age_example :
    let status =
      evaluate_finding_sla_status
        (with_deadline exploited 0 (at 0) (some three_days))
        (some three_days) in
    ((status (2 * day) ≡ breached) ↔ (0 + 3 * day ≤ 2 * day))
    × ((status (2 * day) ≡ warning) ↔ ((2 * day < 0 + 3 * day) × (0 + 3 * day ≤ 2 * day + 1 * day)))
    × ((status (2 * day) ≡ on_track) ↔ (2 * day + 1 * day < 0 + 3 * day))
    × (lateness (status (2 * day)) ≤ lateness (status (4 * day)))
status_by_age_example =
    status_by_age exploited three_days (some three_days) 0 (2 * day) (4 * day) exploited-IsOpen refl
      (omega arith)

exploited_site : IsOpen (with_deadline exploited day (at day) none)
unfolding is_paused is_resolved upper_char
exploited_site = (refl, refl)
