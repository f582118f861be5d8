-- ===== src/Lifecycle/Tests.antt =====
-- The life cycle at concrete statuses.
use sentinel_wp.Base.{◌≡◌, refl, ◌≢◌, arith}
use sentinel_wp.Base.Text.{codes, upper_char}
use sentinel_wp.Lifecycle.{
  FindingStatus, opened, risk_accepted, closed, reopened, verified, new, of_text, allowed, ok,
  invalid, can_transition, validate_transition, unknown_target, cannot_transition,
}
use sentinel_wp.Lifecycle.Runs.{
  step, Run, here, next, IsUnverified, NotFixed, Reaches, verified_after_remediation,
}

validate-mixed_case : validate_transition (codes "closed") (codes "Reopened") ≡ ok reopened
unfolding validate_transition can_transition of_text upper_char allowed
validate-mixed_case = refl

validate-skip :
    validate_transition (codes "NEW") (codes "CLOSED")
    ≡ invalid (codes "NEW") (codes "CLOSED") cannot_transition
unfolding validate_transition can_transition of_text upper_char allowed
validate-skip = refl

validate-blocked :
    validate_transition (codes "NEW") (codes "BLOCKED")
    ≡ invalid (codes "NEW") (codes "BLOCKED") unknown_target
unfolding validate_transition can_transition of_text upper_char allowed
validate-blocked = refl

closed_again : Run (λ s. s ≢ reopened) closed closed
closed_again = next here (step closed closed refl) (ground arith)

accepted_risk : Run NotFixed opened risk_accepted
unfolding allowed
accepted_risk = next here (step opened risk_accepted refl) (ground arith)

opened-IsUnverified : IsUnverified opened
opened-IsUnverified = ground arith

verified_after_remediation_example : ◌≢◌ {A = FindingStatus} risk_accepted verified
verified_after_remediation_example = verified_after_remediation opened-IsUnverified accepted_risk

opened_risk : Reaches opened risk_accepted
unfolding allowed
opened_risk = next here (step opened risk_accepted refl) tt

opened-ne-new : ◌≢◌ {A = FindingStatus} opened new
opened-ne-new = ground arith
