-- ===== src/Lifecycle/Runs.antt =====
-- Histories of a finding as sequences of accepted transitions: core/lifecycle.py.
use sentinel_wp.Base.{◌≡◌, refl, ◌≢◌, true, arith}
use sentinel_wp.Lifecycle.{
  FindingStatus, new, opened, acknowledged, in_progress, remediated, verification_pending, verified,
  risk_accepted, false_positive, closed, reopened, value, allowed, permits, ok, validate_transition,
}
use sentinel_wp.Lifecycle.Validation.{
  of_text-value, can_transition-value, validate_transition-eq-ok_iff,
}

-- The validator lets a finding go from `a` to `b`.
pub record Step (a b : FindingStatus) : Type 0 where
  pub accepted : validate_transition (value a) (value b) ≡ ok b

-- Accepted moves from `a`, every status entered on the way satisfying `P`.
pub data Run (P : FindingStatus → Type 0) (a : FindingStatus) : FindingStatus → Type 0 where
  here : Run P a a
  next : {b c : FindingStatus} → Run P a b → Step b c → P c → Run P a c

pub Step-permits : {a b : FindingStatus} → Step a b → permits a b ≡ true
Step-permits {a} {b} s =
    rw can_transition-value at
      ((validate_transition-eq-ok_iff (value a) (value b) b).0 s.accepted).0

from_closed : (b : FindingStatus) → permits closed b ≡ true → b ≢ reopened → b ≡ closed
unfolding allowed
from_closed b h n = ground arith

-- A closed finding changes status only by being reopened: a history that never enters REOPENED
-- leaves it closed.
pub closed_until_reopened : {b : FindingStatus} → Run (λ s. s ≢ reopened) closed b → b ≡ closed
closed_until_reopened here = refl
closed_until_reopened (next {b} {c} r s n) =
    from_closed c (rw (closed_until_reopened r) at (Step-permits s)) n

-- Where a verification or a verified status can come from.
abbrev pub IsUnverified : FindingStatus → Type 0
IsUnverified s = (s ≢ verified) × (s ≢ remediated) × (s ≢ verification_pending)

into_verified : (a : FindingStatus) → permits a verified ≡ true → IsUnverified a → ⊥
unfolding allowed
into_verified a h n = ground arith

abbrev pub NotFixed : FindingStatus → Type 0
NotFixed s = (s ≢ remediated) × (s ≢ verification_pending)

waits_for_fix : {a b : FindingStatus} → IsUnverified a → Run NotFixed a b → IsUnverified b
waits_for_fix u here = u
waits_for_fix u (next {b} {c} r s p) =
    let before = waits_for_fix u r in
    ((λ e. into_verified b (rw e at (Step-permits s)) before), p.0, p.1)

-- No finding is verified that was not remediated or sent to verification first: a history from any
-- other status that enters neither of the two never reaches VERIFIED.
pub verified_after_remediation :
    {a b : FindingStatus} → IsUnverified a → Run NotFixed a b → b ≢ verified
verified_after_remediation u r = (waits_for_fix u r).0

into_new : (a : FindingStatus) → permits a new ≡ true → a ≡ new
unfolding allowed
into_new a h = ground arith

-- A finding that has left NEW never comes back to it.
pub never_new_again : {a b : FindingStatus} → a ≢ new → Run (λ s. Unit {0}) a b → b ≢ new
never_new_again n here e = n e
never_new_again n (next {b} {c} r s p) e =
    never_new_again n r (into_new b (rw e at (Step-permits s)))

abbrev pub Reaches : FindingStatus → FindingStatus → Type 0
Reaches = Run (λ s. Unit {0})

pub step : (a b : FindingStatus) → permits a b ≡ true → Step a b
step a b h = record {
  accepted =
      (validate_transition-eq-ok_iff (value a) (value b) b).1
        (rw can_transition-value h, of_text-value b);
}

go : {a b : FindingStatus} (c : FindingStatus) → Reaches a b → permits b c ≡ true → Reaches a c
go {b} c r h = next r (step b c h) tt

from_remediated : {a : FindingStatus} → Reaches a remediated → Reaches a closed
unfolding allowed
from_remediated r = go closed (go verified r refl) refl

-- From every status a finding can be closed.
pub Reaches-closed : (a : FindingStatus) → Reaches a closed
unfolding allowed
Reaches-closed new = from_remediated (go remediated (go opened here refl) refl)
Reaches-closed opened = from_remediated (go remediated here refl)
Reaches-closed acknowledged = from_remediated (go remediated here refl)
Reaches-closed in_progress = from_remediated (go remediated here refl)
Reaches-closed remediated = from_remediated here
Reaches-closed verification_pending = go closed (go verified here refl) refl
Reaches-closed verified = go closed here refl
Reaches-closed risk_accepted = go closed here refl
Reaches-closed false_positive = from_remediated (go remediated (go opened here refl) refl)
Reaches-closed closed = here
Reaches-closed reopened = from_remediated (go remediated here refl)
