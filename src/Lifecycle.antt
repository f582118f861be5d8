-- ===== src/Lifecycle.antt =====
-- The finding life cycle: core/lifecycle.py and core/finding_state_machine.py. A status travels as
-- text; `of_text` is the enum's constructor, `value` its attribute.
pub mod Runs
pub mod Validation
mod Tests
use sentinel_wp.Base.{
  ℕ, ◌≡◌, refl, Bool, true, false, Option, none, some, List, [], ◌∷◌, arith, ◌==◌, if◌then◌else◌,
  find, any_of,
}
use sentinel_wp.Base.Text.{Text, codes, text_eq, upper}

pub data FindingStatus : Type 0 where
  new opened acknowledged in_progress remediated verification_pending : FindingStatus
  verified risk_accepted false_positive closed reopened : FindingStatus

abbrev pub value : FindingStatus → Text
value new = codes "NEW"
value opened = codes "OPEN"
value acknowledged = codes "ACKNOWLEDGED"
value in_progress = codes "IN_PROGRESS"
value remediated = codes "REMEDIATED"
value verification_pending = codes "VERIFICATION_PENDING"
value verified = codes "VERIFIED"
value risk_accepted = codes "RISK_ACCEPTED"
value false_positive = codes "FALSE_POSITIVE"
value closed = codes "CLOSED"
value reopened = codes "REOPENED"

abbrev members : List FindingStatus
members =
    new ∷ opened ∷ acknowledged ∷ in_progress ∷ remediated ∷ verification_pending ∷ verified
    ∷ risk_accepted ∷ false_positive ∷ closed ∷ reopened ∷ []

-- `FindingStatus(text)`; `none` is its ValueError.
unfoldable pub of_text : Text → Option FindingStatus
of_text t = find (λ s. text_eq (value s) t) members

abbrev index : FindingStatus → ℕ
index new = 0
index opened = 1
index acknowledged = 2
index in_progress = 3
index remediated = 4
index verification_pending = 5
index verified = 6
index risk_accepted = 7
index false_positive = 8
index closed = 9
index reopened = 10

-- `==` on the enum.
abbrev pub same : FindingStatus → FindingStatus → Bool
same a b = index a == index b

-- ALLOWED_FINDING_TRANSITIONS. The enum has no BLOCKED, so `hasattr` selects IN_PROGRESS.
unfoldable pub allowed : FindingStatus → List FindingStatus
allowed new = opened ∷ acknowledged ∷ in_progress ∷ false_positive ∷ risk_accepted ∷ []
allowed opened =
    acknowledged ∷ in_progress ∷ remediated ∷ verification_pending ∷ risk_accepted ∷ false_positive
    ∷ []
allowed acknowledged = in_progress ∷ remediated ∷ risk_accepted ∷ false_positive ∷ opened ∷ []
allowed in_progress = remediated ∷ acknowledged ∷ opened ∷ risk_accepted ∷ in_progress ∷ []
allowed remediated = verification_pending ∷ verified ∷ in_progress ∷ reopened ∷ []
allowed verification_pending = verified ∷ reopened ∷ in_progress ∷ remediated ∷ []
allowed verified = closed ∷ reopened ∷ []
allowed risk_accepted = opened ∷ reopened ∷ in_progress ∷ closed ∷ []
allowed false_positive = opened ∷ reopened ∷ []
allowed closed = reopened ∷ []
allowed reopened =
    acknowledged ∷ in_progress ∷ remediated ∷ risk_accepted ∷ false_positive ∷ opened ∷ []

abbrev permits : FindingStatus → FindingStatus → Bool
permits a b = if same a b then true else any_of (same b) (allowed a)

abbrev permits_known : Option FindingStatus → Option FindingStatus → Bool
permits_known (some a) (some b) = permits a b
permits_known _ _ = false

-- Either status that is no member of the enum gives `False`.
unfoldable pub can_transition : Text → Text → Bool
can_transition current target = permits_known (of_text (upper current)) (of_text (upper target))

-- The message of the error.
pub data Reason : Type 0 where
  unknown_current unknown_target cannot_transition : Reason

-- InvalidStateTransitionError, with the two statuses that it reports.
pub data Validated : Type 0 where
  ok : FindingStatus → Validated
  invalid : (current_status target_status : Text) → Reason → Validated

unfoldable pub validate_transition : Text → Text → Validated
validate_transition current target = elim (of_text (upper current)) [
  | none ↦ invalid current target unknown_current
  | some a ↦ elim (of_text (upper target)) [
    | none ↦ invalid (value a) target unknown_target
    | some b ↦
        if same a b
        then ok b
        else if can_transition (value a) (value b)
        then ok b
        else invalid (value a) (value b) cannot_transition
  ]
]

-- get_allowed_transitions on text; an unknown status has the empty set.
pub get_allowed_transitions : Text → List FindingStatus
get_allowed_transitions status = elim (of_text status) [ none ↦ [] | some s ↦ allowed s ]
