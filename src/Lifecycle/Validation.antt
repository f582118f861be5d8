-- ===== src/Lifecycle/Validation.antt =====
-- What `validate_transition` accepts: core/lifecycle.py.
use sentinel_wp.Base.{
  ◌||◌, ◌≡◌, refl, ◌↔◌, inl, inr, true, false, none, some, arith, any_of, Option-cases,
  if◌then◌else◌,
}
use sentinel_wp.Base.Text.{lower, upper-lower, Text, upper, upper_char}
use sentinel_wp.Lifecycle.{
  FindingStatus, new, value, unknown_current, unknown_target, of_text, same, permits, permits_known,
  can_transition, ok, invalid, cannot_transition, validate_transition, get_allowed_transitions,
}

-- Upper-casing and parsing a status's own text gives the status back.
pub of_text-value : (s : FindingStatus) → of_text (upper (value s)) ≡ some s
unfolding of_text upper_char
of_text-value new = refl
of_text-value _ = refl

of_text-own : (s : FindingStatus) → of_text (value s) ≡ some s
unfolding of_text
of_text-own new = refl
of_text-own _ = refl

pub can_transition-value : (a b : FindingStatus) → can_transition (value a) (value b) ≡ permits a b
unfolding can_transition
can_transition-value a b = rw (of_text-value a, of_text-value b, can_transition) refl

-- The parsed forms of both functions.
can_transition-some :
    (c t : Text) (a b : FindingStatus)
    → of_text (upper c) ≡ some a
    → of_text (upper t) ≡ some b
    → can_transition c t ≡ permits a b
unfolding can_transition
can_transition-some c t a b p q = rw (p, q, can_transition) refl

validate_transition-some :
    (c t : Text) (a b : FindingStatus)
    → of_text (upper c) ≡ some a
    → of_text (upper t) ≡ some b
    → validate_transition c t
      ≡ (if permits a b then ok b else invalid (value a) (value b) cannot_transition)
unfolding validate_transition
validate_transition-some c t a b p q =
    rw (p, q, validate_transition) (rw can_transition-value (ground arith))

-- `validate_transition` returns a status exactly when `can_transition` allows the move, and the
-- status that it returns is the parsed target.
pub validate_transition-eq-ok_iff :
    (current target : Text) (r : FindingStatus)
    → (validate_transition current target ≡ ok r)
      ↔ ((can_transition current target ≡ true) × (of_text (upper target) ≡ some r))
validate_transition-eq-ok_iff c t r = elim (Option-cases (of_text (upper c))) [
  | inl e ↦ unfold validate_transition can_transition in ground arith
  | inr (a, e) ↦ elim (Option-cases (of_text (upper t))) [
    | inl e' ↦ unfold validate_transition can_transition in ground arith
    | inr (b, e') ↦
        rw (validate_transition-some c t a b e e', can_transition-some c t a b e e', e')
          (ground arith)
  ]
]

-- A refusal names the first thing that is wrong: an unknown current status; else an unknown target;
-- else, for two known statuses, a move that the table lacks.
pub validate_transition_refusals :
    (c t : Text)
    → (of_text (upper c) ≡ none → validate_transition c t ≡ invalid c t unknown_current)
      × ((a : FindingStatus)
          → of_text (upper c) ≡ some a
          → of_text (upper t) ≡ none
          → validate_transition c t ≡ invalid (value a) t unknown_target)
      × ((a b : FindingStatus)
          → of_text (upper c) ≡ some a
          → of_text (upper t) ≡ some b
          → can_transition c t ≡ false
          → validate_transition c t ≡ invalid (value a) (value b) cannot_transition)
validate_transition_refusals c t = (
  (λ e. unfold validate_transition in ground arith),
  (λ a e e'. unfold validate_transition in ground arith),
  λ a b e e' h.
      rw (validate_transition-some c t a b e e') (ground (arith, can_transition-some c t a b e e')),
)

-- The moves offered for a status are, with the status itself, those that `can_transition` accepts.
pub get_allowed_transitions-eq :
    (a b : FindingStatus)
    → can_transition (value a) (value b)
      ≡ (same a b || any_of (same b) (get_allowed_transitions (value a)))
unfolding get_allowed_transitions
get_allowed_transitions-eq a b =
    rw (of_text-own a, can_transition-value a b, get_allowed_transitions) (ground arith)

-- Letter case does not matter.
pub can_transition-lower : (c t : Text) → can_transition (lower c) (lower t) ≡ can_transition c t
unfolding can_transition
can_transition-lower c t =
    λ i. permits_known (of_text (upper-lower c i)) (of_text (upper-lower t i))
