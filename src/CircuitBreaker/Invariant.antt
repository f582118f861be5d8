-- ===== src/CircuitBreaker/Invariant.antt =====
-- What the breaker's counter says of its state: core/integrations/circuit_breaker.py.
use sentinel_wp.Base.{ℕ, ◌≤◌, ◌<◌, ◌≡◌, ◌≢◌, ◌⊎◌, ◌↔◌, true, false, none, some, arith}
use sentinel_wp.CircuitBreaker.{
  State, closed, open_, half_open, CircuitBreaker, init, has_recovered, enter, on_success,
  on_failure, Outcome, returned, raised, call,
}

-- The breaker is closed exactly while it has counted fewer failures than the threshold.
abbrev pub Counts : State → ℕ → ℕ → Type 0
Counts closed failures threshold = failures < threshold
Counts open_ failures threshold = threshold ≤ failures
Counts half_open failures threshold = threshold ≤ failures

pub record IsConsistent (b : CircuitBreaker) : Type 0 where
  pub positive : 0 < b.failure_threshold
  pub counts : Counts b.state b.failure_count b.failure_threshold

pub init-IsConsistent :
    (threshold timeout successes now : ℕ)
    → 0 < threshold
    → IsConsistent (init threshold timeout successes now)
init-IsConsistent threshold timeout successes now h = ground arith

pub enter-IsConsistent :
    (now : ℕ) (b b' : CircuitBreaker) → IsConsistent b → enter now b ≡ some b' → IsConsistent b'
unfolding enter
enter-IsConsistent now b b' v h = ground arith

pub on_success-IsConsistent :
    (now : ℕ) (b : CircuitBreaker) → IsConsistent b → IsConsistent (on_success now b)
unfolding on_success
on_success-IsConsistent now b v = ground arith

pub on_failure-IsConsistent :
    (now : ℕ) (b : CircuitBreaker) → IsConsistent b → IsConsistent (on_failure now b)
unfolding on_failure
on_failure-IsConsistent now b v = ground arith

-- `enter` refuses exactly while the breaker is open and its recovery time has not passed.
pub enter-eq-none_iff :
    (now : ℕ) (b : CircuitBreaker)
    → (enter now b ≡ none) ↔ ((b.state ≡ open_) × (has_recovered now b ≡ false))
unfolding enter
enter-eq-none_iff now b = ground arith

-- A breaker that is open before its recovery time does not call the function and does not change,
-- whatever the function would do; at any other time the function is called.
pub call_fails_fast :
    (o : Outcome) (entered ended : ℕ) (b : CircuitBreaker)
    → ((b.state ≡ open_) × (has_recovered entered b ≡ false) → call o entered ended b ≡ (b, none))
      × ((b.state ≢ open_) ⊎ (has_recovered entered b ≡ true) → (call o entered ended b).1 ≡ some o)
unfolding call enter
call_fails_fast o entered ended b = (ground arith, ground arith)

-- One failed probe opens a half-open breaker again, although the failure counter is tested against
-- the full threshold: the counter is not reset before the breaker closes.
pub probe_failure_reopens :
    (entered ended : ℕ) (b : CircuitBreaker)
    → IsConsistent b
    → b.state ≢ closed
    → has_recovered entered b ≡ true
    → let b' = (call raised entered ended b).0 in
      (b'.state ≡ open_) × (b'.last_failure_time ≡ ended)
unfolding call enter on_failure
probe_failure_reopens entered ended b v n h = ground arith

-- A call keeps the counter consistent with the state.
pub call-IsConsistent :
    (o : Outcome) (entered ended : ℕ) (b : CircuitBreaker)
    → IsConsistent b
    → IsConsistent (call o entered ended b).0
unfolding call enter on_success on_failure
call-IsConsistent returned entered ended b v = ground arith
call-IsConsistent _ entered ended b v = ground arith
