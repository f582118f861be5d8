-- ===== src/CircuitBreaker.antt =====
-- The circuit breaker: core/integrations/circuit_breaker.py. `call` holds the lock only in `enter`
-- and again in `on_success` or `on_failure`, so calls of several threads interleave between these
-- three; `call` is the run of one thread alone. Times are ticks of `time.time()`.
pub mod Invariant
pub mod Threads
mod Tests
use sentinel_wp.Base.{
  ℕ, ◌+◌, ◌-◌, Bool, true, false, ◌||◌, ◌&&◌, Option, none, some, leb, ltb, ◌==◌, if◌then◌else◌,
}

pub data State : Type 0 where
  closed open_ half_open : State

pub record CircuitBreaker : Type 0 where
  pub failure_threshold : ℕ
  pub recovery_timeout : ℕ
  pub half_open_success_threshold : ℕ
  pub state : State
  pub failure_count : ℕ
  pub success_count : ℕ
  pub last_state_change : ℕ
  pub last_failure_time : ℕ

-- `__init__` at the time `now`.
abbrev pub init :
    (failure_threshold recovery_timeout half_open_success_threshold now : ℕ) → CircuitBreaker
init failure_threshold recovery_timeout half_open_success_threshold now = record {
  failure_threshold = failure_threshold;
  recovery_timeout = recovery_timeout;
  half_open_success_threshold = half_open_success_threshold;
  state = closed;
  failure_count = 0;
  success_count = 0;
  last_state_change = now;
  last_failure_time = 0;
}

-- `now - self.last_failure_time >= self.recovery_timeout`, a difference of signed times.
abbrev pub has_recovered : ℕ → CircuitBreaker → Bool
has_recovered now b = leb (b.recovery_timeout + b.last_failure_time) now

abbrev is_open : State → Bool
is_open open_ = true
is_open _ = false

-- The first locked block of `call`; `none` is CircuitBreakerOpenException.
pub enter : ℕ → CircuitBreaker → Option CircuitBreaker
enter now b =
    if is_open b.state
    then if has_recovered now b
      then some (record b { state = half_open; success_count = 0; last_state_change = now })
      else none
    else some b

abbrev success_in : State → ℕ → CircuitBreaker → CircuitBreaker
success_in half_open now b =
    if leb b.half_open_success_threshold (b.success_count + 1)
    then record b { state = closed; failure_count = 0; success_count = 0; last_state_change = now }
    else record b { success_count = b.success_count + 1 }
success_in closed now b = record b { failure_count = 0 }
success_in open_ now b = b

pub on_success : ℕ → CircuitBreaker → CircuitBreaker
on_success now b = success_in b.state now b

abbrev can_trip : State → Bool
can_trip open_ = false
can_trip _ = true

pub on_failure : ℕ → CircuitBreaker → CircuitBreaker
on_failure now b =
    if can_trip b.state && leb b.failure_threshold (b.failure_count + 1)
    then record b {
      state = open_;
      failure_count = b.failure_count + 1;
      last_state_change = now;
      last_failure_time = now;
    }
    else record b { failure_count = b.failure_count + 1; last_failure_time = now }

-- How `func` ended: a result, an exception, or the exception of another breaker that it called,
-- which passes through without being counted.
pub data Outcome : Type 0 where
  returned raised raised_open : Outcome

abbrev finish : Outcome → ℕ → CircuitBreaker → CircuitBreaker
finish returned now b = on_success now b
finish raised now b = on_failure now b
finish raised_open now b = b

-- `call`, alone: the breaker afterwards, and the outcome of `func` if it was called at all.
pub call : Outcome → (entered ended : ℕ) → CircuitBreaker → CircuitBreaker × Option Outcome
unfolding enter on_success on_failure
call outcome entered ended b = elim (enter entered b) [
  | none ↦ (b, none)
  | some b' ↦ (finish outcome ended b', some outcome)
]
