-- ===== src/CircuitBreaker/Tests.antt =====
-- A breaker that opens after two failures, waits ten ticks and closes after two probes.
use sentinel_wp.Base.{ℕ, ◌≡◌, refl, ◌≢◌, List, [], ◌∷◌, arith, length, leb, if◌then◌else◌, ◌+◌}
use sentinel_wp.CircuitBreaker.{
  closed, open_, half_open, CircuitBreaker, init, enter, on_success, on_failure, returned, call,
}
use sentinel_wp.CircuitBreaker.Invariant.{IsConsistent, init-IsConsistent}
use sentinel_wp.CircuitBreaker.Threads.{
  Reach, here, next, admit, fail, succeed, Reach-IsConsistent, fail_at, fail_at-state,
}

abbrev three : List ℕ
three = 101 ∷ 102 ∷ 103 ∷ []

abbrev two : List ℕ
two = 121 ∷ 122 ∷ []

abbrev fresh : CircuitBreaker
fresh = init 2 10 2 100

abbrev tripped : CircuitBreaker
tripped = record fresh {
  state = open_;
  failure_count = 2;
  last_state_change = 105;
  last_failure_time = 105;
}

abbrev probing : CircuitBreaker
probing = record tripped { state = half_open; last_state_change = 120 }

two_failures : fail_at (101 ∷ 105 ∷ []) fresh ≡ tripped
unfolding fail_at on_failure
two_failures = refl

call_after_recovery : (call returned 120 121 tripped).0 ≡ record probing { success_count = 1 }
unfolding call
call_after_recovery = refl

fresh-IsConsistent : IsConsistent fresh
fresh-IsConsistent = init-IsConsistent 2 10 2 100 (omega arith)

tripped-IsConsistent : IsConsistent tripped
tripped-IsConsistent = ground arith

open-ne-closed : tripped.state ≢ closed
open-ne-closed = ground arith

-- Two threads enter; one fails, the other succeeds.
overlapping :
    Reach
      (record { breaker = fresh; in_flight = 0 })
      (record { breaker = on_success 103 (on_failure 102 fresh); in_flight = 0 })
unfolding enter
overlapping =
    next (next (next (next here (admit 101 refl)) (admit 101 refl)) (fail 102 (omega arith)))
      (succeed 103 (omega arith))

Reach-IsConsistent_example : IsConsistent (on_success 103 (on_failure 102 fresh))
Reach-IsConsistent_example = Reach-IsConsistent overlapping fresh-IsConsistent

fail_at-state_example :
    (fail_at three fresh).state
    ≡ (if leb fresh.failure_threshold (fresh.failure_count + length three) then open_ else closed)
fail_at-state_example = fail_at-state three fresh refl (omega arith)
