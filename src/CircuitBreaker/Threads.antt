-- ===== src/CircuitBreaker/Threads.antt =====
-- Threads that share a breaker: core/integrations/circuit_breaker.py. A thread may finish long
-- after it entered, in whatever state the others have left the breaker.
use sentinel_wp.Base.{
  dec_lt, ℕ, ◌+◌, ◌-◌, ◌≤◌, ◌<◌, ◌≡◌, none, some, List, [], ◌∷◌, arith, length, leb, if◌then◌else◌,
}
use sentinel_wp.CircuitBreaker.{
  closed, open_, half_open, CircuitBreaker, enter, on_success, on_failure,
}
use sentinel_wp.CircuitBreaker.Invariant.{
  IsConsistent, enter-IsConsistent, on_success-IsConsistent, on_failure-IsConsistent,
}

-- The breaker, and how many threads are between `enter` and the end of their call.
pub record Shared : Type 0 where
  pub breaker : CircuitBreaker
  pub in_flight : ℕ

pub data Step (s : Shared) : Shared → Type 0 where
  admit :
      (now : ℕ) {b : CircuitBreaker}
      → enter now s.breaker ≡ some b
      → Step s (record { breaker = b; in_flight = s.in_flight + 1 })
  reject : (now : ℕ) → enter now s.breaker ≡ none → Step s s
  succeed :
      (now : ℕ)
      → 0 < s.in_flight
      → Step s (record { breaker = on_success now s.breaker; in_flight = s.in_flight - 1 })
  fail :
      (now : ℕ)
      → 0 < s.in_flight
      → Step s (record { breaker = on_failure now s.breaker; in_flight = s.in_flight - 1 })
  pass_through :
      0 < s.in_flight → Step s (record { breaker = s.breaker; in_flight = s.in_flight - 1 })

pub data Reach (s : Shared) : Shared → Type 0 where
  here : Reach s s
  next : {t u : Shared} → Reach s t → Step t u → Reach s u

Step-IsConsistent : {s t : Shared} → Step s t → IsConsistent s.breaker → IsConsistent t.breaker
Step-IsConsistent {s} (admit now {b} e) v = enter-IsConsistent now s.breaker b v e
Step-IsConsistent (reject now e) v = v
Step-IsConsistent {s} (succeed now h) v = on_success-IsConsistent now s.breaker v
Step-IsConsistent {s} (fail now h) v = on_failure-IsConsistent now s.breaker v
Step-IsConsistent (pass_through h) v = v

-- However the calls of several threads interleave, a breaker that starts so is closed exactly while
-- its failure counter stands below the threshold.
pub Reach-IsConsistent :
    {s t : Shared} → Reach s t → IsConsistent s.breaker → IsConsistent t.breaker
Reach-IsConsistent here v = v
Reach-IsConsistent (next r st) v = Step-IsConsistent st (Reach-IsConsistent r v)

-- Failures and successes at the given times, with nothing in between.
unfoldable pub fail_at : List ℕ → CircuitBreaker → CircuitBreaker
fail_at [] b = b
fail_at (t ∷ ts) b = fail_at ts (on_failure t b)

unfoldable pub succeed_at : List ℕ → CircuitBreaker → CircuitBreaker
succeed_at [] b = b
succeed_at (t ∷ ts) b = succeed_at ts (on_success t b)

on_failure-closed :
    (t : ℕ) (b : CircuitBreaker)
    → b.state ≡ closed
    → ((on_failure t b).state
        ≡ (if leb b.failure_threshold (b.failure_count + 1) then open_ else closed))
      × ((on_failure t b).failure_count ≡ b.failure_count + 1)
      × ((on_failure t b).failure_threshold ≡ b.failure_threshold)
unfolding on_failure
on_failure-closed t b h = ground arith

on_failure-open : (t : ℕ) (b : CircuitBreaker) → b.state ≡ open_ → (on_failure t b).state ≡ open_
unfolding on_failure
on_failure-open t b h = ground arith

fail_at-open : (ts : List ℕ) (b : CircuitBreaker) → b.state ≡ open_ → (fail_at ts b).state ≡ open_
unfolding fail_at
fail_at-open [] b h = h
fail_at-open (t ∷ ts) b h = fail_at-open ts (on_failure t b) (on_failure-open t b h)

-- A closed breaker whose count stands below the threshold, and sees one failure after the other,
-- opens at the failure that brings the count to the threshold, and at none before.
pub fail_at-state :
    (ts : List ℕ) (b : CircuitBreaker)
    → b.state ≡ closed
    → b.failure_count < b.failure_threshold
    → (fail_at ts b).state
      ≡ (if leb b.failure_threshold (b.failure_count + length ts) then open_ else closed)
unfolding fail_at
fail_at-state [] b h lt = ground arith
fail_at-state (t ∷ ts) b h lt = grind (
  arith,
  on_failure-closed t b h,
  fail_at-open ts (on_failure t b),
  fail_at-state ts (on_failure t b),
)

on_success-half_open :
    (t : ℕ) (b : CircuitBreaker)
    → b.state ≡ half_open
    → b.success_count + 1 < b.half_open_success_threshold
    → ((on_success t b).state ≡ half_open)
      × ((on_success t b).success_count ≡ b.success_count + 1)
      × ((on_success t b).half_open_success_threshold ≡ b.half_open_success_threshold)
unfolding on_success
on_success-half_open t b h lt = ground arith

on_success-closes :
    (t : ℕ) (b : CircuitBreaker)
    → b.state ≡ half_open
    → b.half_open_success_threshold ≤ b.success_count + 1
    → ((on_success t b).state ≡ closed) × ((on_success t b).failure_count ≡ 0)
unfolding on_success
on_success-closes t b h le = ground arith

on_success-closed :
    (t : ℕ) (b : CircuitBreaker)
    → b.state ≡ closed
    → ((on_success t b).state ≡ closed) × ((on_success t b).failure_count ≡ 0)
unfolding on_success
on_success-closed t b h = ground arith

succeed_at-closed :
    (ts : List ℕ) (b : CircuitBreaker)
    → b.state ≡ closed
    → b.failure_count ≡ 0
    → ((succeed_at ts b).state ≡ closed) × ((succeed_at ts b).failure_count ≡ 0)
unfolding succeed_at
succeed_at-closed [] b h e = (h, e)
succeed_at-closed (t ∷ ts) b h e =
    let (h', e') = on_success-closed t b h in succeed_at-closed ts (on_success t b) h' e'

-- A half-open breaker that has seen fewer successes than their threshold, and sees one after the
-- other, closes with no failure counted as soon as they reach it, and stays half-open until then.
pub succeed_at-state :
    (ts : List ℕ) (b : CircuitBreaker)
    → b.state ≡ half_open
    → b.success_count < b.half_open_success_threshold
    → let b' = succeed_at ts b in
      (b.half_open_success_threshold ≤ b.success_count + length ts
        → (b'.state ≡ closed) × (b'.failure_count ≡ 0))
      × (b.success_count + length ts < b.half_open_success_threshold → b'.state ≡ half_open)
unfolding succeed_at
succeed_at-state [] b h lt = (λ le. absurd (omega arith), λ _. h)
succeed_at-state (t ∷ ts) b h lt =
    elim (dec_lt (b.success_count + 1) b.half_open_success_threshold) [
      | yes more ↦
          let (h', e', k') = on_success-half_open t b h more in
          let (done, waits) = succeed_at-state ts (on_success t b) h' (omega arith) in
          (λ le. done (omega arith), λ still. waits (omega arith))
      | no last ↦
          let (h', e') = on_success-closes t b h (omega arith) in
          (λ le. succeed_at-closed ts (on_success t b) h' e', λ still. absurd (omega arith))
    ]
