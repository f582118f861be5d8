-- ===== src/RateLimiter/Tests.antt =====
-- A limit of two requests in ten seconds.
use sentinel_wp.Base.{
  ℕ, ◌≡◌, refl, true, false, some, List, [], ◌∷◌, arith, length, count_if, ◌≤◌, ◌+◌, ◌*◌,
}
use sentinel_wp.RateLimiter.{
  second, Requests, times_of, in_memory, recent, verdict, is_allowed, fail_closed, fallback, fails,
  answers, Pipeline,
}
use sentinel_wp.RateLimiter.Window.{admissions, in_window}
use sentinel_wp.RateLimiter.Local.{allowed_times, local_admissions_bound, local_retry_admitted}

abbrev used : Requests
used = (7, 1000000 ∷ 3000000 ∷ []) ∷ []

abbrev calls : List ℕ
calls = 1000000 ∷ 3000000 ∷ 4000000 ∷ 11500000 ∷ 12000000 ∷ []

-- The third and the last request come too early.
admitted_calls : admissions 7 2 10 calls [] ≡ 1000000 ∷ 3000000 ∷ 11500000 ∷ []
unfolding admissions in_memory
admitted_calls = refl

refused_call : (in_memory 7 2 10 4000000 used).1 ≡ verdict false 8
unfolding in_memory
refused_call = refl

redis_down : is_allowed fails fail_closed false 7 2 10 4000000 used ≡ (used, verdict false 60)
unfolding is_allowed
redis_down = refl

abbrev answer : Pipeline
answer = record { current_count = 1; oldest = some 3000000 }

answered :
    (is_allowed (answers answer true) fail_closed false 7 2 10 4000000 used).1 ≡ verdict true 0
unfolding is_allowed
answered = refl

local_admissions_bound_example :
    count_if (in_window 10 12000000) (allowed_times fails fallback false 7 2 10 calls []) ≤ 2
unfolding times_of
local_admissions_bound_example =
    local_admissions_bound fails fallback false 7 2 10 12000000 calls [] refl (omega arith) refl

two_used : length (recent 10 4000000 (times_of 7 used)) ≤ 2
unfolding times_of
two_used = omega arith

refused_locally : (is_allowed fails fallback false 7 2 10 4000000 used).1 ≡ verdict false 8
unfolding is_allowed in_memory
refused_locally = refl

local_retry_admitted_example :
    let r' = (is_allowed fails fallback false 7 2 10 4000000 used).0 in
    (is_allowed fails fallback false 7 2 10 (4000000 + 8 * second) r').1 ≡ verdict true 0
local_retry_admitted_example =
    local_retry_admitted fails fallback false 7 2 10 4000000 8 used refl refused_locally two_used
