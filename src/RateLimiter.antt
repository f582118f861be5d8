-- ===== src/RateLimiter.antt =====
-- The sliding-window rate limiter: core/rate_limiter.py. Times are microseconds since the epoch,
-- a window is whole seconds. Redis is a parameter: what its pipeline answers, if it answers.
pub mod Window
pub mod Local
mod Tests
use sentinel_wp.Base.{
  ℕ, ◌+◌, ◌-◌, ◌*◌, ◌/◌, max, Bool, true, false, not, ◌&&◌, Option, none, some, List, [], ◌∷◌, ◌++◌,
  ltb, leb, ◌==◌, if◌then◌else◌, keep, length,
}

abbrev pub second : ℕ
second = 1000000

pub data FailMode : Type 0 where
  fail_closed fail_open fallback : FailMode

-- `self._requests`: the admission times of each key; a missing key has none.
abbrev pub Requests : Type 0
Requests = List (ℕ × List ℕ)

unfoldable pub times_of : ℕ → Requests → List ℕ
times_of k [] = []
times_of k ((j, ts) ∷ r) = if k == j then ts else times_of k r

unfoldable pub set_times : ℕ → List ℕ → Requests → Requests
set_times k ts [] = (k, ts) ∷ []
set_times k ts ((j, us) ∷ r) = if k == j then (k, ts) ∷ r else (j, us) ∷ set_times k ts r

-- The answer of the first Redis pipeline: the count of the window, and the score of its oldest
-- entry.
pub record Pipeline : Type 0 where
  pub current_count : ℕ
  pub oldest : Option ℕ

-- `self.redis_client`: absent; failing, in either of its two pipelines; or answering.
pub data Redis : Type 0 where
  no_client : Redis
  fails : Redis
  answers : Pipeline → (second_pipeline_works : Bool) → Redis

-- What `is_allowed` returns, or the IndexError of `timestamps[0]`.
pub data Verdict : Type 0 where
  verdict : (is_allowed : Bool) (retry_after : ℕ) → Verdict
  index_error : Verdict

-- `max(1, int(oldest + window_seconds - now) + 1)`. `int` cuts off towards 0, so where the difference
-- is negative the maximum gives 1, as it does here, where `-` stops at 0.
abbrev pub retry_time : (oldest window now : ℕ) → ℕ
retry_time oldest window now = max 1 ((oldest + window * second - now) / second + 1)

-- `[t for t in self._requests[key] if t > cutoff]`
abbrev pub recent : (window now : ℕ) → List ℕ → List ℕ
recent window now = keep (λ t. ltb now (t + window * second))

abbrev pub head_or : List ℕ → (ℕ → Verdict) → Verdict
head_or [] f = index_error
head_or (t ∷ ts) f = f t

-- The in-memory window.
unfoldable pub in_memory : (key max_requests window now : ℕ) → Requests → Requests × Verdict
unfolding times_of set_times
in_memory key max_requests window now requests =
    let timestamps = recent window now (times_of key requests) in
    if ltb (length timestamps) max_requests
    then (set_times key (timestamps ++ now ∷ []) requests, verdict true 0)
    else (
      set_times key timestamps requests,
      head_or timestamps (λ oldest. verdict false (retry_time oldest window now)),
    )

-- The `except` branch.
abbrev on_redis_error : FailMode → Requests → Requests × Verdict → Requests × Verdict
on_redis_error fail_closed requests rest = (requests, verdict false 60)
on_redis_error fail_open requests rest = (requests, verdict true 0)
on_redis_error fallback requests rest = rest

abbrev is_fail_closed : FailMode → Bool
is_fail_closed fail_closed = true
is_fail_closed _ = false

abbrev refused : (window now : ℕ) → Option ℕ → ℕ
refused window now none = window
refused window now (some oldest) = retry_time oldest window now

-- `is_allowed` of a limiter with this fail mode, outside (`false`) or inside a test run.
unfoldable pub is_allowed :
    Redis
    → FailMode
    → (testing : Bool) (key max_requests window now : ℕ) → Requests
    → Requests × Verdict
is_allowed no_client mode testing key max_requests window now requests =
    if is_fail_closed mode && not testing
    then (requests, verdict false 60)
    else in_memory key max_requests window now requests
is_allowed fails mode testing key max_requests window now requests =
    on_redis_error mode requests (in_memory key max_requests window now requests)
is_allowed (answers p works) mode testing key max_requests window now requests =
    if ltb p.current_count max_requests
    then if works
      then (requests, verdict true 0)
      else on_redis_error mode requests (in_memory key max_requests window now requests)
    else (requests, verdict false (refused window now p.oldest))

abbrev allowed_of : Verdict → Option Bool
allowed_of (verdict a _) = some a
allowed_of index_error = none

pub check_rate_limit :
    Redis
    → FailMode
    → (testing : Bool) (key max_requests window now : ℕ) → Requests
    → Requests × Option Bool
unfolding is_allowed
check_rate_limit redis mode testing key max_requests window now requests =
    let (requests', v) = is_allowed redis mode testing key max_requests window now requests in
    (requests', allowed_of v)
