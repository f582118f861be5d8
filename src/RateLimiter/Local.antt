-- ===== src/RateLimiter/Local.antt =====
-- Limiters that decide by the window in memory: `is_allowed` of core/rate_limiter.py.
use sentinel_wp.Base.{
  ℕ, ◌+◌, ◌*◌, ◌≤◌, ◌≡◌, refl, Bool, true, false, List, [], ◌∷◌, if◌then◌else◌, length, count_if,
}
use sentinel_wp.RateLimiter.{
  second, FailMode, fail_closed, fail_open, fallback, Requests, times_of, Redis, no_client, fails,
  answers, verdict, recent, in_memory, is_allowed,
}
use sentinel_wp.RateLimiter.Window.{
  admissions, in_window, is_admitted, FromOn, admissions_bound_in_memory, retry_admitted_in_memory,
}

-- Whether `is_allowed` decides by the window in memory: without a client, unless it fails closed
-- outside tests, or where Redis fails and the fail mode is the fallback.
abbrev pub is_local : Redis → FailMode → (testing : Bool) → Bool
is_local no_client fail_closed testing = testing
is_local no_client mode testing = true
is_local fails fallback testing = true
is_local redis mode testing = false

is_allowed-local :
    (redis : Redis) (mode : FailMode) (testing : Bool) (key limit window now : ℕ) (r : Requests)
    → is_local redis mode testing ≡ true
    → is_allowed redis mode testing key limit window now r ≡ in_memory key limit window now r
unfolding is_allowed
is_allowed-local no_client fail_closed true key limit window now r h = refl
is_allowed-local no_client fail_closed false key limit window now r h = cc
is_allowed-local no_client fail_open testing key limit window now r h = refl
is_allowed-local no_client fallback testing key limit window now r h = refl
is_allowed-local fails fail_closed testing key limit window now r h = cc
is_allowed-local fails fail_open testing key limit window now r h = cc
is_allowed-local fails fallback testing key limit window now r h = refl
is_allowed-local (answers p b) mode testing key limit window now r h = cc

-- What a limiter admits of requests under one key at the given times.
unfoldable pub allowed_times :
    Redis → FailMode → (testing : Bool) (key limit window : ℕ) → List ℕ → Requests → List ℕ
allowed_times redis mode testing key limit window [] r = []
allowed_times redis mode testing key limit window (t ∷ ts) r =
    let (r', v) = is_allowed redis mode testing key limit window t r in
    let rest = allowed_times redis mode testing key limit window ts r' in
    if is_admitted v then t ∷ rest else rest

allowed_times-admissions :
    (redis : Redis) (mode : FailMode) (testing : Bool) (key limit window : ℕ) (ts : List ℕ)
    (r : Requests)
    → is_local redis mode testing ≡ true
    → allowed_times redis mode testing key limit window ts r ≡ admissions key limit window ts r
unfolding allowed_times admissions
allowed_times-admissions redis mode testing key limit window [] r h = refl
allowed_times-admissions redis mode testing key limit window (t ∷ ts) r h =
    rw
      (
        is_allowed-local redis mode testing key limit window t r h,
        allowed_times-admissions redis mode testing key limit window ts
            (in_memory key limit window t r).0 h,
      )
      refl

-- Of a limiter that decides by its window in memory, which is one without Redis that does not fail
-- closed, or one whose Redis fails throughout and that falls back: in every span of the window's
-- length, of any position, at most `limit` requests of a key are admitted, whatever the times at
-- which they come, if the clock does not run backwards and the key starts empty. Nothing is said of
-- a limiter that Redis answers, or that fails open.
pub local_admissions_bound :
    (redis : Redis) (mode : FailMode) (testing : Bool) (key limit window at : ℕ) (ts : List ℕ)
    (r : Requests)
    → is_local redis mode testing ≡ true
    → FromOn 0 ts
    → times_of key r ≡ []
    → count_if (in_window window at) (allowed_times redis mode testing key limit window ts r)
      ≤ limit
local_admissions_bound redis mode testing key limit window at ts r h f e =
    rw (allowed_times-admissions redis mode testing key limit window ts r h)
      (admissions_bound_in_memory key limit window at ts r f e)

-- Of a limiter that decides by its window in memory (without Redis and not failing closed, or with a Redis that
-- fails and a fallback): a caller that is refused, that alone
-- uses its key, and that waits for the time it was told, is admitted, if the window held no more
-- than the limit.
pub local_retry_admitted :
    (redis : Redis) (mode : FailMode) (testing : Bool) (key limit window now wait : ℕ)
    (r : Requests)
    → is_local redis mode testing ≡ true
    → (is_allowed redis mode testing key limit window now r).1 ≡ verdict false wait
    → length (recent window now (times_of key r)) ≤ limit
    → let r' = (is_allowed redis mode testing key limit window now r).0 in
      (is_allowed redis mode testing key limit window (now + wait * second) r').1 ≡ verdict true 0
local_retry_admitted redis mode testing key limit window now wait r h refused le =
    let local =
      λ (at : ℕ) (q : Requests). is_allowed-local redis mode testing key limit window at q h in
    rw (local now r, local (now + wait * second) (in_memory key limit window now r).0)
      (retry_admitted_in_memory key limit window now wait r (rw (local now r) at refused) le)
