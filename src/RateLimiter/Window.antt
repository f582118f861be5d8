-- ===== src/RateLimiter/Window.antt =====
-- The in-memory window bounds what it admits: core/rate_limiter.py.
use sentinel_wp.Base.{
  length-append, ℕ, ◌+◌, ◌*◌, ◌≤◌, ◌<◌, ◌≡◌, refl, ◌≢◌, ◌⊎◌, ◌↔◌, inl, inr, Bool, true, false, ◌&&◌,
  List, [], ◌∷◌, ◌++◌, ltb, leb, ◌==◌, if◌then◌else◌, keep, length, count_if, arith, Bool-cases,
  dec_lt,
}
use sentinel_wp.RateLimiter.{
  second, head_or, fail_closed, Requests, times_of, set_times, Redis, Pipeline, no_client, fails,
  answers, Verdict, verdict, index_error, retry_time, recent, in_memory, is_allowed,
}

pub times_of-set_times :
    (j k : ℕ) (ts : List ℕ) (r : Requests)
    → times_of j (set_times k ts r) ≡ (if j == k then ts else times_of j r)
unfolding times_of set_times
times_of-set_times j k ts [] = refl
times_of-set_times j k ts ((i, us) ∷ r) = ground (arith, times_of-set_times j k ts r)

-- A request under one key leaves the admissions of every other key as they were.
pub in_memory_others :
    (j key limit window now : ℕ) (r : Requests)
    → j ≢ key
    → times_of j (in_memory key limit window now r).0 ≡ times_of j r
unfolding in_memory
in_memory_others j key limit window now r h = grind (arith, times_of-set_times)

-- What the window decides and keeps, as functions of the recent admissions.
abbrev decided : (limit window now : ℕ) → List ℕ → Verdict
decided limit window now ts =
    if ltb (length ts) limit
    then verdict true 0
    else head_or ts (λ oldest. verdict false (retry_time oldest window now))

abbrev kept : (limit now : ℕ) → List ℕ → List ℕ
kept limit now ts = if ltb (length ts) limit then ts ++ now ∷ [] else ts

in_memory-decided :
    (key limit window now : ℕ) (r : Requests)
    → (in_memory key limit window now r).1
      ≡ decided limit window now (recent window now (times_of key r))
unfolding in_memory
in_memory-decided key limit window now r =
    elim (Bool-cases (ltb (length (recent window now (times_of key r))) limit)) [
      | inl e ↦ rw e refl
      | inr e ↦ rw e refl
    ]

times_of-in_memory :
    (key limit window now : ℕ) (r : Requests)
    → times_of key (in_memory key limit window now r).0
      ≡ kept limit now (recent window now (times_of key r))
unfolding in_memory
times_of-in_memory key limit window now r =
    elim (Bool-cases (ltb (length (recent window now (times_of key r))) limit)) [
      | inl e ↦ rw e (grind (arith, times_of-set_times))
      | inr e ↦ rw e (grind (arith, times_of-set_times))
    ]

decided-eq-index_error_iff :
    (limit window now : ℕ) (ts : List ℕ)
    → (decided limit window now ts ≡ index_error) ↔ ((limit ≡ 0) × (ts ≡ []))
decided-eq-index_error_iff limit window now [] = ground arith
decided-eq-index_error_iff limit window now (t ∷ ts) = ground arith

-- The in-memory window fails to answer exactly when the limit is 0 and nothing was admitted within
-- the window.
pub in_memory-eq-index_error_iff :
    (key limit window now : ℕ) (r : Requests)
    → ((in_memory key limit window now r).1 ≡ index_error)
      ↔ ((limit ≡ 0) × (recent window now (times_of key r) ≡ []))
in_memory-eq-index_error_iff key limit window now r =
    rw in_memory-decided (decided-eq-index_error_iff limit window now _)

-- Outside tests, a limiter that fails closed admits a request only if Redis answered both
-- pipelines and counted fewer requests than the limit.
pub fail_closed_admits :
    (redis : Redis) (key limit window now : ℕ) (r : Requests)
    → (is_allowed redis fail_closed false key limit window now r).1 ≡ verdict true 0
    → (p : Pipeline) × (redis ≡ answers p true) × (p.current_count < limit)
unfolding is_allowed
fail_closed_admits no_client key limit window now r h = cc
fail_closed_admits fails key limit window now r h = cc
fail_closed_admits (answers p works) key limit window now r h = (p, ground arith, ground arith)

abbrev pub is_admitted : Verdict → Bool
is_admitted (verdict a _) = a
is_admitted index_error = false

decided_cases :
    (limit window now : ℕ) (ts : List ℕ)
    → (is_admitted (decided limit window now ts) ≡ true)
        × (kept limit now ts ≡ ts ++ now ∷ [])
        × (length ts < limit)
      ⊎ (is_admitted (decided limit window now ts) ≡ false) × (kept limit now ts ≡ ts)
decided_cases limit window now [] = ground arith
decided_cases limit window now (t ∷ ts) = ground arith

in_memory_cases :
    (key limit window now : ℕ) (r : Requests)
    → let (r', v) = in_memory key limit window now r in
      let ts = recent window now (times_of key r) in
      (is_admitted v ≡ true) × (times_of key r' ≡ ts ++ now ∷ []) × (length ts < limit)
      ⊎ (is_admitted v ≡ false) × (times_of key r' ≡ ts)
in_memory_cases key limit window now r =
    rw (in_memory-decided, times_of-in_memory)
      (decided_cases limit window now (recent window now (times_of key r)))

-- The admissions of a key: what `in_memory` admits of requests at the given times.
unfoldable pub admissions : (key limit window : ℕ) → List ℕ → Requests → List ℕ
admissions key limit window [] r = []
admissions key limit window (t ∷ ts) r =
    let (r', v) = in_memory key limit window t r in
    let rest = admissions key limit window ts r' in if is_admitted v then t ∷ rest else rest

-- `x` lies in the window that ends at the instant `at`.
abbrev pub in_window : (window at x : ℕ) → Bool
in_window window at x = leb x at && ltb at (x + window * second)

-- Times that never decrease, from `t` on.
abbrev pub FromOn : ℕ → List ℕ → Type 0
FromOn t [] = Unit
FromOn t (u ∷ us) = (t ≤ u) × FromOn u us

module _ {A : Type 0} (p : A → Bool) where
  count_if-append : (xs ys : List A) → count_if p (xs ++ ys) ≡ count_if p xs + count_if p ys
  count_if-append [] ys = omega arith
  count_if-append (x ∷ xs) ys = ground (arith, count_if-append xs ys)

  count_if-le : (xs : List A) → count_if p xs ≤ length xs
  count_if-le [] = omega arith
  count_if-le (x ∷ xs) = ground (arith, count_if-le xs)

module _ (key limit window : ℕ) where
  -- What is no longer recent at `t` lies in no window that ends at `t` or later.
  count_if-recent :
      (t at : ℕ) (xs : List ℕ)
      → t ≤ at
      → count_if (in_window window at) (recent window t xs) ≡ count_if (in_window window at) xs
  count_if-recent t at [] h = refl
  count_if-recent t at (x ∷ xs) h = ground (arith, count_if-recent t at xs h)

  -- What is admitted after `at` lies outside the window that ends at `at`.
  count_if-admissions_later :
      (t at : ℕ) (ts : List ℕ) (r : Requests)
      → at < t
      → FromOn t ts
      → count_if (in_window window at) (admissions key limit window ts r) ≡ 0
  unfolding admissions
  count_if-admissions_later t at [] r h f = refl
  count_if-admissions_later t at (u ∷ us) r h f =
      ground (arith, count_if-admissions_later u at us (in_memory key limit window u r).0)

  admissions_bound_from :
      (t at : ℕ) (ts : List ℕ) (r : Requests)
      → FromOn t ts
      → count_if (in_window window at) (times_of key r) ≤ limit
      → count_if (in_window window at) (times_of key r)
          + count_if (in_window window at) (admissions key limit window ts r)
        ≤ limit
  unfolding admissions
  admissions_bound_from t at [] r f b = omega arith
  admissions_bound_from t at (u ∷ us) r f b =
      let p = in_window window at in
      let r' = (in_memory key limit window u r).0 in
      let ts = recent window u (times_of key r) in
      elim (dec_lt at u) [
        | yes early ↦
            omega (arith, count_if-admissions_later u at (u ∷ us) r early (omega arith, f.1))
        | no late ↦ elim (in_memory_cases key limit window u r) [
          | inl (adm, kept_now, room) ↦ rw adm (
              ground (
                arith,
                admissions_bound_from u at us r' f.1,
                kept_now,
                count_if-append p ts (u ∷ []),
                count_if-le p (ts ++ u ∷ []),
                length-append ts (u ∷ []),
                count_if-recent u at (times_of key r),
              ))
          | inr (adm, kept_now) ↦ rw adm (
              ground (
                arith,
                admissions_bound_from u at us r' f.1,
                kept_now,
                count_if-recent u at (times_of key r),
              ))
        ]
      ]

-- In every window, of any position, the window in memory admits at most `limit` requests of a key, if
-- the clock does not run backwards and the key starts empty.
pub admissions_bound_in_memory :
    (key limit window at : ℕ) (ts : List ℕ) (r : Requests)
    → FromOn 0 ts
    → times_of key r ≡ []
    → count_if (in_window window at) (admissions key limit window ts r) ≤ limit
admissions_bound_in_memory key limit window at ts r f e =
    let start = admissions_bound_from key limit window 0 at ts r f (rw e (omega arith)) in
    omega (arith, start)

length-keep-le {ℓ} : {A : Type ℓ} (p : A → Bool) (xs : List A) → length (keep p xs) ≤ length xs
length-keep-le p [] = omega arith
length-keep-le p (x ∷ xs) = ground (arith, length-keep-le p xs)

module _ (limit window now : ℕ) where
  expired_by_then :
      (oldest wait : ℕ)
      → wait ≡ retry_time oldest window now
      → ltb (now + wait * second) (oldest + window * second) ≡ false
  expired_by_then oldest wait e = ground arith

  room_after_wait :
      (ts : List ℕ) (wait : ℕ)
      → decided limit window now ts ≡ verdict false wait
      → length ts ≤ limit
      → length (recent window (now + wait * second) ts) < limit
  room_after_wait [] wait h le = ground arith
  room_after_wait (t ∷ ts) wait h le = ground (
    arith,
    expired_by_then t wait,
    length-keep-le (λ x. ltb (now + wait * second) (x + window * second)) ts,
  )

  kept_refused :
      (ts : List ℕ) (wait : ℕ)
      → decided limit window now ts ≡ verdict false wait
      → kept limit now ts ≡ ts
  kept_refused ts wait h = ground arith

-- After the time that it was told, a caller that the window in memory refused is admitted, if the
-- window held no more than the limit and nobody else used the key.
pub retry_admitted_in_memory :
    (key limit window now wait : ℕ) (r : Requests)
    → (in_memory key limit window now r).1 ≡ verdict false wait
    → length (recent window now (times_of key r)) ≤ limit
    → let r' = (in_memory key limit window now r).0 in
      (in_memory key limit window (now + wait * second) r').1 ≡ verdict true 0
retry_admitted_in_memory key limit window now wait r h le =
    let ts = recent window now (times_of key r) in
    let refused = rw in_memory-decided at h in
    rw (in_memory-decided, times_of-in_memory, kept_refused limit window now ts wait refused)
      (ground (arith, room_after_wait limit window now ts wait refused le))
