-- ===== src/Outbox/Retries.antt =====
-- Failures, backoff and crash recovery: core/db/repositories/outbox_repo.py.
use Prim.Native.String.{String}
use sentinel_wp.Base.{
  ℕ, suc, ◌+◌, ◌-◌, ◌*◌, ◌^◌, ◌≤◌, ◌≡◌, refl, false, none, some, List, [], ◌∷◌, map, arith, leb,
  if◌then◌else◌, length, count_if,
}
use sentinel_wp.Base.Table.{get_row, get_row-modify_row}
use sentinel_wp.Outbox.{
  EventStatus, dead_letter, retrying, IntegrationOutbox, Events, event_row, is_due,
}
use sentinel_wp.Outbox.Queue.{mark_failed, fail_row, recover_stale_events, recover_row, is_stale}

fail_row-id :
    (now : ℕ) (error : String) (max_retries backoff : ℕ) (m : IntegrationOutbox)
    → (fail_row now error max_retries backoff m).id ≡ m.id
fail_row-id now error max_retries backoff m = ground arith

get_row-mark_failed :
    (now k : ℕ) (error : String) (max_retries backoff : ℕ) (t : Events) (m : IntegrationOutbox)
    → get_row event_row k t ≡ some m
    → get_row event_row k (mark_failed now k error max_retries backoff t).0
      ≡ some (fail_row now error max_retries backoff m)
unfolding mark_failed
get_row-mark_failed now k error max_retries backoff t m e =
    let f = fail_row now error max_retries backoff in
    let after = get_row-modify_row event_row k k f t (fail_row-id now error max_retries backoff) in
    ground (arith, after)

-- Failures of one event at the given times.
unfoldable pub fail_at : List ℕ → (k : ℕ) → String → (max_retries backoff : ℕ) → Events → Events
fail_at [] k error max_retries backoff t = t
fail_at (now ∷ times) k error max_retries backoff t =
    fail_at times k error max_retries backoff (mark_failed now k error max_retries backoff t).0

abbrev pub status_after : (max_retries attempt : ℕ) → EventStatus
status_after max_retries attempt = if leb max_retries attempt then dead_letter else retrying

-- An event that fails over and over is retried until its attempts reach the limit and is a dead
-- letter from then on: its status after any failures depends on their number alone.
pub fail_at-status :
    (now k : ℕ) (times : List ℕ) (error : String) (max_retries backoff : ℕ) (t : Events)
    (m : IntegrationOutbox)
    → get_row event_row k t ≡ some m
    → (m' : IntegrationOutbox) × (get_row event_row k
          (fail_at (now ∷ times) k error max_retries backoff t)
        ≡ some m')
      × (m'.attempt ≡ m.attempt + suc (length times))
      × (m'.status ≡ status_after max_retries (m.attempt + suc (length times)))
unfolding fail_at
fail_at-status now k [] error max_retries backoff t m e = (
  fail_row now error max_retries backoff m,
  get_row-mark_failed now k error max_retries backoff t m e,
  ground arith,
  ground arith,
)
fail_at-status now k (u ∷ times) error max_retries backoff t m e =
    let f = fail_row now error max_retries backoff m in
    let (m', found, attempts, status) =
      fail_at-status u k times error max_retries backoff
        (mark_failed now k error max_retries backoff t).0 f
        (get_row-mark_failed now k error max_retries backoff t m e) in
    (m', found, ground (arith, attempts), ground (arith, status))

-- A failed event that is retried becomes due exactly when its backoff, doubled with each attempt,
-- has passed; a dead letter is never due.
pub due_after_failure :
    (now k later : ℕ) (error : String) (max_retries backoff : ℕ) (t : Events)
    (m : IntegrationOutbox)
    → get_row event_row k t ≡ some m
    → (m' : IntegrationOutbox) × (get_row event_row k
          (mark_failed now k error max_retries backoff t).0
        ≡ some m')
      × (m'.claimed_by ≡ none)
      × (is_due later m' ≡ (
          if leb max_retries (m.attempt + 1)
          then false
          else leb (now + backoff * 2 ^ m.attempt) later))
due_after_failure now k later error max_retries backoff t m e = (
  fail_row now error max_retries backoff m,
  get_row-mark_failed now k error max_retries backoff t m e,
  ground arith,
  ground arith,
)

recovered-not-stale :
    (threshold : ℕ) (m : IntegrationOutbox) → is_stale threshold (recover_row m) ≡ false
recovered-not-stale threshold m = refl

none_stale_after :
    (threshold threshold' : ℕ) (t : Events)
    → threshold' ≤ threshold
    → count_if
        (is_stale threshold')
        (map (λ m. if is_stale threshold m then recover_row m else m) t)
      ≡ 0
none_stale_after threshold threshold' [] h = refl
none_stale_after threshold threshold' (m ∷ t) h =
    ground (arith, none_stale_after threshold threshold' t h)

-- Recovery leaves no stale event behind: a second one that looks no further finds nothing to do.
pub recover_once :
    (now timeout now' timeout' : ℕ) (t : Events)
    → now' - timeout' ≤ now - timeout
    → (recover_stale_events now' timeout' (recover_stale_events now timeout t).0).1 ≡ 0
unfolding recover_stale_events
recover_once now timeout now' timeout' t h = none_stale_after (now - timeout) (now' - timeout') t h
