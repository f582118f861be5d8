-- ===== src/Outbox/Tests.antt =====
-- Four events: two waiting, one in progress, one published.
use sentinel_wp.Base.{
  ℕ, suc, ◌+◌, ◌≤◌, ◌≡◌, refl, ◌≢◌, inl, inr, true, false, Bool, none, some, List, [], ◌∷◌, arith,
  In, length,
}
use sentinel_wp.Base.Table.{get_row}
use sentinel_wp.Outbox.{
  EventStatus, pending, processing, published, IntegrationOutbox, Events, event_row,
}
use sentinel_wp.Outbox.Queue.{
  save, selected, take_over, is_candidate, claim_events, recover_stale_events,
  purge_published_events,
}
use sentinel_wp.Outbox.Claims.{claim_events_sound, claims_disjoint, HasUniqueIds, final_untouched}
use sentinel_wp.Outbox.Retries.{fail_at, status_after, fail_at-status}
use sentinel_wp.Outbox.Reassessment.{
  QueueStep, work, recover, blocked, goes_on, reassessment, process_intel_reassessment_queue,
  run_queue, Awaits, undelivered_for_ever,
}

abbrev event : (id key : ℕ) → EventStatus → (created_at : ℕ) → IntegrationOutbox
event id key status created_at = record {
  id = id;
  tenant_id = 9;
  event_type = 4;
  event_key = key;
  destination = 2;
  payload_hash = 6;
  payload_json = 6;
  status = status;
  attempt = 1;
  next_retry_at = none;
  last_error = none;
  claimed_at = none;
  claimed_by = none;
  created_at = created_at;
}

abbrev late : IntegrationOutbox
late = event 1 101 pending 50

abbrev early : IntegrationOutbox
early = event 2 102 pending 40

abbrev running : IntegrationOutbox
running = record (event 3 103 processing 30) { claimed_at = some 60; claimed_by = some 7 }

abbrev sent : IntegrationOutbox
sent = event 4 104 published 20

abbrev events : Events
events = late ∷ early ∷ running ∷ sent ∷ []

abbrev unlocked : ℕ → Bool
unlocked k = false

oldest_first : (claim_events 100 8 1 none none unlocked events).1 ≡ take_over 100 8 early ∷ []
unfolding claim_events selected
oldest_first = refl

recovered : (recover_stale_events 400 300 events).1 ≡ 1
unfolding recover_stale_events
recovered = refl

purged : (purge_published_events 400 300 events).0 ≡ late ∷ early ∷ running ∷ []
unfolding purge_published_events
purged = refl

claim_events_sound_example :
    let (t', claimed) = claim_events 100 8 5 none (some 9) unlocked events in
    (length claimed ≤ 5)
    × ((e : IntegrationOutbox)
        → In e claimed
        → In e t'
          × (e.status ≡ processing)
          × (e.claimed_by ≡ some 8)
          × ((m : IntegrationOutbox) × In m events
              × (is_candidate 100 none (some 9) unlocked m ≡ true)
              × (e ≡ take_over 100 8 m)))
claim_events_sound_example = claim_events_sound 100 5 none (some 9) unlocked events 8

abbrev after_first : Events
after_first = (claim_events 100 8 1 none none unlocked events).0

first_claimed : In (take_over 100 8 early) (claim_events 100 8 1 none none unlocked events).1
unfolding claim_events selected
first_claimed = inl refl

second_claimed : In (take_over 101 9 late) (claim_events 101 9 5 none none unlocked after_first).1
unfolding claim_events selected
second_claimed = inl refl

claims_disjoint_example : (take_over 100 8 early).id ≢ (take_over 101 9 late).id
claims_disjoint_example =
    claims_disjoint 100 8 1 none none unlocked 101 9 5 none none unlocked events
      (take_over 100 8 early) (take_over 101 9 late) first_claimed second_claimed

events-HasUniqueIds : HasUniqueIds events
events-HasUniqueIds a b ha hb e = ground arith

final_untouched_example :
    In sent (claim_events 100 8 5 none none unlocked events).0
    × In sent (recover_stale_events 100 300 events).0
final_untouched_example =
    final_untouched 100 8 5 300 none none unlocked events sent events-HasUniqueIds
      (inr (inr (inr (inl refl)))) refl

fail_at-status_example :
    (m' : IntegrationOutbox) × (get_row event_row 3
        (fail_at (100 ∷ 200 ∷ []) 3 "timeout" 3 60 events)
      ≡ some m')
    × (m'.attempt ≡ running.attempt + suc (length {A = ℕ} (200 ∷ [])))
    × (m'.status ≡ status_after 3 (running.attempt + suc (length {A = ℕ} (200 ∷ []))))
fail_at-status_example = fail_at-status 100 3 (200 ∷ []) "timeout" 3 60 events running refl

saved_new :
    save 70 (event 5 105 pending 70) events
    ≡ some (late ∷ early ∷ running ∷ sent ∷ event 5 105 pending 70 ∷ [], event 5 105 pending 70)
unfolding save
saved_new = refl

abbrev request : IntegrationOutbox
request = record (event 6 106 pending 10) { event_type = reassessment }

abbrev history : List QueueStep
history = work 100 8 unlocked ∷ recover 800 600 ∷ work 900 9 unlocked ∷ []

claimed_then_blocked :
    (process_intel_reassessment_queue true false 100 8 unlocked (request ∷ events)).1 ≡ blocked
unfolding process_intel_reassessment_queue claim_events selected
claimed_then_blocked = refl

undelivered_for_ever_example :
    let t' = run_queue history (request ∷ events) in
    let (t'', progress) = process_intel_reassessment_queue true false 2000 8 unlocked t' in
    Awaits request.id t' × Awaits request.id t'' × (progress ≢ goes_on)
undelivered_for_ever_example =
    undelivered_for_ever history (request ∷ events) request 2000 8 unlocked (inl refl) refl
