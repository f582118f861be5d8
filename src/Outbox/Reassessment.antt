-- ===== src/Outbox/Reassessment.antt =====
-- The start of process_intel_reassessment_queue_task of core/tasks/maintenance_tasks.py, up to its
-- own reading of the table, with `_get_conn` of core/repository.py. What the task does after that, on
-- the file of SQLite, is not modelled.
use sentinel_wp.Base.{
  ℕ, ◌≡◌, refl, ◌≢◌, Bool, true, false, not, ◌&&◌, ◌||◌, none, some, List, [], ◌∷◌, map, arith,
  if◌then◌else◌, elem, In, map-In,
}
use sentinel_wp.Outbox.{EventStatus, pending, retrying, processing, IntegrationOutbox, Events, same}
use sentinel_wp.Outbox.Queue.{claim_events, recover_stale_events, ids, selected, take_over}

-- How far the task comes: it returns because no event is due, it ends with the RuntimeError of
-- `_get_conn`, or it goes on to read the table of SQLite.
pub data Progress : Type 0 where
  nothing_due blocked goes_on : Progress

abbrev pub get_conn : (postgres override : Bool) → Progress
get_conn postgres override = if postgres && not override then blocked else goes_on

-- "intel_triggered_reassessment".
abbrev pub reassessment : ℕ
reassessment = 7

abbrev after_claim : (postgres override : Bool) → List IntegrationOutbox → Progress
after_claim postgres override [] = nothing_due
after_claim postgres override (e ∷ claimed) = get_conn postgres override

unfoldable pub process_intel_reassessment_queue :
    (postgres override : Bool) (now worker_id : ℕ) (locked : ℕ → Bool) → Events → Events × Progress
process_intel_reassessment_queue postgres override now worker_id locked t =
    if postgres
    then (let (t', claimed) = claim_events now worker_id 20 (some reassessment) none locked t in
        (t', after_claim postgres override claimed))
    else (t, get_conn postgres override)

-- A run of the task on PostgreSQL, or of the recovery of stale events.
pub data QueueStep : Type 0 where
  work : (now worker_id : ℕ) (locked : ℕ → Bool) → QueueStep
  recover : (now timeout : ℕ) → QueueStep

unfoldable pub run_queue : List QueueStep → Events → Events
run_queue [] t = t
run_queue (work now worker_id locked ∷ steps) t =
    run_queue steps (process_intel_reassessment_queue true false now worker_id locked t).0
run_queue (recover now timeout ∷ steps) t = run_queue steps (recover_stale_events now timeout t).0

abbrev pub is_waiting : EventStatus → Bool
is_waiting s = same s pending || (same s retrying || same s processing)

-- The event is in the table, and its delivery is still to come.
abbrev pub Awaits : ℕ → Events → Type 0
Awaits k t = (m : IntegrationOutbox) × In m t × (m.id ≡ k) × (is_waiting m.status ≡ true)

Awaits-map :
    (g : IntegrationOutbox → IntegrationOutbox) (k : ℕ) (t : Events)
    → ((m : IntegrationOutbox) → (g m).id ≡ m.id)
    → ((m : IntegrationOutbox) → is_waiting m.status ≡ true → is_waiting (g m).status ≡ true)
    → Awaits k t
    → Awaits k (map g t)
Awaits-map g k t ids_kept waits (m, here, is_k, waiting) =
    (g m, map-In g m t here, rw (ids_kept m) is_k, waits m waiting)

Awaits-claim_events :
    (now w : ℕ) (locked : ℕ → Bool) (k : ℕ) (t : Events)
    → Awaits k t
    → Awaits k (claim_events now w 20 (some reassessment) none locked t).0
unfolding claim_events
Awaits-claim_events now w locked k t =
    Awaits-map
      (λ m.
        if elem m.id (ids (selected now 20 (some reassessment) none locked t))
        then take_over now w m
        else m)
      k t (λ m. ground arith) (λ m h. ground arith)

Awaits-recover :
    (now timeout k : ℕ) (t : Events) → Awaits k t → Awaits k (recover_stale_events now timeout t).0
unfolding recover_stale_events
Awaits-recover now timeout k t = Awaits-map _ k t (λ m. ground arith) (λ m h. ground arith)

Awaits-run_queue :
    (steps : List QueueStep) (k : ℕ) (t : Events) → Awaits k t → Awaits k (run_queue steps t)
unfolding run_queue process_intel_reassessment_queue
Awaits-run_queue [] k t h = h
Awaits-run_queue (work now w locked ∷ steps) k t h =
    Awaits-run_queue steps k _ (Awaits-claim_events now w locked k t h)
Awaits-run_queue (recover now timeout ∷ steps) k t h =
    Awaits-run_queue steps k _ (Awaits-recover now timeout k t h)

never_goes_on : (claimed : List IntegrationOutbox) → after_claim true false claimed ≢ goes_on
never_goes_on [] = ground arith
never_goes_on (e ∷ claimed) = ground arith

-- On PostgreSQL, whatever runs of the queue's task and of the recovery of stale events have taken
-- place, an event that was waiting to be delivered is still waiting, in the table under its id, and
-- the next run of the task again does not go on to dispatch anything: the events that it claims stay
-- claimed when the connection that it then opens is refused.
pub undelivered_for_ever :
    (steps : List QueueStep) (t : Events) (e : IntegrationOutbox) (now worker_id : ℕ)
    (locked : ℕ → Bool)
    → In e t
    → is_waiting e.status ≡ true
    → let t' = run_queue steps t in
      let (t'', progress) = process_intel_reassessment_queue true false now worker_id locked t' in
      Awaits e.id t' × Awaits e.id t'' × (progress ≢ goes_on)
unfolding process_intel_reassessment_queue
undelivered_for_ever steps t e now w locked here waiting =
    let still = Awaits-run_queue steps e.id t (e, here, refl, waiting) in
    (
      still,
      Awaits-claim_events now w locked e.id _ still,
      never_goes_on (claim_events now w 20 (some reassessment) none locked (run_queue steps t)).1,
    )
