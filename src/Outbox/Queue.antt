-- ===== src/Outbox/Queue.antt =====
-- The methods of OutboxRepository: core/db/repositories/outbox_repo.py. Rows that another
-- transaction has locked are a parameter: PostgreSQL skips them, and SQLite has none.
use Prim.Native.String.{String}
use sentinel_wp.Base.{
  ℕ, ◌+◌, ◌-◌, ◌*◌, ◌^◌, Bool, true, false, not, ◌&&◌, ◌||◌, Option, none, some, List, [], ◌∷◌,
  ◌++◌, map, leb, ◌==◌, if◌then◌else◌, keep, find, take, count_if, any_of, is_some, elem,
}
use sentinel_wp.Base.Sort.{sort_asc}
use sentinel_wp.Base.Table.{get_row, modify_row}
use sentinel_wp.Outbox.{
  EventStatus, pending, retrying, processing, published, dead_letter, success, IntegrationOutbox,
  Events, event_row, same, absent_or_by, is_due, is_final,
}

-- "default-tenant" and "siem".
abbrev pub default_tenant : ℕ
default_tenant = 1

abbrev pub siem : ℕ
siem = 2

-- `x or d` for a text or a number.
abbrev pub or_default : ℕ → ℕ → ℕ
or_default x d = if x == 0 then d else x

abbrev pub same_key : IntegrationOutbox → IntegrationOutbox → Bool
same_key outbox m = m.tenant_id == outbox.tenant_id && m.event_key == outbox.event_key

-- The row that `save` updates: by id, else by a key that is not empty.
abbrev pub saved_row : IntegrationOutbox → Events → Option IntegrationOutbox
saved_row outbox t = elim (get_row event_row outbox.id t) [
  | some m ↦ some m
  | none ↦ if outbox.event_key == 0 then none else find (same_key outbox) t
]

abbrev pub update_columns : IntegrationOutbox → IntegrationOutbox → IntegrationOutbox
update_columns outbox m = record m {
  status = outbox.status;
  attempt = outbox.attempt;
  next_retry_at = outbox.next_retry_at;
  last_error = outbox.last_error;
  claimed_at = outbox.claimed_at;
  claimed_by = outbox.claimed_by;
  payload_json = outbox.payload_json;
  payload_hash = outbox.payload_hash;
}

abbrev pub new_row : (now : ℕ) → IntegrationOutbox → IntegrationOutbox
new_row now outbox = record outbox {
  tenant_id = or_default outbox.tenant_id default_tenant;
  destination = or_default outbox.destination siem;
  attempt = or_default outbox.attempt 1;
  created_at = or_default outbox.created_at now;
}

-- `none` is the IntegrityError of the unique event key.
unfoldable pub save : (now : ℕ) → IntegrationOutbox → Events → Option (Events × IntegrationOutbox)
save now outbox t = elim (saved_row outbox t) [
  | some m ↦ some (modify_row event_row m.id (update_columns outbox) t, update_columns outbox m)
  | none ↦
      if any_of (λ m. m.event_key == outbox.event_key) t
      then none
      else some (t ++ new_row now outbox ∷ [], new_row now outbox)
]

-- `if x: stmt.where(column == x)`
abbrev pub matches : Option ℕ → ℕ → Bool
matches none column = true
matches (some x) column = x == 0 || column == x

unfoldable pub get_by_id : ℕ → Option ℕ → Events → Option IntegrationOutbox
get_by_id event_id tenant_id = find (λ m. m.id == event_id && matches tenant_id m.tenant_id)

unfoldable pub get_by_key : ℕ → Option ℕ → Events → Option IntegrationOutbox
get_by_key event_key tenant_id =
    find (λ m. m.event_key == event_key && matches tenant_id m.tenant_id)

unfoldable pub get_pending_events : (now limit : ℕ) → Option ℕ → Events → List IntegrationOutbox
unfolding sort_asc
get_pending_events now limit tenant_id t =
    take limit
      (sort_asc (λ m. m.created_at) (keep (λ m. is_due now m && matches tenant_id m.tenant_id) t))

abbrev pub is_candidate :
    (now : ℕ) (event_type tenant_id : Option ℕ) (locked : ℕ → Bool) → IntegrationOutbox → Bool
is_candidate now event_type tenant_id locked m =
    is_due now m
    && (matches event_type m.event_type && (matches tenant_id m.tenant_id && not (locked m.id)))

-- The rows that the SELECT of `claim_events` returns.
unfoldable pub selected :
    (now batch_size : ℕ) (event_type tenant_id : Option ℕ) (locked : ℕ → Bool)
    → Events
    → List IntegrationOutbox
unfolding sort_asc
selected now batch_size event_type tenant_id locked t =
    take batch_size
      (sort_asc (λ m. m.created_at) (keep (is_candidate now event_type tenant_id locked) t))

abbrev pub take_over : (now worker_id : ℕ) → IntegrationOutbox → IntegrationOutbox
take_over now worker_id m = record m {
  status = processing;
  claimed_at = some now;
  claimed_by = some worker_id;
}

-- The ids of some rows.
abbrev pub ids : Events → List ℕ
ids = map event_row

-- The assignments of the loop, to every row among `chosen`.
abbrev pub take_over_all : (now worker_id : ℕ) (chosen : List ℕ) → Events → Events
take_over_all now worker_id chosen =
    map (λ m. if elem m.id chosen then take_over now worker_id m else m)

unfoldable pub claim_events :
    (now worker_id batch_size : ℕ) (event_type tenant_id : Option ℕ) (locked : ℕ → Bool)
    → Events
    → Events × List IntegrationOutbox
claim_events now worker_id batch_size event_type tenant_id locked t =
    let chosen = selected now batch_size event_type tenant_id locked t in
    (take_over_all now worker_id (ids chosen) t, map (take_over now worker_id) chosen)

abbrev pub on_row : ℕ → (IntegrationOutbox → IntegrationOutbox) → Events → Events × Bool
on_row k f t =
    if is_some (get_row event_row k t) then (modify_row event_row k f t, true) else (t, false)

abbrev pub set_error : Option String → IntegrationOutbox → IntegrationOutbox
set_error none m = m
set_error (some e) m = record m { last_error = some e }

abbrev pub release_if_final : EventStatus → IntegrationOutbox → IntegrationOutbox
release_if_final s m = if is_final s then record m { claimed_at = none; claimed_by = none } else m

unfoldable pub update_status : (event_id : ℕ) → EventStatus → Option String → Events → Events × Bool
update_status event_id status last_error =
    on_row event_id
      λ m. release_if_final status (set_error last_error (record m { status = status }))

unfoldable pub mark_processed : (event_id : ℕ) → EventStatus → Events → Events × Bool
unfolding update_status
mark_processed event_id status = update_status event_id status none

-- The row after one more failure.
abbrev pub fail_row :
    (now : ℕ) → String → (max_retries backoff : ℕ) → IntegrationOutbox → IntegrationOutbox
fail_row now error max_retries backoff m =
    if leb max_retries (m.attempt + 1)
    then record m {
      attempt = m.attempt + 1;
      last_error = some error;
      claimed_at = none;
      claimed_by = none;
      status = dead_letter;
      next_retry_at = none;
    }
    else record m {
      attempt = m.attempt + 1;
      last_error = some error;
      claimed_at = none;
      claimed_by = none;
      status = retrying;
      next_retry_at = some (now + backoff * 2 ^ m.attempt);
    }

unfoldable pub mark_failed :
    (now event_id : ℕ) → String → (max_retries backoff : ℕ) → Events → Events × Bool
mark_failed now event_id error max_retries backoff =
    on_row event_id (fail_row now error max_retries backoff)

abbrev pub is_stale : (threshold : ℕ) → IntegrationOutbox → Bool
is_stale threshold m = same m.status processing && absent_or_by threshold m.claimed_at

abbrev pub recover_row : IntegrationOutbox → IntegrationOutbox
recover_row m = record m {
  status = retrying;
  claimed_at = none;
  claimed_by = none;
  attempt = m.attempt + 1;
  last_error = some "Recovered from stale PROCESSING state (worker crash / timeout)";
}

unfoldable pub recover_stale_events : (now timeout : ℕ) → Events → Events × ℕ
recover_stale_events now timeout t = (
  map (λ m. if is_stale (now - timeout) m then recover_row m else m) t,
  count_if (is_stale (now - timeout)) t,
)

abbrev pub is_purged : (cutoff : ℕ) → IntegrationOutbox → Bool
is_purged cutoff m = (same m.status published || same m.status success) && leb m.created_at cutoff

unfoldable pub purge_published_events : (now retention : ℕ) → Events → Events × ℕ
purge_published_events now retention t =
    (keep (λ m. not (is_purged (now - retention) m)) t, count_if (is_purged (now - retention)) t)

unfoldable pub count_pending : Option ℕ → Events → ℕ
count_pending tenant_id =
    count_if λ m. (same m.status pending || same m.status retrying) && matches tenant_id m.tenant_id
