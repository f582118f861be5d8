-- ===== src/Outbox.antt =====
-- The integration outbox: IntegrationOutbox of core/models.py, the unique event key of
-- core/db/models.py, and OutboxRepository of core/db/repositories/outbox_repo.py. Ids, keys, worker
-- names, hashes and payloads are numbers, 0 the empty one; times are numbers in the order of their
-- ISO texts.
pub mod Queue
pub mod Claims
pub mod Retries
pub mod Saving
pub mod Reassessment
mod Tests
use Prim.Native.String.{String}
use sentinel_wp.Base.{ℕ, Bool, true, false, ◌&&◌, ◌||◌, Option, none, some, List, leb, ◌==◌}

-- The values that the column `status` takes: those of the enum, and those that the repository
-- and the maintenance tasks write besides.
pub data EventStatus : Type 0 where
  pending delivered failed retrying processing published dead_letter success skipped : EventStatus

pub record IntegrationOutbox : Type 0 where
  pub id : ℕ
  pub tenant_id : ℕ
  pub event_type : ℕ
  pub event_key : ℕ
  pub destination : ℕ
  pub payload_hash : ℕ
  pub payload_json : ℕ
  pub status : EventStatus
  pub attempt : ℕ
  pub next_retry_at : Option ℕ
  pub last_error : Option String
  pub claimed_at : Option ℕ
  pub claimed_by : Option ℕ
  pub created_at : ℕ

abbrev pub Events : Type 0
Events = List IntegrationOutbox

abbrev pub event_row : IntegrationOutbox → ℕ
event_row e = e.id

abbrev index : EventStatus → ℕ
index pending = 0
index delivered = 1
index failed = 2
index retrying = 3
index processing = 4
index published = 5
index dead_letter = 6
index success = 7
index skipped = 8

abbrev pub same : EventStatus → EventStatus → Bool
same a b = index a == index b

-- `IS NULL OR <= t`
abbrev pub absent_or_by : ℕ → Option ℕ → Bool
absent_or_by t none = true
absent_or_by t (some u) = leb u t

-- PENDING, or RETRYING with its time come.
abbrev pub is_due : (now : ℕ) → IntegrationOutbox → Bool
is_due now m = same m.status pending || (same m.status retrying && absent_or_by now m.next_retry_at)

-- The delivery of the event is over.
abbrev pub is_final : EventStatus → Bool
is_final s = same s published || (same s dead_letter || same s success)
