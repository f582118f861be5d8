-- ===== src/ScanJob.antt =====
-- The scan job queue: ScanJob of core/models.py and ScanJobRepository of
-- core/db/repositories/scan_job_repo.py. Here are the rows; `Queue` has the methods that write and
-- `Queries` those that only read. A function takes the table and the clock where the method
-- reads them, and returns the table with what the method returns. Each UPDATE ... RETURNING is one
-- step, as the database runs it. Ids, worker names and profiles are numbers, and 0 is the empty
-- text; times are numbers too, in the order of their ISO texts.
pub mod Queue
pub mod Queries
pub mod Terminal
pub mod Claims
pub mod Stale
mod Tests
use Prim.Native.String.{String}
use sentinel_wp.Base.{
  ℕ, ◌+◌, ◌-◌, min, Bool, true, false, not, ◌&&◌, ◌||◌, Option, none, some, List, [], ◌∷◌, ◌++◌,
  ltb, ◌==◌, if◌then◌else◌, keep, find, take, count_if, is_some,
}
use sentinel_wp.Base.Int.{ℤ, pos, negsuc}
use sentinel_wp.Base.Sort.{sort_desc}
use sentinel_wp.Base.Table.{get_row, modify_row}

pub data ScanJobStatus : Type 0 where
  queued running completed partial failed timed_out cancelled retrying : ScanJobStatus

pub record ScanJob : Type 0 where
  pub id : ℕ
  pub tenant_id : ℕ
  pub asset_id : Option ℕ
  pub scan_id : ℕ
  pub task_id : Option ℕ
  pub status : ScanJobStatus
  pub requested_by : ℕ
  pub profile : ℕ
  pub queued_at : ℕ
  pub started_at : Option ℕ
  pub completed_at : Option ℕ
  pub failed_at : Option ℕ
  pub cancelled_at : Option ℕ
  pub progress_percent : ℤ
  pub current_step : String
  pub attempt : ℕ
  pub max_attempts : ℕ
  pub error_code : Option String
  pub error_message : Option String
  pub worker_id : Option ℕ
  pub heartbeat_at : Option ℕ
  pub created_at : ℕ
  pub updated_at : Option ℕ

abbrev pub Jobs : Type 0
Jobs = List ScanJob

abbrev pub job_key : ScanJob → ℕ
job_key j = j.id

abbrev index : ScanJobStatus → ℕ
index queued = 0
index running = 1
index completed = 2
index partial = 3
index failed = 4
index timed_out = 5
index cancelled = 6
index retrying = 7

abbrev pub same : ScanJobStatus → ScanJobStatus → Bool
same a b = index a == index b

-- TERMINAL_STATUSES, CLAIMABLE_STATUSES and the active statuses of the counts.
abbrev pub is_terminal : ScanJobStatus → Bool
is_terminal s = same s completed || (same s cancelled || (same s failed || same s timed_out))

abbrev pub is_claimable : ScanJobStatus → Bool
is_claimable s = same s queued || same s retrying

abbrev pub is_active : ScanJobStatus → Bool
is_active s = same s queued || (same s running || same s retrying)

-- `if text:` for a text that may be absent.
abbrev pub is_set : Option ℕ → Bool
is_set none = false
is_set (some t) = not (t == 0)
