-- ===== src/Queue/Domain.antt =====
-- internal/modules/queue/domain, internal/constants/status.go and the counters of
-- internal/modules/host/domain/host.go. Identifiers and codes are opaque numbers, compared for
-- equality only; a nil pointer and an empty join code are `none`. Times are milliseconds.
-- The fields that no modelled operation reads are left out.
use Prim.Native.String.{String}
use queuebuzz.Prelude.{ℕ, Bool, true, false, Option, List}

pub data EntryStatus : Type 0 where
  waiting called idle skipped served left arrived : EntryStatus

pub data QueueStatus : Type 0 where
  active paused closed expired : QueueStatus

pub record Entry : Type 0 where
  pub id : ℕ
  pub token : ℕ
  pub queue_id : ℕ
  pub ticket_no : List ℕ
  pub verify_code : ℕ
  pub status : EntryStatus
  pub email : Option (List ℕ)
  pub phone : Option (List ℕ)
  pub party_size : Option ℕ
  pub name : String
  pub created_by : Option ℕ
  pub served_at : Option ℕ
  pub finished_at : Option ℕ
  pub created_at : ℕ
  pub updated_at : ℕ

pub data LogValue : Type 0 where
  created completed : LogValue
  changed_to : QueueStatus → LogValue

pub record ActivityLog : Type 0 where
  pub value : LogValue
  pub timestamp : ℕ

pub record Queue : Type 0 where
  pub id : ℕ
  pub name : String
  pub host_id : Option ℕ
  pub host_public_id : Option ℕ
  pub join_code : Option ℕ
  pub status : QueueStatus
  pub avg_service_mins : ℕ
  pub delay_expires_at : ℕ
  pub manual_positioning : Bool
  pub strict_queue_mode : Bool
  pub created_at : ℕ
  pub updated_at : ℕ
  pub expires_at : ℕ
  pub closed_at : Option ℕ
  pub activity_logs : List ActivityLog

pub record Host : Type 0 where
  pub id : ℕ
  pub email : Option ℕ
  pub tier : ℕ
  pub monthly_queue_count : ℕ
  pub total_queue_count : ℕ
  pub total_served_count : ℕ
  pub monthly_limit_reset_at : Option ℕ

-- The statuses that the program counts as waiting in the queue: the filter of `TerminateQueue`,
-- of `expireQueue` and of `GetQueueEntries` with no status given.
abbrev pub is_live : EntryStatus → Bool
is_live waiting = true
is_live called = true
is_live idle = true
is_live arrived = true
is_live _ = false

-- The test `isTerminal` of `RejoinByID` and `SessionExists`.
abbrev pub is_terminal : EntryStatus → Bool
is_terminal served = true
is_terminal left = true
is_terminal skipped = true
is_terminal _ = false

-- The statuses that `rehydrateQueue` puts back into Redis.
abbrev pub is_rehydrated : EntryStatus → Bool
is_rehydrated waiting = true
is_rehydrated called = true
is_rehydrated arrived = true
is_rehydrated _ = false

abbrev pub is_waiting : EntryStatus → Bool
is_waiting waiting = true
is_waiting _ = false

abbrev pub is_called : EntryStatus → Bool
is_called called = true
is_called _ = false

abbrev pub is_served : EntryStatus → Bool
is_served served = true
is_served _ = false

-- The statuses among which `JoinQueue` looks for a guest who has joined before.
abbrev pub is_joined : EntryStatus → Bool
is_joined waiting = true
is_joined called = true
is_joined idle = true
is_joined _ = false

abbrev pub is_open : QueueStatus → Bool
is_open active = true
is_open paused = true
is_open _ = false
