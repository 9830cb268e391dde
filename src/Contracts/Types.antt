-- ===== src/Contracts/Types.antt =====
-- The types of ui/src/contracts.ts. A field of type `T | null` is an `Option`.
use throttle_deck.Base.{String, Bool, Option, List}
use throttle_deck.Platform.{Platform, Num}

pub data AccessState : Type 0 where
  allowed stopped : AccessState

pub data MoneyLockState : Type 0 where
  allowed stopped stopping unavailable : MoneyLockState

pub data BrokerState : Type 0 where
  healthy degraded down : BrokerState

pub data BudgetHealth : Type 0 where
  healthy pressure critical unavailable unconfigured : BudgetHealth

pub data BudgetUnit : Type 0 where
  requests tokens : BudgetUnit

pub data MoneyMode : Type 0 where
  paper real_money : MoneyMode

pub data Severity : Type 0 where
  info warning critical : Severity

-- "pmus", "kalshi.predictions", "kalshi.perps"
pub data BudgetId : Type 0 where
  pmus kalshi_predictions kalshi_perps : BudgetId

pub data BudgetVenue : Type 0 where
  pmus kalshi : BudgetVenue

pub data BudgetProduct : Type 0 where
  rest predictions perps : BudgetProduct

pub data SnapshotProblemKind : Type 0 where
  unsupported_schema invalid_payload unreachable : SnapshotProblemKind

pub record SnapshotProblem : Type 0 where
  pub kind : SnapshotProblemKind
  pub message : String

module _ ⦃P : Platform⦄ where
  pub record ControlRecord : Type 0 where
    pub scope : String
    pub state : AccessState
    pub revision : Num
    pub changed_at : Option String
    pub reason : Option String

  pub record MoneyLock : Type 0 where
    pub scope : String
    pub app_id : String
    pub app_name : String
    pub confirmation_phrase : String
    pub state : MoneyLockState
    pub revision : Num
    pub changed_at : Option String

  pub record Budget : Type 0 where
    pub id : BudgetId
    pub venue : BudgetVenue
    pub product : BudgetProduct
    pub health : BudgetHealth
    pub unit : BudgetUnit
    pub available_now : Option Num
    pub capacity : Option Num
    pub refill_per_second : Option Num
    pub queue_depth : Option Num
    pub recent_pressure_ratio : Option Num
    pub throttled_with_headroom : Option Num
    pub throttled_with_headroom_delta : Option Num
    pub series : List Num
    pub sampled_at : Option String

  pub record VenueSplit : Type 0 where
    pub venue : String
    pub count : Num
    pub upstream_429s : Option Num
    pub headroom_429s : Option Num
    pub queue_wait_ms : Option Num

  pub record AppRow : Type 0 where
    pub app_id : String
    pub name : String
    pub money_mode : MoneyMode
    pub access : AccessState
    pub callers : List String
    pub coverage_note : Option String
    pub recent_requests : Option Num
    pub request_series : List (Option Num)
    pub recent_window_seconds : Option Num
    pub queue_wait_ms : Option Num
    pub errors : Option Num
    pub venue_split : List VenueSplit
    pub last_request_at : Option String
    pub unassigned : Bool

  pub record BrokerRecord : Type 0 where
    pub state : BrokerState
    pub instance_id : Option String
    pub started_at : Option String
    pub sampled_at : Option String
    pub sample_age_ms : Option Num
    pub tier : Option String
    pub collection_paused : Bool
    pub pause_reason : Option String

  -- The object that `parseSnapshot` fills key by key. Writing the key `__proto__` sets its prototype.
  pub record AppsAccess : Type 0 where
    pub own : List (String × ControlRecord)
    pub proto : Option ControlRecord

  pub record BrokerAccess : Type 0 where
    pub global : ControlRecord
    pub apps : AppsAccess

pub record ActivityEvent : Type 0 where
  pub at : String
  pub kind : String
  pub severity : Severity
  pub detail : Option String
  pub app_id : Option String

module _ ⦃P : Platform⦄ where
  pub record GovernorSnapshot : Type 0 where
    pub schema_version : Num
    pub revision : Num
    pub generated_at : String
    pub broker : BrokerRecord
    pub broker_access : BrokerAccess
    pub trade_lock : MoneyLock
    pub budgets : List Budget
    pub apps : List AppRow
    pub activity : List ActivityEvent

  pub data SnapshotParse : Type 0 where
    ok : GovernorSnapshot → SnapshotParse
    not_ok : SnapshotProblem → SnapshotParse
