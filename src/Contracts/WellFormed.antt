-- ===== src/Contracts/WellFormed.antt =====
-- What a snapshot owes the window, whatever the service sends: the contract of ui/src/contracts.ts as
-- a predicate on snapshots, with no mention of how they are read.
use throttle_deck.Base.{String, ◌≡◌, ◌≢◌, true, false, Option, none, some, map, All}
use throttle_deck.Platform.{Platform, Num, lit}
use throttle_deck.Contracts.Types.{
  ControlRecord, MoneyLock, Budget, VenueSplit, AppRow, BrokerRecord, ActivityEvent, AppsAccess,
  GovernorSnapshot,
}
use throttle_deck.Contracts.Rows.{budget_ids, venue_of, product_of, unit_of}

-- A text that is there is not empty.
abbrev pub IsText : Option String → Type 0
IsText none = Unit
IsText (some s) = s ≢ ""

module _ ⦃P : Platform⦄ where
  abbrev pub IsFinite : Num → Type 0
  IsFinite n = P.is_finite n ≡ true

  -- A number that is there is finite.
  abbrev pub IsNumber : Option Num → Type 0
  IsNumber none = Unit
  IsNumber (some n) = IsFinite n

  pub record IsControl (r : ControlRecord) : Type 0 where
    pub scope : r.scope ≢ ""
    pub revision : IsFinite r.revision
    pub changed_at : IsText r.changed_at
    pub reason : IsText r.reason

  pub record IsLock (l : MoneyLock) : Type 0 where
    pub scope : l.scope ≢ ""
    pub app_id : l.app_id ≢ ""
    pub app_name : l.app_name ≢ ""
    pub confirmation_phrase : l.confirmation_phrase ≢ ""
    pub revision : IsFinite l.revision
    pub changed_at : IsText l.changed_at

  pub record IsBudget (b : Budget) : Type 0 where
    pub venue : b.venue ≡ venue_of b.id
    pub product : b.product ≡ product_of b.id
    pub unit : b.unit ≡ unit_of b.venue
    pub available_now : IsNumber b.available_now
    pub capacity : IsNumber b.capacity
    pub refill_per_second : IsNumber b.refill_per_second
    pub queue_depth : IsNumber b.queue_depth
    pub recent_pressure_ratio : IsNumber b.recent_pressure_ratio
    pub throttled_with_headroom : IsNumber b.throttled_with_headroom
    pub throttled_with_headroom_delta : IsNumber b.throttled_with_headroom_delta
    pub series : All IsFinite b.series
    pub sampled_at : IsText b.sampled_at

  pub record IsSplit (v : VenueSplit) : Type 0 where
    pub venue : v.venue ≢ ""
    pub count : IsFinite v.count
    pub upstream_429s : IsNumber v.upstream_429s
    pub headroom_429s : IsNumber v.headroom_429s
    pub queue_wait_ms : IsNumber v.queue_wait_ms

  -- A point of a request series is unknown, or finite and not negative.
  abbrev pub IsPoint : Option Num → Type 0
  IsPoint none = Unit
  IsPoint (some n) = IsFinite n × (P.lt n (lit 0) ≡ false)

  -- A known point of a request series is rounded.
  abbrev pub IsRounded : Option Num → Type 0
  IsRounded none = Unit
  IsRounded (some n) = P.round n ≡ n

  pub record IsRow (a : AppRow) : Type 0 where
    pub app_id : a.app_id ≢ ""
    pub name : a.name ≢ ""
    pub coverage_note : IsText a.coverage_note
    pub recent_requests : IsNumber a.recent_requests
    pub request_series : All IsPoint a.request_series
    pub rounded_series : All IsRounded a.request_series
    pub recent_window_seconds : IsNumber a.recent_window_seconds
    pub queue_wait_ms : IsNumber a.queue_wait_ms
    pub errors : IsNumber a.errors
    pub venue_split : All IsSplit a.venue_split
    pub last_request_at : IsText a.last_request_at

  pub record IsBroker (b : BrokerRecord) : Type 0 where
    pub instance_id : IsText b.instance_id
    pub started_at : IsText b.started_at
    pub sampled_at : IsText b.sampled_at
    pub sample_age_ms : IsNumber b.sample_age_ms
    pub tier : IsText b.tier
    pub pause_reason : IsText b.pause_reason

pub record IsEvent (e : ActivityEvent) : Type 0 where
  pub at : e.at ≢ ""
  pub kind : e.kind ≢ ""
  pub detail : IsText e.detail
  pub app_id : IsText e.app_id

module _ ⦃P : Platform⦄ where
  abbrev pub IsProto : Option ControlRecord → Type 0
  IsProto none = Unit
  IsProto (some r) = IsControl r

  pub record IsAccess (m : AppsAccess) : Type 0 where
    pub own : All (λ (e : String × ControlRecord). IsControl e.1) m.own
    pub proto : IsProto m.proto

  pub record IsSnapshot (g : GovernorSnapshot) : Type 0 where
    pub schema_version : P.eq g.schema_version (lit 1) ≡ true
    pub revision : IsFinite g.revision
    pub generated_at : g.generated_at ≢ ""
    pub broker : IsBroker g.broker
    pub global : IsControl g.broker_access.global
    pub access : IsAccess g.broker_access.apps
    pub trade_lock : IsLock g.trade_lock
    -- one budget for each id, in the order of the ids
    pub budget_order : map (λ (b : Budget). b.id) g.budgets ≡ budget_ids
    pub budgets : All IsBudget g.budgets
    pub apps : All IsRow g.apps
    pub activity : All IsEvent g.activity
