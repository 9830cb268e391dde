-- ===== src/Contracts/Content.antt =====
-- What an accepted snapshot says of its payload, described on the JSON values: the contract of
-- `parseSnapshot` in ui/src/contracts.ts on the content.
use throttle_deck.Base.{String, ◌≡◌, ◌≢◌, ◌↔◌, Option, none, some, List, [], ◌∷◌}
use throttle_deck.Platform.{Platform, Num}
use throttle_deck.Json.{Value, num, str, arr, obj, Fields, end, elems, get, coalesce}
use throttle_deck.Contracts.Types.{
  AccessState, MoneyLockState, MoneyMode, Severity, BrokerState, BrokerRecord, MoneyLock, AppRow,
  ActivityEvent, GovernorSnapshot,
}
use throttle_deck.Contracts.WellFormed.{IsFinite}

module _ ⦃P : Platform⦄ where
  -- the value under a key, or under the other spelling where that is null or missing
  abbrev pub under : String → String → Fields → Value
  under key other fs = coalesce (get key fs) (get other fs)

  abbrev pub items_of : Value → List Value
  items_of (arr vs) = elems vs
  items_of _ = []

  -- a record's fields, and none where there is no record
  abbrev pub fields_of : Value → Fields
  fields_of (obj fs) = fs
  fields_of _ = end

  -- The payload's number: its own where it is finite, and unknown else.
  abbrev pub NumberOf : Value → Option Num → Type 0
  NumberOf v none = (n : Num) → v ≡ num n → IsFinite n → ⊥
  NumberOf v (some n) = (v ≡ num n) × IsFinite n

  -- The payload's text: its own where it is not empty, and unknown else.
  abbrev pub TextOf : Value → Option String → Type 0
  TextOf v none = (t : String) → v ≡ str t → t ≢ "" → ⊥
  TextOf v (some t) = (v ≡ str t) × (t ≢ "")

  -- The list made of the items that R reads as something, in their order, and without those that do
  -- not qualify.
  pub data Picked {A : Type 0} (Qualifies : Value → Type 0) (R : Value → A → Type 0)
      : List Value → List A → Type 0 where
    done : Picked Qualifies R [] []
    kept :
        {v : Value} {vs : List Value} {a : A} {as_read : List A}
        → Qualifies v
        → R v a
        → Picked Qualifies R vs as_read
        → Picked Qualifies R (v ∷ vs) (a ∷ as_read)
    dropped :
        {v : Value} {vs : List Value} {as_read : List A}
        → (Qualifies v → ⊥)
        → Picked Qualifies R vs as_read
        → Picked Qualifies R (v ∷ vs) as_read

  abbrev pub HoldsText : Value → String → Type 0
  HoldsText v t = v ≡ str t

  abbrev pub IsText : Value → Type 0
  IsText v = (t : String) × HoldsText v t

  -- A record with two texts that are not empty.
  pub record HasBoth (first second : Fields → Value) (v : Value) : Type 0 where
    pub fields : Fields
    pub is_fields : v ≡ obj fields
    pub one : String
    pub has_one : TextOf (first fields) (some one)
    pub two : String
    pub has_two : TextOf (second fields) (some two)

  -- The row of an application says what the payload says of it.
  pub record RowOf (v : Value) (row : AppRow) : Type 0 where
    pub fields : Fields
    pub is_fields : v ≡ obj fields
    pub app_id : TextOf (under "app_id" "appId" fields) (some row.app_id)
    pub name : TextOf (get "name" fields) (some row.name)
    pub stopped : (row.access ≡ AccessState.stopped) ↔ (get "access" fields ≡ str "stopped")
    pub real_money :
        (row.money_mode ≡ MoneyMode.real_money)
        ↔ (under "money_mode" "moneyMode" fields ≡ str "real-money")
    pub callers : Picked IsText HoldsText (items_of (get "callers" fields)) row.callers
    pub recent_requests :
        NumberOf (under "recent_requests" "recentRequests" fields) row.recent_requests
    pub queue_wait_ms : NumberOf (under "queue_wait_ms" "queueWaitMs" fields) row.queue_wait_ms
    pub errors : NumberOf (get "errors" fields) row.errors
    pub last_request_at :
        TextOf (under "last_request_at" "lastRequestAt" fields) row.last_request_at
    pub coverage_note : TextOf (under "coverage_note" "coverageNote" fields) row.coverage_note

  pub record EventOf (v : Value) (e : ActivityEvent) : Type 0 where
    pub fields : Fields
    pub is_fields : v ≡ obj fields
    pub at : TextOf (get "at" fields) (some e.at)
    pub kind : TextOf (get "kind" fields) (some e.kind)
    pub warning : (e.severity ≡ Severity.warning) ↔ (get "severity" fields ≡ str "warning")
    pub critical : (e.severity ≡ Severity.critical) ↔ (get "severity" fields ≡ str "critical")
    pub detail : TextOf (get "detail" fields) e.detail
    pub app_id : TextOf (under "app_id" "appId" fields) e.app_id

  pub record BrokerOf (fields : Fields) (broker : BrokerRecord) : Type 0 where
    pub down : (broker.state ≡ BrokerState.down) ↔ (get "state" fields ≡ str "down")
    pub degraded : (broker.state ≡ BrokerState.degraded) ↔ (get "state" fields ≡ str "degraded")
    pub instance_id : TextOf (under "instance_id" "instanceId" fields) broker.instance_id
    pub started_at : TextOf (under "started_at" "startedAt" fields) broker.started_at
    pub sampled_at : TextOf (under "sampled_at" "sampledAt" fields) broker.sampled_at
    pub sample_age_ms : NumberOf (under "sample_age_ms" "sampleAgeMs" fields) broker.sample_age_ms
    pub tier : TextOf (get "tier" fields) broker.tier
    pub pause_reason : TextOf (under "pause_reason" "pauseReason" fields) broker.pause_reason

  -- A lock is in one of the three states that the payload may name, or is allowed.
  pub record LockOf (fields : Fields) (lock : MoneyLock) : Type 0 where
    pub stopped : (lock.state ≡ MoneyLockState.stopped) ↔ (get "state" fields ≡ str "stopped")
    pub stopping : (lock.state ≡ MoneyLockState.stopping) ↔ (get "state" fields ≡ str "stopping")
    pub unavailable :
        (lock.state ≡ MoneyLockState.unavailable) ↔ (get "state" fields ≡ str "unavailable")
    pub changed_at : TextOf (under "changed_at" "changedAt" fields) lock.changed_at

  pub record ContentOf (payload : Fields) (g : GovernorSnapshot) : Type 0 where
    pub schema_version : get "schemaVersion" payload ≡ num g.schema_version
    pub revision : NumberOf (get "revision" payload) (some g.revision)
    pub generated_at : TextOf (under "generatedAt" "generated_at" payload) (some g.generated_at)
    pub apps :
        Picked
          (HasBoth (under "app_id" "appId") (get "name"))
          RowOf
          (items_of (get "apps" payload))
          g.apps
    pub activity :
        Picked
          (HasBoth (get "at") (get "kind"))
          EventOf
          (items_of (get "activity" payload))
          g.activity
    pub broker : BrokerOf (fields_of (get "broker" payload)) g.broker
    pub lock : LockOf (fields_of (under "tradeLock" "trade_lock" payload)) g.trade_lock
    pub reads_stopped : (g.broker_access.global.state ≡ AccessState.stopped) ↔ (
        get "state"
          (fields_of (get "global" (fields_of (under "brokerAccess" "broker_access" payload))))
        ≡ str "stopped")
