-- ===== src/Contracts/Rows.antt =====
-- The readers of budgets, application rows, events and the broker in ui/src/contracts.ts.
use throttle_deck.Base.{
  String, Bool, true, false, Option, none, some, List, [], ◌∷◌, map, filter_map, if◌then◌else◌,
  or_default,
}
use throttle_deck.Platform.{Platform, Num, lit}
use throttle_deck.Json.{Value, null, bool, obj, Fields, get, is_text}
use throttle_deck.Contracts.Types.{
  BrokerState, BudgetHealth, BudgetUnit, BudgetId, BudgetVenue, BudgetProduct, kalshi_predictions,
  kalshi_perps, Budget, VenueSplit, AppRow, ActivityEvent, BrokerRecord,
}
use throttle_deck.Contracts.Readers.{
  read_number, read_string, read_boolean, read_array, read_string_array, read_access_state,
  record_or_empty, get_either, read_budget_health, read_money_mode, read_severity,
}

abbrev pub budget_ids : List BudgetId
budget_ids = BudgetId.pmus ∷ BudgetId.kalshi_predictions ∷ BudgetId.kalshi_perps ∷ []

abbrev pub id_text : BudgetId → String
id_text BudgetId.pmus = "pmus"
id_text kalshi_predictions = "kalshi.predictions"
id_text kalshi_perps = "kalshi.perps"

-- the `venue`, `product` and `unit` that `emptyBudget` gives each id
abbrev pub venue_of : BudgetId → BudgetVenue
venue_of BudgetId.pmus = BudgetVenue.pmus
venue_of _ = BudgetVenue.kalshi

abbrev pub product_of : BudgetId → BudgetProduct
product_of BudgetId.pmus = BudgetProduct.rest
product_of kalshi_predictions = BudgetProduct.predictions
product_of kalshi_perps = BudgetProduct.perps

abbrev pub unit_of : BudgetVenue → BudgetUnit
unit_of BudgetVenue.pmus = BudgetUnit.requests
unit_of BudgetVenue.kalshi = BudgetUnit.tokens

module _ ⦃P : Platform⦄ where
  unfoldable pub empty_budget : BudgetId → Budget
  empty_budget id = record {
    id = id;
    venue = venue_of id;
    product = product_of id;
    health = BudgetHealth.unavailable;
    unit = unit_of (venue_of id);
    available_now = none;
    capacity = none;
    refill_per_second = none;
    queue_depth = none;
    recent_pressure_ratio = none;
    throttled_with_headroom = none;
    throttled_with_headroom_delta = none;
    series = [];
    sampled_at = none;
  }

  -- `value === false`
  abbrev pub is_false : Value → Bool
  is_false (bool false) = true
  is_false _ = false

  -- `readBudget` on a record, and on anything else
  unfoldable pub read_budget_fields : Fields → BudgetId → Budget
  unfolding empty_budget
  read_budget_fields value id = record (empty_budget id) {
    health =
        if is_false (get "configured" value)
        then BudgetHealth.unconfigured
        else read_budget_health (get "health" value);
    available_now = read_number (get_either "available_now" "availableNow" value);
    capacity = read_number (get "capacity" value);
    refill_per_second = read_number (get_either "refill_per_second" "refillPerSecond" value);
    queue_depth = read_number (get_either "queue_depth" "queueDepth" value);
    recent_pressure_ratio = read_number (get_either "recent_pressure" "recentPressureRatio" value);
    throttled_with_headroom =
        read_number (get_either "throttled_with_headroom" "throttledWithHeadroom" value);
    throttled_with_headroom_delta =
        read_number (get_either "throttled_with_headroom_delta" "throttledWithHeadroomDelta" value);
    series =
        map (λ point. or_default (read_number point) (lit 0)) (read_array (get "series" value));
    sampled_at = read_string (get_either "sampled_at" "sampledAt" value);
  }

  unfoldable pub read_budget : Value → BudgetId → Budget
  unfolding read_budget_fields empty_budget
  read_budget (obj value) id = read_budget_fields value id
  read_budget _ id = empty_budget id

  -- `parsed === null ? null : Math.max(0, Math.round(parsed))`
  abbrev pub round_point : Option Num → Option Num
  round_point none = none
  round_point (some parsed) = some (P.max (lit 0) (P.round parsed))

  -- one point of `requestSeries`
  unfoldable pub read_series_point : Value → Option Num
  read_series_point null = none
  read_series_point point = round_point (read_number point)

  -- one element of `venueSplit`, once it has a venue
  abbrev pub venue_split_of : String → Fields → VenueSplit
  venue_split_of venue item = record {
    venue = venue;
    count = or_default (read_number (get "count" item)) (lit 0);
    upstream_429s = read_number (get_either "upstream_429s" "upstream429s" item);
    headroom_429s = read_number (get_either "headroom_429s" "headroom429s" item);
    queue_wait_ms = read_number (get_either "queue_wait_ms" "queueWaitMs" item);
  }

  unfoldable pub read_venue_split : Value → Option VenueSplit
  read_venue_split (obj item) = elim (read_string (get "venue" item)) [
    | none ↦ none
    | some venue ↦ some (venue_split_of venue item)
  ]
  read_venue_split _ = none

  -- the row that `readAppRow` builds once it has an id and a name
  abbrev pub app_row : String → String → Fields → AppRow
  app_row app_id name value = record {
    app_id = app_id;
    name = name;
    money_mode = read_money_mode (get_either "money_mode" "moneyMode" value);
    access = read_access_state (get "access" value);
    callers = read_string_array (get "callers" value);
    coverage_note = read_string (get_either "coverage_note" "coverageNote" value);
    recent_requests = read_number (get_either "recent_requests" "recentRequests" value);
    request_series =
        map read_series_point (read_array (get_either "request_series" "requestSeries" value));
    recent_window_seconds =
        read_number (get_either "recent_window_seconds" "recentWindowSeconds" value);
    queue_wait_ms = read_number (get_either "queue_wait_ms" "queueWaitMs" value);
    errors = read_number (get "errors" value);
    venue_split =
        filter_map read_venue_split (read_array (get_either "venue_split" "venueSplit" value));
    last_request_at = read_string (get_either "last_request_at" "lastRequestAt" value);
    unassigned = read_boolean (get "unassigned" value);
  }

  unfoldable pub read_app_row : Value → Option AppRow
  read_app_row (obj value) = elim (read_string (get_either "app_id" "appId" value)) [
    | none ↦ none
    | some app_id ↦ elim (read_string (get "name" value)) [
      | none ↦ none
      | some name ↦ some (app_row app_id name value)
    ]
  ]
  read_app_row _ = none

  -- the event, once it has a time and a kind
  abbrev pub activity_event_of : String → String → Fields → ActivityEvent
  activity_event_of at kind value = record {
    at = at;
    kind = kind;
    severity = read_severity (get "severity" value);
    detail = read_string (get "detail" value);
    app_id = read_string (get_either "app_id" "appId" value);
  }

  unfoldable pub read_activity_event : Value → Option ActivityEvent
  read_activity_event (obj value) = elim (read_string (get "at" value)) [
    | none ↦ none
    | some at ↦ elim (read_string (get "kind" value)) [
      | none ↦ none
      | some kind ↦ some (activity_event_of at kind value)
    ]
  ]
  read_activity_event _ = none

  abbrev pub read_broker_state : Value → BrokerState
  read_broker_state v =
      if is_text v "down"
      then BrokerState.down
      else if is_text v "degraded"
      then BrokerState.degraded
      else BrokerState.healthy

  unfoldable pub read_broker_record : Value → BrokerRecord
  read_broker_record value =
      let fields = record_or_empty value in
      record {
        state = read_broker_state (get "state" fields);
        instance_id = read_string (get_either "instance_id" "instanceId" fields);
        started_at = read_string (get_either "started_at" "startedAt" fields);
        sampled_at = read_string (get_either "sampled_at" "sampledAt" fields);
        sample_age_ms = read_number (get_either "sample_age_ms" "sampleAgeMs" fields);
        tier = read_string (get "tier" fields);
        collection_paused = read_boolean (get_either "collection_paused" "collectionPaused" fields);
        pause_reason = read_string (get_either "pause_reason" "pauseReason" fields);
      }
