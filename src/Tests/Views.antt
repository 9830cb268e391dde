-- ===== src/Tests/Views.antt =====
-- What the window shows of a snapshot: its strip, its feed, its header and its bars.
use throttle_deck.Base.{
  ◌⊎◌, ◌↔◌, ◌≡◌, refl, none, some, [], ◌∷◌, any, arith, if◌then◌else◌, true, false, String, eq_iff,
  ◌==◌,
}
use throttle_deck.Contracts.{
  AppRow, app_row, read_apps_access, read_access_state, record_or_empty, GovernorSnapshot,
  BrokerState, MoneyLockState, Budget, ActivityEvent, BudgetId, BudgetVenue, BudgetProduct,
  BudgetHealth, BudgetUnit, Severity,
}
use throttle_deck.Contracts.WellFormed.{IsBudget}
use throttle_deck.Derive.{
  app_access_record, money_lock_view, unlock_label, stop_new_money_orders_label, Tone,
  has_headroom_delta_alert, direct_caller_alert, flags_direct_caller, age_ms, format_age,
  updated_now, is_snapshot_stale, broker_health_label, broker_health_tone, event_title, text,
  is_inherited,
}
use throttle_deck.Components.{
  StripButton, reads_stopped, strip_buttons, activity_with_headroom_alert, capacity_percent,
  derived_event,
}
use throttle_deck.Components.Controls.{strip_buttons_lem, capacity_percent_bounds, is_locked}
use throttle_deck.Components.Feed.{direct_caller_alert-any}
use throttle_deck.Derive.Header.{updated_now-not_stale}
use throttle_deck.Derive.Access.{app_access_record-read, last_value}
use throttle_deck.Json.{Value, obj, field, str, end, entries, get}
use throttle_deck.Derive.Alerts.{event_title-text_iff}
use throttle_deck.Tests.Numbers.{whole, whole-Laws}
use throttle_deck.Tests.Payload.{locked_snapshot}

views : Unit {0}
unfolding has_headroom_delta_alert age_ms
views = tt

strip_buttons_lem_example :
    (strip_buttons locked_snapshot
      ≡ (if is_locked locked_snapshot.trade_lock.state
          then StripButton.unlock
          else StripButton.stop_new_money_orders)
        ∷ (if reads_stopped locked_snapshot
            then StripButton.resume_all_access
            else StripButton.stop_all_access)
        ∷ [])
    × ((money_lock_view locked_snapshot.trade_lock).action_label ≡ (
        if is_locked locked_snapshot.trade_lock.state
        then unlock_label
        else stop_new_money_orders_label))
    × (((money_lock_view locked_snapshot.trade_lock).banner ≡ none)
        ↔ (locked_snapshot.trade_lock.state ≡ MoneyLockState.allowed))
strip_buttons_lem_example = strip_buttons_lem locked_snapshot

-- A budget that throttled requests while it had room, with a snapshot that has it.
abbrev pub roomy : Budget
roomy = record {
  id = BudgetId.pmus;
  venue = BudgetVenue.pmus;
  product = BudgetProduct.rest;
  health = BudgetHealth.pressure;
  unit = BudgetUnit.requests;
  available_now = some 30;
  capacity = some 40;
  refill_per_second = some 10;
  queue_depth = none;
  recent_pressure_ratio = none;
  throttled_with_headroom = some 5;
  throttled_with_headroom_delta = some 2;
  series = 1 ∷ [];
  sampled_at = none;
}

roomy-IsBudget : IsBudget roomy
roomy-IsBudget = record {
  venue = refl;
  product = refl;
  unit = refl;
  available_now = refl;
  capacity = refl;
  refill_per_second = refl;
  queue_depth = tt;
  recent_pressure_ratio = tt;
  throttled_with_headroom = refl;
  throttled_with_headroom_delta = refl;
  series = (refl, tt);
  sampled_at = tt;
}

abbrev pub suspected : GovernorSnapshot
suspected = record locked_snapshot {
  budgets = roomy ∷ [];
  broker = record locked_snapshot.broker { sampled_at = some "2026-01-01T00:00:00Z" };
}

suspected-direct_caller : direct_caller_alert suspected ≡ true
unfolding direct_caller_alert views
suspected-direct_caller = refl

direct_caller_alert-any_example :
    (direct_caller_alert suspected
      ≡ any flags_direct_caller (activity_with_headroom_alert suspected))
    × ((activity_with_headroom_alert suspected ≡ suspected.activity)
        ⊎ (activity_with_headroom_alert suspected ≡ derived_event suspected ∷ suspected.activity))
direct_caller_alert-any_example = direct_caller_alert-any suspected

age-suspected : age_ms suspected.broker.sampled_at 3000 ≡ some 2000
unfolding age_ms
age-suspected = ground (arith, eq_iff "2026-01-01T00:00:00Z" "")

updated_now-not_stale_example :
    (format_age suspected.broker.sampled_at 3000 ≡ updated_now)
    × (is_snapshot_stale suspected 3000 ≡ false)
    × (broker_health_label suspected 3000 ≡ (elim suspected.broker.state [
      | BrokerState.healthy ↦ "ThrottleDeck Broker healthy"
      | BrokerState.degraded ↦ "ThrottleDeck Broker update required"
      | BrokerState.down ↦ "ThrottleDeck Broker is not responding"
    ]))
    × (broker_health_tone suspected 3000 ≡ (elim suspected.broker.state [
      | BrokerState.healthy ↦ Tone.healthy
      | BrokerState.degraded ↦ Tone.warning
      | BrokerState.down ↦ Tone.critical
    ]))
updated_now-not_stale_example =
    updated_now-not_stale whole-Laws suspected 3000 2000 age-suspected refl

capacity_percent_bounds_example :
    (whole.is_nan (capacity_percent roomy) ≡ false)
    × (whole.lt (capacity_percent roomy) 0 ≡ false)
    × (whole.lt 100 (capacity_percent roomy) ≡ false)
capacity_percent_bounds_example = capacity_percent_bounds whole-Laws roomy roomy-IsBudget

abbrev odd_event : ActivityEvent
odd_event = record {
  at = "2026-01-01T00:00:00Z";
  kind = "constructor";
  severity = Severity.info;
  detail = none;
  app_id = none;
}

event_title-text_iff_example :
    ((t : String) × (event_title odd_event ≡ text t)) ↔ (is_inherited odd_event.kind ≡ false)
event_title-text_iff_example = event_title-text_iff odd_event

-- An access map that stops the application bot.
abbrev stopping_bot : Value
stopping_bot = obj (field "bot" (obj (field "state" (str "stopped") end)) end)

abbrev pub bot : AppRow
bot = app_row "bot" "Bot" end

abbrev bot_stopped : GovernorSnapshot
bot_stopped = record locked_snapshot {
  broker_access = record {
    global = locked_snapshot.broker_access.global;
    apps = read_apps_access stopping_bot;
  };
}

bot-not_proto : (bot.app_id == "__proto__") ≡ false
bot-not_proto = refl

app_access_record-read_example :
    app_access_record bot_stopped bot
    ≡ elim (last_value bot.app_id (entries (record_or_empty stopping_bot))) [
      | some v ↦ read_access_state (get "state" (record_or_empty v))
      | none ↦ bot.access
    ]
app_access_record-read_example =
    app_access_record-read stopping_bot bot bot_stopped refl bot-not_proto
