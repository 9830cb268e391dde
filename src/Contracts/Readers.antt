-- ===== src/Contracts/Readers.antt =====
-- The readers of single fields in ui/src/contracts.ts.
use throttle_deck.Base.{
  String, Bool, false, Option, none, some, List, [], filter_map, ◌==◌, if◌then◌else◌, or_default,
}
use throttle_deck.Platform.{Platform, Num, lit}
use throttle_deck.Json.{Value, bool, num, str, arr, obj, Fields, end, elems, get, coalesce, is_text}
use throttle_deck.Contracts.Types.{
  AccessState, MoneyLockState, BudgetHealth, MoneyMode, Severity, ControlRecord,
}

module _ ⦃P : Platform⦄ where
  -- `isRecord`, as the record that the test makes of its value
  unfoldable pub as_record : Value → Option Fields
  as_record (obj fs) = some fs
  as_record _ = none

  unfoldable pub read_number : Value → Option Num
  read_number (num n) = if P.is_finite n then some n else none
  read_number _ = none

  unfoldable pub read_string : Value → Option String
  read_string (str s) = if s == "" then none else some s
  read_string _ = none

  unfoldable pub read_boolean : Value → Bool
  read_boolean (bool b) = b
  read_boolean _ = false

  unfoldable pub read_array : Value → List Value
  read_array (arr vs) = elems vs
  read_array _ = []

  unfoldable pub text_of : Value → Option String
  text_of (str s) = some s
  text_of _ = none

  unfoldable pub read_string_array : Value → List String
  unfolding text_of
  read_string_array v = filter_map text_of (read_array v)

  unfoldable pub read_access_state : Value → AccessState
  read_access_state v = if is_text v "stopped" then AccessState.stopped else AccessState.allowed

  unfoldable pub read_money_lock_state : Value → MoneyLockState
  read_money_lock_state v =
      if is_text v "stopped"
      then MoneyLockState.stopped
      else if is_text v "stopping"
      then MoneyLockState.stopping
      else if is_text v "unavailable"
      then MoneyLockState.unavailable
      else MoneyLockState.allowed

  -- `isRecord(value) ? value : {}`
  unfoldable pub record_or_empty : Value → Fields
  record_or_empty (obj fs) = fs
  record_or_empty _ = end

  -- `record[key] ?? record[alias]`
  abbrev pub get_either : String → String → Fields → Value
  get_either key alias fs = coalesce (get key fs) (get alias fs)

  unfoldable pub read_control_record : Value → String → ControlRecord
  read_control_record value fallback_scope =
      let fields = record_or_empty value in
      record {
        scope = or_default (read_string (get "scope" fields)) fallback_scope;
        state = read_access_state (get "state" fields);
        revision = or_default (read_number (get "revision" fields)) (lit 0);
        changed_at = read_string (get_either "changed_at" "changedAt" fields);
        reason = read_string (get "reason" fields);
      }

  unfoldable pub read_budget_health : Value → BudgetHealth
  read_budget_health v =
      if is_text v "healthy"
      then BudgetHealth.healthy
      else if is_text v "pressure"
      then BudgetHealth.pressure
      else if is_text v "critical"
      then BudgetHealth.critical
      else if is_text v "unconfigured"
      then BudgetHealth.unconfigured
      else BudgetHealth.unavailable

  unfoldable pub read_money_mode : Value → MoneyMode
  read_money_mode v = if is_text v "real-money" then MoneyMode.real_money else MoneyMode.paper

  unfoldable pub read_severity : Value → Severity
  read_severity v =
      if is_text v "warning"
      then Severity.warning
      else if is_text v "critical"
      then Severity.critical
      else Severity.info
