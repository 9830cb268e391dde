-- ===== src/Contracts/Snapshot.antt =====
-- `parseSnapshot` of ui/src/contracts.ts.
use throttle_deck.Base.{
  String, Bool, false, not, Option, none, some, List, [], ◌∷◌, map, filter_map, ◌==◌, ◌||◌,
  if◌then◌else◌, or_default, find?, template,
}
use throttle_deck.Platform.{Platform, Num, lit}
use throttle_deck.Json.{Value, undefined, num, obj, Fields, entries, get, is_text}
use throttle_deck.Contracts.Types.{
  BudgetId, ControlRecord, MoneyLock, Budget, AppsAccess, GovernorSnapshot, SnapshotProblemKind,
  SnapshotParse, ok, not_ok, unsupported_schema, invalid_payload,
}
use throttle_deck.Contracts.Readers.{
  read_boolean, read_string_array, read_access_state, read_budget_health, read_money_mode,
  read_severity, as_record, read_number, read_string, read_array, read_money_lock_state,
  record_or_empty, get_either, read_control_record,
}
use throttle_deck.Contracts.Rows.{
  read_series_point, read_venue_split, budget_ids, id_text, read_budget, read_app_row,
  read_activity_event, read_broker_record,
}

module _ ⦃P : Platform⦄ where
  abbrev pub snapshot_schema_version : Num
  snapshot_schema_version = lit 1

  abbrev pub problem : SnapshotProblemKind → String → SnapshotParse
  problem kind message = not_ok (record { kind = kind; message = message })

  -- the test of `budgetsRaw.find`
  abbrev pub names_budget : BudgetId → Value → Bool
  names_budget id (obj item) =
      is_text (get "id" item) (id_text id) || is_text (get "budget" item) (id_text id)
  names_budget id _ = false

  -- the callback of `BUDGET_IDS.map`
  unfoldable pub find_budget : List Value → BudgetId → Budget
  find_budget raw id = read_budget (or_default (find? (names_budget id) raw) undefined) id

  -- `appsAccess[appId] = …`
  unfoldable pub put :
      String → ControlRecord → List (String × ControlRecord) → List (String × ControlRecord)
  put k r [] = (k, r) ∷ []
  put k r ((j, s) ∷ rest) = if j == k then (k, r) ∷ rest else (j, s) ∷ put k r rest

  unfoldable pub assign : String → ControlRecord → AppsAccess → AppsAccess
  unfolding put
  assign k r m =
      if k == "__proto__" then record m { proto = some r } else record m { own = put k r m.own }

  -- the loop over `Object.entries(appsAccessRaw)`
  unfoldable pub assign_all : List (String × Value) → AppsAccess → AppsAccess
  unfolding assign
  assign_all [] m = m
  assign_all ((app_id, v) ∷ rest) m =
      assign_all rest
        (assign app_id (read_control_record v (template ("broker:app:" ∷ app_id ∷ []))) m)

  unfoldable pub read_apps_access : Value → AppsAccess
  unfolding assign_all
  read_apps_access raw =
      assign_all (entries (record_or_empty raw)) (record { own = []; proto = none })

  unfoldable pub read_trade_lock : Value → MoneyLock
  read_trade_lock raw =
      let lock = record_or_empty raw in
      record {
        scope = or_default (read_string (get "scope" lock)) "trade:new-orders:execution";
        app_id = or_default (read_string (get_either "app_id" "appId" lock)) "execution";
        app_name = or_default (read_string (get_either "app_name" "appName" lock)) "Protected app";
        confirmation_phrase =
            or_default (read_string (get_either "confirmation_phrase" "confirmationPhrase" lock))
              "UNLOCK NEW ORDERS";
        state = read_money_lock_state (get "state" lock);
        revision = or_default (read_number (get "revision" lock)) (lit 0);
        changed_at = read_string (get_either "changed_at" "changedAt" lock);
      }

  -- the snapshot once the required fields are there
  unfoldable pub build_snapshot : Fields → Num → Num → String → Fields → GovernorSnapshot
  build_snapshot payload schema_version revision generated_at access = record {
    schema_version = schema_version;
    revision = revision;
    generated_at = generated_at;
    broker = read_broker_record (get "broker" payload);
    broker_access = record {
      global = read_control_record (get "global" access) "broker:global";
      apps = read_apps_access (get "apps" access);
    };
    trade_lock = read_trade_lock (get_either "tradeLock" "trade_lock" payload);
    budgets = map (find_budget (read_array (get "budgets" payload))) budget_ids;
    apps = filter_map read_app_row (read_array (get "apps" payload));
    activity = filter_map read_activity_event (read_array (get "activity" payload));
  }

  abbrev pub missing_fields : SnapshotParse
  missing_fields = problem invalid_payload "Governor sent a snapshot with missing required fields."

  -- the test of the four required fields
  unfoldable pub require_fields :
      Fields → Num → Option Num → Option String → Option Fields → Option Fields → SnapshotParse
  require_fields payload version (some revision) (some generated_at) (some access) (some broker) =
      ok (build_snapshot payload version revision generated_at access)
  require_fields payload version _ _ _ _ = missing_fields

  -- the test of the version, from `typeof schemaVersion` on
  unfoldable pub check_version : Fields → Value → SnapshotParse
  unfolding require_fields
  check_version payload (num version) =
      if not (P.eq version snapshot_schema_version)
      then problem unsupported_schema (
          template (
            "Unsupported snapshot version "
            ∷ P.show version
            ∷ ". This window understands version "
            ∷ P.show snapshot_schema_version
            ∷ "."
            ∷ []))
      else require_fields payload version (read_number (get "revision" payload))
          (read_string (get_either "generatedAt" "generated_at" payload))
          (as_record (get_either "brokerAccess" "broker_access" payload))
          (as_record (get "broker" payload))
  check_version payload _ =
      problem invalid_payload "Governor sent a snapshot without a schema version."

  unfoldable pub parse_snapshot : Value → SnapshotParse
  unfolding check_version
  parse_snapshot (obj payload) = check_version payload (get "schemaVersion" payload)
  parse_snapshot _ =
      problem invalid_payload "Governor sent a snapshot the interface could not read."

-- Names all that a test of `parse_snapshot` computes with.
unfoldable pub parsing : Unit {0}
unfolding as_record read_number read_string read_boolean read_array read_string_array
    read_access_state read_money_lock_state record_or_empty read_control_record read_budget_health
    read_money_mode read_severity read_budget read_series_point read_venue_split read_app_row
    read_activity_event read_broker_record find_budget read_apps_access read_trade_lock
    build_snapshot parse_snapshot filter_map
parsing = tt
