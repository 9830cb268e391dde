-- ===== src/Derive/Apps.antt =====
-- The derivations of ui/src/derive.ts about one application.
use throttle_deck.Base.{
  String, Bool, true, false, Option, none, some, List, [], ◌∷◌, ◌==◌, if◌then◌else◌, template,
}
use throttle_deck.Platform.{Platform, Num, lit}
use throttle_deck.Contracts.{
  AccessState, MoneyLockState, MoneyMode, MoneyLock, AppRow, AppsAccess, ControlRecord,
  GovernorSnapshot, paper, real_money,
}
use throttle_deck.Derive.Copy.{
  allowed_label, stopped_label, yes_label, paper_label, real_money_label, unknown_value,
}
use throttle_deck.Derive.Budgets.{show_known}
use throttle_deck.Derive.Freshness.{age_ms}

abbrev pub access_label : AccessState → String
access_label AccessState.stopped = stopped_label
access_label AccessState.allowed = allowed_label

abbrev pub is_stopped : AccessState → Bool
is_stopped AccessState.stopped = true
is_stopped AccessState.allowed = false

abbrev money_mode_label : MoneyMode → String
money_mode_label real_money = real_money_label
money_mode_label paper = paper_label

abbrev lock_word : MoneyLockState → String
lock_word MoneyLockState.allowed = "allowed"
lock_word MoneyLockState.stopped = "stopped"
lock_word MoneyLockState.stopping = "stopping"
lock_word MoneyLockState.unavailable = "unavailable"

-- `detail.coverage` is `coverageNote`, so it is an `Option`.
pub record AppDetailView : Type 0 where
  pub title : String
  pub money_line : String
  pub brokered_rest_line : String
  pub does_line : String
  pub does_not_line : String
  pub coverage : Option String

module _ ⦃P : Platform⦄ where
  unfoldable pub app_money_label : AppRow → String
  app_money_label app = money_mode_label app.money_mode

  unfoldable pub app_access_label : AppRow → String
  app_access_label app = access_label app.access

  unfoldable pub format_window : Num → String
  format_window seconds =
      if P.eq (P.rem seconds (lit 60)) (lit 0)
      then template (P.show (P.div seconds (lit 60)) ∷ "m" ∷ [])
      else template (P.show seconds ∷ "s" ∷ [])

  abbrev requests_text : Option Num → Option Num → String
  requests_text none window = "REST traffic unavailable"
  requests_text (some count) none = template (P.show count ∷ " REST" ∷ [])
  requests_text (some count) (some window) =
      template (P.show count ∷ " REST / " ∷ format_window window ∷ [])

  unfoldable pub format_recent_requests : AppRow → String
  unfolding format_window
  format_recent_requests app = requests_text app.recent_requests app.recent_window_seconds

  abbrev last_rest_text : Option Num → String
  last_rest_text none = "No REST recorded"
  last_rest_text (some age) =
      if P.lt age (lit 5000)
      then "Last REST now"
      else if P.lt age (lit 60000)
      then template ("Last REST " ∷ P.show (P.round (P.div age (lit 1000))) ∷ "s ago" ∷ [])
      else if P.lt age (lit 3600000)
      then template ("Last REST " ∷ P.show (P.floor (P.div age (lit 60000))) ∷ "m ago" ∷ [])
      else if P.lt age (lit 86400000)
      then template ("Last REST " ∷ P.show (P.floor (P.div age (lit 3600000))) ∷ "h ago" ∷ [])
      else template ("Last REST " ∷ P.show (P.floor (P.div age (lit 86400000))) ∷ "d ago" ∷ [])

  unfoldable pub format_last_rest : AppRow → Num → String
  format_last_rest app now = last_rest_text (age_ms app.last_request_at now)

  abbrev series_text : String → Option Num → Option Num → String
  series_text name (some count) (some window) = template (
      name
      ∷ " brokered REST activity: "
      ∷ P.show count
      ∷ " requests over "
      ∷ format_window window
      ∷ "."
      ∷ [])
  series_text name _ _ = template (name ∷ " brokered REST activity is unavailable." ∷ [])

  unfoldable pub describe_request_series : AppRow → String
  unfolding format_window
  describe_request_series app = series_text app.name app.recent_requests app.recent_window_seconds

  abbrev wait_text : Option Num → String
  wait_text none = unknown_value
  wait_text (some wait) = template (P.show (P.round wait) ∷ " ms" ∷ [])

  unfoldable pub format_queue_wait : AppRow → String
  format_queue_wait app = wait_text app.queue_wait_ms

  unfoldable pub format_errors : AppRow → String
  format_errors app = show_known app.errors

  unfoldable pub format_brokered_rest : AppRow → String
  format_brokered_rest app = if is_stopped app.access then stopped_label else yes_label

  unfoldable pub global_access_label : GovernorSnapshot → String
  global_access_label snapshot = access_label snapshot.broker_access.global.state

  unfoldable pub lookup_own : String → List (String × ControlRecord) → Option ControlRecord
  lookup_own k [] = none
  lookup_own k ((j, r) ∷ rest) = if j == k then some r else lookup_own k rest

  -- `apps[appId]?.state`. A key that is not the object's own is looked up in its prototype, whose
  -- members have no `state`; `__proto__` is the prototype itself.
  unfoldable pub recorded_state : AppsAccess → String → Option AccessState
  unfolding lookup_own
  recorded_state apps app_id = elim (lookup_own app_id apps.own) [
    | some r ↦ some r.state
    | none ↦
        if app_id == "__proto__"
        then elim apps.proto [ none ↦ none | some r ↦ some r.state ]
        else none
  ]

  unfoldable pub app_access_record : GovernorSnapshot → AppRow → AccessState
  unfolding recorded_state
  app_access_record snapshot app = elim (recorded_state snapshot.broker_access.apps app.app_id) [
    | some state ↦ state
    | none ↦ app.access
  ]

  abbrev money_line : AppRow → MoneyLock → String
  money_line app lock =
      if app.app_id == lock.app_id
      then template (
          "Real money: new order submission is gated by the "
          ∷ lock.app_name
          ∷ " money lock, which is currently "
          ∷ lock_word lock.state
          ∷ ". Brokered REST reads are separate."
          ∷ [])
      else elim app.money_mode [
        | real_money ↦ "Real money: no Governor new-order gate is configured for this application."
        | paper ↦ "Paper: this application does not submit real-money orders."
      ]

  unfoldable pub app_detail_view : AppRow → MoneyLock → AppDetailView
  app_detail_view app lock = record {
    title = app.name;
    money_line = money_line app lock;
    brokered_rest_line =
        if is_stopped app.access
        then "Brokered REST reads are stopped for these caller labels."
        else "Brokered REST reads are allowed for these caller labels.";
    does_line = "Blocks brokered REST reads for this application's caller labels.";
    does_not_line =
        "Does not stop direct venue requests, WebSocket streams, or the application process.";
    coverage = app.coverage_note;
  }
