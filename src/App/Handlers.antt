-- ===== src/App/Handlers.antt =====
-- The handlers that ui/src/App.tsx gives its components. A handler that submits an action gives the
-- state up to the `await` of `run`, and the action.
use throttle_deck.Base.{
  false, String, Bool, Option, none, some, [], ◌∷◌, ◌==◌, if◌then◌else◌, or_default, find?,
  template,
}
use throttle_deck.Platform.{Platform}
use throttle_deck.Contracts.{AppRow, GovernorSnapshot}
use throttle_deck.Api.{
  ControlAction, stop_broker_access, resume_broker_access, stop_new_money_orders,
  unlock_new_money_orders,
}
use throttle_deck.Components.{ConfirmKind, ConfirmRequest}
use throttle_deck.App.State.{AppState, begin_run}
use throttle_deck.App.Requests.{app_stop_request, stop_all_request, unlock_request}

module _ ⦃P : Platform⦄ where
  abbrev pub Submits : Type 0
  Submits = AppState × Option ControlAction

  -- `run`, up to its `await`
  unfoldable pub run : ControlAction → AppState → Submits
  unfolding begin_run
  run action s = (begin_run s, some action)

  unfoldable pub open_confirm : ConfirmRequest → AppState → AppState
  open_confirm request s = record s { control_error = none; confirm_request = some request }

  unfoldable pub cancel_confirm : AppState → AppState
  cancel_confirm s = record s { confirm_request = none }

  abbrev pub find_app : Option String → GovernorSnapshot → Option AppRow
  find_app none snapshot = none
  find_app (some app_id) snapshot = find? (λ (app : AppRow). app.app_id == app_id) snapshot.apps

  -- `app?.name ?? request.appId`, where a null id is written "null"
  abbrev stopped_name : Option AppRow → Option String → String
  stopped_name (some app) app_id = app.name
  stopped_name none app_id = or_default app_id "null"

  -- The action that `confirm` runs for a request.
  unfoldable pub confirmed_action : GovernorSnapshot → ConfirmRequest → String → ControlAction
  unfolding unlock_new_money_orders stop_broker_access
  confirmed_action snapshot request reason = elim request.kind [
    | ConfirmKind.unlock ↦ unlock_new_money_orders snapshot reason
    | ConfirmKind.stop_all ↦
        stop_broker_access snapshot none "Operator stopped all brokered REST access."
    | ConfirmKind.app_stop ↦ stop_broker_access snapshot request.app_id (
        template (
          "Operator stopped brokered REST access for "
          ∷ stopped_name (find_app request.app_id snapshot) request.app_id
          ∷ "."
          ∷ []))
  ]

  confirm_with : String → Option GovernorSnapshot → Option ConfirmRequest → AppState → Submits
  unfolding confirmed_action run
  confirm_with reason (some snapshot) (some request) s =
      run (confirmed_action snapshot request reason) (record s { confirm_request = none })
  confirm_with reason _ _ s = (s, none)

  unfoldable pub confirm : String → AppState → Submits
  unfolding confirm_with
  confirm reason s = confirm_with reason s.snapshot s.confirm_request s

  -- The handlers below stand where `snapshot` is not null, and are given it.
  unfoldable pub on_stop_new_money_orders : GovernorSnapshot → AppState → Submits
  unfolding run stop_new_money_orders
  on_stop_new_money_orders snapshot s = run (stop_new_money_orders snapshot) s

  unfoldable pub on_unlock : GovernorSnapshot → AppState → AppState
  unfolding open_confirm unlock_request
  on_unlock snapshot s = open_confirm (unlock_request snapshot) s

  unfoldable pub on_stop_all_access : GovernorSnapshot → AppState → AppState
  unfolding open_confirm stop_all_request
  on_stop_all_access snapshot s = open_confirm (stop_all_request snapshot) s

  unfoldable pub on_resume_all_access : GovernorSnapshot → AppState → Submits
  unfolding run resume_broker_access
  on_resume_all_access snapshot s = run (resume_broker_access snapshot none) s

  abbrev is_open : Option String → String → Bool
  is_open none app_id = false
  is_open (some current) app_id = current == app_id

  unfoldable pub on_toggle_detail : String → AppState → AppState
  on_toggle_detail app_id s = record s {
    detail_app_id = if is_open s.detail_app_id app_id then none else some app_id;
  }

  unfoldable pub on_stop_app : GovernorSnapshot → String → AppState → AppState
  unfolding open_confirm app_stop_request
  on_stop_app snapshot app_id s = elim (find_app (some app_id) snapshot) [
    | none ↦ s
    | some app ↦ open_confirm (app_stop_request app) s
  ]

  unfoldable pub on_resume_app : GovernorSnapshot → String → AppState → Submits
  unfolding run resume_broker_access
  on_resume_app snapshot app_id s = run (resume_broker_access snapshot (some app_id)) s
