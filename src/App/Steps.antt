-- ===== src/App/Steps.antt =====
-- The window among its asynchronous calls: what an operator, a timer or an answer can make happen
-- next. An answer may come at any time and in any order, and holds anything that the calls of
-- ui/src/api.ts can give.
use throttle_deck.Base.{ℕ, ◌≡◌, String, Bool, true, false, Option, none, some, List, [], ◌∷◌, ◌++◌}
use throttle_deck.Platform.{Platform}
use throttle_deck.Contracts.{AppRow, GovernorSnapshot}
use throttle_deck.Api.{Codes, Document, Fetcher, ControlAction, load_snapshot, apply_control}
use throttle_deck.Components.{
  RowButton, row_button, DialogState, click_confirm, ConfirmRequest, StripButton, clickable,
}
use mathlib.Core.List.{Memᴰ}
use throttle_deck.App.State.{AppState, initial, begin_load, finish_load, finish_run}
use throttle_deck.App.Handlers.{
  Submits, cancel_confirm, confirm, on_stop_new_money_orders, on_unlock, on_stop_all_access,
  on_resume_all_access, on_toggle_detail, on_stop_app, on_resume_app,
}

-- A load that awaits its answer.
pub record Load : Type 0 where
  pub load_id : ℕ
  pub manual : Bool

module _ ⦃P : Platform⦄ where
  pub record World : Type 0 where
    pub app : AppState
    pub loads : List Load
    -- the actions that await their answers, and all that were ever submitted
    pub runs : List ControlAction
    pub submitted : List ControlAction

  abbrev pub initial_world : World
  initial_world = record { app = initial; loads = []; runs = []; submitted = [] }

  -- What a handler that may submit an action makes of the world.
  abbrev pub submit : World → Submits → World
  submit w (s, none) = record w { app = s }
  submit w (s, some action) = record w {
    app = s;
    runs = action ∷ w.runs;
    submitted = action ∷ w.submitted;
  }

  module _ (decode : Codes → Option Codes) where
    -- A handler that a component offers only beside a snapshot is given the one that is shown.
    pub data Step (w : World) : World → Type 0 where
      start_load :
          (manual : Bool)
          → Step w (record w {
            app = begin_load manual w.app;
            loads =
                record { load_id = (begin_load manual w.app).latest_load; manual = manual }
                ∷ w.loads;
          })
      answer_load :
          (before : List Load) (l : Load) (later : List Load) (fetcher : Fetcher)
          → w.loads ≡ before ++ l ∷ later
          → Step w (record w {
            app = finish_load l.load_id l.manual (load_snapshot fetcher) w.app;
            loads = before ++ later;
          })
      answer_run :
          (before : List ControlAction) (action : ControlAction) (later : List ControlAction)
          (document : Option Document) (fetcher : Fetcher)
          → w.runs ≡ before ++ action ∷ later
          → Step w (record w {
            app = finish_run (apply_control decode document action fetcher) w.app;
            runs = before ++ later;
          })
      stop_orders :
          (s : GovernorSnapshot)
          → w.app.snapshot ≡ some s
          → Memᴰ StripButton.stop_new_money_orders (clickable s w.app.pending)
          → Step w (submit w (on_stop_new_money_orders s w.app))
      ask_unlock :
          (s : GovernorSnapshot)
          → w.app.snapshot ≡ some s
          → Memᴰ StripButton.unlock (clickable s w.app.pending)
          → Step w (record w { app = on_unlock s w.app })
      ask_stop_all :
          (s : GovernorSnapshot)
          → w.app.snapshot ≡ some s
          → Memᴰ StripButton.stop_all_access (clickable s w.app.pending)
          → Step w (record w { app = on_stop_all_access s w.app })
      resume_all :
          (s : GovernorSnapshot)
          → w.app.snapshot ≡ some s
          → Memᴰ StripButton.resume_all_access (clickable s w.app.pending)
          → Step w (submit w (on_resume_all_access s w.app))
      ask_stop_app :
          (s : GovernorSnapshot) (app : AppRow)
          → w.app.snapshot ≡ some s
          → Memᴰ app s.apps
          → row_button app w.app.pending ≡ some RowButton.stop_access
          → Step w (record w { app = on_stop_app s app.app_id w.app })
      resume_app :
          (s : GovernorSnapshot) (app : AppRow)
          → w.app.snapshot ≡ some s
          → Memᴰ app s.apps
          → row_button app w.app.pending ≡ some RowButton.resume_access
          → Step w (submit w (on_resume_app s app.app_id w.app))
      toggle_detail : (app_id : String) → Step w (record w { app = on_toggle_detail app_id w.app })
      cancel : Step w (record w { app = cancel_confirm w.app })
      confirm_request :
          (request : ConfirmRequest) (dialog : DialogState) (reason : String)
          → w.app.confirm_request ≡ some request
          → click_confirm request w.app.pending dialog ≡ some reason
          → Step w (submit w (confirm reason w.app))

    -- The two inputs of the dialog when a step is the click that confirms.
    abbrev pub dialog_of : {w v : World} → Step w v → Option DialogState
    dialog_of (confirm_request request dialog reason asked confirmed) = some dialog
    dialog_of _ = none

    -- The steps that the operator makes: all but the answers and the loads of the timer.
    abbrev pub is_click : {w v : World} → Step w v → Bool
    is_click (start_load manual) = manual
    is_click (answer_load before l later fetcher e) = false
    is_click (answer_run before action later document fetcher e) = false
    is_click _ = true

    pub data Reach : World → Type 0 where
      here : Reach initial_world
      next : {w v : World} → Reach w → Step w v → Reach v

    -- The worlds that may follow one, itself among them.
    pub data Later (w : World) : World → Type 0 where
      same : Later w w
      then_step : {v u : World} → Later w v → Step v u → Later w u
