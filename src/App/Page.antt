-- ===== src/App/Page.antt =====
-- What `App` in ui/src/App.tsx gives React to show, and which of its handlers each click calls.
use throttle_deck.Base.{String, true, Option, none, some, List, [], ◌∷◌, ◌++◌, map}
use throttle_deck.Platform.{Platform, Num}
use throttle_deck.Markup.{attr, Node, text, el, fragment, class_name, classed, shown_for}
use throttle_deck.Contracts.{GovernorSnapshot, SnapshotProblem}
use throttle_deck.Components.{
  StripButton, DialogState, DialogHandlers, confirm_dialog, safety_strip, budget_card, RowHandlers,
  app_table, FeedState, activity_feed, header, product_heading, problem_panel,
}
use throttle_deck.App.State.{AppState, begin_load}
use throttle_deck.App.Handlers.{
  cancel_confirm, confirm, on_stop_new_money_orders, on_unlock, on_stop_all_access,
  on_resume_all_access, on_toggle_detail, on_stop_app, on_resume_app,
}
use throttle_deck.App.Steps.{World, submit}

-- The handlers that the page gives its components, and those that the components give themselves:
-- the audit and the list of the feed, and the inputs of the dialog.
pub data PageEvent : Type 0 where
  refresh cancel_dialog run_audit toggle_feed : PageEvent
  press : StripButton → PageEvent
  toggle_row press_stop press_resume : String → PageEvent
  submit_reason type_phrase type_reason : String → PageEvent

module _ ⦃P : Platform⦄ where
  -- What the page shows beside the state of the window: the time, the inner width of the browser's
  -- window, and the states of the feed and the dialog.
  pub record View : Type 0 where
    pub now : Num
    pub inner_width : Option Num
    pub feed : FeedState
    pub dialog : DialogState

  abbrev pub dialog_handlers : DialogHandlers PageEvent
  dialog_handlers = record {
    set_phrase = type_phrase;
    set_reason = type_reason;
    on_cancel = cancel_dialog;
    on_confirm = submit_reason;
  }

  abbrev pub row_handlers : RowHandlers PageEvent
  row_handlers = record {
    on_toggle_detail = toggle_row;
    on_stop_app = press_stop;
    on_resume_app = press_resume;
  }

  abbrev pub control_notice : Option String → Node PageEvent
  control_notice error = shown_for error (λ message.
      el "p" (class_name "notice notice--danger" ∷ attr "role" "alert" ∷ []) (text message ∷ []))

  abbrev pub stale_notice : Option SnapshotProblem → Node PageEvent
  stale_notice problem = shown_for problem (λ (p : SnapshotProblem).
      el "p" (class_name "notice notice--warning" ∷ attr "role" "status" ∷ [])
        (text p.message ∷ text " This window is showing the last good sample." ∷ []))

  abbrev pub budget_grid : GovernorSnapshot → View → Node PageEvent
  budget_grid snapshot view =
      el "section" (class_name "budget-grid" ∷ attr "aria-label" "Rate budgets" ∷ [])
        (map (λ budget. budget_card budget view.inner_width) snapshot.budgets)

  abbrev pub columns : GovernorSnapshot → AppState → View → Node PageEvent
  columns snapshot s view = el "div" (class_name "columns" ∷ []) (
      el "section" (class_name "card applications" ∷ attr "aria-label" "Applications" ∷ []) (
        classed "h2" "section-heading" "Applications"
        ∷ app_table snapshot view.now s.pending s.detail_app_id view.inner_width row_handlers
        ∷ [])
      ∷ activity_feed snapshot view.feed view.inner_width run_audit toggle_feed
      ∷ [])

  -- the children of `shell` above the dialog, beside a snapshot and without one
  unfoldable pub shown_sample : GovernorSnapshot → AppState → View → List (Node PageEvent)
  unfolding header safety_strip budget_card app_table activity_feed
  shown_sample snapshot s view =
      header snapshot view.now s.refreshing refresh
      ∷ safety_strip snapshot s.pending press
      ∷ control_notice s.control_error
      ∷ stale_notice s.problem
      ∷ fragment (budget_grid snapshot view ∷ columns snapshot s view ∷ [])
      ∷ []

  unfoldable pub shown_empty : AppState → List (Node PageEvent)
  unfolding problem_panel
  shown_empty s =
      product_heading
      ∷ control_notice s.control_error
      ∷ shown_for s.problem (λ problem. problem_panel problem refresh)
      ∷ []

  abbrev pub dialog_node : AppState → View → Node PageEvent
  dialog_node s view =
      shown_for s.confirm_request
        (λ request. confirm_dialog request s.pending none view.dialog dialog_handlers)

  abbrev pub body_of : Option GovernorSnapshot → AppState → View → List (Node PageEvent)
  body_of none s view = shown_empty s
  body_of (some snapshot) s view = shown_sample snapshot s view

  -- what `App` returns
  unfoldable pub page : AppState → View → Node PageEvent
  unfolding shown_sample shown_empty confirm_dialog
  page s view =
      el "div" (class_name "shell" ∷ []) (body_of s.snapshot s view ++ dialog_node s view ∷ [])

  -- The handler of a button of the strip, beside a snapshot.
  abbrev pub pressed : GovernorSnapshot → StripButton → World → World
  pressed snapshot StripButton.unlock w = record w { app = on_unlock snapshot w.app }
  pressed snapshot StripButton.stop_new_money_orders w =
      submit w (on_stop_new_money_orders snapshot w.app)
  pressed snapshot StripButton.resume_all_access w = submit w (on_resume_all_access snapshot w.app)
  pressed snapshot StripButton.stop_all_access w = record w {
    app = on_stop_all_access snapshot w.app;
  }

  abbrev pub beside : Option GovernorSnapshot → (GovernorSnapshot → World) → World → World
  beside none handler w = w
  beside (some snapshot) handler w = handler snapshot

  -- What the window makes of a click, up to the next `await`. The events of the feed and of the
  -- dialog's inputs leave the window as it is.
  unfoldable pub respond : PageEvent → World → World
  respond refresh w = record w {
    app = begin_load true w.app;
    loads = record { load_id = (begin_load true w.app).latest_load; manual = true } ∷ w.loads;
  }
  respond (press button) w = beside w.app.snapshot (λ snapshot. pressed snapshot button w) w
  respond (toggle_row app_id) w = record w { app = on_toggle_detail app_id w.app }
  respond (press_stop app_id) w =
      beside w.app.snapshot (λ snapshot. record w { app = on_stop_app snapshot app_id w.app }) w
  respond (press_resume app_id) w =
      beside w.app.snapshot (λ snapshot. submit w (on_resume_app snapshot app_id w.app)) w
  respond cancel_dialog w = record w { app = cancel_confirm w.app }
  respond (submit_reason reason) w = submit w (confirm reason w.app)
  respond _ w = w
