-- ===== src/App/Ids.antt =====
-- The ids that ui/src/App.tsx gives its loads never decrease.
use throttle_deck.Base.{ℕ, Bool, ◌≡◌, ◌≤◌, refl, String, Option, none, some, arith}
use throttle_deck.Platform.{Platform}
use throttle_deck.Contracts.{GovernorSnapshot, SnapshotParse, ok, not_ok}
use throttle_deck.Api.{Codes, Outcome, value, thrown, ControlResult, load_snapshot, apply_control}
use throttle_deck.App.State.{AppState, begin_load, finish_load, finish_run}
use throttle_deck.App.Handlers.{
  Submits, cancel_confirm, confirm, on_stop_new_money_orders, on_unlock, on_stop_all_access,
  on_resume_all_access, on_toggle_detail, on_stop_app, on_resume_app,
}
use throttle_deck.App.Steps.{
  Later, same, then_step, World, submit, Step, start_load, answer_load, answer_run, stop_orders,
  ask_unlock, ask_stop_all, resume_all, ask_stop_app, resume_app, toggle_detail, cancel,
  confirm_request,
}

module _ ⦃P : Platform⦄ where
  pub finish_load-latest_load :
      (load_id : ℕ) (manual : Bool) (result : SnapshotParse) (s : AppState)
      → (finish_load load_id manual result s).latest_load ≡ s.latest_load
  unfolding finish_load
  finish_load-latest_load load_id manual (ok g) s = ground arith
  finish_load-latest_load load_id manual (not_ok p) s = ground arith

  pub finish_run-latest_load :
      (result : Outcome ControlResult) (s : AppState)
      → (finish_run result s).latest_load ≡ s.latest_load
  unfolding finish_run
  finish_run-latest_load thrown s = refl
  finish_run-latest_load (value r) s = ground arith

  submit-latest_load : (w : World) (r : Submits) → (submit w r).app.latest_load ≡ r.0.latest_load
  submit-latest_load w (s, none) = refl
  submit-latest_load w (s, some a) = refl

  pub confirm-latest_load :
      (reason : String) (s : AppState) → (confirm reason s).0.latest_load ≡ s.latest_load
  unfolding confirm
  confirm-latest_load reason s = ground arith

  pub on_stop_app-latest_load :
      (g : GovernorSnapshot) (app_id : String) (s : AppState)
      → (on_stop_app g app_id s).latest_load ≡ s.latest_load
  unfolding on_stop_app
  on_stop_app-latest_load g app_id s = ground arith

  -- No step takes back an id that a load was given.
  module _ (decode : Codes → Option Codes) where
    Step-latest_load : {w v : World} → Step decode w v → w.app.latest_load ≤ v.app.latest_load
    unfolding begin_load on_stop_new_money_orders on_unlock on_stop_all_access on_resume_all_access
        on_toggle_detail on_resume_app cancel_confirm
    Step-latest_load (start_load manual) = omega arith
    Step-latest_load {w} (answer_load before l later fetcher e) =
        rw (finish_load-latest_load l.load_id l.manual (load_snapshot fetcher) w.app) (omega arith)
    Step-latest_load {w} (answer_run before action later document fetcher e) =
        rw (finish_run-latest_load (apply_control decode document action fetcher) w.app)
          (omega arith)
    Step-latest_load (stop_orders g e c) = omega arith
    Step-latest_load (ask_unlock g e c) = omega arith
    Step-latest_load (ask_stop_all g e c) = omega arith
    Step-latest_load (resume_all g e c) = omega arith
    Step-latest_load {w} (ask_stop_app g app e m c) =
        rw (on_stop_app-latest_load g app.app_id w.app) (omega arith)
    Step-latest_load (resume_app g app e m c) = omega arith
    Step-latest_load (toggle_detail app_id) = omega arith
    Step-latest_load cancel = omega arith
    Step-latest_load {w} (confirm_request request dialog reason e c) =
        rw (submit-latest_load w (confirm reason w.app), confirm-latest_load reason w.app)
          (omega arith)

    pub Later-latest_load : {w v : World} → Later decode w v → w.app.latest_load ≤ v.app.latest_load
    Later-latest_load same = omega arith
    Later-latest_load {w} {v} (then_step {u} l st) =
        let reached = Later-latest_load l in let kept = Step-latest_load st in omega arith
