-- ===== src/App/Invariant.antt =====
-- What holds of the window in every world that ui/src/App.tsx can reach.
use throttle_deck.Base.{
  All-take_out, All-mono, ℕ, ◌≤◌, ◌≡◌, ◌≢◌, refl, String, Bool, true, Option, none, some, arith,
  All,
}
use throttle_deck.Platform.{Platform}
use throttle_deck.Contracts.{GovernorSnapshot, SnapshotParse, ok, not_ok}
use throttle_deck.Api.{load_snapshot, apply_control, Codes, Outcome, value, thrown, ControlResult}
use throttle_deck.Components.{ConfirmKind, ConfirmRequest}
use throttle_deck.App.State.{AppState, begin_load, finish_load, finish_run}
use throttle_deck.App.Handlers.{
  Submits, cancel_confirm, confirm, on_stop_new_money_orders, on_unlock, on_stop_all_access,
  on_resume_all_access, on_toggle_detail, on_stop_app, on_resume_app,
}
use throttle_deck.App.Ids.{
  confirm-latest_load, on_stop_app-latest_load, finish_load-latest_load, finish_run-latest_load,
}
use throttle_deck.App.Steps.{
  Load, World, submit, Step, start_load, answer_load, answer_run, stop_orders, ask_unlock,
  ask_stop_all, resume_all, ask_stop_app, resume_app, toggle_detail, cancel, confirm_request, Reach,
  here, next,
}

module _ ⦃P : Platform⦄ where
  -- The dialog that is open asks for what its kind needs.
  abbrev pub Asks : Option ConfirmRequest → Type 0
  Asks none = Unit
  Asks (some r) =
      (r.kind ≡ ConfirmKind.unlock → (r.reason_required ≡ true) × (r.phrase ≢ none))
      × (r.kind ≡ ConfirmKind.stop_all → r.phrase ≡ some "STOP ALL")
      × (r.kind ≡ ConfirmKind.app_stop → r.app_id ≢ none)

  pub record IsValidApp (s : AppState) : Type 0 where
    -- the ref that callbacks read is the snapshot that is shown
    pub same : s.snapshot_ref ≡ s.snapshot
    pub counted : s.snapshot ≡ none → s.automatic_failures ≡ 0
    pub reported : 2 ≤ s.automatic_failures → s.problem ≢ none
    pub asks : Asks s.confirm_request

  begin_load-IsValidApp :
      (manual : Bool) (s : AppState) → IsValidApp s → IsValidApp (begin_load manual s)
  unfolding begin_load
  begin_load-IsValidApp manual s v = ground arith

  finish_load-IsValidApp :
      (load_id : ℕ) (manual : Bool) (result : SnapshotParse) (s : AppState)
      → IsValidApp s
      → IsValidApp (finish_load load_id manual result s)
  unfolding finish_load
  finish_load-IsValidApp load_id manual (ok g) s v = ground arith
  finish_load-IsValidApp load_id manual (not_ok p) s v = ground arith

  finish_run-IsValidApp :
      (result : Outcome ControlResult) (s : AppState)
      → IsValidApp s
      → IsValidApp (finish_run result s)
  unfolding finish_run
  finish_run-IsValidApp thrown s v = v
  finish_run-IsValidApp (value result) s v = ground arith

  run-IsValidApp :
      (s : AppState)
      → IsValidApp s
      → (b : Bool) (e : Option String) → IsValidApp (record s { pending = b; control_error = e })
  run-IsValidApp s v b e = ground arith

  on_unlock-IsValidApp :
      (g : GovernorSnapshot) (s : AppState) → IsValidApp s → IsValidApp (on_unlock g s)
  unfolding on_unlock
  on_unlock-IsValidApp g s v = ground arith

  on_stop_all_access-IsValidApp :
      (g : GovernorSnapshot) (s : AppState) → IsValidApp s → IsValidApp (on_stop_all_access g s)
  unfolding on_stop_all_access
  on_stop_all_access-IsValidApp g s v = ground arith

  on_stop_app-IsValidApp :
      (g : GovernorSnapshot) (app_id : String) (s : AppState)
      → IsValidApp s
      → IsValidApp (on_stop_app g app_id s)
  unfolding on_stop_app
  on_stop_app-IsValidApp g app_id s v = ground arith

  confirm-IsValidApp :
      (reason : String) (s : AppState) → IsValidApp s → IsValidApp (confirm reason s).0
  unfolding confirm
  confirm-IsValidApp reason s v = ground arith

  -- A load in flight has an id that was given out.
  abbrev pub IsGivenOut : ℕ → Load → Type 0
  IsGivenOut latest l = l.load_id ≤ latest

  pub record IsValid (w : World) : Type 0 where
    pub app_valid : IsValidApp w.app
    pub given_out : All (IsGivenOut w.app.latest_load) w.loads

  submit-IsValid :
      (w : World) (r : Submits)
      → IsValid w
      → IsValidApp r.0
      → r.0.latest_load ≡ w.app.latest_load
      → IsValid (submit w r)
  submit-IsValid w (s, none) h v e = record { app_valid = v; given_out = rw e h.given_out }
  submit-IsValid w (s, some action) h v e = record { app_valid = v; given_out = rw e h.given_out }

  -- A handler that submits nothing.
  keep-IsValid :
      (w : World) (s : AppState)
      → IsValid w
      → IsValidApp s
      → s.latest_load ≡ w.app.latest_load
      → IsValid (record w { app = s })
  keep-IsValid w s h v e = record { app_valid = v; given_out = rw e h.given_out }

  module _ (decode : Codes → Option Codes) where
    -- Every step keeps the invariant.
    pub Step-IsValid : {w v : World} → Step decode w v → IsValid w → IsValid v
    unfolding begin_load on_stop_new_money_orders on_unlock on_stop_all_access on_resume_all_access
        on_toggle_detail on_resume_app cancel_confirm
    Step-IsValid {w} (start_load manual) h = record {
      app_valid = begin_load-IsValidApp manual w.app h.app_valid;
      given_out = (omega arith, All-mono w.loads (λ l p. omega arith) h.given_out);
    }
    Step-IsValid {w} (answer_load before l later fetcher e) h =
        let s = finish_load-latest_load l.load_id l.manual (load_snapshot fetcher) w.app in
        record {
          app_valid = finish_load-IsValidApp l.load_id l.manual _ w.app h.app_valid;
          given_out = rw s (All-take_out _ before l later (rw e at h.given_out)).0;
        }
    Step-IsValid {w} (answer_run before action later document fetcher e) h = record {
      app_valid = finish_run-IsValidApp _ w.app h.app_valid;
      given_out =
          rw (finish_run-latest_load (apply_control decode document action fetcher) w.app)
            h.given_out;
    }
    Step-IsValid {w} (stop_orders s e c) h =
        submit-IsValid w (on_stop_new_money_orders s w.app) h
          (run-IsValidApp w.app h.app_valid true none) refl
    Step-IsValid {w} (ask_unlock s e c) h =
        keep-IsValid w _ h (on_unlock-IsValidApp s w.app h.app_valid) refl
    Step-IsValid {w} (ask_stop_all s e c) h =
        keep-IsValid w _ h (on_stop_all_access-IsValidApp s w.app h.app_valid) refl
    Step-IsValid {w} (resume_all s e c) h =
        submit-IsValid w (on_resume_all_access s w.app) h
          (run-IsValidApp w.app h.app_valid true none) refl
    Step-IsValid {w} (ask_stop_app s app e m c) h =
        keep-IsValid w _ h (on_stop_app-IsValidApp s app.app_id w.app h.app_valid)
          (on_stop_app-latest_load s app.app_id w.app)
    Step-IsValid {w} (resume_app s app e m c) h =
        submit-IsValid w (on_resume_app s app.app_id w.app) h
          (run-IsValidApp w.app h.app_valid true none) refl
    Step-IsValid {w} (toggle_detail app_id) h = keep-IsValid w _ h (ground arith) refl
    Step-IsValid {w} cancel h = keep-IsValid w _ h (ground arith) refl
    Step-IsValid {w} (confirm_request request dialog reason e c) h =
        submit-IsValid w (confirm reason w.app) h (confirm-IsValidApp reason w.app h.app_valid)
          (confirm-latest_load reason w.app)

    -- In every world that the window can reach: the snapshot that the callbacks read is the one
    -- shown; no failure is counted before there is one; two counted failures are reported; an open
    -- dialog asks for its phrase, and for a reason before an unlock; and every load in flight has
    -- an id that was given out.
    pub Reach-IsValid : {w : World} → Reach decode w → IsValid w
    Reach-IsValid here = record { app_valid = ground arith; given_out = tt }
    Reach-IsValid (next r st) = Step-IsValid st (Reach-IsValid r)
