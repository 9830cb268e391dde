-- ===== src/App/Busy.antt =====
-- What ui/src/App.tsx has in flight: its actions, and the mark of a manual load.
use throttle_deck.Base.{
  ℕ, ◌≤◌, ◌≡◌, ◌≢◌, refl, ◌∙◌, sym, String, Bool, true, false, Option, none, some, List, [], ◌∷◌,
  ◌++◌, arith, any, length, if◌then◌else◌, Bool-cases, inl, inr,
}
use throttle_deck.Platform.{Platform}
use throttle_deck.Contracts.{GovernorSnapshot, SnapshotParse, ok, not_ok}
use throttle_deck.Api.{Codes, Outcome, value, thrown, ControlResult}
use throttle_deck.App.State.{AppState, begin_load, finish_load, finish_run}
use throttle_deck.App.Handlers.{
  Submits, cancel_confirm, confirm, on_stop_new_money_orders, on_unlock, on_stop_all_access,
  on_resume_all_access, on_toggle_detail, on_stop_app, on_resume_app,
}
use throttle_deck.App.Steps.{
  Load, World, submit, Step, start_load, answer_load, answer_run, stop_orders, ask_unlock,
  ask_stop_all, resume_all, ask_stop_app, resume_app, toggle_detail, cancel, confirm_request, Reach,
  here, next,
}
use throttle_deck.App.Entitled.{clickable-idle, row_button-idle, click_confirm-facts}

-- The loads that the mark of the refresh button stands for.
abbrev pub is_manual : Load → Bool
is_manual l = l.manual

any-take_out :
    (before : List Load) (l : Load) (later : List Load)
    → l.manual ≡ false
    → any is_manual (before ++ l ∷ later) ≡ any is_manual (before ++ later)
any-take_out [] l later h = ground arith
any-take_out (x ∷ xs) l later h = ground (arith, any-take_out xs l later h)

length-take_out :
    {A : Type 0} (before : List A) (a : A) (later : List A)
    → length (before ++ a ∷ later) ≤ 1
    → before ++ later ≡ []
length-take_out [] a [] h = refl
length-take_out [] a (b ∷ later) h = absurd (omega arith)
length-take_out (x ∷ []) a later h = absurd (omega arith)
length-take_out (x ∷ y ∷ before) a later h = absurd (omega arith)

module _ ⦃P : Platform⦄ where
  pub finish_load-pending :
      (load_id : ℕ) (manual : Bool) (result : SnapshotParse) (s : AppState)
      → (finish_load load_id manual result s).pending ≡ s.pending
  unfolding finish_load
  finish_load-pending load_id manual (ok g) s = ground arith
  finish_load-pending load_id manual (not_ok p) s = ground arith

  finish_load-refreshing :
      (load_id : ℕ) (manual : Bool) (result : SnapshotParse) (s : AppState)
      → (finish_load load_id manual result s).refreshing ≡ (if manual then false else s.refreshing)
  unfolding finish_load
  finish_load-refreshing load_id manual (ok g) s = ground arith
  finish_load-refreshing load_id manual (not_ok p) s = ground arith

  finish_run-refreshing :
      (result : Outcome ControlResult) (s : AppState)
      → (finish_run result s).refreshing ≡ s.refreshing
  unfolding finish_run
  finish_run-refreshing thrown s = refl
  finish_run-refreshing (value result) s = ground arith

  pub on_stop_app-pending :
      (g : GovernorSnapshot) (app_id : String) (s : AppState)
      → (on_stop_app g app_id s).pending ≡ s.pending
  unfolding on_stop_app
  on_stop_app-pending g app_id s = ground arith

  on_stop_app-refreshing :
      (g : GovernorSnapshot) (app_id : String) (s : AppState)
      → (on_stop_app g app_id s).refreshing ≡ s.refreshing
  unfolding on_stop_app
  on_stop_app-refreshing g app_id s = ground arith

  confirm-refreshing :
      (reason : String) (s : AppState) → (confirm reason s).0.refreshing ≡ s.refreshing
  unfolding confirm
  confirm-refreshing reason s = ground arith

  -- A handler that submits an action leaves the window pending.
  abbrev Pends : Submits → Type 0
  Pends r = r.1 ≢ none → r.0.pending ≡ true

  confirm-Pends : (reason : String) (s : AppState) → Pends (confirm reason s)
  unfolding confirm
  confirm-Pends reason s h = ground arith

  confirm-pending :
      (reason : String) (s : AppState)
      → (confirm reason s).1 ≡ none
      → (confirm reason s).0.pending ≡ s.pending
  unfolding confirm
  confirm-pending reason s h = ground arith

  -- What is in flight agrees with the marks that the window shows.
  pub record IsBusy (w : World) : Type 0 where
    pub single : length w.runs ≤ 1
    pub idle : w.app.pending ≡ false → w.runs ≡ []
    pub refresh : w.app.refreshing ≡ true → any is_manual w.loads ≡ true

  -- A handler, from a state in which no action is pending, that may submit one.
  submit-IsBusy :
      (w : World) (r : Submits)
      → IsBusy w
      → w.app.pending ≡ false
      → Pends r
      → r.0.refreshing ≡ w.app.refreshing
      → IsBusy (submit w r)
  submit-IsBusy w (s, none) h i p e = record {
    single = h.single;
    idle = λ _. h.idle i;
    refresh = λ m. h.refresh (sym e ∙ m);
  }
  submit-IsBusy w (s, some action) h i p e = record {
    single = let none_left : w.runs ≡ [] = h.idle i in ground arith;
    idle = λ q. absurd (ground (arith, p (λ z. cc)));
    refresh = λ m. h.refresh (sym e ∙ m);
  }

  -- A handler that submits nothing and changes neither mark.
  keep-IsBusy :
      (w : World) (s : AppState)
      → IsBusy w
      → s.pending ≡ w.app.pending
      → s.refreshing ≡ w.app.refreshing
      → IsBusy (record w { app = s })
  keep-IsBusy w s h p e = record {
    single = h.single;
    idle = λ i. h.idle (sym p ∙ i);
    refresh = λ m. h.refresh (sym e ∙ m);
  }

  answer_load-refresh :
      (w : World) (before : List Load) (l : Load) (later : List Load) (result : SnapshotParse)
      → w.loads ≡ before ++ l ∷ later
      → (w.app.refreshing ≡ true → any is_manual w.loads ≡ true)
      → (finish_load l.load_id l.manual result w.app).refreshing ≡ true
      → any is_manual (before ++ later) ≡ true
  answer_load-refresh w before l later result e h m =
      let kept = finish_load-refreshing l.load_id l.manual result w.app in
      elim (Bool-cases l.manual) [
        | inl manual ↦ absurd (ground arith)
        | inr timed ↦ sym (any-take_out before l later timed) ∙ rw e at (h (ground arith))
      ]

  module _ (decode : Codes → Option Codes) where
    pub Step-IsBusy : {w v : World} → Step decode w v → IsBusy w → IsBusy v
    unfolding begin_load on_stop_new_money_orders on_unlock on_stop_all_access on_resume_all_access
        on_toggle_detail on_resume_app cancel_confirm
    Step-IsBusy {w} (start_load manual) h = record {
      single = h.single;
      idle = h.idle;
      refresh = λ m. ground (arith, h.refresh);
    }
    Step-IsBusy {w} (answer_load before l later fetcher e) h = record {
      single = h.single;
      idle = λ i. h.idle (sym (finish_load-pending l.load_id l.manual _ w.app) ∙ i);
      refresh = answer_load-refresh w before l later _ e h.refresh;
    }
    Step-IsBusy {w} (answer_run before action later document fetcher e) h =
        let gone : before ++ later ≡ [] = length-take_out before action later (rw e at h.single) in
        record {
          single = rw gone (omega arith);
          idle = λ _. gone;
          refresh = λ m. h.refresh (sym (finish_run-refreshing _ w.app) ∙ m);
        }
    Step-IsBusy {w} (stop_orders s e c) h =
        submit-IsBusy w (on_stop_new_money_orders s w.app) h (clickable-idle s _ _ c) (λ _. refl)
          refl
    Step-IsBusy {w} (ask_unlock s e c) h = keep-IsBusy w _ h refl refl
    Step-IsBusy {w} (ask_stop_all s e c) h = keep-IsBusy w _ h refl refl
    Step-IsBusy {w} (resume_all s e c) h =
        submit-IsBusy w (on_resume_all_access s w.app) h (clickable-idle s _ _ c) (λ _. refl) refl
    Step-IsBusy {w} (ask_stop_app s app e m c) h =
        keep-IsBusy w _ h (on_stop_app-pending s app.app_id w.app)
          (on_stop_app-refreshing s app.app_id w.app)
    Step-IsBusy {w} (resume_app s app e m c) h =
        submit-IsBusy w (on_resume_app s app.app_id w.app) h (row_button-idle app _ _ c) (λ _. refl)
          refl
    Step-IsBusy {w} (toggle_detail app_id) h = keep-IsBusy w _ h refl refl
    Step-IsBusy {w} cancel h = keep-IsBusy w _ h refl refl
    Step-IsBusy {w} (confirm_request request dialog reason e c) h =
        submit-IsBusy w (confirm reason w.app) h (click_confirm-facts request _ dialog reason c).0
          (confirm-Pends reason w.app) (confirm-refreshing reason w.app)

    -- In every world that the window can reach, at most one action awaits its answer, none while the
    -- window is not pending; and the refresh mark stands only while a manual load is in flight.
    pub Reach-IsBusy : {w : World} → Reach decode w → IsBusy w
    Reach-IsBusy here = record { single = omega arith; idle = λ _. refl; refresh = λ m. cc }
    Reach-IsBusy (next r st) = Step-IsBusy st (Reach-IsBusy r)
