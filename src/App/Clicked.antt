-- ===== src/App/Clicked.antt =====
-- What the clicks on the page of ui/src/App.tsx make of the window, against its steps.
use throttle_deck.Base.{
  ◌⊎◌, inl, inr, ◌≡◌, String, if_cases, refl, sym, subst, Option, none, some, true, false, All,
  All-members, All-map, arith, map,
}
use mathlib.Core.List.{Memᴰ}
use throttle_deck.Platform.{Platform}
use throttle_deck.Markup.{clicks}
use throttle_deck.Contracts.{GovernorSnapshot, AppRow}
use throttle_deck.Api.{Codes}
use throttle_deck.Components.{
  StripButton, row_button, clickable, click_confirm, can_confirm, DialogState, ConfirmRequest,
}
use throttle_deck.Components.Clicks.{given}
use throttle_deck.Components.TableClicks.{row_clicks}
use throttle_deck.Derive.{is_stopped}
use throttle_deck.App.Steps.{World, Step, is_click}
use throttle_deck.App.Page.{PageEvent, View, page, respond, beside, row_handlers, dialog_handlers}
use throttle_deck.App.Offers.{clicks-All}

module _ ⦃P : Platform⦄ (decode : Codes → Option Codes) (w : World) where
  -- The click makes one step of the window, and one of the operator's, or leaves it as it is.
  MakesStep : World → Type 0
  MakesStep v = ((step : Step decode w v) × (is_click decode step ≡ true)) ⊎ (v ≡ w)

  IsStep : PageEvent → Type 0
  IsStep e = MakesStep (respond e w)

  by-Step : {v : World} (step : Step decode w v) → is_click decode step ≡ true → MakesStep v
  unfolding MakesStep
  by-Step step clicked = inl (step, clicked)

  shown-Step :
      (g : GovernorSnapshot)
      → w.app.snapshot ≡ some g
      → (handler : GovernorSnapshot → World) (step : Step decode w (handler g))
      → is_click decode step ≡ true
      → MakesStep (beside w.app.snapshot handler w)
  shown-Step g shown handler step clicked =
      subst (λ o. MakesStep (beside o handler w)) (sym shown) (by-Step step clicked)

  refresh-IsStep : IsStep PageEvent.refresh
  unfolding IsStep respond
  refresh-IsStep = by-Step (Step.start_load true) refl

  press-IsStep :
      (g : GovernorSnapshot)
      → w.app.snapshot ≡ some g
      → (button : StripButton) → Memᴰ button (clickable g w.app.pending)
      → IsStep (PageEvent.press button)
  unfolding IsStep respond
  press-IsStep g shown StripButton.unlock m = shown-Step g shown _ (Step.ask_unlock g shown m) refl
  press-IsStep g shown StripButton.stop_new_money_orders m =
      shown-Step g shown _ (Step.stop_orders g shown m) refl
  press-IsStep g shown StripButton.resume_all_access m =
      shown-Step g shown _ (Step.resume_all g shown m) refl
  press-IsStep g shown StripButton.stop_all_access m =
      shown-Step g shown _ (Step.ask_stop_all g shown m) refl

  resume-IsStep :
      (g : GovernorSnapshot)
      → w.app.snapshot ≡ some g
      → (app : AppRow) → Memᴰ app g.apps
      → w.app.pending ≡ false
      → is_stopped app.access ≡ true
      → IsStep (PageEvent.press_resume app.app_id)
  unfolding IsStep respond row_button
  resume-IsStep g shown app m idle stopped =
      shown-Step g shown _ (Step.resume_app g app shown m (rw (idle, stopped) refl)) refl

  stop-IsStep :
      (g : GovernorSnapshot)
      → w.app.snapshot ≡ some g
      → (app : AppRow) → Memᴰ app g.apps
      → w.app.pending ≡ false
      → is_stopped app.access ≡ false
      → IsStep (PageEvent.press_stop app.app_id)
  unfolding IsStep respond row_button
  stop-IsStep g shown app m idle allowed =
      shown-Step g shown _ (Step.ask_stop_app g app shown m (rw (idle, allowed) refl)) refl

  row_steps :
      (g : GovernorSnapshot)
      → w.app.snapshot ≡ some g
      → (app : AppRow) → Memᴰ app g.apps
      → All IsStep (row_clicks w.app.pending row_handlers app)
  unfolding IsStep respond
  row_steps g shown app m = (
    by-Step (Step.toggle_detail app.app_id) refl,
    if_cases (All IsStep) w.app.pending (λ busy. tt)
        (λ idle. (
          if_cases IsStep (is_stopped app.access) (resume-IsStep g shown app m idle)
              (stop-IsStep g shown app m idle),
          tt,
        )),
  )

  given_steps :
      (request : ConfirmRequest) (view : View) (reason : Option String)
      → w.app.confirm_request ≡ some request
      → click_confirm request w.app.pending view.dialog ≡ reason
      → All IsStep (given dialog_handlers reason)
  unfolding IsStep respond
  given_steps request view none asked refused = tt
  given_steps request view (some reason) asked confirmed =
      (by-Step (Step.confirm_request request view.dialog reason asked confirmed) refl, tt)

  -- Whatever the page offers to click, in any state of the window and for any time, width, feed and
  -- dialog, makes exactly one step of the window's model, which is one of the operator's and no
  -- answer, or leaves the window as it is.
  pub respond-Step :
      (view : View)
      → All
          (λ e.
            ((step : Step decode w (respond e w)) × (is_click decode step ≡ true))
            ⊎ (respond e w ≡ w))
          (clicks (page w.app view))
  unfolding IsStep MakesStep respond
  respond-Step view = clicks-All IsStep w.app view (record {
    refresh = refresh-IsStep;
    press = λ g shown.
        All-map IsStep PageEvent.press _
          (All-members _ (clickable g w.app.pending) (press-IsStep g shown));
    row = row_steps;
    run_audit = inr refl;
    toggle_feed = inr refl;
    cancel_dialog = by-Step Step.cancel refl;
    submit_reason = λ request asked. given_steps request view _ asked refl;
  })

module _ ⦃P : Platform⦄ (w : World) where
  -- The click submits no action.
  SubmitsNothing : PageEvent → Type 0
  SubmitsNothing e = (respond e w).submitted ≡ w.submitted

  quiet_strip :
      (g : GovernorSnapshot)
      → w.app.pending ≡ true
      → All SubmitsNothing (map PageEvent.press (clickable g w.app.pending))
  unfolding clickable
  quiet_strip g busy =
      subst (λ pending. All SubmitsNothing (map PageEvent.press (clickable g pending))) (sym busy)
        tt

  quiet_row :
      (app : AppRow)
      → w.app.pending ≡ true
      → All SubmitsNothing (row_clicks w.app.pending row_handlers app)
  unfolding SubmitsNothing respond
  quiet_row app busy =
      subst (λ pending. All SubmitsNothing (row_clicks pending row_handlers app)) (sym busy)
        (refl, tt)

  click_confirm-pending :
      (request : ConfirmRequest) (dialog : DialogState)
      → w.app.pending ≡ true
      → click_confirm request w.app.pending dialog ≡ none
  unfolding click_confirm can_confirm
  click_confirm-pending request dialog busy = ground (arith, busy)

  -- While an action awaits its answer, no click that the page offers submits another.
  pub pending-submits_nothing :
      (view : View)
      → w.app.pending ≡ true
      → All (λ e. (respond e w).submitted ≡ w.submitted) (clicks (page w.app view))
  unfolding SubmitsNothing respond
  pending-submits_nothing view busy = clicks-All SubmitsNothing w.app view (record {
    refresh = refl;
    press = λ g shown. quiet_strip g busy;
    row = λ g shown app m. quiet_row app busy;
    run_audit = refl;
    toggle_feed = refl;
    cancel_dialog = refl;
    submit_reason = λ request asked.
        subst (λ reason. All SubmitsNothing (given dialog_handlers reason))
          (sym (click_confirm-pending request view.dialog busy)) tt;
  })
