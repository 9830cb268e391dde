-- ===== src/App/Unchanged.antt =====
-- What a click on the page of ui/src/App.tsx leaves to the service's answer.
use throttle_deck.Base.{◌≡◌, arith}
use throttle_deck.Platform.{Platform}
use throttle_deck.App.State.{begin_load, begin_run}
use throttle_deck.App.Handlers.{
  run, open_confirm, cancel_confirm, confirm, on_stop_new_money_orders, on_unlock,
  on_stop_all_access, on_resume_all_access, on_toggle_detail, on_stop_app, on_resume_app,
}
use throttle_deck.App.Steps.{World}
use throttle_deck.App.Page.{PageEvent, respond}

module _ ⦃P : Platform⦄ (w : World) where
  -- No click changes what is shown of the service: the snapshot, the problem of the loads and the
  -- count of failures are after it what they were, for every event of the page and in every world.
  pub respond-snapshot :
      (e : PageEvent)
      → ((respond e w).app.snapshot ≡ w.app.snapshot)
        × ((respond e w).app.problem ≡ w.app.problem)
        × ((respond e w).app.automatic_failures ≡ w.app.automatic_failures)
  unfolding respond begin_load begin_run run open_confirm cancel_confirm confirm
      on_stop_new_money_orders on_unlock on_stop_all_access on_resume_all_access on_toggle_detail
      on_stop_app on_resume_app
  respond-snapshot e = ground arith
