-- ===== src/Tests/Page.antt =====
-- The page of a window, and how a window comes to rest.
use throttle_deck.Base.{
  map, true, ◌≡◌, ◌⊎◌, ◌++◌, refl, none, some, [], ◌∷◌, List, All, arith, false,
}
use throttle_deck.Markup.{clicks, classed, shown_if, el, class_name}
use throttle_deck.Contracts.{Budget, BudgetHealth, ActivityEvent}
use throttle_deck.Api.{value, read_csrf_token}
use throttle_deck.Components.{
  use_compact, activity_feed, feed_frame, lead_block, rest_item, initial_feed,
  activity_with_headroom_alert, compact_lead, budget_card,
}
use throttle_deck.Components.Cards.{without_figures, budget_card-unreadable}
use throttle_deck.Components.FeedShown.{activity_feed-compact}
use throttle_deck.Platform.{lit}
use throttle_deck.App.{Step, is_click, View, PageEvent, page, respond, Later}
use throttle_deck.Derive.{is_budget_readable}
use throttle_deck.App.Races.{IsStuck}
use throttle_deck.App.Busy.{IsBusy, Reach-IsBusy}
use throttle_deck.App.Unchanged.{respond-snapshot}
use throttle_deck.App.Settle.{settled, settled_lem}
use throttle_deck.App.Offers.{body_offers, dialog_offers, clicks-page}
use throttle_deck.App.Clicked.{respond-Step, pending-submits_nothing}
use throttle_deck.Tests.Numbers.{whole}
use throttle_deck.Tests.Window.{decode, service, typed, loaded, unlocked}
use throttle_deck.Tests.Views.{suspected, roomy}

abbrev narrow : View
narrow = record { now = 3000; inner_width = some 800; feed = initial_feed; dialog = typed }

clicks-page_example :
    clicks (page loaded.0.app narrow)
    ≡ body_offers loaded.0.app.snapshot loaded.0.app narrow
      ++ dialog_offers loaded.0.app.confirm_request loaded.0.app narrow
clicks-page_example = clicks-page loaded.0.app narrow

respond-Step_example :
    All
      (λ e.
        ((step : Step decode loaded.0 (respond e loaded.0)) × (is_click decode step ≡ true))
        ⊎ (respond e loaded.0 ≡ loaded.0))
      (clicks (page loaded.0.app narrow))
respond-Step_example = respond-Step decode loaded.0 narrow

pending-submits_nothing_example :
    All
      (λ e. (respond e unlocked.0).submitted ≡ unlocked.0.submitted)
      (clicks (page unlocked.0.app narrow))
pending-submits_nothing_example = pending-submits_nothing unlocked.0 narrow unlocked.3

narrow-compact : use_compact (some 800) (lit 1000) ≡ true
unfolding use_compact
narrow-compact = refl

activity_feed-compact_example :
    ((activity_with_headroom_alert suspected ≡ [])
      × (activity_feed suspected initial_feed (some 800) PageEvent.run_audit PageEvent.toggle_feed
          ≡ feed_frame initial_feed PageEvent.run_audit
              (classed "p" "detail__note" "No recorded activity yet." ∷ [])))
    ⊎ ((lead : ActivityEvent) × (before : List ActivityEvent) × (later : List ActivityEvent)
        × (activity_with_headroom_alert suspected ≡ before ++ lead ∷ later)
        × (compact_lead suspected ≡ some lead)
        × (activity_feed suspected initial_feed (some 800) PageEvent.run_audit PageEvent.toggle_feed
            ≡ feed_frame initial_feed PageEvent.run_audit (
                lead_block initial_feed PageEvent.toggle_feed lead
                ∷ shown_if false
                    (el "ul" (class_name "activity__list" ∷ []) (map rest_item (before ++ later)))
                ∷ [])))
activity_feed-compact_example =
    activity_feed-compact suspected initial_feed (some 800) PageEvent.run_audit
      PageEvent.toggle_feed narrow-compact

abbrev unread : Budget
unread = record roomy { health = BudgetHealth.unavailable }

unread-hidden : is_budget_readable unread ≡ false
unfolding is_budget_readable
unread-hidden = refl

budget_card-unreadable_example :
    budget_card {E = PageEvent} unread (some 800) ≡ budget_card (without_figures unread) (some 800)
budget_card-unreadable_example = budget_card-unreadable unread (some 800) unread-hidden

Reach-IsBusy_example : IsBusy unlocked.0
Reach-IsBusy_example = Reach-IsBusy decode unlocked.1

no_page-token : read_csrf_token decode none ≡ value none
unfolding read_csrf_token
no_page-token = refl

unlocked-free : IsStuck unlocked.0 → ⊥
unlocked-free h = absurd (ground (arith, h.unanswered, unlocked.4))

settled_lem_example :
    let v = settled decode none service unlocked.0 in
    Later decode unlocked.0 v
    × (v.loads ≡ [])
    × (v.runs ≡ [])
    × (v.app.pending ≡ false)
    × (v.app.refreshing ≡ false)
    × (v.submitted ≡ unlocked.0.submitted)
settled_lem_example =
    settled_lem decode unlocked.0 none none service unlocked.1 no_page-token unlocked-free

respond-snapshot_example :
    ((respond (PageEvent.press_stop "bot") loaded.0).app.snapshot ≡ loaded.0.app.snapshot)
    × ((respond (PageEvent.press_stop "bot") loaded.0).app.problem ≡ loaded.0.app.problem)
    × ((respond (PageEvent.press_stop "bot") loaded.0).app.automatic_failures
        ≡ loaded.0.app.automatic_failures)
respond-snapshot_example = respond-snapshot loaded.0 (PageEvent.press_stop "bot")
