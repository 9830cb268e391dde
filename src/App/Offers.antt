-- ===== src/App/Offers.antt =====
-- What the page of ui/src/App.tsx offers to click.
use mathlib.Core.List.{Memᴰ}
use throttle_deck.Base.{
  All, All-append, All-members, All-flat_map, if_cases, is_empty, ◌∙◌, String, ◌≡◌, refl, List, [],
  ◌∷◌, ◌++◌, Option, none, some, map, flat_map, append-nil, if◌then◌else◌, arith, ap, is_null,
}
use throttle_deck.Platform.{Platform, lit}
use throttle_deck.Markup.{clicks, child_clicks, children, shown_for}
use throttle_deck.Contracts.{GovernorSnapshot, SnapshotProblem, Budget, AppRow}
use throttle_deck.Components.{
  clickable, click_confirm, budget_card, problem_panel, confirm_dialog, use_compact,
  activity_with_headroom_alert, ConfirmRequest,
}
use throttle_deck.Components.Clicks.{
  child_clicks-append, silent-map, clicks-header, clicks-safety_strip, clicks-problem_panel,
  clicks-confirm_dialog, given,
}
use throttle_deck.Components.TableClicks.{
  row_clicks, feed_clicks, clicks-budget_card, clicks-app_table, clicks-activity_feed,
}
use throttle_deck.App.State.{AppState}
use throttle_deck.App.Page.{
  PageEvent, View, row_handlers, dialog_handlers, shown_sample, shown_empty, dialog_node, body_of,
  columns, budget_grid, control_notice, stale_notice, page,
}

module _ ⦃P : Platform⦄ where
  -- beside a snapshot, without one, and in the dialog
  abbrev pub sample_offers : GovernorSnapshot → AppState → View → List PageEvent
  sample_offers g s view =
      (if s.refreshing then [] else PageEvent.refresh ∷ [])
      ++ (map PageEvent.press (clickable g s.pending)
          ++ (flat_map (row_clicks s.pending row_handlers) g.apps
              ++ feed_clicks g view.feed view.inner_width PageEvent.run_audit
                  PageEvent.toggle_feed))

  abbrev pub empty_offers : AppState → List PageEvent
  empty_offers s = if is_null s.problem then [] else PageEvent.refresh ∷ []

  abbrev pub dialog_offers : Option ConfirmRequest → AppState → View → List PageEvent
  dialog_offers none s view = []
  dialog_offers (some request) s view =
      PageEvent.cancel_dialog ∷ given dialog_handlers (click_confirm request s.pending view.dialog)

  abbrev pub body_offers : Option GovernorSnapshot → AppState → View → List PageEvent
  body_offers none s view = empty_offers s
  body_offers (some g) s view = sample_offers g s view

  clicks-budget_grid : (g : GovernorSnapshot) (view : View) → clicks (budget_grid g view) ≡ []
  unfolding clicks
  clicks-budget_grid g view =
      rw
        (silent-map (λ (b : Budget). budget_card b view.inner_width) g.budgets
          (λ b. clicks-budget_card b view.inner_width))
        refl

  clicks-columns :
      (g : GovernorSnapshot) (s : AppState) (view : View)
      → clicks (columns g s view)
        ≡ flat_map (row_clicks s.pending row_handlers) g.apps
          ++ feed_clicks g view.feed view.inner_width PageEvent.run_audit PageEvent.toggle_feed
  unfolding clicks
  clicks-columns g s view =
      rw
        (
          clicks-app_table g view.now s.pending s.detail_app_id view.inner_width row_handlers,
          clicks-activity_feed g view.feed view.inner_width PageEvent.run_audit
              PageEvent.toggle_feed,
          append-nil (flat_map (row_clicks s.pending row_handlers) g.apps),
        )
        (ap (λ rest. flat_map (row_clicks s.pending row_handlers) g.apps ++ rest) (append-nil _))

  clicks-shown_problem :
      (problem : Option SnapshotProblem)
      → clicks (shown_for problem (λ p. problem_panel p PageEvent.refresh))
        ≡ (if is_null problem then [] else PageEvent.refresh ∷ [])
  unfolding clicks
  clicks-shown_problem none = refl
  clicks-shown_problem (some problem) = clicks-problem_panel problem PageEvent.refresh

  clicks-control_notice : (error : Option String) → clicks (control_notice error) ≡ []
  unfolding clicks
  clicks-control_notice error = ground arith

  clicks-stale_notice : (problem : Option SnapshotProblem) → clicks (stale_notice problem) ≡ []
  unfolding clicks
  clicks-stale_notice problem = ground arith

  clicks-body_of :
      (snapshot : Option GovernorSnapshot) (s : AppState) (view : View)
      → child_clicks (children (body_of snapshot s view)) ≡ body_offers snapshot s view
  unfolding clicks shown_empty shown_sample
  clicks-body_of none s view =
      rw (clicks-control_notice s.control_error, clicks-shown_problem s.problem) (append-nil _)
  clicks-body_of (some g) s view =
      rw
        (
          clicks-header g view.now s.refreshing PageEvent.refresh,
          clicks-safety_strip g s.pending PageEvent.press,
          clicks-control_notice s.control_error,
          clicks-stale_notice s.problem,
          clicks-budget_grid g view,
          clicks-columns g s view,
        )
        (ap
          (λ rest.
            (if s.refreshing then [] else PageEvent.refresh ∷ [])
            ++ (map PageEvent.press (clickable g s.pending) ++ rest))
          (append-nil _ ∙ append-nil _))

  clicks-dialog_node :
      (request : Option ConfirmRequest) (s : AppState) (view : View)
      → clicks
          (shown_for request (λ r. confirm_dialog r s.pending none view.dialog dialog_handlers))
        ≡ dialog_offers request s view
  unfolding clicks
  clicks-dialog_node none s view = refl
  clicks-dialog_node (some request) s view =
      clicks-confirm_dialog request s.pending none view.dialog dialog_handlers

  -- The clicks that the page offers, in its order. Beside a snapshot: a refresh unless one is on, the
  -- clickable buttons of the strip, for each application its details and, unless an action is pending,
  -- its stop or else its resume where it is stopped, the audit unless one is on, and the list of a
  -- narrow feed that has events. Without a snapshot: a refresh where there is a problem. Then, where a
  -- confirmation is asked for: the cancel, and the confirm with its trimmed reason if it is let through.
  pub clicks-page :
      (s : AppState) (view : View)
      → clicks (page s view)
        ≡ body_offers s.snapshot s view ++ dialog_offers s.confirm_request s view
  unfolding clicks page
  clicks-page s view =
      rw
        (
          child_clicks-append (body_of s.snapshot s view) (dialog_node s view ∷ []),
          clicks-body_of s.snapshot s view,
          clicks-dialog_node s.confirm_request s view,
        )
        (ap (λ rest. body_offers s.snapshot s view ++ rest) (append-nil _))

-- What holds of each click that a part of the page may offer.
module _ ⦃P : Platform⦄ (Q : PageEvent → Type 0) (s : AppState) (view : View) where
  pub record HoldsOfAll : Type 0 where
    pub refresh : Q PageEvent.refresh
    pub press :
        (g : GovernorSnapshot)
        → s.snapshot ≡ some g
        → All Q (map PageEvent.press (clickable g s.pending))
    pub row :
        (g : GovernorSnapshot)
        → s.snapshot ≡ some g
        → (app : AppRow) → Memᴰ app g.apps
        → All Q (row_clicks s.pending row_handlers app)
    pub run_audit : Q PageEvent.run_audit
    pub toggle_feed : Q PageEvent.toggle_feed
    pub cancel_dialog : Q PageEvent.cancel_dialog
    pub submit_reason :
        (request : ConfirmRequest)
        → s.confirm_request ≡ some request
        → All Q (given dialog_handlers (click_confirm request s.pending view.dialog))

  feed-All :
      HoldsOfAll
      → (g : GovernorSnapshot)
      → All Q (feed_clicks g view.feed view.inner_width PageEvent.run_audit PageEvent.toggle_feed)
  feed-All h g =
      All-append Q _ _
        (if_cases (All Q) view.feed.auditing (λ busy. tt) (λ idle. (h.run_audit, tt)))
        (if_cases (All Q) (is_empty (activity_with_headroom_alert g)) (λ empty. tt)
          (λ listed.
            if_cases (All Q) (use_compact view.inner_width (lit 1000))
              (λ narrow. (h.toggle_feed, tt)) (λ wide. tt)))

  body-All :
      HoldsOfAll
      → (snapshot : Option GovernorSnapshot) → s.snapshot ≡ snapshot
      → All Q (body_offers snapshot s view)
  body-All h none shown =
      if_cases (All Q) (is_null s.problem) (λ well. tt) (λ broken. (h.refresh, tt))
  body-All h (some g) shown =
      All-append Q _ _ (if_cases (All Q) s.refreshing (λ busy. tt) (λ idle. (h.refresh, tt))) (
        All-append Q _ _ (h.press g shown) (
          All-append Q _ _ (All-flat_map Q _ g.apps (All-members _ g.apps (h.row g shown)))
            (feed-All h g)))

  dialog-All :
      HoldsOfAll
      → (request : Option ConfirmRequest) → s.confirm_request ≡ request
      → All Q (dialog_offers request s view)
  dialog-All h none asked = tt
  dialog-All h (some request) asked = (h.cancel_dialog, h.submit_reason request asked)

  pub clicks-All : HoldsOfAll → All Q (clicks (page s view))
  clicks-All h =
      rw (clicks-page s view)
        (All-append Q _ _ (body-All h s.snapshot refl) (dialog-All h s.confirm_request refl))
