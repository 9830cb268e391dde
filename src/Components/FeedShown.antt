-- ===== src/Components/FeedShown.antt =====
-- What the compact layout of ui/src/components/ActivityFeed.tsx renders.
use throttle_deck.Base.{◌≡◌, refl, ◌⊎◌, inl, inr, true, List, [], ◌∷◌, ◌++◌, Option, some, map}
use throttle_deck.Platform.{Platform, Num, lit}
use throttle_deck.Markup.{el, class_name, classed, shown_if}
use throttle_deck.Contracts.{GovernorSnapshot, ActivityEvent}
use throttle_deck.Components.BudgetCard.{use_compact}
use throttle_deck.Components.ActivityFeed.{activity_with_headroom_alert, compact_lead}
use throttle_deck.Components.FeedLayout.{FeedState}
use throttle_deck.Components.FeedPage.{activity_feed, feed_frame, lead_block, rest_item}
use throttle_deck.Components.FeedLead.{compact_feed-splits}
use throttle_deck.Components.FirstAt.{starts}

module _ ⦃P : Platform⦄ {E : Type 0} where
  -- In a narrow window, the feed renders a note where it has no event. Else it renders its lead, which
  -- is the event that `latestHighPriorityEvent(snapshot) ?? events[0]` names, and, once the list is
  -- expanded, every other event of the feed once and in its order: with the lead, which stood between
  -- them, they make up the feed. While the list is not expanded, only the lead is rendered.
  pub activity_feed-compact :
      (g : GovernorSnapshot) (state : FeedState) (inner_width : Option Num) (audit toggle : E)
      → use_compact inner_width (lit 1000) ≡ true
      → ((activity_with_headroom_alert g ≡ [])
          × (activity_feed g state inner_width audit toggle
              ≡ feed_frame state audit
                  (classed "p" "detail__note" "No recorded activity yet." ∷ [])))
        ⊎ ((lead : ActivityEvent) × (before : List ActivityEvent) × (later : List ActivityEvent)
            × (activity_with_headroom_alert g ≡ before ++ lead ∷ later)
            × (compact_lead g ≡ some lead)
            × (activity_feed g state inner_width audit toggle
                ≡ feed_frame state audit (
                    lead_block state toggle lead
                    ∷ shown_if state.expanded (
                        el "ul"
                          (class_name "activity__list" ∷ [])
                          (map rest_item (before ++ later)))
                    ∷ [])))
  unfolding activity_feed
  activity_feed-compact g state inner_width audit toggle narrow = elim (compact_feed-splits g) [
    | inl (e, unled, _) ↦ inl (e, rw e refl)
    | inr (lead, before, later, e, led, named) ↦
        let (y, ys, starts_with) = starts before lead later in
        inr (lead, before, later, e, named, rw (e, starts_with, narrow, led) refl)
  ]
