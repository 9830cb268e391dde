-- ===== src/Components/Feed.antt =====
-- The events that ui/src/components/ActivityFeed.tsx lists, against those that it has.
use throttle_deck.Base.{◌≡◌, refl, ◌⊎◌, true, ◌∷◌, arith, any}
use throttle_deck.Platform.{Platform}
use throttle_deck.Contracts.{GovernorSnapshot}
use throttle_deck.Derive.{
  flags_direct_caller, is_high_priority_event, possible_direct_caller_event, direct_caller_alert,
  has_headroom_delta_alert,
}
use throttle_deck.Derive.Alerts.{is_null-find?}
use throttle_deck.Components.ActivityFeed.{derived_event, activity_with_headroom_alert}

module _ ⦃P : Platform⦄ where
  derived_event-flags : (g : GovernorSnapshot) → flags_direct_caller (derived_event g) ≡ true
  unfolding is_high_priority_event
  derived_event-flags g = refl

  -- A direct caller is suspected exactly if the feed lists an event that says so. The feed is the
  -- service's own activity, in its order, with nothing or one derived event in front of it.
  pub direct_caller_alert-any :
      (g : GovernorSnapshot)
      → (direct_caller_alert g ≡ any flags_direct_caller (activity_with_headroom_alert g))
        × ((activity_with_headroom_alert g ≡ g.activity)
            ⊎ (activity_with_headroom_alert g ≡ derived_event g ∷ g.activity))
  unfolding direct_caller_alert activity_with_headroom_alert possible_direct_caller_event
  direct_caller_alert-any g = (
    ground (arith, is_null-find? flags_direct_caller g.activity, derived_event-flags g),
    ground arith,
  )

  -- Listing the alert a second time adds nothing: a snapshot whose activity is the listed one is
  -- listed as it is.
  pub activity_with_headroom_alert_idem :
      (g : GovernorSnapshot)
      → activity_with_headroom_alert (record g { activity = activity_with_headroom_alert g })
        ≡ activity_with_headroom_alert g
  unfolding activity_with_headroom_alert possible_direct_caller_event has_headroom_delta_alert
  activity_with_headroom_alert_idem g =
      ground (arith, is_null-find? flags_direct_caller g.activity, derived_event-flags g)
