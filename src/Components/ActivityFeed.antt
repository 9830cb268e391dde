-- ===== src/Components/ActivityFeed.antt =====
-- ui/src/components/ActivityFeed.tsx: the events that the feed lists, and its lead.
use throttle_deck.Base.{
  String, Option, none, some, not, List, [], ◌∷◌, ◌||◌, map, if◌then◌else◌, or_default, is_null,
}
use throttle_deck.Platform.{Platform}
use throttle_deck.Contracts.{Severity, Budget, ActivityEvent, GovernorSnapshot}
use throttle_deck.Derive.{
  has_headroom_delta_alert, possible_direct_caller_event, latest_high_priority_event,
  direct_caller_detail,
}

-- `values.find((value) => value !== null)`
abbrev pub first_known : List (Option String) → Option String
first_known [] = none
first_known (none ∷ rest) = first_known rest
first_known (some v ∷ rest) = some v

module _ ⦃P : Platform⦄ where
  abbrev pub derived_event : GovernorSnapshot → ActivityEvent
  derived_event snapshot = record {
    at =
        or_default (first_known (map (λ (budget : Budget). budget.sampled_at) snapshot.budgets))
          snapshot.generated_at;
    kind = "possible-direct-caller";
    severity = Severity.warning;
    detail = some direct_caller_detail;
    app_id = none;
  }

  unfoldable pub activity_with_headroom_alert : GovernorSnapshot → List ActivityEvent
  unfolding has_headroom_delta_alert possible_direct_caller_event
  activity_with_headroom_alert snapshot =
      if not (has_headroom_delta_alert snapshot)
        || not (is_null (possible_direct_caller_event snapshot))
      then snapshot.activity
      else derived_event snapshot ∷ snapshot.activity

  abbrev lead_of : Option ActivityEvent → List ActivityEvent → Option ActivityEvent
  lead_of latest [] = none
  lead_of none (event ∷ rest) = some event
  lead_of (some event) (_ ∷ _) = some event

  -- The lead of the compact feed; none where the feed says that there is no activity.
  unfoldable pub compact_lead : GovernorSnapshot → Option ActivityEvent
  unfolding latest_high_priority_event activity_with_headroom_alert
  compact_lead snapshot =
      lead_of (latest_high_priority_event snapshot) (activity_with_headroom_alert snapshot)
