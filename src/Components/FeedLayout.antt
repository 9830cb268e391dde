-- ===== src/Components/FeedLayout.antt =====
-- ui/src/components/ActivityFeed.tsx: the state of the feed, and what its compact layout lists.
use throttle_deck.Base.{
  ℕ, zero, suc, ◌+◌, Bool, true, false, not, Option, none, some, List, [], ◌∷◌, ◌||◌, if◌then◌else◌,
  is_null,
}
use throttle_deck.Platform.{Platform}
use throttle_deck.Contracts.{ActivityEvent, GovernorSnapshot}
use throttle_deck.Derive.{
  flags_direct_caller, is_high_priority_event, has_headroom_delta_alert,
  possible_direct_caller_event,
}
use throttle_deck.Api.{Outcome, value, thrown, TrafficAuditResult}
use throttle_deck.Components.ActivityFeed.{activity_with_headroom_alert}

module _ {A : Type 0} where
  -- The position of the first element that passes a test.
  abbrev pub find_index? : (A → Bool) → List A → Option ℕ
  find_index? p [] = none
  find_index? p (x ∷ xs) =
      let later = find_index? p xs in
      if p x then some 0 else elim later [ none ↦ none | some i ↦ some (suc i) ]

  abbrev pub picked_behind : A → Option (A × List A) → Option (A × List A)
  picked_behind x none = none
  picked_behind x (some (y, ys)) = some (y, x ∷ ys)

  -- The element at a position, and the others.
  abbrev pub pick : ℕ → List A → Option (A × List A)
  pick i [] = none
  pick zero (x ∷ xs) = some (x, xs)
  pick (suc i) (x ∷ xs) = picked_behind x (pick i xs)

  -- `value ?? other`, of options
  abbrev pub or_else : Option A → Option A → Option A
  or_else none other = other
  or_else (some a) other = some a

module _ ⦃P : Platform⦄ where
  pub record FeedState : Type 0 where
    pub expanded : Bool
    pub auditing : Bool
    pub audit : Option TrafficAuditResult

  abbrev pub initial_feed : FeedState
  initial_feed = record { expanded = false; auditing = false; audit = none }

  unfoldable pub toggle_expanded : FeedState → FeedState
  toggle_expanded s = record s { expanded = not s.expanded }

  -- the click on the audit's button, and the callback of its promise, which a rejection passes over
  unfoldable pub begin_audit : FeedState → FeedState
  begin_audit s = record s { auditing = true }

  unfoldable pub finish_audit : Outcome TrafficAuditResult → FeedState → FeedState
  finish_audit thrown s = s
  finish_audit (value result) s = record s { audit = some result; auditing = false }

  -- Where the lead of the compact feed stands in its list: an event is told from its equals by its
  -- place, as `event !== lead` tells objects. The derived event, if there is one, stands in front.
  unfoldable pub lead_position : GovernorSnapshot → ℕ
  unfolding has_headroom_delta_alert possible_direct_caller_event is_high_priority_event
  lead_position snapshot =
      let in_front =
        if not (has_headroom_delta_alert snapshot)
          || not (is_null (possible_direct_caller_event snapshot))
        then 0
        else 1 in
      elim (or_else (find_index? flags_direct_caller snapshot.activity)
        (find_index? is_high_priority_event snapshot.activity)) [ some i ↦ in_front + i | none ↦ 0 ]

  -- The lead and the rest of the compact feed, none where there is no event.
  unfoldable pub compact_feed : GovernorSnapshot → Option (ActivityEvent × List ActivityEvent)
  unfolding lead_position activity_with_headroom_alert
  compact_feed snapshot = pick (lead_position snapshot) (activity_with_headroom_alert snapshot)
