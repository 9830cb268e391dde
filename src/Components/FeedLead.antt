-- ===== src/Components/FeedLead.antt =====
-- The lead of the compact feed of ui/src/components/ActivityFeed.tsx, and what it leaves.
use throttle_deck.Base.{
  ℕ, suc, ◌≡◌, refl, ◌⊎◌, inl, inr, Bool, true, false, List, [], ◌∷◌, ◌++◌, Option, none, some,
  List-cases, length, not, ◌||◌, is_null, arith,
}
use throttle_deck.Platform.{Platform}
use throttle_deck.Contracts.{GovernorSnapshot, ActivityEvent}
use throttle_deck.Derive.{
  flags_direct_caller, is_high_priority_event, has_headroom_delta_alert,
  possible_direct_caller_event, latest_high_priority_event,
}
use throttle_deck.Components.ActivityFeed.{
  derived_event, activity_with_headroom_alert, compact_lead,
}
use throttle_deck.Components.FeedLayout.{find_index?, or_else, lead_position, compact_feed}
use throttle_deck.Components.FirstAt.{find-cases, SplitsAt, split_behind, splits, splits_cons}

module _ ⦃P : Platform⦄ where
  chosen_index : GovernorSnapshot → Option ℕ
  chosen_index g =
      or_else (find_index? flags_direct_caller g.activity)
        (find_index? is_high_priority_event g.activity)

  -- The latest event of high priority, with its place in the service's activity.
  record Chosen (g : GovernorSnapshot) : Type 0 where
    lead : ActivityEvent
    index : ℕ
    is_latest : latest_high_priority_event g ≡ some lead
    is_index : chosen_index g ≡ some index
    stands : SplitsAt g.activity index lead

  Chosen-cases :
      (g : GovernorSnapshot)
      → ((latest_high_priority_event g ≡ none) × (chosen_index g ≡ none)) ⊎ Chosen g
  unfolding chosen_index latest_high_priority_event possible_direct_caller_event
  Chosen-cases g = elim (find-cases flags_direct_caller g.activity) [
    | inl (f, i) ↦ elim (find-cases is_high_priority_event g.activity) [
      | inl (f', i') ↦ inl (ground arith, ground arith)
      | inr s ↦ inr (record {
        lead = s.found;
        index = length s.before;
        is_latest = ground (arith, s.is_found);
        is_index = ground (arith, s.is_index);
        stands = splits s;
      })
    ]
    | inr s ↦ inr (record {
      lead = s.found;
      index = length s.before;
      is_latest = ground (arith, s.is_found);
      is_index = ground (arith, s.is_index);
      stands = splits s;
    })
  ]

  Leads : GovernorSnapshot → ActivityEvent → Type 0
  Leads g lead =
      (compact_lead g ≡ some lead)
      × SplitsAt (activity_with_headroom_alert g) (lead_position g) lead

  alerted : GovernorSnapshot → Bool
  alerted g = not (has_headroom_delta_alert g) || not (is_null (possible_direct_caller_event g))

  -- Nothing or the derived event stands in front of the service's activity.
  front-cases :
      (g : GovernorSnapshot)
      → ((alerted g ≡ true) × (activity_with_headroom_alert g ≡ g.activity))
        ⊎ ((alerted g ≡ false) × (activity_with_headroom_alert g ≡ derived_event g ∷ g.activity))
  unfolding activity_with_headroom_alert alerted
  front-cases g = ground arith

  leads :
      (g : GovernorSnapshot) (xs : List ActivityEvent) (i : ℕ) (lead : ActivityEvent)
      → activity_with_headroom_alert g ≡ xs
      → lead_position g ≡ i
      → compact_lead g ≡ some lead
      → SplitsAt xs i lead
      → Leads g lead
  unfolding Leads
  leads g xs i lead listed placed led s = (led, rw (listed, placed) s)

  lead_of_first :
      (g : GovernorSnapshot) (x : ActivityEvent) (xs : List ActivityEvent)
      → activity_with_headroom_alert g ≡ x ∷ xs
      → latest_high_priority_event g ≡ none
      → chosen_index g ≡ none
      → Leads g x
  unfolding compact_lead lead_position chosen_index
  lead_of_first g x xs e none_high no_index =
      leads g (x ∷ xs) 0 x e (ground (arith, no_index)) (ground (arith, e))
        (record { before = []; later = xs; is_split = refl; is_picked = refl })

  lead_of_Chosen : (g : GovernorSnapshot) (c : Chosen g) → Leads g c.lead
  unfolding compact_lead lead_position chosen_index alerted
  lead_of_Chosen g c = elim (front-cases g) [
    | inl (front, e) ↦
        leads g g.activity c.index c.lead e (ground (arith, c.is_index))
          (let (y, ys, starts_with) = splits_cons c.stands in
            ground (arith, e, c.is_latest, starts_with))
          c.stands
    | inr (front, e) ↦
        leads g (derived_event g ∷ g.activity) (suc c.index) c.lead e (ground (arith, c.is_index))
          (ground (arith, e, c.is_latest)) (split_behind (derived_event g) c.stands)
  ]

  Feed-cases : GovernorSnapshot → Type 0
  Feed-cases g =
      ((activity_with_headroom_alert g ≡ []) × (compact_lead g ≡ none))
      ⊎ ((lead : ActivityEvent) × Leads g lead)

  lead-cases : (g : GovernorSnapshot) → Feed-cases g
  unfolding Feed-cases compact_lead
  lead-cases g = elim (Chosen-cases g) [
    | inl (none_high, no_index) ↦ elim (List-cases (activity_with_headroom_alert g)) [
      | inl e ↦ inl (e, ground (arith, e))
      | inr (x, xs, e) ↦ inr (x, lead_of_first g x xs e none_high no_index)
    ]
    | inr c ↦ inr (c.lead, lead_of_Chosen g c)
  ]

  -- The compact feed hides no event and shows none twice. It has no lead exactly where the feed has
  -- no event. Else its lead is the one that `latestHighPriorityEvent(snapshot) ?? events[0]` names,
  -- and the rest are the events of the feed in their order, with that one occurrence taken out.
  pub compact_feed-splits :
      (g : GovernorSnapshot)
      → ((activity_with_headroom_alert g ≡ []) × (compact_feed g ≡ none) × (compact_lead g ≡ none))
        ⊎ ((lead : ActivityEvent) × (before : List ActivityEvent) × (later : List ActivityEvent)
            × (activity_with_headroom_alert g ≡ before ++ lead ∷ later)
            × (compact_feed g ≡ some (lead, before ++ later))
            × (compact_lead g ≡ some lead))
  unfolding Feed-cases Leads compact_feed
  compact_feed-splits g = elim (lead-cases g) [
    | inl (e, led) ↦ inl (e, ground (arith, e), led)
    | inr (lead, (led, s)) ↦ inr (lead, s.before, s.later, s.is_split, s.is_picked, led)
  ]
