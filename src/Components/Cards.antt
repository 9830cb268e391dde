-- ===== src/Components/Cards.antt =====
-- What ui/src/components/BudgetCard.tsx shows of a budget that cannot be read.
use throttle_deck.Base.{◌≡◌, refl, false, Option, none, []}
use throttle_deck.Platform.{Platform, Num}
use throttle_deck.Contracts.{Budget}
use throttle_deck.Derive.{
  is_budget_readable, format_available, format_refill, format_queue_depth, format_budget_pressure,
  budget_title, budget_tone, budget_status_label, budget_unit_label,
}
use throttle_deck.Components.BudgetCard.{budget_card}

module _ ⦃P : Platform⦄ where
  -- A budget without its figures.
  abbrev pub without_figures : Budget → Budget
  without_figures b = record b {
    available_now = none;
    capacity = none;
    refill_per_second = none;
    queue_depth = none;
    recent_pressure_ratio = none;
    throttled_with_headroom = none;
    throttled_with_headroom_delta = none;
    series = [];
    sampled_at = none;
  }

  -- The card of a budget that cannot be read shows none of its figures: it is the card that the
  -- budget would have without them, in a window of any width.
  pub budget_card-unreadable :
      {E : Type 0} (b : Budget) (inner_width : Option Num)
      → is_budget_readable b ≡ false
      → budget_card {E = E} b inner_width ≡ budget_card (without_figures b) inner_width
  unfolding budget_card is_budget_readable format_available format_refill format_queue_depth
      format_budget_pressure budget_title budget_tone budget_status_label budget_unit_label
  budget_card-unreadable b inner_width hidden = rw hidden refl
