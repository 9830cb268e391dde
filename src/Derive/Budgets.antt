-- ===== src/Derive/Budgets.antt =====
-- The derivations of ui/src/derive.ts about one budget.
use throttle_deck.Base.{
  ℕ, zero, suc, ◌-◌, String, Bool, true, false, not, Option, none, some, List, [], ◌∷◌, ◌||◌,
  if◌then◌else◌, is_empty, length, template,
}
use throttle_deck.Platform.{Platform, Num, lit}
use throttle_deck.Contracts.{
  Budget, BudgetId, BudgetHealth, BudgetUnit, kalshi_predictions, kalshi_perps, requests, tokens,
}
use throttle_deck.Derive.Copy.{
  Tone, healthy_label, unavailable_label, not_configured, account_quota_unknown, unknown_value,
}

abbrev pub unit_text : BudgetUnit → String
unit_text requests = "requests"
unit_text tokens = "tokens"

abbrev title_of : BudgetId → String
title_of BudgetId.pmus = "Polymarket REST"
title_of kalshi_predictions = "Kalshi Predictions"
title_of kalshi_perps = "Kalshi Perps"

abbrev status_of : BudgetHealth → String
status_of BudgetHealth.healthy = healthy_label
status_of BudgetHealth.pressure = "Pressure"
status_of BudgetHealth.critical = "At limit"
status_of BudgetHealth.unconfigured = not_configured
status_of BudgetHealth.unavailable = unavailable_label

abbrev tone_of : BudgetHealth → Tone
tone_of BudgetHealth.healthy = Tone.healthy
tone_of BudgetHealth.pressure = Tone.warning
tone_of BudgetHealth.critical = Tone.critical
tone_of BudgetHealth.unconfigured = Tone.neutral
tone_of BudgetHealth.unavailable = Tone.neutral

abbrev is_readable : BudgetHealth → Bool
is_readable BudgetHealth.unavailable = false
is_readable BudgetHealth.unconfigured = false
is_readable _ = true

module _ ⦃P : Platform⦄ where
  unfoldable pub budget_title : Budget → String
  budget_title budget = title_of budget.id

  unfoldable pub budget_status_label : Budget → String
  budget_status_label budget = status_of budget.health

  unfoldable pub budget_tone : Budget → Tone
  budget_tone budget = tone_of budget.health

  unfoldable pub is_budget_readable : Budget → Bool
  is_budget_readable budget = is_readable budget.health

  -- `Available now`, of the balance and the capacity of a readable budget
  abbrev available_text : Option Num → Option Num → String
  available_text none capacity = unknown_value
  available_text (some now) none = P.show now
  available_text (some now) (some capacity) = template (P.show now ∷ " / " ∷ P.show capacity ∷ [])

  unfoldable pub format_available : Budget → String
  unfolding is_budget_readable
  format_available budget =
      if not (is_budget_readable budget)
      then unavailable_label
      else available_text budget.available_now budget.capacity

  unfoldable pub budget_unit_label : Budget → String
  budget_unit_label budget = unit_text budget.unit

  unfoldable pub trim_number : Num → String
  trim_number value = if P.is_integer value then P.show value else P.to_fixed_1 value

  abbrev rate_unit : BudgetUnit → String
  rate_unit requests = "req/s"
  rate_unit tokens = "tokens/s"

  abbrev refill_text : BudgetUnit → Option Num → String
  refill_text unit none = account_quota_unknown
  refill_text unit (some rate) = template (trim_number rate ∷ " " ∷ rate_unit unit ∷ [])

  unfoldable pub format_refill : Budget → String
  unfolding is_budget_readable trim_number
  format_refill budget =
      if not (is_budget_readable budget)
      then unavailable_label
      else refill_text budget.unit budget.refill_per_second

  -- a missing number is unknown
  abbrev pub show_known : Option Num → String
  show_known none = unknown_value
  show_known (some n) = P.show n

  unfoldable pub format_queue_depth : Budget → String
  unfolding is_budget_readable
  format_queue_depth budget =
      if not (is_budget_readable budget) then unknown_value else show_known budget.queue_depth

  abbrev percent_text : Option Num → String
  percent_text none = unknown_value
  percent_text (some ratio) = template (P.show (P.round (P.mul ratio (lit 100))) ∷ "%" ∷ [])

  unfoldable pub format_budget_pressure : Budget → String
  unfolding is_budget_readable
  format_budget_pressure budget =
      if not (is_budget_readable budget)
      then unknown_value
      else percent_text budget.recent_pressure_ratio

  -- `series[i] ?? 0`
  abbrev point_at : List Num → ℕ → Num
  point_at [] i = lit 0
  point_at (p ∷ ps) zero = p
  point_at (p ∷ ps) (suc i) = point_at ps i

  unfoldable pub describe_series : Budget → String
  unfolding budget_title is_budget_readable budget_unit_label
  describe_series budget =
      if not (is_budget_readable budget) || is_empty budget.series
      then template (budget_title budget ∷ ": no recent sample available." ∷ [])
      else template (
          budget_title budget
          ∷ ": "
          ∷ P.show (point_at budget.series 0)
          ∷ " to "
          ∷ P.show (point_at budget.series (length budget.series - 1))
          ∷ " "
          ∷ budget_unit_label budget
          ∷ " available across the last "
          ∷ P.show (lit (length budget.series))
          ∷ " samples."
          ∷ [])
