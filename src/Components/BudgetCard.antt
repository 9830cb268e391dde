-- ===== src/Components/BudgetCard.antt =====
-- ui/src/components/BudgetCard.tsx, and ui/src/useCompact.ts.
use throttle_deck.Base.{
  String, Bool, true, false, Option, none, some, List, [], ◌∷◌, map, if◌then◌else◌, template,
}
use throttle_deck.Platform.{Platform, Num, lit}
use throttle_deck.Contracts.{Budget, id_text}
use throttle_deck.Derive.{
  budget_tone, budget_title, budget_status_label, budget_unit_label, is_budget_readable,
  format_available, format_queue_depth, format_refill, format_budget_pressure, describe_series,
}
use throttle_deck.Markup.{attr, Node, nothing, text, el, class_name, classed, shown_if}
use throttle_deck.Components.SafetyStrip.{data_tone, status_dot}
use throttle_deck.Components.Sparkline.{default_style, bars, accent, sparkline}

module _ ⦃P : Platform⦄ where
  abbrev pub percent_of : Option Num → Option Num → Num
  percent_of (some available) (some capacity) =
      if P.eq capacity (lit 0)
      then lit 0
      else P.max (lit 0) (P.min (lit 100) (P.round (P.mul (P.div available capacity) (lit 100))))
  percent_of _ _ = lit 0

  unfoldable pub capacity_percent : Budget → Num
  capacity_percent budget = percent_of budget.available_now budget.capacity

  -- `useCompact`: the inner width of the window at its last resize, none outside a browser.
  unfoldable pub use_compact : Option Num → Num → Bool
  use_compact none max_width = false
  use_compact (some inner_width) max_width = P.lt inner_width max_width

  abbrev pub compact_max_width : Num
  compact_max_width = lit 900

  abbrev stat : {E : Type 0} → String → List (Node E) → Node E
  stat label value =
      el "div" (class_name "budget__stat" ∷ [])
        (classed "span" "label" label ∷ el "span" (class_name "value" ∷ []) value ∷ [])

  abbrev values_of : Budget → List (Option Num)
  values_of budget = map (λ v. some v) budget.series

  -- the graphic beside the figure
  abbrev pub trend : {E : Type 0} → Budget → Bool → Node E
  trend budget compact =
      if compact
      then sparkline
          (record default_style {
            tone = budget_tone budget;
            shape = bars;
            width = lit 44;
            height = lit 22;
          })
          (values_of budget) (describe_series budget)
      else sparkline (record default_style { tone = budget_tone budget; hue = accent })
          (values_of budget) (describe_series budget)

  abbrev capacity_bar : {E : Type 0} → Budget → Node E
  capacity_bar budget = el "div" (class_name "budget__capacity" ∷ attr "aria-hidden" "true" ∷ []) (
      el "span"
        (class_name "budget__capacity-fill"
          ∷ attr "style.inlineSize" (template (P.show (capacity_percent budget) ∷ "%" ∷ []))
          ∷ [])
        []
      ∷ [])

  abbrev pub pressure_chart : {E : Type 0} → Budget → Node E
  pressure_chart budget =
      sparkline
        (record default_style {
          tone = budget_tone budget;
          width = lit 56;
          height = lit 18;
          decorative = true;
        })
        (values_of budget) (describe_series budget)

  abbrev footer : {E : Type 0} → Budget → Bool → Node E
  footer budget compact =
      if compact
      then el "div" (class_name "budget__footer budget__footer--compact" ∷ []) (
          classed "span" "label" "Available now"
          ∷ el "span" (class_name "value" ∷ [])
              (text "Queue depth " ∷ text (format_queue_depth budget) ∷ [])
          ∷ [])
      else el "div" (class_name "budget__footer" ∷ []) (
          stat "Refill rate" (text (format_refill budget) ∷ [])
          ∷ stat "Queue depth" (text (format_queue_depth budget) ∷ [])
          ∷ stat "Recent pressure" (
              text (format_budget_pressure budget)
              ∷ shown_if (is_budget_readable budget) (pressure_chart budget)
              ∷ [])
          ∷ [])

  -- `BudgetCard`, in a window of this inner width
  unfoldable pub budget_card : {E : Type 0} → Budget → Option Num → Node E
  unfolding use_compact capacity_percent sparkline is_budget_readable
  budget_card budget inner_width =
      let compact = use_compact inner_width compact_max_width in
      let heading = template ("budget-" ∷ id_text budget.id ∷ []) in
      el "article"
        (class_name "card budget"
          ∷ data_tone (budget_tone budget)
          ∷ attr "aria-labelledby" heading
          ∷ [])
        (el "div" (class_name "budget__head" ∷ []) (
            el "h3" (class_name "card__heading" ∷ attr "id" heading ∷ [])
              (text (budget_title budget) ∷ [])
            ∷ el "span" (class_name "status" ∷ data_tone (budget_tone budget) ∷ [])
                (status_dot ∷ text (budget_status_label budget) ∷ [])
            ∷ [])
          ∷ el "div" (class_name "budget__value" ∷ []) (
              el "div" (class_name "budget__figure" ∷ []) (
                (if compact then nothing else classed "span" "label" "Available now")
                ∷ classed "span" "metric" (format_available budget)
                ∷ classed "span" "label" (budget_unit_label budget)
                ∷ [])
              ∷ shown_if (is_budget_readable budget) (trend budget compact)
              ∷ [])
          ∷ shown_if (is_budget_readable budget) (capacity_bar budget)
          ∷ footer budget compact
          ∷ [])
