-- ===== src/Components/Header.antt =====
-- ui/src/components/Header.tsx, and `ProblemPanel` of ui/src/App.tsx.
use throttle_deck.Base.{String, Bool, [], ◌∷◌, or_default}
use throttle_deck.Platform.{Platform, Num}
use throttle_deck.Markup.{attr, flag, on_click, Node, text, el, class_name, classed, shown_if}
use throttle_deck.Contracts.{
  GovernorSnapshot, SnapshotProblem, SnapshotProblemKind, unsupported_schema,
}
use throttle_deck.Derive.{broker_health_label, broker_health_tone, format_age}
use throttle_deck.Components.Icons.{refresh_icon}
use throttle_deck.Components.SafetyStrip.{data_tone, status_dot}

-- `<h1 className="product">` of the header, and of a window without a snapshot
abbrev pub product_heading : {E : Type 0} → Node E
product_heading = el "h1" (class_name "product" ∷ []) (
    classed "span" "product__name" "ThrottleDeck"
    ∷ text " "
    ∷ el "span" (class_name "product__descriptor" ∷ []) (text "— " ∷ text "API Control" ∷ [])
    ∷ [])

module _ ⦃P : Platform⦄ where
  -- `Header`
  unfoldable pub header : {E : Type 0} → GovernorSnapshot → Num → Bool → E → Node E
  unfolding refresh_icon
  header snapshot now refreshing on_refresh = el "header" (class_name "header" ∷ []) (
      product_heading
      ∷ el "div" (class_name "header__state" ∷ []) (
          el "span" (class_name "status" ∷ data_tone (broker_health_tone snapshot now) ∷ [])
            (status_dot ∷ text (broker_health_label snapshot now) ∷ [])
          ∷ el "span" (class_name "header__divider" ∷ attr "aria-hidden" "true" ∷ []) []
          ∷ classed "span" "header__age" (format_age snapshot.broker.sampled_at now)
          ∷ el "button"
              (attr "type" "button"
                ∷ class_name "btn btn--quiet"
                ∷ on_click on_refresh
                ∷ flag "disabled" refreshing
                ∷ [])
              (refresh_icon ∷ text "Refresh" ∷ [])
          ∷ [])
      ∷ shown_if snapshot.broker.collection_paused (
          el "p" (class_name "notice notice--warning" ∷ attr "role" "status" ∷ []) (
            text "History collection is paused."
            ∷ text " "
            ∷ text (or_default snapshot.broker.pause_reason "No reason was recorded.")
            ∷ text " Safety controls remain available."
            ∷ []))
      ∷ [])

abbrev advice : SnapshotProblemKind → String
advice unsupported_schema = "Update Governor so the window and the service speak the same version."
advice _ = "Nothing was changed. Start Governor, then refresh this window."

-- `ProblemPanel`
unfoldable pub problem_panel : {E : Type 0} → SnapshotProblem → E → Node E
unfolding refresh_icon
problem_panel problem on_retry = el "section" (class_name "card panel" ∷ attr "role" "alert" ∷ []) (
    classed "h2" "section-heading" problem.message
    ∷ classed "p" "detail__note" (advice problem.kind)
    ∷ el "button" (attr "type" "button" ∷ class_name "btn btn--quiet" ∷ on_click on_retry ∷ [])
        (refresh_icon ∷ text "Refresh" ∷ [])
    ∷ [])
