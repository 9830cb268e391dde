-- ===== src/Components/FeedPage.antt =====
-- The markup of ui/src/components/ActivityFeed.tsx.
use throttle_deck.Base.{String, Option, none, some, List, [], ◌∷◌, map, if◌then◌else◌, is_empty}
use throttle_deck.Platform.{Platform, Num, lit}
use throttle_deck.Markup.{
  attr, flag, on_click, Node, text, el, class_name, classed, plain, shown_if, shown_for,
}
use throttle_deck.Contracts.{Severity, ActivityEvent, GovernorSnapshot}
use throttle_deck.Derive.{Tone, event_title, format_clock, severity_tone, is_high_priority_event}
use throttle_deck.Api.{AuditStatus, TrafficAuditFinding, TrafficAuditResult}
use throttle_deck.Components.Icons.{warning_triangle_icon, chevron_down_icon}
use throttle_deck.Components.SafetyStrip.{data_tone}
use throttle_deck.Components.BudgetCard.{use_compact}
use throttle_deck.Components.AppDetail.{title_node}
use throttle_deck.Components.ActivityFeed.{activity_with_headroom_alert}
use throttle_deck.Components.FeedLayout.{FeedState, compact_feed}

abbrev severity_label : Severity → String
severity_label Severity.critical = "Critical"
severity_label _ = "Warning"

abbrev status_text : AuditStatus → String
status_text AuditStatus.clear = "clear"
status_text AuditStatus.findings = "findings"
status_text AuditStatus.unavailable = "unavailable"
status_text AuditStatus.failed = "failed"

abbrev verdict : AuditStatus → String
verdict AuditStatus.clear = "No direct venue connection was visible."
verdict _ = "Traffic audit unavailable."

module _ ⦃P : Platform⦄ where
  -- `SeverityGlyph`
  unfoldable pub severity_glyph : {E : Type 0} → ActivityEvent → Node E
  unfolding warning_triangle_icon severity_tone
  severity_glyph event = elim event.severity [
    | Severity.info ↦
        el "span"
          (class_name "dot"
            ∷ attr "data-shape" "severity"
            ∷ data_tone Tone.healthy
            ∷ attr "aria-hidden" "true"
            ∷ [])
          []
    | other ↦
        el "span"
          (class_name "activity__glyph"
            ∷ attr "data-shape" "severity"
            ∷ data_tone (severity_tone other)
            ∷ [])
          (warning_triangle_icon ∷ [])
  ]

  -- the title of an event, with its severity where it is high
  abbrev titled : {E : Type 0} → ActivityEvent → Node E
  titled event = el "span" (class_name "activity__title" ∷ []) (
      title_node (event_title event)
      ∷ shown_if (is_high_priority_event event)
          (classed "span" "activity__severity" (severity_label event.severity))
      ∷ [])

  abbrev pub finding_item : {E : Type 0} → TrafficAuditFinding → Node E
  finding_item finding = el "li" [] (
      text finding.process_name
      ∷ text " (PID "
      ∷ text (P.show finding.pid)
      ∷ text ") → "
      ∷ text finding.venue
      ∷ [])

  -- `TrafficAudit`
  unfoldable pub traffic_audit : {E : Type 0} → TrafficAuditResult → Node E
  traffic_audit result =
      el "div"
        (class_name "traffic-audit"
          ∷ attr "role" "status"
          ∷ attr "data-status" (status_text result.status)
          ∷ [])
        ((if is_empty result.findings
            then plain "p" (verdict result.status)
            else el "ul" [] (map finding_item result.findings))
          ∷ classed "p" "traffic-audit__caveat" result.caveat
          ∷ [])

  abbrev feed_head : {E : Type 0} → FeedState → E → Node E
  feed_head state on_audit = el "div" (class_name "activity__head" ∷ []) (
      classed "h2" "section-heading" "Control activity"
      ∷ el "button"
          (attr "type" "button"
            ∷ class_name "btn btn--stop activity__audit-button"
            ∷ flag "disabled" state.auditing
            ∷ on_click on_audit
            ∷ [])
          (text (if state.auditing then "Auditing…" else "Traffic audit") ∷ [])
      ∷ [])

  abbrev pub feed_frame : {E : Type 0} → FeedState → E → List (Node E) → Node E
  feed_frame state on_audit inner =
      el "section" (class_name "card activity" ∷ attr "aria-label" "Control activity" ∷ [])
        (feed_head state on_audit ∷ shown_for state.audit traffic_audit ∷ inner)

  -- an event of the wide feed, and one of the rest of the compact feed
  abbrev pub wide_item : {E : Type 0} → ActivityEvent → Node E
  wide_item event =
      el "li" (class_name "activity__item" ∷ data_tone (severity_tone event.severity) ∷ []) (
        classed "span" "activity__time" (format_clock event.at)
        ∷ severity_glyph event
        ∷ titled event
        ∷ shown_for event.detail (classed "span" "activity__detail")
        ∷ [])

  abbrev pub rest_item : {E : Type 0} → ActivityEvent → Node E
  rest_item event = el "li" (class_name "activity__item" ∷ []) (
      classed "span" "activity__time" (format_clock event.at)
      ∷ severity_glyph event
      ∷ el "span" (class_name "activity__title" ∷ []) (title_node (event_title event) ∷ [])
      ∷ shown_for event.detail (classed "span" "activity__detail")
      ∷ [])

  abbrev pub lead_block : {E : Type 0} → FeedState → E → ActivityEvent → Node E
  lead_block state on_toggle lead =
      el "div" (class_name "activity__lead" ∷ data_tone (severity_tone lead.severity) ∷ []) (
        el "button"
          (attr "type" "button"
            ∷ class_name "activity__toggle"
            ∷ flag "aria-expanded" state.expanded
            ∷ on_click on_toggle
            ∷ [])
          (severity_glyph lead ∷ titled lead ∷ chevron_down_icon ∷ [])
        ∷ shown_for lead.detail (classed "p" "activity__detail")
        ∷ [])

  abbrev pub compact_items : {E : Type 0} → GovernorSnapshot → FeedState → E → List (Node E)
  compact_items snapshot state on_toggle = elim (compact_feed snapshot) [
    | none ↦ []
    | some (lead, rest) ↦
        lead_block state on_toggle lead
        ∷ shown_if state.expanded (el "ul" (class_name "activity__list" ∷ []) (map rest_item rest))
        ∷ []
  ]

  -- `ActivityFeed`
  unfoldable pub activity_feed :
      {E : Type 0} → GovernorSnapshot → FeedState → Option Num → E → E → Node E
  unfolding severity_glyph traffic_audit compact_feed chevron_down_icon use_compact
  activity_feed snapshot state inner_width on_audit on_toggle =
      let events = activity_with_headroom_alert snapshot in
      feed_frame state on_audit (
        if is_empty events
        then classed "p" "detail__note" "No recorded activity yet." ∷ []
        else if use_compact inner_width (lit 1000)
        then compact_items snapshot state on_toggle
        else el "ul" (class_name "activity__list" ∷ []) (map wide_item events) ∷ [])
