-- ===== src/Components/AppTable.antt =====
-- ui/src/components/AppTable.tsx.
use throttle_deck.Base.{
  String, Bool, true, false, Option, none, some, [], ◌∷◌, map, if◌then◌else◌, template,
}
use throttle_deck.Platform.{Platform, Num, lit}
use throttle_deck.Markup.{
  attr, flag, on_click, Node, nothing, text, el, fragment, class_name, classed, plain, shown_if,
}
use throttle_deck.Contracts.{AppRow, GovernorSnapshot}
use throttle_deck.Derive.{
  Tone, is_stopped, app_money_label, app_access_label, format_brokered_rest, format_recent_requests,
  format_queue_wait, format_errors, format_last_rest, describe_request_series,
}
use throttle_deck.Components.Icons.{chevron_down_icon}
use throttle_deck.Components.SafetyStrip.{data_tone, status_dot}
use throttle_deck.Components.Sparkline.{default_style, bars, accent, sparkline}
use throttle_deck.Components.BudgetCard.{use_compact}
use throttle_deck.Components.AppDetail.{is_same, app_detail}

pub data RowButton : Type 0 where
  resume_access stop_access : RowButton

module _ ⦃P : Platform⦄ where
  -- The button of a row; none while it is disabled.
  unfoldable pub row_button : AppRow → Bool → Option RowButton
  row_button app pending =
      if pending then none else some (if is_stopped app.access then resume_access else stop_access)

  -- whether the details of a row are shown
  unfoldable pub row_expanded : Option String → AppRow → Bool
  row_expanded detail_app_id app = is_same detail_app_id app.app_id

  unfoldable pub access_tone : AppRow → Tone
  access_tone app = if is_stopped app.access then Tone.stop else Tone.healthy

  -- What a row makes happen.
  pub record RowHandlers (E : Type 0) : Type 0 where
    pub on_toggle_detail : String → E
    pub on_stop_app : String → E
    pub on_resume_app : String → E

  abbrev unless : {E : Type 0} → Bool → Node E → Node E
  unless true node = nothing
  unless false node = node

  abbrev row_sparkline : {E : Type 0} → AppRow → Node E
  row_sparkline app =
      sparkline
        (record default_style { hue = accent; shape = bars; width = lit 48; height = lit 14 })
        app.request_series (describe_request_series app)

  abbrev separator : {E : Type 0} → Node E
  separator = el "span" (attr "aria-hidden" "true" ∷ []) (text "·" ∷ [])

  abbrev pub row_summary : {E : Type 0} → AppRow → Num → Node E
  row_summary app now = el "span" (class_name "row-summary" ∷ []) (
      row_sparkline app
      ∷ plain "span" (format_recent_requests app)
      ∷ separator
      ∷ plain "span" (format_last_rest app now)
      ∷ separator
      ∷ plain "span" (format_queue_wait app)
      ∷ separator
      ∷ el "span" [] (text (format_errors app) ∷ text " errors" ∷ [])
      ∷ [])

  abbrev pub access_button : {E : Type 0} → AppRow → Bool → RowHandlers E → Node E
  access_button app pending handler =
      if is_stopped app.access
      then el "button"
          (attr "type" "button"
            ∷ class_name "btn btn--quiet"
            ∷ on_click (handler.on_resume_app app.app_id)
            ∷ flag "disabled" pending
            ∷ [])
          (text "Resume access" ∷ [])
      else el "button"
          (attr "type" "button"
            ∷ class_name "btn btn--stop"
            ∷ on_click (handler.on_stop_app app.app_id)
            ∷ flag "disabled" pending
            ∷ [])
          (text "Stop access" ∷ [])

  -- the rows of one application
  unfoldable pub app_rows :
      {E : Type 0}
      → GovernorSnapshot
      → Num
      → Bool
      → Option String
      → Bool
      → RowHandlers E
      → AppRow
      → Node E
  unfolding row_expanded access_tone app_detail sparkline chevron_down_icon
  app_rows snapshot now pending detail_app_id compact handler app =
      let expanded = row_expanded detail_app_id app in
      let detail_id = template ("app-detail-" ∷ app.app_id ∷ []) in
      fragment (
        el "tr" (class_name "table__row" ∷ []) (
          el "th" (attr "scope" "row" ∷ class_name "table__name" ∷ []) (
            el "button"
              (attr "type" "button"
                ∷ class_name "row-toggle"
                ∷ flag "aria-expanded" expanded
                ∷ attr "aria-controls" detail_id
                ∷ attr "aria-label" (template (app.name ∷ " details" ∷ []))
                ∷ on_click (handler.on_toggle_detail app.app_id)
                ∷ [])
              (classed "span" "row-name" app.name ∷ chevron_down_icon ∷ [])
            ∷ classed "span" "row-mode" (app_money_label app)
            ∷ shown_if compact (row_summary app now)
            ∷ [])
          ∷ unless compact (
              el "td" [] (
                el "span" (class_name "status" ∷ data_tone (access_tone app) ∷ [])
                  (status_dot ∷ text (format_brokered_rest app) ∷ [])
                ∷ []))
          ∷ unless compact (classed "td" "table__num" (format_recent_requests app))
          ∷ unless compact (classed "td" "table__num" (format_queue_wait app))
          ∷ unless compact (classed "td" "table__num" (format_errors app))
          ∷ el "td" (class_name "table__access" ∷ []) (
              classed "span" "sr-only" (app_access_label app)
              ∷ access_button app pending handler
              ∷ [])
          ∷ [])
        ∷ shown_if expanded (
            el "tr" (class_name "table__detail-row" ∷ []) (
              el "td" (attr "colSpan" (if compact then "2" else "6") ∷ [])
                (el "div" (attr "id" detail_id ∷ []) (app_detail snapshot app now ∷ []) ∷ [])
              ∷ []))
        ∷ [])

  abbrev column_heading : {E : Type 0} → String → Node E
  column_heading shown = el "th" (attr "scope" "col" ∷ []) (text shown ∷ [])

  -- `AppTable`
  unfoldable pub app_table :
      {E : Type 0}
      → GovernorSnapshot
      → Num
      → Bool
      → Option String
      → Option Num
      → RowHandlers E
      → Node E
  unfolding app_rows use_compact
  app_table snapshot now pending detail_app_id inner_width handler =
      let compact = use_compact inner_width (lit 1000) in
      el "table" (class_name "table" ∷ []) (
        classed "caption" "table__caption" "Brokered REST activity · WebSockets not measured"
        ∷ el "thead" [] (
            el "tr" [] (
              column_heading "Name"
              ∷ unless compact (column_heading "Brokered REST")
              ∷ unless compact (column_heading "Recent requests")
              ∷ unless compact (column_heading "Queue wait")
              ∷ unless compact (column_heading "Errors")
              ∷ column_heading "Access"
              ∷ [])
            ∷ [])
        ∷ el "tbody" []
            (map (app_rows snapshot now pending detail_app_id compact handler) snapshot.apps)
        ∷ [])
