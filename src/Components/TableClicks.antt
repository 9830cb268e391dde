-- ===== src/Components/TableClicks.antt =====
-- What the budget cards, the table of applications and the feed of ui/src/components offer to click.
use throttle_deck.Base.{
  ◌≡◌, refl, inl, inr, Bool, true, false, List, [], ◌∷◌, ◌++◌, Option, none, some, flat_map,
  append-nil, if◌then◌else◌, arith, String, is_empty,
}
use throttle_deck.Platform.{Platform, Num, lit}
use throttle_deck.Markup.{clicks, child_clicks, children, el, plain, shown_for}
use throttle_deck.Contracts.{GovernorSnapshot, AppRow, Budget, ActivityEvent}
use throttle_deck.Derive.{
  is_stopped, is_high_priority_event, event_title, app_detail_view, EventTitle, is_budget_readable,
}
use throttle_deck.Api.{TrafficAuditResult}
use throttle_deck.Components.BudgetCard.{budget_card, use_compact, trend, pressure_chart}
use throttle_deck.Components.AppDetail.{
  app_detail, detail_events, title_node, venue_row, audit_entry,
}
use throttle_deck.Components.AppTable.{row_summary, RowHandlers, app_rows, app_table}
use throttle_deck.Components.FeedLayout.{FeedState}
use throttle_deck.Components.FeedPage.{
  activity_feed, traffic_audit, severity_glyph, finding_item, wide_item, rest_item, lead_block,
  compact_items,
}
use throttle_deck.Components.ActivityFeed.{activity_with_headroom_alert}
use throttle_deck.Components.FeedLead.{compact_feed-splits}
use throttle_deck.Components.FirstAt.{starts}
use throttle_deck.Components.Icons.{chevron_down_icon, warning_triangle_icon}
use throttle_deck.Components.Clicks.{child_clicks-map, silent-map, clicks-sparkline}

module _ ⦃P : Platform⦄ {E : Type 0} where
  clicks-trend : (b : Budget) (compact : Bool) → clicks {E = E} (trend b compact) ≡ []
  clicks-trend b true = clicks-sparkline _ _ _
  clicks-trend b false = clicks-sparkline _ _ _

  clicks-pressure_chart : (b : Budget) → clicks {E = E} (pressure_chart b) ≡ []
  clicks-pressure_chart b = clicks-sparkline _ _ _

  pub clicks-budget_card :
      (b : Budget) (inner_width : Option Num) → clicks {E = E} (budget_card b inner_width) ≡ []
  unfolding budget_card clicks is_budget_readable
  clicks-budget_card b inner_width =
      ground (arith, clicks-trend b true, clicks-trend b false, clicks-pressure_chart b)

  clicks-title_node : (title : EventTitle) → clicks {E = E} (title_node title) ≡ []
  unfolding clicks
  clicks-title_node (EventTitle.text title) = refl
  clicks-title_node (EventTitle.inherited name) = refl

  clicks-audit_entry : (e : ActivityEvent) → clicks {E = E} (audit_entry e) ≡ []
  unfolding clicks
  clicks-audit_entry e = ground (arith, clicks-title_node (event_title e))

  clicks-app_detail :
      (g : GovernorSnapshot) (app : AppRow) (now : Num) → clicks {E = E} (app_detail g app now) ≡ []
  unfolding app_detail clicks app_detail_view
  clicks-app_detail g app now = ground (
    arith,
    silent-map (audit_entry {E = E}) (detail_events g app) clicks-audit_entry,
    silent-map (venue_row {E = E} app) app.venue_split (λ split. refl),
    silent-map (λ caller. el {E = E} "li" [] (plain "code" caller ∷ [])) app.callers
        (λ caller. refl),
  )

  -- what a row of an application offers
  abbrev pub row_clicks : Bool → RowHandlers E → AppRow → List E
  row_clicks pending handler app =
      handler.on_toggle_detail app.app_id
      ∷ (if pending
          then []
          else (if is_stopped app.access
              then handler.on_resume_app app.app_id
              else handler.on_stop_app app.app_id)
            ∷ [])

  clicks-row_summary : (app : AppRow) (now : Num) → clicks {E = E} (row_summary app now) ≡ []
  unfolding clicks
  clicks-row_summary app now = rw (clicks-sparkline {E = E} _ _ _) refl

  clicks-app_rows :
      (g : GovernorSnapshot) (now : Num) (pending : Bool) (detail : Option String) (compact : Bool)
      (handler : RowHandlers E) (app : AppRow)
      → clicks (app_rows g now pending detail compact handler app) ≡ row_clicks pending handler app
  unfolding app_rows clicks chevron_down_icon
  clicks-app_rows g now pending detail compact handler app =
      ground (arith, clicks-row_summary app now, clicks-app_detail g app now)

  pub clicks-app_table :
      (g : GovernorSnapshot) (now : Num) (pending : Bool) (detail : Option String)
      (inner_width : Option Num) (handler : RowHandlers E)
      → clicks (app_table g now pending detail inner_width handler)
        ≡ flat_map (row_clicks pending handler) g.apps
  unfolding app_table clicks
  clicks-app_table g now pending detail inner_width handler = ground (
    arith,
    child_clicks-map (app_rows g now pending detail (use_compact inner_width (lit 1000)) handler)
        (row_clicks pending handler) g.apps
        (clicks-app_rows g now pending detail (use_compact inner_width (lit 1000)) handler),
    append-nil (flat_map (row_clicks pending handler) g.apps),
  )

  clicks-severity_glyph : (e : ActivityEvent) → clicks {E = E} (severity_glyph e) ≡ []
  unfolding severity_glyph clicks warning_triangle_icon
  clicks-severity_glyph e = ground arith

  clicks-wide_item : (e : ActivityEvent) → clicks {E = E} (wide_item e) ≡ []
  unfolding clicks is_high_priority_event
  clicks-wide_item e = ground (arith, clicks-severity_glyph e, clicks-title_node (event_title e))

  clicks-rest_item : (e : ActivityEvent) → clicks {E = E} (rest_item e) ≡ []
  unfolding clicks
  clicks-rest_item e = ground (arith, clicks-severity_glyph e, clicks-title_node (event_title e))

  clicks-lead_block :
      (state : FeedState) (toggle : E) (e : ActivityEvent)
      → clicks (lead_block state toggle e) ≡ toggle ∷ []
  unfolding clicks chevron_down_icon is_high_priority_event
  clicks-lead_block state toggle e =
      ground (arith, clicks-severity_glyph e, clicks-title_node (event_title e))

  clicks-traffic_audit : (result : TrafficAuditResult) → clicks {E = E} (traffic_audit result) ≡ []
  unfolding clicks traffic_audit
  clicks-traffic_audit result =
      ground (arith, silent-map (finding_item {E = E}) result.findings (λ finding. refl))

  clicks-shown_audit :
      (audit : Option TrafficAuditResult) → clicks {E = E} (shown_for audit traffic_audit) ≡ []
  unfolding clicks
  clicks-shown_audit none = refl
  clicks-shown_audit (some result) = clicks-traffic_audit result

  -- what the feed offers
  abbrev pub feed_clicks : GovernorSnapshot → FeedState → Option Num → E → E → List E
  feed_clicks g state inner_width audit toggle =
      (if state.auditing then [] else audit ∷ [])
      ++ (if is_empty (activity_with_headroom_alert g)
          then []
          else if use_compact inner_width (lit 1000)
          then toggle ∷ []
          else [])

  clicks-compact_items :
      (g : GovernorSnapshot) (state : FeedState) (toggle : E)
      → child_clicks (children (compact_items g state toggle))
        ≡ (if is_empty (activity_with_headroom_alert g) then [] else toggle ∷ [])
  unfolding clicks
  clicks-compact_items g state toggle = elim (compact_feed-splits g) [
    | inl (e, unled, _) ↦ ground (arith, e, unled)
    | inr (lead, before, later, e, led, _) ↦
        let (y, ys, starts_with) = starts before lead later in
        ground (
          arith,
          e,
          led,
          starts_with,
          clicks-lead_block state toggle lead,
          silent-map (rest_item {E = E}) (before ++ later) clicks-rest_item,
        )
  ]

  pub clicks-activity_feed :
      (g : GovernorSnapshot) (state : FeedState) (inner_width : Option Num) (audit toggle : E)
      → clicks (activity_feed g state inner_width audit toggle)
        ≡ feed_clicks g state inner_width audit toggle
  unfolding clicks activity_feed
  clicks-activity_feed g state inner_width audit toggle = ground (
    arith,
    clicks-shown_audit state.audit,
    clicks-compact_items g state toggle,
    silent-map (wide_item {E = E}) (activity_with_headroom_alert g) clicks-wide_item,
  )
