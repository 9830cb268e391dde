-- ===== src/Components/AppDetail.antt =====
-- ui/src/components/AppDetail.tsx.
use throttle_deck.Base.{
  String, Bool, false, Option, none, some, List, [], ◌∷◌, ◌==◌, map, if◌then◌else◌, filter_by,
  is_empty, template,
}
use throttle_deck.Platform.{Platform, Num}
use throttle_deck.Markup.{attr, Node, nothing, text, el, class_name, classed, plain, shown_for}
use throttle_deck.Contracts.{AppRow, VenueSplit, ActivityEvent, GovernorSnapshot}
use throttle_deck.Derive.{
  show_known, EventTitle, event_title, format_clock, app_detail_view, app_money_label,
  format_brokered_rest, format_recent_requests, format_queue_wait, format_errors,
}

-- `value === other`, for a text that may be null
abbrev pub is_same : Option String → String → Bool
is_same none other = false
is_same (some value) other = value == other

module _ ⦃P : Platform⦄ where
  -- `audit` of the details
  unfoldable pub detail_events : GovernorSnapshot → AppRow → List ActivityEvent
  detail_events snapshot app =
      filter_by (λ (event : ActivityEvent). is_same event.app_id app.app_id) snapshot.activity

  -- A cell of the table of venues.
  abbrev cell : {E : Type 0} → String → Node E
  cell shown = el "span" (attr "role" "cell" ∷ []) (text shown ∷ [])

  abbrev column : {E : Type 0} → String → Node E
  column shown = el "span" (attr "role" "columnheader" ∷ []) (text shown ∷ [])

  abbrev pub venue_row : {E : Type 0} → AppRow → VenueSplit → Node E
  venue_row app split = el "div" (class_name "venue-table__row" ∷ attr "role" "row" ∷ []) (
      cell split.venue
      ∷ cell (P.show split.count)
      ∷ cell (show_known split.upstream_429s)
      ∷ cell (show_known split.headroom_429s)
      ∷ cell (format_queue_wait (record app { queue_wait_ms = split.queue_wait_ms }))
      ∷ [])

  abbrev pub venue_table : {E : Type 0} → AppRow → Node E
  venue_table app =
      el "div"
        (class_name "venue-table"
          ∷ attr "role" "table"
          ∷ attr "aria-label" "Venue diagnostics"
          ∷ [])
        (el "div" (class_name "venue-table__row venue-table__head" ∷ attr "role" "row" ∷ []) (
            column "Venue"
            ∷ column "Requests"
            ∷ column "429s"
            ∷ column "Headroom 429s"
            ∷ column "Worst queue"
            ∷ [])
          ∷ map (venue_row app) app.venue_split)

  -- What React shows of a title: nothing for a member that is no text. The member `__proto__` is an
  -- object, on which React throws, and that is left out.
  abbrev pub title_node : {E : Type 0} → EventTitle → Node E
  title_node (EventTitle.text title) = text title
  title_node (EventTitle.inherited name) = nothing

  abbrev pub audit_entry : {E : Type 0} → ActivityEvent → Node E
  audit_entry event = el "li" [] (
      classed "span" "audit__time" (format_clock event.at)
      ∷ el "span" (class_name "audit__title" ∷ []) (title_node (event_title event) ∷ [])
      ∷ shown_for event.detail (classed "span" "audit__detail")
      ∷ [])

  abbrev heading : {E : Type 0} → String → Node E
  heading shown = classed "h4" "detail__heading" shown

  abbrev note : {E : Type 0} → String → Node E
  note shown = classed "p" "detail__note" shown

  abbrev block : {E : Type 0} → List (Node E) → Node E
  block inner = el "div" (class_name "detail__block" ∷ []) inner

  -- `AppDetail`
  unfoldable pub app_detail : {E : Type 0} → GovernorSnapshot → AppRow → Num → Node E
  unfolding detail_events app_detail_view
  app_detail snapshot app now =
      let view = app_detail_view app snapshot.trade_lock in
      let audit = detail_events snapshot app in
      el "section"
        (class_name "detail" ∷ attr "aria-label" (template (app.name ∷ " detail" ∷ [])) ∷ [])
        (el "div" (class_name "detail__grid" ∷ []) (
            block (
              heading "Callers"
              ∷ (if is_empty app.callers
                  then note "No caller labels are mapped to this row."
                  else el "ul" (class_name "callers" ∷ [])
                      (map (λ caller. el "li" [] (plain "code" caller ∷ [])) app.callers))
              ∷ shown_for view.coverage note
              ∷ [])
            ∷ block (
                heading "Measurements"
                ∷ el "dl" (class_name "detail__stats" ∷ []) (
                    plain "dt" "Brokered REST"
                    ∷ plain "dd" (format_brokered_rest app)
                    ∷ plain "dt" "Recent requests"
                    ∷ plain "dd" (format_recent_requests app)
                    ∷ plain "dt" "Queue wait"
                    ∷ plain "dd" (format_queue_wait app)
                    ∷ plain "dt" "Errors"
                    ∷ plain "dd" (format_errors app)
                    ∷ [])
                ∷ [])
            ∷ block (
                heading "Scope of a stop"
                ∷ note view.money_line
                ∷ note view.brokered_rest_line
                ∷ classed "p" "detail__does" view.does_line
                ∷ classed "p" "detail__doesnot" view.does_not_line
                ∷ el "p" (class_name "detail__note" ∷ []) (
                    text "Money mode: "
                    ∷ text (app_money_label app)
                    ∷ text ". Last update "
                    ∷ text (format_clock (P.to_iso_string now))
                    ∷ text "."
                    ∷ [])
                ∷ [])
            ∷ [])
          ∷ block (
              heading "Venue split"
              ∷ (if is_empty app.venue_split
                  then note "No venue traffic was recorded."
                  else venue_table app)
              ∷ [])
          ∷ heading "Audit entries"
          ∷ (if is_empty audit
              then note "No recorded activity for this application yet."
              else el "ul" (class_name "audit" ∷ []) (map audit_entry audit))
          ∷ [])
