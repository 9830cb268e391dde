-- ===== src/Components/SafetyStrip.antt =====
-- ui/src/components/SafetyStrip.tsx: its markup, and which of its buttons are shown and enabled.
use throttle_deck.Base.{String, true, false, Bool, List, [], ◌∷◌, ◌++◌, if◌then◌else◌}
use throttle_deck.Platform.{Platform}
use throttle_deck.Contracts.{GovernorSnapshot}
use throttle_deck.Markup.{
  Attribute, attr, flag, on_click, Node, text, el, class_name, classed, shown_if, shown_for,
}
use throttle_deck.Components.Icons.{shield_icon, stop_square_icon}
use throttle_deck.Derive.{Tone, tone_text, money_lock_view, is_stopped}

pub data StripButton : Type 0 where
  unlock stop_new_money_orders resume_all_access stop_all_access : StripButton

abbrev when : Bool → StripButton → List StripButton
when shown button = if shown then button ∷ [] else []

module _ ⦃P : Platform⦄ where
  unfoldable pub reads_stopped : GovernorSnapshot → Bool
  reads_stopped snapshot = is_stopped snapshot.broker_access.global.state

  -- the buttons of `strip__actions`, in their order
  unfoldable pub strip_buttons : GovernorSnapshot → List StripButton
  unfolding money_lock_view reads_stopped
  strip_buttons snapshot =
      let view = money_lock_view snapshot.trade_lock in
      when view.can_unlock StripButton.unlock
      ++ when view.can_stop StripButton.stop_new_money_orders
      ++ (if reads_stopped snapshot
          then StripButton.resume_all_access
          else StripButton.stop_all_access)
        ∷ []

  -- Every button has `disabled={pending}`.
  unfoldable pub clickable : GovernorSnapshot → Bool → List StripButton
  unfolding strip_buttons
  clickable snapshot pending = if pending then [] else strip_buttons snapshot

  -- `data-tone`, and the dot that a status has
  abbrev pub data_tone : {E : Type 0} → Tone → Attribute E
  data_tone tone = attr "data-tone" (tone_text tone)

  abbrev pub status_dot : {E : Type 0} → Node E
  status_dot =
      el "span" (class_name "dot" ∷ attr "data-shape" "status" ∷ attr "aria-hidden" "true" ∷ []) []

  -- A button of the strip.
  abbrev strip_button : {E : Type 0} → String → E → Bool → String → Node E
  strip_button name event pending label =
      el "button"
        (attr "type" "button" ∷ class_name name ∷ on_click event ∷ flag "disabled" pending ∷ [])
        (text label ∷ [])

  abbrev is_healthy : Tone → Bool
  is_healthy Tone.healthy = true
  is_healthy _ = false

  -- `SafetyStrip`: the four handlers are what a click on each button makes happen.
  unfoldable pub safety_strip : {E : Type 0} → GovernorSnapshot → Bool → (StripButton → E) → Node E
  unfolding money_lock_view reads_stopped shield_icon stop_square_icon
  safety_strip snapshot pending handler =
      let view = money_lock_view snapshot.trade_lock in
      let stopped = reads_stopped snapshot in
      el "section" (class_name "strip" ∷ data_tone view.tone ∷ []) (
        el "div" (class_name "strip__grid" ∷ []) (
          el "div"
            (class_name "strip__money"
              ∷ attr "role" "group"
              ∷ attr "aria-labelledby" "money-lock-heading"
              ∷ [])
            (el "span"
                (class_name "strip__glyph" ∷ data_tone view.tone ∷ attr "aria-hidden" "true" ∷ [])
                ((if is_healthy view.tone then shield_icon else stop_square_icon) ∷ [])
              ∷ el "div" (class_name "strip__text" ∷ []) (
                  el "div" (class_name "strip__title-row" ∷ []) (
                    el "h2" (class_name "strip__heading" ∷ attr "id" "money-lock-heading" ∷ [])
                      (text view.heading ∷ [])
                    ∷ el "span" (class_name "strip__rule" ∷ attr "aria-hidden" "true" ∷ []) []
                    ∷ el "span" (class_name "status" ∷ data_tone view.tone ∷ [])
                        (status_dot ∷ text view.state_label ∷ [])
                    ∷ [])
                  ∷ classed "p" "strip__detail" view.detail
                  ∷ [])
              ∷ [])
          ∷ shown_if stopped (
              el "div"
                (class_name "strip__reads"
                  ∷ attr "role" "group"
                  ∷ attr "aria-label" "Brokered REST reads"
                  ∷ [])
                (el "div" (class_name "strip__text" ∷ []) (
                    el "span" (class_name "status" ∷ data_tone Tone.stop ∷ [])
                      (status_dot ∷ text "Stopped" ∷ [])
                    ∷ classed "p" "strip__detail"
                        "Every brokered REST read on this machine stops, for known and unknown callers. Direct venue requests and WebSocket streams are not affected."
                    ∷ [])
                  ∷ []))
          ∷ el "div" (class_name "strip__actions" ∷ []) (
              shown_if view.can_unlock
                (strip_button "btn btn--accent" (handler StripButton.unlock) pending "Unlock")
              ∷ shown_if view.can_stop (
                  strip_button "btn btn--danger" (handler StripButton.stop_new_money_orders) pending
                    "Stop new money orders")
              ∷ (if stopped
                  then strip_button "btn btn--stop" (handler StripButton.resume_all_access) pending
                      "Resume all brokered REST access"
                  else strip_button "btn btn--stop" (handler StripButton.stop_all_access) pending
                      "Stop all brokered REST access")
              ∷ [])
          ∷ [])
        ∷ shown_for view.banner (λ banner.
          el "p" (class_name "strip__banner" ∷ attr "role" "status" ∷ data_tone view.tone ∷ [])
            (text banner ∷ []))
        ∷ [])
