-- ===== src/Tests/Shown.antt =====
-- What the page tells the operator, what a request tells the service, and the bars of a chart.
use mathlib.Core.List.{Memᴰ}
use throttle_deck.Base.{
  true, ◌⊎◌, filter_map, ◌≡◌, refl, none, some, [], ◌∷◌, List, arith, false, Option,
}
use throttle_deck.Markup.{texts}
use throttle_deck.Json.{get}
use throttle_deck.Contracts.{AppRow, GovernorSnapshot}
use throttle_deck.Api.{action_body, run_traffic_audit, read_csrf_token, thrown, TrafficAuditResult}
use throttle_deck.Api.Bodies.{said, get-action_body}
use throttle_deck.Components.{
  numeric, begin_audit, finish_audit, safety_strip, initial_feed, new_dialog, bar_scale, bar_height,
}
use throttle_deck.Components.Audit.{finish_audit-begin_audit, safety_strip-same}
use throttle_deck.Components.Bars.{bar_height_bounds}
use throttle_deck.App.{PageEvent, AppState, View, page, on_stop_app, on_stop_all_access}
use throttle_deck.App.Told.{errors-texts, on_stop_app-texts, on_stop_all_access-texts}
use throttle_deck.Tests.Numbers.{whole, whole-Laws}
use throttle_deck.Tests.Payload.{locked_snapshot}
use throttle_deck.Tests.Window.{showing, down, stop_action, undecodable, malformed, service}
use throttle_deck.Tests.Views.{bot, suspected}

abbrev wide : View
wide = record { now = 3000; inner_width = some 1400; feed = initial_feed; dialog = new_dialog }

abbrev refused : AppState
refused = record showing { control_error = some "Not applied."; problem = some down }

errors-texts_example : Memᴰ "Governor is not responding." (texts (page refused wide))
errors-texts_example =
    errors-texts refused wide "Governor is not responding." (Memᴰ.tail (Memᴰ.head refl))

abbrev labelled_bot : AppRow
labelled_bot = record bot { callers = "bot-a" ∷ "bot-b" ∷ [] }

abbrev with_bot : GovernorSnapshot
with_bot = record locked_snapshot { apps = labelled_bot ∷ [] }

on_stop_app-texts_example : Memᴰ "bot-b" (texts (page (on_stop_app with_bot "bot" showing) wide))
on_stop_app-texts_example =
    on_stop_app-texts showing wide with_bot labelled_bot "bot-b" refl (Memᴰ.tail (Memᴰ.head refl))

on_stop_all_access-texts_example :
    Memᴰ "Bot" (texts (page (on_stop_all_access with_bot showing) wide))
on_stop_all_access-texts_example =
    on_stop_all_access-texts showing wide with_bot "Bot" (Memᴰ.head refl)

get-action_body_example : get "reason" (action_body stop_action) ≡ said stop_action "reason"
get-action_body_example = get-action_body stop_action "reason"

abbrev points : List (Option whole.Num)
points = some 3 ∷ none ∷ some 5 ∷ []

three-in-points : Memᴰ 3 (numeric points)
unfolding filter_map
three-in-points = Memᴰ.head refl

bar_height_bounds_example :
    (whole.lt (bar_height (bar_scale points) 22 3) 1 ≡ false)
    × (whole.lt 20 (bar_height (bar_scale points) 22 3) ≡ false)
bar_height_bounds_example =
    bar_height_bounds whole-Laws points 22 3 ((refl, refl), (tt, ((refl, refl), tt))) (omega arith)
      (omega arith) three-in-points

finish_audit-begin_audit_example :
    let ended =
      finish_audit
        (run_traffic_audit undecodable (some malformed) service)
        (begin_audit initial_feed) in
    ((ended.auditing ≡ false) × ((r : TrafficAuditResult) × (ended.audit ≡ some r)))
    ⊎ ((read_csrf_token undecodable (some malformed) ≡ thrown)
        × (ended ≡ begin_audit initial_feed)
        × (ended.auditing ≡ true))
finish_audit-begin_audit_example =
    finish_audit-begin_audit undecodable (some malformed) service initial_feed

-- The snapshot that is suspected, with the history collection paused.
abbrev paused : GovernorSnapshot
paused = record suspected {
  broker = record suspected.broker { collection_paused = true; sampled_at = none };
}

safety_strip-same_example :
    safety_strip suspected false PageEvent.press ≡ safety_strip paused false PageEvent.press
safety_strip-same_example = safety_strip-same suspected paused false PageEvent.press refl refl
