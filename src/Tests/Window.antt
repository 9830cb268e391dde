-- ===== src/Tests/Window.antt =====
-- A run of the window: it loads a snapshot whose money lock is stopped, and the operator unlocks it.
use throttle_deck.Base.{◌⊎◌, ◌++◌, ◌≡◌, refl, none, some, [], ◌∷◌, length, All, Option, true, false}
use mathlib.Core.List.{Memᴰ}
use throttle_deck.Contracts.{GovernorSnapshot, parsing, ok, not_ok, SnapshotProblem, unreachable}
use throttle_deck.Contracts.WellFormed.{IsSnapshot}
use throttle_deck.Api.{
  Document, value, thrown, csrf_cookie_name, read_csrf_token, apply_control, stop_new_money_orders,
  Codes, Fetcher, load_snapshot, ControlAction,
}
use throttle_deck.Components.{clickable, DialogState, click_confirm}
use throttle_deck.App.{
  begin_run, finish_run, AppState, initial, begin_load, finish_load, unlock_request, on_unlock,
  World, Load, Step, Reach, here, next, start_load, answer_load, ask_unlock, confirm_request,
  initial_world, confirm, same, then_step, Later,
}
use throttle_deck.App.Authority.{WasAuthorised, Reach-WasAuthorised}
use throttle_deck.App.Shown.{Delivers, Step-snapshot, Reach-IsSnapshot}
use throttle_deck.App.Invariant.{IsValid, Reach-IsValid}
use throttle_deck.Api.Answers.{applied_result}
use throttle_deck.App.Loads.{poll, failing_polls, failing_polls-problem, poll-ok-failing_polls}
use throttle_deck.App.Races.{with_load, late_answer, late_load-overwrites, undecodable_cookie-stuck}
use throttle_deck.Tests.Numbers.{whole, whole-Laws}
use throttle_deck.Tests.Payload.{locked, locked_snapshot}

abbrev pub decode : Codes → Option Codes
decode = some

abbrev pub service : Fetcher
service = λ _. some (record { status = 200; json = some locked })

abbrev first_load : Load
first_load = record { load_id = 1; manual = false }

window : Unit {0}
unfolding parsing load_snapshot begin_load finish_load on_unlock clickable click_confirm confirm
window = tt

abbrev loading : AppState
loading = begin_load false initial

pub loaded :
    (w : World) × Reach decode w × (w.app.snapshot ≡ some locked_snapshot) × (w.app.pending ≡ false)
unfolding window
loaded =
    (_, next (next here (start_load false)) (answer_load [] first_load [] service refl), refl, refl)

abbrev pub typed : DialogState
typed = record { phrase = "UNLOCK NEW ORDERS"; reason = "checked" }

-- The operator asks for the unlock and confirms it.
pub unlocked :
    (w : World) × Reach decode w
    × (length w.submitted ≡ 1)
    × (w.app.pending ≡ true)
    × (length w.runs ≡ 1)
unfolding window loaded
unlocked = (
  _,
  next (next loaded.1 (ask_unlock locked_snapshot refl (Memᴰ.head refl)))
      (confirm_request (unlock_request locked_snapshot) typed "checked" refl refl),
  refl,
  refl,
  refl,
)

Reach-WasAuthorised_example : All (WasAuthorised decode unlocked.0) unlocked.0.submitted
Reach-WasAuthorised_example = Reach-WasAuthorised decode unlocked.1

Reach-IsSnapshot_example : IsSnapshot locked_snapshot
Reach-IsSnapshot_example = Reach-IsSnapshot whole-Laws decode loaded.1 locked_snapshot loaded.2

Reach-IsValid_example : IsValid unlocked.0
Reach-IsValid_example = Reach-IsValid decode unlocked.1

waiting : Reach decode (record initial_world { app = loading; loads = first_load ∷ [] })
unfolding window
waiting = next here (start_load false)

answer-Step :
    Step decode
      (record initial_world { app = loading; loads = first_load ∷ [] })
      (record initial_world { app = finish_load 1 false (load_snapshot service) loading })
answer-Step = answer_load [] first_load [] service refl

Step-snapshot_example :
    ((finish_load 1 false (load_snapshot service) loading).snapshot ≡ loading.snapshot)
    ⊎ ((g : GovernorSnapshot) × ((finish_load 1 false (load_snapshot service) loading).snapshot
          ≡ some g)
        × Delivers decode answer-Step g)
Step-snapshot_example = Step-snapshot decode answer-Step

abbrev second_load : Load
second_load = record { load_id = 2; manual = true }

-- The window once the second of its two loads has been answered.
abbrev refreshed : AppState
refreshed = finish_load 2 true (load_snapshot service) (begin_load true loading)

refreshed-Later :
    Later decode
      (with_load true (record initial_world { app = loading; loads = first_load ∷ [] }))
      (record initial_world { app = refreshed; loads = first_load ∷ [] })
unfolding window
refreshed-Later = then_step same (answer_load [] second_load (first_load ∷ []) service refl)

late_answer_example :
    finish_load 1 false (load_snapshot service) refreshed
    ≡ record refreshed { refreshing = refreshed.refreshing }
late_answer_example =
    late_answer decode (record initial_world { app = loading; loads = first_load ∷ [] })
      (record initial_world { app = refreshed; loads = first_load ∷ [] }) [] first_load [] true
      (load_snapshot service) waiting refl refreshed-Later

-- A window that shows a snapshot.
abbrev pub showing : AppState
showing = record initial { snapshot = some locked_snapshot; snapshot_ref = some locked_snapshot }

abbrev pub down : SnapshotProblem
down = record { kind = unreachable; message = "Governor is not responding." }

failing_polls-problem_example :
    ((failing_polls 3 down showing).snapshot ≡ some locked_snapshot)
    × ((failing_polls 3 down showing).problem ≡ some down)
failing_polls-problem_example = failing_polls-problem 3 down locked_snapshot showing refl refl refl

poll-ok-failing_polls_example :
    ((poll (ok locked_snapshot) (failing_polls 3 down showing)).snapshot ≡ some locked_snapshot)
    × ((poll (ok locked_snapshot) (failing_polls 3 down showing)).problem ≡ none)
    × ((poll (not_ok down) (poll (ok locked_snapshot) (failing_polls 3 down showing))).problem
        ≡ none)
poll-ok-failing_polls_example = poll-ok-failing_polls 3 down locked_snapshot showing

-- Another snapshot than the locked one.
abbrev older : GovernorSnapshot
older = record locked_snapshot { revision = 6 }

late_load-overwrites_example :
    let started = begin_load false showing in
    let committed = finish_run (value (applied_result locked_snapshot)) (begin_run started) in
    (committed.snapshot ≡ some locked_snapshot)
    × ((finish_load started.latest_load false (ok older) committed).snapshot ≡ some older)
late_load-overwrites_example = late_load-overwrites showing false older locked_snapshot

-- A page whose cookie is the token's name, `=` and a percent sign, which does not decode.
abbrev pub malformed : Document
malformed = record { cookie = csrf_cookie_name some ++ b'=' ∷ b'%' ∷ []; meta_content = none }

abbrev pub undecodable : Codes → Option Codes
undecodable _ = none

cookie-malformed : read_csrf_token undecodable (some malformed) ≡ thrown
unfolding read_csrf_token
cookie-malformed = refl

abbrev pub stop_action : ControlAction
stop_action = stop_new_money_orders locked_snapshot

abbrev pending_world : World
pending_world = record initial_world { app = begin_run showing }

undecodable_cookie-stuck_example :
    let w = record pending_world {
      app =
          finish_run
            (apply_control undecodable (some malformed) stop_action service)
            (begin_run showing);
    } in
    (w.app.pending ≡ true) × (clickable locked_snapshot w.app.pending ≡ [])
unfolding window
undecodable_cookie-stuck_example =
    undecodable_cookie-stuck undecodable (some malformed) stop_action service pending_world _
      locked_snapshot cookie-malformed refl same
