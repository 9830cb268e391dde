-- ===== src/Derive/Events.antt =====
-- The derivations of ui/src/derive.ts about activity events and suspected direct callers.
use Prim.Native.String.{count}
use throttle_deck.Base.{
  zero, suc, String, Bool, true, false, not, Option, none, some, List, [], ◌∷◌, ◌==◌, ◌||◌, ◌&&◌,
  if◌then◌else◌, is_null, find?, any, template,
}
use throttle_deck.Platform.{Platform, lit}
use throttle_deck.Contracts.{Severity, Budget, ActivityEvent, GovernorSnapshot}
use throttle_deck.Derive.Copy.{Tone, possible_direct_caller, unknown_value}

-- What a lookup in `CONTROL_EVENT_TITLES` gives: a text, or a member of `Object.prototype`, which is
-- no text.
pub data EventTitle : Type 0 where
  text : String → EventTitle
  inherited : String → EventTitle

abbrev pub control_event_titles : List (String × String)
control_event_titles =
    ("broker-started", "Broker started")
    ∷ ("access-policy", "Access policy")
    ∷ ("application-started", "Application started")
    ∷ ("possible-direct-caller", possible_direct_caller)
    ∷ ("control-change", "Access policy")
    ∷ ("storage-paused", "History paused")
    ∷ ("restart", "Broker started")
    ∷ ("broker-update-required", "Broker update required")
    ∷ []

-- The names that every object literal inherits.
abbrev pub object_prototype_names : List String
object_prototype_names =
    "constructor" ∷ "__defineGetter__" ∷ "__defineSetter__" ∷ "hasOwnProperty" ∷ "__lookupGetter__"
    ∷ "__lookupSetter__" ∷ "isPrototypeOf" ∷ "propertyIsEnumerable" ∷ "toString" ∷ "valueOf"
    ∷ "__proto__" ∷ "toLocaleString" ∷ []

unfoldable pub lookup_title : String → List (String × String) → Option String
lookup_title k [] = none
lookup_title k ((j, t) ∷ rest) = if j == k then some t else lookup_title k rest

unfoldable pub is_inherited : String → Bool
is_inherited kind = any (λ name. name == kind) object_prototype_names

abbrev pub title_or : Option String → Bool → String → EventTitle
title_or (some known) is_member kind = text known
title_or none is_member kind = if is_member then inherited kind else text kind

unfoldable pub event_title : ActivityEvent → EventTitle
event_title event =
    title_or (lookup_title event.kind control_event_titles) (is_inherited event.kind) event.kind

abbrev is_pressing : Severity → Bool
is_pressing Severity.info = false
is_pressing Severity.warning = true
is_pressing Severity.critical = true

unfoldable pub is_high_priority_event : ActivityEvent → Bool
is_high_priority_event event = is_pressing event.severity

unfoldable pub severity_tone : Severity → Tone
severity_tone Severity.critical = Tone.critical
severity_tone Severity.warning = Tone.warning
severity_tone Severity.info = Tone.healthy

-- the test of `possibleDirectCallerEvent`
abbrev pub flags_direct_caller : ActivityEvent → Bool
flags_direct_caller event = event.kind == "possible-direct-caller" && is_high_priority_event event

-- `${value}`.padStart(2, "0")
abbrev pad_start_2 : String → String
pad_start_2 s = elim (count s) [
  | zero ↦ template ("00" ∷ s ∷ [])
  | suc n ↦ elim n [ zero ↦ template ("0" ∷ s ∷ []) | suc _ ↦ s ]
]

module _ ⦃P : Platform⦄ where
  -- the test of `hasHeadroomDeltaAlert`
  abbrev pub throttled_with_room : Budget → Bool
  throttled_with_room budget = elim budget.throttled_with_headroom_delta [
    | none ↦ false
    | some delta ↦ P.lt (lit 0) delta
  ]

  unfoldable pub has_headroom_delta_alert : GovernorSnapshot → Bool
  has_headroom_delta_alert snapshot = any throttled_with_room snapshot.budgets

  unfoldable pub possible_direct_caller_event : GovernorSnapshot → Option ActivityEvent
  unfolding is_high_priority_event
  possible_direct_caller_event snapshot = find? flags_direct_caller snapshot.activity

  unfoldable pub direct_caller_alert : GovernorSnapshot → Bool
  unfolding has_headroom_delta_alert possible_direct_caller_event
  direct_caller_alert snapshot =
      has_headroom_delta_alert snapshot || not (is_null (possible_direct_caller_event snapshot))

  unfoldable pub latest_high_priority_event : GovernorSnapshot → Option ActivityEvent
  unfolding possible_direct_caller_event is_high_priority_event
  latest_high_priority_event snapshot = elim (possible_direct_caller_event snapshot) [
    | some possible ↦ some possible
    | none ↦ find? is_high_priority_event snapshot.activity
  ]

  unfoldable pub format_clock : String → String
  format_clock iso =
      let parsed = P.date_parse iso in
      if P.is_nan parsed
      then unknown_value
      else template (
          pad_start_2 (P.show (P.hours parsed))
          ∷ ":"
          ∷ pad_start_2 (P.show (P.minutes parsed))
          ∷ ":"
          ∷ pad_start_2 (P.show (P.seconds parsed))
          ∷ [])
