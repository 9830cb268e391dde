-- ===== src/Api/Bodies.antt =====
-- What the service reads in the body of a control action of ui/src/api.ts.
use throttle_deck.Base.{
  ◌≡◌, subst, true, false, Bool-cases, inl, inr, String, Option, none, some, ◌==◌, eq_iff,
  if◌then◌else◌, arith,
}
use throttle_deck.Platform.{Platform}
use throttle_deck.Json.{Value, str, num, undefined, get}
use throttle_deck.Api.Control.{ControlAction, action_body}

module _ ⦃P : Platform⦄ where
  -- a text, undefined where there is none
  abbrev pub text_value : Option String → Value
  text_value none = undefined
  text_value (some t) = str t

  -- what the body says under a key
  abbrev pub said : ControlAction → String → Value
  said a key =
      if "expected_revision" == key
      then num a.expected_revision
      else if "reason" == key
      then text_value a.reason
      else if "confirmation" == key
      then text_value a.confirmation
      else undefined

  Says : ControlAction → String → Type 0
  Says a key = get key (action_body a) ≡ said a key

  revision-Says : (a : ControlAction) → Says a "expected_revision"
  unfolding Says action_body
  revision-Says a = ground arith

  reason-Says : (a : ControlAction) → Says a "reason"
  unfolding Says action_body
  reason-Says a = ground arith

  confirmation-Says : (a : ControlAction) → Says a "confirmation"
  unfolding Says action_body
  confirmation-Says a = ground arith

  other-Says :
      (a : ControlAction) (key : String)
      → ("expected_revision" == key) ≡ false
      → ("reason" == key) ≡ false
      → ("confirmation" == key) ≡ false
      → Says a key
  unfolding Says action_body
  other-Says a key not_revision not_reason not_confirmation = ground arith

  known-Says :
      (a : ControlAction) (known key : String) → (known == key) ≡ true → Says a known → Says a key
  known-Says a known key e says = subst (Says a) ((eq_iff known key).0 e) says

  -- The service reads in the body of a control action exactly what the action says: the revision, and
  -- the reason and the confirmation where the action has one, and nothing under any other key.
  pub get-action_body : (a : ControlAction) (key : String) → get key (action_body a) ≡ said a key
  unfolding Says
  get-action_body a key = elim (Bool-cases ("expected_revision" == key)) [
    | inl e ↦ known-Says a _ key e (revision-Says a)
    | inr not_revision ↦ elim (Bool-cases ("reason" == key)) [
      | inl e ↦ known-Says a _ key e (reason-Says a)
      | inr not_reason ↦ elim (Bool-cases ("confirmation" == key)) [
        | inl e ↦ known-Says a _ key e (confirmation-Says a)
        | inr not_confirmation ↦ other-Says a key not_revision not_reason not_confirmation
      ]
    ]
  ]
