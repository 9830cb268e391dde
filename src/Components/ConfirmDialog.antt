-- ===== src/Components/ConfirmDialog.antt =====
-- ui/src/components/ConfirmDialog.tsx: the dialog and what it lets through.
use throttle_deck.Markup.{
  attr, flag, on_click, on_change, Node, text, el, fragment, class_name, classed, plain, shown_if,
  shown_for,
}
use throttle_deck.Platform.{Platform}
use throttle_deck.Base.{
  false, [], ◌∷◌, map, is_empty, template, true, String, Bool, Option, none, some, List, not, ◌||◌,
  ◌&&◌, ◌==◌, if◌then◌else◌,
}

pub data ConfirmKind : Type 0 where
  app_stop stop_all unlock : ConfirmKind

pub record ConfirmRequest : Type 0 where
  pub kind : ConfirmKind
  pub app_id : Option String
  pub title : String
  pub body : String
  pub affected : List String
  pub phrase : Option String
  pub reason_required : Bool
  pub confirm_label : String
  pub destructive : Bool

-- The two inputs of the dialog.
pub record DialogState : Type 0 where
  pub phrase : String
  pub reason : String

abbrev pub new_dialog : DialogState
new_dialog = record { phrase = ""; reason = "" }

abbrev phrase_matches : Option String → String → Bool
phrase_matches none typed = true
phrase_matches (some phrase) typed = typed == phrase

module _ ⦃P : Platform⦄ where
  unfoldable pub can_confirm : ConfirmRequest → Bool → DialogState → Bool
  can_confirm request pending dialog =
      phrase_matches request.phrase dialog.phrase
      && (not request.reason_required || not (P.trim dialog.reason == ""))
      && not pending

  -- A click on the confirming button, with what `onConfirm` is given; none on a disabled button.
  unfoldable pub click_confirm : ConfirmRequest → Bool → DialogState → Option String
  unfolding can_confirm
  click_confirm request pending dialog =
      if can_confirm request pending dialog then some (P.trim dialog.reason) else none

  -- What the dialog makes happen: its own two inputs, and the handlers that it is given.
  pub record DialogHandlers (E : Type 0) : Type 0 where
    pub set_phrase : String → E
    pub set_reason : String → E
    pub on_cancel : E
    pub on_confirm : String → E

  -- the listener for keys
  unfoldable pub on_key_down : {E : Type 0} → DialogHandlers E → String → List E
  on_key_down handler key = if key == "Escape" then handler.on_cancel ∷ [] else []

  abbrev labelled : {E : Type 0} → String → Node E → Node E
  labelled label input =
      el "label" (class_name "dialog__field" ∷ [])
        (el "span" (class_name "dialog__label" ∷ []) (text label ∷ []) ∷ input ∷ [])

  -- what the action covers
  abbrev pub affected_list : {E : Type 0} → List String → Node E
  affected_list affected = shown_if (not (is_empty affected)) (
      fragment (
        classed "h3" "dialog__label" "Affected"
        ∷ el "ul" (class_name "dialog__list" ∷ []) (map (plain "li") affected)
        ∷ []))

  -- `ConfirmDialog`
  unfoldable pub confirm_dialog :
      {E : Type 0} → ConfirmRequest → Bool → Option String → DialogState → DialogHandlers E → Node E
  unfolding can_confirm
  confirm_dialog request pending error dialog handler = el "div" (class_name "backdrop" ∷ []) (
      el "div"
        (class_name "dialog"
          ∷ attr "role" "dialog"
          ∷ attr "aria-modal" "true"
          ∷ attr "aria-labelledby" "confirm-title"
          ∷ [])
        (el "h2" (class_name "dialog__title" ∷ attr "id" "confirm-title" ∷ [])
            (text request.title ∷ [])
          ∷ classed "p" "dialog__body" request.body
          ∷ affected_list request.affected
          ∷ shown_if request.reason_required (
              labelled "Reason" (
                el "textarea"
                  (class_name "dialog__input"
                    ∷ attr "value" dialog.reason
                    ∷ attr "rows" "2"
                    ∷ on_change handler.set_reason
                    ∷ [])
                  []))
          ∷ shown_for request.phrase (λ phrase.
            labelled (template ("Type " ∷ phrase ∷ " to confirm" ∷ [])) (
              el "input"
                (class_name "dialog__input"
                  ∷ attr "type" "text"
                  ∷ attr "value" dialog.phrase
                  ∷ attr "autoComplete" "off"
                  ∷ flag "spellCheck" false
                  ∷ on_change handler.set_phrase
                  ∷ [])
                []))
          ∷ shown_for error (λ message.
            el "p" (class_name "dialog__error" ∷ attr "role" "alert" ∷ []) (text message ∷ []))
          ∷ el "div" (class_name "dialog__actions" ∷ []) (
              el "button"
                (attr "type" "button"
                  ∷ class_name "btn btn--quiet"
                  ∷ on_click handler.on_cancel
                  ∷ [])
                (text "Cancel" ∷ [])
              ∷ el "button"
                  (attr "type" "button"
                    ∷ class_name
                        (if request.destructive then "btn btn--danger" else "btn btn--accent")
                    ∷ on_click (handler.on_confirm (P.trim dialog.reason))
                    ∷ flag "disabled" (not (can_confirm request pending dialog))
                    ∷ [])
                  (text request.confirm_label ∷ [])
              ∷ [])
          ∷ [])
      ∷ [])
