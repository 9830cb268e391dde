-- ===== src/App/Entitled.antt =====
-- What entitles ui/src/App.tsx to submit an action, for its free and its confirmed actions.
use throttle_deck.Base.{
  ◌≡◌, ◌≢◌, refl, ◌⊎◌, inl, inr, String, Bool, true, false, Option, none, some, arith, Option-cases,
  eq_iff,
}
use mathlib.Core.List.{Memᴰ}
use throttle_deck.Platform.{Platform}
use throttle_deck.Contracts.{AppRow, GovernorSnapshot}
use throttle_deck.Api.{ControlAction, ControlKind, ActionName}
use throttle_deck.Components.{
  RowButton, row_button, ConfirmKind, ConfirmRequest, DialogState, click_confirm, StripButton,
  clickable,
}
use throttle_deck.App.State.{AppState}
use throttle_deck.App.Handlers.{confirmed_action}
use throttle_deck.App.Invariant.{Asks}

module _ ⦃P : Platform⦄ where
  -- A dialog of this kind is open, and the inputs that were clicked through have its phrase, exactly.
  pub record Confirmed (s : AppState) (clicked : Option DialogState) (kind : ConfirmKind)
      : Type 0 where
    pub request : ConfirmRequest
    pub dialog : DialogState
    pub is_clicked : clicked ≡ some dialog
    pub is_open : s.confirm_request ≡ some request
    pub same_kind : request.kind ≡ kind
    pub typed : request.phrase ≡ some dialog.phrase

  -- What entitles the window, in this state, to submit an action, given the inputs of the dialog
  -- that the operator clicked to confirm, if it was such a click.
  pub record Authorised (s : AppState) (clicked : Option DialogState) (a : ControlAction)
      : Type 0 where
    pub shown : GovernorSnapshot
    pub is_shown : s.snapshot ≡ some shown
    pub revision : a.expected_revision ≡ shown.revision
    -- no other action is pending
    pub idle : s.pending ≡ false
    pub unlocks :
        a.action ≡ ActionName.unlock
        → (c : Confirmed s clicked ConfirmKind.unlock) × (P.trim c.dialog.reason ≢ "")
          × (a.reason ≡ some (P.trim c.dialog.reason))
    pub stops_all :
        a.action ≡ ActionName.stop
        → a.kind ≡ ControlKind.broker_access
        → a.app_id ≡ none
        → (c : Confirmed s clicked ConfirmKind.stop_all) × (c.dialog.phrase ≡ "STOP ALL")

  pub clickable-idle :
      (g : GovernorSnapshot) (pending : Bool) (b : StripButton)
      → Memᴰ b (clickable g pending)
      → pending ≡ false
  unfolding clickable
  clickable-idle g false b m = refl
  clickable-idle g true b m = elim m [ ]

  pub row_button-idle :
      (app : AppRow) (pending : Bool) (b : RowButton)
      → row_button app pending ≡ some b
      → pending ≡ false
  unfolding row_button
  row_button-idle app false b e = refl
  row_button-idle app true b e = cc

  pub click_confirm-facts :
      (r : ConfirmRequest) (pending : Bool) (d : DialogState) (reason : String)
      → click_confirm r pending d ≡ some reason
      → (pending ≡ false)
        × (reason ≡ P.trim d.reason)
        × ((r.phrase ≡ none) ⊎ (r.phrase ≡ some d.phrase))
        × (r.reason_required ≡ true → P.trim d.reason ≢ "")
  unfolding click_confirm
  click_confirm-facts r pending d reason h = (
    ground arith,
    ground arith,
    elim (Option-cases r.phrase) [
      | inl free ↦ inl free
      | inr (phrase, asked) ↦ inr (ground (arith, eq_iff d.phrase phrase))
    ],
    ground (arith, eq_iff (P.trim d.reason) ""),
  )

  -- An action that needs no confirmation.
  abbrev pub IsFree : ControlAction → Type 0
  IsFree a =
      (a.action ≢ ActionName.unlock)
      × (a.action ≡ ActionName.stop → a.kind ≢ ControlKind.broker_access)

  pub free-Authorised :
      (g : GovernorSnapshot) (s : AppState) (clicked : Option DialogState) (a : ControlAction)
      → s.snapshot ≡ some g
      → s.pending ≡ false
      → a.expected_revision ≡ g.revision
      → IsFree a
      → Authorised s clicked a
  free-Authorised g s clicked a e i r f = record {
    shown = g;
    is_shown = e;
    revision = r;
    idle = i;
    unlocks = λ u. absurd (f.0 u);
    stops_all = λ t k _. absurd (f.1 t k);
  }

  typed_phrase :
      (o : Option String) (p : String) → (o ≡ none) ⊎ (o ≡ some p) → o ≢ none → o ≡ some p
  typed_phrase o p h ne = ground arith

  pub confirmed_action-Authorised :
      (g : GovernorSnapshot) (s : AppState) (r : ConfirmRequest) (d : DialogState) (reason : String)
      → s.snapshot ≡ some g
      → s.confirm_request ≡ some r
      → Asks (some r)
      → click_confirm r s.pending d ≡ some reason
      → Authorised s (some d) (confirmed_action g r reason)
  unfolding confirmed_action
  confirmed_action-Authorised g s r d reason e o asks c =
      let (idle, same, phrase, needed) = click_confirm-facts r s.pending d reason c in
      record {
        shown = g;
        is_shown = e;
        revision = ground arith;
        idle = idle;
        unlocks = λ u.
            let is_unlock : r.kind ≡ ConfirmKind.unlock = ground arith in
            let (must, asked) = asks.0 is_unlock in
            (
              record {
                request = r;
                dialog = d;
                is_clicked = refl;
                is_open = o;
                same_kind = is_unlock;
                typed = typed_phrase r.phrase d.phrase phrase asked;
              },
              needed must,
              ground arith,
            );
        stops_all = λ t k n.
            let is_all : r.kind ≡ ConfirmKind.stop_all = ground arith in
            let asked : r.phrase ≡ some "STOP ALL" = asks.1 is_all in
            let typed : r.phrase ≡ some d.phrase =
              typed_phrase r.phrase d.phrase phrase (λ z. cc (asked, z)) in
            (
              record {
                request = r;
                dialog = d;
                is_clicked = refl;
                is_open = o;
                same_kind = is_all;
                typed = typed;
              },
              cc (typed, asked),
            );
      }
