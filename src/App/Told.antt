-- ===== src/App/Told.antt =====
-- What the page of ui/src/App.tsx tells the operator: its errors, and what a stop covers.
use mathlib.Core.List.{Memᴰ}
use mathlib.Core.List.Memᴰ.{append_left, append_right, append_cases}
use throttle_deck.Base.{
  ◌≡◌, refl, sym, subst, String, List, [], ◌∷◌, ◌++◌, Option, none, some, map, is_empty, inl, inr,
  if◌then◌else◌,
}
use throttle_deck.Platform.{Platform}
use throttle_deck.Markup.{Node, texts, child_texts, children, plain, shown_for}
use throttle_deck.Contracts.{GovernorSnapshot, SnapshotProblem, AppRow}
use throttle_deck.Components.{ConfirmRequest, confirm_dialog, affected_list, problem_panel}
use throttle_deck.App.State.{AppState}
use throttle_deck.App.Requests.{app_stop_request, stop_all_request}
use throttle_deck.App.Handlers.{find_app, open_confirm, on_stop_app, on_stop_all_access}
use throttle_deck.App.Page.{
  PageEvent, View, control_notice, stale_notice, body_of, shown_sample, shown_empty, dialog_node,
  dialog_handlers, page,
}

-- Each text of a list of texts is shown.
listed :
    (E : Type 0) (labels : List String) (t : String)
    → Memᴰ t labels
    → Memᴰ t (child_texts {E = E} (children (map (plain "li") labels)))
unfolding texts
listed E [] t m = elim m [ ]
listed E (x ∷ labels) t (Memᴰ.head e) = Memᴰ.head e
listed E (x ∷ labels) t (Memᴰ.tail later) = Memᴰ.tail (listed E labels t later)

module _ {E : Type 0} where
  -- The text of one node is among those of a list that has it.
  within :
      (n : Node E) (ns : List (Node E)) (t : String)
      → Memᴰ n ns
      → Memᴰ t (texts n)
      → Memᴰ t (child_texts (children ns))
  unfolding texts
  within n [] t i m = elim i [ ]
  within n (x ∷ xs) t (Memᴰ.head e) m = append_left _ (subst (λ y. Memᴰ t (texts y)) e m)
  within n (x ∷ xs) t (Memᴰ.tail later) m = append_right (texts x) (within n xs t later m)

abbrev pub as_list : Option String → List String
as_list none = []
as_list (some t) = t ∷ []

abbrev pub problem_messages : Option SnapshotProblem → List String
problem_messages none = []
problem_messages (some p) = p.message ∷ []

module _ ⦃P : Platform⦄ where
  -- The messages of what went wrong.
  abbrev pub errors : AppState → List String
  errors s = as_list s.control_error ++ problem_messages s.problem

module _ ⦃P : Platform⦄ where
  affected_text :
      (E : Type 0) (labels : List String) (t : String)
      → Memᴰ t labels
      → Memᴰ t (texts {E = E} (affected_list labels))
  unfolding texts
  affected_text E [] t m = elim m [ ]
  affected_text E (x ∷ labels) t m = Memᴰ.tail (append_left _ (listed E (x ∷ labels) t m))

module _ ⦃P : Platform⦄ (s : AppState) (view : View) where
  in_page :
      (n : Node PageEvent) (t : String)
      → Memᴰ n (body_of s.snapshot s view ++ dialog_node s view ∷ [])
      → Memᴰ t (texts n)
      → Memᴰ t (texts (page s view))
  unfolding texts page
  in_page n t m told = within n _ t m told

  notice_member :
      (snapshot : Option GovernorSnapshot)
      → Memᴰ (control_notice s.control_error) (body_of snapshot s view)
  unfolding shown_empty shown_sample
  notice_member none = Memᴰ.tail (Memᴰ.head refl)
  notice_member (some g) = Memᴰ.tail (Memᴰ.tail (Memᴰ.head refl))

  -- Where the page tells of a problem: in a notice beside a snapshot, in a panel without one.
  problem_node : Option GovernorSnapshot → Node PageEvent
  problem_node none = shown_for s.problem (λ problem. problem_panel problem PageEvent.refresh)
  problem_node (some g) = stale_notice s.problem

  problem_member :
      (snapshot : Option GovernorSnapshot) → Memᴰ (problem_node snapshot) (body_of snapshot s view)
  unfolding shown_empty shown_sample problem_node
  problem_member none = Memᴰ.tail (Memᴰ.tail (Memᴰ.head refl))
  problem_member (some g) = Memᴰ.tail (Memᴰ.tail (Memᴰ.tail (Memᴰ.head refl)))

  notice_text :
      (error : Option String) (message : String)
      → Memᴰ message (as_list error)
      → Memᴰ message (texts (control_notice error))
  unfolding texts
  notice_text none message m = elim m [ ]
  notice_text (some shown) message m = m

  problem_text :
      (snapshot : Option GovernorSnapshot) (problem : Option SnapshotProblem) (message : String)
      → s.problem ≡ problem
      → Memᴰ message (problem_messages problem)
      → Memᴰ message (texts (problem_node snapshot))
  unfolding texts problem_node problem_panel
  problem_text snapshot none message e m = elim m [ ]
  problem_text none (some p) message e m =
      subst
        (λ problem.
          Memᴰ message (texts (shown_for problem (λ q. problem_panel q PageEvent.refresh))))
        (sym e) (append_left _ m)
  problem_text (some g) (some p) message e m =
      subst (λ problem. Memᴰ message (texts (stale_notice problem))) (sym e) (append_left _ m)

  -- The page hides no error: the message of a control action that was not applied, and that of the
  -- problem of the loads, are among its texts, beside a snapshot or without one.
  pub errors-texts :
      (message : String) → Memᴰ message (errors s) → Memᴰ message (texts (page s view))
  errors-texts message m = elim (append_cases (as_list s.control_error) m) [
    | inl refused ↦
        in_page _ message (append_left _ (notice_member s.snapshot))
          (notice_text s.control_error message refused)
    | inr problem ↦
        in_page _ message (append_left _ (problem_member s.snapshot))
          (problem_text s.snapshot s.problem message refl problem)
  ]

  asked_text :
      (request : ConfirmRequest) (label : String)
      → Memᴰ label request.affected
      → Memᴰ label (texts (confirm_dialog request s.pending none view.dialog dialog_handlers))
  unfolding texts confirm_dialog
  asked_text request label m =
      Memᴰ.tail (
        Memᴰ.tail
          (append_left _ (append_left _ (affected_text PageEvent request.affected label m))))

  dialog_text :
      (request : ConfirmRequest) (label : String)
      → s.confirm_request ≡ some request
      → Memᴰ label request.affected
      → Memᴰ label (texts (dialog_node s view))
  dialog_text request label e m =
      subst
        (λ (r : Option ConfirmRequest).
          Memᴰ label (
            texts (shown_for r (λ q. confirm_dialog q s.pending none view.dialog dialog_handlers))))
        (sym e) (asked_text request label m)

  pub asked-texts :
      (request : ConfirmRequest) (label : String)
      → s.confirm_request ≡ some request
      → Memᴰ label request.affected
      → Memᴰ label (texts (page s view))
  asked-texts request label e m =
      in_page _ label (append_right (body_of s.snapshot s view) (Memᴰ.head refl))
        (dialog_text request label e m)

module _ ⦃P : Platform⦄ (s : AppState) (view : View) (g : GovernorSnapshot) where
  named_callers :
      (name : String) (callers : List String) (label : String)
      → Memᴰ label callers
      → Memᴰ label (if is_empty callers then name ∷ [] else callers)
  named_callers name [] label m = elim m [ ]
  named_callers name (c ∷ callers) label m = m

  stop_app-asked :
      (app : AppRow)
      → find_app (some app.app_id) g ≡ some app
      → (on_stop_app g app.app_id s).confirm_request ≡ some (app_stop_request app)
  unfolding on_stop_app open_confirm
  stop_app-asked app found = rw (on_stop_app, found) refl

  -- If an application is the first of the snapshot's rows with its id, then asking to stop it makes the
  -- page list each of its caller labels.
  pub on_stop_app-texts :
      (app : AppRow) (label : String)
      → find_app (some app.app_id) g ≡ some app
      → Memᴰ label app.callers
      → Memᴰ label (texts (page (on_stop_app g app.app_id s) view))
  unfolding app_stop_request
  on_stop_app-texts app label found m =
      asked-texts _ view (app_stop_request app) label (stop_app-asked app found)
        (named_callers app.name app.callers label m)

  -- Who asks to stop all reads is shown the name of every application, and that unknown callers are
  -- covered.
  pub on_stop_all_access-texts :
      (label : String)
      → Memᴰ label (map (λ (app : AppRow). app.name) g.apps ++ "Unknown callers" ∷ [])
      → Memᴰ label (texts (page (on_stop_all_access g s) view))
  unfolding on_stop_all_access open_confirm stop_all_request
  on_stop_all_access-texts label m =
      asked-texts (on_stop_all_access g s) view (stop_all_request g) label refl m
