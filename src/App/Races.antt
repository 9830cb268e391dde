-- ===== src/App/Races.antt =====
-- Answers that come late to ui/src/App.tsx, and an exception that none of its callbacks catches.
use throttle_deck.Base.{
  true-ne-false, ◌≡◌, refl, Bool, true, false, Option, some, List, [], ◌∷◌, ◌++◌, arith,
  All-take_out, if◌then◌else◌, ◌∙◌,
}
use throttle_deck.Platform.{Platform}
use throttle_deck.Contracts.{GovernorSnapshot, SnapshotParse, ok}
use throttle_deck.Api.{
  Codes, Document, Fetcher, value, thrown, ControlAction, apply_control, read_csrf_token,
}
use throttle_deck.Api.Answers.{applied_result}
use throttle_deck.Components.{clickable}
use throttle_deck.App.State.{AppState, begin_load, finish_load, begin_run, finish_run}
use throttle_deck.App.Steps.{
  Later, same, then_step, Load, World, Reach, Step, start_load, answer_load, answer_run,
  stop_orders, ask_unlock, ask_stop_all, resume_all, ask_stop_app, resume_app, toggle_detail,
  cancel, confirm_request,
}
use throttle_deck.App.Handlers.{cancel_confirm, on_unlock, on_stop_all_access, on_toggle_detail}
use throttle_deck.App.Busy.{finish_load-pending}
use throttle_deck.App.Entitled.{row_button-idle, clickable-idle, click_confirm-facts}
use throttle_deck.App.Invariant.{IsGivenOut, Reach-IsValid}
use throttle_deck.App.Ids.{Later-latest_load}
use throttle_deck.App.Loads.{finish_load_superseded}

module _ ⦃P : Platform⦄ where
  -- The world once another load has started.
  abbrev pub with_load : Bool → World → World
  with_load manual w = record w {
    app = begin_load manual w.app;
    loads = record { load_id = (begin_load manual w.app).latest_load; manual = manual } ∷ w.loads;
  }

  -- A load in flight, in a world that the window can reach, loses its say for good as soon as another
  -- load starts: in every world that may follow, whatever has been answered by then, its answer
  -- changes nothing but the refresh mark, which it clears if it was manual.
  pub late_answer :
      (decode : Codes → Option Codes) (w v : World) (before : List Load) (l : Load)
      (later : List Load) (manual : Bool) (result : SnapshotParse)
      → Reach decode w
      → w.loads ≡ before ++ l ∷ later
      → Later decode (with_load manual w) v
      → finish_load l.load_id l.manual result v.app
        ≡ record v.app { refreshing = if l.manual then false else v.app.refreshing }
  unfolding begin_load
  late_answer decode w v before l later manual result r e path =
      let known : IsGivenOut w.app.latest_load l =
        (All-take_out _ before l later (rw e at (Reach-IsValid decode r).given_out)).1 in
      let kept = Later-latest_load decode path in
      finish_load_superseded l.load_id l.manual result _ (omega arith)

  -- A load that started before a control action was applied, and is still the latest, replaces the
  -- committed snapshot by the one that it brings, whatever the revisions of the two.
  pub late_load-overwrites :
      (s : AppState) (manual : Bool) (g h : GovernorSnapshot)
      → let started = begin_load manual s in
        let committed = finish_run (value (applied_result h)) (begin_run started) in
        (committed.snapshot ≡ some h)
        × ((finish_load started.latest_load manual (ok g) committed).snapshot ≡ some g)
  unfolding begin_load begin_run finish_run finish_load
  late_load-overwrites s manual g h = (refl, ground arith)

  -- No action awaits its answer, and still the window is pending.
  pub record IsStuck (w : World) : Type 0 where
    pub pending : w.app.pending ≡ true
    pub unanswered : w.runs ≡ []

  not_append-cons :
      {A : Type 0} (xs : List A) (y : A) (ys zs : List A) → zs ≡ [] → zs ≡ xs ++ y ∷ ys → ⊥
  not_append-cons [] y ys zs e h = cc
  not_append-cons (x ∷ xs) y ys zs e h = cc

  module _ (decode : Codes → Option Codes) where
    Step-IsStuck : {w v : World} → Step decode w v → IsStuck w → IsStuck v
    unfolding begin_load on_unlock on_stop_all_access on_toggle_detail cancel_confirm
    Step-IsStuck (start_load manual) h = record { pending = h.pending; unanswered = h.unanswered }
    Step-IsStuck {w} (answer_load before l later fetcher e) h = record {
      pending = finish_load-pending l.load_id l.manual _ w.app ∙ h.pending;
      unanswered = h.unanswered;
    }
    Step-IsStuck {w} (answer_run before action later document fetcher e) h =
        absurd (not_append-cons before action later w.runs h.unanswered e)
    Step-IsStuck (stop_orders s e c) h = absurd (true-ne-false h.pending (clickable-idle s _ _ c))
    Step-IsStuck (ask_unlock s e c) h = absurd (true-ne-false h.pending (clickable-idle s _ _ c))
    Step-IsStuck (ask_stop_all s e c) h = absurd (true-ne-false h.pending (clickable-idle s _ _ c))
    Step-IsStuck (resume_all s e c) h = absurd (true-ne-false h.pending (clickable-idle s _ _ c))
    Step-IsStuck {w} (ask_stop_app s app e m c) h =
        absurd (true-ne-false h.pending (row_button-idle app _ _ c))
    Step-IsStuck (resume_app s app e m c) h =
        absurd (true-ne-false h.pending (row_button-idle app _ _ c))
    Step-IsStuck (toggle_detail app_id) h = record {
      pending = h.pending;
      unanswered = h.unanswered;
    }
    Step-IsStuck cancel h = record { pending = h.pending; unanswered = h.unanswered }
    Step-IsStuck (confirm_request request dialog reason e c) h =
        absurd (true-ne-false h.pending (click_confirm-facts request _ dialog reason c).0)

    Later-IsStuck : {w v : World} → Later decode w v → IsStuck w → IsStuck v
    Later-IsStuck same h = h
    Later-IsStuck (then_step l st) h = Step-IsStuck st (Later-IsStuck l h)

    -- Where the token's cookie cannot be decoded, the exception of a control action leaves the window
    -- pending in every world that may follow, if no other action awaits its answer. No button of
    -- the safety strip can be clicked again.
    pub undecodable_cookie-stuck :
        (document : Option Document) (action : ControlAction) (fetcher : Fetcher) (w v : World)
        (g : GovernorSnapshot)
        → read_csrf_token decode document ≡ thrown
        → w.app.pending ≡ true
        → Later decode
            (record w {
              app = finish_run (apply_control decode document action fetcher) w.app;
              runs = [];
            })
            v
        → (v.app.pending ≡ true) × (clickable g v.app.pending ≡ [])
    unfolding apply_control finish_run clickable
    undecodable_cookie-stuck document action fetcher w v g e p l =
        let stuck =
          Later-IsStuck l
            (record { pending = rw (e, apply_control, finish_run) p; unanswered = refl }) in
        (stuck.pending, rw stuck.pending refl)
