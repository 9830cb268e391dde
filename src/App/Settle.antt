-- ===== src/App/Settle.antt =====
-- How ui/src/App.tsx comes to rest: the answers to everything that it has in flight.
use throttle_deck.Base.{
  ◌≤◌, ◌≡◌, ◌≢◌, refl, ◌∙◌, sym, true, false, Option, List, [], ◌∷◌, arith, length, Bool-cases, inl,
  inr,
}
use throttle_deck.Platform.{Platform}
use throttle_deck.Api.{
  Codes, Document, Fetcher, value, ControlAction, ControlResult, apply_control, load_snapshot,
  read_csrf_token, control_response, control_request,
}
use throttle_deck.App.State.{AppState, finish_load, finish_run}
use throttle_deck.App.Steps.{
  Load, World, Step, answer_load, answer_run, Reach, next, Later, same, then_step,
}
use throttle_deck.App.Busy.{IsBusy, Reach-IsBusy, finish_load-pending}
use throttle_deck.App.Races.{IsStuck}

module _ ⦃P : Platform⦄ where
  -- The window once a service has answered these loads, first to last.
  pub loads_answered : Fetcher → List Load → AppState → AppState
  loads_answered fetcher [] s = s
  loads_answered fetcher (l ∷ ls) s =
      loads_answered fetcher ls (finish_load l.load_id l.manual (load_snapshot fetcher) s)

  loads_answered-pending :
      (fetcher : Fetcher) (ls : List Load) (s : AppState)
      → (loads_answered fetcher ls s).pending ≡ s.pending
  unfolding loads_answered
  loads_answered-pending fetcher [] s = refl
  loads_answered-pending fetcher (l ∷ ls) s =
      loads_answered-pending fetcher ls _ ∙ finish_load-pending l.load_id l.manual _ s

  finish_run-idle :
      (result : ControlResult) (s : AppState) → (finish_run (value result) s).pending ≡ false
  unfolding finish_run
  finish_run-idle result s = ground arith

  module _ (decode : Codes → Option Codes) where
    -- The window once these actions have been answered, first to last.
    pub runs_answered : Option Document → Fetcher → List ControlAction → AppState → AppState
    runs_answered document fetcher [] s = s
    runs_answered document fetcher (a ∷ as_left) s =
        runs_answered document fetcher as_left
          (finish_run (apply_control decode document a fetcher) s)

    -- The world once everything in flight has been answered, the loads first.
    pub settled : Option Document → Fetcher → World → World
    settled document fetcher w = record w {
      app = runs_answered document fetcher w.runs (loads_answered fetcher w.loads w.app);
      loads = [];
      runs = [];
    }

    Later-Step : {u v w : World} → Step decode u v → Later decode v w → Later decode u w
    Later-Step st same = then_step same st
    Later-Step st (then_step l last) = then_step (Later-Step st l) last

    Later-trans : {u v w : World} → Later decode u v → Later decode v w → Later decode u w
    Later-trans l same = l
    Later-trans l (then_step m last) = then_step (Later-trans l m) last

    Later-Reach : {v w : World} → Later decode v w → Reach decode v → Reach decode w
    Later-Reach same r = r
    Later-Reach (then_step l st) r = next (Later-Reach l r) st

    loads-Later :
        (fetcher : Fetcher) (s : AppState) (ls : List Load) (runs submitted : List ControlAction)
        → Later decode
            (record { app = s; loads = ls; runs = runs; submitted = submitted })
            (record {
              app = loads_answered fetcher ls s;
              loads = [];
              runs = runs;
              submitted = submitted;
            })
    unfolding loads_answered
    loads-Later fetcher s [] runs submitted = same
    loads-Later fetcher s (l ∷ ls) runs submitted = Later-Step (answer_load [] l ls fetcher refl) (
        loads-Later fetcher (finish_load l.load_id l.manual (load_snapshot fetcher) s) ls runs
          submitted)

    runs-Later :
        (document : Option Document) (fetcher : Fetcher) (s : AppState) (ls : List Load)
        (runs submitted : List ControlAction)
        → Later decode
            (record { app = s; loads = ls; runs = runs; submitted = submitted })
            (record {
              app = runs_answered document fetcher runs s;
              loads = ls;
              runs = [];
              submitted = submitted;
            })
    unfolding runs_answered
    runs-Later document fetcher s ls [] submitted = same
    runs-Later document fetcher s ls (a ∷ runs) submitted =
        Later-Step (answer_run [] a runs document fetcher refl) (
          runs-Later document fetcher (finish_run (apply_control decode document a fetcher) s) ls
            runs submitted)

    settled-Later :
        (document : Option Document) (fetcher : Fetcher) (w : World)
        → Later decode w (settled document fetcher w)
    unfolding settled
    settled-Later document fetcher w =
        Later-trans (loads-Later fetcher w.app w.loads w.runs w.submitted)
          (runs-Later document fetcher _ [] w.runs w.submitted)

    apply_control-value :
        (document : Option Document) (csrf : Option Codes) (a : ControlAction) (fetcher : Fetcher)
        → read_csrf_token decode document ≡ value csrf
        → (r : ControlResult) × (apply_control decode document a fetcher ≡ value r)
    unfolding apply_control
    apply_control-value document csrf a fetcher e =
        (control_response (fetcher (control_request csrf a)), rw (e, apply_control) refl)

    runs_answered-idle :
        (document : Option Document) (csrf : Option Codes) (fetcher : Fetcher)
        (runs : List ControlAction) (s : AppState)
        → read_csrf_token decode document ≡ value csrf
        → length runs ≤ 1
        → (s.pending ≡ true → runs ≢ [])
        → (runs_answered document fetcher runs s).pending ≡ false
    unfolding runs_answered
    runs_answered-idle document csrf fetcher [] s e h p = elim (Bool-cases s.pending) [
      | inl pending ↦ absurd (p pending refl)
      | inr idle ↦ idle
    ]
    runs_answered-idle document csrf fetcher (a ∷ []) s e h p =
        let (r, answered) = apply_control-value document csrf a fetcher e in
        rw answered (finish_run-idle r s)
    runs_answered-idle document csrf fetcher (a ∷ b ∷ runs) s e h p = absurd (omega arith)

    settled-refreshing : (w : World) → IsBusy w → w.loads ≡ [] → w.app.refreshing ≡ false
    settled-refreshing w h e = elim (Bool-cases w.app.refreshing) [
      | inl marked ↦ absurd (ground (arith, h.refresh marked))
      | inr clear ↦ clear
    ]

    -- On a page whose token can be read, a window comes to rest unless it is stuck, which is to be
    -- pending with no action in flight: once a service has answered what is in flight, the loads
    -- first, a world is reached in which nothing is in flight and the window is neither pending nor
    -- refreshing, and nothing more was submitted.
    pub settled_lem :
        (w : World) (document : Option Document) (csrf : Option Codes) (fetcher : Fetcher)
        → Reach decode w
        → read_csrf_token decode document ≡ value csrf
        → (IsStuck w → ⊥)
        → let v = settled document fetcher w in
          Later decode w v
          × (v.loads ≡ [])
          × (v.runs ≡ [])
          × (v.app.pending ≡ false)
          × (v.app.refreshing ≡ false)
          × (v.submitted ≡ w.submitted)
    unfolding settled
    settled_lem w document csrf fetcher reached e free =
        let path = settled-Later document fetcher w in
        let busy = Reach-IsBusy decode reached in
        (
          path,
          refl,
          refl,
          runs_answered-idle document csrf fetcher w.runs _ e busy.single (λ p none_left.
              free (record {
                pending = sym (loads_answered-pending fetcher w.loads w.app) ∙ p;
                unanswered = none_left;
              })),
          settled-refreshing (settled document fetcher w)
              (Reach-IsBusy decode (Later-Reach path reached)) refl,
          refl,
        )
