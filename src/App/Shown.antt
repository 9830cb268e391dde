-- ===== src/App/Shown.antt =====
-- What ui/src/App.tsx shows, whatever the service answers and in whatever order.
use throttle_deck.Base.{
  ◌≡◌, refl, sym, ◌∙◌, ◌⊎◌, inl, inr, ap, subst, some_inj, ℕ, String, Bool, Option, none, some,
  arith, Option-cases, Bool-cases, ◌=ℕ=◌,
}
use throttle_deck.Platform.{Platform, Laws}
use throttle_deck.Json.{Value, undefined, obj}
use throttle_deck.Contracts.{GovernorSnapshot, SnapshotParse, ok, not_ok}
use throttle_deck.Contracts.WellFormed.{IsSnapshot}
use throttle_deck.Contracts.Accepted.{parse_snapshot-IsSnapshot}
use throttle_deck.Api.{
  Codes, Outcome, value, thrown, ControlResult, load_snapshot, apply_control,
  snapshot_from_response_body,
}
use throttle_deck.Api.Answers.{load_snapshot-ok_iff, control_response-snapshot, apply_control_inv}
use throttle_deck.App.State.{AppState, begin_load, finish_load, finish_run}
use throttle_deck.App.Handlers.{
  Submits, cancel_confirm, confirm, on_stop_new_money_orders, on_unlock, on_stop_all_access,
  on_resume_all_access, on_toggle_detail, on_stop_app, on_resume_app,
}
use throttle_deck.App.Steps.{
  World, submit, Step, start_load, answer_load, answer_run, stop_orders, ask_unlock, ask_stop_all,
  resume_all, ask_stop_app, resume_app, toggle_detail, cancel, confirm_request, Reach, here, next,
}

module _ ⦃P : Platform⦄ where
  finish_load-snapshot :
      (load_id : ℕ) (manual : Bool) (result : SnapshotParse) (s : AppState)
      → ((finish_load load_id manual result s).snapshot ≡ s.snapshot)
        ⊎ ((g : GovernorSnapshot) × (result ≡ ok g)
            × (load_id ≡ s.latest_load)
            × ((finish_load load_id manual result s).snapshot ≡ some g))
  unfolding finish_load
  finish_load-snapshot load_id manual (not_ok p) s = inl (ground arith)
  finish_load-snapshot load_id manual (ok g) s = elim (Bool-cases (load_id =ℕ= s.latest_load)) [
    | inl current ↦ inr (g, refl, ground (arith, current), ground arith)
    | inr superseded ↦ inl (ground arith)
  ]

  finish_run-snapshot :
      (result : Outcome ControlResult) (s : AppState)
      → ((finish_run result s).snapshot ≡ s.snapshot)
        ⊎ ((g : GovernorSnapshot) × (r : ControlResult) × (result ≡ value r)
            × (r.snapshot ≡ some g)
            × ((finish_run result s).snapshot ≡ some g))
  unfolding finish_run
  finish_run-snapshot thrown s = inl refl
  finish_run-snapshot (value r) s = elim (Option-cases r.snapshot) [
    | inl missing ↦ inl (ground arith)
    | inr (g, carried) ↦ inr (g, r, refl, carried, ground arith)
  ]

  submit-snapshot :
      (w : World) (r : Submits)
      → r.0.snapshot ≡ w.app.snapshot
      → (submit w r).app.snapshot ≡ w.app.snapshot
  submit-snapshot w (s, none) e = e
  submit-snapshot w (s, some a) e = e

  confirm-snapshot : (reason : String) (s : AppState) → (confirm reason s).0.snapshot ≡ s.snapshot
  unfolding confirm
  confirm-snapshot reason s = ground arith

  on_stop_app-snapshot :
      (g : GovernorSnapshot) (app_id : String) (s : AppState)
      → (on_stop_app g app_id s).snapshot ≡ s.snapshot
  unfolding on_stop_app
  on_stop_app-snapshot g app_id s = ground arith

  module _ (decode : Codes → Option Codes) where
    -- The step is an answer that delivers this snapshot: that of the latest load, or that of an action
    -- in flight, each as the service of that step answers.
    pub Delivers : {w v : World} → Step decode w v → GovernorSnapshot → Type 0
    Delivers {w} (answer_load before l later fetcher e) g =
        (load_snapshot fetcher ≡ ok g) × (l.load_id ≡ w.app.latest_load)
    Delivers (answer_run before action later document fetcher e) g =
        (r : ControlResult) × (apply_control decode document action fetcher ≡ value r)
        × (r.snapshot ≡ some g)
    Delivers _ g = ⊥

    -- A step leaves the shown snapshot as it is, or it is an answer and shows the snapshot that it
    -- delivers: the answer of the latest load, or of an action in flight. No other step changes the
    -- snapshot, and none takes it away.
    pub Step-snapshot :
        {w v : World} (step : Step decode w v)
        → (v.app.snapshot ≡ w.app.snapshot)
          ⊎ ((g : GovernorSnapshot) × (v.app.snapshot ≡ some g) × Delivers step g)
    unfolding Delivers begin_load on_stop_new_money_orders on_unlock on_stop_all_access
        on_resume_all_access on_toggle_detail on_resume_app cancel_confirm
    Step-snapshot (start_load manual) = inl refl
    Step-snapshot {w} (answer_load before l later fetcher e) =
        elim (finish_load-snapshot l.load_id l.manual (load_snapshot fetcher) w.app) [
          | inl same ↦ inl same
          | inr (g, delivered, latest, shown) ↦ inr (g, shown, (delivered, latest))
        ]
    Step-snapshot {w} (answer_run before action later document fetcher e) =
        elim (finish_run-snapshot (apply_control decode document action fetcher) w.app) [
          | inl same ↦ inl same
          | inr (g, r, returned, carried, shown) ↦ inr (g, shown, (r, returned, carried))
        ]
    Step-snapshot {w} (stop_orders s e c) =
        inl (submit-snapshot w (on_stop_new_money_orders s w.app) refl)
    Step-snapshot (ask_unlock s e c) = inl refl
    Step-snapshot (ask_stop_all s e c) = inl refl
    Step-snapshot {w} (resume_all s e c) =
        inl (submit-snapshot w (on_resume_all_access s w.app) refl)
    Step-snapshot {w} (ask_stop_app s app e m c) = inl (on_stop_app-snapshot s app.app_id w.app)
    Step-snapshot {w} (resume_app s app e m c) =
        inl (submit-snapshot w (on_resume_app s app.app_id w.app) refl)
    Step-snapshot (toggle_detail app_id) = inl refl
    Step-snapshot cancel = inl refl
    Step-snapshot {w} (confirm_request request dialog reason e c) =
        inl (submit-snapshot w (confirm reason w.app) (confirm-snapshot reason w.app))

  module _ (laws : Laws P) where
    body-IsSnapshot :
        (v : Value) (g : GovernorSnapshot) → snapshot_from_response_body v ≡ ok g → IsSnapshot g
    unfolding snapshot_from_response_body
    body-IsSnapshot (obj body) g e = parse_snapshot-IsSnapshot laws _ g e
    body-IsSnapshot undefined g e = parse_snapshot-IsSnapshot laws undefined g e
    body-IsSnapshot v g e = parse_snapshot-IsSnapshot laws v g e

    Delivers-IsSnapshot :
        (decode : Codes → Option Codes) {w v : World} (step : Step decode w v)
        (g : GovernorSnapshot)
        → Delivers decode step g
        → IsSnapshot g
    unfolding Delivers
    Delivers-IsSnapshot decode (answer_load before l later fetcher _) g (e, latest) =
        let d = (load_snapshot-ok_iff fetcher g).0 e in
        parse_snapshot-IsSnapshot laws d.payload g d.accepted
    Delivers-IsSnapshot decode (answer_run before action later document fetcher _) g (r, e, c) =
        let (csrf, read, same) = apply_control_inv decode document action fetcher r e in
        let (response, answered, parsed) =
          control_response-snapshot _ g (ap (λ (x : ControlResult). x.snapshot) same ∙ c) in
        body-IsSnapshot _ g parsed
    Delivers-IsSnapshot decode _ g h = absurd h

    -- By the laws of the numbers, a snapshot that the window shows is well formed, whatever the
    -- service answers.
    pub Reach-IsSnapshot :
        (decode : Codes → Option Codes) {w : World}
        → Reach decode w
        → (g : GovernorSnapshot) → w.app.snapshot ≡ some g
        → IsSnapshot g
    Reach-IsSnapshot decode here g e = cc
    Reach-IsSnapshot decode (next {w} r st) g e = elim (Step-snapshot decode st) [
      | inl same ↦ Reach-IsSnapshot decode r g (sym same ∙ e)
      | inr (h, shown, delivered) ↦
          subst IsSnapshot (some_inj (sym shown ∙ e)) (Delivers-IsSnapshot decode st h delivered)
    ]
