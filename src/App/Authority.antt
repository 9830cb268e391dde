-- ===== src/App/Authority.antt =====
-- What an operator must have done before ui/src/App.tsx submits an action.
use throttle_deck.Base.{
  some_inj, subst, All-mono, ◌∷◌, ◌≡◌, refl, inl, inr, String, false, Option, none, some, arith,
  All, Option-cases,
}
use throttle_deck.Platform.{Platform}
use throttle_deck.Contracts.{GovernorSnapshot}
use throttle_deck.Api.{stop_new_money_orders, resume_broker_access, Codes, ControlAction}
use throttle_deck.Components.{ConfirmRequest, DialogState, click_confirm}
use throttle_deck.App.State.{AppState}
use throttle_deck.App.Handlers.{
  Submits, confirm, confirmed_action, on_stop_new_money_orders, on_resume_all_access, on_resume_app,
}
use throttle_deck.App.Steps.{
  dialog_of, Later, same, then_step, World, submit, Step, stop_orders, resume_all, resume_app,
  confirm_request, Reach, here, next,
}
use throttle_deck.App.Entitled.{
  Authorised, clickable-idle, row_button-idle, IsFree, free-Authorised, confirmed_action-Authorised,
}
use throttle_deck.App.Invariant.{Asks, Reach-IsValid}

module _ ⦃P : Platform⦄ where
  confirm_inv :
      (s : AppState) (r : ConfirmRequest) (reason : String) (a : ControlAction)
      → s.confirm_request ≡ some r
      → (confirm reason s).1 ≡ some a
      → (g : GovernorSnapshot) × (s.snapshot ≡ some g) × (confirmed_action g r reason ≡ a)
  unfolding confirm
  confirm_inv s r reason a o h = elim (Option-cases s.snapshot) [
    | inl missing ↦ ground arith
    | inr (g, shown) ↦ (g, shown, some_inj (rw (shown, o) at h))
  ]

  module _ (decode : Codes → Option Codes) where
    -- An earlier step of the run submitted the action, from a state that entitled the window to it by
    -- what was typed in the dialog of that very step.
    pub record WasAuthorised (w : World) (a : ControlAction) : Type 0 where
      pub moment : World
      pub reached : Reach decode moment
      pub after : World
      pub step : Step decode moment after
      pub submits : after.submitted ≡ a ∷ moment.submitted
      pub followed : Later decode after w
      pub authorised : Authorised moment.app (dialog_of decode step) a

    later-WasAuthorised :
        {w v : World}
        → Step decode w v
        → (a : ControlAction) → WasAuthorised w a
        → WasAuthorised v a
    later-WasAuthorised st a h = record {
      moment = h.moment;
      reached = h.reached;
      after = h.after;
      step = h.step;
      submits = h.submits;
      followed = then_step h.followed st;
      authorised = h.authorised;
    }

    submit-WasAuthorised :
        (w : World) (r : Submits)
        → Reach decode w
        → (st : Step decode w (submit w r))
        → ((a : ControlAction) → r.1 ≡ some a → Authorised w.app (dialog_of decode st) a)
        → All (WasAuthorised (submit w r)) w.submitted
        → All (WasAuthorised (submit w r)) (submit w r).submitted
    submit-WasAuthorised w (s, none) reached st f h = h
    submit-WasAuthorised w (s, some a) reached st f h = (
      record {
        moment = w;
        reached = reached;
        after = submit w (s, some a);
        step = st;
        submits = refl;
        followed = same;
        authorised = f a refl;
      },
      h,
    )

    free_action :
        (w : World) (g : GovernorSnapshot) (clicked : Option DialogState) (b c : ControlAction)
        → w.app.snapshot ≡ some g
        → w.app.pending ≡ false
        → b.expected_revision ≡ g.revision
        → IsFree b
        → some b ≡ some c
        → Authorised w.app clicked c
    free_action w g clicked b c e i v f h =
        subst (Authorised w.app clicked) (some_inj h) (free-Authorised g w.app clicked b e i v f)

    confirm-Authorised :
        (w : World) (request : ConfirmRequest) (dialog : DialogState) (reason : String)
        (a : ControlAction)
        → Reach decode w
        → w.app.confirm_request ≡ some request
        → click_confirm request w.app.pending dialog ≡ some reason
        → (confirm reason w.app).1 ≡ some a
        → Authorised w.app (some dialog) a
    confirm-Authorised w request dialog reason a r o c h =
        let (g, shown, built) = confirm_inv w.app request reason a o h in
        let asks : Asks (some request) = rw o at ((Reach-IsValid decode r).app_valid.asks) in
        subst (Authorised w.app (some dialog)) built
          (confirmed_action-Authorised g w.app request dialog reason shown o asks c)

    Step-WasAuthorised :
        {w v : World}
        → Step decode w v
        → Reach decode w
        → All (WasAuthorised v) w.submitted
        → All (WasAuthorised v) v.submitted
    unfolding on_stop_new_money_orders on_resume_all_access on_resume_app
    Step-WasAuthorised {w} (stop_orders g e c) r h =
        submit-WasAuthorised w (on_stop_new_money_orders g w.app) r (stop_orders g e c)
          (λ a.
            free_action w g none (stop_new_money_orders g) a e (clickable-idle g _ _ c)
              (ground arith) (ground arith))
          h
    Step-WasAuthorised {w} (resume_all g e c) r h =
        submit-WasAuthorised w (on_resume_all_access g w.app) r (resume_all g e c)
          (λ a.
            free_action w g none (resume_broker_access g none) a e (clickable-idle g _ _ c)
              (ground arith) (ground arith))
          h
    Step-WasAuthorised {w} (resume_app g app e m c) r h =
        submit-WasAuthorised w (on_resume_app g app.app_id w.app) r (resume_app g app e m c)
          (λ a.
            free_action w g none (resume_broker_access g (some app.app_id)) a e
              (row_button-idle app _ _ c) (ground arith) (ground arith))
          h
    Step-WasAuthorised {w} (confirm_request request dialog reason o c) r h =
        submit-WasAuthorised w (confirm reason w.app) r (confirm_request request dialog reason o c)
          (λ a. confirm-Authorised w request dialog reason a r o c) h
    Step-WasAuthorised _ r h = h

    -- Every action that the window has submitted was submitted by a step of this run, in a state
    -- that entitled the window to it: the action names the revision of the snapshot shown then, and no
    -- other action was pending. An unlock was submitted by the click that confirms an open unlock
    -- dialog, whose inputs then held its phrase exactly and a reason that is not blank, which the
    -- action carries. A machine-wide stop was submitted by the click that confirms an open dialog for
    -- it, whose input then held STOP ALL.
    pub Reach-WasAuthorised : {w : World} → Reach decode w → All (WasAuthorised w) w.submitted
    Reach-WasAuthorised here = tt
    Reach-WasAuthorised (next r st) =
        Step-WasAuthorised st r (All-mono _ (later-WasAuthorised st) (Reach-WasAuthorised r))
