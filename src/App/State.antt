-- ===== src/App/State.antt =====
-- The hooks of `App` in ui/src/App.tsx, and the two asynchronous callbacks `load` and `run`, each
-- split where it awaits.
use throttle_deck.Base.{
  ℕ, ◌+◌, String, Bool, true, false, not, Option, none, some, ◌||◌, leb, ◌=ℕ=◌, if◌then◌else◌,
  or_default, is_null,
}
use throttle_deck.Platform.{Platform}
use throttle_deck.Contracts.{GovernorSnapshot, SnapshotProblem, SnapshotParse, ok, not_ok}
use throttle_deck.Derive.{not_applied}
use throttle_deck.Api.{ControlResult, ControlResultStatus, Outcome, value, thrown}
use throttle_deck.Components.{ConfirmRequest}

module _ ⦃P : Platform⦄ where
  pub record AppState : Type 0 where
    pub snapshot : Option GovernorSnapshot
    pub problem : Option SnapshotProblem
    pub refreshing : Bool
    pub pending : Bool
    pub control_error : Option String
    pub confirm_request : Option ConfirmRequest
    pub detail_app_id : Option String
    -- the three refs
    pub snapshot_ref : Option GovernorSnapshot
    pub automatic_failures : ℕ
    pub latest_load : ℕ

  abbrev pub initial : AppState
  initial = record {
    snapshot = none;
    problem = none;
    refreshing = false;
    pending = false;
    control_error = none;
    confirm_request = none;
    detail_app_id = none;
    snapshot_ref = none;
    automatic_failures = 0;
    latest_load = 0;
  }

  -- `load` up to its `await`. The load's id is the new `latest_load`.
  unfoldable pub begin_load : Bool → AppState → AppState
  begin_load manual s = record s {
    refreshing = if manual then true else s.refreshing;
    latest_load = s.latest_load + 1;
  }

  -- `else` of `if (result.ok)`
  load_failed : Bool → SnapshotProblem → AppState → AppState
  load_failed manual problem s =
      if manual || is_null s.snapshot_ref then record s { problem = some problem } else record s {
        problem = if leb 2 (s.automatic_failures + 1) then some problem else s.problem;
        automatic_failures = s.automatic_failures + 1;
      }

  load_settled : Bool → SnapshotParse → AppState → AppState
  unfolding load_failed
  load_settled manual (ok snapshot) s = record s {
    snapshot = some snapshot;
    problem = none;
    snapshot_ref = some snapshot;
    automatic_failures = 0;
  }
  load_settled manual (not_ok problem) s = load_failed manual problem s

  -- `load` from its `await` on, for the load with this id
  unfoldable pub finish_load : ℕ → Bool → SnapshotParse → AppState → AppState
  unfolding load_settled
  finish_load load_id manual result s =
      let s' = record s { refreshing = if manual then false else s.refreshing } in
      if not (load_id =ℕ= s'.latest_load) then s' else load_settled manual result s'

  -- `run` up to its `await`
  unfoldable pub begin_run : AppState → AppState
  begin_run s = record s { pending = true; control_error = none }

  abbrev is_applied : ControlResultStatus → Bool
  is_applied ControlResultStatus.applied = true
  is_applied _ = false

  show_result_snapshot : Option GovernorSnapshot → AppState → AppState
  show_result_snapshot none s = s
  show_result_snapshot (some snapshot) s = record s {
    snapshot = some snapshot;
    snapshot_ref = some snapshot;
  }

  -- `run` from its `await` on. An exception leaves the callback at the `await`.
  unfoldable pub finish_run : Outcome ControlResult → AppState → AppState
  unfolding show_result_snapshot
  finish_run thrown s = s
  finish_run (value result) s =
      let s' = show_result_snapshot result.snapshot (record s { pending = false }) in
      if is_applied result.status
      then s'
      else record s' { control_error = some (or_default result.message not_applied) }
