-- ===== src/App/Loads.antt =====
-- What the loads of ui/src/App.tsx do to the window, one after another and out of order.
use throttle_deck.Base.{
  ◌∙◌, ℕ, zero, suc, ◌+◌, ◌≡◌, ◌≢◌, refl, Bool, false, none, some, arith, leb, if◌then◌else◌,
}
use throttle_deck.Platform.{Platform}
use throttle_deck.Contracts.{GovernorSnapshot, SnapshotProblem, SnapshotParse, ok, not_ok}
use throttle_deck.App.State.{AppState, begin_load, finish_load}

module _ ⦃P : Platform⦄ where
  -- The answer to a load that a later one has superseded changes nothing, whatever it holds, but
  -- for the refresh mark, which it clears if the load was manual.
  pub finish_load_superseded :
      (load_id : ℕ) (manual : Bool) (result : SnapshotParse) (s : AppState)
      → load_id ≢ s.latest_load
      → finish_load load_id manual result s
        ≡ record s { refreshing = if manual then false else s.refreshing }
  unfolding finish_load
  finish_load_superseded load_id manual result s h = ground arith

  -- One poll of the timer whose answer arrives before the next load starts.
  abbrev pub poll : SnapshotParse → AppState → AppState
  poll result s = finish_load (begin_load false s).latest_load false result (begin_load false s)

  -- Failing polls, one after another.
  abbrev pub failing_polls : ℕ → SnapshotProblem → AppState → AppState
  failing_polls zero problem s = s
  failing_polls (suc n) problem s = poll (not_ok problem) (failing_polls n problem s)

  poll-not_ok :
      (problem : SnapshotProblem) (g : GovernorSnapshot) (s : AppState)
      → s.snapshot_ref ≡ some g
      → poll (not_ok problem) s ≡ record s {
        problem = if leb 2 (s.automatic_failures + 1) then some problem else s.problem;
        automatic_failures = s.automatic_failures + 1;
        latest_load = s.latest_load + 1;
      }
  unfolding begin_load finish_load
  poll-not_ok problem g s h = ground arith

  failing_polls_count :
      (n : ℕ) (problem : SnapshotProblem) (g : GovernorSnapshot) (s : AppState)
      → s.snapshot_ref ≡ some g
      → s.automatic_failures ≡ 0
      → s.problem ≡ none
      → failing_polls n problem s ≡ record s {
        problem = if leb 2 n then some problem else none;
        automatic_failures = n;
        latest_load = s.latest_load + n;
      }
  failing_polls_count zero problem g s h k e = ground arith
  failing_polls_count (suc n) problem g s h k e =
      rw (failing_polls_count n problem g s h k e) (poll-not_ok problem g _ h ∙ ground arith)

  -- A window that shows a snapshot and no problem, with no failure counted, keeps the snapshot through
  -- any number of failing polls, and shows the problem exactly from the second failure on.
  pub failing_polls-problem :
      (n : ℕ) (problem : SnapshotProblem) (g : GovernorSnapshot) (s : AppState)
      → s.snapshot_ref ≡ some g
      → s.automatic_failures ≡ 0
      → s.problem ≡ none
      → ((failing_polls n problem s).snapshot ≡ s.snapshot)
        × ((failing_polls n problem s).problem ≡ (if leb 2 n then some problem else none))
  failing_polls-problem n problem g s h k e =
      rw (failing_polls_count n problem g s h k e) (refl, refl)

  -- After any number of failing polls one that succeeds shows its snapshot and no problem, and the
  -- next failure is counted as the first.
  pub poll-ok-failing_polls :
      (n : ℕ) (problem : SnapshotProblem) (g : GovernorSnapshot) (s : AppState)
      → ((poll (ok g) (failing_polls n problem s)).snapshot ≡ some g)
        × ((poll (ok g) (failing_polls n problem s)).problem ≡ none)
        × ((poll (not_ok problem) (poll (ok g) (failing_polls n problem s))).problem ≡ none)
  unfolding begin_load finish_load
  poll-ok-failing_polls n problem g s = settle (failing_polls n problem s)
    where
      settle :
          (t : AppState)
          → ((poll (ok g) t).snapshot ≡ some g)
            × ((poll (ok g) t).problem ≡ none)
            × ((poll (not_ok problem) (poll (ok g) t)).problem ≡ none)
      settle t = ground arith
