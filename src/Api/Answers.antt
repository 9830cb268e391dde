-- ===== src/Api/Answers.antt =====
-- What a load and a control action of ui/src/api.ts come to, for every answer of the service.
use throttle_deck.Base.{
  ◌≡◌, ◌≢◌, refl, ◌⊎◌, ◌↔◌, inl, inr, true, Option, none, some, arith, Option-cases, or_default,
  ◌≤◌,
}
use throttle_deck.Platform.{Platform}
use throttle_deck.Json.{Value, null}
use throttle_deck.Contracts.{
  GovernorSnapshot, SnapshotParse, SnapshotProblem, ok, not_ok, parse_snapshot, unreachable,
}
use throttle_deck.Contracts.Rejected.{parse_snapshot-problem}
use throttle_deck.Derive.{not_applied}
use throttle_deck.Api.Fetch.{
  Outcome-cases, value_inj, Codes, Outcome, value, thrown, Response, Fetcher, response_ok,
}
use throttle_deck.Api.Csrf.{Document, read_csrf_token}
use throttle_deck.Api.Load.{snapshot_request, load_response, load_snapshot}
use throttle_deck.Api.Control.{
  ControlResultStatus, ControlAction, ControlResult, snapshot_from_response_body, control_response,
  control_request, apply_control,
}

thrown-ne-value : {A : Type 0} {a : A} → ◌≡◌ {A = Outcome A} thrown (value a) → ⊥
thrown-ne-value e = cc

module _ ⦃P : Platform⦄ where
  -- A response that carries a snapshot which the window accepts.
  pub record Delivers (answer : Option Response) (read : Value → SnapshotParse)
      (g : GovernorSnapshot) : Type 0 where
    pub response : Response
    pub is_answer : answer ≡ some response
    pub is_ok : response_ok response ≡ true
    pub payload : Value
    pub has_payload : response.json ≡ some payload
    pub accepted : read payload ≡ ok g

  load_response_inv :
      (answer : Option Response) (g : GovernorSnapshot)
      → load_response answer ≡ ok g
      → Delivers answer parse_snapshot g
  unfolding load_response
  load_response_inv none g e = cc
  load_response_inv (some r) g e = elim (Option-cases r.json) [
    | inl missing ↦ ground arith
    | inr (v, has) ↦ record {
      response = r;
      is_answer = refl;
      is_ok = ground arith;
      payload = v;
      has_payload = has;
      accepted = ground arith;
    }
  ]

  load_response_of_Delivers :
      (answer : Option Response) (g : GovernorSnapshot)
      → Delivers answer parse_snapshot g
      → load_response answer ≡ ok g
  unfolding load_response
  load_response_of_Delivers answer g d = ground arith

  -- A load gives a snapshot exactly when the service answers with a status from 200 to 299 and with
  -- JSON that the window accepts, and it is the snapshot of that JSON.
  pub load_snapshot-ok_iff :
      (fetcher : Fetcher) (g : GovernorSnapshot)
      → (load_snapshot fetcher ≡ ok g) ↔ Delivers (fetcher snapshot_request) parse_snapshot g
  unfolding load_snapshot
  load_snapshot-ok_iff fetcher g = (load_response_inv _ g, load_response_of_Delivers _ g)

  parse_snapshot-ne-unreachable :
      (v : Value) (p : SnapshotProblem) → parse_snapshot v ≡ not_ok p → p.kind ≢ unreachable
  parse_snapshot-ne-unreachable v p e = ground (arith, parse_snapshot-problem v p e)

  load_response-unreachable :
      (answer : Option Response) (p : SnapshotProblem)
      → load_response answer ≡ not_ok p
      → p.kind ≡ unreachable
      → (answer ≡ none) ⊎ ((r : Response) × (answer ≡ some r) × (500 ≤ r.status))
  unfolding load_response
  load_response-unreachable none p e k = inl refl
  load_response-unreachable (some r) p e k = inr (
    r,
    refl,
    elim (Option-cases r.json) [
      | inl missing ↦ ground arith
      | inr (v, has) ↦ ground (arith, parse_snapshot-ne-unreachable v p)
    ],
  )

  unreachable_of_answer :
      (answer : Option Response) (p : SnapshotProblem)
      → load_response answer ≡ not_ok p
      → (answer ≡ none) ⊎ ((r : Response) × (answer ≡ some r) × (500 ≤ r.status))
      → p.kind ≡ unreachable
  unfolding load_response
  unreachable_of_answer answer p e h = ground arith

  abbrev pub applied_result : GovernorSnapshot → ControlResult
  applied_result g = record {
    status = ControlResultStatus.applied;
    snapshot = some g;
    message = none;
  }

  pub control_response-not_applied :
      (answer : Option Response)
      → (control_response answer).status ≢ ControlResultStatus.applied
      → (control_response answer).message ≡ some not_applied
  unfolding control_response
  control_response-not_applied answer h = ground arith

  pub control_response-snapshot :
      (answer : Option Response) (g : GovernorSnapshot)
      → (control_response answer).snapshot ≡ some g
      → (r : Response) × (answer ≡ some r)
        × (snapshot_from_response_body (or_default r.json null) ≡ ok g)
  unfolding control_response
  control_response-snapshot none g e = cc
  control_response-snapshot (some r) g e = (r, refl, ground arith)

  module _ (decode : Codes → Option Codes) (document : Option Document) (action : ControlAction)
      (fetcher : Fetcher) where
    pub apply_control_inv :
        (r : ControlResult)
        → apply_control decode document action fetcher ≡ value r
        → (csrf : Option Codes) × (read_csrf_token decode document ≡ value csrf)
          × (control_response (fetcher (control_request csrf action)) ≡ r)
    unfolding apply_control
    apply_control_inv r e = elim (Outcome-cases (read_csrf_token decode document)) [
      | inl malformed ↦ absurd (thrown-ne-value (rw (malformed, apply_control) at e))
      | inr (csrf, read) ↦ (csrf, read, value_inj (rw (read, apply_control) at e))
    ]

  -- A load that fails calls the service unreachable exactly when the request was rejected or
  -- answered with a status of 500 or more.
  pub load_snapshot-unreachable :
      (fetcher : Fetcher) (p : SnapshotProblem)
      → load_snapshot fetcher ≡ not_ok p
      → (p.kind ≡ unreachable) ↔ (
          (fetcher snapshot_request ≡ none)
          ⊎ ((r : Response) × (fetcher snapshot_request ≡ some r) × (500 ≤ r.status)))
  unfolding load_snapshot
  load_snapshot-unreachable fetcher p e =
      (load_response-unreachable _ p e, unreachable_of_answer (fetcher snapshot_request) p e)
