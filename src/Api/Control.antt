-- ===== src/Api/Control.antt =====
-- `applyControl` of ui/src/api.ts, with `ControlAction` and `ControlResult` of ui/src/contracts.ts.
use throttle_deck.Base.{String, Option, none, some, not, ◌=ℕ=◌, if◌then◌else◌, or_default}
use throttle_deck.Platform.{Platform, Num}
use throttle_deck.Json.{Value, null, num, str, obj, Fields, end, field, get, coalesce}
use throttle_deck.Contracts.{GovernorSnapshot, SnapshotParse, parse_snapshot}
use throttle_deck.Derive.{not_applied}
use throttle_deck.Api.Fetch.{
  Codes, Outcome, value, thrown, HttpMethod, Request, Response, Fetcher, response_ok,
}
use throttle_deck.Api.Csrf.{Document, read_csrf_token}

pub data ControlKind : Type 0 where
  broker_access trade_lock : ControlKind

pub data ActionName : Type 0 where
  stop resume unlock : ActionName

pub data ControlResultStatus : Type 0 where
  applied conflict failed : ControlResultStatus

module _ ⦃P : Platform⦄ where
  pub record ControlAction : Type 0 where
    pub kind : ControlKind
    pub action : ActionName
    pub app_id : Option String
    pub endpoint : String
    pub expected_revision : Num
    pub reason : Option String
    pub confirmation : Option String

  pub record ControlResult : Type 0 where
    pub status : ControlResultStatus
    pub snapshot : Option GovernorSnapshot
    pub message : Option String

  -- `body[key] = text`, where the text is not null
  add_text : String → Option String → Fields → Fields
  add_text key none body = body
  add_text key (some text) body = field key (str text) body

  -- The order of the keys of a JSON object has no meaning.
  unfoldable pub action_body : ControlAction → Fields
  unfolding add_text
  action_body action = add_text "confirmation" action.confirmation (
      add_text "reason" action.reason
        (field "expected_revision" (num action.expected_revision) end))

  unfoldable pub snapshot_from_response_body : Value → SnapshotParse
  snapshot_from_response_body (obj body) =
      parse_snapshot (coalesce (get "snapshot" body) (obj body))
  snapshot_from_response_body body = parse_snapshot body

  abbrev pub not_applied_result : ControlResultStatus → Option GovernorSnapshot → ControlResult
  not_applied_result status snapshot = record {
    status = status;
    snapshot = snapshot;
    message = some not_applied;
  }

  -- `parsed.ok ? parsed.snapshot : null`
  abbrev parsed_snapshot : SnapshotParse → Option GovernorSnapshot
  parsed_snapshot (SnapshotParse.ok snapshot) = some snapshot
  parsed_snapshot (SnapshotParse.not_ok _) = none

  abbrev applied_or_failed : SnapshotParse → ControlResult
  applied_or_failed (SnapshotParse.ok snapshot) = record {
    status = ControlResultStatus.applied;
    snapshot = some snapshot;
    message = none;
  }
  applied_or_failed (SnapshotParse.not_ok _) = not_applied_result ControlResultStatus.failed none

  -- What the answer to the request, or its rejection, comes to.
  unfoldable pub control_response : Option Response → ControlResult
  unfolding snapshot_from_response_body
  control_response none = not_applied_result ControlResultStatus.failed none
  control_response (some response) =
      let parsed = snapshot_from_response_body (or_default response.json null) in
      if response.status =ℕ= 409
      then not_applied_result ControlResultStatus.conflict (parsed_snapshot parsed)
      else if not (response_ok response)
      then not_applied_result ControlResultStatus.failed none
      else applied_or_failed parsed

  abbrev pub control_request : Option Codes → ControlAction → Request
  control_request csrf action = record {
    url = action.endpoint;
    method = HttpMethod.post;
    csrf_token = csrf;
    body = some (action_body action);
  }

  unfoldable pub apply_control :
      (Codes → Option Codes) → Option Document → ControlAction → Fetcher → Outcome ControlResult
  unfolding control_response read_csrf_token action_body
  apply_control decode document action fetcher = elim (read_csrf_token decode document) [
    | thrown ↦ thrown
    | value csrf ↦ value (control_response (fetcher (control_request csrf action)))
  ]
