-- ===== src/Api/Audit.antt =====
-- `runTrafficAudit` of ui/src/api.ts.
use throttle_deck.Base.{String, Option, none, some, List, [], not, if◌then◌else◌, filter_map}
use throttle_deck.Platform.{Platform, Num, lit}
use throttle_deck.Json.{Value, undefined, null, num, str, arr, obj, elems, get, is_text}
use throttle_deck.Api.Fetch.{
  Codes, Outcome, value, thrown, HttpMethod, Request, Response, Fetcher, response_ok,
}
use throttle_deck.Api.Csrf.{Document, read_csrf_token}

abbrev pub traffic_audit_url : String
traffic_audit_url = "/api/v1/diagnostics/direct-egress"

pub data AuditStatus : Type 0 where
  clear findings unavailable failed : AuditStatus

module _ ⦃P : Platform⦄ where
  pub record TrafficAuditFinding : Type 0 where
    pub venue : String
    pub process_name : String
    pub pid : Num
    pub observations : Num

  pub record TrafficAuditResult : Type 0 where
    pub status : AuditStatus
    pub sampled_for_ms : Num
    pub findings : List TrafficAuditFinding
    pub caveat : String

  -- the result of the `catch` clause
  abbrev pub audit_failed : TrafficAuditResult
  audit_failed = record {
    status = AuditStatus.failed;
    sampled_for_ms = lit 0;
    findings = [];
    caveat = "ThrottleDeck could not run the traffic audit.";
  }

  -- the four fields of a row, if each has its type
  finding_of : Value → Value → Value → Value → Option TrafficAuditFinding
  finding_of (str venue) (str process_name) (num pid) (num observations) = some (record {
    venue = venue;
    process_name = process_name;
    pid = pid;
    observations = observations;
  })
  finding_of _ _ _ _ = none

  -- the callback of `flatMap`
  read_finding : Value → Option TrafficAuditFinding
  unfolding finding_of
  read_finding (obj row) =
      finding_of (get "venue" row) (get "process_name" row) (get "pid" row) (get "observations" row)
  read_finding _ = none

  unfoldable pub read_findings : Value → List TrafficAuditFinding
  unfolding read_finding
  read_findings (arr rows) = filter_map read_finding (elems rows)
  read_findings _ = []

  unfoldable pub read_audit_status : Value → AuditStatus
  read_audit_status v =
      if is_text v "clear"
      then AuditStatus.clear
      else if is_text v "findings"
      then AuditStatus.findings
      else if is_text v "unavailable"
      then AuditStatus.unavailable
      else AuditStatus.failed

  abbrev sampled_for : Value → Num
  sampled_for (num n) = n
  sampled_for _ = lit 0

  abbrev caveat_of : Value → String
  caveat_of (str s) = s
  caveat_of _ = "The traffic audit returned an unreadable result."

  unfoldable pub audit_fields : Value → Value → Value → Value → TrafficAuditResult
  unfolding read_audit_status read_findings
  audit_fields status rows sampled caveat = record {
    status = read_audit_status status;
    sampled_for_ms = sampled_for sampled;
    findings = read_findings rows;
    caveat = caveat_of caveat;
  }

  -- `payload["status"]` throws where `payload` is null; no other value but an object has the keys.
  unfoldable pub audit_payload : Value → TrafficAuditResult
  unfolding audit_fields
  audit_payload null = audit_failed
  audit_payload undefined = audit_failed
  audit_payload (obj payload) =
      audit_fields (get "status" payload) (get "findings" payload) (get "sampledForMs" payload)
        (get "caveat" payload)
  audit_payload _ = audit_fields undefined undefined undefined undefined

  -- the body of `try`, with the results of its `catch`
  unfoldable pub audit_response : Option Response → TrafficAuditResult
  unfolding audit_payload
  audit_response none = audit_failed
  audit_response (some response) =
      if not (response_ok response)
      then audit_failed
      else elim response.json [ none ↦ audit_failed | some payload ↦ audit_payload payload ]

  abbrev pub audit_request : Option Codes → Request
  audit_request csrf = record {
    url = traffic_audit_url;
    method = HttpMethod.post;
    csrf_token = csrf;
    body = none;
  }

  -- The token is read outside the `try`.
  unfoldable pub run_traffic_audit :
      (Codes → Option Codes) → Option Document → Fetcher → Outcome TrafficAuditResult
  unfolding audit_response read_csrf_token
  run_traffic_audit decode document fetcher = elim (read_csrf_token decode document) [
    | thrown ↦ thrown
    | value csrf ↦ value (audit_response (fetcher (audit_request csrf)))
  ]
