-- ===== src/Tests/Answers.antt =====
-- Loads and control actions of ui/src/api.ts against services that answer in different ways.
use throttle_deck.Base.{◌≢◌, ◌⊎◌, ◌≤◌, ◌↔◌, ◌≡◌, refl, none, some, Option, [], ◌∷◌, List, All}
use throttle_deck.Contracts.{parse_snapshot, not_ok, ok, parsing, SnapshotProblem, unreachable}
use throttle_deck.Api.{
  Codes, value, Fetcher, Response, load_snapshot, apply_control, read_csrf_token, ControlAction,
  stop_new_money_orders, snapshot_request, control_response,
}
use throttle_deck.Api.Answers.{
  Delivers, applied_result, load_snapshot-ok_iff, load_snapshot-unreachable,
}
use throttle_deck.Api.Cookies.{
  Cookie, IsCookie, cookies_text, reading, content_of, read_cookie-cookies_text,
}
use throttle_deck.Api.{read_cookie, trim, csrf_cookie_name}
use throttle_deck.Api.Audits.{Reports, status_word, audit_response-status_iff}
use throttle_deck.Api.{AuditStatus, audit_response}
use throttle_deck.Json.{obj, field, str, end}
use throttle_deck.Tests.Numbers.{whole}
use throttle_deck.Tests.Payload.{locked, locked_snapshot}

abbrev service : Fetcher
service = λ _. some (record { status = 200; json = some locked })

abbrev overloaded : Fetcher
overloaded = λ _. some (record { status = 503; json = none })

abbrev refusing : Fetcher
refusing = λ _. some (record { status = 403; json = some locked })

abbrev decode : Codes → Option Codes
decode = some

abbrev stop_action : ControlAction
stop_action = stop_new_money_orders locked_snapshot

answers : Unit {0}
unfolding parsing load_snapshot apply_control control_response read_csrf_token
answers = tt

load_snapshot-service : load_snapshot service ≡ ok locked_snapshot
unfolding answers
load_snapshot-service = refl

abbrev no_answer : SnapshotProblem
no_answer = record { kind = unreachable; message = "Governor is not responding." }

load_snapshot-overloaded : load_snapshot overloaded ≡ not_ok no_answer
unfolding answers
load_snapshot-overloaded = refl

apply_control-service :
    apply_control decode none stop_action service ≡ value (applied_result locked_snapshot)
unfolding answers
apply_control-service = refl

load_snapshot-ok_iff_example :
    (load_snapshot service ≡ ok locked_snapshot)
    ↔ Delivers (service snapshot_request) parse_snapshot locked_snapshot
load_snapshot-ok_iff_example = load_snapshot-ok_iff service locked_snapshot

load_snapshot-unreachable_example : (no_answer.kind ≡ unreachable) ↔ (
    (overloaded snapshot_request ≡ none)
    ⊎ ((r : Response) × (overloaded snapshot_request ≡ some r) × (500 ≤ r.status)))
load_snapshot-unreachable_example =
    load_snapshot-unreachable overloaded no_answer load_snapshot-overloaded

-- The cookies of a page: `x=1; governor_csrf=t0`.
abbrev cookies : List Cookie
cookies =
    record { name = b'x' ∷ []; content = b'1' ∷ [] }
    ∷ record { name = csrf_cookie_name decode; content = b't' ∷ b'0' ∷ [] }
    ∷ []

cookies-IsCookie : All IsCookie cookies
unfolding trim
cookies-IsCookie = (
  record { name = refl; text = refl; trimmed = refl },
  (record { name = refl; text = refl; trimmed = refl }, tt),
)

read_csrf_token-cookies :
    read_csrf_token decode (some (record { cookie = cookies_text cookies; meta_content = none }))
    ≡ value (some (b't' ∷ b'0' ∷ []))
unfolding answers
read_csrf_token-cookies = refl

read_cookie-cookies_text_example :
    read_cookie decode
      (some (record { cookie = cookies_text cookies; meta_content = none }))
      (csrf_cookie_name decode)
    ≡ reading decode (content_of (csrf_cookie_name decode) cookies)
read_cookie-cookies_text_example =
    read_cookie-cookies_text decode (csrf_cookie_name decode) cookies none refl cookies-IsCookie

-- An audit that found nothing.
abbrev quiet : Option Response
quiet = some (record { status = 200; json = some (obj (field "status" (str "clear") end)) })

clear-ne-failed : AuditStatus.clear ≢ AuditStatus.failed
clear-ne-failed e = cc

audit_response-status_iff_example :
    ((audit_response quiet).status ≡ AuditStatus.clear)
    ↔ Reports quiet (status_word AuditStatus.clear)
audit_response-status_iff_example =
    audit_response-status_iff quiet AuditStatus.clear clear-ne-failed
