-- ===== src/Tests/Payload.antt =====
-- A payload of the service, and what the window makes of it.
use throttle_deck.Base.{◌↔◌, arith, eq_iff, ◌≡◌, refl, length}
use throttle_deck.Json.{Value, null, num, str, arr, obj, nil, cons, Fields, end, field}
use throttle_deck.Contracts.{
  GovernorSnapshot, MoneyLockState, ok, not_ok, parse_snapshot, parsing, build_snapshot,
  unsupported_schema, invalid_payload, SnapshotProblem,
}
use throttle_deck.Contracts.WellFormed.{IsSnapshot}
use throttle_deck.Contracts.Accepted.{IsComplete, parse_snapshot-ok_iff, parse_snapshot-IsSnapshot}
use throttle_deck.Contracts.Rejected.{IsOtherVersion, parse_snapshot-unsupported_iff}
use throttle_deck.Tests.Numbers.{whole, whole-Laws}

abbrev pub app_json : Value
app_json =
    obj
      (field "app_id" (str "bot") (field "name" (str "Bot") (field "recent_requests" (num 12) end)))

-- A payload with the money lock in this state.
abbrev pub payload_fields : Value → Fields
payload_fields lock = field "schemaVersion" (num 1) (
    field "revision" (num 7) (
      field "generatedAt" (str "2026-01-01T00:00:00Z") (
        field "brokerAccess" (obj end) (
          field "broker" (obj end)
            (field "tradeLock" lock (field "apps" (arr (cons app_json (cons null nil))) end))))))

abbrev pub locked : Value
locked = obj (payload_fields (obj (field "state" (str "stopped") end)))

-- The snapshot of that payload.
abbrev pub locked_snapshot : GovernorSnapshot
locked_snapshot =
    build_snapshot (payload_fields (obj (field "state" (str "stopped") end))) 1 7
      "2026-01-01T00:00:00Z" end

pub parse_snapshot-locked : parse_snapshot locked ≡ ok locked_snapshot
unfolding parsing
parse_snapshot-locked = refl

pub state-locked : locked_snapshot.trade_lock.state ≡ MoneyLockState.stopped
unfolding parsing
state-locked = refl

apps-locked : length locked_snapshot.apps ≡ 1
unfolding parsing
apps-locked = refl

-- The payload is complete.
pub locked-IsComplete : IsComplete locked
locked-IsComplete = record {
  payload = payload_fields (obj (field "state" (str "stopped") end));
  is_payload = refl;
  version = 1;
  has_version = refl;
  supported = refl;
  revision = 7;
  has_revision = refl;
  finite_revision = refl;
  generated_at = "2026-01-01T00:00:00Z";
  has_generated_at = refl;
  generated = ground (arith, eq_iff "2026-01-01T00:00:00Z" "");
  access = end;
  has_access = refl;
  broker = end;
  has_broker = refl;
}

-- Payloads that are refused.
abbrev pub newer : Value
newer = obj (field "schemaVersion" (num 2) end)

parse_snapshot-no_record :
    parse_snapshot (num 1)
    ≡ not_ok (record {
      kind = invalid_payload;
      message = "Governor sent a snapshot the interface could not read.";
    })
unfolding parsing
parse_snapshot-no_record = refl

pub newer-IsOtherVersion : IsOtherVersion newer
newer-IsOtherVersion = record {
  payload = field "schemaVersion" (num 2) end;
  is_payload = refl;
  version = 2;
  has_version = refl;
  other = refl;
}

parse_snapshot-ok_iff_example :
    ((g : GovernorSnapshot) × (parse_snapshot locked ≡ ok g)) ↔ IsComplete locked
parse_snapshot-ok_iff_example = parse_snapshot-ok_iff locked

parse_snapshot-IsSnapshot_example : IsSnapshot locked_snapshot
parse_snapshot-IsSnapshot_example =
    parse_snapshot-IsSnapshot whole-Laws locked locked_snapshot parse_snapshot-locked

parse_snapshot-unsupported_iff_example :
    ((p : SnapshotProblem) × (parse_snapshot newer ≡ not_ok p) × (p.kind ≡ unsupported_schema))
    ↔ IsOtherVersion newer
parse_snapshot-unsupported_iff_example = parse_snapshot-unsupported_iff newer
