-- ===== src/Api/Load.antt =====
-- `loadSnapshot` of ui/src/api.ts.
use throttle_deck.Base.{String, Option, none, some, [], ◌∷◌, not, leb, if◌then◌else◌, template}
use throttle_deck.Platform.{Platform, lit}
use throttle_deck.Contracts.{SnapshotParse, unreachable, invalid_payload, problem, parse_snapshot}
use throttle_deck.Api.Fetch.{HttpMethod, Request, Response, Fetcher, response_ok}

abbrev pub snapshot_url : String
snapshot_url = "/api/v1/snapshot"

module _ ⦃P : Platform⦄ where
  abbrev pub snapshot_request : Request
  snapshot_request = record {
    url = snapshot_url;
    method = HttpMethod.get;
    csrf_token = none;
    body = none;
  }

  -- The answer to the request, or its rejection, as a load.
  unfoldable pub load_response : Option Response → SnapshotParse
  load_response none = problem unreachable "Governor is not responding."
  load_response (some response) =
      if not (response_ok response)
      then (if leb 500 response.status
          then problem unreachable "Governor is not responding."
          else problem invalid_payload (
              template (
                "Governor refused the snapshot request with status "
                ∷ P.show (lit response.status)
                ∷ "."
                ∷ [])))
      else elim response.json [
        | none ↦ problem invalid_payload "Governor sent a snapshot the interface could not read."
        | some payload ↦ parse_snapshot payload
      ]

  unfoldable pub load_snapshot : Fetcher → SnapshotParse
  unfolding load_response
  load_snapshot fetcher = load_response (fetcher snapshot_request)
