-- ===== src/Api/Actions.antt =====
-- The four actions of ui/src/api.ts.
use throttle_deck.Base.{String, Option, none, some, [], ◌∷◌, template}
use throttle_deck.Platform.{Platform}
use throttle_deck.Contracts.{GovernorSnapshot}
use throttle_deck.Api.Control.{broker_access, trade_lock, ActionName, ControlAction}

module _ ⦃P : Platform⦄ where
  abbrev access_endpoint : Option String → String → String
  access_endpoint none verb = template ("/api/v1/broker-access/global/" ∷ verb ∷ [])
  access_endpoint (some app_id) verb =
      template ("/api/v1/broker-access/apps/" ∷ P.encode_uri_component app_id ∷ "/" ∷ verb ∷ [])

  -- `appId === null ? "STOP ALL" : null`
  abbrev stop_confirmation : Option String → Option String
  stop_confirmation none = some "STOP ALL"
  stop_confirmation (some app_id) = none

  unfoldable pub stop_broker_access : GovernorSnapshot → Option String → String → ControlAction
  stop_broker_access snapshot app_id reason = record {
    kind = broker_access;
    action = ActionName.stop;
    app_id = app_id;
    endpoint = access_endpoint app_id "stop";
    expected_revision = snapshot.revision;
    reason = some reason;
    confirmation = stop_confirmation app_id;
  }

  unfoldable pub resume_broker_access : GovernorSnapshot → Option String → ControlAction
  resume_broker_access snapshot app_id = record {
    kind = broker_access;
    action = ActionName.resume;
    app_id = app_id;
    endpoint = access_endpoint app_id "resume";
    expected_revision = snapshot.revision;
    reason = some "Operator resumed brokered REST access from Governor.";
    confirmation = none;
  }

  unfoldable pub stop_new_money_orders : GovernorSnapshot → ControlAction
  stop_new_money_orders snapshot = record {
    kind = trade_lock;
    action = ActionName.stop;
    app_id = some snapshot.trade_lock.app_id;
    endpoint = "/api/v1/trade-lock/execution/stop";
    expected_revision = snapshot.revision;
    reason = some (
        template (
          "Operator stopped new " ∷ snapshot.trade_lock.app_name ∷ " money orders from Governor."
          ∷ []));
    confirmation = none;
  }

  unfoldable pub unlock_new_money_orders : GovernorSnapshot → String → ControlAction
  unlock_new_money_orders snapshot reason = record {
    kind = trade_lock;
    action = ActionName.unlock;
    app_id = some snapshot.trade_lock.app_id;
    endpoint = "/api/v1/trade-lock/execution/unlock";
    expected_revision = snapshot.revision;
    reason = some reason;
    confirmation = some snapshot.trade_lock.confirmation_phrase;
  }
