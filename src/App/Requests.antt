-- ===== src/App/Requests.antt =====
-- The three confirmation requests of ui/src/App.tsx.
use throttle_deck.Base.{
  true, false, none, some, [], ◌∷◌, ◌++◌, map, if◌then◌else◌, is_empty, template,
}
use throttle_deck.Platform.{Platform}
use throttle_deck.Contracts.{AppRow, GovernorSnapshot}
use throttle_deck.Components.{ConfirmKind, ConfirmRequest}

module _ ⦃P : Platform⦄ where
  unfoldable pub app_stop_request : AppRow → ConfirmRequest
  app_stop_request app = record {
    kind = ConfirmKind.app_stop;
    app_id = some app.app_id;
    title = "Stop brokered REST access";
    body =
        "Brokered REST reads stop for these caller labels. Direct venue requests and WebSocket streams are not affected, and the application keeps running.";
    affected = if is_empty app.callers then app.name ∷ [] else app.callers;
    phrase = none;
    reason_required = false;
    confirm_label = "Stop access";
    destructive = true;
  }

  unfoldable pub stop_all_request : GovernorSnapshot → ConfirmRequest
  stop_all_request snapshot = record {
    kind = ConfirmKind.stop_all;
    app_id = none;
    title = "Stop all brokered REST access";
    body =
        "Every brokered REST read on this machine stops, for known and unknown callers. Direct venue requests and WebSocket streams are not affected.";
    affected = map (λ (app : AppRow). app.name) snapshot.apps ++ "Unknown callers" ∷ [];
    phrase = some "STOP ALL";
    reason_required = false;
    confirm_label = "Stop all brokered REST access";
    destructive = true;
  }

  unfoldable pub unlock_request : GovernorSnapshot → ConfirmRequest
  unlock_request snapshot =
      let lock = snapshot.trade_lock in
      record {
        kind = ConfirmKind.unlock;
        app_id = some lock.app_id;
        title = template ("Unlock " ∷ lock.app_name ∷ " new money orders" ∷ []);
        body = template (
            "This allows " ∷ lock.app_name
            ∷ " to submit new real-money orders again. Existing orders were not cancelled, and nothing is cancelled or flattened here."
            ∷ []);
        affected = [];
        phrase = some lock.confirmation_phrase;
        reason_required = true;
        confirm_label = "Unlock";
        destructive = false;
      }
