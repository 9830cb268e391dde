-- ===== src/Contracts/Faithful.antt =====
-- `parseSnapshot` of ui/src/contracts.ts says of a payload what the payload says.
use throttle_deck.Platform.{Platform}
use throttle_deck.Json.{Value, get}
use throttle_deck.Contracts.Content.{HasBoth, under}

module _ ⦃P : Platform⦄ where
  HasRow : Value → Type 0
  HasRow = HasBoth (under "app_id" "appId") (get "name")

  HasEvent : Value → Type 0
  HasEvent = HasBoth (get "at") (get "kind")
