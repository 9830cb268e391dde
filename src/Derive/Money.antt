-- ===== src/Derive/Money.antt =====
-- `moneyLockView` of ui/src/derive.ts.
use throttle_deck.Base.{String, Bool, true, false, Option, none, some, [], ◌∷◌, template}
use throttle_deck.Platform.{Platform}
use throttle_deck.Contracts.{MoneyLockState, MoneyLock}
use throttle_deck.Derive.Copy.{
  Tone, allowed_label, stopped_label, stopping_label, unavailable_label,
  stop_new_money_orders_label, unlock_label,
}

pub record MoneyLockView : Type 0 where
  pub heading : String
  pub state_label : String
  pub detail : String
  pub banner : Option String
  pub action_label : String
  pub tone : Tone
  pub can_stop : Bool
  pub can_unlock : Bool

abbrev lock_heading : String → String
lock_heading name = template (name ∷ " new money orders" ∷ [])

abbrev stopped_banner : String → Option String
stopped_banner name =
    some (
      template (name ∷ " cannot submit new money orders. Existing orders were not cancelled." ∷ []))

lock_view : String → MoneyLockState → MoneyLockView
lock_view name MoneyLockState.allowed = record {
  heading = lock_heading name;
  state_label = allowed_label;
  detail = template (name ∷ " may submit new real-money orders." ∷ []);
  banner = none;
  action_label = stop_new_money_orders_label;
  tone = Tone.healthy;
  can_stop = true;
  can_unlock = false;
}
lock_view name MoneyLockState.stopped = record {
  heading = lock_heading name;
  state_label = stopped_label;
  detail = "Existing orders were not cancelled.";
  banner = stopped_banner name;
  action_label = unlock_label;
  tone = Tone.stop;
  can_stop = false;
  can_unlock = true;
}
lock_view name MoneyLockState.stopping = record {
  heading = lock_heading name;
  state_label = stopping_label;
  detail = "An order decision is still resolving. Stopping again is safe.";
  banner = stopped_banner name;
  action_label = stop_new_money_orders_label;
  tone = Tone.warning;
  can_stop = true;
  can_unlock = false;
}
lock_view name MoneyLockState.unavailable = record {
  heading = lock_heading name;
  state_label = unavailable_label;
  detail = template (
      "ThrottleDeck Broker is not responding. New " ∷ name
      ∷ " orders remain locked unless Governor can prove otherwise." ∷ []);
  banner = some (
      template (
        "New " ∷ name ∷ " orders remain locked while Governor cannot prove the lock is unlocked."
        ∷ []));
  action_label = stop_new_money_orders_label;
  tone = Tone.critical;
  can_stop = true;
  can_unlock = false;
}

module _ ⦃P : Platform⦄ where
  unfoldable pub money_lock_view : MoneyLock → MoneyLockView
  unfolding lock_view
  money_lock_view lock = lock_view lock.app_name lock.state
