-- ===== src/Components/Controls.antt =====
-- What the safety strip of ui/src/components/SafetyStrip.tsx offers, and the bar of
-- ui/src/components/BudgetCard.tsx.
use throttle_deck.Base.{
  ℕ, ◌<◌, ◌≡◌, ◌↔◌, Bool, true, false, Option, none, some, [], ◌∷◌, arith, if◌then◌else◌,
  Bool-cases, inl, inr,
}
use throttle_deck.Platform.{Platform, Num, lit, Laws, exact}
use throttle_deck.Contracts.{GovernorSnapshot, MoneyLockState, Budget}
use throttle_deck.Contracts.WellFormed.{IsBudget, IsNumber}
use throttle_deck.Derive.{money_lock_view, stop_new_money_orders_label, unlock_label}
use throttle_deck.Components.SafetyStrip.{StripButton, reads_stopped, strip_buttons}
use throttle_deck.Components.BudgetCard.{capacity_percent, percent_of}

abbrev pub is_locked : MoneyLockState → Bool
is_locked MoneyLockState.stopped = true
is_locked _ = false

module _ ⦃P : Platform⦄ where
  -- The strip always has two buttons. The first unlocks exactly where the money lock is stopped, and
  -- stops new orders in every other state of the lock; the second resumes all reads exactly where
  -- they are stopped. The label of the lock's action is that of the first button, and the view has
  -- no banner exactly where the lock is allowed.
  pub strip_buttons_lem :
      (g : GovernorSnapshot)
      → (strip_buttons g
          ≡ (if is_locked g.trade_lock.state
              then StripButton.unlock
              else StripButton.stop_new_money_orders)
            ∷ (if reads_stopped g
                then StripButton.resume_all_access
                else StripButton.stop_all_access)
            ∷ [])
        × ((money_lock_view g.trade_lock).action_label
            ≡ (if is_locked g.trade_lock.state then unlock_label else stop_new_money_orders_label))
        × (((money_lock_view g.trade_lock).banner ≡ none)
            ↔ (g.trade_lock.state ≡ MoneyLockState.allowed))
  unfolding strip_buttons money_lock_view
  strip_buttons_lem g = ground arith

module _ ⦃P : Platform⦄ (laws : Laws P) where
  lit_not_nan : (n : ℕ) → n < exact → P.is_nan (lit n) ≡ false
  lit_not_nan n h = laws.finite_not_nan _ (laws.lit_finite n h)

  zero_bounds :
      (P.is_nan (lit 0) ≡ false) × (P.lt (lit 0) (lit 0) ≡ false) × (P.lt (lit 100) (lit 0) ≡ false)
  zero_bounds = (
    lit_not_nan 0 (omega arith),
    laws.lit_lt 0 0 (omega arith) (omega arith),
    laws.lit_lt 100 0 (omega arith) (omega arith),
  )

  percent_bounds :
      (available capacity : Option Num)
      → IsNumber available
      → IsNumber capacity
      → (P.is_nan (percent_of available capacity) ≡ false)
        × (P.lt (percent_of available capacity) (lit 0) ≡ false)
        × (P.lt (lit 100) (percent_of available capacity) ≡ false)
  percent_bounds (some a) (some c) ha hc = elim (Bool-cases (P.eq c (lit 0))) [
    | inl zero_capacity ↦ rw zero_capacity zero_bounds
    | inr positive ↦ rw positive (
      laws.max_not_nan _ _ (lit_not_nan 0 (omega arith)) (
          laws.min_not_nan _ _ (lit_not_nan 100 (omega arith))
            (laws.round_not_nan _ (laws.mul_not_nan _ (laws.div_not_nan a c ha hc positive)))),
      laws.max-not-lt _ _,
      laws.max_upper _ _ _ (laws.lit_lt 100 0 (omega arith) (omega arith)) (laws.min-not-gt _ _),
    )
  ]
  percent_bounds (some a) none ha hc = zero_bounds
  percent_bounds none c ha hc = zero_bounds

  -- By the laws of the numbers, the filled share of a well formed budget's capacity is a number from
  -- 0 to 100, and not NaN.
  pub capacity_percent_bounds :
      (b : Budget)
      → IsBudget b
      → (P.is_nan (capacity_percent b) ≡ false)
        × (P.lt (capacity_percent b) (lit 0) ≡ false)
        × (P.lt (lit 100) (capacity_percent b) ≡ false)
  unfolding capacity_percent
  capacity_percent_bounds b h = percent_bounds b.available_now b.capacity h.available_now h.capacity
