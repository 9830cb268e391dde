-- ===== src/Contracts/ReadOff.antt =====
-- The readers of ui/src/contracts.ts say of a value what the value says.
use throttle_deck.Base.{
  if_cases, ◌==◌, String, ◌≡◌, refl, ◌⊎◌, inl, inr, ◌↔◌, Option, none, some, List, [], ◌∷◌,
  filter_map, arith, eq_iff, subst, sym,
}
use throttle_deck.Platform.{Platform}
use throttle_deck.Json.{Value, num, str, arr, obj, get}
use throttle_deck.Contracts.Types.{AccessState, MoneyLockState, MoneyMode, Severity, BrokerState}
use throttle_deck.Contracts.Readers.{
  read_number, read_string, read_array, read_access_state, read_money_lock_state, read_severity,
  record_or_empty, read_control_record, read_money_mode, read_string_array, text_of,
}
use throttle_deck.Contracts.Rows.{read_broker_record, read_broker_state}
use throttle_deck.Contracts.Snapshot.{read_trade_lock}
use throttle_deck.Contracts.Content.{
  NumberOf, TextOf, Picked, done, kept, dropped, IsText, HoldsText, BrokerOf, LockOf, items_of,
  fields_of,
}

module _ ⦃P : Platform⦄ where
  pub read_number-NumberOf : (v : Value) → NumberOf v (read_number v)
  unfolding read_number
  read_number-NumberOf (num n) =
      if_cases (NumberOf (num n)) (P.is_finite n) (λ finite. (refl, finite))
        (λ infinite m e finite. cc)
  read_number-NumberOf _ = λ n e. cc

  pub read_string-TextOf : (v : Value) → TextOf v (read_string v)
  unfolding read_string
  read_string-TextOf (str s) =
      if_cases (TextOf (str s)) (s == "")
        (λ empty t e full. absurd (full (ground (arith, eq_iff s ""))))
        (λ full. (refl, λ e. ground (arith, eq_iff s "")))
  read_string-TextOf _ = λ t e. cc

  pub read_access_state_iff :
      (v : Value) → (read_access_state v ≡ AccessState.stopped) ↔ (v ≡ str "stopped")
  unfolding read_access_state
  read_access_state_iff (str s) = ground (arith, eq_iff s "stopped")
  read_access_state_iff _ = (λ e. cc, λ e. cc)

  pub read_money_lock_state_iff :
      (v : Value) → (read_money_lock_state v ≡ MoneyLockState.stopped) ↔ (v ≡ str "stopped")
  unfolding read_money_lock_state
  read_money_lock_state_iff (str s) = ground (arith, eq_iff s "stopped")
  read_money_lock_state_iff _ = (λ e. cc, λ e. cc)

  pub read_money_lock_state_stopping_iff :
      (v : Value) → (read_money_lock_state v ≡ MoneyLockState.stopping) ↔ (v ≡ str "stopping")
  unfolding read_money_lock_state
  read_money_lock_state_stopping_iff (str s) = (
    λ e. ground (arith, eq_iff s "stopping", eq_iff s "stopped"),
    λ e. subst (λ v. read_money_lock_state v ≡ MoneyLockState.stopping) (sym e) refl,
  )
  read_money_lock_state_stopping_iff _ = (λ e. cc, λ e. cc)

  pub read_money_lock_state_unavailable_iff :
      (v : Value) → (read_money_lock_state v ≡ MoneyLockState.unavailable) ↔ (v ≡ str "unavailable")
  unfolding read_money_lock_state
  read_money_lock_state_unavailable_iff (str s) = (
    λ e. ground (arith, eq_iff s "unavailable", eq_iff s "stopped", eq_iff s "stopping"),
    λ e. subst (λ v. read_money_lock_state v ≡ MoneyLockState.unavailable) (sym e) refl,
  )
  read_money_lock_state_unavailable_iff _ = (λ e. cc, λ e. cc)

  pub read_severity_critical_iff :
      (v : Value) → (read_severity v ≡ Severity.critical) ↔ (v ≡ str "critical")
  unfolding read_severity
  read_severity_critical_iff (str s) = (
    λ e. ground (arith, eq_iff s "critical", eq_iff s "warning"),
    λ e. subst (λ v. read_severity v ≡ Severity.critical) (sym e) refl,
  )
  read_severity_critical_iff _ = (λ e. cc, λ e. cc)

  pub read_severity_iff : (v : Value) → (read_severity v ≡ Severity.warning) ↔ (v ≡ str "warning")
  unfolding read_severity
  read_severity_iff (str s) = ground (arith, eq_iff s "warning")
  read_severity_iff _ = (λ e. cc, λ e. cc)

  -- What a reader of list items owes.
  unfoldable pub Reads :
      {A : Type 0} → (Value → Type 0) → (Value → A → Type 0) → (Value → Option A) → Value → Type 0
  Reads {A} Q R f v = ((f v ≡ none) × (Q v → ⊥)) ⊎ ((a : A) × (f v ≡ some a) × Q v × R v a)

  pub filter_map-Picked :
      {A : Type 0} (Q : Value → Type 0) (R : Value → A → Type 0) (f : Value → Option A)
      → ((v : Value) → Reads Q R f v)
      → (vs : List Value) → Picked Q R vs (filter_map f vs)
  unfolding Reads filter_map
  filter_map-Picked Q R f reads [] = done
  filter_map-Picked Q R f reads (v ∷ vs) = elim (reads v) [
    | inl (refused, unfit) ↦ rw refused (dropped unfit (filter_map-Picked Q R f reads vs))
    | inr (a, taken, fit, r) ↦ rw taken (kept fit r (filter_map-Picked Q R f reads vs))
  ]

  pub read_array-items_of : (v : Value) → read_array v ≡ items_of v
  unfolding read_array
  read_array-items_of (arr vs) = refl
  read_array-items_of _ = refl

  pub read_money_mode_iff :
      (v : Value) → (read_money_mode v ≡ MoneyMode.real_money) ↔ (v ≡ str "real-money")
  unfolding read_money_mode
  read_money_mode_iff (str s) = ground (arith, eq_iff s "real-money")
  read_money_mode_iff _ = (λ e. cc, λ e. cc)

  pub text_of-Reads : (v : Value) → Reads IsText HoldsText text_of v
  unfolding Reads text_of
  text_of-Reads (str s) = inr (s, refl, (s, refl), refl)
  text_of-Reads _ = inl (refl, λ (t, e). cc)

  pub read_string_array-Picked :
      (v : Value) → Picked IsText HoldsText (items_of v) (read_string_array v)
  unfolding read_string_array
  read_string_array-Picked v =
      rw (sym (read_array-items_of v)) (filter_map-Picked IsText HoldsText text_of text_of-Reads _)

  -- The text that a value holds, by what its reader found.
  pub found_text : (v : Value) (t : String) → read_string v ≡ some t → TextOf v (some t)
  found_text v t e = subst (TextOf v) e (read_string-TextOf v)

  pub no_text : (v : Value) (t : String) → read_string v ≡ none → TextOf v (some t) → ⊥
  no_text v t e (held, full) = subst (TextOf v) e (read_string-TextOf v) t held full

  pub record_or_empty-fields_of : (v : Value) → record_or_empty v ≡ fields_of v
  unfolding record_or_empty
  record_or_empty-fields_of (obj fs) = refl
  record_or_empty-fields_of _ = refl

  pub read_trade_lock-LockOf : (v : Value) → LockOf (fields_of v) (read_trade_lock v)
  unfolding read_trade_lock
  read_trade_lock-LockOf v = rw (sym (record_or_empty-fields_of v)) (record {
    stopped = read_money_lock_state_iff _;
    stopping = read_money_lock_state_stopping_iff _;
    unavailable = read_money_lock_state_unavailable_iff _;
    changed_at = read_string-TextOf _;
  })

  pub read_control_record_iff :
      (v : Value) (scope : String)
      → ((read_control_record v scope).state ≡ AccessState.stopped)
        ↔ (get "state" (fields_of v) ≡ str "stopped")
  unfolding read_control_record
  read_control_record_iff v scope = rw (sym (record_or_empty-fields_of v)) (read_access_state_iff _)

  pub read_broker_state_down_iff :
      (v : Value) → (read_broker_state v ≡ BrokerState.down) ↔ (v ≡ str "down")
  read_broker_state_down_iff (str s) = ground (arith, eq_iff s "down", eq_iff s "degraded")
  read_broker_state_down_iff _ = (λ e. cc, λ e. cc)

  pub read_broker_state_degraded_iff :
      (v : Value) → (read_broker_state v ≡ BrokerState.degraded) ↔ (v ≡ str "degraded")
  read_broker_state_degraded_iff (str s) = (
    λ e. ground (arith, eq_iff s "down", eq_iff s "degraded"),
    λ e. subst (λ v. read_broker_state v ≡ BrokerState.degraded) (sym e) refl,
  )
  read_broker_state_degraded_iff _ = (λ e. cc, λ e. cc)

  pub read_broker_record-BrokerOf : (v : Value) → BrokerOf (fields_of v) (read_broker_record v)
  unfolding read_broker_record
  read_broker_record-BrokerOf v = rw (sym (record_or_empty-fields_of v)) (record {
    down = read_broker_state_down_iff _;
    degraded = read_broker_state_degraded_iff _;
    instance_id = read_string-TextOf _;
    started_at = read_string-TextOf _;
    sampled_at = read_string-TextOf _;
    sample_age_ms = read_number-NumberOf _;
    tier = read_string-TextOf _;
    pause_reason = read_string-TextOf _;
  })
