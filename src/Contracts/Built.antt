-- ===== src/Contracts/Built.antt =====
-- The snapshot that `parseSnapshot` of ui/src/contracts.ts builds is well formed.
use text.Mathlib.TextLemmas.{append-eq-nil_iff}
use throttle_deck.Base.{
  String, ◌≡◌, ◌≢◌, refl, inl, inr, true, none, List, [], ◌∷◌, map, All, arith, eq_iff, Bool-cases,
  template, ◌==◌,
}
use throttle_deck.Platform.{Platform, Num, lit, Laws}
use throttle_deck.Json.{Value, obj, Fields, get, entries}
use throttle_deck.Contracts.Types.{BudgetId, ControlRecord, Budget, AppsAccess}
use throttle_deck.Contracts.Readers.{record_or_empty, read_array}
use throttle_deck.Contracts.Rows.{budget_ids, read_budget}
use throttle_deck.Contracts.Snapshot.{
  find_budget, put, assign, assign_all, read_apps_access, read_trade_lock, build_snapshot,
}
use throttle_deck.Contracts.WellFormed.{
  IsFinite, IsControl, IsLock, IsBudget, IsRow, IsEvent, IsAccess, IsSnapshot,
}
use throttle_deck.Contracts.Validity.{
  map-All, filter_map-All, read_string-IsText, number_or, text_or, read_control_record-IsControl,
  read_budget-IsBudget, read_app_row-IsRow, read_activity_event-IsEvent,
  read_broker_record-IsBroker,
}

app_scope-ne-nil : (app_id : String) → template ("broker:app:" ∷ app_id ∷ []) ≢ ""
app_scope-ne-nil app_id h = ground (arith, append-eq-nil_iff.0 h, eq_iff "broker:app:" "")

module _ ⦃P : Platform⦄ where
  read_budget-id : (v : Value) (id : BudgetId) → (read_budget v id).id ≡ id
  unfolding read_budget
  read_budget-id (obj value) id = refl
  read_budget-id _ id = refl

  find_budget-ids :
      (raw : List Value)
      → map (λ (b : Budget). b.id) (map (find_budget raw) budget_ids) ≡ budget_ids
  unfolding find_budget
  find_budget-ids raw = simp read_budget-id

module _ ⦃P : Platform⦄ (laws : Laws P) where
  put-All :
      (k : String) (r : ControlRecord) (own : List (String × ControlRecord))
      → IsControl r
      → All (λ (e : String × ControlRecord). IsControl e.1) own
      → All (λ (e : String × ControlRecord). IsControl e.1) (put k r own)
  unfolding put
  put-All k r [] h a = (h, tt)
  put-All k r ((j, s) ∷ rest) h (b, a) = elim (Bool-cases (j == k)) [
    | inl same ↦ rw same (h, a)
    | inr other ↦ rw other (b, put-All k r rest h a)
  ]

  assign-IsAccess :
      (k : String) (r : ControlRecord) (m : AppsAccess)
      → IsControl r
      → IsAccess m
      → IsAccess (assign k r m)
  unfolding assign
  assign-IsAccess k r m h v = elim (Bool-cases (k == "__proto__")) [
    | inl proto ↦ rw proto (record { own = v.own; proto = h })
    | inr own ↦ rw own (record { own = put-All k r m.own h v.own; proto = v.proto })
  ]

  assign_all-IsAccess :
      (es : List (String × Value)) (m : AppsAccess) → IsAccess m → IsAccess (assign_all es m)
  unfolding assign_all
  assign_all-IsAccess [] m h = h
  assign_all-IsAccess ((app_id, v) ∷ rest) m h = assign_all-IsAccess rest _ (
      assign-IsAccess app_id _ m (read_control_record-IsControl laws v _ (app_scope-ne-nil app_id))
        h)

  read_trade_lock-IsLock : (v : Value) → IsLock (read_trade_lock v)
  unfolding read_trade_lock
  read_trade_lock-IsLock v = record {
    scope = text_or _ _ (ground (arith, eq_iff "trade:new-orders:execution" ""));
    app_id = text_or _ _ (ground (arith, eq_iff "execution" ""));
    app_name = text_or _ _ (ground (arith, eq_iff "Protected app" ""));
    confirmation_phrase = text_or _ _ (ground (arith, eq_iff "UNLOCK NEW ORDERS" ""));
    revision = number_or _ _ (laws.lit_finite 0 (omega arith));
    changed_at = read_string-IsText _;
  }

  read_apps_access-IsAccess : (v : Value) → IsAccess (read_apps_access v)
  unfolding read_apps_access
  read_apps_access-IsAccess v =
      assign_all-IsAccess (entries (record_or_empty v)) (record { own = []; proto = none })
        (record { own = tt; proto = tt })

  find_budget-IsBudget : (raw : List Value) (id : BudgetId) → IsBudget (find_budget raw id)
  unfolding find_budget
  find_budget-IsBudget raw id = read_budget-IsBudget laws _ id

  pub build_snapshot-IsSnapshot :
      (payload : Fields) (version revision : Num) (at : String) (access : Fields)
      → P.eq version (lit 1) ≡ true
      → IsFinite revision
      → at ≢ ""
      → IsSnapshot (build_snapshot payload version revision at access)
  unfolding build_snapshot
  build_snapshot-IsSnapshot payload version revision at access v r a = record {
    schema_version = v;
    revision = r;
    generated_at = a;
    broker = read_broker_record-IsBroker laws _;
    global = read_control_record-IsControl laws _ _ (ground (arith, eq_iff "broker:global" ""));
    access = read_apps_access-IsAccess _;
    trade_lock = read_trade_lock-IsLock _;
    budget_order = find_budget-ids (read_array (get "budgets" payload));
    budgets = map-All IsBudget _ (find_budget-IsBudget _) budget_ids;
    apps = filter_map-All IsRow _ (read_app_row-IsRow laws) _;
    activity = filter_map-All IsEvent _ (read_activity_event-IsEvent laws) _;
  }
