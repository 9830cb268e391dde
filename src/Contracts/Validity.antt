-- ===== src/Contracts/Validity.antt =====
-- Every snapshot that `parseSnapshot` of ui/src/contracts.ts accepts is well formed.
use throttle_deck.Base.{
  some_inj, subst, refl, inl, inr, String, ◌≡◌, ◌≢◌, Option, none, some, List, [], ◌∷◌, map,
  filter_map, All, arith, eq_iff, or_default, Option-cases,
}
use throttle_deck.Platform.{Platform, Num, lit, Laws}
use throttle_deck.Json.{Value, null, num, str, obj, Fields, get}
use throttle_deck.Contracts.Types.{BudgetId, VenueSplit, AppRow, ActivityEvent}
use throttle_deck.Contracts.Readers.{get_either, read_number, read_string, read_control_record}
use throttle_deck.Contracts.Rows.{
  app_row, round_point, read_budget, read_series_point, read_venue_split, read_app_row,
  read_activity_event, read_broker_record,
}
use throttle_deck.Contracts.WellFormed.{
  IsText, IsFinite, IsNumber, IsControl, IsBudget, IsSplit, IsPoint, IsRounded, IsRow, IsBroker,
  IsEvent,
}

module _ {A B : Type 0} (Q : B → Type 0) where
  pub filter_map-All :
      (f : A → Option B)
      → ((x : A) (y : B) → f x ≡ some y → Q y)
      → (xs : List A) → All Q (filter_map f xs)
  unfolding filter_map
  filter_map-All f h [] = tt
  filter_map-All f h (x ∷ xs) = elim (Option-cases (f x)) [
    | inl skipped ↦ rw skipped (filter_map-All f h xs)
    | inr (y, kept) ↦ rw kept (h x y kept, filter_map-All f h xs)
  ]

  pub map-All : (f : A → B) → ((x : A) → Q (f x)) → (xs : List A) → All Q (map f xs)
  map-All f h [] = tt
  map-All f h (x ∷ xs) = (h x, map-All f h xs)

module _ ⦃P : Platform⦄ where
  pub read_number-IsNumber : (v : Value) → IsNumber (read_number v)
  unfolding read_number
  read_number-IsNumber (num n) = ground arith
  read_number-IsNumber _ = tt

  pub read_string-IsText : (v : Value) → IsText (read_string v)
  unfolding read_string
  read_string-IsText (str s) = ground (arith, eq_iff s "")
  read_string-IsText _ = tt

  pub number_or : (v : Value) (d : Num) → IsFinite d → IsFinite (or_default (read_number v) d)
  number_or v d h = ground (arith, read_number-IsNumber v)

  pub text_or : (v : Value) (d : String) → d ≢ "" → or_default (read_string v) d ≢ ""
  text_or v d h = ground (arith, read_string-IsText v)

pub none-ne-some : {A : Type 0} {a : A} → ◌≡◌ {A = Option A} none (some a) → ⊥
none-ne-some e = cc

module _ ⦃P : Platform⦄ where
  pub text_found : (v : Value) {s : String} → read_string v ≡ some s → s ≢ ""
  text_found v e = rw e at (read_string-IsText v)

module _ ⦃P : Platform⦄ (laws : Laws P) where
  pub read_control_record-IsControl :
      (v : Value) (scope : String) → scope ≢ "" → IsControl (read_control_record v scope)
  unfolding read_control_record
  read_control_record-IsControl v scope h = record {
    scope = text_or _ scope h;
    revision = number_or _ _ (laws.lit_finite 0 (omega arith));
    changed_at = read_string-IsText _;
    reason = read_string-IsText _;
  }

  pub read_budget-IsBudget : (v : Value) (id : BudgetId) → IsBudget (read_budget v id)
  unfolding read_budget
  read_budget-IsBudget (obj value) id = record {
    venue = refl;
    product = refl;
    unit = refl;
    available_now = read_number-IsNumber _;
    capacity = read_number-IsNumber _;
    refill_per_second = read_number-IsNumber _;
    queue_depth = read_number-IsNumber _;
    recent_pressure_ratio = read_number-IsNumber _;
    throttled_with_headroom = read_number-IsNumber _;
    throttled_with_headroom_delta = read_number-IsNumber _;
    series = map-All IsFinite _ (λ v. number_or v (lit 0) (laws.lit_finite 0 (omega arith))) _;
    sampled_at = read_string-IsText _;
  }
  read_budget-IsBudget _ id = record {
    venue = refl;
    product = refl;
    unit = refl;
    available_now = tt;
    capacity = tt;
    refill_per_second = tt;
    queue_depth = tt;
    recent_pressure_ratio = tt;
    throttled_with_headroom = tt;
    throttled_with_headroom_delta = tt;
    series = tt;
    sampled_at = tt;
  }

  IsPoint-of_number : (o : Option Num) → IsNumber o → IsPoint (round_point o)
  IsPoint-of_number none h = tt
  IsPoint-of_number (some n) h = (
    laws.max_finite _ _ (laws.lit_finite 0 (omega arith)) (laws.round_finite n h),
    laws.max-not-lt _ _,
  )

  round_point-IsRounded : (o : Option Num) → IsRounded (round_point o)
  round_point-IsRounded none = tt
  round_point-IsRounded (some n) =
      laws.round_max (lit 0) (P.round n) (laws.round_lit 0 (omega arith)) (laws.round_round n)

  read_series_point-IsRounded : (v : Value) → IsRounded (read_series_point v)
  unfolding read_series_point
  read_series_point-IsRounded null = tt
  read_series_point-IsRounded v = round_point-IsRounded _

  read_series_point-IsPoint : (v : Value) → IsPoint (read_series_point v)
  unfolding read_series_point
  read_series_point-IsPoint null = tt
  read_series_point-IsPoint v = IsPoint-of_number _ (read_number-IsNumber v)

  read_venue_split-IsSplit : (v : Value) (s : VenueSplit) → read_venue_split v ≡ some s → IsSplit s
  unfolding read_venue_split
  read_venue_split-IsSplit (obj item) s e = elim (Option-cases (read_string (get "venue" item))) [
    | inl missing ↦ absurd (none-ne-some (rw (missing, read_venue_split) at e))
    | inr (venue, found) ↦ subst IsSplit (some_inj (rw (found, read_venue_split) at e)) (record {
      venue = text_found _ found;
      count = number_or _ _ (laws.lit_finite 0 (omega arith));
      upstream_429s = read_number-IsNumber _;
      headroom_429s = read_number-IsNumber _;
      queue_wait_ms = read_number-IsNumber _;
    })
  ]
  read_venue_split-IsSplit _ s e = cc

  app_row-IsRow :
      (app_id name : String) (value : Fields)
      → app_id ≢ ""
      → name ≢ ""
      → IsRow (app_row app_id name value)
  app_row-IsRow app_id name value h k = record {
    app_id = h;
    name = k;
    coverage_note = read_string-IsText _;
    recent_requests = read_number-IsNumber _;
    request_series = map-All IsPoint _ read_series_point-IsPoint _;
    rounded_series = map-All IsRounded _ read_series_point-IsRounded _;
    recent_window_seconds = read_number-IsNumber _;
    queue_wait_ms = read_number-IsNumber _;
    errors = read_number-IsNumber _;
    venue_split = filter_map-All IsSplit _ read_venue_split-IsSplit _;
    last_request_at = read_string-IsText _;
  }

  pub read_app_row-IsRow : (v : Value) (a : AppRow) → read_app_row v ≡ some a → IsRow a
  unfolding read_app_row
  read_app_row-IsRow (obj value) a e =
      elim (Option-cases (read_string (get_either "app_id" "appId" value))) [
        | inl missing ↦ absurd (none-ne-some (rw (missing, read_app_row) at e))
        | inr (app_id, found) ↦ elim (Option-cases (read_string (get "name" value))) [
          | inl missing ↦ absurd (none-ne-some (rw (found, missing, read_app_row) at e))
          | inr (name, named) ↦
              subst IsRow (some_inj (rw (found, named, read_app_row) at e))
                (app_row-IsRow app_id name value (text_found _ found) (text_found _ named))
        ]
      ]
  read_app_row-IsRow _ a e = cc

  pub read_activity_event-IsEvent :
      (v : Value) (a : ActivityEvent) → read_activity_event v ≡ some a → IsEvent a
  unfolding read_activity_event
  read_activity_event-IsEvent (obj value) a e = elim (Option-cases (read_string (get "at" value))) [
    | inl missing ↦ absurd (none-ne-some (rw (missing, read_activity_event) at e))
    | inr (at, found) ↦ elim (Option-cases (read_string (get "kind" value))) [
      | inl missing ↦ absurd (none-ne-some (rw (found, missing, read_activity_event) at e))
      | inr (kind, kinded) ↦
          subst IsEvent (some_inj (rw (found, kinded, read_activity_event) at e)) (record {
            at = text_found _ found;
            kind = text_found _ kinded;
            detail = read_string-IsText _;
            app_id = read_string-IsText _;
          })
    ]
  ]
  read_activity_event-IsEvent _ a e = cc

  pub read_broker_record-IsBroker : (v : Value) → IsBroker (read_broker_record v)
  unfolding read_broker_record
  read_broker_record-IsBroker v = record {
    instance_id = read_string-IsText _;
    started_at = read_string-IsText _;
    sampled_at = read_string-IsText _;
    sample_age_ms = read_number-IsNumber _;
    tier = read_string-IsText _;
    pause_reason = read_string-IsText _;
  }
