-- ===== src/Derive/Access.antt =====
-- What ui/src/derive.ts reads of the access map that ui/src/contracts.ts fills.
use throttle_deck.Base.{
  ◌≡◌, refl, ◌∙◌, ap, String, false, Option, none, some, List, [], ◌∷◌, ◌==◌, arith, eq_iff,
  if◌then◌else◌, Bool-cases, Option-cases, template, inl, inr,
}
use throttle_deck.Platform.{Platform}
use throttle_deck.Json.{Value, get, entries}
use throttle_deck.Contracts.{
  AccessState, ControlRecord, AppsAccess, AppRow, GovernorSnapshot, put, assign, assign_all,
  read_apps_access, read_control_record, record_or_empty, read_access_state,
}
use throttle_deck.Derive.Apps.{lookup_own, recorded_state, app_access_record}

module _ ⦃P : Platform⦄ where
  -- The last value that the entries give a key.
  abbrev pub last_value : String → List (String × Value) → Option Value
  last_value k [] = none
  last_value k ((j, v) ∷ rest) = elim (last_value k rest) [
    | some w ↦ some w
    | none ↦ if j == k then some v else none
  ]

  abbrev pub record_of : String → Value → ControlRecord
  record_of app_id v = read_control_record v (template ("broker:app:" ∷ app_id ∷ []))

  lookup_own-put :
      (k j : String) (r : ControlRecord) (own : List (String × ControlRecord))
      → lookup_own k (put j r own) ≡ (if j == k then some r else lookup_own k own)
  unfolding lookup_own put
  lookup_own-put k j r [] = refl
  lookup_own-put k j r ((i, s) ∷ rest) = elim (Bool-cases (i == j)) [
    | inl same ↦ rw same (ground (arith, eq_iff i j))
    | inr other ↦
        rw other (ground (arith, lookup_own-put k j r rest, eq_iff i k, eq_iff j k, eq_iff i j))
  ]

  lookup_own-assign :
      (k j : String) (r : ControlRecord) (m : AppsAccess)
      → (k == "__proto__") ≡ false
      → lookup_own k (assign j r m).own ≡ (if j == k then some r else lookup_own k m.own)
  unfolding assign
  lookup_own-assign k j r m h = elim (Bool-cases (j == "__proto__")) [
    | inl proto ↦ rw proto (ground (arith, eq_iff j k, eq_iff j "__proto__"))
    | inr own ↦ rw own (lookup_own-put k j r m.own)
  ]

  lookup_own-assign_all :
      (k : String) (es : List (String × Value)) (m : AppsAccess)
      → (k == "__proto__") ≡ false
      → lookup_own k (assign_all es m).own
        ≡ elim (last_value k es) [ some v ↦ some (record_of k v) | none ↦ lookup_own k m.own ]
  unfolding assign_all
  lookup_own-assign_all k [] m h = refl
  lookup_own-assign_all k ((j, v) ∷ rest) m h =
      lookup_own-assign_all k rest _ h ∙ elim (Option-cases (last_value k rest)) [
        | inr (w, later) ↦ rw later refl
        | inl missing ↦ rw missing (
            lookup_own-assign k j (record_of j v) m h ∙ elim (Bool-cases (j == k)) [
              | inr other ↦ rw other refl
              | inl same ↦ rw same (ap (λ i. some (record_of i v)) ((eq_iff j k).0 same))
            ])
      ]

  state_or : Option ControlRecord → AccessState → AccessState
  state_or none fallback = fallback
  state_or (some r) fallback = r.state

  app_access_record-own :
      (g : GovernorSnapshot) (app : AppRow) (o : Option ControlRecord)
      → lookup_own app.app_id g.broker_access.apps.own ≡ o
      → (app.app_id == "__proto__") ≡ false
      → app_access_record g app ≡ state_or o app.access
  unfolding app_access_record recorded_state state_or
  app_access_record-own g app o e h = ground arith

  -- Of a snapshot whose access map was read from the service's, `appAccessRecord` gives an application
  -- what the last entry under its id says, and the application's own access where there is none, if
  -- the id is not `__proto__`.
  pub app_access_record-read :
      (raw : Value) (app : AppRow) (g : GovernorSnapshot)
      → g.broker_access.apps ≡ read_apps_access raw
      → (app.app_id == "__proto__") ≡ false
      → app_access_record g app ≡ elim (last_value app.app_id (entries (record_or_empty raw))) [
        | some v ↦ read_access_state (get "state" (record_or_empty v))
        | none ↦ app.access
      ]
  unfolding read_apps_access read_control_record state_or lookup_own
  app_access_record-read raw app g e h =
      app_access_record-own g app _
        (ap (λ (m : AppsAccess). lookup_own app.app_id m.own) e
          ∙ lookup_own-assign_all app.app_id (entries (record_or_empty raw)) _ h)
        h
      ∙ elim (Option-cases (last_value app.app_id (entries (record_or_empty raw)))) [
        | inl missing ↦ rw missing refl
        | inr (v, found) ↦ rw found refl
      ]
