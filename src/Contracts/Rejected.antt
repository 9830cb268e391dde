-- ===== src/Contracts/Rejected.antt =====
-- How `parseSnapshot` of ui/src/contracts.ts refuses a payload.
use throttle_deck.Base.{
  template, [], ◌∷◌, ◌≡◌, refl, ◌⊎◌, ◌↔◌, inl, inr, String, false, Option, some, arith, Bool-cases,
}
use throttle_deck.Platform.{Platform, Num, lit}
use throttle_deck.Json.{Value, num, obj, Fields, get}
use throttle_deck.Contracts.Types.{
  GovernorSnapshot, SnapshotProblem, SnapshotParse, ok, not_ok, unsupported_schema, invalid_payload,
}
use throttle_deck.Contracts.Snapshot.{require_fields, check_version, parse_snapshot}

module _ ⦃P : Platform⦄ where
  pub SnapshotParse-cases :
      (r : SnapshotParse)
      → ((g : GovernorSnapshot) × (r ≡ ok g)) ⊎ ((p : SnapshotProblem) × (r ≡ not_ok p))
  SnapshotParse-cases (ok g) = inl (g, refl)
  SnapshotParse-cases (not_ok p) = inr (p, refl)

  -- A record with a number for its version, other than 1.
  pub record IsOtherVersion (v : Value) : Type 0 where
    pub payload : Fields
    pub is_payload : v ≡ obj payload
    pub version : Num
    pub has_version : get "schemaVersion" payload ≡ num version
    pub other : P.eq version (lit 1) ≡ false

  require_fields-kind :
      (payload : Fields) (n : Num) (r : Option Num) (t : Option String) (a b : Option Fields)
      (p : SnapshotProblem)
      → require_fields payload n r t a b ≡ not_ok p
      → p.kind ≡ invalid_payload
  unfolding require_fields
  require_fields-kind payload n (some r) (some t) (some a) (some b) p e = cc
  require_fields-kind payload n _ _ _ _ p e = ground arith

  check_version-kind :
      (payload : Fields) (v : Value) (p : SnapshotProblem)
      → check_version payload v ≡ not_ok p
      → (p.kind ≡ invalid_payload)
        ⊎ ((p.kind ≡ unsupported_schema) × ((n : Num) × (v ≡ num n) × (P.eq n (lit 1) ≡ false)))
  unfolding check_version
  check_version-kind payload (num n) p e = elim (Bool-cases (P.eq n (lit 1))) [
    | inl same ↦ inl (require_fields-kind payload n _ _ _ _ p (rw (same, check_version) at e))
    | inr other ↦ inr (ground arith, (n, refl, other))
  ]
  check_version-kind payload _ p e = inl (ground arith)

  pub parse_snapshot-problem :
      (v : Value) (p : SnapshotProblem)
      → parse_snapshot v ≡ not_ok p
      → (p.kind ≡ invalid_payload) ⊎ ((p.kind ≡ unsupported_schema) × IsOtherVersion v)
  unfolding parse_snapshot
  parse_snapshot-problem (obj payload) p e = elim (check_version-kind payload _ p e) [
    | inl invalid ↦ inl invalid
    | inr (kind, found) ↦
        let (n, has, other) = found in
        inr (
          kind,
          record {
            payload = payload;
            is_payload = refl;
            version = n;
            has_version = has;
            other = other;
          },
        )
  ]
  parse_snapshot-problem _ p e = inl (ground arith)

  abbrev version_problem : Num → SnapshotProblem
  version_problem version = record {
    kind = unsupported_schema;
    message = template (
        "Unsupported snapshot version "
        ∷ P.show version
        ∷ ". This window understands version "
        ∷ P.show (lit 1)
        ∷ "."
        ∷ []);
  }

  parse_snapshot_of_IsOtherVersion :
      (v : Value) (o : IsOtherVersion v) → parse_snapshot v ≡ not_ok (version_problem o.version)
  unfolding parse_snapshot check_version
  parse_snapshot_of_IsOtherVersion v o =
      rw (o.is_payload, parse_snapshot, o.has_version, check_version, o.other) refl

  -- A payload is refused as an unsupported version exactly if it is a record with a number other
  -- than 1 for its version.
  pub parse_snapshot-unsupported_iff :
      (v : Value)
      → ((p : SnapshotProblem) × (parse_snapshot v ≡ not_ok p) × (p.kind ≡ unsupported_schema))
        ↔ IsOtherVersion v
  parse_snapshot-unsupported_iff v = (
    λ (p, refused, kind). elim (parse_snapshot-problem v p refused) [
      | inl invalid ↦ absurd (ground arith)
      | inr (_, other) ↦ other
    ],
    λ o. (version_problem o.version, parse_snapshot_of_IsOtherVersion v o, refl),
  )
