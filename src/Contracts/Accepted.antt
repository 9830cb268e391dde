-- ===== src/Contracts/Accepted.antt =====
-- What `parseSnapshot` of ui/src/contracts.ts accepts, and what it makes of it.
use throttle_deck.Base.{String, ◌≡◌, ◌≢◌, refl, ◌↔◌, true, Option, some, arith, eq_iff, subst}
use throttle_deck.Platform.{Platform, Num, lit, Laws}
use throttle_deck.Json.{Value, num, str, obj, Fields, get}
use throttle_deck.Contracts.Types.{GovernorSnapshot, ok}
use throttle_deck.Contracts.Readers.{as_record, get_either, read_number, read_string}
use throttle_deck.Contracts.Snapshot.{build_snapshot, require_fields, check_version, parse_snapshot}
use throttle_deck.Contracts.Built.{build_snapshot-IsSnapshot}
use throttle_deck.Contracts.WellFormed.{IsFinite, IsSnapshot}

module _ ⦃P : Platform⦄ where
  -- What a payload must hold to be accepted, on its JSON values alone.
  pub record IsComplete (v : Value) : Type 0 where
    pub payload : Fields
    pub is_payload : v ≡ obj payload
    pub version : Num
    pub has_version : get "schemaVersion" payload ≡ num version
    pub supported : P.eq version (lit 1) ≡ true
    pub revision : Num
    pub has_revision : get "revision" payload ≡ num revision
    pub finite_revision : IsFinite revision
    pub generated_at : String
    pub has_generated_at : get_either "generatedAt" "generated_at" payload ≡ str generated_at
    pub generated : generated_at ≢ ""
    pub access : Fields
    pub has_access : get_either "brokerAccess" "broker_access" payload ≡ obj access
    pub broker : Fields
    pub has_broker : get "broker" payload ≡ obj broker

  -- The snapshot that is built of a complete payload.
  abbrev pub stands_for : {v : Value} → IsComplete v → GovernorSnapshot
  stands_for c = build_snapshot c.payload c.version c.revision c.generated_at c.access

  read_number_inv : (v : Value) (n : Num) → read_number v ≡ some n → (v ≡ num n) × IsFinite n
  unfolding read_number
  read_number_inv (num m) n e = ground arith
  read_number_inv _ n e = cc

  read_string_inv : (v : Value) (s : String) → read_string v ≡ some s → (v ≡ str s) × (s ≢ "")
  unfolding read_string
  read_string_inv (str t) s e = ground (arith, eq_iff t "")
  read_string_inv _ s e = cc

  as_record_inv : (v : Value) (fs : Fields) → as_record v ≡ some fs → v ≡ obj fs
  unfolding as_record
  as_record_inv (obj gs) fs e = ground arith
  as_record_inv _ fs e = cc

  module _ (payload : Fields) (version : Num) (g : GovernorSnapshot) where
    require_fields_inv :
        (r : Option Num) (t : Option String) (a b : Option Fields)
        → require_fields payload version r t a b ≡ ok g
        → (n : Num) × (s : String) × (access broker : Fields) × (r ≡ some n)
          × (t ≡ some s)
          × (a ≡ some access)
          × (b ≡ some broker)
          × (build_snapshot payload version n s access ≡ g)
    unfolding require_fields
    require_fields_inv (some n) (some s) (some access) (some broker) e =
        (n, s, access, broker, refl, refl, refl, refl, cc)
    require_fields_inv _ _ _ _ e = cc

  check_version_inv :
      (payload : Fields) (v : Value) (g : GovernorSnapshot)
      → check_version payload v ≡ ok g
      → (n : Num) × (v ≡ num n)
        × (P.eq n (lit 1) ≡ true)
        × (require_fields payload n
              (read_number (get "revision" payload))
              (read_string (get_either "generatedAt" "generated_at" payload))
              (as_record (get_either "brokerAccess" "broker_access" payload))
              (as_record (get "broker" payload))
            ≡ ok g)
  unfolding check_version
  check_version_inv payload (num n) g e = (n, refl, ground arith, ground arith)
  check_version_inv payload _ g e = cc

  pub parse_snapshot-IsComplete :
      (v : Value) (g : GovernorSnapshot)
      → parse_snapshot v ≡ ok g
      → (c : IsComplete v) × (stands_for c ≡ g)
  unfolding parse_snapshot
  parse_snapshot-IsComplete (obj payload) g e =
      let (n, is_num, supported, required) = check_version_inv payload _ g e in
      let (r, t, access, broker, er, et, ea, eb, built) =
        require_fields_inv payload n g _ _ _ _ required in
      let (has_r, finite) = read_number_inv _ r er in
      let (has_t, ne) = read_string_inv _ t et in
      (
        record {
          payload = payload;
          is_payload = refl;
          version = n;
          has_version = is_num;
          supported = supported;
          revision = r;
          has_revision = has_r;
          finite_revision = finite;
          generated_at = t;
          has_generated_at = has_t;
          generated = ne;
          access = access;
          has_access = as_record_inv _ access ea;
          broker = broker;
          has_broker = as_record_inv _ broker eb;
        },
        built,
      )
  parse_snapshot-IsComplete _ g e = cc

  parse_snapshot_of_IsComplete :
      (v : Value) (c : IsComplete v) → parse_snapshot v ≡ ok (stands_for c)
  unfolding parse_snapshot check_version require_fields read_number read_string as_record
  parse_snapshot_of_IsComplete v c =
      rw
        (
          c.is_payload, parse_snapshot, c.has_version, check_version, c.supported, c.has_revision,
          c.has_generated_at, c.has_access, c.has_broker,
        )
        (ground (arith, eq_iff c.generated_at ""))

  -- A payload is accepted exactly when it is complete: a record of version 1 with a finite revision,
  -- a text for the time that is not empty, and records for the broker access and the broker.
  pub parse_snapshot-ok_iff :
      (v : Value) → ((g : GovernorSnapshot) × (parse_snapshot v ≡ ok g)) ↔ IsComplete v
  parse_snapshot-ok_iff v = (
    λ (g, e). (parse_snapshot-IsComplete v g e).0,
    λ c. (stands_for c, parse_snapshot_of_IsComplete v c),
  )

  -- By the laws of the numbers, an accepted snapshot is well formed: its numbers are finite, its texts
  -- but for the callers' labels are not empty, its budgets are the three in their order, each with its
  -- venue, product and unit, and a point of a request series is unknown, or rounded and not negative.
  pub parse_snapshot-IsSnapshot :
      (laws : Laws P) (v : Value) (g : GovernorSnapshot) → parse_snapshot v ≡ ok g → IsSnapshot g
  parse_snapshot-IsSnapshot laws v g e =
      let (c, same) = parse_snapshot-IsComplete v g e in
      subst IsSnapshot same (
        build_snapshot-IsSnapshot laws c.payload c.version c.revision c.generated_at c.access
          c.supported c.finite_revision c.generated)
