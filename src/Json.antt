-- ===== src/Json.antt =====
-- Dynamic values: what `response.json()` gives, `undefined` for a key that is not there, and the
-- reads that ui/src/contracts.ts makes of them.
use throttle_deck.Base.{String, Bool, false, List, [], ◌∷◌, ◌==◌, if◌then◌else◌}
use throttle_deck.Platform.{Platform, Num}

module _ ⦃P : Platform⦄ where
  mutual
    -- the keys of an object, in their order
    pub data Fields : Type 0 where
      field : String → Value → Fields → Fields
      end : Fields

    pub data Items : Type 0 where
      cons : Value → Items → Items
      nil : Items

    pub data Value : Type 0 where
      undefined null : Value
      bool : Bool → Value
      num : Num → Value
      str : String → Value
      obj : Fields → Value
      arr : Items → Value

  -- The elements of an array.
  abbrev pub elems : Items → List Value
  elems nil = []
  elems (cons v vs) = v ∷ elems vs

  -- `Object.entries`
  abbrev pub entries : Fields → List (String × Value)
  entries end = []
  entries (field k v fs) = (k, v) ∷ entries fs

  -- `record[key]`, for the keys of the source, none of which `Object.prototype` has
  abbrev pub get : String → Fields → Value
  get k end = undefined
  get k (field j v fs) = if j == k then v else get k fs

  -- `v ?? w`
  abbrev pub coalesce : Value → Value → Value
  coalesce undefined w = w
  coalesce null w = w
  coalesce v w = v

  -- `value === text`
  abbrev pub is_text : Value → String → Bool
  is_text (str s) t = s == t
  is_text v t = false
