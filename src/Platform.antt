-- ===== src/Platform.antt =====
-- The JavaScript platform that the window runs on: the values of type `number` (IEEE doubles, which
-- have no counterpart here), and the built-in functions whose results the source only passes on.
use throttle_deck.Base.{◌<◌, ◌≤◌, ◌-◌, ltb, ℕ, String, ◌≡◌, Bool, true, false}

pub record Platform : Type 1 where
  pub Num : Type 0
  -- a numeral of the source
  pub of_ℕ : ℕ → Num
  pub is_finite : Num → Bool
  pub is_integer : Num → Bool
  pub is_nan : Num → Bool
  -- `===` and `<`
  pub eq : Num → Num → Bool
  pub lt : Num → Num → Bool
  pub add : Num → Num → Num
  pub sub : Num → Num → Num
  pub mul : Num → Num → Num
  pub div : Num → Num → Num
  pub rem : Num → Num → Num
  -- `Infinity` and `-Infinity`
  pub infinity : Num
  pub minus_infinity : Num
  -- the functions of `Math`
  pub max : Num → Num → Num
  pub min : Num → Num → Num
  pub round : Num → Num
  pub floor : Num → Num
  -- `${n}` and `n.toFixed(1)`
  pub show : Num → String
  pub to_fixed_1 : Num → String
  -- `Date.parse`, NaN on what it cannot read, the ISO text of a time, and the local hours,
  -- minutes and seconds of one
  pub date_parse : String → Num
  pub to_iso_string : Num → String
  pub hours : Num → Num
  pub minutes : Num → Num
  pub seconds : Num → Num
  pub trim : String → String
  pub encode_uri_component : String → String

module _ ⦃P : Platform⦄ where
  abbrev pub Num : Type 0
  Num = P.Num

  abbrev pub lit : ℕ → Num
  lit = P.of_ℕ

-- The integers below it are doubles: 2 ^ 53.
abbrev pub exact : ℕ
exact = 9007199254740992

-- What IEEE arithmetic and `Math` promise of these operations, as far as the theorems rest on it.
-- Every comparison with NaN is false.
pub record Laws (P : Platform) : Type 0 where
  pub lit_finite : (n : ℕ) → n < exact → P.is_finite (P.of_ℕ n) ≡ true
  pub lit_eq : (n : ℕ) → P.eq (P.of_ℕ n) (P.of_ℕ n) ≡ true
  pub lit_lt : (m n : ℕ) → m < exact → n < exact → P.lt (P.of_ℕ m) (P.of_ℕ n) ≡ ltb m n
  pub lt_trans : (a b c : P.Num) → P.lt a b ≡ true → P.lt b c ≡ true → P.lt a c ≡ true
  pub finite_not_nan : (a : P.Num) → P.is_finite a ≡ true → P.is_nan a ≡ false
  pub round_finite : (a : P.Num) → P.is_finite a ≡ true → P.is_finite (P.round a) ≡ true
  -- Rounding leaves what is whole, and a maximum is one of its numbers or NaN.
  pub round_round : (a : P.Num) → P.round (P.round a) ≡ P.round a
  pub round_lit : (n : ℕ) → n < exact → P.round (P.of_ℕ n) ≡ P.of_ℕ n
  pub round_max : (a b : P.Num) → P.round a ≡ a → P.round b ≡ b → P.round (P.max a b) ≡ P.max a b
  pub round_not_nan : (a : P.Num) → P.is_nan a ≡ false → P.is_nan (P.round a) ≡ false
  -- A quotient of finite numbers is NaN only as 0 / 0, a product with 100 only for NaN.
  pub div_not_nan :
      (a b : P.Num)
      → P.is_finite a ≡ true
      → P.is_finite b ≡ true
      → P.eq b (P.of_ℕ 0) ≡ false
      → P.is_nan (P.div a b) ≡ false
  pub mul_not_nan : (a : P.Num) → P.is_nan a ≡ false → P.is_nan (P.mul a (P.of_ℕ 100)) ≡ false
  pub max_finite :
      (a b : P.Num) → P.is_finite a ≡ true → P.is_finite b ≡ true → P.is_finite (P.max a b) ≡ true
  pub max_not_nan :
      (a b : P.Num) → P.is_nan a ≡ false → P.is_nan b ≡ false → P.is_nan (P.max a b) ≡ false
  pub min_not_nan :
      (a b : P.Num) → P.is_nan a ≡ false → P.is_nan b ≡ false → P.is_nan (P.min a b) ≡ false
  -- A maximum is not below the first of its numbers, nor above what neither is above; a minimum is
  -- not above the first.
  pub max-not-lt : (a b : P.Num) → P.lt (P.max a b) a ≡ false
  pub max_upper : (a b c : P.Num) → P.lt c a ≡ false → P.lt c b ≡ false → P.lt c (P.max a b) ≡ false
  pub min-not-gt : (a b : P.Num) → P.lt a (P.min a b) ≡ false
  -- A maximum is not below what its second number is not below.
  pub max_lower : (a b c : P.Num) → P.lt b c ≡ false → P.lt (P.max a b) c ≡ false
  pub minus_infinity_not_nan : P.is_nan P.minus_infinity ≡ false
  -- The order of the numbers that are not NaN is total, and equal numbers are below the same.
  pub not_lt_trans :
      (a b c : P.Num) → P.is_nan b ≡ false → P.lt a b ≡ false → P.lt b c ≡ false → P.lt a c ≡ false
  pub lt_total :
      (a b : P.Num)
      → P.is_nan a ≡ false
      → P.is_nan b ≡ false
      → P.eq a b ≡ false
      → P.lt a b ≡ false
      → P.lt b a ≡ true
  pub eq_lt : (a b c : P.Num) → P.eq a b ≡ true → P.lt a c ≡ P.lt b c
  -- The share of a finite number in one that it is not above is from 0 to 1, and such a share of a
  -- finite number is not above it.
  pub div_unit :
      (a b : P.Num)
      → P.is_finite a ≡ true
      → P.lt a (P.of_ℕ 0) ≡ false
      → P.lt (P.of_ℕ 0) b ≡ true
      → P.lt b a ≡ false
      → (P.lt (P.of_ℕ 1) (P.div a b) ≡ false) × (P.lt (P.div a b) (P.of_ℕ 0) ≡ false)
  pub mul_unit :
      (q c : P.Num)
      → P.lt (P.of_ℕ 1) q ≡ false
      → P.lt q (P.of_ℕ 0) ≡ false
      → P.is_finite c ≡ true
      → P.lt c (P.of_ℕ 0) ≡ false
      → P.lt c (P.mul q c) ≡ false
  -- The difference of integers that are doubles, where it is not negative, is exact.
  pub lit_sub : (m n : ℕ) → m < exact → n ≤ m → P.sub (P.of_ℕ m) (P.of_ℕ n) ≡ P.of_ℕ (m - n)
