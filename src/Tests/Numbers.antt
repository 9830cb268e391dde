-- ===== src/Tests/Numbers.antt =====
-- A platform on which the laws hold: its numbers are the natural numbers, each of them finite.
use Prim.Native.Nat.{max, min, ◌*◌, ◌/◌, ◌%◌}
use throttle_deck.Base.{
  ℕ, zero, suc, if◌then◌else◌, ◌+◌, ◌-◌, true, false, ltb, ◌=ℕ=◌, ◌≡◌, refl, arith,
}
use throttle_deck.Platform.{Platform, Laws}

-- The quotient, rounded down.
abbrev share : ℕ → ℕ → ℕ
share a b = if ltb a b then 0 else if a =ℕ= b then 1 else a / b

instance abbrev pub whole : Platform
whole = record {
  Num = ℕ;
  of_ℕ = λ n. n;
  is_finite = λ _. true;
  is_integer = λ _. true;
  is_nan = λ _. false;
  eq = λ a b. a =ℕ= b;
  lt = ltb;
  add = λ a b. a + b;
  sub = λ a b. a - b;
  mul = λ a b. a * b;
  div = share;
  rem = λ a b. a % b;
  infinity = 1000000000000;
  minus_infinity = 0;
  max = max;
  min = min;
  round = λ a. a;
  floor = λ a. a;
  show = λ _. "7";
  to_fixed_1 = λ _. "7.0";
  date_parse = λ _. 1000;
  to_iso_string = λ _. "1970-01-01T00:00:00.000Z";
  hours = λ _. 0;
  minutes = λ _. 0;
  seconds = λ _. 1;
  trim = λ s. s;
  encode_uri_component = λ s. s;
}

eq_self : (n : ℕ) → (n =ℕ= n) ≡ true
eq_self n = ground arith

lt_trans : (a b c : ℕ) → ltb a b ≡ true → ltb b c ≡ true → ltb a c ≡ true
lt_trans a b c h k = ground arith

max-not-lt : (a b : ℕ) → ltb (max a b) a ≡ false
max-not-lt a b = ground arith

max_upper : (a b c : ℕ) → ltb c a ≡ false → ltb c b ≡ false → ltb c (max a b) ≡ false
max_upper a b c h k = ground arith

min-not-gt : (a b : ℕ) → ltb a (min a b) ≡ false
min-not-gt a b = ground arith

max_lower : (a b c : ℕ) → ltb b c ≡ false → ltb (max a b) c ≡ false
max_lower a b c h = ground arith

not_lt_trans : (a b c : ℕ) → ltb a b ≡ false → ltb b c ≡ false → ltb a c ≡ false
not_lt_trans a b c h k = ground arith

lt_total : (a b : ℕ) → (a =ℕ= b) ≡ false → ltb a b ≡ false → ltb b a ≡ true
lt_total a b h k = ground arith

eq_lt : (a b c : ℕ) → (a =ℕ= b) ≡ true → ltb a c ≡ ltb b c
eq_lt a b c h = ground arith

div_unit :
    (a b : ℕ)
    → ltb 0 b ≡ true
    → ltb b a ≡ false
    → (ltb 1 (share a b) ≡ false) × (ltb (share a b) 0 ≡ false)
div_unit a b h k = ground arith

mul_unit : (q c : ℕ) → ltb 1 q ≡ false → ltb c (q * c) ≡ false
mul_unit zero c h = ground arith
mul_unit (suc zero) c h = ground arith
mul_unit (suc (suc q)) c h = ground arith

pub whole-Laws : Laws whole
whole-Laws = record {
  lit_finite = λ n h. refl;
  lit_eq = eq_self;
  lit_lt = λ m n h k. refl;
  lt_trans = lt_trans;
  finite_not_nan = λ a h. refl;
  round_finite = λ a h. refl;
  round_round = λ a. refl;
  round_lit = λ n h. refl;
  round_max = λ a b h k. refl;
  round_not_nan = λ a h. refl;
  div_not_nan = λ a b h k z. refl;
  mul_not_nan = λ a h. refl;
  max_finite = λ a b h k. refl;
  max_not_nan = λ a b h k. refl;
  min_not_nan = λ a b h k. refl;
  max-not-lt = max-not-lt;
  max_upper = max_upper;
  min-not-gt = min-not-gt;
  max_lower = max_lower;
  minus_infinity_not_nan = refl;
  not_lt_trans = λ a b c n h k. not_lt_trans a b c h k;
  lt_total = λ a b n m h k. lt_total a b h k;
  eq_lt = eq_lt;
  div_unit = λ a b f n h k. div_unit a b h k;
  mul_unit = λ q c h n f k. mul_unit q c h;
  lit_sub = λ m n h k. refl;
}
