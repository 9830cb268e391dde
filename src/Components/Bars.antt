-- ===== src/Components/Bars.antt =====
-- The bars of ui/src/components/Sparkline.tsx stay within their chart.
use mathlib.Core.List.{Memᴰ}
use throttle_deck.Base.{
  true-ne-false, ℕ, ◌≡◌, ◌<◌, ◌≤◌, ◌-◌, ◌∙◌, refl, sym, subst, Bool-cases, inl, inr, true, false,
  List, [], ◌∷◌, Option, none, some, All, filter_map, arith,
}
use throttle_deck.Platform.{Platform, Num, lit, Laws, exact}
use throttle_deck.Contracts.WellFormed.{IsPoint}
use throttle_deck.Components.Sparkline.{numeric, max_of, or_one, bar_scale, bar_height}

module _ ⦃P : Platform⦄ (laws : Laws P) where
  -- Finite and not negative.
  IsAmount : Num → Type 0
  IsAmount v = (P.is_finite v ≡ true) × (P.lt v (lit 0) ≡ false)

  amounts :
      (values : List (Option Num))
      → All IsPoint values
      → (v : Num) → Memᴰ v (numeric values)
      → IsAmount v
  unfolding filter_map IsAmount
  amounts [] h v m = elim m [ ]
  amounts (none ∷ values) (p, h) v m = amounts values h v m
  amounts (some n ∷ values) (p, h) v (Memᴰ.head e) = subst IsAmount (sym e) p
  amounts (some n ∷ values) (p, h) v (Memᴰ.tail later) = amounts values h v later

  max_of_upper : (ns : List Num) (v : Num) → Memᴰ v ns → P.lt (max_of ns) v ≡ false
  max_of_upper (n ∷ ns) v (Memᴰ.head e) = rw e (laws.max-not-lt n (max_of ns))
  max_of_upper (n ∷ ns) v (Memᴰ.tail later) =
      laws.max_lower n (max_of ns) v (max_of_upper ns v later)
  max_of_upper [] v m = elim m [ ]

  max_of_number :
      (ns : List Num) → ((v : Num) → Memᴰ v ns → IsAmount v) → P.is_nan (max_of ns) ≡ false
  unfolding IsAmount
  max_of_number [] h = laws.minus_infinity_not_nan
  max_of_number (n ∷ ns) h =
      laws.max_not_nan n (max_of ns) (laws.finite_not_nan n (h n (Memᴰ.head refl)).0)
        (max_of_number ns (λ v m. h v (Memᴰ.tail m)))

  lit_below : (m n : ℕ) → m < exact → n < exact → n ≤ m → P.lt (lit m) (lit n) ≡ false
  lit_below m n h k le = laws.lit_lt m n h k ∙ ground arith

  below_one : (v : Num) → P.lt (lit 0) v ≡ false → P.lt (lit 1) v ≡ false
  below_one v h = elim (Bool-cases (P.lt (lit 1) v)) [
    | inl above ↦ absurd (
        true-ne-false
          (laws.lt_trans (lit 0) (lit 1) v (laws.lit_lt 0 1 (omega arith) (omega arith)) above) h)
    | inr below ↦ below
  ]

  -- The scale is positive, and not below a value of the series.
  scale_bounds :
      (ns : List Num)
      → ((v : Num) → Memᴰ v ns → IsAmount v)
      → (v : Num) → Memᴰ v ns
      → (P.lt (lit 0) (or_one (max_of ns)) ≡ true) × (P.lt (or_one (max_of ns)) v ≡ false)
  unfolding IsAmount
  scale_bounds ns h v m = elim (Bool-cases (P.eq (max_of ns) (lit 0))) [
    | inl zero_max ↦ rw zero_max (
      laws.lit_lt 0 1 (omega arith) (omega arith),
      below_one v (sym (laws.eq_lt (max_of ns) (lit 0) v zero_max) ∙ max_of_upper ns v m),
    )
    | inr positive ↦
        rw (positive, max_of_number ns h)
          (
            laws.lt_total (max_of ns) (lit 0) (max_of_number ns h)
                (laws.finite_not_nan _ (laws.lit_finite 0 (omega arith))) positive
                (laws.not_lt_trans _ v _ (laws.finite_not_nan v (h v m).0) (max_of_upper ns v m)
                  (h v m).1),
            max_of_upper ns v m,
          )
  ]

  not_below_one : (scale height v : Num) → P.lt (bar_height scale height v) (lit 1) ≡ false
  unfolding bar_height
  not_below_one scale height v = laws.max-not-lt _ _

  share_bounds :
      (scale v : Num) (height : ℕ)
      → IsAmount v
      → P.lt (lit 0) scale ≡ true
      → P.lt scale v ≡ false
      → 3 ≤ height
      → height < exact
      → P.lt (lit (height - 2)) (bar_height scale (lit height) v) ≡ false
  unfolding bar_height IsAmount
  share_bounds scale v height amount positive above tall small =
      let (upper, lower) = laws.div_unit v scale amount.0 amount.1 positive above in
      laws.max_upper (lit 1) _ _
        (lit_below (height - 2) 1 (omega arith) (omega arith) (omega arith))
        (subst (λ room. P.lt (lit (height - 2)) (P.mul (P.div v scale) room) ≡ false)
          (sym (laws.lit_sub height 2 small (omega arith)))
          (laws.mul_unit _ (lit (height - 2)) upper lower
            (laws.lit_finite (height - 2) (omega arith))
            (lit_below (height - 2) 0 (omega arith) (omega arith) (omega arith))))

  -- By the laws of the numbers, each bar of a series of points, which are unknown or finite and not
  -- negative, stands in a chart that is at least 3 high: the bar is at least 1 high, and at most as high
  -- as the chart less 2.
  pub bar_height_bounds :
      (values : List (Option Num)) (height : ℕ) (v : Num)
      → All IsPoint values
      → 3 ≤ height
      → height < exact
      → Memᴰ v (numeric values)
      → (P.lt (bar_height (bar_scale values) (lit height) v) (lit 1) ≡ false)
        × (P.lt (lit (height - 2)) (bar_height (bar_scale values) (lit height) v) ≡ false)
  unfolding bar_scale
  bar_height_bounds values height v points tall small m =
      let (positive, above) = scale_bounds (numeric values) (amounts values points) v m in
      (
        not_below_one _ (lit height) v,
        share_bounds _ v height (amounts values points v m) positive above tall small,
      )
