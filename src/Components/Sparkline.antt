-- ===== src/Components/Sparkline.antt =====
-- ui/src/components/Sparkline.tsx: the trend line and the bars of a series.
use throttle_deck.Base.{
  ℕ, ◌+◌, ◌-◌, String, Bool, true, false, Option, none, some, List, [], ◌∷◌, ◌++◌, ◌||◌, filter_map,
  if◌then◌else◌, ltb, length, template,
}
use throttle_deck.Platform.{Platform, Num, lit}
use throttle_deck.Markup.{Attribute, attr, Node, nothing, el, fragment, class_name, shown_if}
use throttle_deck.Derive.{Tone}
use throttle_deck.Components.SafetyStrip.{data_tone}

pub data SparklineHue : Type 0 where
  by_tone accent : SparklineHue

pub data SparklineShape : Type 0 where
  line bars : SparklineShape

-- The values that are not null.
abbrev pub numeric : {A : Type 0} → List (Option A) → List A
numeric values = filter_map (λ v. v) values

-- `array.map((value, index) => …)`, from an index on
abbrev pub map_index : {A B : Type 0} → (ℕ → A → B) → ℕ → List A → List B
map_index f i [] = []
map_index f i (a ∷ rest) = f i a ∷ map_index f (i + 1) rest

-- `array.join(" ")`
abbrev joined : List String → String
joined [] = ""
joined (s ∷ []) = s
joined (s ∷ rest) = template (s ∷ " " ∷ joined rest ∷ [])

abbrev hue_text : SparklineHue → String
hue_text by_tone = "tone"
hue_text accent = "accent"

abbrev is_accent : SparklineHue → Bool
is_accent accent = true
is_accent by_tone = false

abbrev shape_text : SparklineShape → String
shape_text line = "line"
shape_text bars = "bars"

module _ ⦃P : Platform⦄ where
  -- The properties with their defaults, but for the values and the summary.
  pub record SparklineStyle : Type 0 where
    pub tone : Tone
    pub hue : SparklineHue
    pub shape : SparklineShape
    pub width : Num
    pub height : Num
    pub decorative : Bool

  abbrev pub default_style : SparklineStyle
  default_style = record {
    tone = Tone.neutral;
    hue = by_tone;
    shape = line;
    width = lit 120;
    height = lit 36;
    decorative = false;
  }

  -- `Math.max(...values)` and `Math.min(...values)`
  abbrev pub max_of : List Num → Num
  max_of [] = P.minus_infinity
  max_of (v ∷ vs) = P.max v (max_of vs)

  abbrev min_of : List Num → Num
  min_of [] = P.infinity
  min_of (v ∷ vs) = P.min v (min_of vs)

  -- `n || 1`
  abbrev pub or_one : Num → Num
  or_one n = if P.eq n (lit 0) || P.is_nan n then lit 1 else n

  -- the function `round` of the file
  abbrev hundredths : Num → Num
  hundredths value = P.div (P.round (P.mul value (lit 100))) (lit 100)

  abbrev point_text : Num → Num → String
  point_text x y = template (P.show (hundredths x) ∷ "," ∷ P.show (hundredths y) ∷ [])

  -- `points` of `trendLine`, of the values, their number less one, and the chart's size
  unfoldable pub trend_points : List Num → Num → Num → String
  trend_points values width height =
      let low = min_of values in
      let span = or_one (P.sub (max_of values) low) in
      let step_x = P.div width (lit (length values - 1)) in
      joined (
        map_index
          (λ index value. point_text (P.mul (lit index) step_x) (
            P.sub (P.sub height (lit 1))
              (P.mul (P.div (P.sub value low) span) (P.sub height (lit 2)))))
          0 values)

  unfoldable pub trend_line : {E : Type 0} → List (Option Num) → Num → Num → Bool → Node E
  unfolding trend_points
  trend_line values width height area =
      if ltb (length (numeric values)) 2
      then nothing
      else (let points = trend_points (numeric values) width height in
          fragment (
            shown_if area (
              el "polygon"
                (attr "points" (
                    template (
                      points
                      ∷ " "
                      ∷ P.show (hundredths width)
                      ∷ ","
                      ∷ P.show height
                      ∷ " 0,"
                      ∷ P.show height
                      ∷ []))
                  ∷ attr "fill" "currentColor"
                  ∷ attr "fillOpacity" "0.12"
                  ∷ attr "stroke" "none"
                  ∷ [])
                [])
            ∷ el "polyline"
                (attr "points" points
                  ∷ attr "fill" "none"
                  ∷ attr "stroke" "currentColor"
                  ∷ attr "strokeWidth" "1.5"
                  ∷ attr "strokeLinecap" "round"
                  ∷ attr "strokeLinejoin" "round"
                  ∷ [])
                []
            ∷ []))

  -- The greatest value of the bars, 1 where it is 0 or NaN.
  unfoldable pub bar_scale : List (Option Num) → Num
  bar_scale values = or_one (max_of (numeric values))

  unfoldable pub bar_height : Num → Num → Num → Num
  bar_height scale height value = P.max (lit 1) (P.mul (P.div value scale) (P.sub height (lit 2)))

  -- 0.3 is the double nearest to 3 / 10.
  unfoldable pub bar_width : Num → Num
  bar_width slot = P.max (lit 1) (P.sub slot (P.min (lit 2) (P.mul slot (P.div (lit 3) (lit 10)))))

  unfoldable pub bar : {E : Type 0} → Num → Num → Num → ℕ → Option Num → Node E
  unfolding bar_height bar_width
  bar scale slot height index none = nothing
  bar scale slot height index (some value) =
      let across = bar_width slot in
      let tall = bar_height scale height value in
      el "rect"
        (attr "x" (
            P.show
              (hundredths (P.add (P.mul (lit index) slot) (P.div (P.sub slot across) (lit 2)))))
          ∷ attr "y" (P.show (hundredths (P.sub height tall)))
          ∷ attr "width" (P.show (hundredths across))
          ∷ attr "height" (P.show (hundredths tall))
          ∷ attr "fill" "currentColor"
          ∷ attr "fillOpacity" "0.55"
          ∷ [])
        []

  unfoldable pub distribution_bars : {E : Type 0} → List (Option Num) → Num → Num → List (Node E)
  unfolding bar bar_scale
  distribution_bars values width height =
      map_index (bar (bar_scale values) (P.div width (lit (length values))) height) 0 values

  abbrev accessibility : {E : Type 0} → Bool → String → List (Attribute E)
  accessibility true summary = attr "aria-hidden" "true" ∷ []
  accessibility false summary = attr "role" "img" ∷ attr "aria-label" summary ∷ []

  abbrev graphic : {E : Type 0} → SparklineStyle → List (Option Num) → List (Node E)
  graphic style values = elim style.shape [
    | bars ↦ distribution_bars values style.width style.height
    | line ↦ trend_line values style.width style.height (is_accent style.hue) ∷ []
  ]

  -- `Sparkline`
  unfoldable pub sparkline : {E : Type 0} → SparklineStyle → List (Option Num) → String → Node E
  unfolding distribution_bars trend_line
  sparkline style values summary =
      if ltb (length values) 2
      then nothing
      else el "span"
          (class_name "sparkline"
            ∷ data_tone style.tone
            ∷ attr "data-hue" (hue_text style.hue)
            ∷ attr "data-shape" (shape_text style.shape)
            ∷ [])
          (el "svg"
              (attr "width" (P.show style.width)
                ∷ attr "height" (P.show style.height)
                ∷ attr "viewBox"
                    (template ("0 0 " ∷ P.show style.width ∷ " " ∷ P.show style.height ∷ []))
                ∷ (accessibility style.decorative summary ++ attr "focusable" "false" ∷ []))
              (graphic style values)
            ∷ [])
