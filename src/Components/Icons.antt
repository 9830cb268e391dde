-- ===== src/Components/Icons.antt =====
-- ui/src/components/icons.tsx, at the default sizes, which are the only ones in use.
use throttle_deck.Base.{String, List, [], ◌∷◌, ◌++◌}
use throttle_deck.Markup.{Attribute, attr, Node, el}

module _ {E : Type 0} where
  -- the attributes that every icon has
  abbrev frame : String → String → List (Attribute E)
  frame size view_box =
      attr "width" size
      ∷ attr "height" size
      ∷ attr "viewBox" view_box
      ∷ attr "aria-hidden" "true"
      ∷ attr "focusable" "false"
      ∷ []

  abbrev outline : List (Attribute E)
  outline =
      attr "fill" "none"
      ∷ attr "stroke" "currentColor"
      ∷ attr "strokeWidth" "1.75"
      ∷ attr "strokeLinecap" "round"
      ∷ attr "strokeLinejoin" "round"
      ∷ []

  abbrev path : String → Node E
  path drawing = el "path" (attr "d" drawing ∷ []) []

  abbrev square : String → String → String → List (Attribute E) → Node E
  square start side radius others =
      el "rect"
        (attr "x" start
          ∷ attr "y" start
          ∷ attr "width" side
          ∷ attr "height" side
          ∷ attr "rx" radius
          ∷ others)
        []

  unfoldable pub refresh_icon : Node E
  refresh_icon =
      el "svg" (frame "16" "0 0 16 16" ++ outline)
        (path "M13.5 8a5.5 5.5 0 1 1-1.9-4.16" ∷ path "M13.6 1.9v2.9h-2.9" ∷ [])

  unfoldable pub shield_icon : Node E
  shield_icon = el "svg" (frame "28" "0 0 28 28" ++ attr "fill" "currentColor" ∷ []) (
      path "M14 1.8 24 5.2v8.1c0 6.2-4.1 10.6-10 12.9C8.1 23.9 4 19.5 4 13.3V5.2Z"
      ∷ el "circle" (attr "cx" "14" ∷ attr "cy" "13" ∷ attr "r" "3.4" ∷ attr "fill" "#FFFFFF" ∷ [])
          []
      ∷ [])

  unfoldable pub stop_square_icon : Node E
  stop_square_icon =
      el "svg" (frame "28" "0 0 28 28" ++ attr "fill" "currentColor" ∷ [])
        (square "2.5" "23" "6.5" [] ∷ square "9" "10" "2" (attr "fill" "#FFFFFF" ∷ []) ∷ [])

  unfoldable pub warning_triangle_icon : Node E
  warning_triangle_icon =
      el "svg" (frame "20" "0 0 20 20" ++ outline)
        (path "M10 2.6 18 17H2Z" ∷ path "M10 7.6v4.1" ∷ path "M10 14.2h.01" ∷ [])

  unfoldable pub chevron_down_icon : Node E
  chevron_down_icon = el "svg" (frame "16" "0 0 16 16" ++ outline) (path "M4 6.2 8 10.1l4-3.9" ∷ [])
