-- ===== src/Markup.antt =====
-- What the components of ui/src give React to show: elements with their attributes and handlers. `E`
-- is the type of what a handler makes happen.
use throttle_deck.Base.{
  String, Bool, true, false, Option, none, some, List, [], ◌∷◌, ◌++◌, ◌==◌, ◌&&◌, ◌||◌,
  if◌then◌else◌,
}

pub data Attribute (E : Type 0) : Type 0 where
  attr : String → String → Attribute E
  flag : String → Bool → Attribute E
  -- `onClick`, and `onChange` with the text that is typed
  on_click : E → Attribute E
  on_change : (String → E) → Attribute E

mutual
  -- `null` and `false` show nothing.
  pub data Node (E : Type 0) : Type 0 where
    nothing : Node E
    text : String → Node E
    element : String → List (Attribute E) → Children E → Node E

  pub data Children (E : Type 0) : Type 0 where
    no_more : Children E
    child : Node E → Children E → Children E

module _ {E : Type 0} where
  abbrev pub children : List (Node E) → Children E
  children [] = no_more
  children (n ∷ ns) = child n (children ns)

  -- `<tag …>…</tag>`; the tag of a fragment is empty.
  abbrev pub el : String → List (Attribute E) → List (Node E) → Node E
  el tag attributes nodes = element tag attributes (children nodes)

  abbrev pub fragment : List (Node E) → Node E
  fragment nodes = el "" [] nodes

  abbrev pub class_name : String → Attribute E
  class_name name = attr "className" name

  -- an element that holds one text, with a class or without attributes
  abbrev pub classed : String → String → String → Node E
  classed tag name shown = el tag (class_name name ∷ []) (text shown ∷ [])

  abbrev pub plain : String → String → Node E
  plain tag shown = el tag [] (text shown ∷ [])

  -- `condition ? node : null`
  abbrev pub shown_if : Bool → Node E → Node E
  shown_if true node = node
  shown_if false node = nothing

  -- `value !== null ? node(value) : null`
  abbrev pub shown_for {ℓ} : {A : Type ℓ} → Option A → (A → Node E) → Node E
  shown_for none node = nothing
  shown_for (some a) node = node a

  abbrev is_disabled : List (Attribute E) → Bool
  is_disabled [] = false
  is_disabled (flag name on ∷ rest) = name == "disabled" && on || is_disabled rest
  is_disabled (_ ∷ rest) = is_disabled rest

  abbrev handlers : List (Attribute E) → List E
  handlers [] = []
  handlers (on_click e ∷ rest) = e ∷ handlers rest
  handlers (_ ∷ rest) = handlers rest

  -- What a click on the element does: nothing on a disabled one.
  abbrev pub own_clicks : List (Attribute E) → List E
  own_clicks attributes = if is_disabled attributes then [] else handlers attributes

  unfoldable mutual
    -- What the operator can make happen by a click, in the order of the page.
    pub clicks : Node E → List E
    clicks nothing = []
    clicks (text s) = []
    clicks (element tag attributes inner) = own_clicks attributes ++ child_clicks inner

    pub child_clicks : Children E → List E
    child_clicks no_more = []
    child_clicks (child n ns) = clicks n ++ child_clicks ns

  unfoldable mutual
    -- The texts of the page, in their order.
    pub texts : Node E → List String
    texts nothing = []
    texts (text s) = s ∷ []
    texts (element tag attributes inner) = child_texts inner

    pub child_texts : Children E → List String
    child_texts no_more = []
    child_texts (child n ns) = texts n ++ child_texts ns
