-- ===== src/Derive/Alerts.antt =====
-- Titles of events and suspected direct callers, by ui/src/derive.ts.
use throttle_deck.Base.{
  ◌≡◌, refl, ◌↔◌, inl, inr, String, Bool, true, false, not, Option, none, some, List, [], ◌∷◌, ◌==◌,
  arith, eq_iff, any, find?, is_null, Bool-cases, All, subst,
}
use throttle_deck.Contracts.{ActivityEvent}
use throttle_deck.Derive.Events.{
  title_or, is_inherited, text, event_title, lookup_title, control_event_titles,
  object_prototype_names,
}

module _ {A : Type 0} (p : A → Bool) where
  pub is_null-find? : (xs : List A) → is_null (find? p xs) ≡ not (any p xs)
  is_null-find? [] = refl
  is_null-find? (x ∷ xs) = ground (arith, is_null-find? xs)

  pub find?_sound : (xs : List A) (x : A) → find? p xs ≡ some x → p x ≡ true
  find?_sound [] x e = cc
  find?_sound (y ∷ xs) x e = elim (Bool-cases (p y)) [
    | inl found ↦ ground arith
    | inr skipped ↦ find?_sound xs x (ground arith)
  ]

-- None of the inherited names has a title.
prototype_names_untitled :
    All (λ name. lookup_title name control_event_titles ≡ none) object_prototype_names
unfolding lookup_title
prototype_names_untitled = (
  refl,
  (refl, (refl, (refl, (refl, (refl, (refl, (refl, (refl, (refl, (refl, (refl, tt))))))))))),
)

any-untitled :
    (kind : String) (names : List String)
    → All (λ name. lookup_title name control_event_titles ≡ none) names
    → any (λ name. name == kind) names ≡ true
    → lookup_title kind control_event_titles ≡ none
any-untitled kind [] a h = cc
any-untitled kind (name ∷ names) (u, a) h = elim (Bool-cases (name == kind)) [
  | inl same ↦ subst (λ k. lookup_title k control_event_titles ≡ none) ((eq_iff name kind).0 same) u
  | inr other ↦ any-untitled kind names a (ground arith)
]

is_inherited-untitled :
    (kind : String) → is_inherited kind ≡ true → lookup_title kind control_event_titles ≡ none
unfolding is_inherited
is_inherited-untitled kind h = any-untitled kind object_prototype_names prototype_names_untitled h

title_or_cases :
    (o : Option String) (b : Bool) (kind : String)
    → (b ≡ true → o ≡ none)
    → ((t : String) × (title_or o b kind ≡ text t)) ↔ (b ≡ false)
title_or_cases (some t) true kind h = absurd (ground arith)
title_or_cases (some t) false kind h = (λ _. refl, λ _. (t, refl))
title_or_cases none true kind h = (λ (t, e). cc, λ e. cc)
title_or_cases none false kind h = (λ _. refl, λ _. (kind, refl))

-- The title of an event is a text exactly if its kind is not the name of a member that every object
-- inherits: constructor, toString and the ten others.
pub event_title-text_iff :
    (e : ActivityEvent) → ((t : String) × (event_title e ≡ text t)) ↔ (is_inherited e.kind ≡ false)
unfolding event_title
event_title-text_iff e = title_or_cases _ _ e.kind (is_inherited-untitled e.kind)
