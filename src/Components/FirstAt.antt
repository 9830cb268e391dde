-- ===== src/Components/FirstAt.antt =====
-- The first element of a list that passes a test, and the lists on both sides of it, as the compact
-- feed of ui/src/components/ActivityFeed.tsx takes it out.
use throttle_deck.Base.{
  ℕ, suc, ◌≡◌, refl, ap, ◌∙◌, ◌⊎◌, inl, inr, Bool, Bool-cases, List, [], ◌∷◌, ◌++◌, none, some,
  length, find?,
}
use throttle_deck.Components.FeedLayout.{find_index?, pick, picked_behind}

module _ {A : Type 0} (p : A → Bool) where
  -- Where a list's first element that passes a test stands.
  pub record FirstAt (xs : List A) : Type 0 where
    pub before : List A
    pub found : A
    pub later : List A
    pub is_split : xs ≡ before ++ found ∷ later
    pub is_found : find? p xs ≡ some found
    pub is_index : find_index? p xs ≡ some (length before)

  abbrev pub NoneIn : List A → Type 0
  NoneIn xs = (find? p xs ≡ none) × (find_index? p xs ≡ none)

  pub find-cases : (xs : List A) → NoneIn xs ⊎ FirstAt xs
  find-cases [] = inl (refl, refl)
  find-cases (x ∷ xs) = elim (Bool-cases (p x)) [
    | inl passes ↦ inr (record {
      before = [];
      found = x;
      later = xs;
      is_split = refl;
      is_found = rw passes refl;
      is_index = rw passes refl;
    })
    | inr fails ↦ elim (find-cases xs) [
      | inl (f, i) ↦ inl (rw (fails, f) refl, rw (fails, i) refl)
      | inr s ↦ inr (record {
        before = x ∷ s.before;
        found = s.found;
        later = s.later;
        is_split = ap (λ rest. x ∷ rest) s.is_split;
        is_found = rw fails s.is_found;
        is_index = rw (fails, s.is_index) refl;
      })
    ]
  ]

module _ {A : Type 0} where
  pick-length :
      (before : List A) (x : A) (later : List A)
      → pick (length before) (before ++ x ∷ later) ≡ some (x, before ++ later)
  pick-length [] x later = refl
  pick-length (b ∷ before) x later = ap (picked_behind b) (pick-length before x later)

  -- A position of a list, with the element there: what stands before it, and what behind it.
  pub record SplitsAt (xs : List A) (i : ℕ) (x : A) : Type 0 where
    pub before : List A
    pub later : List A
    pub is_split : xs ≡ before ++ x ∷ later
    pub is_picked : pick i xs ≡ some (x, before ++ later)

  pub split_behind :
      {xs : List A} {i : ℕ} {x : A} (y : A) → SplitsAt xs i x → SplitsAt (y ∷ xs) (suc i) x
  split_behind y s = record {
    before = y ∷ s.before;
    later = s.later;
    is_split = ap (λ rest. y ∷ rest) s.is_split;
    is_picked = ap (picked_behind y) s.is_picked;
  }

  pub splits :
      {p : A → Bool} {xs : List A} (s : FirstAt p xs) → SplitsAt xs (length s.before) s.found
  splits s = record {
    before = s.before;
    later = s.later;
    is_split = s.is_split;
    is_picked = rw s.is_split (pick-length s.before s.found s.later);
  }

  -- A list with an element in it starts with one.
  pub starts :
      (before : List A) (x : A) (later : List A)
      → (y : A) × (ys : List A) × (before ++ x ∷ later ≡ y ∷ ys)
  starts [] x later = (x, later, refl)
  starts (b ∷ before) x later = (b, before ++ x ∷ later, refl)

  pub splits_cons :
      {xs : List A} {i : ℕ} {x : A} → SplitsAt xs i x → (y : A) × (ys : List A) × (xs ≡ y ∷ ys)
  splits_cons s = let (y, ys, e) = starts s.before _ s.later in (y, ys, s.is_split ∙ e)
