-- ===== src/Components/Clicks.antt =====
-- What the components of ui/src/components offer to click.
use throttle_deck.Base.{
  ◌≡◌, refl, sym, append_assoc, ℕ, Bool, true, false, List, [], ◌∷◌, ◌++◌, ◌+◌, Option, none, some,
  map, flat_map, if◌then◌else◌, arith, String, ap, ◌∙◌,
}
use throttle_deck.Platform.{Platform, Num}
use throttle_deck.Markup.{clicks, child_clicks, children, Node, plain}
use throttle_deck.Contracts.{GovernorSnapshot, SnapshotProblem}
use throttle_deck.Derive.{money_lock_view}
use throttle_deck.Components.ConfirmDialog.{
  DialogState, DialogHandlers, ConfirmRequest, click_confirm, confirm_dialog,
}
use throttle_deck.Components.Sparkline.{
  SparklineStyle, map_index, bar, distribution_bars, trend_line, sparkline,
}
use throttle_deck.Components.SafetyStrip.{safety_strip, clickable, StripButton}
use throttle_deck.Components.Header.{header, problem_panel}
use throttle_deck.Components.Icons.{refresh_icon}

module _ {E : Type 0} where
  pub child_clicks-map :
      {A : Type 0} (f : A → Node E) (g : A → List E) (xs : List A)
      → ((x : A) → clicks (f x) ≡ g x)
      → child_clicks (children (map f xs)) ≡ flat_map g xs
  unfolding clicks flat_map
  child_clicks-map f g [] h = refl
  child_clicks-map f g (x ∷ xs) h = rw (h x) (ap (λ rest. g x ++ rest) (child_clicks-map f g xs h))

  pub child_clicks-append :
      (ns ms : List (Node E))
      → child_clicks (children (ns ++ ms))
        ≡ child_clicks (children ns) ++ child_clicks (children ms)
  unfolding clicks
  child_clicks-append [] ms = refl
  child_clicks-append (n ∷ ns) ms =
      ap (λ rest. clicks n ++ rest) (child_clicks-append ns ms) ∙ sym (append_assoc (clicks n) _ _)

  flat_map_none : {A : Type 0} (xs : List A) → flat_map {B = E} (λ x. []) xs ≡ []
  unfolding flat_map
  flat_map_none [] = refl
  flat_map_none (x ∷ xs) = flat_map_none xs

  pub silent-map :
      {A : Type 0} (f : A → Node E) (xs : List A)
      → ((x : A) → clicks (f x) ≡ [])
      → child_clicks (children (map f xs)) ≡ []
  silent-map f xs h = child_clicks-map f (λ x. []) xs h ∙ flat_map_none xs

  pub child_clicks-plain :
      (tag : String) (xs : List String) → child_clicks {E = E} (children (map (plain tag) xs)) ≡ []
  unfolding clicks
  child_clicks-plain tag xs = silent-map (plain tag) xs (λ x. refl)

module _ ⦃P : Platform⦄ {E : Type 0} where
  clicks-bar :
      (scale slot height : Num) (i : ℕ) (v : Option Num)
      → clicks (bar {E = E} scale slot height i v) ≡ []
  unfolding bar clicks
  clicks-bar scale slot height i none = refl
  clicks-bar scale slot height i (some v) = refl

  bars_silent :
      (scale slot height : Num) (i : ℕ) (vs : List (Option Num))
      → child_clicks {E = E} (children (map_index (bar scale slot height) i vs)) ≡ []
  unfolding clicks
  bars_silent scale slot height i [] = refl
  bars_silent scale slot height i (v ∷ vs) =
      rw (clicks-bar scale slot height i v) (bars_silent scale slot height (i + 1) vs)

  clicks-trend_line :
      (vs : List (Option Num)) (width height : Num) (area : Bool)
      → clicks {E = E} (trend_line vs width height area) ≡ []
  unfolding clicks trend_line
  clicks-trend_line vs width height area = ground arith

  clicks-distribution_bars :
      (vs : List (Option Num)) (width height : Num)
      → child_clicks {E = E} (children (distribution_bars vs width height)) ≡ []
  unfolding clicks distribution_bars
  clicks-distribution_bars vs width height = bars_silent _ _ height 0 vs

  pub clicks-sparkline :
      (style : SparklineStyle) (vs : List (Option Num)) (summary : String)
      → clicks {E = E} (sparkline style vs summary) ≡ []
  unfolding sparkline clicks
  clicks-sparkline style vs summary = ground (
    arith,
    clicks-trend_line vs style.width style.height true,
    clicks-trend_line vs style.width style.height false,
    clicks-distribution_bars vs style.width style.height,
  )

  pub clicks-safety_strip :
      (g : GovernorSnapshot) (pending : Bool) (handler : StripButton → E)
      → clicks (safety_strip g pending handler) ≡ map handler (clickable g pending)
  unfolding safety_strip clickable clicks money_lock_view
  clicks-safety_strip g pending handler = ground arith

  pub clicks-header :
      (g : GovernorSnapshot) (now : Num) (refreshing : Bool) (e : E)
      → clicks (header g now refreshing e) ≡ (if refreshing then [] else e ∷ [])
  unfolding header clicks refresh_icon
  clicks-header g now refreshing e = ground arith

  pub clicks-problem_panel : (p : SnapshotProblem) (e : E) → clicks (problem_panel p e) ≡ e ∷ []
  unfolding problem_panel clicks refresh_icon
  clicks-problem_panel p e = refl

  -- what the dialog's confirming button offers
  abbrev pub given : (DialogHandlers E) → Option String → List E
  given handler none = []
  given handler (some reason) = handler.on_confirm reason ∷ []

  pub clicks-confirm_dialog :
      (request : ConfirmRequest) (pending : Bool) (error : Option String) (dialog : DialogState)
      (handler : DialogHandlers E)
      → clicks (confirm_dialog request pending error dialog handler)
        ≡ handler.on_cancel ∷ given handler (click_confirm request pending dialog)
  unfolding confirm_dialog clicks click_confirm
  clicks-confirm_dialog request pending error dialog handler =
      ground (arith, child_clicks-plain {E = E} "li" request.affected)
