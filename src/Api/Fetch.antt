-- ===== src/Api/Fetch.antt =====
-- Requests, responses and exceptions, as ui/src/api.ts sees them.
use throttle_deck.Base.{◌≡◌, refl, ap, ◌⊎◌, inl, inr, ℕ, String, Bool, Option, List, ◌&&◌, leb}
use throttle_deck.Platform.{Platform}
use throttle_deck.Json.{Value, Fields}

-- A text that the code takes apart, as its code points.
abbrev pub Codes : Type 0
Codes = List ℕ

-- What a call gives: a value, or an exception that leaves it.
pub data Outcome {ℓ} (A : Type ℓ) : Type ℓ where
  value : A → Outcome A
  thrown : Outcome A

module _ {ℓ} {A : Type ℓ} where
  pub Outcome-cases : (o : Outcome A) → (o ≡ thrown) ⊎ ((a : A) × (o ≡ value a))
  Outcome-cases thrown = inl refl
  Outcome-cases (value a) = inr (a, refl)

  pub value_inj : {a b : A} → value a ≡ value b → a ≡ b
  value_inj {a} e = ap (λ o. elim o [ value x ↦ x | thrown ↦ a ]) e

pub data HttpMethod : Type 0 where
  get post : HttpMethod

module _ ⦃P : Platform⦄ where
  -- The parts of a request that vary. Every request is same-origin and asks for JSON.
  pub record Request : Type 0 where
    pub url : String
    pub method : HttpMethod
    pub csrf_token : Option Codes
    pub body : Option Fields

  -- `json` is what `response.json()` resolves to, or nothing where it rejects.
  pub record Response : Type 0 where
    pub status : ℕ
    pub json : Option Value

  -- A fetch answers or rejects.
  abbrev pub Fetcher : Type 0
  Fetcher = Request → Option Response

  -- `response.ok`
  abbrev pub response_ok : Response → Bool
  response_ok r = leb 200 r.status && leb r.status 299
