-- ===== src/Api/Csrf.antt =====
-- `readCookie` and `readCsrfToken` of ui/src/api.ts.
use throttle_deck.Base.{
  ℕ, Bool, Option, none, some, List, [], ◌∷◌, ◌++◌, ◌||◌, ◌&&◌, leb, ◌=ℕ=◌, if◌then◌else◌, is_empty,
}
use mathlib.Core.List.{reverse}
use throttle_deck.Api.Fetch.{Codes, Outcome, value, thrown}

-- The page: its cookies, and the content of the meta element named governor-csrf.
pub record Document : Type 0 where
  pub cookie : Codes
  pub meta_content : Option Codes

-- What `String.prototype.trim` removes.
abbrev pub is_space : ℕ → Bool
is_space c =
    leb 9 c && leb c 13
    || c =ℕ= 32
    || c =ℕ= 160
    || c =ℕ= 0x1680
    || leb 0x2000 c && leb c 0x200a
    || c =ℕ= 0x2028
    || c =ℕ= 0x2029
    || c =ℕ= 0x202f
    || c =ℕ= 0x205f
    || c =ℕ= 0x3000
    || c =ℕ= 0xfeff

unfoldable pub trim_start : Codes → Codes
trim_start [] = []
trim_start (c ∷ cs) = let rest = trim_start cs in if is_space c then rest else c ∷ cs

unfoldable pub trim : Codes → Codes
unfolding trim_start
trim s = reverse (trim_start (reverse (trim_start s)))

-- the part before the next separator, and the parts behind it
unfoldable pub split_more : ℕ → ℕ → Codes × List Codes → Codes × List Codes
split_more sep c (part, parts) = if c =ℕ= sep then ([], part ∷ parts) else (c ∷ part, parts)

unfoldable pub split_parts : ℕ → Codes → Codes × List Codes
unfolding split_more
split_parts sep [] = ([], [])
split_parts sep (c ∷ cs) = split_more sep c (split_parts sep cs)

-- `s.split(sep)`, for a separator of one character
unfoldable pub split : ℕ → Codes → List Codes
unfolding split_parts
split sep s = let (part, parts) = split_parts sep s in part ∷ parts

-- What is left of a text behind a prefix: `startsWith` and `slice` together.
unfoldable pub strip_prefix : Codes → Codes → Option Codes
strip_prefix [] s = some s
strip_prefix (p ∷ ps) [] = none
strip_prefix (p ∷ ps) (c ∷ cs) = let rest = strip_prefix ps cs in if c =ℕ= p then rest else none

-- `decodeURIComponent` gives nothing where it throws.
module _ (decode : Codes → Option Codes) where
  unfoldable pub decoded : Option Codes → Outcome (Option Codes)
  decoded none = thrown
  decoded (some text) = value (some text)

  -- the loop over the parts of `document.cookie`
  unfoldable pub find_cookie : Codes → List Codes → Outcome (Option Codes)
  unfolding decoded
  find_cookie prefix [] = value none
  find_cookie prefix (part ∷ parts) =
      let later = find_cookie prefix parts in
      elim (strip_prefix prefix (trim part)) [ none ↦ later | some text ↦ decoded (decode text) ]

  unfoldable pub read_cookie : Option Document → Codes → Outcome (Option Codes)
  unfolding find_cookie split trim strip_prefix
  read_cookie none name = value none
  read_cookie (some document) name = find_cookie (name ++ b'=' ∷ []) (split b';' document.cookie)

  -- `content.length > 0 ? content : null`
  abbrev non_empty : Option Codes → Option Codes
  non_empty none = none
  non_empty (some text) = if is_empty text then none else some text

  abbrev meta_token : Option Document → Option Codes
  meta_token none = none
  meta_token (some document) = non_empty document.meta_content

  abbrev or_meta : Option Document → Outcome (Option Codes) → Outcome (Option Codes)
  or_meta document thrown = thrown
  or_meta document (value from_cookie) = elim (non_empty from_cookie) [
    | some token ↦ value (some token)
    | none ↦ value (meta_token document)
  ]

  -- "governor_csrf"
  abbrev pub csrf_cookie_name : Codes
  csrf_cookie_name =
      b'g' ∷ b'o' ∷ b'v' ∷ b'e' ∷ b'r' ∷ b'n' ∷ b'o' ∷ b'r' ∷ b'_' ∷ b'c' ∷ b's' ∷ b'r' ∷ b'f' ∷ []

  unfoldable pub read_csrf_token : Option Document → Outcome (Option Codes)
  unfolding read_cookie
  read_csrf_token document = or_meta document (read_cookie document csrf_cookie_name)
