-- ===== src/Api/Cookies.antt =====
-- The cookies of a page, and what `readCookie` of ui/src/api.ts reads of them.
use throttle_deck.Base.{
  ℕ, ◌≡◌, refl, ◌∙◌, ap, Bool, true, false, not, ◌&&◌, Option, none, some, List, [], ◌∷◌, ◌++◌,
  ◌=ℕ=◌, if◌then◌else◌, arith, Bool-cases, Option-cases, All, inl, inr,
}
use throttle_deck.Api.Fetch.{Codes, Outcome, value}
use throttle_deck.Api.Csrf.{
  trim, trim_start, split, split_parts, split_more, strip_prefix, decoded, find_cookie, read_cookie,
}

-- A cookie as a browser writes it: `name=content`.
pub record Cookie : Type 0 where
  pub name : Codes
  pub content : Codes

abbrev pub cookie_text : Cookie → Codes
cookie_text c = c.name ++ b'=' ∷ c.content

-- `document.cookie`: the cookies, with a semicolon and a space between them
abbrev pub cookies_text : List Cookie → Codes
cookies_text [] = []
cookies_text (c ∷ []) = cookie_text c
cookies_text (c ∷ d ∷ cs) = cookie_text c ++ b';' ∷ b' ' ∷ cookies_text (d ∷ cs)

abbrev pub avoids : ℕ → Codes → Bool
avoids c [] = true
avoids c (x ∷ xs) = not (x =ℕ= c) && avoids c xs

abbrev pub same_text : Codes → Codes → Bool
same_text [] [] = true
same_text (x ∷ xs) (y ∷ ys) = x =ℕ= y && same_text xs ys
same_text _ _ = false

-- No name has an equals sign; no cookie has a semicolon, nor blanks at its ends.
pub record IsCookie (c : Cookie) : Type 0 where
  pub name : avoids b'=' c.name ≡ true
  pub text : avoids b';' (cookie_text c) ≡ true
  pub trimmed : trim (cookie_text c) ≡ cookie_text c

-- The content of the first cookie of a name.
abbrev pub content_of : Codes → List Cookie → Option Codes
content_of name [] = none
content_of name (c ∷ cs) =
    let later = content_of name cs in if same_text c.name name then some c.content else later

split_parts-avoids : (sep : ℕ) (t : Codes) → avoids sep t ≡ true → split_parts sep t ≡ (t, [])
unfolding split_parts
split_parts-avoids sep [] h = refl
split_parts-avoids sep (c ∷ cs) h = rw (split_parts-avoids sep cs (ground arith)) (ground arith)

split_parts-append :
    (sep : ℕ) (t u : Codes)
    → avoids sep t ≡ true
    → split_parts sep (t ++ sep ∷ u) ≡ (t, split sep u)
unfolding split_parts split_more split
split_parts-append sep [] u h = ground arith
split_parts-append sep (c ∷ cs) u h = rw (split_parts-append sep cs u (ground arith)) (ground arith)

strip_prefix-cookie :
    (name n content : Codes)
    → avoids b'=' name ≡ true
    → avoids b'=' n ≡ true
    → strip_prefix (name ++ b'=' ∷ []) (n ++ b'=' ∷ content)
      ≡ (if same_text n name then some content else none)
unfolding strip_prefix
strip_prefix-cookie [] [] content h k = refl
strip_prefix-cookie [] (x ∷ n) content h k = ground arith
strip_prefix-cookie (p ∷ ps) [] content h k = ground arith
strip_prefix-cookie (p ∷ ps) (x ∷ n) content h k = ground (arith, strip_prefix-cookie ps n content)

module _ (decode : Codes → Option Codes) where
  -- What reading a cookie with this content gives.
  abbrev pub reading : Option Codes → Outcome (Option Codes)
  reading none = value none
  reading (some content) = decoded decode (decode content)

  abbrev read_part : Option Codes → Outcome (Option Codes) → Outcome (Option Codes)
  read_part none later = later
  read_part (some text) later = decoded decode (decode text)

  find_cookie-part :
      (prefix part : Codes) (parts : List Codes)
      → find_cookie decode prefix (part ∷ parts)
        ≡ read_part (strip_prefix prefix (trim part)) (find_cookie decode prefix parts)
  unfolding find_cookie
  find_cookie-part prefix part parts = elim (Option-cases (strip_prefix prefix (trim part))) [
    | inl other ↦ rw (other, find_cookie) refl
    | inr (text, found) ↦ rw (found, find_cookie) refl
  ]

  find_cookie-cons :
      (name : Codes) (c : Cookie) (parts : List Codes)
      → avoids b'=' name ≡ true
      → IsCookie c
      → find_cookie decode (name ++ b'=' ∷ []) (cookie_text c ∷ parts) ≡ (
          if same_text c.name name
          then reading (some c.content)
          else find_cookie decode (name ++ b'=' ∷ []) parts)
  find_cookie-cons name c parts h k =
      let later = find_cookie decode (name ++ b'=' ∷ []) parts in
      find_cookie-part _ (cookie_text c) parts
      ∙ ap (λ t. read_part (strip_prefix (name ++ b'=' ∷ []) t) later) k.trimmed
      ∙ ap (λ o. read_part o later) (strip_prefix-cookie name c.name c.content h k.name)
      ∙ elim (Bool-cases (same_text c.name name)) [
        | inl same ↦ rw same refl
        | inr other ↦ rw other refl
      ]

  find_cookie-blank :
      (prefix u : Codes)
      → find_cookie decode prefix (split b';' (b' ' ∷ u)) ≡ find_cookie decode prefix (split b';' u)
  unfolding find_cookie split split_parts split_more trim trim_start
  find_cookie-blank prefix u = refl

  find_cookie-nil : (prefix : Codes) → find_cookie decode prefix [] ≡ value none
  unfolding find_cookie
  find_cookie-nil prefix = refl

  no_part : (name : Codes) → find_cookie decode (name ++ b'=' ∷ []) ([] ∷ []) ≡ value none
  unfolding find_cookie trim trim_start strip_prefix
  no_part [] = refl
  no_part (c ∷ cs) = refl

  find_cookie-text :
      (name : Codes) (cs : List Cookie)
      → avoids b'=' name ≡ true
      → All IsCookie cs
      → find_cookie decode (name ++ b'=' ∷ []) (split b';' (cookies_text cs))
        ≡ reading (content_of name cs)
  unfolding split
  find_cookie-text name [] h a = no_part name
  find_cookie-text name (c ∷ []) h (k, a) = rw (split_parts-avoids b';' (cookie_text c) k.text) (
      find_cookie-cons name c [] h k ∙ elim (Bool-cases (same_text c.name name)) [
        | inl same ↦ rw same refl
        | inr other ↦ rw other (find_cookie-nil (name ++ b'=' ∷ []))
      ])
  find_cookie-text name (c ∷ d ∷ cs) h (k, a) =
      rw (split_parts-append b';' (cookie_text c) (b' ' ∷ cookies_text (d ∷ cs)) k.text) (
        find_cookie-cons name c _ h k ∙ elim (Bool-cases (same_text c.name name)) [
          | inl same ↦ rw same refl
          | inr other ↦ rw other (
              find_cookie-blank (name ++ b'=' ∷ []) (cookies_text (d ∷ cs))
              ∙ find_cookie-text name (d ∷ cs) h a)
        ])

  -- Of a page with cookies whose names have no equals sign and whose texts have no semicolon and no
  -- blanks at their ends, the cookie of a name without an equals sign reads as the decoded content
  -- of the first cookie of that name: none where there is no such cookie, and an exception where the
  -- content does not decode.
  pub read_cookie-cookies_text :
      (name : Codes) (cs : List Cookie) (meta : Option Codes)
      → avoids b'=' name ≡ true
      → All IsCookie cs
      → read_cookie decode (some (record { cookie = cookies_text cs; meta_content = meta })) name
        ≡ reading (content_of name cs)
  unfolding read_cookie
  read_cookie-cookies_text name cs meta h a = find_cookie-text name cs h a
