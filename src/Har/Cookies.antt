-- ===== src/Har/Cookies.antt =====
-- The cookies of a request and of a response, extension/src/har.ts.
pub mod Pairs
use firefox_ctl.Base.{
  List, Option, Text, [], false, if◌then◌else◌, keep_some, nat_eq, none, some, text_eq, true, txt,
  ◌++◌, ◌==◌, ◌∷◌,
}
use firefox_ctl.Base.Texts.{cut_at, split, trim}
use firefox_ctl.Har.{HarCookie}

abbrev pub plain_cookie : Text → Text → HarCookie
plain_cookie name value = record {
  name = name;
  value = value;
  path = none;
  domain = none;
  expires = none;
  http_only = false;
  secure = false;
  same_site = none;
}

abbrev pub pair_of : Text → Option (Text × Text) → HarCookie
pair_of trimmed none = plain_cookie [] trimmed
pair_of trimmed (some p) = plain_cookie (trim p.0) (trim p.1)

-- A part without `=` is a nameless cookie.
unfoldable pub name_value : Text → Option HarCookie
unfolding trim cut_at
name_value part =
    let trimmed = trim part in
    if trimmed == [] then none else some (pair_of trimmed (cut_at b'=' trimmed))

unfoldable pub name_values : List Text → List HarCookie
unfolding name_value
name_values [] = []
name_values (part ∷ parts) = keep_some (name_value part) (name_values parts)

unfoldable pub request_cookies : Text → List HarCookie
unfolding name_values split
request_cookies header = name_values (split b';' header)

module _ (to_lower : Text → Text) (iso_date : Text → Option Text) where
  -- What `applyAttribute` does with an attribute's trimmed name and value; the date is that of
  -- `Date.parse`, written by `toISOString`, if it is one.
  unfoldable pub set_attribute : HarCookie → Text → Text → HarCookie
  set_attribute c name value =
      if name == txt "path"
      then record c { path = some value }
      else if name == txt "domain"
      then record c { domain = some value }
      else if name == txt "expires"
      then (elim (iso_date value) [ none ↦ c | some date ↦ record c { expires = some date } ])
      else if name == txt "httponly"
      then record c { http_only = true }
      else if name == txt "secure"
      then record c { secure = true }
      else if name == txt "samesite"
      then record c { same_site = some value }
      else c

  unfoldable pub apply_attribute : HarCookie → Text → HarCookie
  unfolding set_attribute cut_at trim
  apply_attribute c attribute = elim (cut_at b'=' attribute) [
    | none ↦ set_attribute c (to_lower (trim attribute)) []
    | some p ↦ set_attribute c (to_lower (trim p.0)) (trim p.1)
  ]

  unfoldable pub apply_attributes : HarCookie → List Text → HarCookie
  unfolding apply_attribute
  apply_attributes c [] = c
  apply_attributes c (a ∷ rest) = apply_attributes (apply_attribute c a) rest

  unfoldable pub set_cookie_of : List Text → Option HarCookie
  unfolding apply_attributes name_value
  set_cookie_of [] = none
  set_cookie_of (first ∷ attributes) = elim (name_value first) [
    | none ↦ none
    | some c ↦ some (apply_attributes c attributes)
  ]

  unfoldable pub set_cookie : Text → Option HarCookie
  unfolding set_cookie_of split
  set_cookie line = set_cookie_of (split b';' line)

  unfoldable pub lines_cookies : List Text → List HarCookie
  unfolding set_cookie
  lines_cookies [] = []
  lines_cookies (line ∷ lines) = keep_some (set_cookie line) (lines_cookies lines)

  -- Firefox joins repeated headers into one value, one per line.
  unfoldable pub response_cookies : List Text → List HarCookie
  unfolding lines_cookies split
  response_cookies [] = []
  response_cookies (header ∷ headers) =
      lines_cookies (split b'\n' header) ++ response_cookies headers
