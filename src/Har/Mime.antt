-- ===== src/Har/Mime.antt =====
-- Headers, status lines and mime types of extension/src/har.ts.
use firefox_ctl.Base.{
  Bool, List, Option, Text, [], any, drop, filter, find, if◌then◌else◌, leb, map, nat_beq, nat_eq,
  none, not, or_else, some, text_eq, txt, ℕ, ◌&&◌, ◌++◌, ◌+◌, ◌==◌, ◌||◌, ◌∷◌,
}
use firefox_ctl.Base.Texts.{
  after_prefix, contains, cut_at, is_digit, is_space, span, starts_with, trim,
}
use firefox_ctl.Network.{HttpHeader}
use firefox_ctl.Har.{HarHeader}

-- `binary_value` is the code units that `String.fromCharCode` makes of the bytes.
unfoldable pub header_value : HttpHeader → Text
header_value h = elim h.value [ some v ↦ v | none ↦ or_else h.binary_value [] ]

unfoldable pub har_headers : Option (List HttpHeader) → List HarHeader
unfolding header_value
har_headers headers =
    map (λ h. record { name = h.name; value = header_value h }) (or_else headers [])

-- The regular expression's case: no letter outside ASCII folds to one inside.
abbrev pub ascii_lower : ℕ → ℕ
ascii_lower c = if leb b'A' c && leb c b'Z' then c + 32 else c

abbrev is_version_unit : ℕ → Bool
is_version_unit c = is_digit c || nat_beq c b'.'

-- What `.` does not match.
abbrev is_terminator : ℕ → Bool
is_terminator c = nat_beq c 10 || nat_beq c 13 || nat_beq c 8232 || nat_beq c 8233

-- What `(?: (.*))?$` matches: all of the text or nothing.
unfoldable pub reason_of : Text → Option (Option Text)
reason_of [] = some none
reason_of (c ∷ cs) = if nat_beq c b' ' && not (any is_terminator cs) then some (some cs) else none

-- `[0-9]{3}` and what follows it.
unfoldable pub status_of : Text → Option (Option Text)
unfolding reason_of
status_of (a ∷ b ∷ c ∷ rest) =
    if is_digit a && is_digit b && is_digit c then reason_of rest else none
status_of other = none

-- The groups of `STATUS_LINE`. Each part of it stops at a unit that the next part starts with, so
-- taking the longest prefix never has to be undone.
unfoldable pub status_line : Text → Option (Text × Option Text)
unfolding after_prefix span status_of
status_line line = elim (after_prefix (txt "HTTP/") line) [
  | none ↦ none
  | some rest ↦
      let version = span is_version_unit rest in
      let gap = span (λ c. nat_beq c b' ') version.1 in
      if version.0 == [] || gap.0 == [] then none else elim (status_of gap.1) [
        | none ↦ none
        | some reason ↦ some (txt "HTTP/" ++ version.0, reason)
      ]
]

unfoldable pub http_version : Option Text → Text
unfolding status_line
http_version line = elim (status_line (or_else line [])) [ none ↦ [] | some groups ↦ groups.0 ]

unfoldable pub status_text : Option Text → Text
unfolding status_line trim
status_text line = elim (status_line (or_else line [])) [
  | none ↦ []
  | some groups ↦ elim groups.1 [ none ↦ [] | some reason ↦ trim reason ]
]

abbrev is_charset_unit : ℕ → Bool
is_charset_unit c = not (nat_beq c b'"' || nat_beq c b';' || is_space c)

abbrev skip_quote : Text → Text
skip_quote [] = []
skip_quote (c ∷ cs) = if nat_beq c b'"' then cs else c ∷ cs

-- The expression of `charset` after its first word.
unfoldable pub charset_value : Text → Option Text
unfolding after_prefix span is_space
charset_value rest = elim (after_prefix (txt "=") (span is_space rest).1) [
  | none ↦ none
  | some value ↦
      let name = (span is_charset_unit (skip_quote (span is_space value).1)).0 in
      if name == [] then none else some name
]

unfoldable pub charset_at : Text → Option Text
unfolding after_prefix charset_value
charset_at t = elim (after_prefix (txt "charset") (map ascii_lower t)) [
  | none ↦ none
  | some rest ↦ charset_value (drop 7 t)
]

unfoldable pub find_charset : Text → Option Text
unfolding charset_at
find_charset [] = none
find_charset (c ∷ cs) =
    let later = find_charset cs in
    elim (charset_at (c ∷ cs)) [ some name ↦ some name | none ↦ later ]

unfoldable pub charset : Text → Text
unfolding find_charset
charset mime_type = or_else (find_charset mime_type) (txt "utf-8")

module _ (to_lower : Text → Text) where
  unfoldable pub content_type : Option (List HttpHeader) → Text
  unfolding header_value
  content_type headers =
      elim (find (λ h. to_lower h.name == txt "content-type") (or_else headers [])) [
        | none ↦ []
        | some h ↦ header_value h
      ]

  unfoldable pub header_values : Option (List HttpHeader) → Text → List Text
  unfolding header_value
  header_values headers name =
      map header_value (filter (λ h. to_lower h.name == name) (or_else headers []))

  unfoldable pub is_textual : Text → Bool
  unfolding cut_at trim starts_with contains
  is_textual mime_type =
      let first : Text = elim (cut_at b';' mime_type) [ none ↦ mime_type | some p ↦ p.0 ] in
      let type = to_lower (trim first) in
      starts_with (txt "text/") type
      || contains (txt "json") type
      || contains (txt "javascript") type
      || contains (txt "xml") type
      || starts_with (txt "application/x-www-form-urlencoded") type
