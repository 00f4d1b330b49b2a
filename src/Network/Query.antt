-- ===== src/Network/Query.antt =====
-- `query` of extension/src/network.ts, with what it answers and how it redacts headers.
use firefox_ctl.Base.{
  Bool, List, Option, Text, [], drop, false, filter, if◌then◌else◌, length, map, mem_beq, nat_eq,
  none, some, suc, text_eq, true, zero, ℕ, ◌&&◌, ◌-◌, ◌==◌, ◌∷◌,
}
use firefox_ctl.Base.Int.{int_eq, ℤ}
use firefox_ctl.Base.Json.{Number, finite, infinite, nan, number}
use firefox_ctl.Network.{HttpHeader, NetworkEntry, redacted_header, sensitive_headers, status_text}

pub record NetworkQuery : Type 0 where
  pub tab_id : Option ℤ
  pub type : Option Text
  pub status : Option Text
  pub clear : Bool
  pub limit : Number
  pub include_headers : Bool
  pub redact : Bool

pub record NetworkQueryResult : Type 0 where
  pub requests : List NetworkEntry
  pub total : ℕ
  pub filtered : ℕ

-- `limit = 50` where the query gives none.
abbrev pub default_limit : Number
default_limit = number 50

-- `tabId !== undefined && entry.tabId !== tabId` does not hold.
abbrev pub tab_matches : Option ℤ → ℤ → Bool
tab_matches none id = true
tab_matches (some t) id = id == t

-- A missing filter and an empty one match everything.
abbrev pub text_matches : Option Text → Text → Bool
text_matches none t = true
text_matches (some []) t = true
text_matches (some (c ∷ cs)) t = t == (c ∷ cs)

unfoldable pub matches : NetworkQuery → NetworkEntry → Bool
matches q e =
    tab_matches q.tab_id e.tab_id
    && (text_matches q.type e.type && text_matches q.status (status_text e.status))

-- The last n elements.
unfoldable pub last_n {ℓ} : {A : Type ℓ} → ℕ → List A → List A
last_n n xs = drop (length xs - n) xs

-- `limit <= 0 ? [] : matched.slice(-limit)`. A slice truncates its argument, takes NaN for 0, and
-- from -0 or an infinite one takes everything.
unfoldable pub take_limit {ℓ} : {A : Type ℓ} → Number → List A → List A
unfolding last_n
take_limit nan xs = xs
take_limit (infinite true) xs = []
take_limit (infinite false) xs = xs
take_limit (finite true w f) xs = []
take_limit (finite false zero zero) xs = []
take_limit (finite false zero (suc f)) xs = xs
take_limit (finite false (suc w) f) xs = last_n (suc w) xs

unfoldable pub is_sensitive : (Text → Text) → Text → Bool
is_sensitive to_lower name = mem_beq (to_lower name) sensitive_headers

unfoldable pub redact_header : (Text → Text) → HttpHeader → HttpHeader
redact_header to_lower h =
    if is_sensitive to_lower h.name
    then record { name = h.name; value = some redacted_header; binary_value = none }
    else h

abbrev pub copied_headers :
    (Text → Text) → Bool → Bool → Option (List HttpHeader) → Option (List HttpHeader)
copied_headers to_lower include redact none = none
copied_headers to_lower false redact (some hs) = none
copied_headers to_lower true redact (some hs) =
    some (if redact then map (redact_header to_lower) hs else hs)

unfoldable pub copy : (Text → Text) → Bool → Bool → NetworkEntry → NetworkEntry
copy to_lower include redact e = record e {
  response_headers = copied_headers to_lower include redact e.response_headers;
}

-- The entries that are left, and the answer.
unfoldable pub query :
    (Text → Text) → List NetworkEntry → NetworkQuery → List NetworkEntry × NetworkQueryResult
query to_lower entries q =
    let matched = filter (matches q) entries in
    let requests = map (copy to_lower q.include_headers q.redact) (take_limit q.limit matched) in
    let left : List NetworkEntry = if q.clear then [] else entries in
    (left, record { requests = requests; total = length left; filtered = length requests })
