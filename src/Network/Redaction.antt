-- ===== src/Network/Redaction.antt =====
-- What the answers of `query`, extension/src/network.ts, may hold of the stored headers.
use firefox_ctl.Base.{
  All, Bool, Bool-cases, List, Option, Text, [], false, inl, inr, map, none, refl, some, true, ◌∷◌,
  ◌≡◌, ◌⊎◌,
}
use firefox_ctl.Network.{HttpHeader, NetworkEntry, redacted_header}
use firefox_ctl.Network.Query.{
  NetworkQuery, copied_headers, copy, is_sensitive, query, redact_header,
}

module _ (to_lower : Text → Text) where
  -- A header with no credential: its name is not sensitive, or its value is the stand-in and the
  -- raw bytes are gone.
  abbrev pub HeaderIsSafe : HttpHeader → Type 0
  HeaderIsSafe h =
      (is_sensitive to_lower h.name ≡ false)
      ⊎ ((h.value ≡ some redacted_header) × (h.binary_value ≡ none))

  abbrev pub HeadersAreSafe : Option (List HttpHeader) → Type 0
  HeadersAreSafe none = Unit
  HeadersAreSafe (some hs) = All HeaderIsSafe hs

  abbrev pub EntryIsSafe : NetworkEntry → Type 0
  EntryIsSafe e = HeadersAreSafe e.response_headers

  redact_header-HeaderIsSafe : (h : HttpHeader) → HeaderIsSafe (redact_header to_lower h)
  unfolding redact_header
  redact_header-HeaderIsSafe h = elim (Bool-cases (is_sensitive to_lower h.name)) [
    | inl e ↦ rw e (inr (refl, refl))
    | inr e ↦ rw e (inl e)
  ]

  redacted_headers : (hs : List HttpHeader) → All HeaderIsSafe (map (redact_header to_lower) hs)
  redacted_headers [] = tt
  redacted_headers (h ∷ hs) = (redact_header-HeaderIsSafe h, redacted_headers hs)

  copied_headers-HeadersAreSafe :
      (include redact : Bool) (o : Option (List HttpHeader))
      → (redact ≡ true) ⊎ (include ≡ false)
      → HeadersAreSafe (copied_headers to_lower include redact o)
  copied_headers-HeadersAreSafe include redact none h = tt
  copied_headers-HeadersAreSafe false redact (some hs) h = tt
  copied_headers-HeadersAreSafe true true (some hs) h = redacted_headers hs
  copied_headers-HeadersAreSafe true false (some hs) h = absurd (never h)
    where
      never : (false ≡ true) ⊎ (true ≡ false) → ⊥
      never (inl e) = cc
      never (inr e) = cc

  copies-EntryIsSafe :
      (include redact : Bool) (es : List NetworkEntry)
      → (redact ≡ true) ⊎ (include ≡ false)
      → All EntryIsSafe (map (copy to_lower include redact) es)
  unfolding copy
  copies-EntryIsSafe include redact [] h = tt
  copies-EntryIsSafe include redact (e ∷ es) h = (
    copied_headers-HeadersAreSafe include redact e.response_headers h,
    copies-EntryIsSafe include redact es h,
  )

  -- An answer to a query that redacts, or that leaves the headers out, holds no credential header
  -- with its value or its raw bytes.
  pub query-EntryIsSafe :
      (es : List NetworkEntry) (q : NetworkQuery)
      → (q.redact ≡ true) ⊎ (q.include_headers ≡ false)
      → All EntryIsSafe (query to_lower es q).1.requests
  unfolding query
  query-EntryIsSafe es q h = copies-EntryIsSafe q.include_headers q.redact _ h
