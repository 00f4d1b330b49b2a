-- ===== src/Network/Url.antt =====
-- `redactSensitiveUrl` of extension/src/network.ts.
--
-- The URL parser is a parameter: what it parses, the search parameters of a parsed URL, the URL with
-- others in their place, and its text. The list of parameters and its `set` are modelled, with the
-- iteration over it, which is by position in the list as it is at that moment.
pub mod Loop
use firefox_ctl.Base.{
  Bool, List, Option, Text, [], any, false, get_elem?, if◌then◌else◌, length, nat_eq, none, some,
  suc, text_eq, true, txt, zero, ℕ, ◌&&◌, ◌==◌, ◌||◌, ◌∷◌, ◌≡◌, ◌⊎◌,
}

pub record UrlApi : Type 1 where
  pub Url : Type 0
  pub parse : Text → Option Url
  pub search_params : Url → List (Text × Text)
  pub with_params : Url → List (Text × Text) → Url
  pub to_text : Url → Text

unfoldable pub sensitive_params : List Text
sensitive_params =
    txt "password"
    ∷ txt "passwd"
    ∷ txt "pwd"
    ∷ txt "token"
    ∷ txt "api_key"
    ∷ txt "apikey"
    ∷ txt "secret"
    ∷ txt "auth"
    ∷ txt "key"
    ∷ txt "credential"
    ∷ []

abbrev pub starts_with : Text → Text → Bool
starts_with [] t = true
starts_with (c ∷ cs) [] = false
starts_with (c ∷ cs) (d ∷ ds) = c == d && starts_with cs ds

-- `text.includes(part)`
abbrev pub includes : Text → Text → Bool
includes part [] = starts_with part []
includes part (c ∷ cs) = starts_with part (c ∷ cs) || includes part cs

unfoldable pub redacted_value : Text
redacted_value = txt "[REDACTED]"

unfoldable pub is_sensitive_key : (Text → Text) → Text → Bool
is_sensitive_key to_lower key = any (λ param. includes param (to_lower key)) sensitive_params

abbrev pub Params : Type 0
Params = List (Text × Text)

abbrev pub remove_key : Text → Params → Params
remove_key k [] = []
remove_key k ((j, v) ∷ ps) = if j == k then remove_key k ps else (j, v) ∷ remove_key k ps

-- `searchParams.set(k, v)`: the first value of the key is replaced and the others are removed.
abbrev pub set_param : Text → Text → Params → Params
set_param k v [] = (k, v) ∷ []
set_param k v ((j, w) ∷ ps) = if j == k then (k, v) ∷ remove_key k ps else (j, w) ∷ set_param k v ps

abbrev pub has_param : Text → Params → Bool
has_param k [] = false
has_param k ((j, v) ∷ ps) = j == k || has_param k ps

module _ (to_lower : Text → Text) where
  -- The loop from position i, with fuel for its rounds.
  unfoldable pub redact_from : ℕ → ℕ → Params → Bool → Params × Bool
  redact_from zero i ps redacted = (ps, redacted)
  redact_from (suc fuel) i ps redacted = elim (get_elem? ps i) [
    | none ↦ (ps, redacted)
    | some (key, value) ↦ elim (is_sensitive_key to_lower key) [
      | true ↦ redact_from fuel (suc i) (set_param key redacted_value ps) true
      | false ↦ redact_from fuel (suc i) ps redacted
    ]
  ]

  unfoldable pub redact_params : Params → Params × Bool
  unfolding redact_from
  redact_params ps = redact_from (length ps) 0 ps false

  unfoldable pub redact_parsed : (api : UrlApi) → Text → api.Url → Text
  unfolding redact_params
  redact_parsed api url parsed =
      let (ps, redacted) = redact_params (api.search_params parsed) in
      if redacted then api.to_text (api.with_params parsed ps) else url

  unfoldable pub redact_sensitive_url : UrlApi → Text → Text
  unfolding redact_parsed
  redact_sensitive_url api url = elim (api.parse url) [
    | none ↦ url
    | some parsed ↦ redact_parsed api url parsed
  ]

  abbrev pub ParamIsSafe : Text × Text → Type 0
  ParamIsSafe (k, v) = (is_sensitive_key to_lower k ≡ false) ⊎ (v ≡ redacted_value)
