-- ===== src/Cookies/Details.antt =====
-- What `cookies.set` and `cookies.getAll` are given by extension/src/cookies.ts, the identity of a
-- cookie, and the order of an export.
use firefox_ctl.Base.{
  Bool, List, Option, Text, [], false, if◌then◌else◌, ltb, nat_beq, nat_eq, none, not, or_else,
  some, text_eq, true, txt, ◌&&◌, ◌++◌, ◌==◌, ◌||◌, ◌∷◌,
}
use firefox_ctl.Base.Json.{Fields, Items, Json, bool, cons, get, nil, null, number, text}
use firefox_ctl.Base.Texts.{contains, starts_with}
use firefox_ctl.Har.Log.{sort_by}
use firefox_ctl.Cookies.{
  Checked, CookieEntry, CookieSetDetails, PartitionKey, and_then, boolean_value, invalid,
  number_value, optional_boolean, optional_number, optional_string, parse_partition_key,
  same_site_value, string_value, unspecified, valid,
}

pub record CookieQuery : Type 0 where
  pub url : Option Text
  pub domain : Option Text
  pub name : Option Text

-- The empty partition key and the null first-party domain of every query are left out.
unfoldable pub cookie_filter : Fields → Checked CookieQuery
unfolding string_value get
cookie_filter params = and_then (optional_string params (txt "url")) (λ url.
    and_then (optional_string params (txt "domain")) (λ domain.
      and_then (optional_string params (txt "name"))
        (λ name. valid (record { url = url; domain = domain; name = name }))))

abbrev without_dot : Text → Text
without_dot [] = []
without_dot (c ∷ cs) = if nat_beq c b'.' then cs else c ∷ cs

unfoldable pub bracketed : Text → Text
unfolding contains starts_with
bracketed host =
    if contains (txt ":") host && not (starts_with (txt "[") host)
    then txt "[" ++ (host ++ txt "]")
    else host

unfoldable pub cookie_url : Text → Bool → Text
unfolding bracketed
cookie_url domain secure =
    (if secure then txt "https" else txt "http")
    ++ (txt "://" ++ (bracketed (without_dot domain) ++ txt "/"))

-- `details.domain` of a cookie that is not host-only.
abbrev set_domain : Bool → Text → Option Text
set_domain host_only domain = if host_only then none else some domain

unfoldable pub set_details : CookieEntry → Text → CookieSetDetails
unfolding cookie_url
set_details e store = record {
  url = cookie_url e.domain e.secure;
  name = e.name;
  value = e.value;
  domain = set_domain e.host_only e.domain;
  path = some e.path;
  secure = some e.secure;
  http_only = some e.http_only;
  same_site = some e.same_site;
  expiration_date = if e.session then none else e.expiration_date;
  store_id = some store;
  first_party_domain = some e.first_party_domain;
  partition_key = e.partition_key;
}

unfoldable pub expire_details : CookieEntry → Text → CookieSetDetails
unfolding cookie_url
expire_details e store = record {
  url = cookie_url e.domain e.secure;
  name = e.name;
  value = if e.name == [] then txt "x" else [];
  domain = set_domain e.host_only e.domain;
  path = some e.path;
  secure = some e.secure;
  http_only = some e.http_only;
  same_site = some unspecified;
  expiration_date = some (number 0);
  store_id = some store;
  first_party_domain = some e.first_party_domain;
  partition_key = e.partition_key;
}

unfoldable pub required_name : Option Json → Checked Text
required_name none = invalid (txt "name is required.")
required_name (some null) = invalid (txt "name is required.")
required_name (some (text t)) = valid t
required_name other = invalid (txt "name must be a string.")

-- Up to the last `/`, which is kept.
unfoldable pub directory : Text → Text
directory [] = []
directory (c ∷ cs) =
    let rest = directory cs in
    if not (rest == []) then c ∷ rest else if nat_beq c b'/' then c ∷ [] else []

unfoldable pub default_path : Text → Text
unfolding directory
default_path pathname = if directory pathname == [] then txt "/" else directory pathname

-- `text || undefined`
abbrev filled : Option Text → Option Text
filled none = none
filled (some []) = none
filled (some (c ∷ cs)) = some (c ∷ cs)

unfoldable pub target_of : Option Text → Option Text → Bool → Checked Text
unfolding cookie_url
target_of (some url) domain secure = valid url
target_of none (some domain) secure = valid (cookie_url domain secure)
target_of none none secure = invalid (txt "setCookie needs --url or --domain.")

module _ (pathname : Text → Option Text) where
  abbrev path_of : Option Text → Text → Option Text
  path_of (some given) target = some given
  path_of none target = elim (pathname target) [ none ↦ none | some p ↦ some (default_path p) ]

  -- `pathname` is that of the url, if it can be parsed.
  unfoldable pub set_cookie_details : Fields → Checked CookieSetDetails
  unfolding required_name target_of string_value boolean_value number_value same_site_value
      parse_partition_key get
  set_cookie_details params = and_then (required_name (get (txt "name") params)) (λ name.
      and_then (optional_string params (txt "url")) (λ url.
        and_then (optional_string params (txt "domain")) (λ domain.
          and_then (optional_boolean params (txt "secure")) (λ secure.
            and_then (target_of (filled url) (filled domain) (or_else secure false)) (λ target.
              and_then (optional_string params (txt "path")) (λ given.
                and_then (optional_boolean params (txt "httpOnly")) (λ http_only.
                  and_then (same_site_value (get (txt "sameSite") params)) (λ same_site.
                    and_then (optional_number params (txt "expirationDate")) (λ expiration_date.
                      and_then (optional_string params (txt "firstPartyDomain"))
                        (λ first_party_domain.
                          and_then (parse_partition_key (get (txt "partitionKey") params))
                            (λ partition_key.
                              and_then (optional_string params (txt "value")) (λ value.
                                valid (record {
                                  url = target;
                                  name = name;
                                  value = or_else value [];
                                  domain = filled domain;
                                  path = path_of given target;
                                  secure = secure;
                                  http_only = http_only;
                                  same_site = same_site;
                                  expiration_date = expiration_date;
                                  store_id = none;
                                  first_party_domain = first_party_domain;
                                  partition_key = partition_key;
                                })))))))))))))

abbrev site_of : Option PartitionKey → Text
site_of none = []
site_of (some key) = or_else key.top_level_site []

abbrev ancestor_of : Option PartitionKey → Bool
ancestor_of none = false
ancestor_of (some key) =
    if or_else key.top_level_site [] == [] then false else or_else key.has_cross_site_ancestor false

-- The array that `identityKey` writes as a text.
unfoldable pub identity_key : (Text → Text) → CookieEntry → Items
identity_key to_lower e = cons (text (to_lower e.domain)) (
    cons (bool e.host_only) (
      cons (text e.path) (
        cons (text e.name) (
          cons (text e.first_party_domain) (
            cons (text (site_of e.partition_key))
              (cons (bool (ancestor_of e.partition_key)) nil))))))

-- `a < b` of texts, by their units.
unfoldable pub text_lt : Text → Text → Bool
text_lt [] [] = false
text_lt [] (c ∷ cs) = true
text_lt (b ∷ bs) [] = false
text_lt (b ∷ bs) (c ∷ cs) =
    let rest = text_lt bs cs in if ltb b c then true else if ltb c b then false else rest

-- Whether the comparison of two cookies is not above 0.
unfoldable pub stays_before : CookieEntry → CookieEntry → Bool
unfolding text_lt
stays_before a b =
    if not (a.domain == b.domain)
    then text_lt a.domain b.domain
    else if not (a.path == b.path)
    then text_lt a.path b.path
    else a.name == b.name || text_lt a.name b.name

unfoldable pub sort_cookies : List CookieEntry → List CookieEntry
unfolding stays_before sort_by
sort_cookies cookies = sort_by stays_before cookies
