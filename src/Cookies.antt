-- ===== src/Cookies.antt =====
-- extension/src/cookies.ts: the checks of a cookie's fields, and what `cookies.set` is given.
--
-- `to_lower` and the path name of a url are parameters. `isPast`, and what Firefox stores for a set
-- (`requestedCookie`), are left out: they stand on floating point and on the URL parser.
pub mod Parsing
pub mod Details
mod Tests
use firefox_ctl.Base.{
  Bool, Option, Text, [], false, if◌then◌else◌, is_some, nat_eq, none, not, or_else, some, text_eq,
  txt, ◌++◌, ◌/◌, ◌==◌,
}
use firefox_ctl.Base.Json.{Fields, Json, Number, bool, get, null, num, number, obj, text}

-- What a check gives, or the message of the error that it throws.
pub data Checked (A : Type 0) : Type 0 where
  valid : A → Checked A
  invalid : Text → Checked A

abbrev pub and_then : {A B : Type 0} → Checked A → (A → Checked B) → Checked B
and_then (valid a) f = f a
and_then (invalid e) f = invalid e

pub data SameSite : Type 0 where
  no_restriction lax strict unspecified : SameSite

abbrev pub same_site_text : SameSite → Text
same_site_text no_restriction = txt "no_restriction"
same_site_text lax = txt "lax"
same_site_text strict = txt "strict"
same_site_text unspecified = txt "unspecified"

-- `isSameSite`
unfoldable pub same_site_of : Text → Option SameSite
same_site_of t =
    if t == txt "no_restriction"
    then some no_restriction
    else if t == txt "lax"
    then some lax
    else if t == txt "strict"
    then some strict
    else if t == txt "unspecified"
    then some unspecified
    else none

pub record PartitionKey : Type 0 where
  pub top_level_site : Option Text
  pub has_cross_site_ancestor : Option Bool

-- An exported cookie without its store.
pub record CookieEntry : Type 0 where
  pub name : Text
  pub value : Text
  pub domain : Text
  pub host_only : Bool
  pub path : Text
  pub secure : Bool
  pub http_only : Bool
  pub same_site : SameSite
  pub session : Bool
  pub first_party_domain : Text
  pub partition_key : Option PartitionKey
  pub expiration_date : Option Number

pub record CookieSetDetails : Type 0 where
  pub url : Text
  pub name : Text
  pub value : Text
  pub domain : Option Text
  pub path : Option Text
  pub secure : Option Bool
  pub http_only : Option Bool
  pub same_site : Option SameSite
  pub expiration_date : Option Number
  pub store_id : Option Text
  pub first_party_domain : Option Text
  pub partition_key : Option PartitionKey

abbrev must_be : Text → Text → Text
must_be key type = key ++ (txt " must be a " ++ (type ++ txt "."))

-- `optional`, for each of its types.
unfoldable pub string_value : Text → Option Json → Checked (Option Text)
string_value key none = valid none
string_value key (some null) = valid none
string_value key (some (text t)) = valid (some t)
string_value key other = invalid (must_be key (txt "string"))

unfoldable pub boolean_value : Text → Option Json → Checked (Option Bool)
boolean_value key none = valid none
boolean_value key (some null) = valid none
boolean_value key (some (bool b)) = valid (some b)
boolean_value key other = invalid (must_be key (txt "boolean"))

unfoldable pub number_value : Text → Option Json → Checked (Option Number)
number_value key none = valid none
number_value key (some null) = valid none
number_value key (some (num n)) = valid (some n)
number_value key other = invalid (must_be key (txt "number"))

abbrev pub optional_string : Fields → Text → Checked (Option Text)
optional_string params key = string_value key (get key params)

abbrev pub optional_boolean : Fields → Text → Checked (Option Bool)
optional_boolean params key = boolean_value key (get key params)

abbrev pub optional_number : Fields → Text → Checked (Option Number)
optional_number params key = number_value key (get key params)

abbrev same_site_error : Text
same_site_error = txt "sameSite must be one of no_restriction, lax, strict, unspecified."

unfoldable pub same_site_value : Option Json → Checked (Option SameSite)
unfolding same_site_of
same_site_value none = valid none
same_site_value (some null) = valid none
same_site_value (some (text t)) = elim (same_site_of t) [
  | none ↦ invalid same_site_error
  | some s ↦ valid (some s)
]
same_site_value other = invalid same_site_error

-- A field of a partition key may be missing but not null.
unfoldable pub site_value : Option Json → Checked (Option Text)
site_value none = valid none
site_value (some (text t)) = valid (some t)
site_value other = invalid (txt "partitionKey.topLevelSite must be a string.")

unfoldable pub ancestor_value : Option Json → Checked (Option Bool)
ancestor_value none = valid none
ancestor_value (some (bool b)) = valid (some b)
ancestor_value other = invalid (txt "partitionKey.hasCrossSiteAncestor must be a boolean.")

unfoldable pub parse_partition_key : Option Json → Checked (Option PartitionKey)
unfolding site_value ancestor_value get
parse_partition_key none = valid none
parse_partition_key (some null) = valid none
parse_partition_key (some (obj fs)) = and_then (site_value (get (txt "topLevelSite") fs)) (λ site.
    and_then (ancestor_value (get (txt "hasCrossSiteAncestor") fs)) (λ ancestor.
      valid (some (record { top_level_site = site; has_cross_site_ancestor = ancestor }))))
parse_partition_key other = invalid (txt "partitionKey must be an object or null.")

unfoldable pub name_of : Option Json → Checked Text
name_of (some (text t)) = valid t
name_of other = invalid (txt "name must be a string.")

unfoldable pub domain_of : Option Json → Checked Text
domain_of (some (text t)) =
    if t == [] then invalid (txt "domain must be a non-empty string.") else valid t
domain_of other = invalid (txt "domain must be a non-empty string.")

unfoldable pub cookie_entry : Fields → Checked CookieEntry
unfolding name_of domain_of same_site_value parse_partition_key string_value boolean_value
    number_value get
cookie_entry raw = and_then (name_of (get (txt "name") raw)) (λ name.
    and_then (domain_of (get (txt "domain") raw)) (λ domain.
      and_then (optional_number raw (txt "expirationDate")) (λ expiration_date.
        and_then (optional_string raw (txt "value")) (λ value.
          and_then (optional_boolean raw (txt "hostOnly")) (λ host_only.
            and_then (optional_string raw (txt "path")) (λ path.
              and_then (optional_boolean raw (txt "secure")) (λ secure.
                and_then (optional_boolean raw (txt "httpOnly")) (λ http_only.
                  and_then (same_site_value (get (txt "sameSite") raw)) (λ same_site.
                    and_then (optional_boolean raw (txt "session")) (λ session.
                      and_then (optional_string raw (txt "firstPartyDomain")) (λ first_party_domain.
                        and_then (parse_partition_key (get (txt "partitionKey") raw))
                          (λ partition_key. valid (record {
                            name = name;
                            value = or_else value [];
                            domain = domain;
                            host_only = or_else host_only false;
                            path = or_else path (txt "/");
                            secure = or_else secure false;
                            http_only = or_else http_only false;
                            same_site = or_else same_site unspecified;
                            session = or_else session (not (is_some expiration_date));
                            first_party_domain = or_else first_party_domain [];
                            partition_key = partition_key;
                            expiration_date = expiration_date;
                          })))))))))))))

unfoldable pub parse_cookie_entry : Json → Checked CookieEntry
unfolding cookie_entry
parse_cookie_entry (obj fs) = cookie_entry fs
parse_cookie_entry other = invalid (txt "cookie must be an object.")
