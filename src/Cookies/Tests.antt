-- ===== src/Cookies/Tests.antt =====
-- Runs of extension/src/cookies.ts, and the theorem at a concrete cookie.
use firefox_ctl.Base.{[], false, map, none, refl, text_beq, true, txt, ◌∷◌, ◌≡◌}
use firefox_ctl.Base.Json.{end, get, obj}
use firefox_ctl.Base.Texts.{after_prefix, contains, starts_with}
use firefox_ctl.Har.Log.{sort_by}
use firefox_ctl.Cookies.{
  CookieEntry, ancestor_value, boolean_value, cookie_entry, domain_of, invalid, lax, name_of,
  number_value, parse_cookie_entry, parse_partition_key, same_site_of, same_site_value, site_value,
  string_value, valid,
}
use firefox_ctl.Cookies.Parsing.{entry_json, parse_cookie_entry-entry_json}
use firefox_ctl.Cookies.Details.{
  bracketed, cookie_filter, cookie_url, default_path, directory, expire_details, identity_key,
  required_name, set_cookie_details, set_details, sort_cookies, stays_before, target_of, text_lt,
}

cookies_run : Unit {0}
unfolding same_site_of string_value boolean_value number_value same_site_value site_value
    ancestor_value parse_partition_key name_of domain_of cookie_entry parse_cookie_entry
    cookie_filter contains starts_with after_prefix bracketed cookie_url set_details expire_details
    required_name directory default_path target_of set_cookie_details identity_key text_lt
    stays_before sort_cookies sort_by entry_json get text_beq
cookies_run = tt

abbrev cookie : CookieEntry
cookie = record {
  name = txt "sid";
  value = txt "1";
  domain = txt ".a.org";
  host_only = false;
  path = txt "/p";
  secure = true;
  http_only = false;
  same_site = lax;
  session = true;
  first_party_domain = [];
  partition_key = none;
  expiration_date = none;
}

writes_url : (set_details cookie (txt "s")).url ≡ txt "https://a.org/"
unfolding cookies_run
writes_url = refl

takes_directory : default_path (txt "/a/b") ≡ txt "/a/"
unfolding cookies_run
takes_directory = refl

sorts_paths :
    map (λ c. c.path) (sort_cookies (cookie ∷ record cookie { path = txt "/" } ∷ []))
    ≡ txt "/" ∷ txt "/p" ∷ []
unfolding cookies_run
sorts_paths = refl

refuses_name : parse_cookie_entry (obj end) ≡ invalid (txt "name must be a string.")
unfolding cookies_run
refuses_name = refl

parse_cookie_entry-entry_json_example :
    parse_cookie_entry (entry_json cookie (txt "store")) ≡ valid cookie
unfolding text_beq
parse_cookie_entry-entry_json_example = parse_cookie_entry-entry_json cookie (txt "store") refl
