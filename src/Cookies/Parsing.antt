-- ===== src/Cookies/Parsing.antt =====
-- An exported cookie, read back by the import of extension/src/cookies.ts.
use firefox_ctl.Base.{
  Bool, Option, Text, [], false, nat_eq, none, refl, some, text_beq, text_eq, txt, ◌==◌, ◌≡◌,
}
use firefox_ctl.Base.Json.{Fields, Json, Number, bool, end, field, get, null, num, obj, text}
use firefox_ctl.Cookies.{
  CookieEntry, PartitionKey, SameSite, ancestor_value, boolean_value, cookie_entry, domain_of, lax,
  name_of, no_restriction, number_value, parse_cookie_entry, parse_partition_key, same_site_of,
  same_site_text, same_site_value, site_value, strict, string_value, unspecified, valid,
}

abbrev pub site_fields : Option Text → Fields → Fields
site_fields none fs = fs
site_fields (some t) fs = field (txt "topLevelSite") (text t) fs

abbrev pub ancestor_fields : Option Bool → Fields
ancestor_fields none = end
ancestor_fields (some b) = field (txt "hasCrossSiteAncestor") (bool b) end

abbrev pub partition_json : Option PartitionKey → Json
partition_json none = null
partition_json (some key) =
    obj (site_fields key.top_level_site (ancestor_fields key.has_cross_site_ancestor))

abbrev pub expiration_fields : Option Number → Fields
expiration_fields none = end
expiration_fields (some n) = field (txt "expirationDate") (num n) end

-- The object of an exported cookie, its store among the fields.
unfoldable pub entry_json : CookieEntry → Text → Json
entry_json e store = obj (
    field (txt "name") (text e.name) (
      field (txt "value") (text e.value) (
        field (txt "domain") (text e.domain) (
          field (txt "hostOnly") (bool e.host_only) (
            field (txt "path") (text e.path) (
              field (txt "secure") (bool e.secure) (
                field (txt "httpOnly") (bool e.http_only) (
                  field (txt "sameSite") (text (same_site_text e.same_site)) (
                    field (txt "session") (bool e.session) (
                      field (txt "firstPartyDomain") (text e.first_party_domain) (
                        field (txt "partitionKey") (partition_json e.partition_key) (
                          field (txt "storeId") (text store)
                            (expiration_fields e.expiration_date)))))))))))))

same_site-text : (s : SameSite) → same_site_value (some (text (same_site_text s))) ≡ valid (some s)
unfolding same_site_value same_site_of text_beq
same_site-text no_restriction = refl
same_site-text lax = refl
same_site-text strict = refl
same_site-text unspecified = refl

parse_partition_key-json :
    (o : Option PartitionKey) → parse_partition_key (some (partition_json o)) ≡ valid o
unfolding parse_partition_key site_value ancestor_value get text_beq
parse_partition_key-json none = refl
parse_partition_key-json (some key) = key_lem key.top_level_site key.has_cross_site_ancestor
  where
    key_lem :
        (site : Option Text) (ancestor : Option Bool)
        → parse_partition_key (
            some (
              partition_json
                (some (record { top_level_site = site; has_cross_site_ancestor = ancestor }))))
          ≡ valid (some (record { top_level_site = site; has_cross_site_ancestor = ancestor }))
    key_lem none none = refl
    key_lem none (some b) = refl
    key_lem (some t) none = refl
    key_lem (some t) (some b) = refl

-- The expiration date is the last field, which the others pass over.
read_back :
    (e : CookieEntry) (store : Text) (date : Option Number)
    → (e.domain == []) ≡ false
    → parse_cookie_entry (entry_json (record e { expiration_date = date }) store)
      ≡ valid (record e { expiration_date = date })
unfolding parse_cookie_entry entry_json cookie_entry name_of domain_of string_value boolean_value
    number_value get text_beq
read_back e store none h =
    rw h (rw (same_site-text e.same_site) (rw (parse_partition_key-json e.partition_key) refl))
read_back e store (some n) h =
    rw h (rw (same_site-text e.same_site) (rw (parse_partition_key-json e.partition_key) refl))

-- Every exported cookie with a domain is read back as it was, without its store.
pub parse_cookie_entry-entry_json :
    (e : CookieEntry) (store : Text)
    → (e.domain == []) ≡ false
    → parse_cookie_entry (entry_json e store) ≡ valid e
parse_cookie_entry-entry_json e store h = read_back e store e.expiration_date h
