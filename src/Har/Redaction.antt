-- ===== src/Har/Redaction.antt =====
-- `redactEntry` of extension/src/har.ts: the values of credential headers and of cookies replaced.
use firefox_ctl.Base.{List, Text, [], if◌then◌else◌, map, mem_beq, nat_eq, text_eq, ◌∷◌}
use firefox_ctl.Network.{redacted_header, sensitive_headers}
use firefox_ctl.Har.{HarCookie, HarEntry, HarHeader}

unfoldable pub redact_cookies : List HarCookie → List HarCookie
unfolding redacted_header
redact_cookies [] = []
redact_cookies (c ∷ cookies) = record c { value = redacted_header } ∷ redact_cookies cookies

module _ (to_lower : Text → Text) where
  unfoldable pub redact_header : HarHeader → HarHeader
  unfolding sensitive_headers redacted_header
  redact_header h =
      if mem_beq (to_lower h.name) sensitive_headers
      then record { name = h.name; value = redacted_header }
      else h

  unfoldable pub redact_headers : List HarHeader → List HarHeader
  unfolding redact_header
  redact_headers headers = map redact_header headers

  unfoldable pub redact_entry : HarEntry → HarEntry
  unfolding redact_headers redact_cookies
  redact_entry e = record e {
    request = record e.request {
      headers = redact_headers e.request.headers;
      cookies = redact_cookies e.request.cookies;
    };
    response = record e.response {
      headers = redact_headers e.response.headers;
      cookies = redact_cookies e.response.cookies;
    };
  }
