-- ===== src/Har/Tests.antt =====
-- Runs of the HAR log of extension/src/har.ts, and the theorems at concrete logs.
use firefox_ctl.Base.{
  List, Text, [], ap, arith, false, get_elem?, length, map, none, or_else, refl, set, some, suc,
  text_beq, total, total-set, true, txt, zero, ℕ, ◌%◌, ◌*◌, ◌++◌, ◌+◌, ◌/◌, ◌∷◌, ◌≡◌, ◌≤◌,
}
use firefox_ctl.Base.Texts.{
  after_prefix, contains, cut_at, is_space, join, span, split, starts_with, trim, trim_end,
  trim_start,
}
use firefox_ctl.Reply.{utf8_length}
use firefox_ctl.HarRecorder.Hops.{HopRecord, response}
use firefox_ctl.Har.{FinishedHop, Har, HarEntry, HarRecording}
use firefox_ctl.Har.Cookies.{
  apply_attribute, apply_attributes, lines_cookies, name_value, name_values, plain_cookie,
  request_cookies, response_cookies, set_attribute, set_cookie, set_cookie_of,
}
use firefox_ctl.Har.Cookies.Pairs.{IsCookiePair, print_cookies, request_cookies-print_cookies}
use firefox_ctl.Har.Query.{decode_component, param_of, params_of, query_string}
use firefox_ctl.Har.Mime.{
  ascii_lower, charset, charset_at, charset_value, content_type, find_charset, har_headers,
  header_value, header_values, http_version, is_textual, reason_of, status_line, status_of,
  status_text,
}
use firefox_ctl.Har.Bodies.{
  base64, base64_chunk, base64_pieces, body_text, concat, decode_text, form_params, form_post_data,
  post_data, raw_part, raw_parts, raw_post_data, response_content,
}
use firefox_ctl.Har.Bodies.Base64.{base64-btoa}
use firefox_ctl.Har.Sizes.{
  bodiless, content_length, digits_value, only_value, raw_length, raw_total, request_body_size,
  response_size, safe_digits, timings,
}
use firefox_ctl.Har.Finish.{finish, finished_post}
use firefox_ctl.Har.Log.{
  build_log, content, dropped_bodies, dropped_body, entry, page, request, sort_by, truncated_bodies,
}
use firefox_ctl.Har.Fit.{
  candidate, candidates, candidates_from, drop_body, entry_bytes, filled_post, filled_request,
  filled_text, fit_log, fit_loop, has_payload, next_size, reply_bytes, shell, shell_bodies,
  shell_content, shell_post, shell_request,
}
use firefox_ctl.Har.Fit.Reference.{first_fit, fit_log-first_fit}

texts_run : Unit {0}
unfolding trim_start trim_end trim is_space cut_at split join after_prefix starts_with contains span
    text_beq
texts_run = tt

parts_run : Unit {0}
unfolding name_value name_values request_cookies set_attribute apply_attribute apply_attributes
    set_cookie_of set_cookie lines_cookies response_cookies decode_component param_of params_of
    query_string header_value har_headers reason_of status_of status_line http_version status_text
    charset_value charset_at find_charset charset content_type header_values is_textual texts_run
parts_run = tt

reads_status : status_text (some (txt "HTTP/1.1 404 Not Found ")) ≡ txt "Not Found"
unfolding parts_run
reads_status = refl

refuses_status : http_version (some (txt "HTTP/1.1 40 Short")) ≡ []
unfolding parts_run
refuses_status = refl

reads_charset : charset (txt "text/html; Charset = \"latin1\"; x") ≡ txt "latin1"
unfolding parts_run
reads_charset = refl

reads_query :
    query_string (λ t. some t) (txt "http://a/?x=1+2&&y#z?w")
    ≡ record { name = txt "x"; value = txt "1 2" } ∷ record { name = txt "y"; value = [] } ∷ []
unfolding parts_run
reads_query = refl

-- A cookie with its attributes.
reads_set_cookie :
    set_cookie (map ascii_lower) (λ t. none) (txt "a=b; Path=/; HttpOnly; expires=never")
    ≡ some (record (plain_cookie (txt "a") (txt "b")) { path = some (txt "/"); http_only = true })
unfolding parts_run
reads_set_cookie = refl

abbrev cookies : List (Text × Text)
cookies = (txt "sid", txt "a=1") ∷ ([], txt "b") ∷ []

sid_IsCookiePair : IsCookiePair (txt "sid", txt "a=1")
unfolding is_space
sid_IsCookiePair = record {
  name_no_eq = (refl, (refl, (refl, tt)));
  name_no_end = (refl, (refl, (refl, tt)));
  value_no_end = (refl, (refl, (refl, tt)));
  name_trimmed = (refl, refl);
  value_trimmed = (refl, refl);
}

b_IsCookiePair : IsCookiePair ([], txt "b")
unfolding is_space
b_IsCookiePair = record {
  name_no_eq = tt;
  name_no_end = tt;
  value_no_end = (refl, tt);
  name_trimmed = (tt, tt);
  value_trimmed = (refl, refl);
}

request_cookies-print_cookies_example :
    request_cookies (print_cookies cookies)
    ≡ plain_cookie (txt "sid") (txt "a=1") ∷ plain_cookie [] (txt "b") ∷ []
request_cookies-print_cookies_example =
    request_cookies-print_cookies cookies (sid_IsCookiePair, (b_IsCookiePair, tt))

-- Base64 digits, without their alphabet and the padding.
abbrev sextets : List ℕ → Text
sextets [] = []
sextets (a ∷ []) = (a / 4) ∷ (a % 4 * 16) ∷ []
sextets (a ∷ b ∷ []) = (a / 4) ∷ (a % 4 * 16 + b / 16) ∷ (b % 16 * 4) ∷ []
sextets (a ∷ b ∷ c ∷ bytes) =
    (a / 4) ∷ (a % 4 * 16 + b / 16) ∷ (b % 16 * 4 + c / 64) ∷ (c % 64) ∷ sextets bytes

sextets_join :
    (n : ℕ) (xs ys : List ℕ) → length xs ≡ 3 * n → sextets (xs ++ ys) ≡ sextets xs ++ sextets ys
sextets_join zero [] ys h = refl
sextets_join zero (x ∷ xs) ys h = absurd (omega (arith, h))
sextets_join (suc n) [] ys h = absurd (omega (arith, h))
sextets_join (suc n) (a ∷ []) ys h = absurd (omega (arith, h))
sextets_join (suc n) (a ∷ b ∷ []) ys h = absurd (omega (arith, h))
sextets_join (suc n) (a ∷ b ∷ c ∷ xs) ys h =
    ap (λ t. (a / 4) ∷ (a % 4 * 16 + b / 16) ∷ (b % 16 * 4 + c / 64) ∷ (c % 64) ∷ t)
      (sextets_join n xs ys (omega (arith, h)))

base64-btoa_example :
    base64 (λ t. t) (λ c bytes. none) sextets (1 ∷ 2 ∷ 3 ∷ 4 ∷ []) ≡ sextets (1 ∷ 2 ∷ 3 ∷ 4 ∷ [])
base64-btoa_example =
    base64-btoa (λ t. t) (λ c bytes. none) sextets refl sextets_join (1 ∷ 2 ∷ 3 ∷ 4 ∷ [])

abbrev letters : ℕ → Text
letters zero = []
letters (suc n) = b'a' ∷ letters n

utf8_length-letters : (n : ℕ) → utf8_length (letters n) ≡ n
unfolding utf8_length
utf8_length-letters zero = refl
utf8_length-letters (suc zero) = refl
utf8_length-letters (suc (suc n)) = omega (arith, utf8_length-letters (suc n))

-- An entry that is written as its response's text, and a log as its entries and its counter.
weight : HarEntry → ℕ
weight e = length (or_else e.response.content.text [])

abbrev entry_text : HarEntry → Text
entry_text e = letters (weight e)

abbrev reply_text : Har → Text
reply_text har = letters (total weight har.entries + har.recording.dropped_bodies)

swapped :
    (har : Har) (i : ℕ) (e f : HarEntry)
    → get_elem? har.entries i ≡ some e
    → reply_bytes entry_text reply_text (record har { entries = set har.entries i f })
        + entry_bytes entry_text reply_text e
      ≡ reply_bytes entry_text reply_text har + entry_bytes entry_text reply_text f
unfolding reply_bytes entry_bytes
swapped har i e f h = omega (
  arith,
  utf8_length-letters (total weight (set har.entries i f) + har.recording.dropped_bodies),
  utf8_length-letters (weight e),
  utf8_length-letters (total weight har.entries + har.recording.dropped_bodies),
  utf8_length-letters (weight f),
  total-set weight har.entries i e f h,
)

grown :
    (har : Har) (n : ℕ)
    → reply_bytes entry_text reply_text har
      ≤ reply_bytes entry_text reply_text (record har {
        recording = record har.recording { dropped_bodies = har.recording.dropped_bodies + n };
      })
unfolding reply_bytes
grown har n = omega (
  arith,
  utf8_length-letters (total weight har.entries + har.recording.dropped_bodies),
  utf8_length-letters (total weight har.entries + (har.recording.dropped_bodies + n)),
)

abbrev hop : ℕ → HopRecord
hop start = record {
  request_id = txt "r";
  pageref = 1;
  method = txt "GET";
  url = txt "http://a/?q=1";
  type = txt "image";
  frame_id = 0;
  start = start;
  send_headers = some (start + 2);
  headers_received = none;
  end = some (start + 9);
  request_headers = none;
  status_code = some 200;
  status_line = some (txt "HTTP/1.1 200 OK");
  response_headers = none;
  ip = none;
  from_cache = none;
  redirect_url = none;
  error = none;
  closed = true;
}

abbrev finished_hop : ℕ → List ℕ → FinishedHop
finished_hop start bytes = record {
  hop = hop start;
  request_body = none;
  body_captured = true;
  post_data = none;
  pending = false;
  body = some (record {
    chunks = bytes ∷ [];
    complete = true;
    truncated = false;
    size = none;
    error = none;
  });
  body_dropped = false;
}

abbrev recording : HarRecording
recording = record {
  tab_id = 3;
  start = 5;
  max_body_size = 100;
  creator_version = txt "1";
  tab_closed = false;
  pages =
      record { id = 1; start = 5; title = txt "a"; dom_content_loaded = none; load = some 9 } ∷ [];
  hops = finished_hop 20 (7 ∷ 7 ∷ []) ∷ finished_hop 10 (1 ∷ 2 ∷ 3 ∷ 4 ∷ 5 ∷ []) ∷ [];
}

abbrev log : Har
log =
    build_log (map ascii_lower) (λ t. t) (λ t. none) (λ t. some t) (λ n. []) (λ c bytes. some bytes)
      sextets recording

log_run : Unit {0}
unfolding base64_chunk concat form_params form_post_data raw_part raw_parts decode_text
    base64_pieces base64 raw_post_data post_data body_text response_content finished_post finish
    digits_value safe_digits only_value raw_total raw_length timings content_length
    request_body_size bodiless response_size sort_by truncated_bodies dropped_bodies dropped_body
    page content request response entry build_log parts_run
log_run = tt

fit_run : Unit {0}
unfolding filled_text filled_post filled_request has_payload shell_content shell_post shell_request
    shell shell_bodies drop_body entry_bytes reply_bytes candidate candidates_from candidates
    next_size fit_loop fit_log utf8_length weight log_run
fit_run = tt

-- The earlier hop comes first.
sorts_hops : map (λ e. e.timings.receive) log.entries ≡ 7 ∷ 7 ∷ []
unfolding log_run
sorts_hops = refl

fit_log-first_fit_example :
    fit_log entry_text reply_text log 6
    ≡ first_fit entry_text reply_text 6 log (candidates entry_text reply_text log.entries)
fit_log-first_fit_example = fit_log-first_fit entry_text reply_text swapped grown log 6
