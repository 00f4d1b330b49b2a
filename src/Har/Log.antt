-- ===== src/Har/Log.antt =====
-- `buildLog` of extension/src/har.ts: the pages and the entries in the order in which they started,
-- and the counts of the recording.
--
-- The source empties the chunks of a body once its text exists; here the recording is not used
-- again.
pub mod Sorting
use firefox_ctl.Base.{
  Bool, List, Option, Text, [], false, filter, if◌then◌else◌, is_some, leb, length, map, mem_beq,
  nat_beq, nat_eq, none, not, or_else, some, text_eq, total, true, txt, ℕ, ◌&&◌, ◌+◌, ◌-◌, ◌∷◌,
}
use firefox_ctl.Base.Int.{pos, ℤ}
use firefox_ctl.HarRecorder.Hops.{pageref}
use firefox_ctl.Har.{
  FinishedHop, Har, HarContent, HarEntry, HarPage, HarPostData, HarRecording, HarRequest,
  HarResponse, PageRecord,
}
use firefox_ctl.Har.Cookies.{request_cookies, response_cookies}
use firefox_ctl.Har.Query.{query_string}
use firefox_ctl.Har.Mime.{har_headers, header_values, http_version, status_line, status_text}
use firefox_ctl.Har.Bodies.{concat, post_data, response_content}
use firefox_ctl.Har.Sizes.{
  bodiless, content_length, request_body_size, response_size, timings, unknown,
}
use firefox_ctl.Base.Texts.{join}

-- `sort`, which keeps the order of equals: `le x y` says that x may stay before y.
abbrev pub insert_by {ℓ} : {A : Type ℓ} → (A → A → Bool) → A → List A → List A
insert_by le x [] = x ∷ []
insert_by le x (y ∷ ys) = let rest = insert_by le x ys in if le x y then x ∷ y ∷ ys else y ∷ rest

unfoldable pub sort_by {ℓ} : {A : Type ℓ} → (A → A → Bool) → List A → List A
sort_by le [] = []
sort_by le (x ∷ xs) = insert_by le x (sort_by le xs)

-- `since` of a page: -1 where the stamp is missing.
abbrev pub since : ℕ → Option ℕ → ℤ
since start none = unknown
since start (some stamp) = pos (stamp - start)

abbrev pub one_if : Bool → ℕ
one_if true = 1
one_if false = 0

abbrev pub post_truncated : Option HarPostData → ℕ
post_truncated none = 0
post_truncated (some post) = one_if post.truncated

abbrev pub post_dropped : Option HarPostData → ℕ
post_dropped none = 0
post_dropped (some post) = one_if post.body_dropped

unfoldable pub truncated_bodies : HarEntry → ℕ
truncated_bodies e = one_if e.response.content.truncated + post_truncated e.request.post_data

unfoldable pub dropped_bodies : HarEntry → ℕ
dropped_bodies e = one_if e.response.content.body_dropped + post_dropped e.request.post_data

module _ (to_lower to_upper : Text → Text) where
  unfoldable pub dropped_body : FinishedHop → Bool
  unfolding bodiless content_length
  dropped_body hop =
      hop.body_dropped
      && is_some hop.hop.status_code
      && not (is_some hop.hop.redirect_url)
      && not (bodiless to_lower to_upper hop.hop.method (or_else hop.hop.status_code 0))
      && (elim (content_length to_lower to_upper hop.hop.response_headers) [
        | none ↦ true
        | some n ↦ not (nat_beq n 0)
      ])

module _ (to_lower to_upper : Text → Text) (iso_date decode_uri : Text → Option Text)
    (iso : ℕ → Text) (decode : Text → List ℕ → Option Text) (btoa : List ℕ → Text) where
  unfoldable pub page : PageRecord → HarPage
  page p = record {
    id = p.id;
    started_date_time = iso p.start;
    title = p.title;
    on_content_load = since p.start p.dom_content_loaded;
    on_load = since p.start p.load;
  }

  unfoldable pub content : FinishedHop → HarContent
  unfolding response_content concat dropped_body
  content hop = elim hop.body [
    | none ↦ response_content to_lower decode btoa none hop.hop.response_headers (record {
      complete = true;
      truncated = false;
      dropped = dropped_body to_lower to_upper hop;
      error = none;
      size = none;
    })
    | some b ↦
        response_content to_lower decode btoa (some (concat b.chunks)) hop.hop.response_headers
          (record {
            complete = b.complete;
            truncated = b.truncated;
            dropped = dropped_body to_lower to_upper hop;
            error = b.error;
            size = b.size;
          })
  ]

  unfoldable pub request : FinishedHop → HarRequest
  unfolding http_version request_cookies header_values har_headers query_string request_body_size
      join
  request hop = record {
    method = hop.hop.method;
    url = hop.hop.url;
    http_version = http_version hop.hop.status_line;
    cookies =
        request_cookies
          (join (txt "; ") (header_values to_lower hop.hop.request_headers (txt "cookie")));
    headers = har_headers hop.hop.request_headers;
    query_string = query_string decode_uri hop.hop.url;
    post_data = hop.post_data;
    body_size =
        request_body_size to_lower to_upper hop.request_body hop.hop.request_headers
          hop.body_captured;
  }

  unfoldable pub response : FinishedHop → HarResponse
  unfolding http_version status_text response_cookies header_values har_headers response_size
      content
  response hop =
      let status = or_else hop.hop.status_code 0 in
      let finished = is_some hop.hop.end && not (is_some hop.hop.error) && not hop.pending in
      let whole : Bool = elim hop.body [ none ↦ true | some b ↦ b.complete ] in
      let truncated : Bool = elim hop.body [ none ↦ false | some b ↦ b.truncated ] in
      record {
        status = status;
        status_text = status_text hop.hop.status_line;
        http_version = http_version hop.hop.status_line;
        cookies =
            response_cookies to_lower iso_date
              (header_values to_lower hop.hop.response_headers (txt "set-cookie"));
        headers = har_headers hop.hop.response_headers;
        content = content hop;
        redirect_url = or_else hop.hop.redirect_url [];
        body_size =
            response_size to_lower to_upper hop.hop.method status hop.hop.response_headers
              (finished && whole) truncated;
      }

  unfoldable pub entry : List ℕ → FinishedHop → HarEntry
  unfolding timings request response
  entry page_ids hop =
      let phases = timings hop.hop in
      record {
        pageref = if mem_beq hop.hop.pageref page_ids then some hop.hop.pageref else none;
        started_date_time = iso hop.hop.start;
        time = phases.0;
        request = request hop;
        response = response hop;
        timings = phases.1;
        server_ip_address = hop.hop.ip;
        resource_type = hop.hop.type;
        frame_id = hop.hop.frame_id;
        from_cache = hop.hop.from_cache;
        error = hop.hop.error;
        pending = hop.pending;
      }

  unfoldable pub build_log : HarRecording → Har
  unfolding sort_by page entry truncated_bodies dropped_bodies
  build_log recording =
      let pages = map page (sort_by (λ a b. leb a.start b.start) recording.pages) in
      let hops = sort_by (λ a b. leb a.hop.start b.hop.start) recording.hops in
      let entries = map (entry (map (λ p. p.id) pages)) hops in
      record {
        creator_version = recording.creator_version;
        pages = pages;
        entries = entries;
        recording = record {
          tab_id = recording.tab_id;
          started_date_time = iso recording.start;
          max_body_size = recording.max_body_size;
          truncated_bodies = total truncated_bodies entries;
          dropped_bodies = total dropped_bodies entries;
          pending_entries = length (filter (λ e. e.pending) entries);
          tab_closed = recording.tab_closed;
        };
      }
