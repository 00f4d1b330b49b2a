-- ===== src/HarRecorder/Hops.antt =====
-- The hops of a recording of extension/src/har-recorder.ts: each request, and again each redirect
-- of it. Their bodies are in HarRecorder/Stream.
--
-- The source keeps a hop in its list and, while its request goes on, in `current`: here `current`
-- holds the hop's place. What `getSecurityInfo` answers is left out, and so is a request at whose form
-- `storeBody` throws: it opens no hop.
pub mod Pagerefs
pub mod Closing
pub mod Recording
mod Tests
use firefox_ctl.Base.{
  Bool, List, Option, Text, [], delete, false, get_elem?, if◌then◌else◌, insert, is_some, length,
  lookup, mem_beq, nat_beq, nat_eq, none, not, set, some, suc, text_eq, true, txt, ℕ, ◌&&◌, ◌++◌,
  ◌==◌, ◌||◌, ◌∷◌,
}
use firefox_ctl.Network.{HttpHeader}
use firefox_ctl.HarRecorder.Pages.{Page, bind_page, first_page, request, without_fragment}

-- A reference to a page is the number in the page's id; 0 stands for the empty text.
pub record HopRecord : Type 0 where
  pub request_id : Text
  pub pageref : ℕ
  pub method : Text
  pub url : Text
  pub type : Text
  pub frame_id : ℕ
  pub start : ℕ
  pub send_headers : Option ℕ
  pub headers_received : Option ℕ
  pub end : Option ℕ
  pub request_headers : Option (List HttpHeader)
  pub status_code : Option ℕ
  pub status_line : Option Text
  pub response_headers : Option (List HttpHeader)
  pub ip : Option Text
  pub from_cache : Option Bool
  pub redirect_url : Option Text
  pub error : Option Text
  pub closed : Bool

pub record Hops : Type 0 where
  pub pages : List Page
  pub hops : List HopRecord
  pub current : List (Text × ℕ)
  pub navigations : List (Text × ℕ)

unfoldable pub start_hops : ℕ → Text → Hops
unfolding first_page
start_hops start url = record {
  pages = first_page start url ∷ [];
  hops = [];
  current = [];
  navigations = [];
}

-- What the recorder reads of the details of a request.
pub record Details : Type 0 where
  pub request_id : Text
  pub url : Text
  pub method : Text
  pub type : Text
  pub frame_id : ℕ
  pub time_stamp : ℕ

pub record ResponseDetails : Type 0 where
  pub status_code : ℕ
  pub status_line : Text
  pub response_headers : Option (List HttpHeader)
  pub ip : Option Text
  pub from_cache : Option Bool

abbrev with_url : Text → Page → Page
with_url url p = record p {
  urls =
      if mem_beq (without_fragment url) p.urls then p.urls else p.urls ++ without_fragment url ∷ [];
  title = if p.saw_committed then p.title else url;
}

-- A page that `navigations` knows takes the url of the next hop.
abbrev pub know_url : List Page → ℕ → Text → List Page
know_url pages i url = elim (get_elem? pages i) [
  | none ↦ pages
  | some p ↦ set pages i (with_url url p)
]

-- `navigationPage`: the place of the page.
unfoldable pub navigation_page : Hops → Details → Hops × ℕ
navigation_page r d = elim (lookup d.request_id r.navigations) [
  | some i ↦ (record r { pages = know_url r.pages i d.url }, i)
  | none ↦
      let out = bind_page r.pages request d.time_stamp d.url in
      (record r { pages = out.0; navigations = insert d.request_id out.1 r.navigations }, out.1)
]

abbrev pub hop_of : Hops → Text → Option HopRecord
hop_of r id = elim (lookup id r.current) [ none ↦ none | some i ↦ get_elem? r.hops i ]

-- `pageref`
unfoldable pub pageref : Hops → Details → Hops × ℕ
unfolding navigation_page
pageref r d =
    if d.type == txt "main_frame" && nat_beq d.frame_id 0
    then (let out = navigation_page r d in (out.0, suc out.1))
    else elim (hop_of r d.request_id) [
      | some previous ↦ (r, previous.pageref)
      | none ↦ (r, length r.pages)
    ]

unfoldable pub new_hop : Details → ℕ → HopRecord
new_hop d page = record {
  request_id = d.request_id;
  pageref = page;
  method = d.method;
  url = d.url;
  type = d.type;
  frame_id = d.frame_id;
  start = d.time_stamp;
  send_headers = none;
  headers_received = none;
  end = none;
  request_headers = none;
  status_code = none;
  status_line = none;
  response_headers = none;
  ip = none;
  from_cache = none;
  redirect_url = none;
  error = none;
  closed = false;
}

-- `beforeRequest`
unfoldable pub before_request : Hops → Details → Hops
unfolding pageref new_hop
before_request r d =
    let out = pageref r d in
    record out.0 {
      hops = out.0.hops ++ new_hop d out.1 ∷ [];
      current = insert d.request_id (length out.0.hops) out.0.current;
    }

-- The place of the open hop that an event belongs to.
unfoldable pub open_hop : Hops → Text → Text → Option (ℕ × HopRecord)
open_hop r id url = elim (lookup id r.current) [
  | none ↦ none
  | some i ↦ elim (get_elem? r.hops i) [
    | none ↦ none
    | some h ↦ if h.closed || not (h.url == url) then none else some (i, h)
  ]
]

abbrev put_hop : Hops → ℕ → HopRecord → Hops
put_hop r i h = record r { hops = set r.hops i h }

unfoldable pub send_headers : Hops → Text → Text → ℕ → Option (List HttpHeader) → Hops
unfolding open_hop
send_headers r id url stamp headers = elim (open_hop r id url) [
  | none ↦ r
  | some c ↦ put_hop r c.0 (record c.1 {
    send_headers = some stamp;
    request_headers = if is_some headers then headers else c.1.request_headers;
  })
]

-- `response`: what the details leave out stays.
unfoldable pub response : HopRecord → ResponseDetails → HopRecord
response h d = record h {
  status_code = some d.status_code;
  status_line = some d.status_line;
  response_headers = if is_some d.response_headers then d.response_headers else h.response_headers;
  ip = if is_some d.ip then d.ip else h.ip;
  from_cache = if is_some d.from_cache then d.from_cache else h.from_cache;
}

unfoldable pub headers_received : Hops → Text → Text → ℕ → ResponseDetails → Hops
unfolding open_hop response
headers_received r id url stamp d = elim (open_hop r id url) [
  | none ↦ r
  | some c ↦ put_hop r c.0 (response (record c.1 { headers_received = some stamp }) d)
]

unfoldable pub response_started : Hops → Text → Text → ResponseDetails → Hops
unfolding open_hop response
response_started r id url d = elim (open_hop r id url) [
  | none ↦ r
  | some c ↦ put_hop r c.0 (response c.1 d)
]

-- `close`: a redirected hop stays current until the next hop of its request.
abbrev pub close : Hops → Text → ℕ → HopRecord → Bool → Hops
close r id i h last = record r {
  hops = set r.hops i (record h { closed = true });
  current = if last then delete id r.current else r.current;
}

unfoldable pub ended : Hops → Text → Text → ℕ → ResponseDetails → Option Text → Hops
unfolding open_hop response
ended r id url stamp d redirect_url = elim (open_hop r id url) [
  | none ↦ r
  | some c ↦
      close r id c.0
        (record (response c.1 d) {
          end = some stamp;
          redirect_url = if is_some redirect_url then redirect_url else c.1.redirect_url;
        })
        (not (is_some redirect_url))
]

unfoldable pub failed : Hops → Text → Text → ℕ → Text → Hops
unfolding open_hop
failed r id url stamp error = elim (open_hop r id url) [
  | none ↦ r
  | some c ↦ close r id c.0 (record c.1 { end = some stamp; error = some error }) true
]
