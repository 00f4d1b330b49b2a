-- ===== src/HarRecorder/Pages.antt =====
-- The pages of a recording of extension/src/har-recorder.ts, and the navigations bound to them.
--
-- A page is its place in the list, from 0; the source's id of it is page_ and that number plus one.
pub mod Binding
use firefox_ctl.Base.{
  Bool, List, Option, Text, [], any, false, if◌then◌else◌, last?, leb, length, mem_beq, min,
  nat_beq, nat_eq, none, not, set, some, text_eq, true, ℕ, ◌&&◌, ◌++◌, ◌-◌, ◌||◌, ◌∷◌,
}

pub data NavigationSide : Type 0 where
  request : NavigationSide
  before : NavigationSide
  committed : NavigationSide

pub record Page : Type 0 where
  pub start : ℕ
  pub title : Text
  pub dom_content_loaded : Option ℕ
  pub load : Option ℕ
  pub saw_request : Bool
  pub saw_before : Bool
  pub saw_committed : Bool
  pub urls : List Text

unfoldable pub without_fragment : Text → Text
without_fragment [] = []
without_fragment (c ∷ cs) =
    let rest = without_fragment cs in if nat_beq c b'#' then [] else c ∷ rest

-- The page of the document already loaded.
unfoldable pub first_page : ℕ → Text → Page
first_page start url = record {
  start = start;
  title = url;
  dom_content_loaded = none;
  load = none;
  saw_request = true;
  saw_before = true;
  saw_committed = true;
  urls = [];
}

unfoldable pub open_page : ℕ → Text → Page
open_page start url = record {
  start = start;
  title = url;
  dom_content_loaded = none;
  load = none;
  saw_request = false;
  saw_before = false;
  saw_committed = false;
  urls = [];
}

abbrev pub saw : Page → NavigationSide → Bool
saw p request = p.saw_request
saw p before = p.saw_before
saw p committed = p.saw_committed

abbrev see : Page → NavigationSide → Page
see p request = record p { saw_request = true }
see p before = record p { saw_before = true }
see p committed = record p { saw_committed = true }

abbrev add_url : Text → List Text → List Text
add_url url urls = if mem_beq url urls then urls else urls ++ url ∷ []

abbrev is_before : NavigationSide → Bool
is_before request = false
is_before before = true
is_before committed = false

-- Whether the side names the page: the committed url is final, until then the request's does.
abbrev names_page : Page → NavigationSide → Bool
names_page p request = not p.saw_committed
names_page p before = false
names_page p committed = true

-- `onBeforeNavigate` that Firefox fires again before a commit in another process.
unfoldable pub is_repeat : NavigationSide → Text → Page → Bool
is_repeat side key last =
    is_before side && (last.saw_before && (not last.saw_committed && mem_beq key last.urls))

unfoldable pub waits_for : NavigationSide → Text → Page → Bool
waits_for side key last = not (saw last side) && (leb (length last.urls) 0 || mem_beq key last.urls)

-- What `bindPage` makes of the page it takes.
unfoldable pub bound : NavigationSide → ℕ → Text → Page → Page
bound side stamp url p =
    let seen : Page = see p side in
    record seen {
      urls = add_url (without_fragment url) seen.urls;
      start = min seen.start stamp;
      title = if names_page seen side then url else seen.title;
    }

-- `bindPage`: the pages, and the place of the page bound.
unfoldable pub bind_page : List Page → NavigationSide → ℕ → Text → List Page × ℕ
unfolding is_repeat waits_for bound open_page
bind_page pages side stamp url = elim (last? pages) [
  | none ↦ (bound side stamp url (open_page stamp url) ∷ [], 0)
  | some last ↦
      let key = without_fragment url in
      if is_repeat side key last
      then (pages, length pages - 1)
      else if waits_for side key last
      then (set pages (length pages - 1) (bound side stamp url last), length pages - 1)
      else (pages ++ bound side stamp url (open_page stamp url) ∷ [], length pages)
]

-- The first load time of the latest committed page.
abbrev pub set_once : Option ℕ → ℕ → Option ℕ
set_once none t = some t
set_once (some u) t = some u

pub data LoadEvent : Type 0 where
  dom_content : LoadEvent
  loaded : LoadEvent

abbrev time_one : LoadEvent → ℕ → Page → Page
time_one dom_content t p = record p { dom_content_loaded = set_once p.dom_content_loaded t }
time_one loaded t p = record p { load = set_once p.load t }

-- `timePage`: of the pages that are committed, the last one.
unfoldable pub time_page : LoadEvent → ℕ → List Page → List Page
time_page event t [] = []
time_page event t (p ∷ ps) =
    let rest = time_page event t ps in
    if any (λ q. q.saw_committed) ps
    then p ∷ rest
    else if p.saw_committed
    then time_one event t p ∷ ps
    else p ∷ ps
