-- ===== src/HarRecorder/Hops/Recording.antt =====
-- A recording of extension/src/har-recorder.ts over every order of requests and navigations.
use firefox_ctl.Base.{
  Bool-cases, List, Option-cases, Text, [], any, ap, arith, inl, inr, length, refl, suc, ℕ, ◌∷◌,
  ◌≡◌,
}
use firefox_ctl.HarRecorder.Pages.{LoadEvent, NavigationSide, Page, bind_page, time_page}
use firefox_ctl.HarRecorder.Pages.Binding.{bind_page_bounds}
use firefox_ctl.HarRecorder.Hops.{
  Details, Hops, before_request, ended, failed, headers_received, open_hop, response,
  response_started, send_headers, start_hops,
}
use firefox_ctl.HarRecorder.Hops.Closing.{
  HopEvent, ends, fails, handle_hop, open_hop-lookup, receives, sends, starts,
}
use firefox_ctl.HarRecorder.Hops.Pagerefs.{Inv, before_request-Inv, pages-Inv, put-Inv}

pub data RecordingEvent : Type 0 where
  begins : Details → RecordingEvent
  goes_on : Text → HopEvent → RecordingEvent
  navigates : NavigationSide → ℕ → Text → RecordingEvent
  shows : LoadEvent → ℕ → RecordingEvent

unfoldable pub record_one : Hops → RecordingEvent → Hops
record_one r (begins d) = before_request r d
record_one r (goes_on id e) = handle_hop r id e
record_one r (navigates side stamp url) = record r { pages = (bind_page r.pages side stamp url).0 }
record_one r (shows event stamp) = record r { pages = time_page event stamp r.pages }

unfoldable pub record_all : Hops → List RecordingEvent → Hops
record_all r [] = r
record_all r (e ∷ es) = record_all (record_one r e) es

handle_hop-Inv : (r : Hops) (id : Text) (e : HopEvent) → Inv r → Inv (handle_hop r id e)
unfolding handle_hop send_headers headers_received response_started ended failed response
handle_hop-Inv r id (sends url stamp headers) v = elim (Option-cases (open_hop r id url)) [
  | inl n ↦ rw (n, send_headers) v
  | inr (c, n) ↦
      rw (n, send_headers) (put-Inv r c _ r.current (open_hop-lookup r id url c n).1 refl v)
]
handle_hop-Inv r id (receives url stamp d) v = elim (Option-cases (open_hop r id url)) [
  | inl n ↦ rw (n, headers_received) v
  | inr (c, n) ↦
      rw (n, headers_received) (put-Inv r c _ r.current (open_hop-lookup r id url c n).1 refl v)
]
handle_hop-Inv r id (starts url d) v = elim (Option-cases (open_hop r id url)) [
  | inl n ↦ rw (n, response_started) v
  | inr (c, n) ↦
      rw (n, response_started) (put-Inv r c _ r.current (open_hop-lookup r id url c n).1 refl v)
]
handle_hop-Inv r id (ends url stamp d redirect_url) v = elim (Option-cases (open_hop r id url)) [
  | inl n ↦ rw (n, ended) v
  | inr (c, n) ↦ rw (n, ended) (put-Inv r c _ _ (open_hop-lookup r id url c n).1 refl v)
]
handle_hop-Inv r id (fails url stamp error) v = elim (Option-cases (open_hop r id url)) [
  | inl n ↦ rw (n, failed) v
  | inr (c, n) ↦ rw (n, failed) (put-Inv r c _ _ (open_hop-lookup r id url c n).1 refl v)
]

length-time_page :
    (event : LoadEvent) (t : ℕ) (ps : List Page) → length (time_page event t ps) ≡ length ps
unfolding time_page
length-time_page event t [] = refl
length-time_page event t (p ∷ ps) = elim (Bool-cases (any (λ q. q.saw_committed) ps)) [
  | inl later ↦ rw later (ap suc (length-time_page event t ps))
  | inr last ↦ rw last (elim (Bool-cases p.saw_committed) [
    | inl yes_one ↦ rw yes_one refl
    | inr other ↦ rw other refl
  ])
]

record_one-Inv : (r : Hops) (e : RecordingEvent) → Inv r → Inv (record_one r e)
unfolding record_one
record_one-Inv r (begins d) v = before_request-Inv r d v
record_one-Inv r (goes_on id e) v = handle_hop-Inv r id e v
record_one-Inv r (navigates side stamp url) v =
    pages-Inv r _ (bind_page_bounds r.pages side stamp url).1 v
record_one-Inv r (shows event stamp) v =
    pages-Inv r _ (omega (arith, length-time_page event stamp r.pages)) v

record_all-Inv_of : (r : Hops) (es : List RecordingEvent) → Inv r → Inv (record_all r es)
unfolding record_all
record_all-Inv_of r [] v = v
record_all-Inv_of r (e ∷ es) v = record_all-Inv_of (record_one r e) es (record_one-Inv r e v)

start_hops-Inv : (start : ℕ) (url : Text) → Inv (start_hops start url)
unfolding start_hops
start_hops-Inv start url = record { paged = omega arith; hops = tt; navigations = tt }

-- However requests, redirects, ends, errors and navigations follow each other, a recording has a
-- page, each of its hops names one of its pages, and so does each navigation that it knows.
pub record_all-Inv :
    (start : ℕ) (url : Text) (es : List RecordingEvent) → Inv (record_all (start_hops start url) es)
record_all-Inv start url es = record_all-Inv_of (start_hops start url) es (start_hops-Inv start url)
