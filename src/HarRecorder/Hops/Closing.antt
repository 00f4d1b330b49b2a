-- ===== src/HarRecorder/Hops/Closing.antt =====
-- A hop that ended takes no more events, extension/src/har-recorder.ts.
use firefox_ctl.Base.{
  Bool, Bool-cases, List, Option, Option-cases, Text, ap, delete, eq_self, false, get_elem?,
  get_elem?-set_self, if◌then◌else◌, inl, inr, is_some, lookup, lookup-delete, nat_eq, none, not,
  refl, set, some, subst, sym, text_eq, true, ℕ, ◌==◌, ◌||◌, ◌∙◌, ◌≡◌, ◌≢◌,
}
use firefox_ctl.Network.{HttpHeader}
use firefox_ctl.HarRecorder.Hops.{
  HopRecord, Hops, ResponseDetails, close, ended, failed, headers_received, open_hop, response,
  response_started, send_headers,
}

open_at :
    (hops : List HopRecord) (url : Text) (i : ℕ) (c : ℕ × HopRecord) (m : Option HopRecord)
    → get_elem? hops i ≡ m
    → elim m [ none ↦ none | some h ↦ if h.closed || not (h.url == url) then none else some (i, h) ]
      ≡ some c
    → (i ≡ c.0) × (get_elem? hops c.0 ≡ some c.1)
open_at hops url i c none g e = cc
open_at hops url i c (some h) g e = elim (Bool-cases (h.closed || not (h.url == url))) [
  | inl shut ↦ absurd (nothing c (subst (λ b. (if b then none else some (i, h)) ≡ some c) shut e))
  | inr open_one ↦
      let same : (i, h) ≡ c =
        some_same (i, h) c (subst (λ b. (if b then none else some (i, h)) ≡ some c) open_one e) in
      (ap (λ d. d.0) same, ap (λ d. get_elem? hops d.0) (sym same) ∙ g ∙ ap (λ d. some d.1) same)
]
  where
    nothing : (c : ℕ × HopRecord) → none ≢ some c
    nothing c e = cc

    some_same : (a b : ℕ × HopRecord) → some a ≡ some b → a ≡ b
    some_same a b e = cc

abbrev at_place : List HopRecord → Text → Option ℕ → Option (ℕ × HopRecord)
at_place hops url none = none
at_place hops url (some i) = elim (get_elem? hops i) [
  | none ↦ none
  | some h ↦ if h.closed || not (h.url == url) then none else some (i, h)
]

open_hop-at_place :
    (r : Hops) (id url : Text) → open_hop r id url ≡ at_place r.hops url (lookup id r.current)
unfolding open_hop
open_hop-at_place r id url = elim (Option-cases (lookup id r.current)) [
  | inl n ↦ rw (n, open_hop) refl
  | inr (i, n) ↦ rw (n, open_hop) refl
]

pub open_hop-lookup :
    (r : Hops) (id url : Text) (c : ℕ × HopRecord)
    → open_hop r id url ≡ some c
    → (lookup id r.current ≡ some c.0) × (get_elem? r.hops c.0 ≡ some c.1)
open_hop-lookup r id url c e = elim (Option-cases (lookup id r.current)) [
  | inl n ↦ absurd (
      no_hop c
        (subst (λ m. at_place r.hops url m ≡ some c) n (sym (open_hop-at_place r id url) ∙ e)))
  | inr (i, n) ↦
      let at : (i ≡ c.0) × (get_elem? r.hops c.0 ≡ some c.1) =
        open_at r.hops url i c (get_elem? r.hops i) refl
          (subst (λ m. at_place r.hops url m ≡ some c) n (sym (open_hop-at_place r id url) ∙ e)) in
      (n ∙ ap some at.0, at.1)
]
  where
    no_hop : (c : ℕ × HopRecord) → none ≢ some c
    no_hop c e = cc

closed_at_place :
    (hops : List HopRecord) (url : Text) (i : ℕ) (old h : HopRecord)
    → get_elem? hops i ≡ some old
    → h.closed ≡ true
    → at_place (set hops i h) url (some i) ≡ none
closed_at_place hops url i old h e shut =
    rw (get_elem?-set_self hops i old h e, at_place) (rw shut refl)

close-open_hop :
    (r : Hops) (id url : Text) (c : ℕ × HopRecord) (h : HopRecord) (last : Bool)
    → lookup id r.current ≡ some c.0
    → get_elem? r.hops c.0 ≡ some c.1
    → open_hop (close r id c.0 h last) id url ≡ none
close-open_hop r id url c h true l g =
    let gone : lookup id (delete id r.current) ≡ none =
      lookup-delete id id r.current ∙ rw (eq_self id) refl in
    open_hop-at_place (close r id c.0 h true) id url
    ∙ ap (at_place (set r.hops c.0 (record h { closed = true })) url) gone
close-open_hop r id url c h false l g =
    open_hop-at_place (close r id c.0 h false) id url
    ∙ ap (at_place (set r.hops c.0 (record h { closed = true })) url) l
    ∙ closed_at_place r.hops url c.0 c.1 (record h { closed = true }) g refl

ended-open_hop :
    (r : Hops) (id url later : Text) (c : ℕ × HopRecord) (stamp : ℕ) (d : ResponseDetails)
    (redirect_url : Option Text)
    → open_hop r id url ≡ some c
    → open_hop (ended r id url stamp d redirect_url) id later ≡ none
unfolding ended
ended-open_hop r id url later c stamp d redirect_url e =
    let found = open_hop-lookup r id url c e in
    rw (e, ended)
      (close-open_hop r id later c
        (record (response c.1 d) {
          end = some stamp;
          redirect_url = if is_some redirect_url then redirect_url else c.1.redirect_url;
        })
        (not (is_some redirect_url)) found.0 found.1)

failed-open_hop :
    (r : Hops) (id url later : Text) (c : ℕ × HopRecord) (stamp : ℕ) (error : Text)
    → open_hop r id url ≡ some c
    → open_hop (failed r id url stamp error) id later ≡ none
unfolding failed
failed-open_hop r id url later c stamp error e =
    let found = open_hop-lookup r id url c e in
    rw (e, failed)
      (close-open_hop r id later c (record c.1 { end = some stamp; error = some error }) true
        found.0 found.1)

-- The events of a hop, with the url and what the details hold.
pub data HopEvent : Type 0 where
  sends : Text → ℕ → Option (List HttpHeader) → HopEvent
  receives : Text → ℕ → ResponseDetails → HopEvent
  starts : Text → ResponseDetails → HopEvent
  ends : Text → ℕ → ResponseDetails → Option Text → HopEvent
  fails : Text → ℕ → Text → HopEvent

unfoldable pub handle_hop : Hops → Text → HopEvent → Hops
handle_hop r id (sends url stamp headers) = send_headers r id url stamp headers
handle_hop r id (receives url stamp d) = headers_received r id url stamp d
handle_hop r id (starts url d) = response_started r id url d
handle_hop r id (ends url stamp d redirect_url) = ended r id url stamp d redirect_url
handle_hop r id (fails url stamp error) = failed r id url stamp error

url_of : HopEvent → Text
url_of (sends url stamp headers) = url
url_of (receives url stamp d) = url
url_of (starts url d) = url
url_of (ends url stamp d redirect_url) = url
url_of (fails url stamp error) = url

handle_hop_ignored :
    (r : Hops) (id : Text) (e : HopEvent) → open_hop r id (url_of e) ≡ none → handle_hop r id e ≡ r
unfolding handle_hop url_of send_headers headers_received response_started ended failed
handle_hop_ignored r id (sends url stamp headers) n = rw (n, send_headers) refl
handle_hop_ignored r id (receives url stamp d) n = rw (n, headers_received) refl
handle_hop_ignored r id (starts url d) n = rw (n, response_started) refl
handle_hop_ignored r id (ends url stamp d redirect_url) n = rw (n, ended) refl
handle_hop_ignored r id (fails url stamp error) n = rw (n, failed) refl

-- Once the open hop of a request has ended (completed or redirected) or failed, every further event
-- of that request changes nothing, whatever its url, until the request begins another hop.
pub ended-handle_hop :
    (r : Hops) (id url : Text) (c : ℕ × HopRecord) (stamp : ℕ) (d : ResponseDetails)
    (redirect_url : Option Text) (error : Text) (late : HopEvent)
    → open_hop r id url ≡ some c
    → (handle_hop (ended r id url stamp d redirect_url) id late
        ≡ ended r id url stamp d redirect_url)
      × (handle_hop (failed r id url stamp error) id late ≡ failed r id url stamp error)
ended-handle_hop r id url c stamp d redirect_url error late e = (
  handle_hop_ignored (ended r id url stamp d redirect_url) id late
      (ended-open_hop r id url (url_of late) c stamp d redirect_url e),
  handle_hop_ignored (failed r id url stamp error) id late
      (failed-open_hop r id url (url_of late) c stamp error e),
)
