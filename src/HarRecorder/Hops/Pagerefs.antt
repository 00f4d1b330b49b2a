-- ===== src/HarRecorder/Hops/Pagerefs.antt =====
-- Each hop of a recording names one of its pages, extension/src/har-recorder.ts.
use firefox_ctl.Base.{
  All, All-append, All-get, All-insert, All-lookup, All-mono, All-set, Bool-cases, List, Option,
  Option-cases, Text, arith, get_elem?, inl, inr, length, length-set, lookup, nat_beq, nat_eq, none,
  refl, set, some, subst, text_eq, txt, ℕ, ◌&&◌, ◌<◌, ◌==◌, ◌≡◌, ◌≢◌, ◌≤◌,
}
use firefox_ctl.HarRecorder.Pages.{Page, bind_page, request}
use firefox_ctl.HarRecorder.Pages.Binding.{bind_page_bounds}
use firefox_ctl.HarRecorder.Hops.{
  Details, HopRecord, Hops, before_request, hop_of, know_url, navigation_page, new_hop, pageref,
}

abbrev pub Names : ℕ → HopRecord → Type 0
Names pages h = (0 < h.pageref) × (h.pageref ≤ pages)

-- There is a page; each hop names a page, and so does each known navigation.
pub record Inv (r : Hops) : Type 0 where
  pub paged : 0 < length r.pages
  pub hops : All (Names (length r.pages)) r.hops
  pub navigations : All (λ (e : Text × ℕ). e.1 < length r.pages) r.navigations

pub pages-Inv :
    (r : Hops) (pages : List Page)
    → length r.pages ≤ length pages
    → Inv r
    → Inv (record r { pages = pages })
pages-Inv r pages le v = record {
  paged = omega (arith, le, v.paged);
  hops = All-mono (Names (length r.pages)) r.hops (λ h n. (n.0, omega (arith, le, n.1))) v.hops;
  navigations = All-mono _ r.navigations (λ e n. omega (arith, le, n)) v.navigations;
}

length-know_url :
    (pages : List Page) (i : ℕ) (url : Text) → length (know_url pages i url) ≡ length pages
length-know_url pages i url = elim (Option-cases (get_elem? pages i)) [
  | inl e ↦ rw (e, know_url) refl
  | inr (p, e) ↦ rw (e, know_url) (length-set pages i _)
]

navigation_page_lem :
    (r : Hops) (d : Details)
    → Inv r
    → Inv (navigation_page r d).0 × ((navigation_page r d).1 < length (navigation_page r d).0.pages)
unfolding navigation_page
navigation_page_lem r d v = elim (Option-cases (lookup d.request_id r.navigations)) [
  | inr (i, e) ↦
      let same = length-know_url r.pages i d.url in
      let known = All-lookup _ d.request_id i r.navigations v.navigations e in
      rw (e, navigation_page)
        (pages-Inv r (know_url r.pages i d.url) (omega (arith, same)) v, omega (arith, same, known))
  | inl e ↦
      let b = bind_page_bounds r.pages request d.time_stamp d.url in
      let grown = pages-Inv r (bind_page r.pages request d.time_stamp d.url).0 b.1 v in
      rw (e, navigation_page)
        (
          record {
            paged = grown.paged;
            hops = grown.hops;
            navigations = All-insert _ d.request_id _ r.navigations b.0 grown.navigations;
          },
          b.0,
        )
]

hop_of-Names :
    (r : Hops) (id : Text) (h : HopRecord) → Inv r → hop_of r id ≡ some h → Names (length r.pages) h
hop_of-Names r id h v e = elim (Option-cases (lookup id r.current)) [
  | inl n ↦ absurd (nothing h (subst (λ m. place m ≡ some h) n e))
  | inr (i, n) ↦ All-get _ r.hops i h v.hops (subst (λ m. place m ≡ some h) n e)
]
  where
    place : Option ℕ → Option HopRecord
    place m = elim m [ none ↦ none | some i ↦ get_elem? r.hops i ]

    nothing : (h : HopRecord) → none ≢ some h
    nothing h e = cc

pageref_lem :
    (r : Hops) (d : Details)
    → Inv r
    → Inv (pageref r d).0 × (0 < (pageref r d).1) × ((pageref r d).1 ≤ length (pageref r d).0.pages)
unfolding pageref
pageref_lem r d v = elim (Bool-cases (d.type == txt "main_frame" && nat_beq d.frame_id 0)) [
  | inl top ↦ let n = navigation_page_lem r d v in rw top (n.0, omega arith, omega (arith, n.1))
  | inr other ↦ rw other (elim (Option-cases (hop_of r d.request_id)) [
    | inl e ↦ rw (e, pageref) (v, v.paged, omega arith)
    | inr (h, e) ↦ let n = hop_of-Names r d.request_id h v e in rw (e, pageref) (v, n.0, n.1)
  ])
]

pub before_request-Inv : (r : Hops) (d : Details) → Inv r → Inv (before_request r d)
unfolding before_request new_hop
before_request-Inv r d v =
    let n = pageref_lem r d v in
    record {
      paged = n.0.paged;
      hops = All-append _ (pageref r d).0.hops _ n.0.hops ((n.1, n.2), tt);
      navigations = n.0.navigations;
    }

-- A hop that is written names the page that it named.
pub put-Inv :
    (r : Hops) (c : ℕ × HopRecord) (h : HopRecord) (current : List (Text × ℕ))
    → get_elem? r.hops c.0 ≡ some c.1
    → h.pageref ≡ c.1.pageref
    → Inv r
    → Inv (record r { hops = set r.hops c.0 h; current = current })
put-Inv r c h current e same v =
    let n = All-get _ r.hops c.0 c.1 v.hops e in
    record {
      paged = v.paged;
      hops = All-set _ r.hops c.0 h v.hops (omega (arith, same, n.0), omega (arith, same, n.1));
      navigations = v.navigations;
    }
