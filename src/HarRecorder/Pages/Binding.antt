-- ===== src/HarRecorder/Pages/Binding.antt =====
-- What `bindPage` of extension/src/har-recorder.ts binds a navigation to.
use firefox_ctl.Base.{
  Bool-cases, List, Option-cases, Text, [], arith, inl, inr, last?, last?-none, length,
  length-append, length-set, some, suc, ℕ, ◌-◌, ◌<◌, ◌∷◌, ◌≡◌, ◌≤◌,
}
use firefox_ctl.HarRecorder.Pages.{
  NavigationSide, Page, bind_page, bound, is_repeat, open_page, waits_for, without_fragment,
}

last?-length : (ps : List Page) (p : Page) → last? ps ≡ some p → 0 < length ps
last?-length [] p e = cc
last?-length (q ∷ ps) p e = omega arith

-- A bound page is one of the pages after the binding, of which there are as many as before or one
-- more.
pub bind_page_bounds :
    (pages : List Page) (side : NavigationSide) (stamp : ℕ) (url : Text)
    → ((bind_page pages side stamp url).1 < length (bind_page pages side stamp url).0)
      × (length pages ≤ length (bind_page pages side stamp url).0)
      × (length (bind_page pages side stamp url).0 ≤ suc (length pages))
unfolding bind_page
bind_page_bounds pages side stamp url = elim (Option-cases (last? pages)) [
  | inl e ↦
      rw (e, bind_page)
        (omega arith, omega (arith, last?-none pages e), omega (arith, last?-none pages e))
  | inr (last, e) ↦
      let some_page = last?-length pages last e in
      rw (e, bind_page)
        (elim (Bool-cases (is_repeat side (without_fragment url) last)) [
          | inl again ↦ rw again (omega (arith, some_page), omega arith, omega arith)
          | inr first ↦ rw first (elim (Bool-cases (waits_for side (without_fragment url) last)) [
            | inl waits ↦
                let same = length-set pages (length pages - 1) (bound side stamp url last) in
                rw waits (omega (arith, same, some_page), omega (arith, same), omega (arith, same))
            | inr new ↦
                let longer =
                  length-append pages (bound side stamp url (open_page stamp url) ∷ []) in
                rw new (omega (arith, longer), omega (arith, longer), omega (arith, longer))
          ])
        ])
]
