-- ===== src/Session/Handlers.antt =====
-- What each step of the session of extension/src/session.ts keeps of its pools and its storage.
use firefox_ctl.Base.{
  All-append, All-get, All-set, Bool, Bool-cases, List, Option, Option-cases, [], arith, drop,
  false, get_elem?, get_elem?-set_self, inl, inr, leb, length, length-append, length-drop, ltb,
  mem_beq, nat_beq, nat_eq, none, not, some, subst, sym, text_eq, true, ℕ, ◌&&◌, ◌++◌, ◌∷◌, ◌≡◌,
  ◌≤◌,
}
use firefox_ctl.Session.{
  Session, SessionState, add_tab, answer_tab, choose_active, choose_session, chosen, clear,
  close_tab, close_window, current, drop_tab, is_at, make_room, max_tabs, on_tab_activated,
  on_tab_removed, on_window_removed, open_session, remove_first, repoint_active_tab, set_group,
}
use firefox_ctl.Session.Restore.{
  Restoring, asking, ended, evict_next, evicting, pool_of, reading, restore_step,
  restore_step-abandoned, restored, rewritten, starting, writing,
}
use firefox_ctl.Session.Steps.{Phase, adding, closing, grouping, idle}
use firefox_ctl.Session.Pool.{
  Fits, HasRoom, Inv, current-Fits, current-get, length-remove_first, length-remove_first_le,
  persist-Inv, set-Waiting,
}

pub clear-Inv : (p : Phase) (s : Session) → Inv p s → Inv p (clear s)
unfolding clear
clear-Inv p s v = persist-Inv p (record s { state = none; active_tab_id = none }) v.fits v.room

pub on_window_removed-Inv :
    (p : Phase) (s : Session) (w : ℕ) → Inv p s → Inv p (on_window_removed s w)
unfolding on_window_removed
on_window_removed-Inv p s w v = elim (Option-cases (current s)) [
  | inl e ↦ rw (e, on_window_removed) v
  | inr (c, e) ↦
      rw (e, on_window_removed)
        (elim (Bool-cases (nat_beq c.1.window_id w)) [
          | inl same ↦ rw same (clear-Inv p s v)
          | inr other ↦ rw other v
        ])
]

pub on_tab_removed-Inv : (p : Phase) (s : Session) (t : ℕ) → Inv p s → Inv p (on_tab_removed s t)
unfolding on_tab_removed drop_tab
on_tab_removed-Inv p s t v = elim (Option-cases (current s)) [
  | inl e ↦ rw (e, on_tab_removed) v
  | inr (c, e) ↦
      rw (e, on_tab_removed)
        (elim (Bool-cases (mem_beq t c.1.tabs)) [
          | inl m ↦
              let fewer = length-remove_first t c.1.tabs m in
              let fits = current-Fits s c.0 c.1 v.fits e in
              rw m (
                persist-Inv p _
                  (All-set Fits s.objects c.0 (record c.1 { tabs = remove_first t c.1.tabs }) v.fits
                    (omega (arith, fewer, fits)))
                  (set-Waiting p s.objects c.0 (record c.1 { tabs = remove_first t c.1.tabs })
                    (omega (arith, fewer, fits)) v.room))
          | inr m ↦ rw m v
        ])
]

pub on_tab_activated-Inv :
    (p : Phase) (s : Session) (w t : ℕ) → Inv p s → Inv p (on_tab_activated s w t)
unfolding on_tab_activated
on_tab_activated-Inv p s w t v = elim (Option-cases (current s)) [
  | inl e ↦ rw (e, on_tab_activated) v
  | inr (c, e) ↦
      rw (e, on_tab_activated)
        (elim (Bool-cases (nat_beq w c.1.window_id && mem_beq t c.1.tabs)) [
          | inl ours ↦ rw ours (persist-Inv p (record s { active_tab_id = some t }) v.fits v.room)
          | inr other ↦ rw other v
        ])
]

pub make_room-Inv :
    (s : Session) (o : ℕ) (st : SessionState)
    → current s ≡ some (o, st)
    → Inv idle s
    → Inv (adding o) (make_room s o st)
unfolding make_room
make_room-Inv s o st e v =
    let there = current-get s o st e in
    let fits = current-Fits s o st v.fits e in
    let shorter = length-drop 1 st.tabs in
    elim (Bool-cases (leb max_tabs (length st.tabs))) [
      | inl full ↦ rw full (record {
        fits =
            All-set Fits s.objects o (record st { tabs = drop 1 st.tabs }) v.fits
              (omega (arith, shorter, fits));
        room =
            subst HasRoom
              (sym (get_elem?-set_self s.objects o st (record st { tabs = drop 1 st.tabs }) there))
              (omega (arith, shorter, fits));
        public = v.public;
      })
      | inr free ↦ rw free (record {
        fits = v.fits;
        room = subst HasRoom (sym there) (ground (arith, free));
        public = v.public;
      })
    ]

pub add_tab-Inv : (s : Session) (o t : ℕ) → Inv (adding o) s → Inv (grouping o) (add_tab s o t)
unfolding add_tab
add_tab-Inv s o t v = elim (Option-cases (get_elem? s.objects o)) [
  | inl e ↦ rw (e, add_tab) (record { fits = v.fits; room = tt; public = v.public })
  | inr (st, e) ↦
      rw (e, add_tab)
        (record {
          fits =
              All-set Fits s.objects o (record st { tabs = st.tabs ++ t ∷ [] }) v.fits
                (omega (arith, length-append st.tabs (t ∷ []), subst HasRoom e v.room));
          room = tt;
          public = v.public;
        })
]

pub open_session-Inv :
    (s : Session) (window_id tab_id now : ℕ) (host : Bool) (incognito : Option Bool)
    → Inv idle s
    → Inv (grouping (length s.objects)) (open_session s window_id tab_id now host incognito)
unfolding open_session
open_session-Inv s window_id tab_id now host incognito v = record {
  fits = All-append Fits s.objects _ v.fits (omega arith, tt);
  room = tt;
  public = v.public;
}

pub set_group-Inv :
    (s : Session) (o g : ℕ) → Inv (grouping o) s → Inv (grouping o) (set_group s o g)
unfolding set_group
set_group-Inv s o g v = elim (Option-cases (get_elem? s.objects o)) [
  | inl e ↦ rw (e, set_group) v
  | inr (st, e) ↦
      rw (e, set_group)
        (record {
          fits =
              All-set Fits s.objects o (record st { group_id = some g }) v.fits
                (All-get Fits s.objects o st v.fits e);
          room = tt;
          public = v.public;
        })
]

pub close_tab-Inv :
    (s : Session) (o t : ℕ) (st : SessionState)
    → current s ≡ some (o, st)
    → Inv idle s
    → Inv (closing o t) (close_tab s o st t)
unfolding close_tab drop_tab
close_tab-Inv s o t st e v = record {
  fits =
      All-set Fits s.objects o (record st { tabs = remove_first t st.tabs }) v.fits
        (omega (arith, length-remove_first_le t st.tabs, current-Fits s o st v.fits e));
  room = tt;
  public = v.public;
}

pub repoint_active_tab-Inv :
    (s : Session) (o t : ℕ) → Inv (closing o t) s → Inv idle (repoint_active_tab s o t)
unfolding repoint_active_tab
repoint_active_tab-Inv s o t v = elim (Option-cases (get_elem? s.objects o)) [
  | inl e ↦ rw (e, repoint_active_tab) (record { fits = v.fits; room = tt; public = v.public })
  | inr (st, e) ↦
      rw (e, repoint_active_tab) (record { fits = v.fits; room = tt; public = v.public })
]

pub close_window-Inv : (s : Session) (st : SessionState) → Inv idle s → Inv idle (close_window s st)
unfolding close_window
close_window-Inv s st v =
    let cleared = clear-Inv idle s v in
    elim (Bool-cases st.adopted) [
      | inl e ↦ rw e (record { fits = cleared.fits; room = tt; public = cleared.public })
      | inr e ↦ rw e (record { fits = cleared.fits; room = tt; public = cleared.public })
    ]

choose_active-Inv :
    (p : Phase) (s : Session) (st : SessionState) → Inv p s → Inv p (choose_active s st).0
unfolding choose_active
choose_active-Inv p s st v = elim (Option-cases (chosen s.active_tab_id st.tabs)) [
  | inl n ↦ rw (n, choose_active) (record { fits = v.fits; room = v.room; public = v.public })
  | inr (a, n) ↦ rw (n, choose_active) (record { fits = v.fits; room = v.room; public = v.public })
]

pub choose_session-Inv :
    (p : Phase) (s : Session) (o : ℕ) (b : Bool) → Inv p s → Inv p (choose_session s o b).0
unfolding choose_session
choose_session-Inv p s o b v = elim (Option-cases (get_elem? s.objects o)) [
  | inl e ↦ rw (e, choose_session) v
  | inr (st, e) ↦
      rw (e, choose_session)
        (elim (Bool-cases b) [
          | inl there ↦ rw there (elim (Bool-cases (is_at s.state o)) [
            | inl same ↦ rw same (choose_active-Inv p s st v)
            | inr other ↦ rw other v
          ])
          | inr gone ↦ rw gone (elim (Bool-cases (is_at s.state o)) [
            | inl same ↦ rw same (clear-Inv p s v)
            | inr other ↦ rw other v
          ])
        ])
]

pub answer_tab-Inv :
    (p : Phase) (s : Session) (w t : ℕ) (b : Bool) → Inv p s → Inv p (answer_tab s w t b).0
unfolding answer_tab
answer_tab-Inv p s w t b v = elim (Bool-cases b) [
  | inl there ↦ rw there v
  | inr gone ↦ rw gone (record { fits = v.fits; room = v.room; public = v.public })
]

evict_next-Inv :
    (s : Session) (c : Bool) (now : ℕ) (saved : SessionState) (tabs : List ℕ)
    → Inv idle s
    → Inv idle (evict_next c now s saved tabs).0
unfolding evict_next restored
evict_next-Inv s c now saved tabs v = elim (Bool-cases (ltb max_tabs (length tabs) && c)) [
  | inl over ↦ rw over (record { fits = v.fits; room = tt; public = v.public })
  | inr other ↦ elim (Bool-cases c) [
    | inl is ↦
        let few : length tabs ≤ max_tabs = ground arith in
        rw other (rw is (persist-Inv idle _ (All-append Fits s.objects _ v.fits (few, tt)) tt))
    | inr not ↦ rw other (rw not v)
  ]
]

pub restore_step-Inv :
    (s : Session) (c : Bool) (now : ℕ) (r : Restoring)
    → Inv idle s
    → Inv idle (restore_step c now s r).0
unfolding restore_step
restore_step-Inv s c now (starting parsed window) v = v
restore_step-Inv s c now (reading none window) v = v
restore_step-Inv s c now (reading (some saved) window) v = v
restore_step-Inv s c now (asking saved none) v = elim (Bool-cases c) [
  | inl e ↦ rw e (clear-Inv idle s v)
  | inr e ↦ rw e v
]
restore_step-Inv s c now (asking saved (some live)) v = elim (Bool-cases c) [
  | inl e ↦ rw e (evict_next-Inv s true now saved (pool_of saved live) v)
  | inr e ↦ rw e v
]
restore_step-Inv s c now (evicting saved tabs) v = evict_next-Inv s c now saved tabs v
restore_step-Inv s c now writing v = elim (Bool-cases c) [
  | inl e ↦ rw e v
  | inr e ↦ rw e (persist-Inv idle s v.fits tt)
]
restore_step-Inv s c now ended v = v

rewritten-Inv : (p : Phase) (s : Session) (r : Restoring) → Inv p s → Inv p (rewritten s r)
rewritten-Inv p s (starting parsed window) v = v
rewritten-Inv p s (reading parsed window) v = v
rewritten-Inv p s (asking saved window) v = v
rewritten-Inv p s (evicting saved tabs) v = v
rewritten-Inv p s writing v = persist-Inv p s v.fits v.room
rewritten-Inv p s ended v = v

pub abandoned-Inv :
    (p : Phase) (s : Session) (now : ℕ) (r : Restoring)
    → Inv p s
    → Inv p (restore_step false now s r).0
abandoned-Inv p s now r v =
    subst (Inv p) (sym (restore_step-abandoned s now r)) (rewritten-Inv p s r v)
