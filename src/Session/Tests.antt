-- ===== src/Session/Tests.antt =====
-- Runs of the session of extension/src/session.ts, and the theorems at concrete sessions.
use firefox_ctl.Base.{
  List, Option, [], arith, drop, false, if◌then◌else◌, inl, inr, length, map, none, refl, some,
  true, ℕ, ◌++◌, ◌∷◌, ◌≡◌,
}
use firefox_ctl.Session.{
  Session, SessionState, add_tab, answer_tab, choose_active, choose_session, clear, close_tab,
  close_window, current, drop_tab, fresh_session, get_session, make_room, on_tab_activated,
  on_tab_removed, on_window_removed, open_session, persist, remove_first, repoint_active_tab,
  set_group, tab_unavailable,
}
use firefox_ctl.Session.Restore.{
  IsRestored, absorb, ended, evict_next, live_ids, live_tabs, pool_of, restore_step,
  restore_step-abandoned, restore_steps, restore_steps-IsRestored, restored, starting, writing,
}
use firefox_ctl.Session.Steps.{
  adds, done, ends, grouping, idle, makes_room, opens, persists, then_step,
}
use firefox_ctl.Session.Pool.{Inv}
use firefox_ctl.Session.Reachable.{reachable-Inv}
use firefox_ctl.Session.Active.{IsChoice, get_session_lem}

sessions : Unit {0}
unfolding fresh_session current persist clear make_room add_tab open_session drop_tab remove_first
    on_tab_removed on_tab_activated on_window_removed close_tab repoint_active_tab close_window
    get_session choose_active set_group live_ids live_tabs absorb pool_of restored evict_next
    restore_step restore_steps choose_session answer_tab
sessions = tt

abbrev saved : SessionState
saved = record {
  window_id = 7;
  tabs = 1 ∷ 2 ∷ 3 ∷ [];
  created_at = 0;
  group_id = none;
  is_private = false;
  adopted = false;
}

abbrev live : List (Option ℕ)
live = map some (2 ∷ 3 ∷ 4 ∷ 5 ∷ 6 ∷ 7 ∷ 8 ∷ 9 ∷ 10 ∷ 11 ∷ 12 ∷ 13 ∷ 14 ∷ []) ++ none ∷ []

abbrev before : Session
before = fresh_session (some saved)

abbrev after : Session
after = (restore_steps 18 99 before (starting (some saved) (some live))).0

abbrev opened : Session
opened = open_session (fresh_session none) 7 21 5 true none

abbrev own : SessionState
own = record {
  window_id = 7;
  tabs = 21 ∷ [];
  created_at = 5;
  group_id = none;
  is_private = false;
  adopted = true;
}

evicted_one : after.closed_tabs ≡ 2 ∷ []
unfolding sessions
evicted_one = refl

room_made :
    map
      (λ (st : SessionState). length st.tabs)
      (make_room after 0 (record saved { tabs = drop 1 (pool_of saved live) })).objects
    ≡ 11 ∷ []
unfolding sessions
room_made = refl

abbrev room_for : Session
room_for = make_room (persist opened) 0 own

reachable-Inv_example : Inv idle (persist (add_tab room_for 0 22))
unfolding sessions
reachable-Inv_example = reachable-Inv none tt (
    then_step
      (then_step
        (then_step
          (then_step
            (then_step
              (then_step
                (then_step (done idle (fresh_session none))
                  (opens (fresh_session none) 7 21 5 true none))
                (persists (grouping 0) opened))
              (ends (persist opened) 0))
            (makes_room (persist opened) 0 own refl))
          (adds room_for 0 22))
        (persists (grouping 0) (add_tab room_for 0 22)))
      (ends (persist (add_tab room_for 0 22)) 0))

restore_steps-IsRestored_example :
    (st : SessionState) × (out : Session) × (restore_steps 18 99 before
        (starting (some saved) (some live))
      ≡ (out, ended))
    × (current out ≡ some (0, st))
    × IsRestored before out saved live st
unfolding sessions
restore_steps-IsRestored_example =
    restore_steps-IsRestored 14 before saved live 99 refl (omega arith)

abbrev reopened : Session
reopened = open_session opened 8 31 6 true none

restore_step-abandoned_example : (restore_step false 99 reopened writing).0 ≡ persist reopened
restore_step-abandoned_example = restore_step-abandoned reopened 99 writing

get_session_lem_example :
    (t : ℕ) × IsChoice (some 21) (21 ∷ []) t
    × (get_session persist opened 0 true true ≡ (
        if true then (persist (record opened { active_tab_id = some t }), inr (7, t)) else (
          record (persist (record opened { active_tab_id = some t })) { active_tab_id = none },
          inl tab_unavailable,
        )))
unfolding sessions
get_session_lem_example = get_session_lem persist opened 0 own true refl refl (omega arith)
