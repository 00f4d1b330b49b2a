-- ===== src/Session/Reachable.antt =====
-- What holds of the session of extension/src/session.ts after any steps.
use firefox_ctl.Base.{Option}
use firefox_ctl.Session.{Session, SessionState, fresh_session}
use firefox_ctl.Session.Steps.{
  Phase, Step, Steps, adds, closes, closes_window, done, drops_stale, ends, fails, gets, gets_tab,
  groups, idle, makes_room, opens, outlives, persists, repoints, restores, tab_activated,
  tab_removed, then_step, window_removed,
}
use firefox_ctl.Session.Pool.{Inv, IsPublic, persist-Inv}
use firefox_ctl.Session.Handlers.{
  abandoned-Inv, add_tab-Inv, answer_tab-Inv, choose_session-Inv, clear-Inv, close_tab-Inv,
  close_window-Inv, make_room-Inv, on_tab_activated-Inv, on_tab_removed-Inv, on_window_removed-Inv,
  open_session-Inv, repoint_active_tab-Inv, restore_step-Inv, set_group-Inv,
}

fresh_session-Inv :
    (stored : Option SessionState) → IsPublic stored → Inv idle (fresh_session stored)
unfolding fresh_session
fresh_session-Inv stored h = record { fits = tt; room = tt; public = h }

Step-Inv : {p q : Phase} {s u : Session} → Step p s q u → Inv p s → Inv q u
Step-Inv (window_removed p s w) v = on_window_removed-Inv p s w v
Step-Inv (tab_removed p s t) v = on_tab_removed-Inv p s t v
Step-Inv (tab_activated p s w t) v = on_tab_activated-Inv p s w t v
Step-Inv (drops_stale s) v = clear-Inv idle s v
Step-Inv (makes_room s o st e) v = make_room-Inv s o st e v
Step-Inv (fails s o) v = record { fits = v.fits; room = tt; public = v.public }
Step-Inv (adds s o t) v = add_tab-Inv s o t v
Step-Inv (opens s window_id tab_id now host incognito) v =
    open_session-Inv s window_id tab_id now host incognito v
Step-Inv (groups s o g) v = set_group-Inv s o g v
Step-Inv (persists p s) v = persist-Inv p s v.fits v.room
Step-Inv (ends s o) v = record { fits = v.fits; room = tt; public = v.public }
Step-Inv (closes s o t st e) v = close_tab-Inv s o t st e v
Step-Inv (repoints s o t) v = repoint_active_tab-Inv s o t v
Step-Inv (closes_window s o st e) v = close_window-Inv s st v
Step-Inv (gets p s o b) v = choose_session-Inv p s o b v
Step-Inv (gets_tab p s w t b) v = answer_tab-Inv p s w t b v
Step-Inv (restores s c now r) v = restore_step-Inv s c now r v
Step-Inv (outlives p s now r) v = abandoned-Inv p s now r v

Steps-Inv : {p q : Phase} {s u : Session} → Steps p s q u → Inv p s → Inv q u
Steps-Inv (done p s) v = v
Steps-Inv (then_step ss st) v = Step-Inv st (Steps-Inv ss v)

-- However the steps of commands and the events of the browser interleave, from a fresh session
-- whose storage holds no private state: no pool holds more than twelve tabs, a pool that a tab is
-- about to join has room for it, and no private state is in storage.
pub reachable-Inv :
    {p : Phase} {s : Session} (stored : Option SessionState)
    → IsPublic stored
    → Steps idle (fresh_session stored) p s
    → Inv p s
reachable-Inv stored h ss = Steps-Inv ss (fresh_session-Inv stored h)
