-- ===== src/Session/Steps.antt =====
-- Every order of what extension/src/session.ts, handlers/window.ts and handlers/tabs.ts do to the
-- session: the commands run one at a time, each in the steps between its awaits, and the events of
-- the browser come at any moment.
use firefox_ctl.Base.{Bool, Option, false, length, some, ℕ, ◌≡◌}
use firefox_ctl.Session.{
  Session, SessionState, add_tab, answer_tab, choose_session, clear, close_tab, close_window,
  current, make_room, on_tab_activated, on_tab_removed, on_window_removed, open_session, persist,
  repoint_active_tab, set_group,
}
use firefox_ctl.Session.Restore.{Restoring, restore_step}

-- What the command that runs waits for: nothing runs; a tab for the object, whose pool has room; the
-- group of a new tab; or the close of a tab.
pub data Phase : Type 0 where
  idle : Phase
  adding : ℕ → Phase
  grouping : ℕ → Phase
  closing : ℕ → ℕ → Phase

pub data Step : Phase → Session → Phase → Session → Type 0 where
  window_removed : (p : Phase) (s : Session) (w : ℕ) → Step p s p (on_window_removed s w)
  tab_removed : (p : Phase) (s : Session) (t : ℕ) → Step p s p (on_tab_removed s t)
  tab_activated : (p : Phase) (s : Session) (w t : ℕ) → Step p s p (on_tab_activated s w t)
  drops_stale : (s : Session) → Step idle s idle (clear s)
  makes_room :
      (s : Session) (o : ℕ) (st : SessionState)
      → current s ≡ some (o, st)
      → Step idle s (adding o) (make_room s o st)
  fails : (s : Session) (o : ℕ) → Step (adding o) s idle s
  adds : (s : Session) (o t : ℕ) → Step (adding o) s (grouping o) (add_tab s o t)
  opens :
      (s : Session) (window_id tab_id now : ℕ) (host : Bool) (incognito : Option Bool)
      → Step idle s
          (grouping (length s.objects))
          (open_session s window_id tab_id now host incognito)
  groups : (s : Session) (o g : ℕ) → Step (grouping o) s (grouping o) (set_group s o g)
  -- The dispatcher persists after every command, whichever it is.
  persists : (p : Phase) (s : Session) → Step p s p (persist s)
  ends : (s : Session) (o : ℕ) → Step (grouping o) s idle s
  closes :
      (s : Session) (o t : ℕ) (st : SessionState)
      → current s ≡ some (o, st)
      → Step idle s (closing o t) (close_tab s o st t)
  repoints : (s : Session) (o t : ℕ) → Step (closing o t) s idle (repoint_active_tab s o t)
  closes_window :
      (s : Session) (o : ℕ) (st : SessionState)
      → current s ≡ some (o, st)
      → Step idle s idle (close_window s st)
  gets :
      (p : Phase) (s : Session) (o : ℕ) (window_exists : Bool)
      → Step p s p (choose_session s o window_exists).0
  gets_tab :
      (p : Phase) (s : Session) (w t : ℕ) (tab_exists : Bool)
      → Step p s p (answer_tab s w t tab_exists).0
  -- An abandoned restore goes on while commands run; one that is current does not.
  restores :
      (s : Session) (is_current : Bool) (now : ℕ) (r : Restoring)
      → Step idle s idle (restore_step is_current now s r).0
  outlives :
      (p : Phase) (s : Session) (now : ℕ) (r : Restoring)
      → Step p s p (restore_step false now s r).0

pub data Steps : Phase → Session → Phase → Session → Type 0 where
  done : (p : Phase) (s : Session) → Steps p s p s
  then_step : {p q r : Phase} {s u v : Session} → Steps p s q u → Step q u r v → Steps p s r v
