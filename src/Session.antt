-- ===== src/Session.antt =====
-- extension/src/session.ts and what extension/src/handlers/window.ts and tabs.ts do to it: the
-- managed window with its pool of tabs.
--
-- The session's state is an object that a handler keeps hold of across its awaits, while an event
-- may put another in its place: the objects stand in a store, and the session points into it.
-- A function is what the source does between two awaits. Storage takes each write.
pub mod Restore
pub mod Steps
pub mod Pool
pub mod Handlers
pub mod Reachable
pub mod Active
mod Tests
use firefox_ctl.Base.{
  Bool, List, Option, [], drop, false, get_elem?, if◌then◌else◌, inl, inr, last?, leb, length,
  mem_beq, nat_beq, nat_eq, none, or_else, set, some, take, text_eq, ℕ, ◌&&◌, ◌++◌, ◌∷◌, ◌⊎◌,
}

abbrev pub max_tabs : ℕ
max_tabs = 12

pub record SessionState : Type 0 where
  pub window_id : ℕ
  pub tabs : List ℕ
  pub created_at : ℕ
  pub group_id : Option ℕ
  pub is_private : Bool
  pub adopted : Bool

-- What storage holds under the key (nothing, or null, is none), and the tabs and windows that the
-- session had the browser close.
pub record Session : Type 0 where
  pub objects : List SessionState
  pub state : Option ℕ
  pub active_tab_id : Option ℕ
  pub stored : Option SessionState
  pub closed_tabs : List ℕ
  pub closed_windows : List ℕ

unfoldable pub fresh_session : Option SessionState → Session
fresh_session stored = record {
  objects = [];
  state = none;
  active_tab_id = none;
  stored = stored;
  closed_tabs = [];
  closed_windows = [];
}

abbrev pub at : ℕ → Option SessionState → Option (ℕ × SessionState)
at o none = none
at o (some st) = some (o, st)

-- `this.state`, with where it is.
unfoldable pub current : Session → Option (ℕ × SessionState)
current s = elim s.state [ none ↦ none | some o ↦ at o (get_elem? s.objects o) ]

abbrev pub to_store : Option (ℕ × SessionState) → Option SessionState
to_store none = none
to_store (some c) = if c.1.is_private then none else some c.1

unfoldable pub persist : Session → Session
persist s = record s { stored = to_store (current s) }

unfoldable pub clear : Session → Session
unfolding persist
clear s = persist (record s { state = none; active_tab_id = none })

abbrev put_tabs : Session → ℕ → SessionState → List ℕ → Session
put_tabs s o st tabs = record s { objects = set s.objects o (record st { tabs = tabs }) }

-- `splice(indexOf(tab), 1)` of a tab in the list.
unfoldable pub remove_first : ℕ → List ℕ → List ℕ
remove_first t [] = []
remove_first t (u ∷ us) = let rest = remove_first t us in if nat_beq u t then us else u ∷ rest

unfoldable pub on_window_removed : Session → ℕ → Session
unfolding clear
on_window_removed s w = elim (current s) [
  | none ↦ s
  | some c ↦ if nat_beq c.1.window_id w then clear s else s
]

-- The active tab that follows the close of one.
abbrev pub repointed : Option ℕ → ℕ → List ℕ → Option ℕ
repointed none t tabs = none
repointed (some a) t tabs = if nat_beq a t then last? tabs else some a

unfoldable pub drop_tab : Session → ℕ → SessionState → ℕ → Session
drop_tab s o st t = put_tabs s o st (remove_first t st.tabs)

unfoldable pub on_tab_removed : Session → ℕ → Session
unfolding drop_tab persist
on_tab_removed s t = elim (current s) [
  | none ↦ s
  | some c ↦
      if mem_beq t c.1.tabs
      then persist (record (drop_tab s c.0 c.1 t) {
        active_tab_id = repointed s.active_tab_id t (remove_first t c.1.tabs);
      })
      else s
]

unfoldable pub on_tab_activated : Session → ℕ → ℕ → Session
unfolding persist
on_tab_activated s w t = elim (current s) [
  | none ↦ s
  | some c ↦
      if nat_beq w c.1.window_id && mem_beq t c.1.tabs
      then persist (record s { active_tab_id = some t })
      else s
]

-- `addPoolTab` up to `tabs.create`: a full pool gives up its oldest tab.
unfoldable pub make_room : Session → ℕ → SessionState → Session
make_room s o st =
    if leb max_tabs (length st.tabs)
    then record (put_tabs s o st (drop 1 st.tabs)) { closed_tabs = s.closed_tabs ++ take 1 st.tabs }
    else s

-- `addPoolTab` once the tab is there.
unfoldable pub add_tab : Session → ℕ → ℕ → Session
add_tab s o t = elim (get_elem? s.objects o) [
  | none ↦ s
  | some st ↦ record (put_tabs s o st (st.tabs ++ t ∷ [])) { active_tab_id = some t }
]

-- `group`, when the browser gives a group.
unfoldable pub set_group : Session → ℕ → ℕ → Session
set_group s o g = elim (get_elem? s.objects o) [
  | none ↦ s
  | some st ↦ record s { objects = set s.objects o (record st { group_id = some g }) }
]

-- `openSession` once the window and the tab are there; a host is the user's window, adopted.
unfoldable pub open_session : Session → ℕ → ℕ → ℕ → Bool → Option Bool → Session
open_session s window_id tab_id now host incognito = record s {
  objects =
      s.objects
      ++ record {
        window_id = window_id;
        tabs = tab_id ∷ [];
        created_at = now;
        group_id = none;
        is_private = if host then false else or_else incognito false;
        adopted = host;
      }
        ∷ [];
  state = some (length s.objects);
  active_tab_id = some tab_id;
}

-- `closeTab` of a tab of the pool, up to `tabs.remove`.
unfoldable pub close_tab : Session → ℕ → SessionState → ℕ → Session
unfolding drop_tab
close_tab s o st t = record (drop_tab s o st t) { closed_tabs = s.closed_tabs ++ t ∷ [] }

-- `repointActiveTab`
unfoldable pub repoint_active_tab : Session → ℕ → ℕ → Session
repoint_active_tab s o t = elim (get_elem? s.objects o) [
  | none ↦ s
  | some st ↦ record s { active_tab_id = repointed s.active_tab_id t st.tabs }
]

-- `closeWindow`
unfoldable pub close_window : Session → SessionState → Session
unfolding clear
close_window s st =
    if st.adopted
    then record (clear s) { closed_tabs = s.closed_tabs ++ st.tabs }
    else record (clear s) { closed_windows = s.closed_windows ++ st.window_id ∷ [] }

-- Why `getSession` throws.
pub data Lost : Type 0 where
  no_session : Lost
  window_expired : Lost
  no_tabs : Lost
  tab_unavailable : Lost

abbrev pub chosen : Option ℕ → List ℕ → Option ℕ
chosen none tabs = last? tabs
chosen (some a) tabs = if mem_beq a tabs then some a else last? tabs

-- `this.state === state`
abbrev pub is_at : Option ℕ → ℕ → Bool
is_at none o = false
is_at (some i) o = nat_beq i o

-- `getSession` once it knows that the state is still the one it saw.
unfoldable pub choose_active : Session → SessionState → Session × (Lost ⊎ (ℕ × ℕ))
choose_active s st = elim (chosen s.active_tab_id st.tabs) [
  | none ↦ (record s { active_tab_id = none }, inl no_tabs)
  | some a ↦ (record s { active_tab_id = some a }, inr (st.window_id, a))
]

-- `getSession` of a caller that saw the state object o, from the answer of `windows.get`, which
-- finds the window or not, to the call of `tabs.get`: the window and tab to ask for, or the error.
unfoldable pub choose_session : Session → ℕ → Bool → Session × (Lost ⊎ (ℕ × ℕ))
unfolding clear choose_active
choose_session s o window_exists = elim (get_elem? s.objects o) [
  | none ↦ (s, inl no_session)
  | some st ↦
      if window_exists
      then (if is_at s.state o then choose_active s st else (s, inl window_expired))
      else (if is_at s.state o then clear s else s, inl window_expired)
]

-- `getSession` once `tabs.get` finds the tab or not.
unfoldable pub answer_tab : Session → ℕ → ℕ → Bool → Session × (Lost ⊎ (ℕ × ℕ))
answer_tab s window_id tab_id tab_exists =
    if tab_exists
    then (s, inr (window_id, tab_id))
    else (record s { active_tab_id = none }, inl tab_unavailable)

abbrev pub await_tab :
    (Session → Session) → Bool → Session × (Lost ⊎ (ℕ × ℕ)) → Session × (Lost ⊎ (ℕ × ℕ))
await_tab meanwhile tab_exists (s, inl lost) = (s, inl lost)
await_tab meanwhile tab_exists (s, inr (w, t)) = answer_tab (meanwhile s) w t tab_exists

-- `getSession` from the answer of `windows.get` to its end; `meanwhile` is what other calls and
-- events do to the session while it waits for `tabs.get`.
unfoldable pub get_session :
    (Session → Session) → Session → ℕ → Bool → Bool → Session × (Lost ⊎ (ℕ × ℕ))
unfolding choose_session answer_tab
get_session meanwhile s o window_exists tab_exists =
    await_tab meanwhile tab_exists (choose_session s o window_exists)
