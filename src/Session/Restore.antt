-- ===== src/Session/Restore.antt =====
-- `readStoredState` of extension/src/session.ts: the pool of a window that outlived the background
-- page.
use firefox_ctl.Base.{
  All, All-append, All-drop, All-mono, Bool, Bool-cases, List, Option, [], ap, append-nil,
  append_assoc, arith, drop, eq_self, false, filter, get_elem?-length, if◌then◌else◌, inl, inr,
  last?, length, length-drop, ltb, mem_beq, nat_beq, nat_eq, none, refl, some, suc, sym, take,
  text_eq, true, zero, ℕ, ◌&&◌, ◌++◌, ◌-◌, ◌∙◌, ◌∷◌, ◌≡◌, ◌≤◌,
}
use firefox_ctl.Session.{Session, SessionState, clear, current, max_tabs, persist}

-- The ids of the window's tabs; a tab may have none.
unfoldable pub live_ids : List (Option ℕ) → List ℕ
live_ids [] = []
live_ids (none ∷ live) = live_ids live
live_ids (some t ∷ live) = t ∷ live_ids live

-- The saved tabs that are still there.
unfoldable pub live_tabs : List ℕ → List (Option ℕ) → List ℕ
unfolding live_ids
live_tabs saved live = filter (λ t. mem_beq t (live_ids live)) saved

-- The tabs of the window that the pool does not track.
unfoldable pub absorb : List ℕ → List (Option ℕ) → List ℕ
absorb tabs [] = tabs
absorb tabs (none ∷ live) = absorb tabs live
absorb tabs (some t ∷ live) =
    let kept = absorb tabs live in
    let grown = absorb (tabs ++ t ∷ []) live in if mem_beq t tabs then kept else grown

unfoldable pub pool_of : SessionState → List (Option ℕ) → List ℕ
unfolding live_tabs absorb
pool_of saved live =
    let tabs = live_tabs saved.tabs live in if saved.adopted then tabs else absorb tabs live

-- What an attempt does next, with the answer that it waits for: what storage gives, once parsed, and
-- the tabs of the window, if that is there.
pub data Restoring : Type 0 where
  starting : Option SessionState → Option (List (Option ℕ)) → Restoring
  reading : Option SessionState → Option (List (Option ℕ)) → Restoring
  asking : SessionState → Option (List (Option ℕ)) → Restoring
  evicting : SessionState → List ℕ → Restoring
  writing : Restoring
  ended : Restoring

-- The assignment of the state, and the write.
unfoldable pub restored : Session → SessionState → List ℕ → ℕ → Session
unfolding persist
restored s saved tabs now = persist (record s {
  objects =
      s.objects
      ++ record {
        window_id = saved.window_id;
        tabs = tabs;
        created_at = if nat_beq saved.created_at 0 then now else saved.created_at;
        group_id = saved.group_id;
        is_private = false;
        adopted = saved.adopted;
      }
        ∷ [];
  state = some (length s.objects);
  active_tab_id = last? tabs;
})

-- The test of `while (tabs.length > MAX_TABS && isCurrent)`, with what follows it up to an await.
unfoldable pub evict_next : Bool → ℕ → Session → SessionState → List ℕ → Session × Restoring
unfolding restored
evict_next is_current now s saved tabs =
    if ltb max_tabs (length tabs) && is_current
    then (record s { closed_tabs = s.closed_tabs ++ take 1 tabs }, evicting saved (drop 1 tabs))
    else if is_current
    then (restored s saved tabs now, writing)
    else (s, ended)

-- A session that is there needs no restore.
abbrev begin_restore : Option ℕ → Option SessionState → Option (List (Option ℕ)) → Restoring
begin_restore (some o) parsed window = ended
begin_restore none parsed window = reading parsed window

-- `readStoredState` from one await to the next; `is_current` is `memo.isCurrent(epoch)` there.
unfoldable pub restore_step : Bool → ℕ → Session → Restoring → Session × Restoring
unfolding pool_of evict_next clear persist
restore_step is_current now s (starting parsed window) = (s, begin_restore s.state parsed window)
restore_step is_current now s (reading none window) = (s, ended)
restore_step is_current now s (reading (some saved) window) =
    (s, if is_current then asking saved window else ended)
restore_step is_current now s (asking saved none) =
    if is_current then (clear s, writing) else (s, ended)
restore_step is_current now s (asking saved (some live)) =
    if is_current then evict_next is_current now s saved (pool_of saved live) else (s, ended)
restore_step is_current now s (evicting saved tabs) = evict_next is_current now s saved tabs
restore_step is_current now s writing = (if is_current then s else persist s, ended)
restore_step is_current now s ended = (s, ended)

-- As many steps, of an attempt that stays current, at one time and with nothing in between.
unfoldable pub restore_steps : ℕ → ℕ → Session → Restoring → Session × Restoring
unfolding restore_step
restore_steps zero now s r = (s, r)
restore_steps (suc n) now s r =
    let out = restore_step true now s r in restore_steps n now out.0 out.1

evict_next-abandoned :
    (s : Session) (now : ℕ) (saved : SessionState) (tabs : List ℕ)
    → (evict_next false now s saved tabs).0 ≡ s
unfolding evict_next
evict_next-abandoned s now saved tabs = elim (Bool-cases (ltb max_tabs (length tabs))) [
  | inl e ↦ rw e refl
  | inr e ↦ rw e refl
]

-- What an abandoned attempt leaves of a session: an attempt whose write was under way writes what
-- that session has to store, over what the attempt wrote.
abbrev pub rewritten : Session → Restoring → Session
rewritten s writing = persist s
rewritten s other = s

-- Once a restore has been abandoned, whatever it waits for and whichever session the commands since
-- then have made, its next step leaves the session, its pools and the browser's tabs as they are.
-- If its own write was under way, storage then holds what that session has to store; else storage
-- too is as it was.
pub restore_step-abandoned :
    (s : Session) (now : ℕ) (r : Restoring) → (restore_step false now s r).0 ≡ rewritten s r
unfolding restore_step
restore_step-abandoned s now (starting parsed window) = refl
restore_step-abandoned s now (reading none window) = refl
restore_step-abandoned s now (reading (some saved) window) = refl
restore_step-abandoned s now (asking saved none) = refl
restore_step-abandoned s now (asking saved (some live)) = refl
restore_step-abandoned s now (evicting saved tabs) = evict_next-abandoned s now saved tabs
restore_step-abandoned s now writing = refl
restore_step-abandoned s now ended = refl

abbrev pub IsAmong : List ℕ → ℕ → Type 0
IsAmong ids t = mem_beq t ids ≡ true

filter-IsAmong : (ids ts : List ℕ) → All (IsAmong ids) (filter (λ t. mem_beq t ids) ts)
filter-IsAmong ids [] = tt
filter-IsAmong ids (t ∷ ts) = ground (arith, filter-IsAmong ids ts)

IsAmong-self : (ids : List ℕ) → All (IsAmong ids) ids
IsAmong-self [] = tt
IsAmong-self (t ∷ ts) =
    (head_among t ts, All-mono (IsAmong ts) ts (λ u m. tail_among t u ts m) (IsAmong-self ts))
  where
    head_among : (t : ℕ) (ts : List ℕ) → mem_beq t (t ∷ ts) ≡ true
    head_among t ts = rw (eq_self t) refl

    tail_among : (t u : ℕ) (ts : List ℕ) → mem_beq u ts ≡ true → mem_beq u (t ∷ ts) ≡ true
    tail_among t u ts m = ground (arith, m)

absorb-IsAmong :
    (ids tabs : List ℕ) (live : List (Option ℕ))
    → All (IsAmong ids) tabs
    → All (IsAmong ids) (live_ids live)
    → All (IsAmong ids) (absorb tabs live)
unfolding absorb live_ids
absorb-IsAmong ids tabs [] h k = h
absorb-IsAmong ids tabs (none ∷ live) h k = absorb-IsAmong ids tabs live h k
absorb-IsAmong ids tabs (some t ∷ live) h k = elim (Bool-cases (mem_beq t tabs)) [
  | inl e ↦ rw e (absorb-IsAmong ids tabs live h k.1)
  | inr e ↦ rw e (absorb-IsAmong ids (tabs ++ t ∷ []) live (All-append _ tabs _ h (k.0, tt)) k.1)
]

pool_of-IsAmong :
    (saved : SessionState) (live : List (Option ℕ))
    → All (IsAmong (live_ids live)) (pool_of saved live)
unfolding pool_of live_tabs
pool_of-IsAmong saved live =
    let ids = live_ids live in
    elim (Bool-cases saved.adopted) [
      | inl e ↦ rw e (filter-IsAmong ids saved.tabs)
      | inr e ↦ rw e (absorb-IsAmong ids _ live (filter-IsAmong ids saved.tabs) (IsAmong-self ids))
    ]

-- A restored state: its tabs are the newest of the pool, at most as many as fit, each of them a tab
-- of the window; the last of them is the active one; those that do not fit were closed; and it is
-- not private.
pub record IsRestored (before s : Session) (saved : SessionState) (live : List (Option ℕ))
    (st : SessionState) : Type 0 where
  pub newest : st.tabs ≡ drop (length (pool_of saved live) - max_tabs) (pool_of saved live)
  pub fits : length st.tabs ≤ max_tabs
  pub alive : All (IsAmong (live_ids live)) st.tabs
  pub active : s.active_tab_id ≡ last? st.tabs
  pub closed :
      s.closed_tabs
      ≡ before.closed_tabs ++ take (length (pool_of saved live) - max_tabs) (pool_of saved live)
  pub public : st.is_private ≡ false
  pub adoption : st.adopted ≡ saved.adopted
  pub written : s.stored ≡ some st

restore_steps-ended : (n now : ℕ) (s : Session) → restore_steps n now s ended ≡ (s, ended)
unfolding restore_steps restore_step
restore_steps-ended zero now s = refl
restore_steps-ended (suc n) now s = restore_steps-ended n now s

over : (n : ℕ) → max_tabs ≤ n → suc n - max_tabs ≡ suc (n - max_tabs)
over n h = omega arith

fits_all : (n : ℕ) → n ≤ max_tabs → n - max_tabs ≡ 0
fits_all n h = omega arith

-- The session that the loop ends in.
evicted : ℕ → Session → SessionState → List ℕ → Session × Restoring
evicted now s saved tabs = (
  restored (record s { closed_tabs = s.closed_tabs ++ take (length tabs - max_tabs) tabs }) saved
      (drop (length tabs - max_tabs) tabs) now,
  ended,
)

evicted-few :
    (now : ℕ) (s : Session) (saved : SessionState) (tabs : List ℕ)
    → length tabs ≤ max_tabs
    → evicted now s saved tabs ≡ (restored s saved tabs now, ended)
unfolding evicted
evicted-few now s saved tabs h = rw (fits_all (length tabs) h) (
    ap (λ c. (restored (record s { closed_tabs = c }) saved tabs now, ended))
      (append-nil s.closed_tabs))

evicted-more :
    (now : ℕ) (s : Session) (saved : SessionState) (t : ℕ) (ts : List ℕ)
    → max_tabs ≤ length ts
    → evicted now (record s { closed_tabs = s.closed_tabs ++ t ∷ [] }) saved ts
      ≡ evicted now s saved (t ∷ ts)
unfolding evicted
evicted-more now s saved t ts h = rw (over (length ts) h) (
    ap
      (λ c.
        (restored (record s { closed_tabs = c }) saved (drop (length ts - max_tabs) ts) now, ended))
      (append_assoc s.closed_tabs (t ∷ []) (take (length ts - max_tabs) ts)))

-- The loop of an attempt that stays current, from any pool.
evict_next-evicted :
    (n now : ℕ) (s : Session) (saved : SessionState) (tabs : List ℕ)
    → length tabs ≤ n
    → (let out = evict_next true now s saved tabs in restore_steps (suc n) now out.0 out.1)
      ≡ evicted now s saved tabs
unfolding evict_next restore_steps restore_step
evict_next-evicted n now s saved [] h =
    restore_steps-ended n now _ ∙ sym (evicted-few now s saved [] (omega arith))
evict_next-evicted zero now s saved (t ∷ ts) h = absurd (omega (arith, h))
evict_next-evicted (suc n) now s saved (t ∷ ts) h =
    elim (Bool-cases (ltb max_tabs (length (t ∷ ts)))) [
      | inl more ↦ rw more (
          evict_next-evicted n now (record s { closed_tabs = s.closed_tabs ++ t ∷ [] }) saved ts
            (omega (arith, h))
          ∙ evicted-more now s saved t ts (ground arith))
      | inr few ↦ rw few (
          restore_steps-ended (suc n) now _ ∙ sym (evicted-few now s saved (t ∷ ts) (ground arith)))
    ]

new_state : SessionState → List (Option ℕ) → ℕ → SessionState
new_state saved live now = record {
  window_id = saved.window_id;
  tabs = drop (length (pool_of saved live) - max_tabs) (pool_of saved live);
  created_at = if nat_beq saved.created_at 0 then now else saved.created_at;
  group_id = saved.group_id;
  is_private = false;
  adopted = saved.adopted;
}

evicted-IsRestored :
    (s : Session) (saved : SessionState) (live : List (Option ℕ)) (now : ℕ)
    → (current (evicted now s saved (pool_of saved live)).0
        ≡ some (length s.objects, new_state saved live now))
      × IsRestored s
          (evicted now s saved (pool_of saved live)).0
          saved
          live
          (new_state saved live now)
unfolding evicted restored current persist new_state
evicted-IsRestored s saved live now =
    let pool = pool_of saved live in
    let there = get_elem?-length s.objects (new_state saved live now) in
    (
      rw there refl,
      record {
        newest = refl;
        fits = omega (arith, length-drop (length pool - max_tabs) pool);
        alive = All-drop _ (length pool - max_tabs) pool (pool_of-IsAmong saved live);
        active = refl;
        closed = refl;
        public = refl;
        adoption = refl;
        written = rw there refl;
      },
    )

restore_steps-evicted :
    (n : ℕ) (s : Session) (saved : SessionState) (live : List (Option ℕ)) (now : ℕ)
    → s.state ≡ none
    → length (pool_of saved live) ≤ n
    → restore_steps (suc (suc (suc (suc n)))) now s (starting (some saved) (some live))
      ≡ evicted now s saved (pool_of saved live)
unfolding restore_steps restore_step
restore_steps-evicted n s saved live now e h =
    ap
      (λ state.
        restore_steps (suc (suc (suc n))) now s (begin_restore state (some saved) (some live)))
      e
    ∙ evict_next-evicted n now s saved (pool_of saved live) h

-- A restore without a session, of a window that is still there, that nothing abandons or comes
-- between: within four steps more than the pool has tabs it ends, with a restored state as the
-- current one. That has the newest tabs of the window's pool, at most twelve, each a tab of the
-- window, the last of them active; the older ones were closed, and the public state is in storage.
pub restore_steps-IsRestored :
    (n : ℕ) (s : Session) (saved : SessionState) (live : List (Option ℕ)) (now : ℕ)
    → s.state ≡ none
    → length (pool_of saved live) ≤ n
    → (st : SessionState) × (out : Session) × (restore_steps
          (suc (suc (suc (suc n))))
          now
          s
          (starting (some saved) (some live))
        ≡ (out, ended))
      × (current out ≡ some (length s.objects, st))
      × IsRestored s out saved live st
unfolding evicted
restore_steps-IsRestored n s saved live now e h =
    let (here, is) = evicted-IsRestored s saved live now in
    (
      new_state saved live now,
      (evicted now s saved (pool_of saved live)).0,
      restore_steps-evicted n s saved live now e h,
      here,
      is,
    )
