-- ===== src/Session/Active.antt =====
-- The tab that `getSession` of extension/src/session.ts falls back to.
use firefox_ctl.Base.{
  Bool, Bool-cases, List, Option, Option-cases, [], ap, arith, eq_self, false, get_elem?,
  if◌then◌else◌, inl, inr, last?, last?-none, length, mem_beq, nat_eq, none, refl, some, subst, sym,
  text_eq, true, ℕ, ◌<◌, ◌∙◌, ◌∷◌, ◌≡◌, ◌≢◌,
}
use firefox_ctl.Session.{
  Session, SessionState, answer_tab, await_tab, choose_active, choose_session, chosen, get_session,
  is_at, tab_unavailable,
}

last?-mem_beq : (ts : List ℕ) (t : ℕ) → last? ts ≡ some t → mem_beq t ts ≡ true
last?-mem_beq [] t e = cc
last?-mem_beq (u ∷ []) t e = let same : u ≡ t = cc in rw same (rw (eq_self t) refl)
last?-mem_beq (u ∷ v ∷ ts) t e = ground (arith, last?-mem_beq (v ∷ ts) t e)

chosen-mem_beq :
    (active : Option ℕ) (ts : List ℕ) (t : ℕ) → chosen active ts ≡ some t → mem_beq t ts ≡ true
chosen-mem_beq none ts t e = last?-mem_beq ts t e
chosen-mem_beq (some a) ts t e = elim (Bool-cases (mem_beq a ts)) [
  | inl m ↦ let same : a ≡ t = cc in subst (λ u. mem_beq u ts ≡ true) same m
  | inr m ↦ last?-mem_beq ts t (subst (λ b. (if b then some a else last? ts) ≡ some t) m e)
]

chosen-none : (active : Option ℕ) (ts : List ℕ) → chosen active ts ≡ none → length ts ≡ 0
chosen-none none ts e = last?-none ts e
chosen-none (some a) ts e = elim (Bool-cases (mem_beq a ts)) [
  | inl m ↦ absurd (found a (subst (λ b. (if b then some a else last? ts) ≡ none) m e))
  | inr m ↦ last?-none ts (subst (λ b. (if b then some a else last? ts) ≡ none) m e)
]
  where
    found : (a : ℕ) → some a ≢ none
    found a e = cc

chosen-keeps :
    (active : Option ℕ) (ts : List ℕ) (t a : ℕ)
    → chosen active ts ≡ some t
    → active ≡ some a
    → mem_beq a ts ≡ true
    → t ≡ a
chosen-keeps none ts t a e same m = cc
chosen-keeps (some b) ts t a e same m =
    let at : b ≡ a = cc in
    let there : mem_beq b ts ≡ true = subst (λ u. mem_beq u ts ≡ true) (sym at) m in
    cc (subst (λ c. (if c then some b else last? ts) ≡ some t) there e)

chosen-falls_back :
    (active : Option ℕ) (ts : List ℕ) (t : ℕ)
    → chosen active ts ≡ some t
    → ((a : ℕ) → active ≡ some a → mem_beq a ts ≡ false)
    → last? ts ≡ some t
chosen-falls_back none ts t e gone = e
chosen-falls_back (some b) ts t e gone =
    subst (λ c. (if c then some b else last? ts) ≡ some t) (gone b refl) e

-- The tab of a pool that a command falls back to: the active one, or the last where the active one
-- is not of the pool.
pub record IsChoice (active : Option ℕ) (tabs : List ℕ) (t : ℕ) : Type 0 where
  pub of_pool : mem_beq t tabs ≡ true
  pub keeps : (a : ℕ) → active ≡ some a → mem_beq a tabs ≡ true → t ≡ a
  pub falls_back : ((a : ℕ) → active ≡ some a → mem_beq a tabs ≡ false) → last? tabs ≡ some t

choose_active_lem :
    (s : Session) (st : SessionState)
    → 0 < length st.tabs
    → (t : ℕ) × (choose_active s st ≡ (record s { active_tab_id = some t }, inr (st.window_id, t)))
      × IsChoice s.active_tab_id st.tabs t
unfolding choose_active
choose_active_lem s st some_tabs = elim (Option-cases (chosen s.active_tab_id st.tabs)) [
  | inl n ↦ absurd (ground (arith, chosen-none s.active_tab_id st.tabs n))
  | inr (t, a) ↦ (
    t,
    rw (a, choose_active) refl,
    record {
      of_pool = chosen-mem_beq s.active_tab_id st.tabs t a;
      keeps = λ b e m. chosen-keeps s.active_tab_id st.tabs t b a e m;
      falls_back = λ gone. chosen-falls_back s.active_tab_id st.tabs t a gone;
    },
  )
]

choose_session_lem :
    (s : Session) (o : ℕ) (st : SessionState)
    → s.state ≡ some o
    → get_elem? s.objects o ≡ some st
    → choose_session s o true ≡ choose_active s st
unfolding choose_session
choose_session_lem s o st here e =
    let same : is_at s.state o ≡ true = rw here (eq_self o) in rw (e, choose_session) (rw same refl)

-- While the window is there, the state is the one that the caller saw and its pool has tabs,
-- `getSession` makes a tab of the pool the active one, the active one before if that is of the pool
-- and else the last of the pool. Whatever happens to the session until the tab is looked up, it
-- then answers the window and that tab and changes nothing else, where the tab is there; where it
-- is not, no tab is active any more, nothing else has changed, and the error says so.
pub get_session_lem :
    (meanwhile : Session → Session) (s : Session) (o : ℕ) (st : SessionState) (tab_exists : Bool)
    → s.state ≡ some o
    → get_elem? s.objects o ≡ some st
    → 0 < length st.tabs
    → (t : ℕ) × IsChoice s.active_tab_id st.tabs t
      × (get_session meanwhile s o true tab_exists ≡ (
          if tab_exists
          then (meanwhile (record s { active_tab_id = some t }), inr (st.window_id, t))
          else (
            record (meanwhile (record s { active_tab_id = some t })) { active_tab_id = none },
            inl tab_unavailable,
          )))
unfolding get_session answer_tab
get_session_lem meanwhile s o st tab_exists here e some_tabs =
    let (t, a, choice) = choose_active_lem s st some_tabs in
    (t, choice, ap (await_tab meanwhile tab_exists) (choose_session_lem s o st here e ∙ a))
