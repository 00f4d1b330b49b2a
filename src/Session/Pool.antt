-- ===== src/Session/Pool.antt =====
-- The pools of extension/src/session.ts, and what the session writes to storage.
use firefox_ctl.Base.{
  All, All-get, Bool-cases, List, Option, [], ap, arith, false, get_elem?, get_elem?-set, inl, inr,
  length, mem_beq, nat_eq, none, refl, set, some, subst, suc, sym, text_eq, true, ℕ, ◌<◌, ◌∙◌, ◌∷◌,
  ◌≡◌, ◌≤◌,
}
use firefox_ctl.Session.{
  Session, SessionState, at, current, max_tabs, persist, remove_first, to_store,
}
use firefox_ctl.Session.Steps.{Phase, adding, closing, grouping, idle}

abbrev pub Fits : SessionState → Type 0
Fits st = length st.tabs ≤ max_tabs

-- The object that a tab is about to join has room for it.
abbrev pub HasRoom : Option SessionState → Type 0
HasRoom none = Unit
HasRoom (some st) = length st.tabs < max_tabs

abbrev pub Waiting : Phase → List SessionState → Type 0
Waiting idle objects = Unit
Waiting (adding o) objects = HasRoom (get_elem? objects o)
Waiting (grouping o) objects = Unit
Waiting (closing o t) objects = Unit

abbrev pub IsPublic : Option SessionState → Type 0
IsPublic none = Unit
IsPublic (some st) = st.is_private ≡ false

-- No pool holds more tabs than fit, and no private state is in storage.
pub record Inv (p : Phase) (s : Session) : Type 0 where
  pub fits : All Fits s.objects
  pub room : Waiting p s.objects
  pub public : IsPublic s.stored

to_store-IsPublic : (c : Option (ℕ × SessionState)) → IsPublic (to_store c)
to_store-IsPublic none = tt
to_store-IsPublic (some c) = elim (Bool-cases c.1.is_private) [
  | inl e ↦ rw e tt
  | inr e ↦ rw e refl
]

pub persist-Inv :
    (p : Phase) (s : Session) → All Fits s.objects → Waiting p s.objects → Inv p (persist s)
unfolding persist
persist-Inv p s fits room = record {
  fits = fits;
  room = room;
  public = to_store-IsPublic (current s);
}

-- An object that is written with no more tabs than before.
set-HasRoom :
    (objects : List SessionState) (i o : ℕ) (st : SessionState)
    → length st.tabs < max_tabs
    → HasRoom (get_elem? objects o)
    → HasRoom (get_elem? (set objects i st) o)
set-HasRoom objects i o st lt h = elim (get_elem?-set objects i o st) [
  | inl e ↦ subst HasRoom (sym e) h
  | inr e ↦ subst HasRoom (sym e) lt
]

pub set-Waiting :
    (p : Phase) (objects : List SessionState) (i : ℕ) (st : SessionState)
    → length st.tabs < max_tabs
    → Waiting p objects
    → Waiting p (set objects i st)
set-Waiting idle objects i st lt h = tt
set-Waiting (adding o) objects i st lt h = set-HasRoom objects i o st lt h
set-Waiting (grouping o) objects i st lt h = tt
set-Waiting (closing o t) objects i st lt h = tt

pub length-remove_first :
    (t : ℕ) (ts : List ℕ) → mem_beq t ts ≡ true → suc (length (remove_first t ts)) ≡ length ts
unfolding remove_first
length-remove_first t [] m = cc
length-remove_first t (u ∷ us) m = ground (arith, length-remove_first t us)

pub length-remove_first_le : (t : ℕ) (ts : List ℕ) → length (remove_first t ts) ≤ length ts
unfolding remove_first
length-remove_first_le t [] = omega arith
length-remove_first_le t (u ∷ us) = ground (arith, length-remove_first_le t us)

at-get :
    (objects : List SessionState) (i o : ℕ) (m : Option SessionState) (st : SessionState)
    → get_elem? objects i ≡ m
    → at i m ≡ some (o, st)
    → get_elem? objects o ≡ some st
at-get objects i o none st g e = cc
at-get objects i o (some u) st g e =
    let place : i ≡ o = cc in
    let object : u ≡ st = cc in ap (get_elem? objects) (sym place) ∙ g ∙ ap some object

state-get :
    (state : Option ℕ) (objects : List SessionState) (o : ℕ) (st : SessionState)
    → elim state [ none ↦ none | some i ↦ at i (get_elem? objects i) ] ≡ some (o, st)
    → get_elem? objects o ≡ some st
state-get none objects o st e = cc
state-get (some i) objects o st e = at-get objects i o (get_elem? objects i) st refl e

pub current-get :
    (s : Session) (o : ℕ) (st : SessionState)
    → current s ≡ some (o, st)
    → get_elem? s.objects o ≡ some st
unfolding current
current-get s o st e = state-get s.state s.objects o st e

pub current-Fits :
    (s : Session) (o : ℕ) (st : SessionState)
    → All Fits s.objects
    → current s ≡ some (o, st)
    → Fits st
current-Fits s o st fits e = All-get Fits s.objects o st fits (current-get s o st e)
