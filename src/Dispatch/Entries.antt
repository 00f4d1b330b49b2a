-- ===== src/Dispatch/Entries.antt =====
-- A command of extension/src/dispatch.ts whose deadline has passed, and the calls of its handler.
use firefox_ctl.Base.{
  Bool, Bool-cases, List, Option, [], ap, false, filter, get_elem?, get_elem?-append,
  get_elem?-set_other, get_elem?-set_self, if◌then◌else◌, inl, inr, length, nat_beq, nat_beq_iff,
  refl, set, some, subst, suc, sym, true, ℕ, ◌++◌, ◌∙◌, ◌∷◌, ◌≡◌,
}
use firefox_ctl.Protocol.{ExtensionResponse}
use mathlib.Core.Bool.{false≢true}
use firefox_ctl.Dispatch.{CommandRun, Dispatcher, handling, put_run, settle}
use firefox_ctl.Dispatch.Steps.{enter}

-- How often the handler of a run was called.
unfoldable pub calls : ℕ → Dispatcher → ℕ
calls i d = length (filter (λ j. nat_beq j i) d.entered)

-- The run's deadline has passed.
pub record IsLate (i : ℕ) (d : Dispatcher) : Type 0 where
  pub run : CommandRun
  pub found : get_elem? d.runs i ≡ some run
  pub late : run.expired ≡ true

pub record Stays (i : ℕ) (d after : Dispatcher) : Type 0 where
  pub is_late : IsLate i after
  pub same_calls : calls i after ≡ calls i d

pub same-Stays :
    (i : ℕ) (d after : Dispatcher)
    → after.runs ≡ d.runs
    → after.entered ≡ d.entered
    → IsLate i d
    → Stays i d after
unfolding calls
same-Stays i d after e f h = record {
  is_late = record { run = h.run; found = ap (λ rs. get_elem? rs i) e ∙ h.found; late = h.late };
  same_calls = ap (λ js. length (filter (λ j. nat_beq j i) js)) f;
}

set-IsLate :
    (i j : ℕ) (d : Dispatcher) (r v : CommandRun)
    → get_elem? d.runs j ≡ some r
    → (r.expired ≡ true → v.expired ≡ true)
    → IsLate i d
    → IsLate i (put_run d j v)
set-IsLate i j d r v e keeps h = elim (Bool-cases (nat_beq j i)) [
  | inl same ↦
      let at : j ≡ i = (nat_beq_iff j i).0 same in
      let found : get_elem? d.runs j ≡ some h.run = ap (get_elem? d.runs) at ∙ h.found in
      let whose : r ≡ h.run = cc in
      record {
        run = v;
        found =
            subst (λ k. get_elem? (set d.runs j v) k ≡ some v) at
              (get_elem?-set_self d.runs j r v e);
        late = keeps (ap (λ (x : CommandRun). x.expired) whose ∙ h.late);
      }
  | inr other ↦ record {
    run = h.run;
    found =
        get_elem?-set_other d.runs j i v (λ at. false≢true (sym other ∙ (nat_beq_iff j i).1 at))
        ∙ h.found;
    late = h.late;
  }
]

pub set-Stays :
    (i j : ℕ) (d after : Dispatcher) (r v : CommandRun)
    → after.runs ≡ set d.runs j v
    → after.entered ≡ d.entered
    → get_elem? d.runs j ≡ some r
    → (r.expired ≡ true → v.expired ≡ true)
    → IsLate i d
    → Stays i d after
unfolding calls
set-Stays i j d after r v e f g keeps h =
    let s = same-Stays i (put_run d j v) after e f (set-IsLate i j d r v g keeps h) in
    record { is_late = s.is_late; same_calls = s.same_calls }

pub added :
    (i j : ℕ) (js : List ℕ)
    → nat_beq j i ≡ false
    → length (filter (λ k. nat_beq k i) (js ++ j ∷ [])) ≡ length (filter (λ k. nat_beq k i) js)
added i j [] n = rw n refl
added i j (k ∷ js) n = elim (Bool-cases (nat_beq k i)) [
  | inl same ↦ rw same (ap suc (added i j js n))
  | inr other ↦ rw other (added i j js n)
]

-- A handler is only called for a run in time.
pub enter-Stays :
    (i j : ℕ) (d : Dispatcher) (r : CommandRun) (ticket : Option ℕ) (s : CommandRun)
    → get_elem? d.runs j ≡ some s
    → s.expired ≡ r.expired
    → r.expired ≡ false
    → IsLate i d
    → Stays i d (enter d j r ticket)
unfolding calls enter
enter-Stays i j d r ticket s e same in_time h = elim (Bool-cases (nat_beq j i)) [
  | inl at ↦
      let found : get_elem? d.runs j ≡ some h.run =
        ap (get_elem? d.runs) ((nat_beq_iff j i).0 at) ∙ h.found in
      let whose : s ≡ h.run = cc in
      absurd
        (false≢true (sym in_time ∙ sym same ∙ ap (λ (x : CommandRun). x.expired) whose ∙ h.late))
  | inr other ↦ record {
    is_late =
        let l =
          set-IsLate i j d s (record r { stage = handling ticket }) e
            (λ k. absurd (false≢true (sym in_time ∙ sym same ∙ k))) h in
        record { run = l.run; found = l.found; late = l.late };
    same_calls = added i j d.entered other;
  }
]

pub if-Stays :
    (i : ℕ) (d : Dispatcher) (b : Bool) (x y : Dispatcher)
    → (b ≡ true → Stays i d x)
    → (b ≡ false → Stays i d y)
    → Stays i d (if b then x else y)
if-Stays i d true x y h k = h refl
if-Stays i d false x y h k = k refl

pub settle_keeps :
    (r : CommandRun) (response : ExtensionResponse)
    → r.expired ≡ true
    → (settle r response).expired ≡ true
unfolding settle
settle_keeps r response h = rw h refl

pub append-IsLate :
    (i : ℕ) (d after : Dispatcher) (r : CommandRun)
    → after.runs ≡ d.runs ++ r ∷ []
    → IsLate i d
    → IsLate i after
append-IsLate i d after r e h = record {
  run = h.run;
  found = ap (λ rs. get_elem? rs i) e ∙ get_elem?-append d.runs (r ∷ []) i h.run h.found;
  late = h.late;
}
