-- ===== src/Lock/Fairness.antt =====
-- The holders of the lock of extension/src/lock.ts: one at a time, and in the order of the calls.
use firefox_ctl.Base.{
  Bool, Bool-cases, List, Option-cases, [], ap, arith, false, get_elem?, get_elem?-set_self, inl,
  inr, none, refl, some, subst, suc, sym, true, zero, ℕ, ◌<◌, ◌∙◌, ◌∷◌, ◌≡◌, ◌≢◌, ◌⊎◌,
}
use firefox_ctl.Lock.{
  Event, Phase, StateLock, Ticket, held, initial, release, release_phase, released, resume, resumed,
  run, waiting,
}
use mathlib.Core.Bool.{false≢true}
use native.Mathlib.Decide.{dec_lt}
use firefox_ctl.Lock.Invariant.{Chain, Inv, Linked, initial-Inv, run-Inv}

Phase-cases : (f : Phase) → (f ≡ waiting) ⊎ (f ≢ waiting)
Phase-cases waiting = inl refl
Phase-cases held = inr (λ e. cc)
Phase-cases released = inr (λ e. cc)

Linked-waiting :
    (r : ℕ → Bool) (p : ℕ) (t : Ticket) → Linked r p t → r p ≡ false → t.phase ≡ waiting
Linked-waiting r p t l h = elim (Phase-cases t.phase) [
  | inl e ↦ e
  | inr ne ↦ absurd (false≢true (sym h ∙ l.entered ne))
]

Linked-next : (r : ℕ → Bool) (p : ℕ) (t : Ticket) → Linked r p t → r p ≡ false → r (suc p) ≡ false
Linked-next r p t l h = elim (Bool-cases (r (suc p))) [
  | inl e ↦ cc (l.unfreed e, Linked-waiting r p t l h)
  | inr e ↦ e
]

-- A ticket whose promise is not resolved keeps every later one waiting.
blocked :
    (r : ℕ → Bool) (p tail : ℕ) (ts : List Ticket) (i : ℕ) (t : Ticket)
    → Chain r p tail ts
    → r p ≡ false
    → get_elem? ts i ≡ some t
    → t.phase ≡ waiting
blocked r p tail [] i t c h e = cc
blocked r p tail (u ∷ ts) zero t (l, c) h e = cc (Linked-waiting r p u l h)
blocked r p tail (u ∷ ts) (suc i) t (l, c) h e =
    blocked r (suc p) tail ts i t c (Linked-next r p u l h) e

earlier_released :
    (r : ℕ → Bool) (p tail : ℕ) (ts : List Ticket) (i j : ℕ) (t u : Ticket)
    → Chain r p tail ts
    → i < j
    → get_elem? ts i ≡ some t
    → get_elem? ts j ≡ some u
    → u.phase ≢ waiting
    → t.phase ≡ released
earlier_released r p tail [] i j t u c h ei ej ne = cc
earlier_released r p tail (v ∷ ts) i zero t u c h ei ej ne = absurd (omega arith)
earlier_released r p tail (v ∷ ts) zero (suc j) t u (l, c) h ei ej ne =
    elim (Bool-cases (r (suc p))) [
      | inl e ↦ cc (l.unfreed e)
      | inr e ↦ absurd (ne (blocked r (suc p) tail ts j u c e ej))
    ]
earlier_released r p tail (v ∷ ts) (suc i) (suc j) t u (l, c) h ei ej ne =
    earlier_released r (suc p) tail ts i j t u c (omega arith) ei ej ne

awaited_resolved :
    (r : ℕ → Bool) (p tail : ℕ) (ts : List Ticket) (i : ℕ) (t : Ticket)
    → Chain r p tail ts
    → r p ≡ true
    → get_elem? ts i ≡ some t
    → ((j : ℕ) (u : Ticket) → j < i → get_elem? ts j ≡ some u → u.phase ≡ released)
    → r t.previous ≡ true
awaited_resolved r p tail [] i t c h e all = cc
awaited_resolved r p tail (v ∷ ts) zero t (l, c) h e all = cc l.awaits
awaited_resolved r p tail (v ∷ ts) (suc i) t (l, c) h e all =
    awaited_resolved r (suc p) tail ts i t c (l.freed (all 0 v (omega arith) refl)) e
      (λ j u lt k. all (suc j) u (omega arith) k)

-- After any events, a call that has entered the lock (it holds it or has released it) entered only
-- after every earlier call had released it.
pub run-fifo :
    (es : List Event) (i j : ℕ) (t u : Ticket)
    → i < j
    → get_elem? (run initial es).tickets i ≡ some t
    → get_elem? (run initial es).tickets j ≡ some u
    → u.phase ≢ waiting
    → t.phase ≡ released
run-fifo es i j t u = earlier_released _ 0 _ _ i j t u (run-Inv initial es initial-Inv).chain

-- In a lock that keeps its invariant, two calls that both hold it are the same call.
pub held_once :
    (s : StateLock) (i j : ℕ) (t u : Ticket)
    → Inv s
    → get_elem? s.tickets i ≡ some t
    → get_elem? s.tickets j ≡ some u
    → t.phase ≡ held
    → u.phase ≡ held
    → i ≡ j
held_once s i j t u v ei ej ht hu = elim (dec_lt i j) [
  | yes lt ↦ cc (earlier_released _ 0 _ _ i j t u v.chain lt ei ej (λ e. cc))
  | no ge ↦ elim (dec_lt j i) [
    | yes lt ↦ cc (earlier_released _ 0 _ _ j i u t v.chain lt ej ei (λ e. cc))
    | no le ↦ omega arith
  ]
]

-- After any events, two calls that both hold the lock are the same call.
pub run_exclusive :
    (es : List Event) (i j : ℕ) (t u : Ticket)
    → get_elem? (run initial es).tickets i ≡ some t
    → get_elem? (run initial es).tickets j ≡ some u
    → t.phase ≡ held
    → u.phase ≡ held
    → i ≡ j
run_exclusive es i j t u = held_once (run initial es) i j t u (run-Inv initial es initial-Inv)

resume_lem :
    (s : StateLock) (i : ℕ) (t : Ticket)
    → get_elem? s.tickets i ≡ some t
    → t.phase ≡ waiting
    → s.resolved t.previous ≡ true
    → get_elem? (resume s i).tickets i ≡ some (record t { phase = held })
unfolding resume resumed
resume_lem s i t e w r =
    rw (e, resume) (rw (w, resumed) (rw (r, resumed) (get_elem?-set_self s.tickets i t _ e)))

-- No call waits for ever on released ones: after any events, when every earlier call has released
-- the lock, the turn that returns from a waiting call's `await` gives it the lock.
pub resume_progress :
    (es : List Event) (i : ℕ) (t : Ticket)
    → get_elem? (run initial es).tickets i ≡ some t
    → t.phase ≡ waiting
    → ((j : ℕ) (u : Ticket)
        → j < i
        → get_elem? (run initial es).tickets j ≡ some u
        → u.phase ≡ released)
    → get_elem? (resume (run initial es) i).tickets i ≡ some (record t { phase = held })
resume_progress es i t e w all =
    let v = run-Inv initial es initial-Inv in
    resume_lem _ i t e w (awaited_resolved _ 0 _ _ i t v.chain v.first e all)

release_phase_again :
    (s : StateLock) (i : ℕ) (t : Ticket) (f : Phase)
    → get_elem? s.tickets i ≡ some t
    → t.phase ≡ f
    → release (release_phase s i t f) i ≡ release_phase s i t f
unfolding release release_phase
release_phase_again s i t held e h =
    rw (get_elem?-set_self s.tickets i t (record t { phase = released }) e, release) refl
release_phase_again s i t waiting e h = rw (e, release) (rw (h, release_phase) refl)
release_phase_again s i t released e h = rw (e, release) (rw (h, release_phase) refl)

release_lem :
    (s : StateLock) (i : ℕ) (t : Ticket)
    → get_elem? s.tickets i ≡ some t
    → release s i ≡ release_phase s i t t.phase
unfolding release
release_lem s i t e = rw (e, release) refl

release_missing : (s : StateLock) (i : ℕ) → get_elem? s.tickets i ≡ none → release s i ≡ s
unfolding release
release_missing s i e = rw (e, release) refl

-- Calling a release function again changes nothing.
pub release_again : (s : StateLock) (i : ℕ) → release (release s i) i ≡ release s i
release_again s i = elim (Option-cases (get_elem? s.tickets i)) [
  | inl e ↦ ap (λ x. release x i) (release_missing s i e)
  | inr (t, e) ↦
      subst (λ x. release x i ≡ x) (sym (release_lem s i t e))
        (release_phase_again s i t t.phase e refl)
]
