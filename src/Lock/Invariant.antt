-- ===== src/Lock/Invariant.antt =====
-- What the promises and the tickets of extension/src/lock.ts have to do with each other.
use firefox_ctl.Base.{
  Bool, List, Option-cases, [], ap, arith, false, get_elem?, inl, inr, refl, set, some, subst, suc,
  sym, true, zero, ℕ, ◌++◌, ◌+◌, ◌<◌, ◌∙◌, ◌∷◌, ◌≡◌, ◌≢◌, ◌≤◌,
}
use firefox_ctl.Lock.{
  Event, Phase, StateLock, Ticket, acquire, acquires, held, initial, release, release_phase,
  released, releases, resolve, resume, resumed, resumes, run, step, waiting,
}

-- What ticket number p has to do with the promises p (awaited) and p + 1 (its own).
pub record Linked (r : ℕ → Bool) (p : ℕ) (t : Ticket) : Type 0 where
  pub awaits : t.previous ≡ p
  pub owns : t.own ≡ suc p
  pub freed : t.phase ≡ released → r (suc p) ≡ true
  pub unfreed : r (suc p) ≡ true → t.phase ≡ released
  pub entered : t.phase ≢ waiting → r p ≡ true

abbrev pub Chain : (ℕ → Bool) → ℕ → ℕ → List Ticket → Type 0
Chain r p tail [] = (tail ≡ p) × ((q : ℕ) → p < q → r q ≡ false)
Chain r p tail (t ∷ ts) = Linked r p t × Chain r (suc p) tail ts

pub record Inv (s : StateLock) : Type 0 where
  pub chain : Chain s.resolved 0 s.tail s.tickets
  pub first : s.resolved 0 ≡ true
  pub fresh : s.next ≡ suc s.tail

pub initial-Inv : Inv initial
unfolding initial
initial-Inv = record { chain = (refl, λ q h. ground arith); first = refl; fresh = refl }

Chain-acquire :
    (r : ℕ → Bool) (p tail : ℕ) (ts : List Ticket)
    → Chain r p tail ts
    → Chain r p (suc tail) (ts ++ record { previous = tail; own = suc tail; phase = waiting } ∷ [])
Chain-acquire r p tail [] (e, later) = (
  record {
    awaits = e;
    owns = ap suc e;
    freed = λ h. cc;
    unfreed = λ h. cc (later (suc p) (omega arith));
    entered = λ h. absurd (h refl);
  },
  (ap suc e, λ q h. later q (omega arith)),
)
Chain-acquire r p tail (t ∷ ts) (l, c) = (l, Chain-acquire r (suc p) tail ts c)

resumed-released : (r : ℕ → Bool) (t : Ticket) (f : Phase) → resumed r t f ≡ released → f ≡ released
unfolding resumed
resumed-released r t waiting h = ground arith
resumed-released r t held h = h
resumed-released r t released h = h

resumed_keeps : (r : ℕ → Bool) (t : Ticket) (f : Phase) → f ≡ released → resumed r t f ≡ released
unfolding resumed
resumed_keeps r t f h = rw h refl

resumed-entered :
    (r : ℕ → Bool) (t : Ticket) (f : Phase)
    → (f ≢ waiting → r t.previous ≡ true)
    → resumed r t f ≢ waiting
    → r t.previous ≡ true
unfolding resumed
resumed-entered r t waiting k h = ground arith
resumed-entered r t held k h = k h
resumed-entered r t released k h = k h

Chain-resume :
    (r : ℕ → Bool) (p tail : ℕ) (ts : List Ticket) (i : ℕ) (t : Ticket)
    → get_elem? ts i ≡ some t
    → Chain r p tail ts
    → Chain r p tail (set ts i (record t { phase = resumed r t t.phase }))
Chain-resume r p tail [] i t e c = c
Chain-resume r p tail (u ∷ ts) zero t e (l, c) =
    let same : u ≡ t = cc in
    let l' : Linked r p t = subst (Linked r p) same l in
    let awaits' : t.previous ≡ p = l'.awaits in
    (
      record {
        awaits = l'.awaits;
        owns = l'.owns;
        freed = λ h. l'.freed (resumed-released r t t.phase h);
        unfreed = λ h. resumed_keeps r t t.phase (l'.unfreed h);
        entered =
            λ h. rw (← awaits') (resumed-entered r t t.phase (λ k. rw awaits' (l'.entered k)) h);
      },
      c,
    )
Chain-resume r p tail (u ∷ ts) (suc i) t e (l, c) = (l, Chain-resume r (suc p) tail ts i t e c)

Linked-resolve :
    (r : ℕ → Bool) (p k : ℕ) (t : Ticket) → k ≢ suc p → Linked r p t → Linked (resolve r k) p t
Linked-resolve r p k t ne l = record {
  awaits = l.awaits;
  owns = l.owns;
  freed = λ h. ground (arith, l.freed h);
  unfreed = λ h. l.unfreed (ground arith);
  entered = λ h. ground (arith, l.entered h);
}

Chain-resolve :
    (r : ℕ → Bool) (p tail k : ℕ) (ts : List Ticket)
    → k ≤ p
    → Chain r p tail ts
    → Chain (resolve r k) p tail ts
Chain-resolve r p tail k [] h (e, later) = (e, λ q lt. ground (arith, later q lt))
Chain-resolve r p tail k (t ∷ ts) h (l, c) =
    (Linked-resolve r p k t (omega arith) l, Chain-resolve r (suc p) tail k ts (omega arith) c)

own_at :
    (r : ℕ → Bool) (p tail : ℕ) (ts : List Ticket) (i : ℕ) (t : Ticket)
    → get_elem? ts i ≡ some t
    → Chain r p tail ts
    → t.own ≡ suc (p + i)
own_at r p tail [] i t e c = cc
own_at r p tail (u ∷ ts) zero t e (l, c) =
    let same : u ≡ t = cc in ap (λ (x : Ticket). x.own) (sym same) ∙ l.owns ∙ omega arith
own_at r p tail (u ∷ ts) (suc i) t e (l, c) = omega (arith, own_at r (suc p) tail ts i t e c)

Chain-release :
    (r : ℕ → Bool) (p tail : ℕ) (ts : List Ticket) (i : ℕ) (t : Ticket)
    → get_elem? ts i ≡ some t
    → t.phase ≡ held
    → Chain r p tail ts
    → Chain (resolve r t.own) p tail (set ts i (record t { phase = released }))
Chain-release r p tail [] i t e h c = cc
Chain-release r p tail (u ∷ ts) zero t e h (l, c) =
    let same : u ≡ t = cc in
    let l' : Linked r p t = subst (Linked r p) same l in
    let owns' : t.own ≡ suc p = l'.owns in
    (
      record {
        awaits = l'.awaits;
        owns = owns';
        freed = λ k. ground arith;
        unfreed = λ k. refl;
        entered = λ k. ground (arith, l'.entered (λ w. cc));
      },
      Chain-resolve r (suc p) tail t.own ts (omega arith) c,
    )
Chain-release r p tail (u ∷ ts) (suc i) t e h (l, c) = (
  Linked-resolve r p t.own u (omega (arith, own_at r (suc p) tail ts i t e c)) l,
  Chain-release r (suc p) tail ts i t e h c,
)

pub acquire-Inv : (s : StateLock) → Inv s → Inv (acquire s)
unfolding acquire
acquire-Inv s v = record {
  chain = rw (v.fresh) (Chain-acquire s.resolved 0 s.tail s.tickets v.chain);
  first = v.first;
  fresh = refl;
}

pub resume-Inv : (s : StateLock) (i : ℕ) → Inv s → Inv (resume s i)
unfolding resume
resume-Inv s i v = elim (Option-cases (get_elem? s.tickets i)) [
  | inl e ↦ rw (e, resume) v
  | inr (t, e) ↦
      rw (e, resume)
        (record {
          chain = Chain-resume s.resolved 0 s.tail s.tickets i t e v.chain;
          first = v.first;
          fresh = v.fresh;
        })
]

release_phase-Inv :
    (s : StateLock) (i : ℕ) (t : Ticket) (f : Phase)
    → get_elem? s.tickets i ≡ some t
    → t.phase ≡ f
    → Inv s
    → Inv (release_phase s i t f)
unfolding release_phase
release_phase-Inv s i t held e h v = record {
  chain = Chain-release s.resolved 0 s.tail s.tickets i t e h v.chain;
  first = ground (arith, v.first);
  fresh = v.fresh;
}
release_phase-Inv s i t _ e h v = v

pub release-Inv : (s : StateLock) (i : ℕ) → Inv s → Inv (release s i)
unfolding release
release-Inv s i v = elim (Option-cases (get_elem? s.tickets i)) [
  | inl e ↦ rw (e, release) v
  | inr (t, e) ↦ rw (e, release) (release_phase-Inv s i t t.phase e refl v)
]

step-Inv : (s : StateLock) (e : Event) → Inv s → Inv (step s e)
unfolding step
step-Inv s acquires v = acquire-Inv s v
step-Inv s (resumes i) v = resume-Inv s i v
step-Inv s (releases i) v = release-Inv s i v

pub run-Inv : (s : StateLock) (es : List Event) → Inv s → Inv (run s es)
unfolding run
run-Inv s [] v = v
run-Inv s (e ∷ es) v = run-Inv (step s e) es (step-Inv s e v)
