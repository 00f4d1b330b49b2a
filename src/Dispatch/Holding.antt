-- ===== src/Dispatch/Holding.antt =====
-- Which command of extension/src/dispatch.ts holds which ticket of the lock.
use firefox_ctl.Base.{
  Bool, Bool-cases, Option, ap, arith, false, get_elem?, get_elem?-set_other, get_elem?-set_self,
  inl, inr, nat_beq, nat_beq_iff, none, refl, set, some, subst, sym, ℕ, ◌∙◌, ◌≡◌, ◌≢◌, ◌⊎◌,
}
use mathlib.Core.Bool.{false≢true}
use firefox_ctl.Lock.{Phase, StateLock, held, waiting}
use firefox_ctl.Lock.Invariant as Lock
use firefox_ctl.Lock.Tickets.{phase_at}
use firefox_ctl.Dispatch.{
  CommandRun, Dispatcher, Stage, finished, handling, is_state_command, locking, persisting,
  preparing, probing,
}

-- The ticket of a command.
abbrev pub ticket_of : Stage → Option ℕ
ticket_of (locking t) = some t
ticket_of (handling ticket) = ticket
ticket_of (persisting ticket response) = ticket
ticket_of other = none

-- A command that awaits the lock has a ticket that waits, one past it a ticket that holds; one that
-- went on without a ticket is no state command.
abbrev pub Fits : StateLock → Bool → Stage → Type 0
Fits l state (locking t) = phase_at l t ≡ some waiting
Fits l state (handling (some t)) = phase_at l t ≡ some held
Fits l state (persisting (some t) response) = phase_at l t ≡ some held
Fits l state (handling none) = state ≡ false
Fits l state (persisting none response) = state ≡ false
Fits l state other = Unit

abbrev pub RunFits : StateLock → CommandRun → Type 0
RunFits l r = Fits l (is_state_command r.command.command) r.stage

pub record Inv (d : Dispatcher) : Type 0 where
  pub lock : Lock.Inv d.lock
  pub fits : (i : ℕ) (r : CommandRun) → get_elem? d.runs i ≡ some r → RunFits d.lock r
  pub once :
      (i j t : ℕ) (r s : CommandRun)
      → get_elem? d.runs i ≡ some r
      → get_elem? d.runs j ≡ some s
      → ticket_of r.stage ≡ some t
      → ticket_of s.stage ≡ some t
      → i ≡ j

Fits-keeps :
    (l m : StateLock) (state : Bool) (s : Stage)
    → ((u : ℕ) (f : Phase) → ticket_of s ≡ some u → phase_at l u ≡ some f → phase_at m u ≡ some f)
    → Fits l state s
    → Fits m state s
Fits-keeps l m state (locking t) k h = k t waiting refl h
Fits-keeps l m state (handling (some t)) k h = k t held refl h
Fits-keeps l m state (persisting (some t) response) k h = k t held refl h
Fits-keeps l m state (handling none) k h = h
Fits-keeps l m state (persisting none response) k h = h
Fits-keeps l m state (preparing p) k h = h
Fits-keeps l m state probing k h = h
Fits-keeps l m state finished k h = h

-- The lock knows the ticket.
Fits-known :
    (l : StateLock) (state : Bool) (s : Stage) (t : ℕ)
    → ticket_of s ≡ some t
    → Fits l state s
    → phase_at l t ≢ none
Fits-known l state (locking u) t e h n = let same : u ≡ t = cc in cc
Fits-known l state (handling (some u)) t e h n = let same : u ≡ t = cc in cc
Fits-known l state (persisting (some u) response) t e h n = let same : u ≡ t = cc in cc
Fits-known l state (handling none) t e h n = cc
Fits-known l state (persisting none response) t e h n = cc
Fits-known l state (preparing p) t e h n = cc
Fits-known l state probing t e h n = cc
Fits-known l state finished t e h n = cc

-- What a turn of the run at k, from r to v, does to the lock.
pub record Turn (d : Dispatcher) (k : ℕ) (r v : CommandRun) (l : StateLock) : Type 0 where
  pub lock : Lock.Inv l
  pub here : get_elem? d.runs k ≡ some r
  pub others :
      (u : ℕ) (f : Phase)
      → ticket_of r.stage ≢ some u
      → phase_at d.lock u ≡ some f
      → phase_at l u ≡ some f
  pub own :
      (t : ℕ)
      → ticket_of v.stage ≡ some t
      → (ticket_of r.stage ≡ some t) ⊎ (phase_at d.lock t ≡ none)
  pub fits : RunFits l v

-- Where the run at an index comes from.
set_at :
    (d : Dispatcher) (k : ℕ) (r v : CommandRun)
    → get_elem? d.runs k ≡ some r
    → (i : ℕ) (s : CommandRun) → get_elem? (set d.runs k v) i ≡ some s
    → ((k ≡ i) × (v ≡ s)) ⊎ ((k ≢ i) × (get_elem? d.runs i ≡ some s))
set_at d k r v e i s f = elim (Bool-cases (nat_beq k i)) [
  | inl same ↦
      let at : k ≡ i = (nat_beq_iff k i).0 same in
      let found : get_elem? (set d.runs k v) i ≡ some v =
        subst (λ j. get_elem? (set d.runs k v) j ≡ some v) at (get_elem?-set_self d.runs k r v e) in
      inl (at, cc)
  | inr other ↦
      let apart : k ≢ i = λ at. false≢true (sym other ∙ (nat_beq_iff k i).1 at) in
      inr (apart, sym (get_elem?-set_other d.runs k i v apart) ∙ f)
]

module _ (d after : Dispatcher) (k : ℕ) (r v : CommandRun) (l : StateLock) (h : Inv d)
    (turn : Turn d k r v l) where
  -- Another run has another ticket.
  foreign :
      (i : ℕ) (s : CommandRun) (u : ℕ)
      → k ≢ i
      → get_elem? d.runs i ≡ some s
      → ticket_of s.stage ≡ some u
      → ticket_of v.stage ≢ some u
  foreign i s u n e t g = elim (turn.own u g) [
    | inl mine ↦ n (h.once k i u r s turn.here e mine t)
    | inr new ↦
        Fits-known d.lock (is_state_command s.command.command) s.stage u t (h.fits i s e) new
  ]

  fits_after : (i : ℕ) (s : CommandRun) → get_elem? (set d.runs k v) i ≡ some s → RunFits l s
  fits_after i s e = elim (set_at d k r v turn.here i s e) [
    | inl (at, same) ↦ subst (RunFits l) same turn.fits
    | inr (n, old) ↦
        Fits-keeps d.lock l (is_state_command s.command.command) s.stage
          (λ u f t. turn.others u f (λ g. n (h.once k i u r s turn.here old g t))) (h.fits i s old)
  ]

  once_after :
      (i j t : ℕ) (x y : CommandRun)
      → get_elem? (set d.runs k v) i ≡ some x
      → get_elem? (set d.runs k v) j ≡ some y
      → ticket_of x.stage ≡ some t
      → ticket_of y.stage ≡ some t
      → i ≡ j
  once_after i j t x y e f g m = elim (set_at d k r v turn.here i x e) [
    | inl (at, same) ↦ elim (set_at d k r v turn.here j y f) [
      | inl (at', same') ↦ omega (arith, at, at')
      | inr (n, old) ↦
          absurd (foreign j y t n old m (ap (λ (z : CommandRun). ticket_of z.stage) same ∙ g))
    ]
    | inr (n, old) ↦ elim (set_at d k r v turn.here j y f) [
      | inl (at', same') ↦
          absurd (foreign i x t n old g (ap (λ (z : CommandRun). ticket_of z.stage) same' ∙ m))
      | inr (n', old') ↦ h.once i j t x y old old' g m
    ]
  ]

  pub Turn-Inv : after.lock ≡ l → after.runs ≡ set d.runs k v → Inv after
  Turn-Inv e f = record {
    lock = subst Lock.Inv (sym e) turn.lock;
    fits = λ i s g.
        subst (λ m. RunFits m s) (sym e) (fits_after i s (ap (λ rs. get_elem? rs i) (sym f) ∙ g));
    once = λ i j t x y g m.
        once_after i j t x y (ap (λ rs. get_elem? rs i) (sym f) ∙ g)
          (ap (λ rs. get_elem? rs j) (sym f) ∙ m);
  }
