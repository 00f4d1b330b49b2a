-- ===== src/Lock/Tickets.antt =====
-- What the calls of extension/src/lock.ts do to each ticket.
use firefox_ctl.Base.{
  Bool, Bool-cases, List, Option, Option-cases, [], ap, get_elem?, get_elem?-append,
  get_elem?-length, get_elem?-set_other, get_elem?-set_self, inl, inr, length, none, refl, some,
  sym, ℕ, ◌∙◌, ◌∷◌, ◌≡◌, ◌≢◌, ◌⊎◌,
}
use firefox_ctl.Lock.{
  Phase, StateLock, Ticket, acquire, held, release, release_phase, released, resume, resumed,
  waiting,
}

abbrev pub phase_of : Option Ticket → Option Phase
phase_of none = none
phase_of (some k) = some k.phase

-- The phase of a ticket, if there is one.
abbrev pub phase_at : StateLock → ℕ → Option Phase
phase_at s t = phase_of (get_elem? s.tickets t)

-- The ticket behind a phase.
pub ticket_at :
    (s : StateLock) (t : ℕ) (f : Phase)
    → phase_at s t ≡ some f
    → (k : Ticket) × (get_elem? s.tickets t ≡ some k) × (k.phase ≡ f)
ticket_at s t f h = elim (Option-cases (get_elem? s.tickets t)) [
  | inl e ↦ absurd (none_some (sym (ap phase_of e) ∙ h))
  | inr (k, e) ↦ (k, e, inside (sym (ap phase_of e) ∙ h))
]
  where
    none_some : (none ≡ some f) → ⊥
    none_some e = cc

    inside : {g : Phase} → some g ≡ some f → g ≡ f
    inside e = cc

pub acquire-phase_at :
    (s : StateLock) (t : ℕ) (f : Phase) → phase_at s t ≡ some f → phase_at (acquire s) t ≡ some f
unfolding acquire
acquire-phase_at s t f h =
    let ticket = ticket_at s t f h in
    ap phase_of (get_elem?-append s.tickets _ t ticket.0 ticket.1) ∙ ap some ticket.2

pub acquire_new : (s : StateLock) → phase_at (acquire s) (length s.tickets) ≡ some waiting
unfolding acquire
acquire_new s = ap phase_of (get_elem?-length s.tickets _)

pub acquire_free : (s : StateLock) → phase_at s (length s.tickets) ≡ none
acquire_free s = ap phase_of (past s.tickets)
  where
    past : (ks : List Ticket) → get_elem? ks (length ks) ≡ none
    past [] = refl
    past (k ∷ ks) = past ks

pub resume-phase_at : (s : StateLock) (t u : ℕ) → t ≢ u → phase_at (resume s t) u ≡ phase_at s u
unfolding resume
resume-phase_at s t u n = elim (Option-cases (get_elem? s.tickets t)) [
  | inl e ↦ rw (e, resume) refl
  | inr (k, e) ↦ rw (e, resume) (ap phase_of (get_elem?-set_other s.tickets t u _ n))
]

resumed_waiting :
    (r : ℕ → Bool) (k : Ticket) (f : Phase)
    → f ≡ waiting
    → (resumed r k f ≡ waiting) ⊎ (resumed r k f ≡ held)
unfolding resumed
resumed_waiting r k waiting h = elim (Bool-cases (r k.previous)) [
  | inl done ↦ rw done (inr refl)
  | inr not_yet ↦ rw not_yet (inl refl)
]
resumed_waiting r k held h = cc
resumed_waiting r k released h = cc

pub resume_own :
    (s : StateLock) (t : ℕ)
    → phase_at s t ≡ some waiting
    → (phase_at (resume s t) t ≡ some waiting) ⊎ (phase_at (resume s t) t ≡ some held)
unfolding resume
resume_own s t h =
    let ticket = ticket_at s t waiting h in
    let after : phase_at (resume s t) t ≡ some (resumed s.resolved ticket.0 ticket.0.phase) =
      rw (ticket.1, resume) (ap phase_of (get_elem?-set_self s.tickets t ticket.0 _ ticket.1)) in
    elim (resumed_waiting s.resolved ticket.0 ticket.0.phase ticket.2) [
      | inl waits ↦ inl (after ∙ ap some waits)
      | inr enters ↦ inr (after ∙ ap some enters)
    ]

pub release-phase_at : (s : StateLock) (t u : ℕ) → t ≢ u → phase_at (release s t) u ≡ phase_at s u
unfolding release
release-phase_at s t u n = elim (Option-cases (get_elem? s.tickets t)) [
  | inl e ↦ rw (e, release) refl
  | inr (k, e) ↦ rw (e, release) (by_phase k k.phase)
]
  where
    by_phase : (k : Ticket) (f : Phase) → phase_at (release_phase s t k f) u ≡ phase_at s u
    by_phase k waiting = refl
    by_phase k held = ap phase_of (get_elem?-set_other s.tickets t u _ n)
    by_phase k released = refl
