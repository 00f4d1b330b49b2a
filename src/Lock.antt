-- ===== src/Lock.antt =====
-- extension/src/lock.ts: the mutex of the commands that change session state.
--
-- A promise is a number and `resolved` tells which promises are resolved. A ticket is one call of
-- `acquire`: the promise that it awaits, the one that its release resolves, and how far it is. An
-- event is one turn of the event loop: a call of `acquire` up to its `await`, the return from that
-- `await`, or a call of the release function that it returned.
pub mod Invariant
pub mod Fairness
pub mod Tickets
mod Tests
use firefox_ctl.Base.{
  Bool, List, [], get_elem?, if◌then◌else◌, nat_eq, none, set, some, suc, text_eq, ℕ, ◌++◌, ◌==◌,
  ◌||◌, ◌∷◌,
}

pub data Phase : Type 0 where
  waiting held released : Phase

pub record Ticket : Type 0 where
  pub previous : ℕ
  pub own : ℕ
  pub phase : Phase

pub record StateLock : Type 0 where
  pub tail : ℕ
  pub next : ℕ
  pub resolved : ℕ → Bool
  pub tickets : List Ticket

pub data Event : Type 0 where
  acquires : Event
  resumes releases : ℕ → Event

-- `Promise.resolve()` is promise 0.
unfoldable pub initial : StateLock
initial = record { tail = 0; next = 1; resolved = λ p. p == 0; tickets = [] }

abbrev pub resolve : (ℕ → Bool) → ℕ → ℕ → Bool
resolve r p q = q == p || r q

unfoldable pub acquire : StateLock → StateLock
acquire s = record s {
  tail = s.next;
  next = suc s.next;
  tickets = s.tickets ++ record { previous = s.tail; own = s.next; phase = waiting } ∷ [];
}

-- `await previous` returns once that promise is resolved.
unfoldable pub resumed : (ℕ → Bool) → Ticket → Phase → Phase
resumed r t waiting = if r t.previous then held else waiting
resumed r t other = other

unfoldable pub resume : StateLock → ℕ → StateLock
resume s i = elim (get_elem? s.tickets i) [
  | none ↦ s
  | some t ↦ record s {
    tickets = set s.tickets i (record t { phase = resumed s.resolved t t.phase });
  }
]

-- `if (held) { held = false; release() }`
unfoldable pub release_phase : StateLock → ℕ → Ticket → Phase → StateLock
release_phase s i t held = record s {
  resolved = resolve s.resolved t.own;
  tickets = set s.tickets i (record t { phase = released });
}
release_phase s i t other = s

unfoldable pub release : StateLock → ℕ → StateLock
unfolding release_phase
release s i = elim (get_elem? s.tickets i) [ none ↦ s | some t ↦ release_phase s i t t.phase ]

pub step : StateLock → Event → StateLock
step s acquires = acquire s
step s (resumes i) = resume s i
step s (releases i) = release s i

pub run : StateLock → List Event → StateLock
run s [] = s
run s (e ∷ es) = run (step s e) es
