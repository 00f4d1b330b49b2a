-- ===== src/HarRecorder/Kept.antt =====
-- The HARs that extension/src/har-recorder.ts keeps of stopped tabs, and the timers of their expiry.
--
-- A HAR is the promise of it, a number that is new at each `keep`; `waiting` are the promises whose
-- `then` has not run, `timers` the timers of the environment that run, each with the tab that its
-- callback forgets.
pub mod Expiry
mod Tests
use firefox_ctl.Base.{
  Bool, List, Option, [], delete, false, if◌then◌else◌, insert, lookup, nat_beq, nat_eq, none, some,
  suc, text_eq, ℕ, ◌∷◌,
}

pub record KeptHars : Type 0 where
  pub stopped : List (ℕ × ℕ)
  pub expiries : List (ℕ × ℕ)
  pub timers : List (ℕ × ℕ)
  pub waiting : List (ℕ × ℕ)
  pub next_timer : ℕ
  pub next_promise : ℕ

unfoldable pub none_kept : KeptHars
none_kept = record {
  stopped = [];
  expiries = [];
  timers = [];
  waiting = [];
  next_timer = 0;
  next_promise = 0;
}

unfoldable pub forget : KeptHars → ℕ → KeptHars
forget k tab = elim (lookup tab k.expiries) [
  | none ↦ record k { stopped = delete tab k.stopped }
  | some timer ↦ record k {
    timers = delete timer k.timers;
    expiries = delete tab k.expiries;
    stopped = delete tab k.stopped;
  }
]

unfoldable pub keep : KeptHars → ℕ → KeptHars
unfolding forget
keep k tab =
    let after = forget k tab in
    record after {
      stopped = insert tab after.next_promise after.stopped;
      waiting = insert after.next_promise tab after.waiting;
      next_promise = suc after.next_promise;
    }

abbrev pub is_har : Option ℕ → ℕ → Bool
is_har none p = false
is_har (some q) p = nat_beq q p

-- `expire`, once the HAR is built or has failed.
unfoldable pub expire : KeptHars → ℕ → KeptHars
expire k p = elim (lookup p k.waiting) [
  | none ↦ k
  | some tab ↦
      let after : KeptHars = record k { waiting = delete p k.waiting } in
      if is_har (lookup tab k.stopped) p
      then record after {
        timers = insert k.next_timer tab k.timers;
        expiries = insert tab k.next_timer k.expiries;
        next_timer = suc k.next_timer;
      }
      else after
]

-- A timer fires.
unfoldable pub fire : KeptHars → ℕ → KeptHars
unfolding forget
fire k timer = elim (lookup timer k.timers) [
  | none ↦ k
  | some tab ↦ forget (record k { timers = delete timer k.timers }) tab
]

-- `forgets` is what `start` does to the HAR of its tab.
pub data Event : Type 0 where
  keeps forgets expires fires : ℕ → Event

unfoldable pub step : KeptHars → Event → KeptHars
unfolding forget keep expire fire
step k (keeps tab) = keep k tab
step k (forgets tab) = forget k tab
step k (expires p) = expire k p
step k (fires timer) = fire k timer

unfoldable pub play : KeptHars → List Event → KeptHars
unfolding step
play k [] = k
play k (e ∷ es) = play (step k e) es
