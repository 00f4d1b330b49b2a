-- ===== src/Memo.antt =====
-- extension/src/memo.ts: a memoised attempt with an epoch fence.
--
-- A promise is a number; `run` takes the one that a new attempt would get. The waiters are counted
-- from 0: where the source's count falls below 0 the same call evicts the attempt and sets it to 0.
pub mod Fence
pub mod Sharing
mod Tests
use firefox_ctl.Base.{
  Bool, Option, false, if◌then◌else◌, ltb, nat_eq, none, some, suc, text_eq, true, ℕ, ◌-◌, ◌==◌,
}

pub record RestoreMemo : Type 0 where
  pub promise : Option ℕ
  pub generation : ℕ
  pub waiters : ℕ

unfoldable pub fresh_memo : RestoreMemo
fresh_memo = record { promise = none; generation = 0; waiters = 0 }

-- What `run` answers: the running attempt, or a new one with the epoch that it must stay inside.
pub data Attempt : Type 0 where
  shared : ℕ → Attempt
  started : ℕ → ℕ → Attempt

unfoldable pub join : RestoreMemo → Bool → RestoreMemo
join m tracked = record m { waiters = if tracked then suc m.waiters else m.waiters }

unfoldable pub begin : RestoreMemo → ℕ → Bool → RestoreMemo
begin m p tracked = record m { waiters = if tracked then 1 else 0; promise = some p }

unfoldable pub run : RestoreMemo → ℕ → Bool → RestoreMemo × Attempt
unfolding join begin
run m p tracked = elim m.promise [
  | some current ↦ (join m tracked, shared current)
  | none ↦ (begin m p tracked, started p m.generation)
]

unfoldable pub is_current : RestoreMemo → ℕ → Bool
is_current m epoch = epoch == m.generation

-- `this.promise === attempt`
abbrev pub holds : Option ℕ → ℕ → Bool
holds none p = false
holds (some q) p = q == p

-- Also what the handler of a failed attempt does.
unfoldable pub evict : RestoreMemo → ℕ → RestoreMemo
evict m p =
    if holds m.promise p
    then record { promise = none; generation = suc m.generation; waiters = 0 }
    else m

unfoldable pub abandon : RestoreMemo → ℕ → RestoreMemo × Bool
unfolding evict
abandon m p =
    let fewer : RestoreMemo = record m { waiters = m.waiters - 1 } in
    if holds m.promise p
    then (if ltb 0 (m.waiters - 1) then (fewer, false) else (evict fewer p, true))
    else (m, false)
