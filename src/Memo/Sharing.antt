-- ===== src/Memo/Sharing.antt =====
-- How many callers must give up on a shared attempt of extension/src/memo.ts.
use firefox_ctl.Base.{
  Bool, List, [], ap, arith, false, none, refl, some, suc, true, zero, ℕ, ◌+◌, ◌-◌, ◌<◌, ◌∙◌, ◌∷◌,
  ◌≡◌, ◌≤◌,
}
use firefox_ctl.Memo.{RestoreMemo, abandon, begin, run}

-- Later calls of `run`, each tracked or not, while an attempt is held.
unfoldable pub run_all : RestoreMemo → ℕ → List Bool → RestoreMemo
run_all m p [] = m
run_all m p (tracked ∷ ts) = run_all (run m p tracked).0 p ts

unfoldable pub abandon_times : ℕ → RestoreMemo → ℕ → RestoreMemo
abandon_times zero m p = m
abandon_times (suc k) m p = abandon_times k (abandon m p).0 p

abbrev pub tracked_count : List Bool → ℕ
tracked_count [] = 0
tracked_count (true ∷ ts) = suc (tracked_count ts)
tracked_count (false ∷ ts) = tracked_count ts

abbrev pub shared_by : ℕ → ℕ → ℕ → RestoreMemo
shared_by p g n = record { promise = some p; generation = g; waiters = n }

run_all-shared_by :
    (p g n q : ℕ) (ts : List Bool)
    → run_all (shared_by p g n) q ts ≡ shared_by p g (n + tracked_count ts)
unfolding run_all run
run_all-shared_by p g n q [] = ap (shared_by p g) (omega arith)
run_all-shared_by p g n q (true ∷ ts) =
    run_all-shared_by p g (suc n) q ts ∙ ap (shared_by p g) (omega arith)
run_all-shared_by p g n q (false ∷ ts) = run_all-shared_by p g n q ts

abandon_more : (p g n : ℕ) → 1 < n → (abandon (shared_by p g n) p).0 ≡ shared_by p g (n - 1)
unfolding abandon
abandon_more p g n h = ground arith

abandon_final :
    (p g n : ℕ)
    → n ≤ 1
    → abandon (shared_by p g n) p
      ≡ (record { promise = none; generation = suc g; waiters = 0 }, true)
unfolding abandon
abandon_final p g n h = ground arith

abandon_times-shared_by :
    (k p g n : ℕ) → k < n → abandon_times k (shared_by p g n) p ≡ shared_by p g (n - k)
unfolding abandon_times
abandon_times-shared_by zero p g n h = ap (shared_by p g) (omega arith)
abandon_times-shared_by (suc k) p g n h =
    ap (λ m. abandon_times k m p) (abandon_more p g n (omega arith))
    ∙ abandon_times-shared_by k p g (n - 1) (omega arith)
    ∙ ap (shared_by p g) (omega arith)

abandon_times_final :
    (p g n : ℕ)
    → abandon (abandon_times (n - 1) (shared_by p g n) p) p
      ≡ (record { promise = none; generation = suc g; waiters = 0 }, true)
unfolding abandon_times
abandon_times_final p g zero = abandon_final p g 0 (omega arith)
abandon_times_final p g (suc n) =
    ap (λ m. abandon m p) (abandon_times-shared_by (suc n - 1) p g (suc n) (omega arith))
    ∙ abandon_final p g _ (omega arith)

run-shared_by :
    (m : RestoreMemo) (p : ℕ) (first : Bool)
    → m.promise ≡ none
    → (run m p first).0 ≡ shared_by p m.generation (tracked_count (first ∷ []))
unfolding run begin
run-shared_by m p true e = rw (e, run) refl
run-shared_by m p false e = rw (e, run) refl

tracked_count-cons :
    (b : Bool) (ts : List Bool) → tracked_count (b ∷ []) + tracked_count ts ≡ tracked_count (b ∷ ts)
tracked_count-cons true ts = omega arith
tracked_count-cons false ts = omega arith

run_all-start :
    (m : RestoreMemo) (p q : ℕ) (first : Bool) (ts : List Bool)
    → m.promise ≡ none
    → run_all (run m p first).0 q ts ≡ shared_by p m.generation (tracked_count (first ∷ ts))
run_all-start m p q first ts e =
    ap (λ x. run_all x q ts) (run-shared_by m p first e)
    ∙ run_all-shared_by p m.generation (tracked_count (first ∷ [])) q ts
    ∙ ap (shared_by p m.generation) (tracked_count-cons first ts)

-- Let an attempt be started when the memo holds none, and then be shared by later calls of `run`.
-- With fewer abandons than there are tracked callers among all these, the memo still holds the
-- attempt, in the epoch that it was started with, and counts the tracked callers that are left.
pub run_all-abandon_times :
    (m : RestoreMemo) (p q k : ℕ) (first : Bool) (ts : List Bool)
    → m.promise ≡ none
    → k < tracked_count (first ∷ ts)
    → abandon_times k (run_all (run m p first).0 q ts) p
      ≡ shared_by p m.generation (tracked_count (first ∷ ts) - k)
run_all-abandon_times m p q k first ts e lt =
    ap (λ x. abandon_times k x p) (run_all-start m p q first ts e)
    ∙ abandon_times-shared_by k p m.generation _ lt

-- The abandon of the last tracked caller of such an attempt, or the first abandon if no caller is
-- tracked, answers true: the memo drops the attempt and moves on to the next epoch.
pub run_all-abandon_last :
    (m : RestoreMemo) (p q : ℕ) (first : Bool) (ts : List Bool)
    → m.promise ≡ none
    → abandon (abandon_times (tracked_count (first ∷ ts) - 1) (run_all (run m p first).0 q ts) p) p
      ≡ (record { promise = none; generation = suc m.generation; waiters = 0 }, true)
run_all-abandon_last m p q first ts e =
    ap (λ x. abandon (abandon_times (tracked_count (first ∷ ts) - 1) x p) p)
      (run_all-start m p q first ts e)
    ∙ abandon_times_final p m.generation (tracked_count (first ∷ ts))
