-- ===== src/Memo/Tests.antt =====
-- Runs of the memo of extension/src/memo.ts, and the theorems at concrete runs.
use firefox_ctl.Base.{List, Memᴰ, [], arith, false, none, refl, some, true, ◌∷◌, ◌≡◌}
use firefox_ctl.Memo.{abandon, begin, evict, fresh_memo, is_current, join, run}
use firefox_ctl.Memo.Fence.{
  Call, abandons, dropped-is_current, empty, fails, perform, perform_all, runs,
}
use firefox_ctl.Memo.Sharing.{abandon_times, run_all, run_all-abandon_last, run_all-abandon_times}

memo : Unit {0}
unfolding perform_all perform run join begin abandon evict empty fresh_memo run_all abandon_times
memo = tt

-- Attempt 0 fails, attempt 1 is started in epoch 1 and shared, and one of its callers gives up.
abbrev calls : List Call
calls = runs true ∷ fails 0 ∷ runs true ∷ runs true ∷ abandons 1 ∷ []

calls_memo :
    (perform_all empty calls).memo ≡ record { promise = some 1; generation = 1; waiters = 1 }
unfolding memo
calls_memo = refl

dropped-is_current_example :
    is_current (perform_all (perform_all empty calls) (abandons 1 ∷ runs false ∷ [])).memo 0 ≡ false
unfolding memo
dropped-is_current_example =
    dropped-is_current calls (abandons 1 ∷ runs false ∷ []) 0 0 (Memᴰ.tail (Memᴰ.head refl))
      (λ e. ground arith)

run_all-abandon_times_example :
    abandon_times 1 (run_all (run fresh_memo 7 true).0 8 (false ∷ true ∷ [])) 7
    ≡ record { promise = some 7; generation = 0; waiters = 1 }
unfolding memo
run_all-abandon_times_example =
    run_all-abandon_times fresh_memo 7 8 1 true (false ∷ true ∷ []) refl (omega arith)

run_all-abandon_last_example :
    abandon (abandon_times 1 (run_all (run fresh_memo 7 true).0 8 (false ∷ true ∷ [])) 7) 7
    ≡ (record { promise = none; generation = 1; waiters = 0 }, true)
unfolding memo
run_all-abandon_last_example = run_all-abandon_last fresh_memo 7 8 true (false ∷ true ∷ []) refl
