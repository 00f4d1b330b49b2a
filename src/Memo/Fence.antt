-- ===== src/Memo/Fence.antt =====
-- The epoch fence of extension/src/memo.ts over every order of calls.
use firefox_ctl.Base.{
  All, All_at, Bool, List, Memᴰ, Option-cases, [], arith, false, inl, inr, nat_eq, ne_of_neq, none,
  refl, some, suc, sym, text_eq, true, ℕ, ◌<◌, ◌∙◌, ◌∷◌, ◌≡◌, ◌≢◌, ◌≤◌,
}
use firefox_ctl.Memo.{
  Attempt, RestoreMemo, abandon, begin, evict, fresh_memo, is_current, join, run, shared, started,
}

-- A call of the memo. A failure is that of the attempt with this promise.
pub data Call : Type 0 where
  runs : Bool → Call
  abandons fails : ℕ → Call

-- The memo, the next unused promise, and the attempts that were started with their epochs.
pub record History : Type 0 where
  pub memo : RestoreMemo
  pub next : ℕ
  pub attempts : List (ℕ × ℕ)

unfoldable pub empty : History
empty = record { memo = fresh_memo; next = 0; attempts = [] }

record_attempt : History → RestoreMemo → Attempt → History
record_attempt h m (shared p) = record h { memo = m }
record_attempt h m (started p epoch) = record {
  memo = m;
  next = suc h.next;
  attempts = (p, epoch) ∷ h.attempts;
}

unfoldable pub perform : History → Call → History
unfolding record_attempt
perform h (runs tracked) = let (m, a) = run h.memo h.next tracked in record_attempt h m a
perform h (abandons p) = record h { memo = (abandon h.memo p).0 }
perform h (fails p) = record h { memo = evict h.memo p }

unfoldable pub perform_all : History → List Call → History
perform_all h [] = h
perform_all h (c ∷ cs) = perform_all (perform h c) cs

-- An attempt is below the next promise, its epoch has been reached, and only the attempt that the
-- memo holds has a current epoch.
abbrev Fenced : RestoreMemo → ℕ → ℕ × ℕ → Type 0
Fenced m next (p, epoch) =
    (p < next) × (epoch ≤ m.generation) × (epoch ≡ m.generation → m.promise ≡ some p)

record Inv (h : History) : Type 0 where
  fenced : All (Fenced h.memo h.next) h.attempts
  known : (p : ℕ) → h.memo.promise ≡ some p → p < h.next

All-Fenced :
    (m m' : RestoreMemo) (n n' : ℕ) (xs : List (ℕ × ℕ))
    → n ≤ n'
    → m.generation ≤ m'.generation
    → (m.generation ≡ m'.generation → (p : ℕ) → m.promise ≡ some p → m'.promise ≡ some p)
    → All (Fenced m n) xs
    → All (Fenced m' n') xs
All-Fenced m m' n n' [] hn hg keep h = tt
All-Fenced m m' n n' ((p, e) ∷ xs) hn hg keep ((lt, le, cur), h) = (
  (
    omega arith,
    omega arith,
    λ q. let same : m.generation ≡ m'.generation = omega arith in keep same p (cur (q ∙ sym same)),
  ),
  All-Fenced m m' n n' xs hn hg keep h,
)

-- A call that starts no attempt: the generation grows, or the promise is kept.
record Follows (m m' : RestoreMemo) : Type 0 where
  grows : m.generation ≤ m'.generation
  keeps : m.generation ≡ m'.generation → (p : ℕ) → m.promise ≡ some p → m'.promise ≡ some p
  known : (p : ℕ) → m'.promise ≡ some p → m.promise ≡ some p

Follows-Inv :
    (h : History) (m : RestoreMemo) → Inv h → Follows h.memo m → Inv (record h { memo = m })
Follows-Inv h m v f = record {
  fenced = All-Fenced h.memo m h.next h.next h.attempts (omega arith) f.grows f.keeps v.fenced;
  known = λ p e. v.known p (f.known p e);
}

join-Follows : (m : RestoreMemo) (tracked : Bool) → Follows m (join m tracked)
unfolding join
join-Follows m tracked = record { grows = omega arith; keeps = λ g p e. e; known = λ p e. e }

evict-Follows : (m : RestoreMemo) (p : ℕ) → Follows m (evict m p)
unfolding evict
evict-Follows m p = record {
  grows = ground arith;
  keeps = λ g q e. ground arith;
  known = λ q e. ground arith;
}

abandon-Follows : (m : RestoreMemo) (p : ℕ) → Follows m (abandon m p).0
unfolding abandon
abandon-Follows m p = record {
  grows = ground arith;
  keeps = λ g q e. ground arith;
  known = λ q e. ground arith;
}

started-Inv :
    (h : History) (tracked : Bool)
    → h.memo.promise ≡ none
    → Inv h
    → Inv (record_attempt h (begin h.memo h.next tracked) (started h.next h.memo.generation))
unfolding record_attempt begin
started-Inv h tracked e v = record {
  fenced = (
    (omega arith, omega arith, λ g. refl),
    All-Fenced h.memo (begin h.memo h.next tracked) h.next (suc h.next) h.attempts (omega arith)
        (omega arith) (λ g p k. cc) v.fenced,
  );
  known = λ p k. ground arith;
}

run-Inv : (h : History) (tracked : Bool) → Inv h → Inv (perform h (runs tracked))
unfolding perform run record_attempt
run-Inv h tracked v = elim (Option-cases h.memo.promise) [
  | inr (p, e) ↦ rw (e, run) (Follows-Inv h (join h.memo tracked) v (join-Follows h.memo tracked))
  | inl e ↦ rw (e, run) (started-Inv h tracked e v)
]

perform-Inv : (h : History) (c : Call) → Inv h → Inv (perform h c)
unfolding perform
perform-Inv h (runs tracked) v = run-Inv h tracked v
perform-Inv h (abandons p) v = Follows-Inv h _ v (abandon-Follows h.memo p)
perform-Inv h (fails p) v = Follows-Inv h _ v (evict-Follows h.memo p)

perform_all-Inv : (h : History) (cs : List Call) → Inv h → Inv (perform_all h cs)
unfolding perform_all
perform_all-Inv h [] v = v
perform_all-Inv h (c ∷ cs) v = perform_all-Inv (perform h c) cs (perform-Inv h c v)

empty-Inv : Inv empty
unfolding empty fresh_memo
empty-Inv = record { fenced = tt; known = λ p e. cc }

perform_grows : (h : History) (c : Call) → h.memo.generation ≤ (perform h c).memo.generation
unfolding perform run record_attempt join begin
perform_grows h (runs tracked) = ground arith
perform_grows h (abandons p) = (abandon-Follows h.memo p).grows
perform_grows h (fails p) = (evict-Follows h.memo p).grows

perform_all_grows :
    (h : History) (cs : List Call) → h.memo.generation ≤ (perform_all h cs).memo.generation
unfolding perform_all
perform_all_grows h [] = omega arith
perform_all_grows h (c ∷ cs) = omega (arith, perform_grows h c, perform_all_grows (perform h c) cs)

-- After any calls, an attempt whose epoch is current is the one that the memo holds.
pub current-promise :
    (cs : List Call) (p epoch : ℕ)
    → Memᴰ (p, epoch) (perform_all empty cs).attempts
    → is_current (perform_all empty cs).memo epoch ≡ true
    → (perform_all empty cs).memo.promise ≡ some p
unfolding is_current
current-promise cs p epoch m c =
    let v = perform_all-Inv empty cs empty-Inv in
    let h = perform_all empty cs in
    let f = All_at (Fenced h.memo h.next) h.attempts v.fenced m in f.2 (ground arith)

-- Once the memo no longer holds an attempt that was started, its epoch is not current, then and
-- after any later calls.
pub dropped-is_current :
    (cs ds : List Call) (p epoch : ℕ)
    → Memᴰ (p, epoch) (perform_all empty cs).attempts
    → (perform_all empty cs).memo.promise ≢ some p
    → is_current (perform_all (perform_all empty cs) ds).memo epoch ≡ false
unfolding is_current
dropped-is_current cs ds p epoch m gone =
    let h = perform_all empty cs in
    let v = perform_all-Inv empty cs empty-Inv in
    let f = All_at (Fenced h.memo h.next) h.attempts v.fenced m in
    let grown : h.memo.generation ≤ (perform_all h ds).memo.generation = perform_all_grows h ds in
    let passed : epoch ≢ h.memo.generation = λ e. gone (f.2 e) in
    ne_of_neq epoch _ (omega (arith, f.1))
