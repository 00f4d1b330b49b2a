-- ===== src/HarRecorder/Stream/Chunk.antt =====
-- What a stream of extension/src/har-recorder.ts keeps of its chunks.
use firefox_ctl.Base.{
  Bool, List, Option, Text, [], ap, append-nil, append_assoc, arith, false, inl, inr, length,
  length-append, ltb, min, refl, suc, sym, take, take-longer, take-past, take_all, true, zero, ℕ,
  ◌++◌, ◌+◌, ◌-◌, ◌∙◌, ◌∷◌, ◌≡◌, ◌≤◌, ◌⊎◌,
}
use firefox_ctl.HarRecorder.Stream.{Stream, add_chunk, kept_length, new_stream, store_chunk}

unfoldable pub concat : List (List ℕ) → List ℕ
concat [] = []
concat (xs ∷ xss) = xs ++ concat xss

concat-snoc : (xss : List (List ℕ)) (xs : List ℕ) → concat (xss ++ xs ∷ []) ≡ concat xss ++ xs
unfolding concat
concat-snoc [] xs = append-nil xs
concat-snoc (ys ∷ yss) xs =
    ap (λ zs. ys ++ zs) (concat-snoc yss xs) ∙ sym (append_assoc ys (concat yss) xs)

-- Nothing more will be stored of a stream with the limit and the budget given, or all was.
abbrev pub Blocked : ℕ → ℕ → Bool → Stream → Type 0
Blocked limit budget stopped s =
    (s.stored ≡ length (concat s.written)) ⊎ (limit ≤ s.stored) ⊎ (budget ≡ 0) ⊎ (stopped ≡ true)

-- The chunks of a body are the first bytes that the page got, at most the limit of them; and only
-- the limit, a spent budget or a stop leaves bytes out.
pub record IsPrefix (limit budget : ℕ) (stopped : Bool) (s : Stream) : Type 0 where
  pub bytes : concat s.body.chunks ≡ take s.stored (concat s.written)
  pub stored : s.stored ≤ length (concat s.written)
  pub within : s.stored ≤ limit
  pub blocked : Blocked limit budget stopped s

pub new_stream-IsPrefix :
    (limit budget : ℕ) (stopped : Bool) (thrown : Option Text)
    → IsPrefix limit budget stopped (new_stream thrown)
unfolding new_stream concat
new_stream-IsPrefix limit budget stopped thrown = record {
  bytes = refl;
  stored = omega arith;
  within = omega arith;
  blocked = inl refl;
}

-- A smaller budget, or a stop, keeps what holds.
pub IsPrefix-mono :
    (limit budget less : ℕ) (stopped stopped' : Bool) (s : Stream)
    → less ≤ budget
    → (stopped ≡ false) ⊎ (stopped' ≡ true)
    → IsPrefix limit budget stopped s
    → IsPrefix limit less stopped' s
IsPrefix-mono limit budget less stopped stopped' s le later p = record {
  bytes = p.bytes;
  stored = p.stored;
  within = p.within;
  blocked = ground (arith, p.blocked);
}

add_chunk-concat :
    (chunks : List (List ℕ)) (n : ℕ) (bytes : List ℕ)
    → concat (add_chunk chunks n bytes) ≡ concat chunks ++ take n bytes
unfolding concat
add_chunk-concat chunks zero bytes = sym (append-nil (concat chunks))
add_chunk-concat chunks (suc n) bytes =
    let positive : ltb 0 (suc n) ≡ true = ground arith in
    rw positive (concat-snoc chunks (take (suc n) bytes))

stored_bytes :
    (k n : ℕ) (before bytes chunks : List ℕ)
    → chunks ≡ take k before
    → k ≤ length before
    → (k ≡ length before) ⊎ (n ≡ 0)
    → chunks ++ take n bytes ≡ take (k + n) (before ++ bytes)
stored_bytes k n before bytes chunks e le (inl all) =
    ap (λ xs. xs ++ take n bytes) (e ∙ take_all k before (omega (arith, all)))
    ∙ sym (take-past n before bytes)
    ∙ ap (λ m. take m (before ++ bytes)) (omega (arith, all))
stored_bytes k n before bytes chunks e le (inr none_more) =
    ap (λ m. chunks ++ take m bytes) none_more
    ∙ append-nil chunks
    ∙ e
    ∙ take-longer k before bytes le
    ∙ ap (λ m. take m (before ++ bytes)) (omega (arith, none_more))

-- A chunk of which as much is stored as the limit and the budget allow.
pub store_chunk-IsPrefix :
    (limit budget : ℕ) (s : Stream) (bytes : List ℕ)
    → IsPrefix limit budget false s
    → IsPrefix limit
        (budget - kept_length limit budget s bytes)
        false
        (store_chunk s (kept_length limit budget s bytes) bytes)
unfolding store_chunk kept_length
store_chunk-IsPrefix limit budget s bytes p =
    let n = min (min (limit - s.stored) budget) (length bytes) in
    let longer = ap length (concat-snoc s.written bytes) ∙ length-append (concat s.written) bytes in
    record {
      bytes =
          add_chunk-concat s.body.chunks n bytes
          ∙ stored_bytes s.stored n (concat s.written) bytes (concat s.body.chunks) p.bytes p.stored
              (ground (arith, p.blocked))
          ∙ sym (ap (take (s.stored + n)) (concat-snoc s.written bytes));
      stored = omega (arith, longer, p.stored);
      within = omega (arith, p.within);
      blocked = ground (arith, longer, p.blocked, p.within);
    }

-- A chunk that arrives after the stop is passed on only.
pub pass_on-IsPrefix :
    (limit budget : ℕ) (s : Stream) (bytes : List ℕ)
    → IsPrefix limit budget true s
    → IsPrefix limit budget true (record s { written = s.written ++ bytes ∷ [] })
pass_on-IsPrefix limit budget s bytes p =
    let len = length-append (concat s.written) bytes in
    record {
      bytes =
          p.bytes
          ∙ (take-longer s.stored (concat s.written) bytes p.stored)
          ∙ sym (ap (take s.stored) (concat-snoc s.written bytes));
      stored = rw (concat-snoc s.written bytes) (omega (arith, p.stored, len));
      within = p.within;
      blocked = inr (inr (inr refl));
    }
