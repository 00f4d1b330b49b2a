-- ===== src/HarRecorder/Body/Cut.antt =====
-- How much of a request's body extension/src/har-recorder.ts keeps.
use firefox_ctl.Base.{
  Bool, List, Option-cases, [], ap, arith, false, inl, inr, length, length-append, ltb, min, sym,
  take, take-append, take-min, take-nil, ℕ, ◌++◌, ◌+◌, ◌-◌, ◌||◌, ◌∙◌, ◌∷◌, ◌≡◌, ◌≤◌,
}
use firefox_ctl.HarRecorder.Body.{UploadData, cut_part, cut_raw, part_bytes, raw_loop, raw_of}

unfoldable pub all_bytes : List UploadData → List ℕ
all_bytes [] = []
all_bytes (part ∷ rest) = part_bytes part ++ all_bytes rest

part_bytes-cut_part :
    (part : UploadData) (room : ℕ) → part_bytes (cut_part part room) ≡ take room (part_bytes part)
unfolding part_bytes cut_part
part_bytes-cut_part part room = elim (Option-cases part.bytes) [
  | inl e ↦ rw (e, cut_part) (sym (take-nil room))
  | inr (bytes, e) ↦ rw (e, cut_part) (take-min room bytes)
]

raw_loop-all_bytes :
    (limit : ℕ) (raw : List UploadData) (used : ℕ) (cut : Bool)
    → all_bytes (raw_loop limit raw used cut).0 ≡ take (limit - used) (all_bytes raw)
unfolding raw_loop all_bytes
raw_loop-all_bytes limit [] used cut = sym (take-nil (limit - used))
raw_loop-all_bytes limit (part ∷ rest) used cut =
    let bytes = part_bytes part in
    let room = limit - used in
    let kept = min room (length bytes) in
    ap
      (λ xs. xs ++ all_bytes (raw_loop limit rest (used + kept) (cut || ltb kept (length bytes))).0)
      (part_bytes-cut_part part room)
    ∙ ap (λ ys. take room bytes ++ ys)
        (raw_loop-all_bytes limit rest (used + kept) (cut || ltb kept (length bytes)))
    ∙ ap (λ k. take room bytes ++ take k (all_bytes rest)) (left_over limit used (length bytes))
    ∙ sym (take-append room bytes (all_bytes rest))
  where
    left_over : (limit used n : ℕ) → limit - (used + min (limit - used) n) ≡ limit - used - n
    left_over limit used n = omega arith

raw_loop-used :
    (limit : ℕ) (raw : List UploadData) (used : ℕ) (cut : Bool)
    → used ≤ limit
    → (raw_loop limit raw used cut).1 ≡ used + min (limit - used) (length (all_bytes raw))
unfolding raw_loop all_bytes
raw_loop-used limit [] used cut le = omega arith
raw_loop-used limit (part ∷ rest) used cut le =
    let kept = min (limit - used) (length (part_bytes part)) in
    rw (length-append (part_bytes part) (all_bytes rest)) (
      omega (
        arith,
        raw_loop-used limit rest (used + kept) (cut || ltb kept (length (part_bytes part)))
            (omega arith),
      ))

raw_loop-cut :
    (limit : ℕ) (raw : List UploadData) (used : ℕ) (cut : Bool)
    → used ≤ limit
    → (raw_loop limit raw used cut).2 ≡ (cut || ltb (limit - used) (length (all_bytes raw)))
unfolding raw_loop all_bytes
raw_loop-cut limit [] used cut le = ground arith
raw_loop-cut limit (part ∷ rest) used cut le =
    let kept = min (limit - used) (length (part_bytes part)) in
    rw (length-append (part_bytes part) (all_bytes rest)) (
      ground (
        arith,
        raw_loop-cut limit rest (used + kept) (cut || ltb kept (length (part_bytes part)))
            (omega arith),
      ))

-- Of an upload's parts, `cutRaw` keeps the first bytes, as many as the limit allows, uses exactly
-- as much of the limit as it keeps, and says that it cut when there were more.
pub cut_raw_lem :
    (raw : List UploadData) (limit : ℕ)
    → (all_bytes (raw_of (cut_raw raw limit).body.raw) ≡ take limit (all_bytes raw))
      × ((cut_raw raw limit).used ≡ min limit (length (all_bytes raw)))
      × ((cut_raw raw limit).cut ≡ ltb limit (length (all_bytes raw)))
unfolding cut_raw
cut_raw_lem raw limit = (
  raw_loop-all_bytes limit raw 0 false ∙ ap (λ k. take k (all_bytes raw)) (omega arith),
  raw_loop-used limit raw 0 false (omega arith) ∙ omega arith,
  raw_loop-cut limit raw 0 false (omega arith)
      ∙ ap (λ k. ltb k (length (all_bytes raw))) (omega arith),
)
