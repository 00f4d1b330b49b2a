-- ===== src/Har/Bodies/Base64.antt =====
-- The pieces of a base64 text, joined.
use firefox_ctl.Base.{
  Bool-cases, List, Option, Text, [], ap, append-nil, arith, drop, drop-nil, inl, inr, leb, leb→le,
  length, length-drop, length-take, refl, suc, sym, take, take_all, zero, ℕ, ◌*◌, ◌++◌, ◌∙◌, ◌∷◌,
  ◌≡◌, ◌≤◌,
}
use firefox_ctl.Base.Texts.{join}
use firefox_ctl.Har.Bodies.{base64, base64_chunk, base64_pieces}

take-drop : (n : ℕ) (xs : List ℕ) → take n xs ++ drop n xs ≡ xs
take-drop zero xs = refl
take-drop (suc n) [] = refl
take-drop (suc n) (x ∷ xs) = ap (λ ys. x ∷ ys) (take-drop n xs)

drop_all : (n : ℕ) (xs : List ℕ) → length xs ≤ n → drop n xs ≡ []
drop_all n [] h = drop-nil n
drop_all zero (x ∷ xs) h = absurd (omega arith)
drop_all (suc n) (x ∷ xs) h = drop_all n xs (omega arith)

join-cons : (t : Text) (ts : List Text) → join [] (t ∷ ts) ≡ t ++ join [] ts
unfolding join
join-cons t [] = sym (append-nil t)
join-cons t (u ∷ ts) = refl

module _ (to_lower : Text → Text) (decode : Text → List ℕ → Option Text) (btoa : List ℕ → Text)
    (empty : btoa [] ≡ [])
    (joins : (n : ℕ) (xs ys : List ℕ)
      → length xs ≡ 3 * n
      → btoa (xs ++ ys) ≡ btoa xs ++ btoa ys) where
  -- A piece and what follows it: only the last piece is not whole.
  btoa-piece :
      (size n : ℕ) (xs : List ℕ)
      → size ≡ 3 * n
      → btoa (take size xs) ++ btoa (drop size xs) ≡ btoa xs
  btoa-piece size n xs h = elim (Bool-cases (leb (length xs) size)) [
    | inl short ↦
        ap (λ t. btoa (take size xs) ++ btoa t) (drop_all size xs (leb→le _ _ short))
        ∙ ap (λ t. btoa (take size xs) ++ t) empty
        ∙ append-nil (btoa (take size xs))
        ∙ ap btoa (take_all size xs (leb→le _ _ short))
    | inr long ↦
        sym (joins n (take size xs) (drop size xs) (length-take size xs (ground (arith, long)) ∙ h))
        ∙ ap btoa (take-drop size xs)
  ]

  chunk_whole : base64_chunk ≡ 3 * 8192
  unfolding base64_chunk
  chunk_whole = refl

  fewer :
      (b : ℕ) (bytes : List ℕ) (fuel : ℕ)
      → length (b ∷ bytes) ≤ suc fuel
      → length (drop base64_chunk (b ∷ bytes)) ≤ fuel
  fewer b bytes fuel h = omega (arith, length-drop base64_chunk (b ∷ bytes), chunk_whole)

  pieces_lem :
      (fuel : ℕ) (bytes : List ℕ)
      → length bytes ≤ fuel
      → join [] (base64_pieces to_lower decode btoa fuel bytes) ≡ btoa bytes
  unfolding base64_pieces join
  pieces_lem zero [] h = sym empty
  pieces_lem zero (b ∷ bytes) h = absurd (omega arith)
  pieces_lem (suc fuel) [] h = sym empty
  pieces_lem (suc fuel) (b ∷ bytes) h =
      join-cons (btoa (take base64_chunk (b ∷ bytes)))
        (base64_pieces to_lower decode btoa fuel (drop base64_chunk (b ∷ bytes)))
      ∙ ap (λ t. btoa (take base64_chunk (b ∷ bytes)) ++ t)
          (pieces_lem fuel (drop base64_chunk (b ∷ bytes)) (fewer b bytes fuel h))
      ∙ btoa-piece base64_chunk 8192 (b ∷ bytes) chunk_whole

  -- Written in pieces, the bytes have the base64 text that they have at once.
  pub base64-btoa : (bytes : List ℕ) → base64 to_lower decode btoa bytes ≡ btoa bytes
  unfolding base64
  base64-btoa bytes = pieces_lem (length bytes) bytes (omega arith)
