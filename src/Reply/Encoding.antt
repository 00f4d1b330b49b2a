-- ===== src/Reply/Encoding.antt =====
-- `utf8Length` of extension/src/reply.ts against the encoding itself: the code units decoded to
-- scalar values as TextEncoder reads them, and each scalar value written as UTF-8.
use firefox_ctl.Base.{
  All, Bool, Bool-cases, List, Text, [], ap, arith, false, if◌then◌else◌, inl, inr, length,
  length-append, ltb, ltb_ge, nat_beq, refl, sym, true, ℕ, ◌%◌, ◌&&◌, ◌*◌, ◌++◌, ◌+◌, ◌/◌, ◌<◌, ◌∙◌,
  ◌∷◌, ◌≡◌, ◌≤◌,
}
use firefox_ctl.Reply.{is_high_surrogate, is_low_surrogate, utf8_length}

-- The surrogates by their top bits: 11011, then 0 for a high and 1 for a low one.
abbrev is_surrogate : ℕ → Bool
is_surrogate u = nat_beq (u / 2048) 27

abbrev leads : ℕ → Bool
leads u = nat_beq (u / 1024) 54

abbrev trails : ℕ → Bool
trails u = nat_beq (u / 1024) 55

-- A lone surrogate is read as U+FFFD.
unfoldable pub scalar : ℕ → ℕ
scalar u = if is_surrogate u then 0xfffd else u

-- A pair of surrogates is one scalar value.
unfoldable pub scalars : Text → List ℕ
unfolding scalar
scalars [] = []
scalars (u ∷ []) = scalar u ∷ []
scalars (u ∷ v ∷ us) =
    let rest = scalars (v ∷ us) in
    let after_pair = scalars us in
    if leads u && trails v
    then (0x10000 + (u % 1024) * 1024 + v % 1024) ∷ after_pair
    else scalar u ∷ rest

-- The bytes of a scalar value.
unfoldable pub utf8 : ℕ → List ℕ
utf8 c =
    if ltb c 0x80
    then c ∷ []
    else if ltb c 0x800
    then (0xc0 + c / 64) ∷ (0x80 + c % 64) ∷ []
    else if ltb c 0x10000
    then (0xe0 + c / 4096) ∷ (0x80 + (c / 64) % 64) ∷ (0x80 + c % 64) ∷ []
    else (0xf0 + c / 262144)
      ∷ (0x80 + (c / 4096) % 64)
      ∷ (0x80 + (c / 64) % 64)
      ∷ (0x80 + c % 64)
      ∷ []

unfoldable pub encode : List ℕ → List ℕ
encode [] = []
encode (c ∷ cs) = utf8 c ++ encode cs

abbrev pub IsUnit : ℕ → Type 0
IsUnit u = u < 0x10000

-- The bytes that one unit outside of a pair takes.
length-utf8-scalar :
    (u : ℕ)
    → u < 0x10000
    → length (utf8 (scalar u)) ≡ (if ltb u 0x80 then 1 else if ltb u 0x800 then 2 else 3)
unfolding utf8 scalar
length-utf8-scalar u h = ground arith

length-utf8_pair : (a b : ℕ) → length (utf8 (0x10000 + a + b)) ≡ 4
unfolding utf8
length-utf8_pair a b = ground arith

length-encode :
    (c : ℕ) (cs : List ℕ) → length (encode (c ∷ cs)) ≡ length (utf8 c) + length (encode cs)
unfolding encode
length-encode c cs = length-append (utf8 c) (encode cs)

-- The sizes of a unit that is read by itself.
abbrev pub unit_size : ℕ → ℕ
unit_size u = if ltb u 0x80 then 1 else if ltb u 0x800 then 2 else 3

high_bound : (u v : ℕ) → (is_high_surrogate u && is_low_surrogate v) ≡ true → 0xd800 ≤ u
high_bound u v h = ground arith

pub utf8_length_pair :
    (u v : ℕ) (us : Text)
    → (is_high_surrogate u && is_low_surrogate v) ≡ true
    → utf8_length (u ∷ v ∷ us) ≡ 4 + utf8_length us
unfolding utf8_length
utf8_length_pair u v us h =
    let high : 0xd800 ≤ u = high_bound u v h in
    rw (ltb_ge u 0x80 (omega arith), ltb_ge u 0x800 (omega arith), h) refl

pub utf8_length_single :
    (u v : ℕ) (us : Text)
    → (is_high_surrogate u && is_low_surrogate v) ≡ false
    → utf8_length (u ∷ v ∷ us) ≡ unit_size u + utf8_length (v ∷ us)
unfolding utf8_length
utf8_length_single u v us h = ground arith

leads-high : (u : ℕ) → leads u ≡ is_high_surrogate u
leads-high u = ground arith

trails-low : (u : ℕ) → trails u ≡ is_low_surrogate u
trails-low u = ground arith

pairs_up : (u v : ℕ) → (leads u && trails v) ≡ (is_high_surrogate u && is_low_surrogate v)
pairs_up u v =
    ap (λ a. a && trails v) (leads-high u) ∙ ap (λ b. is_high_surrogate u && b) (trails-low v)

scalars_pair :
    (u v : ℕ) (us : Text)
    → (is_high_surrogate u && is_low_surrogate v) ≡ true
    → scalars (u ∷ v ∷ us) ≡ (0x10000 + (u % 1024) * 1024 + v % 1024) ∷ scalars us
unfolding scalars
scalars_pair u v us h = rw (pairs_up u v ∙ h) refl

scalars_single :
    (u v : ℕ) (us : Text)
    → (is_high_surrogate u && is_low_surrogate v) ≡ false
    → scalars (u ∷ v ∷ us) ≡ scalar u ∷ scalars (v ∷ us)
unfolding scalars
scalars_single u v us h = rw (pairs_up u v ∙ h) refl

-- For a text of 16-bit units the result is the number of bytes of its UTF-8 encoding.
pub utf8_length-encode : (us : Text) → All IsUnit us → utf8_length us ≡ length (encode (scalars us))
unfolding utf8_length scalars encode
utf8_length-encode [] h = refl
utf8_length-encode (u ∷ []) (h, _) =
    omega (arith, length-utf8-scalar u h, length-append (utf8 (scalar u)) [])
utf8_length-encode (u ∷ v ∷ us) (h, k) =
    elim (Bool-cases (is_high_surrogate u && is_low_surrogate v)) [
      | inl pair ↦
          utf8_length_pair u v us pair
          ∙ omega (
            arith,
            utf8_length-encode us k.1,
            length-encode (0x10000 + (u % 1024) * 1024 + v % 1024) (scalars us),
            length-utf8_pair ((u % 1024) * 1024) (v % 1024),
          )
          ∙ ap (λ s. length (encode s)) (sym (scalars_pair u v us pair))
      | inr single ↦
          utf8_length_single u v us single
          ∙ omega (
            arith,
            utf8_length-encode (v ∷ us) k,
            length-encode (scalar u) (scalars (v ∷ us)),
            length-utf8-scalar u h,
          )
          ∙ ap (λ s. length (encode s)) (sym (scalars_single u v us single))
    ]
