-- ===== src/Base/Splitting.antt =====
-- What splitting and trimming do to texts that were put together.
use Prim.Native.Nat.{ℕ}
use mathlib.Core.Path.{◌≡◌, refl, ap, ◌∙◌}
use mathlib.Core.Bool.{true, false}
use mathlib.Core.Option.{none, some}
use mathlib.Core.List.{[], ◌∷◌, ◌++◌}
use native.Mathlib.Omega.{arith}
use firefox_ctl.Base.Tests.{nat_beq, Text}
use firefox_ctl.Base.Lists.{All}
use firefox_ctl.Base.Texts.{split, cut_at, trim_start, trim_end, trim, is_space, put_first}

-- The unit does not occur in the text.
abbrev pub IsFree : ℕ → Text → Type 0
IsFree c t = All (λ x. nat_beq x c ≡ false) t

pub split-append : (c : ℕ) (t u : Text) → IsFree c t → split c (t ++ c ∷ u) ≡ t ∷ split c u
unfolding split
split-append c [] u h = rw (same c) refl
  where
    same : (c : ℕ) → nat_beq c c ≡ true
    same c = ground arith
split-append c (x ∷ t) u (n, h) = rw n (ap (put_first x) (split-append c t u h))

pub split-free : (c : ℕ) (t : Text) → IsFree c t → split c t ≡ t ∷ []
unfolding split
split-free c [] h = refl
split-free c (x ∷ t) (n, h) = rw n (ap (put_first x) (split-free c t h))

pub cut_at-append : (c : ℕ) (t u : Text) → IsFree c t → cut_at c (t ++ c ∷ u) ≡ some (t, u)
unfolding cut_at
cut_at-append c [] u h = rw (same c) refl
  where
    same : (c : ℕ) → nat_beq c c ≡ true
    same c = ground arith
cut_at-append c (x ∷ t) u (n, h) = rw n (rw (cut_at-append c t u h) refl)

pub cut_at-free : (c : ℕ) (t : Text) → IsFree c t → cut_at c t ≡ none
unfolding cut_at
cut_at-free c [] h = refl
cut_at-free c (x ∷ t) (n, h) = rw n (rw (cut_at-free c t h) refl)

-- No white space at the start, and none at the end.
abbrev pub StartsClean : Text → Type 0
StartsClean [] = Unit
StartsClean (x ∷ t) = is_space x ≡ false

abbrev pub EndsClean : Text → Type 0
EndsClean [] = Unit
EndsClean (x ∷ []) = is_space x ≡ false
EndsClean (x ∷ y ∷ t) = EndsClean (y ∷ t)

pub trim_start-clean : (t : Text) → StartsClean t → trim_start t ≡ t
unfolding trim_start
trim_start-clean [] h = refl
trim_start-clean (x ∷ t) h = rw h refl

pub trim_end-clean : (t : Text) → EndsClean t → trim_end t ≡ t
unfolding trim_end
trim_end-clean [] h = refl
trim_end-clean (x ∷ []) h = rw h refl
trim_end-clean (x ∷ y ∷ t) h = rw (trim_end-clean (y ∷ t) h) refl

pub trim-clean : (t : Text) → StartsClean t → EndsClean t → trim t ≡ t
unfolding trim
trim-clean t s e = ap trim_end (trim_start-clean t s) ∙ trim_end-clean t e

pub StartsClean-append : (t u : Text) → StartsClean t → StartsClean u → StartsClean (t ++ u)
StartsClean-append [] u h k = k
StartsClean-append (x ∷ t) u h k = h

pub EndsClean-append : (t : Text) (c : ℕ) (u : Text) → EndsClean (c ∷ u) → EndsClean (t ++ c ∷ u)
EndsClean-append [] c u h = h
EndsClean-append (x ∷ []) c u h = h
EndsClean-append (x ∷ y ∷ t) c u h = EndsClean-append (y ∷ t) c u h
