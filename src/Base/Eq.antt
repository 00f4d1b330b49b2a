-- ===== src/Base/Eq.antt =====
-- Equality tests by instances: `===` on numbers and on strings.
use mathlib.Core.Path.{◌≡◌, refl}
use mathlib.Core.Logic.{◌↔◌, inl, inr, ◌≢◌}
use mathlib.Core.Bool.{Bool, true, false, ◌&&◌, ◌||◌}
use mathlib.Core.List.{List, [], ◌∷◌}
use Prim.Native.Nat.{ℕ}
use native.Mathlib.Omega.{arith}
use firefox_ctl.Base.Tests.{Bool-cases, Text, nat_beq, nat_beq_iff}

-- A type with a test that decides its equality.
pub record EqType {ℓ} (A : Type ℓ) : Type ℓ where
  pub test : A → A → Bool
  pub test_iff : (x y : A) → (test x y ≡ true) ↔ (x ≡ y)

-- The test of whichever type the two values have.
abbrev pub ◌==◌ {ℓ} : {A : Type ℓ} ⦃e : EqType A⦄ → A → A → Bool
◌==◌ ⦃e⦄ x y = e.test x y

infix 50 ◌==◌
instance abbrev pub nat_eq : EqType ℕ
nat_eq = record { test_iff = nat_beq_iff; test = nat_beq }

-- `===` on strings. It stays shut in proofs, which use `text_beq_iff`.
unfoldable pub text_beq : Text → Text → Bool
text_beq [] [] = true
text_beq [] (y ∷ ys) = false
text_beq (x ∷ xs) [] = false
text_beq (x ∷ xs) (y ∷ ys) = nat_beq x y && text_beq xs ys

pub text_beq_iff : (s t : Text) → (text_beq s t ≡ true) ↔ (s ≡ t)
unfolding text_beq
text_beq_iff [] [] = (λ _. refl, λ _. refl)
text_beq_iff [] (y ∷ ys) = (λ h. cc, λ h. cc)
text_beq_iff (x ∷ xs) [] = (λ h. cc, λ h. cc)
text_beq_iff (x ∷ xs) (y ∷ ys) = ground (arith, text_beq_iff xs ys)

instance abbrev pub text_eq : EqType Text
text_eq = record { test_iff = text_beq_iff; test = text_beq }

module _ {ℓ} {A : Type ℓ} ⦃e : EqType A⦄ where
  pub eq_self : (a : A) → (a == a) ≡ true
  eq_self a = (e.test_iff a a).1 refl

  pub ne_of_neq : (a b : A) → a ≢ b → (a == b) ≡ false
  ne_of_neq a b h = elim (Bool-cases (a == b)) [
    | inl same ↦ absurd (h ((e.test_iff a b).0 same))
    | inr other ↦ other
  ]

  -- `xs.includes(a)`
  abbrev pub mem_beq : A → List A → Bool
  mem_beq a [] = false
  mem_beq a (x ∷ xs) = x == a || mem_beq a xs
