-- ===== src/Base/Selected.antt =====
-- `filter` against what it selects, stated without the test.
use mathlib.Core.Path.{◌≡◌, refl}
use mathlib.Core.Logic.{◌↔◌, inl, inr}
use mathlib.Core.Bool.{Bool, true, false, ◌&&◌}
use mathlib.Core.List.{List, [], ◌∷◌}
use native.Mathlib.Omega.{arith}
use firefox_ctl.Base.Tests.{Bool-cases}
use firefox_ctl.Base.Lists.{filter}

-- The second list is what the first has of what P holds of, in the same order.
pub data Selected {ℓ κ} {A : Type ℓ} (P : A → Type κ) : List A → List A → Type (ℓ ⊔ κ) where
  nothing : Selected P [] []
  takes : {x : A} {xs ys : List A} → P x → Selected P xs ys → Selected P (x ∷ xs) (x ∷ ys)
  leaves : {x : A} {xs ys : List A} → (P x → ⊥) → Selected P xs ys → Selected P (x ∷ xs) ys

module _ {ℓ κ} {A : Type ℓ} (p : A → Bool) (P : A → Type κ)
    (decides : (x : A) → (p x ≡ true) ↔ P x) where
  refused : (x : A) → p x ≡ false → P x → ⊥
  refused x e h = let yes = (decides x).1 h in cc

  pub filter-Selected : (xs : List A) → Selected P xs (filter p xs)
  filter-Selected [] = nothing
  filter-Selected (x ∷ xs) = elim (Bool-cases (p x)) [
    | inl e ↦ rw e (takes ((decides x).0 e) (filter-Selected xs))
    | inr e ↦ rw e (leaves (refused x e) (filter-Selected xs))
  ]

pub filter-filter {ℓ} :
    {A : Type ℓ} (p q : A → Bool) (xs : List A)
    → filter p (filter q xs) ≡ filter (λ x. q x && p x) xs
filter-filter p q [] = refl
filter-filter p q (x ∷ xs) = elim (Bool-cases (q x)) [
  | inl e ↦ ground (arith, e, filter-filter p q xs)
  | inr e ↦ ground (arith, e, filter-filter p q xs)
]
