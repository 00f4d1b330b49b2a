-- ===== src/Base/Entries.antt =====
-- What holds of every entry of a map.
use mathlib.Core.Path.{◌≡◌, subst, sym}
use mathlib.Core.Logic.{inl, inr}
use mathlib.Core.Option.{some}
use mathlib.Core.List.{List, [], ◌∷◌}
use native.Mathlib.Omega.{arith}
use firefox_ctl.Base.Tests.{if◌then◌else◌, Bool-cases}
use firefox_ctl.Base.Eq.{EqType, ◌==◌}
use firefox_ctl.Base.Lists.{All}
use firefox_ctl.Base.Map.{lookup, insert, delete}

module _ {ℓ κ μ} {K : Type κ} {V : Type ℓ} ⦃e : EqType K⦄ (P : K × V → Type μ) where
  pub All-insert :
      (key : K) (value : V) (entries : List (K × V))
      → P (key, value)
      → All P entries
      → All P (insert key value entries)
  unfolding insert
  All-insert key value [] p h = (p, tt)
  All-insert key value ((old, before) ∷ rest) p (q, h) = elim (Bool-cases (old == key)) [
    | inl same ↦ rw same (subst (λ k. P (k, value)) (sym ((e.test_iff old key).0 same)) p, h)
    | inr other ↦ rw other (q, All-insert key value rest p h)
  ]

  pub All-delete : (key : K) (entries : List (K × V)) → All P entries → All P (delete key entries)
  unfolding delete
  All-delete key [] h = tt
  All-delete key ((old, before) ∷ rest) (q, h) = elim (Bool-cases (old == key)) [
    | inl same ↦ rw same (All-delete key rest h)
    | inr other ↦ rw other (q, All-delete key rest h)
  ]

  pub All-lookup :
      (key : K) (value : V) (entries : List (K × V))
      → All P entries
      → lookup key entries ≡ some value
      → P (key, value)
  unfolding lookup
  All-lookup key value [] h l = cc
  All-lookup key value ((old, before) ∷ rest) (q, h) l = elim (Bool-cases (old == key)) [
    | inl same ↦
        let found : before ≡ value = ground (arith, l, same) in
        subst (λ v. P (key, v)) found (subst (λ k. P (k, before)) ((e.test_iff old key).0 same) q)
    | inr other ↦
        All-lookup key value rest h
          (subst (λ b. (if b then some before else lookup key rest) ≡ some value) other l)
  ]
