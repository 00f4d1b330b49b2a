-- ===== src/Base/Map.antt =====
-- A `Map` as an association list in insertion order, by an equality test of its keys.
use mathlib.Core.Path.{◌≡◌, refl}
use mathlib.Core.Bool.{Bool}
use mathlib.Core.Option.{Option, none, some}
use mathlib.Core.List.{List, [], ◌∷◌}
use native.Mathlib.Omega.{arith}
use firefox_ctl.Base.Tests.{if◌then◌else◌, is_some}
use firefox_ctl.Base.Eq.{EqType, nat_eq, text_eq, ◌==◌}

module _ {ℓ κ} {K : Type κ} {V : Type ℓ} ⦃e : EqType K⦄ where
  -- `map.get(key)`
  unfoldable pub lookup : K → List (K × V) → Option V
  lookup key [] = none
  lookup key ((old, value) ∷ rest) =
      let later = lookup key rest in if old == key then some value else later

  -- `map.set(key, value)`: a present key keeps its place.
  unfoldable pub insert : K → V → List (K × V) → List (K × V)
  insert key value [] = (key, value) ∷ []
  insert key value ((old, before) ∷ rest) =
      let later = insert key value rest in
      if old == key then (old, value) ∷ rest else (old, before) ∷ later

  -- `map.delete(key)`
  unfoldable pub delete : K → List (K × V) → List (K × V)
  delete key [] = []
  delete key ((old, before) ∷ rest) =
      let later = delete key rest in if old == key then later else (old, before) ∷ later

  -- `map.has(key)`
  abbrev pub has_key : K → List (K × V) → Bool
  has_key key entries = is_some (lookup key entries)

  -- A read after a write.
  pub lookup-insert :
      (key other : K) (value : V) (entries : List (K × V))
      → lookup other (insert key value entries)
        ≡ (if key == other then some value else lookup other entries)
  unfolding insert lookup
  lookup-insert key other value [] = refl
  lookup-insert key other value ((old, before) ∷ rest) = ground (
    arith,
    lookup-insert key other value rest,
    e.test_iff old other,
    e.test_iff old key,
    e.test_iff key other,
  )

  -- A read after a removal.
  pub lookup-delete :
      (key other : K) (entries : List (K × V))
      → lookup other (delete key entries) ≡ (if key == other then none else lookup other entries)
  unfolding delete lookup
  lookup-delete key other [] = ground arith
  lookup-delete key other ((old, before) ∷ rest) = ground (
    arith,
    lookup-delete key other rest,
    e.test_iff old other,
    e.test_iff old key,
    e.test_iff key other,
  )
