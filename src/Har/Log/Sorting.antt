-- ===== src/Har/Log/Sorting.antt =====
-- The sorting of a HAR log: what it keeps of a list, and the order that it gives.
use firefox_ctl.Base.{
  All, All-mono, Bool, Bool-cases, List, Option, [], false, inl, inr, keep_some, none, refl, some,
  true, ◌∷◌, ◌≡◌,
}
use firefox_ctl.Har.Log.{insert_by, sort_by}

module _ {ℓ κ} {A : Type ℓ} (P : A → Type κ) (le : A → A → Bool) where
  pub All-insert_by : (x : A) (xs : List A) → P x → All P xs → All P (insert_by le x xs)
  All-insert_by x [] p h = (p, tt)
  All-insert_by x (y ∷ ys) p (q, h) = elim (Bool-cases (le x y)) [
    | inl first ↦ rw first (p, (q, h))
    | inr later ↦ rw later (q, All-insert_by x ys p h)
  ]

  pub All-sort_by : (xs : List A) → All P xs → All P (sort_by le xs)
  unfolding sort_by
  All-sort_by [] h = tt
  All-sort_by (x ∷ xs) (p, h) = All-insert_by x (sort_by le xs) p (All-sort_by xs h)

-- Each two elements stand in the relation, the earlier one first.
abbrev pub Pairwise {ℓ κ} : {A : Type ℓ} → (A → A → Type κ) → List A → Type κ
Pairwise R [] = Unit
Pairwise R (x ∷ xs) = All (R x) xs × Pairwise R xs

module _ {ℓ κ} {A : Type ℓ} (R : A → A → Type κ) (flip : (x y : A) → R x y → R y x)
    (le : A → A → Bool) where
  -- A relation that does not tell the order survives sorting.
  pub Pairwise-insert_by :
      (x : A) (xs : List A) → All (R x) xs → Pairwise R xs → Pairwise R (insert_by le x xs)
  Pairwise-insert_by x [] h k = (tt, tt)
  Pairwise-insert_by x (y ∷ ys) (r, h) (l, k) = elim (Bool-cases (le x y)) [
    | inl first ↦ rw first ((r, h), (l, k))
    | inr later ↦ rw later (All-insert_by (R y) le x ys (flip x y r) l, Pairwise-insert_by x ys h k)
  ]

  pub Pairwise-sort_by : (xs : List A) → Pairwise R xs → Pairwise R (sort_by le xs)
  unfolding sort_by
  Pairwise-sort_by [] h = tt
  Pairwise-sort_by (x ∷ xs) (l, k) =
      Pairwise-insert_by x (sort_by le xs) (All-sort_by (R x) le xs l) (Pairwise-sort_by xs k)

module _ {ℓ κ} {A : Type ℓ} (R : A → A → Type κ) (le : A → A → Bool)
    (holds : (x y : A) → le x y ≡ true → R x y) (other : (x y : A) → le x y ≡ false → R y x)
    (trans : (x y z : A) → R x y → R y z → R x z) where
  insert_by-Pairwise : (x : A) (xs : List A) → Pairwise R xs → Pairwise R (insert_by le x xs)
  insert_by-Pairwise x [] h = (tt, tt)
  insert_by-Pairwise x (y ∷ ys) (l, k) = elim (Bool-cases (le x y)) [
    | inl first ↦
        rw first
          ((holds x y first, All-mono (R y) ys (λ z. trans x y z (holds x y first)) l), (l, k))
    | inr later ↦
        rw later (All-insert_by (R y) le x ys (other x y later) l, insert_by-Pairwise x ys k)
  ]

  pub sort_by-Pairwise : (xs : List A) → Pairwise R (sort_by le xs)
  unfolding sort_by
  sort_by-Pairwise [] = tt
  sort_by-Pairwise (x ∷ xs) = insert_by-Pairwise x (sort_by le xs) (sort_by-Pairwise xs)

pub Pairwise-keep_some {ℓ κ} :
    {A : Type ℓ} (R : A → A → Type κ) (o : Option A) (xs : List A)
    → ((x : A) → o ≡ some x → All (R x) xs)
    → Pairwise R xs
    → Pairwise R (keep_some o xs)
Pairwise-keep_some R none xs f h = h
Pairwise-keep_some R (some x) xs f h = (f x refl, h)
