-- ===== src/Base/Lists.antt =====
-- Lists measured and searched with native numbers and Boolean tests.
use Prim.Native.Nat.{ℕ, zero, suc, ◌+◌, ◌-◌, ◌≤◌, ◌<◌, min}
use mathlib.Core.Path.{subst, sym, ◌≡◌, refl, ap, ◌∙◌}
use mathlib.Core.Logic.{◌⊎◌, inl, inr, ◌≢◌}
use mathlib.Core.Bool.{Bool, false, ◌||◌}
use mathlib.Core.Option.{Option, none, some}
use mathlib.Core.List.{Memᴰ, List, [], ◌∷◌, ◌++◌, map}
use native.Mathlib.Omega.{arith}
use firefox_ctl.Base.Tests.{if◌then◌else◌}

module _ {ℓ} {A : Type ℓ} where
  abbrev pub length : List A → ℕ
  length [] = 0
  length (x ∷ xs) = suc (length xs)

  pub length-append : (xs ys : List A) → length (xs ++ ys) ≡ length xs + length ys
  length-append [] ys = omega arith
  length-append (x ∷ xs) ys = omega (arith, length-append xs ys)

  -- `xs.filter(p)`
  abbrev pub filter : (A → Bool) → List A → List A
  filter p [] = []
  filter p (x ∷ xs) = let rest = filter p xs in if p x then x ∷ rest else rest

  pub length-filter-le : (p : A → Bool) (xs : List A) → length (filter p xs) ≤ length xs
  length-filter-le p [] = omega arith
  length-filter-le p (x ∷ xs) = ground (arith, length-filter-le p xs)

  -- `xs.some(p)`
  abbrev pub any : (A → Bool) → List A → Bool
  any p [] = false
  any p (x ∷ xs) = p x || any p xs

  -- `xs.find(p)`
  abbrev pub find : (A → Bool) → List A → Option A
  find p [] = none
  find p (x ∷ xs) = let rest = find p xs in if p x then some x else rest

  -- `xs.at(-1)`
  abbrev pub last? : List A → Option A
  last? [] = none
  last? (x ∷ []) = some x
  last? (x ∷ y ∷ xs) = last? (y ∷ xs)

  abbrev pub drop : ℕ → List A → List A
  drop zero xs = xs
  drop (suc n) [] = []
  drop (suc n) (x ∷ xs) = drop n xs

  pub length-drop : (n : ℕ) (xs : List A) → length (drop n xs) ≡ length xs - n
  length-drop zero xs = omega arith
  length-drop (suc n) [] = omega arith
  length-drop (suc n) (x ∷ xs) = omega (arith, length-drop n xs)

  pub last?-snoc : (xs : List A) (a : A) → last? (xs ++ a ∷ []) ≡ some a
  last?-snoc [] a = refl
  last?-snoc (x ∷ []) a = refl
  last?-snoc (x ∷ y ∷ xs) a = last?-snoc (y ∷ xs) a

module _ {ℓ κ} {A : Type ℓ} (P : A → Type κ) where
  abbrev pub All : List A → Type κ
  All [] = Unit
  All (x ∷ xs) = P x × All xs

  pub All-append : (xs ys : List A) → All xs → All ys → All (xs ++ ys)
  All-append [] ys h k = k
  All-append (x ∷ xs) ys (p, h) k = (p, All-append xs ys h k)

  pub All-filter : (p : A → Bool) (xs : List A) → All xs → All (filter p xs)
  All-filter p [] h = tt
  All-filter p (x ∷ xs) (q, h) = ground (arith, All-filter p xs h)

  pub All-drop : (n : ℕ) (xs : List A) → All xs → All (drop n xs)
  All-drop zero xs h = h
  All-drop (suc n) [] h = h
  All-drop (suc n) (x ∷ xs) (q, h) = All-drop n xs h

module _ {ℓ} {A : Type ℓ} where
  abbrev pub get_elem? : List A → ℕ → Option A
  get_elem? [] i = none
  get_elem? (x ∷ xs) zero = some x
  get_elem? (x ∷ xs) (suc i) = get_elem? xs i

  -- A write out of bounds changes nothing.
  abbrev pub set : List A → ℕ → A → List A
  set [] i v = []
  set (x ∷ xs) zero v = v ∷ xs
  set (x ∷ xs) (suc i) v = x ∷ set xs i v

  pub get_elem?-set_self :
      (xs : List A) (i : ℕ) (a v : A) → get_elem? xs i ≡ some a → get_elem? (set xs i v) i ≡ some v
  get_elem?-set_self [] i a v e = cc
  get_elem?-set_self (x ∷ xs) zero a v e = refl
  get_elem?-set_self (x ∷ xs) (suc i) a v e = get_elem?-set_self xs i a v e

module _ {ℓ κ} {A : Type ℓ} (P : A → Type κ) where
  pub All_at : (xs : List A) {x : A} → All P xs → Memᴰ x xs → P x
  All_at [] h m = elim m [ ]
  All_at (y ∷ ys) (p, h) (Memᴰ.head e) = subst P (sym e) p
  All_at (y ∷ ys) (p, h) (Memᴰ.tail m) = All_at ys h m

module _ {ℓ} {A : Type ℓ} where
  pub drop-nil : (n : ℕ) → drop {A = A} n [] ≡ []
  drop-nil zero = refl
  drop-nil (suc n) = refl

  pub drop-drop : (m n : ℕ) (xs : List A) → drop m (drop n xs) ≡ drop (n + m) xs
  drop-drop m zero xs = ap (λ k. drop k xs) (omega arith)
  drop-drop m (suc n) [] = drop-nil m ∙ sym (ap (λ k. drop k []) (suc_plus n m))
    where
      suc_plus : (n m : ℕ) → suc n + m ≡ suc (n + m)
      suc_plus n m = omega arith
  drop-drop m (suc n) (x ∷ xs) = drop-drop m n xs ∙ sym (ap (λ k. drop k (x ∷ xs)) (suc_plus n m))
    where
      suc_plus : (n m : ℕ) → suc n + m ≡ suc (n + m)
      suc_plus n m = omega arith

  pub drop-append : (n : ℕ) (xs ys : List A) → n ≤ length xs → drop n (xs ++ ys) ≡ drop n xs ++ ys
  drop-append zero xs ys h = refl
  drop-append (suc n) [] ys h = absurd (omega arith)
  drop-append (suc n) (x ∷ xs) ys h = drop-append n xs ys (omega arith)

  pub map-drop {κ} :
      {B : Type κ} (f : A → B) (n : ℕ) (xs : List A) → map f (drop n xs) ≡ drop n (map f xs)
  map-drop f zero xs = refl
  map-drop f (suc n) [] = refl
  map-drop f (suc n) (x ∷ xs) = map-drop f n xs

  pub length-map {κ} : {B : Type κ} (f : A → B) (xs : List A) → length (map f xs) ≡ length xs
  length-map f [] = refl
  length-map f (x ∷ xs) = ap suc (length-map f xs)

  -- `items.slice(0, count)`
  abbrev pub take : (count : ℕ) → (items : List A) → List A
  take zero items = []
  take (suc count) [] = []
  take (suc count) (item ∷ items) = item ∷ take count items

  pub take-nil : (n : ℕ) → take n [] ≡ []
  take-nil zero = refl
  take-nil (suc n) = refl

  pub length-take : (n : ℕ) (xs : List A) → n ≤ length xs → length (take n xs) ≡ n
  length-take zero xs h = refl
  length-take (suc n) [] h = absurd (omega arith)
  length-take (suc n) (x ∷ xs) h = ap suc (length-take n xs (omega arith))

  pub take_all : (n : ℕ) (xs : List A) → length xs ≤ n → take n xs ≡ xs
  take_all n [] h = take-nil n
  take_all zero (x ∷ xs) h = absurd (omega arith)
  take_all (suc n) (x ∷ xs) h = ap (λ ys. x ∷ ys) (take_all n xs (omega arith))

  -- What fits of the first list, then what fits of the second in the room left.
  pub take-append :
      (n : ℕ) (xs ys : List A) → take n (xs ++ ys) ≡ take n xs ++ take (n - length xs) ys
  take-append zero xs ys = ap (λ k. take k ys) (none_left (length xs))
    where
      none_left : (m : ℕ) → 0 ≡ 0 - m
      none_left m = omega arith
  take-append (suc n) [] ys = ap (λ k. take k ys) (minus_zero (suc n))
    where
      minus_zero : (m : ℕ) → m ≡ m - 0
      minus_zero m = omega arith
  take-append (suc n) (x ∷ xs) ys =
      ap (λ zs. x ∷ zs)
        (take-append n xs ys ∙ ap (λ k. take n xs ++ take k ys) (suc_minus n (length xs)))
    where
      suc_minus : (n m : ℕ) → n - m ≡ suc n - suc m
      suc_minus n m = omega arith

  pub take-min : (n : ℕ) (xs : List A) → take (min n (length xs)) xs ≡ take n xs
  take-min n [] = take-nil _ ∙ sym (take-nil n)
  take-min zero (x ∷ xs) = ap (λ k. take k (x ∷ xs)) (least (suc (length xs)))
    where
      least : (m : ℕ) → min 0 m ≡ 0
      least m = omega arith
  take-min (suc n) (x ∷ xs) =
      ap (λ k. take k (x ∷ xs)) (suc_min n (length xs)) ∙ ap (λ zs. x ∷ zs) (take-min n xs)
    where
      suc_min : (n m : ℕ) → min (suc n) (suc m) ≡ suc (min n m)
      suc_min n m = omega arith

  -- What the first list holds is taken from it alone.
  pub take-longer : (n : ℕ) (xs ys : List A) → n ≤ length xs → take n xs ≡ take n (xs ++ ys)
  take-longer zero xs ys h = refl
  take-longer (suc n) [] ys h = absurd (omega arith)
  take-longer (suc n) (x ∷ xs) ys h = ap (λ zs. x ∷ zs) (take-longer n xs ys (omega arith))

  -- All of the first list, then some of the second.
  pub take-past : (n : ℕ) (xs ys : List A) → take (length xs + n) (xs ++ ys) ≡ xs ++ take n ys
  take-past n [] ys = ap (λ k. take k ys) (omega arith)
  take-past n (x ∷ xs) ys =
      ap (λ k. take k (x ∷ (xs ++ ys))) (suc_plus (length xs) n)
      ∙ ap (λ zs. x ∷ zs) (take-past n xs ys)
    where
      suc_plus : (m n : ℕ) → suc m + n ≡ suc (m + n)
      suc_plus m n = omega arith

  -- `xs.reduce((sum, x) => sum + f(x), 0)`
  abbrev pub total : (A → ℕ) → List A → ℕ
  total f [] = 0
  total f (x ∷ xs) = f x + total f xs

  pub total-append : (f : A → ℕ) (xs ys : List A) → total f (xs ++ ys) ≡ total f xs + total f ys
  total-append f [] ys = omega arith
  total-append f (x ∷ xs) ys = omega (arith, total-append f xs ys)

  pub total-set :
      (f : A → ℕ) (xs : List A) (i : ℕ) (a v : A)
      → get_elem? xs i ≡ some a
      → total f (set xs i v) + f a ≡ total f xs + f v
  total-set f [] i a v e = cc
  total-set f (x ∷ xs) zero a v e = let same : x ≡ a = cc in omega (arith, ap f same)
  total-set f (x ∷ xs) (suc i) a v e = omega (arith, total-set f xs i a v e)

  pub total-map :
      (f : A → ℕ) (g : A → A) (xs : List A)
      → ((x : A) → f (g x) ≡ f x)
      → total f (map g xs) ≡ total f xs
  total-map f g [] e = refl
  total-map f g (x ∷ xs) e = omega (arith, e x, total-map f g xs e)

module _ {ℓ κ} {A : Type ℓ} (P : A → Type κ) where
  pub All-set : (xs : List A) (i : ℕ) (v : A) → All P xs → P v → All P (set xs i v)
  All-set [] i v h p = h
  All-set (x ∷ xs) zero v (q, h) p = (p, h)
  All-set (x ∷ xs) (suc i) v (q, h) p = (q, All-set xs i v h p)

  pub All-get : (xs : List A) (i : ℕ) (a : A) → All P xs → get_elem? xs i ≡ some a → P a
  All-get [] i a h e = cc
  All-get (x ∷ xs) zero a (q, h) e = let same : x ≡ a = cc in subst P same q
  All-get (x ∷ xs) (suc i) a (q, h) e = All-get xs i a h e

  pub All-mono {μ} : {Q : A → Type μ} (xs : List A) → ((x : A) → P x → Q x) → All P xs → All Q xs
  All-mono [] f h = tt
  All-mono (x ∷ xs) f (q, h) = (f x q, All-mono xs f h)

  pub All-map : (g : A → A) (xs : List A) → ((x : A) → P x → P (g x)) → All P xs → All P (map g xs)
  All-map g [] f h = h
  All-map g (x ∷ xs) f (q, h) = (f x q, All-map g xs f h)

module _ {ℓ} {A : Type ℓ} where
  pub get_elem?-length : (xs : List A) (a : A) → get_elem? (xs ++ a ∷ []) (length xs) ≡ some a
  get_elem?-length [] a = refl
  get_elem?-length (x ∷ xs) a = get_elem?-length xs a

  -- A read after a write.
  pub get_elem?-set :
      (xs : List A) (i j : ℕ) (v : A)
      → (get_elem? (set xs i v) j ≡ get_elem? xs j) ⊎ (get_elem? (set xs i v) j ≡ some v)
  get_elem?-set [] i j v = inl refl
  get_elem?-set (x ∷ xs) zero zero v = inr refl
  get_elem?-set (x ∷ xs) zero (suc j) v = inl refl
  get_elem?-set (x ∷ xs) (suc i) zero v = inl refl
  get_elem?-set (x ∷ xs) (suc i) (suc j) v = get_elem?-set xs i j v

  pub length-set : (xs : List A) (i : ℕ) (v : A) → length (set xs i v) ≡ length xs
  length-set [] i v = refl
  length-set (x ∷ xs) zero v = refl
  length-set (x ∷ xs) (suc i) v = ap suc (length-set xs i v)

  pub last?-none : (xs : List A) → last? xs ≡ none → length xs ≡ 0
  last?-none [] e = refl
  last?-none (x ∷ []) e = cc
  last?-none (x ∷ y ∷ xs) e = absurd (no_zero (length xs) (last?-none (y ∷ xs) e))
    where
      no_zero : (n : ℕ) → suc n ≢ 0
      no_zero n e = omega (arith, e)

module _ {ℓ} {A : Type ℓ} where
  -- `if (x !== null) xs.push(x)`
  abbrev pub keep_some : Option A → List A → List A
  keep_some none xs = xs
  keep_some (some x) xs = x ∷ xs

  pub All-keep_some {κ} :
      (P : A → Type κ) (o : Option A) (xs : List A)
      → ((x : A) → o ≡ some x → P x)
      → All P xs
      → All P (keep_some o xs)
  All-keep_some P none xs f h = h
  All-keep_some P (some x) xs f h = (f x refl, h)

  pub get_elem?-set_other :
      (xs : List A) (i j : ℕ) (v : A) → i ≢ j → get_elem? (set xs i v) j ≡ get_elem? xs j
  get_elem?-set_other [] i j v n = refl
  get_elem?-set_other (x ∷ xs) zero zero v n = absurd (n refl)
  get_elem?-set_other (x ∷ xs) zero (suc j) v n = refl
  get_elem?-set_other (x ∷ xs) (suc i) zero v n = refl
  get_elem?-set_other (x ∷ xs) (suc i) (suc j) v n =
      get_elem?-set_other xs i j v (λ e. n (ap suc e))

  pub get_elem?-append :
      (xs ys : List A) (i : ℕ) (a : A) → get_elem? xs i ≡ some a → get_elem? (xs ++ ys) i ≡ some a
  get_elem?-append [] ys i a e = cc
  get_elem?-append (x ∷ xs) ys zero a e = e
  get_elem?-append (x ∷ xs) ys (suc i) a e = get_elem?-append xs ys i a e

  pub get_elem?_lt : (xs : List A) (i : ℕ) (a : A) → get_elem? xs i ≡ some a → i < length xs
  get_elem?_lt [] i a e = cc
  get_elem?_lt (x ∷ xs) zero a e = omega arith
  get_elem?_lt (x ∷ xs) (suc i) a e = omega (arith, get_elem?_lt xs i a e)
