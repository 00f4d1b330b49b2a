-- ===== src/Protocol/Budget.antt =====
-- The time budget of a command, extension/src/protocol.ts.
use firefox_ctl.Base.{
  Bool-cases, Option, Option-cases, Text, ap, arith, false, if◌then◌else◌, inl, inr, is_some, leb,
  nat_eq, none, refl, some, sym, text_beq_iff, text_eq, true, ℕ, ◌&&◌, ◌+◌, ◌==◌, ◌≡◌, ◌≤◌,
}
use firefox_ctl.Base.Json.{
  Fields, Number, as_number, finite, get, get-without, infinite, nan, without,
}
use firefox_ctl.Protocol.{
  default_timeout_ms, max_timeout_ms, min_timeout_ms, request_budget_ms, timeout_margin_ms,
  timeout_of, timeout_param, without_request_timeout,
}

-- How the host reads `_timeout`: a finite number that is not negative and whose whole part is in
-- the range is used truncated; any other value, and none, stands for the default.
pub data Reading (n : Option Number) (ms : ℕ) : Type 0 where
  given :
      (f : ℕ)
      → n ≡ some (finite false ms f)
      → min_timeout_ms ≤ ms
      → ms ≤ max_timeout_ms
      → Reading n ms
  fallback :
      ms ≡ default_timeout_ms
      → ((w f : ℕ) → n ≡ some (finite false w f) → ¬ (min_timeout_ms ≤ w × w ≤ max_timeout_ms))
      → Reading n ms

timeout_of-range :
    (w f : ℕ) → min_timeout_ms ≤ w → w ≤ max_timeout_ms → timeout_of (some (finite false w f)) ≡ w
unfolding timeout_of
timeout_of-range w f h k = ground arith

timeout_of-outside :
    (w f : ℕ)
    → ¬ (min_timeout_ms ≤ w × w ≤ max_timeout_ms)
    → timeout_of (some (finite false w f)) ≡ default_timeout_ms
unfolding timeout_of
timeout_of-outside w f h = elim (Bool-cases (leb min_timeout_ms w && leb w max_timeout_ms)) [
  | inl e ↦ absurd (h (ground arith, ground arith))
  | inr e ↦ ground arith
]

timeout_of-Reading : (n : Option Number) → Reading n (timeout_of n)
unfolding timeout_of
timeout_of-Reading none = fallback refl (λ w f e. cc)
timeout_of-Reading (some nan) = fallback refl (λ w f e. cc)
timeout_of-Reading (some (infinite s)) = fallback refl (λ w f e. cc)
timeout_of-Reading (some (finite true w f)) = fallback refl (λ w' f' e. cc)
timeout_of-Reading (some (finite false w f)) =
    elim (Bool-cases (leb min_timeout_ms w && leb w max_timeout_ms)) [
      | inl e ↦
          let lo : min_timeout_ms ≤ w = ground arith in
          let hi : w ≤ max_timeout_ms = ground arith in
          given f (ap (λ ms. some (finite false ms f)) (sym (timeout_of-range w f lo hi)))
            (omega (arith, timeout_of-range w f lo hi)) (omega (arith, timeout_of-range w f lo hi))
      | inr e ↦
          fallback (timeout_of-outside w f (λ r. ground arith))
            (λ w' f' same r. outside w w' e (ap whole_of same) r)
    ]
  where
    whole_of : Option Number → ℕ
    whole_of (some (finite s w f)) = w
    whole_of other = 0

    outside :
        (w w' : ℕ)
        → (leb min_timeout_ms w && leb w max_timeout_ms) ≡ false
        → w ≡ w'
        → ¬ (min_timeout_ms ≤ w' × w' ≤ max_timeout_ms)
    outside w w' e same r = ground arith

timeout_of_bounds :
    (n : Option Number) → (min_timeout_ms ≤ timeout_of n) × (timeout_of n ≤ max_timeout_ms)
timeout_of_bounds n = elim (timeout_of-Reading n) [
  | given f e lo hi ↦ (lo, hi)
  | fallback e none_given ↦ (omega (arith, e), omega (arith, e))
]

-- Whatever the params are, the budget is a timeout of the host's range, read as the host reads
-- it, less the reply margin.
pub request_budget_ms-Reading :
    (params : Fields)
    → (ms : ℕ) × Reading (as_number (get timeout_param params)) ms
      × (min_timeout_ms ≤ ms)
      × (ms ≤ max_timeout_ms)
      × (request_budget_ms params + timeout_margin_ms ≡ ms)
unfolding request_budget_ms
request_budget_ms-Reading params =
    let n = as_number (get timeout_param params) in
    let bounds = timeout_of_bounds n in
    (timeout_of n, timeout_of-Reading n, bounds.0, bounds.1, omega (arith, bounds.0))

get-without_lem :
    (k j : Text) (params : Fields)
    → get j (if is_some (get k params) then without k params else params)
      ≡ (if k == j then none else get j params)
get-without_lem k j params = elim (Option-cases (get k params)) [
  | inl e ↦ rw e (ground (arith, text_beq_iff k j))
  | inr (v, e) ↦ rw e (get-without k j params)
]

-- The params of a handler lack `_timeout`, and agree with those of the frame on every other key.
pub get-without_request_timeout :
    (k : Text) (params : Fields)
    → get k (without_request_timeout params) ≡ (if timeout_param == k then none else get k params)
unfolding without_request_timeout
get-without_request_timeout k params = get-without_lem timeout_param k params
