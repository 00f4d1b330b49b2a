-- ===== src/Network/Url/Loop.antt =====
-- The loop of `redactSensitiveUrl`, extension/src/network.ts, over the list that it changes.
use mathlib.Core.List.{append_assoc, append-nil}
use firefox_ctl.Base.{
  All, All-append, Bool, Bool-cases, List, Text, [], any, ap, arith, eq_self, false, filter,
  get_elem?, inl, inr, length, length-append, nat_eq, none, not, refl, some, subst, suc, sym,
  text_beq_iff, text_eq, true, zero, ℕ, ◌++◌, ◌==◌, ◌||◌, ◌∙◌, ◌∷◌, ◌≡◌, ◌≤◌, ◌⊎◌,
}
use firefox_ctl.Network.Url.{
  ParamIsSafe, Params, has_param, is_sensitive_key, redact_from, redact_params, redacted_value,
  remove_key, set_param,
}

get_elem?-append {ℓ} :
    {A : Type ℓ} (xs ys : List A) → get_elem? (xs ++ ys) (length xs) ≡ get_elem? ys 0
get_elem?-append [] ys = refl
get_elem?-append (x ∷ xs) ys = get_elem?-append xs ys

set_param-append :
    (k v w : Text) (done rest : Params)
    → has_param k done ≡ false
    → set_param k v (done ++ (k, w) ∷ rest) ≡ done ++ (k, v) ∷ remove_key k rest
set_param-append k v w [] rest h = rw (eq_self k) refl
set_param-append k v w ((j, u) ∷ done) rest h = elim (Bool-cases (j == k)) [
  | inl e ↦ cc (h, e)
  | inr e ↦ rw e (ap (λ ps. (j, u) ∷ ps) (set_param-append k v w done rest (rw e at h)))
]

length-remove_key-le : (k : Text) (ps : Params) → length (remove_key k ps) ≤ length ps
length-remove_key-le k [] = omega arith
length-remove_key-le k ((j, v) ∷ ps) = ground (arith, length-remove_key-le k ps)

has_param-remove_key : (k : Text) (ps : Params) → has_param k (remove_key k ps) ≡ false
has_param-remove_key k [] = refl
has_param-remove_key k ((j, v) ∷ ps) = elim (Bool-cases (j == k)) [
  | inl e ↦ rw e (has_param-remove_key k ps)
  | inr e ↦ rw e (rw e (has_param-remove_key k ps))
]

remove_key_keeps :
    (k j : Text) (ps : Params) → has_param j ps ≡ false → has_param j (remove_key k ps) ≡ false
remove_key_keeps k j [] h = refl
remove_key_keeps k j ((i, v) ∷ ps) h = ground (arith, remove_key_keeps k j ps)

module _ (to_lower : Text → Text) where
  -- The visited keys that are sensitive stand nowhere later.
  abbrev Unrepeated : Params → Text × Text → Type 0
  Unrepeated rest (k, v) = (is_sensitive_key to_lower k ≡ false) ⊎ (has_param k rest ≡ false)

  abbrev Visited : Params → Params → Type 0
  Visited done rest = All (Unrepeated rest) done

  abbrev pub is_plain : Text × Text → Bool
  is_plain (k, v) = not (is_sensitive_key to_lower k)

  -- What the loop makes of a list whose first part is done.
  pub record Redacted (ps rest : Params) (b : Bool) (r : Params × Bool) : Type 0 where
    pub safe : All (ParamIsSafe to_lower) r.0
    pub kept : filter is_plain r.0 ≡ filter is_plain ps
    pub flag : r.1 ≡ (b || any (λ (p : Text × Text). is_sensitive_key to_lower p.0) rest)

  Visited-has_param :
      (k v : Text) (done rest : Params)
      → is_sensitive_key to_lower k ≡ true
      → Visited done ((k, v) ∷ rest)
      → has_param k done ≡ false
  Visited-has_param k v [] rest s h = refl
  Visited-has_param k v ((j, u) ∷ done) rest s (h, hs) =
      ground (arith, Visited-has_param k v done rest s hs, text_beq_iff j k, eq_self k)

  Visited-keep :
      (k v : Text) (done rest : Params)
      → is_sensitive_key to_lower k ≡ false
      → Visited done ((k, v) ∷ rest)
      → Visited (done ++ (k, v) ∷ []) rest
  Visited-keep k v [] rest s h = (inl s, tt)
  Visited-keep k v ((j, u) ∷ done) rest s (h, hs) = (ground arith, Visited-keep k v done rest s hs)

  Visited-remove :
      (k v w : Text) (done rest : Params)
      → Visited done ((k, w) ∷ rest)
      → Visited (done ++ (k, v) ∷ []) (remove_key k rest)
  Visited-remove k v w [] rest h = (inr (has_param-remove_key k rest), tt)
  Visited-remove k v w ((j, u) ∷ done) rest (h, hs) =
      (ground (arith, remove_key_keeps k j rest), Visited-remove k v w done rest hs)

  filter-append_plain :
      (xs ys zs : Params)
      → filter is_plain ys ≡ filter is_plain zs
      → filter is_plain (xs ++ ys) ≡ filter is_plain (xs ++ zs)
  filter-append_plain [] ys zs e = e
  filter-append_plain (x ∷ xs) ys zs e = rw (filter-append_plain xs ys zs e) refl

  filter-remove_key :
      (k : Text) (ps : Params)
      → is_sensitive_key to_lower k ≡ true
      → filter is_plain (remove_key k ps) ≡ filter is_plain ps
  filter-remove_key k [] s = refl
  filter-remove_key k ((j, v) ∷ ps) s = elim (Bool-cases (j == k)) [
    | inl e ↦
        let same : j ≡ k = (text_beq_iff j k).0 e in
        rw e (rw same (rw s (filter-remove_key k ps s)))
    | inr e ↦ rw e (rw (filter-remove_key k ps s) refl)
  ]

  redact_from-none :
      (fuel i : ℕ) (ps : Params) (b : Bool)
      → get_elem? ps i ≡ none
      → redact_from to_lower (suc fuel) i ps b ≡ (ps, b)
  unfolding redact_from
  redact_from-none fuel i ps b e = rw (e, redact_from) refl

  redact_from-plain :
      (fuel i : ℕ) (ps : Params) (b : Bool) (k v : Text)
      → get_elem? ps i ≡ some (k, v)
      → is_sensitive_key to_lower k ≡ false
      → redact_from to_lower (suc fuel) i ps b ≡ redact_from to_lower fuel (suc i) ps b
  unfolding redact_from
  redact_from-plain fuel i ps b k v e s = rw (e, redact_from) (rw (s, redact_from) refl)

  redact_from-sensitive :
      (fuel i : ℕ) (ps : Params) (b : Bool) (k v : Text)
      → get_elem? ps i ≡ some (k, v)
      → is_sensitive_key to_lower k ≡ true
      → redact_from to_lower (suc fuel) i ps b
        ≡ redact_from to_lower fuel (suc i) (set_param k redacted_value ps) true
  unfolding redact_from
  redact_from-sensitive fuel i ps b k v e s = rw (e, redact_from) (rw (s, redact_from) refl)

  length-snoc : (xs : Params) (x : Text × Text) → length (xs ++ x ∷ []) ≡ suc (length xs)
  length-snoc xs x = omega (arith, length-append xs (x ∷ []))

  ended-Redacted :
      (done ps : Params) (b : Bool)
      → ps ≡ done ++ []
      → All (ParamIsSafe to_lower) done
      → Redacted ps [] b (ps, b)
  ended-Redacted done ps b e safe = record {
    safe = rw (e, append-nil done) safe;
    kept = refl;
    flag = ground arith;
  }

  at_done :
      (done rest ps : Params) (p : Text × Text)
      → ps ≡ done ++ p ∷ rest
      → get_elem? ps (length done) ≡ some p
  at_done done rest ps p e =
      ap (λ xs. get_elem? xs (length done)) e ∙ get_elem?-append done (p ∷ rest)

  plain-Redacted :
      (k v : Text) (rest ps : Params) (b : Bool) (r : Params × Bool)
      → is_sensitive_key to_lower k ≡ false
      → Redacted ps rest b r
      → Redacted ps ((k, v) ∷ rest) b r
  plain-Redacted k v rest ps b r s d = record {
    safe = d.safe;
    kept = d.kept;
    flag = ground (arith, d.flag);
  }

  sensitive-Redacted :
      (k v : Text) (rest rest' ps ps' : Params) (b : Bool) (r : Params × Bool)
      → is_sensitive_key to_lower k ≡ true
      → filter is_plain ps' ≡ filter is_plain ps
      → Redacted ps' rest' true r
      → Redacted ps ((k, v) ∷ rest) b r
  sensitive-Redacted k v rest rest' ps ps' b r s e d = record {
    safe = d.safe;
    kept = d.kept ∙ e;
    flag = ground (arith, d.flag);
  }

  set_param_kept :
      (k v : Text) (done rest ps : Params)
      → is_sensitive_key to_lower k ≡ true
      → ps ≡ done ++ (k, v) ∷ rest
      → filter is_plain (done ++ (k, redacted_value) ∷ remove_key k rest) ≡ filter is_plain ps
  set_param_kept k v done rest ps s e =
      filter-append_plain done _ _ (rw s (filter-remove_key k rest s))
      ∙ ap (filter is_plain) (sym e)

  redact_from-Redacted :
      (fuel : ℕ) (done rest ps : Params) (b : Bool)
      → length rest ≤ fuel
      → ps ≡ done ++ rest
      → All (ParamIsSafe to_lower) done
      → Visited done rest
      → Redacted ps rest b (redact_from to_lower fuel (length done) ps b)
  unfolding redact_from
  redact_from-Redacted zero done [] ps b h e safe seen = ended-Redacted done ps b e safe
  redact_from-Redacted zero done (p ∷ rest) ps b h e safe seen = absurd (omega arith)
  redact_from-Redacted (suc fuel) done [] ps b h e safe seen =
      subst (Redacted ps [] b)
        (sym (
          redact_from-none fuel (length done) ps b
            (ap (λ xs. get_elem? xs (length done)) e ∙ get_elem?-append done [])))
        (ended-Redacted done ps b e safe)
  redact_from-Redacted (suc fuel) done ((k, v) ∷ rest) ps b h e safe seen =
      elim (Bool-cases (is_sensitive_key to_lower k)) [
        | inr s ↦
            let done' = done ++ (k, v) ∷ [] in
            let ih =
              redact_from-Redacted fuel done' rest ps b (omega arith)
                (e ∙ sym (append_assoc done ((k, v) ∷ []) rest))
                (All-append (ParamIsSafe to_lower) done ((k, v) ∷ []) safe (inl s, tt))
                (Visited-keep k v done rest s seen) in
            subst (Redacted ps ((k, v) ∷ rest) b)
              (ap (λ i. redact_from to_lower fuel i ps b) (length-snoc done (k, v))
                ∙ sym (
                    redact_from-plain fuel (length done) ps b k v (at_done done rest ps (k, v) e)
                      s))
              (plain-Redacted k v rest ps b _ s ih)
        | inl s ↦
            let done' = done ++ (k, redacted_value) ∷ [] in
            let rest' = remove_key k rest in
            let ps' = done ++ (k, redacted_value) ∷ rest' in
            let ih =
              redact_from-Redacted fuel done' rest' ps' true
                (omega (arith, length-remove_key-le k rest))
                (sym (append_assoc done ((k, redacted_value) ∷ []) rest'))
                (All-append (ParamIsSafe to_lower) done ((k, redacted_value) ∷ []) safe
                  (inr refl, tt))
                (Visited-remove k redacted_value v done rest seen) in
            let set : set_param k redacted_value ps ≡ ps' =
              ap (set_param k redacted_value) e
              ∙ set_param-append k redacted_value v done rest
                  (Visited-has_param k v done rest s seen) in
            subst (Redacted ps ((k, v) ∷ rest) b)
              (ap (λ i. redact_from to_lower fuel i ps' true) (length-snoc done (k, redacted_value))
                ∙ ap (λ q. redact_from to_lower fuel (suc (length done)) q true) (sym set)
                ∙ sym (
                    redact_from-sensitive fuel (length done) ps b k v
                      (at_done done rest ps (k, v) e) s))
              (sensitive-Redacted k v rest rest' ps ps' b _ s (set_param_kept k v done rest ps s e)
                ih)
      ]

  -- Of the search parameters of a URL no sensitive key keeps its value: each has the stand-in. The
  -- parameters that are not sensitive stay, with their values and in their order, and the result
  -- tells whether any key was sensitive.
  pub redact_params-Redacted : (ps : Params) → Redacted ps ps false (redact_params to_lower ps)
  unfolding redact_params
  redact_params-Redacted ps =
      redact_from-Redacted (length ps) [] ps ps false (omega arith) refl tt tt
