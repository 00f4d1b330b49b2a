-- ===== src/Network/Filtering.antt =====
-- What `query` of extension/src/network.ts selects.
use firefox_ctl.Base.{
  Bool, List, Option, Text, [], ap, arith, drop, drop-nil, filter, if◌then◌else◌, length,
  length-drop, length-map, map, min, none, refl, some, suc, sym, text_beq_iff, true, zero, ℕ, ◌&&◌,
  ◌-◌, ◌↔◌, ◌∙◌, ◌∷◌, ◌≡◌, ◌≤◌,
}
use firefox_ctl.Base.Selected.{Selected, filter-Selected}
use firefox_ctl.Base.Int.{int_beq_iff, ℤ}
use firefox_ctl.Base.Json.{number}
use firefox_ctl.Network.{NetworkEntry, status_text}
use firefox_ctl.Network.Query.{
  NetworkQuery, copy, last_n, matches, query, tab_matches, take_limit, text_matches,
}

-- What a query asks of an entry: a filter that is missing asks nothing, and an empty text neither.
abbrev pub AsksTab : Option ℤ → ℤ → Type 0
AsksTab none id = Unit
AsksTab (some t) id = id ≡ t

abbrev pub AsksText : Option Text → Text → Type 0
AsksText none t = Unit
AsksText (some []) t = Unit
AsksText (some (c ∷ cs)) t = t ≡ c ∷ cs

abbrev pub IsAsked : NetworkQuery → NetworkEntry → Type 0
IsAsked q e =
    AsksTab q.tab_id e.tab_id × AsksText q.type e.type × AsksText q.status (status_text e.status)

tab_matches-AsksTab : (o : Option ℤ) (id : ℤ) → (tab_matches o id ≡ true) ↔ AsksTab o id
tab_matches-AsksTab none id = (λ _. tt, λ _. refl)
tab_matches-AsksTab (some t) id = int_beq_iff id t

text_matches-AsksText : (o : Option Text) (t : Text) → (text_matches o t ≡ true) ↔ AsksText o t
text_matches-AsksText none t = (λ _. tt, λ _. refl)
text_matches-AsksText (some []) t = (λ _. tt, λ _. refl)
text_matches-AsksText (some (c ∷ cs)) t = text_beq_iff t (c ∷ cs)

all_three : (a b c : Bool) → a && (b && c) ≡ true → (a ≡ true) × (b ≡ true) × (c ≡ true)
all_three a b c h = ground arith

matches-IsAsked : (q : NetworkQuery) (e : NetworkEntry) → (matches q e ≡ true) ↔ IsAsked q e
unfolding matches
matches-IsAsked q e =
    let tab = tab_matches-AsksTab q.tab_id e.tab_id in
    let type = text_matches-AsksText q.type e.type in
    let status = text_matches-AsksText q.status (status_text e.status) in
    (
      λ h. let (a, b, c) = all_three _ _ _ h in (tab.0 a, type.0 b, status.0 c),
      λ h. rw (tab.1 h.0) (rw (type.1 h.1) (status.1 h.2)),
    )

length-take_limit {ℓ} :
    {A : Type ℓ} (n : ℕ) (xs : List A) → length (take_limit (number n) xs) ≡ min n (length xs)
unfolding take_limit
length-take_limit zero xs = omega arith
length-take_limit (suc n) xs = omega (arith, length-drop (length xs - suc n) xs)

drop_whole {ℓ} : {A : Type ℓ} (n : ℕ) (xs : List A) → length xs ≤ n → drop n xs ≡ []
drop_whole n [] h = drop-nil n
drop_whole zero (x ∷ xs) h = absurd (omega (arith, h))
drop_whole (suc n) (x ∷ xs) h = drop_whole n xs (omega (arith, h))

take_limit-last {ℓ} :
    {A : Type ℓ} (n : ℕ) (xs : List A) → take_limit (number n) xs ≡ drop (length xs - n) xs
unfolding take_limit last_n
take_limit-last zero xs = sym (drop_whole (length xs - 0) xs (omega arith))
take_limit-last (suc n) xs = refl

module _ (to_lower : Text → Text) where
  -- A query whose limit is a whole number answers copies of the last entries, as many as the limit,
  -- of those of the log that it asks for, in the order of the log: those of its tab, of its type
  -- and of its status, where it names them. It counts what it answers. A query that clears leaves
  -- an empty log behind, any other the log as it was, and the total is the size of what is left.
  pub query_lem :
      (es : List NetworkEntry) (q : NetworkQuery) (n : ℕ)
      → q.limit ≡ number n
      → (asked : List NetworkEntry) × Selected (IsAsked q) es asked
        × ((query to_lower es q).1.requests
            ≡ map (copy to_lower q.include_headers q.redact) (drop (length asked - n) asked))
        × ((query to_lower es q).1.filtered ≡ min n (length asked))
        × ((query to_lower es q).0 ≡ (if q.clear then [] else es))
        × ((query to_lower es q).1.total ≡ length (query to_lower es q).0)
  unfolding query
  query_lem es q n e =
      let asked = filter (matches q) es in
      let last : take_limit q.limit asked ≡ drop (length asked - n) asked =
        ap (λ l. take_limit l asked) e ∙ take_limit-last n asked in
      (
        asked,
        filter-Selected (matches q) (IsAsked q) (matches-IsAsked q) es,
        ap (map (copy to_lower q.include_headers q.redact)) last,
        length-map (copy to_lower q.include_headers q.redact) (take_limit q.limit asked)
            ∙ ap (λ l. length (take_limit l asked)) e
            ∙ length-take_limit n asked,
        refl,
        refl,
      )
