-- ===== src/Network/Ring.antt =====
-- The log of extension/src/network.ts over every order of events: its bound and its contents.
use mathlib.Core.List.{map-append}
use firefox_ctl.Base.{
  Bool-cases, List, Text, [], ap, arith, drop, drop-append, drop-drop, if◌then◌else◌, inl, inr,
  length, length-append, length-drop, length-map, ltb, ltb→lt, map, map-drop, nat_eq, refl, sym,
  text_eq, ℕ, ◌++◌, ◌-◌, ◌<◌, ◌==◌, ◌∙◌, ◌∷◌, ◌≡◌, ◌≤◌,
}
use firefox_ctl.Network.{
  CompletedDetails, ErrorDetails, NetworkEntry, RequestDetails, complete, fail, max_network_entries,
  on_completed, on_failed, on_started, push_bounded, update_first,
}
use firefox_ctl.Network.Query.{NetworkQuery, last_n, query}

pub data Event : Type 0 where
  starts : ℕ → RequestDetails → Event
  completes : ℕ → CompletedDetails → Event
  fails : ℕ → ErrorDetails → Event
  queries : NetworkQuery → Event

module _ (to_lower redact_url : Text → Text) where
  unfoldable pub handle : List NetworkEntry → Event → List NetworkEntry
  handle es (starts now d) = on_started redact_url now es d
  handle es (completes now d) = on_completed now es d
  handle es (fails now d) = on_failed now es d
  handle es (queries q) = (query to_lower es q).0

  unfoldable pub handle_all : List NetworkEntry → List Event → List NetworkEntry
  handle_all es [] = es
  handle_all es (e ∷ rest) = handle_all (handle es e) rest

abbrev pub ids : List NetworkEntry → List Text
ids es = map (λ (e : NetworkEntry). e.request_id) es

-- The specification: the ids of the requests started since the last query that clears.
unfoldable pub started_ids : List Text → List Event → List Text
started_ids h [] = h
started_ids h (starts now d ∷ es) = started_ids (h ++ d.request_id ∷ []) es
started_ids h (completes now d ∷ es) = started_ids h es
started_ids h (fails now d ∷ es) = started_ids h es
started_ids h (queries q ∷ es) = started_ids (if q.clear then [] else h) es

ids-update_first :
    (id : Text) (f : NetworkEntry → NetworkEntry) (es : List NetworkEntry)
    → ((e : NetworkEntry) → (f e).request_id ≡ e.request_id)
    → ids (update_first id f es) ≡ ids es
unfolding update_first
ids-update_first id f [] keep = refl
ids-update_first id f (e ∷ es) keep = elim (Bool-cases (e.request_id == id)) [
  | inl same ↦ rw same (ap (λ x. x ∷ ids es) (keep e))
  | inr other ↦ rw other (ap (λ xs. e.request_id ∷ xs) (ids-update_first id f es keep))
]

module _ {ℓ} {A : Type ℓ} where
  last_n-snoc :
      (n : ℕ) (xs : List A) (x : A)
      → 0 < n
      → last_n n (last_n n xs ++ x ∷ []) ≡ last_n n (xs ++ x ∷ [])
  unfolding last_n
  last_n-snoc n xs x h =
      let k = length xs - n in
      let all = xs ++ x ∷ [] in
      ap (last_n n) (sym (drop-append k xs (x ∷ []) (omega arith)))
      ∙ drop-drop (length (drop k all) - n) k all
      ∙ ap (λ j. drop j all) (omega (arith, length-drop k all, length-append xs (x ∷ [])))

  push_bounded-last_n :
      (xs : List A) (x : A)
      → length xs ≤ max_network_entries
      → push_bounded xs x ≡ last_n max_network_entries (xs ++ x ∷ [])
  unfolding push_bounded last_n
  push_bounded-last_n xs x h =
      let size = length-append xs (x ∷ []) in
      elim (Bool-cases (ltb max_network_entries (length (xs ++ x ∷ [])))) [
        | inl e ↦
            let one : 1 ≡ length (xs ++ x ∷ []) - max_network_entries =
              omega (arith, size, ltb→lt _ _ e) in
            rw e (ap (λ j. drop j (xs ++ x ∷ [])) one)
        | inr e ↦
            let none_over : 0 ≡ length (xs ++ x ∷ []) - max_network_entries = ground arith in
            rw e (ap (λ j. drop j (xs ++ x ∷ [])) none_over)
      ]

  last_n-nil : last_n {A = A} max_network_entries [] ≡ []
  unfolding last_n
  last_n-nil = refl

  length-last_n : (n : ℕ) (xs : List A) → length (last_n n xs) ≤ n
  unfolding last_n
  length-last_n n xs = omega (arith, length-drop (length xs - n) xs)

ids-push_bounded :
    (es : List NetworkEntry) (e : NetworkEntry)
    → ids (push_bounded es e) ≡ push_bounded (ids es) e.request_id
unfolding push_bounded
ids-push_bounded es e =
    let all = es ++ e ∷ [] in
    let mapped : ids all ≡ ids es ++ e.request_id ∷ [] = map-append _ es (e ∷ []) in
    let size : length (ids es ++ e.request_id ∷ []) ≡ length all =
      ap length (sym mapped) ∙ length-map (λ (x : NetworkEntry). x.request_id) all in
    elim (Bool-cases (ltb max_network_entries (length all))) [
      | inl long ↦ rw (size, long) (map-drop _ 1 all ∙ ap (drop 1) mapped)
      | inr short ↦ rw (size, short) mapped
    ]

module _ (to_lower redact_url : Text → Text) where
  ids-on_started :
      (h : List Text) (es : List NetworkEntry) (now : ℕ) (d : RequestDetails)
      → ids es ≡ last_n max_network_entries h
      → ids (on_started redact_url now es d) ≡ last_n max_network_entries (h ++ d.request_id ∷ [])
  unfolding on_started
  ids-on_started h es now d e =
      ids-push_bounded es _
      ∙ ap (λ xs. push_bounded xs d.request_id) e
      ∙ push_bounded-last_n (last_n max_network_entries h) d.request_id
          (length-last_n max_network_entries h)
      ∙ last_n-snoc max_network_entries h d.request_id (omega arith)

  ids-query :
      (h : List Text) (es : List NetworkEntry) (q : NetworkQuery)
      → ids es ≡ last_n max_network_entries h
      → ids (query to_lower es q).0 ≡ last_n max_network_entries (if q.clear then [] else h)
  unfolding query last_n
  ids-query h es q e = elim (Bool-cases q.clear) [ inl c ↦ rw c refl | inr c ↦ rw c e ]

  ids-handle_all :
      (h : List Text) (es : List NetworkEntry) (events : List Event)
      → ids es ≡ last_n max_network_entries h
      → ids (handle_all to_lower redact_url es events)
        ≡ last_n max_network_entries (started_ids h events)
  unfolding handle_all handle started_ids on_completed on_failed
  ids-handle_all h es [] e = e
  ids-handle_all h es (starts now d ∷ rest) e =
      ids-handle_all (h ++ d.request_id ∷ []) _ rest (ids-on_started h es now d e)
  ids-handle_all h es (completes now d ∷ rest) e =
      ids-handle_all h (on_completed now es d) rest
        (ids-update_first d.request_id (complete now d) es (λ x. refl) ∙ e)
  ids-handle_all h es (fails now d ∷ rest) e =
      ids-handle_all h (on_failed now es d) rest
        (ids-update_first d.request_id (fail now d) es (λ x. refl) ∙ e)
  ids-handle_all h es (queries q ∷ rest) e =
      ids-handle_all (if q.clear then [] else h) (query to_lower es q).0 rest (ids-query h es q e)

  -- After any events from an empty log, the log holds the last 200 requests that started since the
  -- last clearing query, in the order of their starts (by their ids), and so at most 200 entries.
  pub handle_all-last_n :
      (events : List Event)
      → (ids (handle_all to_lower redact_url [] events)
          ≡ last_n max_network_entries (started_ids [] events))
        × (length (handle_all to_lower redact_url [] events) ≤ max_network_entries)
  handle_all-last_n events =
      let same = ids-handle_all [] [] events (sym last_n-nil) in
      (
        same,
        omega (
          arith,
          length-map (λ (e : NetworkEntry). e.request_id)
              (handle_all to_lower redact_url [] events),
          ap length same,
          length-last_n max_network_entries (started_ids [] events),
        ),
      )
