-- ===== src/Har/Fit/Queue.antt =====
-- The queue of candidates of a HAR log: each names an entry of its own.
use firefox_ctl.Base.{
  All, All-keep_some, All-mono, Bool, List, Text, [], ap, arith, false, get_elem?,
  get_elem?-set_other, if◌then◌else◌, ltb, none, refl, set, some, suc, sym, true, ℕ, ◌&&◌, ◌+◌, ◌-◌,
  ◌<◌, ◌∙◌, ◌∷◌, ◌≡◌, ◌≢◌,
}
use firefox_ctl.Har.{Har, HarEntry}
use firefox_ctl.Har.Log.Sorting.{All-sort_by, Pairwise, Pairwise-keep_some, Pairwise-sort_by}
use firefox_ctl.Har.Fit.{
  Candidate, candidate, candidates, candidates_from, entry_bytes, has_payload, shell, shell_bodies,
}

module _ (entry_text : HarEntry → Text) (reply_text : Har → Text) where
  -- The candidate is that of the entry.
  pub record IsOf (e : HarEntry) (c : Candidate) : Type 0 where
    pub shell_of : c.shell ≡ shell e
    pub bodies_of : c.bodies ≡ shell_bodies e
    pub saving_of :
        entry_bytes entry_text reply_text e ≡ entry_bytes entry_text reply_text (shell e) + c.saving

  -- It is that of the entry at its index.
  abbrev pub IsCandidate : List HarEntry → Candidate → Type 0
  IsCandidate entries c = (e : HarEntry) × (get_elem? entries c.index ≡ some e) × IsOf e c

  -- Every candidate is one when its turn comes.
  abbrev pub IsQueue : List HarEntry → List Candidate → Type 0
  IsQueue entries [] = Unit
  IsQueue entries (c ∷ queue) = IsCandidate entries c × IsQueue (set entries c.index c.shell) queue

  -- The same, of the entries from an index on.
  IsCandidateFrom : ℕ → List HarEntry → Candidate → Type 0
  IsCandidateFrom index entries c =
      (i : ℕ) × (c.index ≡ index + i) × (e : HarEntry) × (get_elem? entries i ≡ some e) × IsOf e c

  kept_if :
      (worth : Bool) (made c : Candidate)
      → (if worth then some made else none) ≡ some c
      → (worth ≡ true) × (made ≡ c)
  kept_if true made c h = (refl, cc)
  kept_if false made c h = cc

  saves : (has : Bool) (saving : ℕ) → has && ltb 0 saving ≡ true → 0 < saving
  saves has saving h = ground arith

  saving_by : HarEntry → ℕ
  saving_by e = entry_bytes entry_text reply_text e - entry_bytes entry_text reply_text (shell e)

  split_of :
      (e : HarEntry)
      → 0 < saving_by e
      → entry_bytes entry_text reply_text e
        ≡ entry_bytes entry_text reply_text (shell e) + saving_by e
  unfolding saving_by
  split_of e h = omega (arith, h)

  candidate-IsCandidateFrom :
      (index : ℕ) (e : HarEntry) (es : List HarEntry) (c : Candidate)
      → candidate entry_text reply_text index e ≡ some c
      → IsCandidateFrom index (e ∷ es) c
  unfolding candidate IsCandidateFrom saving_by
  candidate-IsCandidateFrom index e es c h =
      let kept = kept_if (has_payload e && ltb 0 (saving_by e)) _ c h in
      let made = kept.1 in
      (
        0,
        omega (arith, ap (λ d. d.index) made),
        e,
        refl,
        record {
          shell_of = ap (λ d. d.shell) (sym made);
          bodies_of = ap (λ d. d.bodies) (sym made);
          saving_of =
              split_of e (saves (has_payload e) (saving_by e) kept.0)
              ∙ ap (λ d. entry_bytes entry_text reply_text (shell e) + d.saving) made;
        },
      )

  later :
      (index : ℕ) (e : HarEntry) (es : List HarEntry) (c : Candidate)
      → IsCandidateFrom (suc index) es c
      → IsCandidateFrom index (e ∷ es) c
  unfolding IsCandidateFrom
  later index e es c (i, at, f, found, of) = (suc i, omega (arith, at), f, found, of)

  All-later :
      (index : ℕ) (e : HarEntry) (es : List HarEntry)
      → All (IsCandidateFrom (suc index) es) (candidates_from entry_text reply_text (suc index) es)
      → All (IsCandidateFrom index (e ∷ es)) (candidates_from entry_text reply_text (suc index) es)
  All-later index e es =
      All-mono (IsCandidateFrom (suc index) es)
        (candidates_from entry_text reply_text (suc index) es) (later index e es)

  Differ : Candidate → Candidate → Type 0
  Differ c d = c.index ≢ d.index

  index_of :
      (index : ℕ) (e : HarEntry) (c : Candidate)
      → candidate entry_text reply_text index e ≡ some c
      → c.index ≡ index
  unfolding candidate saving_by
  index_of index e c h =
      ap (λ d. d.index) (sym (kept_if (has_payload e && ltb 0 (saving_by e)) _ c h).1)

  differ :
      (index : ℕ) (e : HarEntry) (es : List HarEntry) (c d : Candidate)
      → candidate entry_text reply_text index e ≡ some c
      → IsCandidateFrom (suc index) es d
      → Differ c d
  unfolding IsCandidateFrom Differ
  differ index e es c d h (i, at, f, found, of) same = omega (arith, index_of index e c h, at, same)

  All-candidates_from :
      (index : ℕ) (es : List HarEntry)
      → All (IsCandidateFrom index es) (candidates_from entry_text reply_text index es)
  unfolding candidates_from
  All-candidates_from index [] = tt
  All-candidates_from index (e ∷ es) =
      All-keep_some (IsCandidateFrom index (e ∷ es)) (candidate entry_text reply_text index e)
        (candidates_from entry_text reply_text (suc index) es)
        (candidate-IsCandidateFrom index e es)
        (All-later index e es (All-candidates_from (suc index) es))

  Differ-candidates_from :
      (index : ℕ) (es : List HarEntry)
      → Pairwise Differ (candidates_from entry_text reply_text index es)
  unfolding candidates_from
  Differ-candidates_from index [] = tt
  Differ-candidates_from index (e ∷ es) =
      Pairwise-keep_some Differ (candidate entry_text reply_text index e)
        (candidates_from entry_text reply_text (suc index) es)
        (λ c present.
          All-mono (IsCandidateFrom (suc index) es)
            (candidates_from entry_text reply_text (suc index) es)
            (λ d. differ index e es c d present) (All-candidates_from (suc index) es))
        (Differ-candidates_from (suc index) es)

  -- A candidate stays one when another entry is replaced.
  IsCandidate-set :
      (entries : List HarEntry) (c d : Candidate)
      → Differ c d
      → IsCandidate entries d
      → IsCandidate (set entries c.index c.shell) d
  unfolding Differ
  IsCandidate-set entries c d n (e, found, of) =
      (e, get_elem?-set_other entries c.index d.index c.shell n ∙ found, of)

  All-set_other :
      (entries : List HarEntry) (c : Candidate) (queue : List Candidate)
      → All (Differ c) queue
      → All (IsCandidate entries) queue
      → All (IsCandidate (set entries c.index c.shell)) queue
  All-set_other entries c [] l h = tt
  All-set_other entries c (d ∷ queue) (n, l) (p, h) =
      (IsCandidate-set entries c d n p, All-set_other entries c queue l h)

  at_its_index :
      (entries : List HarEntry) (c : Candidate)
      → IsCandidateFrom 0 entries c
      → IsCandidate entries c
  unfolding IsCandidateFrom
  at_its_index entries c (i, at, e, found, of) =
      (e, ap (get_elem? entries) (omega (arith, at)) ∙ found, of)

  turned : (c d : Candidate) → Differ c d → Differ d c
  unfolding Differ
  turned c d n e = n (sym e)

  All-IsQueue :
      (entries : List HarEntry) (queue : List Candidate)
      → All (IsCandidate entries) queue
      → Pairwise Differ queue
      → IsQueue entries queue
  All-IsQueue entries [] h k = tt
  All-IsQueue entries (c ∷ queue) (p, h) (l, k) =
      (p, All-IsQueue (set entries c.index c.shell) queue (All-set_other entries c queue l h) k)

  pub candidates-IsQueue :
      (entries : List HarEntry) → IsQueue entries (candidates entry_text reply_text entries)
  unfolding candidates
  candidates-IsQueue entries =
      All-IsQueue entries (candidates entry_text reply_text entries)
        (All-mono (IsCandidateFrom 0 entries) (candidates entry_text reply_text entries)
          (at_its_index entries)
          (All-sort_by (IsCandidateFrom 0 entries) _
            (candidates_from entry_text reply_text 0 entries) (All-candidates_from 0 entries)))
        (Pairwise-sort_by Differ turned _ (candidates_from entry_text reply_text 0 entries)
          (Differ-candidates_from 0 entries))
