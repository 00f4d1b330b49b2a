-- ===== src/Har/Fit/Dropping.antt =====
-- What `fitLog` gives for any log: a reply of the limit's size at most, its entries those of the
-- log or their shells, and every dropped body counted.
use firefox_ctl.Base.{
  All, All-get, All-set, Bool-cases, List, Text, [], ap, arith, get_elem?, inl, inr, leb, refl, set,
  some, subst, suc, sym, take, total, total-set, true, zero, ℕ, ◌<◌, ◌∙◌, ◌∷◌, ◌≡◌, ◌≤◌, ◌⊎◌,
}
use firefox_ctl.Har.{Har, HarEntry}
use firefox_ctl.Har.Log.{dropped_bodies}
use firefox_ctl.Har.Fit.{
  Candidate, Fitted, candidates, drop_body, fit_log, fit_loop, fitted, next_size, reply_bytes,
  shell, too_large,
}
use firefox_ctl.Har.Fit.Queue.{IsCandidate, IsQueue, candidates-IsQueue}
use firefox_ctl.Har.Fit.Shells.{IsFresh, dropped_bodies-shell, shell-IsFresh, shell-shell}

-- Each entry is that of the log, or its shell.
abbrev pub AreKept : List HarEntry → List HarEntry → Type 0
AreKept [] [] = Unit
AreKept [] (f ∷ fs) = ⊥
AreKept (e ∷ es) [] = ⊥
AreKept (e ∷ es) (f ∷ fs) = ((f ≡ e) ⊎ (f ≡ shell e)) × AreKept es fs

-- The counter of the recording is the number of its entries' dropped bodies.
unfoldable pub IsCounted : Har → Type 0
unfolding dropped_bodies
IsCounted har = har.recording.dropped_bodies ≡ total dropped_bodies har.entries

kept_self : (es : List HarEntry) → AreKept es es
kept_self [] = tt
kept_self (e ∷ es) = (inl refl, kept_self es)

shell_kept : (e f : HarEntry) → (f ≡ e) ⊎ (f ≡ shell e) → shell f ≡ shell e
shell_kept e f (inl same) = ap shell same
shell_kept e f (inr dropped) = ap shell dropped ∙ shell-shell e

AreKept-set :
    (es fs : List HarEntry) (i : ℕ) (f : HarEntry)
    → AreKept es fs
    → get_elem? fs i ≡ some f
    → AreKept es (set fs i (shell f))
AreKept-set [] [] i f h k = h
AreKept-set [] (g ∷ fs) i f h k = elim h [ ]
AreKept-set (e ∷ es) [] i f h k = elim h [ ]
AreKept-set (e ∷ es) (g ∷ fs) zero f (h, l) k =
    let same : g ≡ f = cc in (inr (ap shell (sym same) ∙ shell_kept e g h), l)
AreKept-set (e ∷ es) (g ∷ fs) (suc i) f (h, l) k = (h, AreKept-set es fs i f l k)

-- A log on its way from the first one.
pub record IsShrunk (log har : Har) : Type 0 where
  pub kept : AreKept log.entries har.entries
  pub fresh : All IsFresh har.entries
  pub counted : IsCounted har
  pub same_pages : har.pages ≡ log.pages

module _ (entry_text : HarEntry → Text) (reply_text : Har → Text) where
  -- The log that fits, or the size of one that does not.
  unfoldable pub IsFitted : ℕ → Har → Fitted → Type 0
  IsFitted limit log (fitted har) =
      IsShrunk log har × (reply_bytes entry_text reply_text har ≤ limit)
  IsFitted limit log (too_large n) =
      (har : Har) × IsShrunk log har × (n ≡ reply_bytes entry_text reply_text har)

  -- The log with the bodies of the candidates gone.
  unfoldable pub drop_all : Har → List Candidate → Har
  drop_all har [] = har
  drop_all har (c ∷ queue) = drop_all (drop_body har c) queue

  -- The log that fits is what dropping the first candidates leaves, and a log is too large only if
  -- it is so with all of them dropped.
  abbrev pub IsDropped : Har → List Candidate → Fitted → Type 0
  IsDropped har queue (fitted out) = (k : ℕ) × (out ≡ drop_all har (take k queue))
  IsDropped har queue (too_large n) = n ≡ reply_bytes entry_text reply_text (drop_all har queue)

  IsDropped-next :
      (har : Har) (c : Candidate) (queue : List Candidate) (out : Fitted)
      → IsDropped (drop_body har c) queue out
      → IsDropped har (c ∷ queue) out
  unfolding drop_all
  IsDropped-next har c queue (fitted out) (k, e) = (suc k, e)
  IsDropped-next har c queue (too_large n) e = e

  fit_loop-IsDropped :
      (limit size : ℕ) (har : Har) (queue : List Candidate)
      → IsDropped har queue (fit_loop entry_text reply_text limit size har queue)
  unfolding fit_loop drop_all
  fit_loop-IsDropped limit size har [] = elim (Bool-cases (leb size limit)) [
    | inl fits ↦ rw fits (0, refl)
    | inr large ↦ rw large refl
  ]
  fit_loop-IsDropped limit size har (c ∷ queue) = elim (Bool-cases (leb size limit)) [
    | inl fits ↦ rw fits (0, refl)
    | inr large ↦ rw large (
        IsDropped-next har c queue _ (
          fit_loop-IsDropped limit
            (next_size entry_text reply_text limit size c.saving (drop_body har c))
            (drop_body har c) queue))
  ]

  pub fit_log-IsDropped :
      (log : Har) (limit : ℕ)
      → IsDropped log
          (candidates entry_text reply_text log.entries)
          (fit_log entry_text reply_text log limit)
  unfolding fit_log
  fit_log-IsDropped log limit =
      fit_loop-IsDropped limit (reply_bytes entry_text reply_text log) log
        (candidates entry_text reply_text log.entries)

  drop_body-IsShrunk :
      (log har : Har) (c : Candidate)
      → IsShrunk log har
      → IsCandidate entry_text reply_text har.entries c
      → IsShrunk log (drop_body har c)
  unfolding drop_body IsCounted
  drop_body-IsShrunk log har c h (e, found, of) =
      let fresh = All-get IsFresh har.entries c.index e h.fresh found in
      record {
        kept =
            subst (λ f. AreKept log.entries (set har.entries c.index f)) (sym of.shell_of)
              (AreKept-set log.entries har.entries c.index e h.kept found);
        fresh =
            All-set IsFresh har.entries c.index c.shell h.fresh
              (subst IsFresh (sym of.shell_of) (shell-IsFresh e fresh));
        counted = omega (
          arith,
          h.counted,
          total-set dropped_bodies har.entries c.index e c.shell found,
          ap dropped_bodies of.shell_of,
          dropped_bodies-shell e fresh,
          of.bodies_of,
        );
        same_pages = h.same_pages;
      }

  -- The size that the loop holds is the reply's, or it is too large.
  IsExact : ℕ → ℕ → Har → Type 0
  IsExact limit size har = (size ≡ reply_bytes entry_text reply_text har) ⊎ (limit < size)

  next_size-IsExact :
      (limit size saving : ℕ) (har : Har)
      → IsExact limit (next_size entry_text reply_text limit size saving har) har
  unfolding IsExact next_size
  next_size-IsExact limit size saving har = ground arith

  fits_reply :
      (limit size : ℕ) (har : Har)
      → IsExact limit size har
      → leb size limit ≡ true
      → reply_bytes entry_text reply_text har ≤ limit
  unfolding IsExact
  fits_reply limit size har h fits = ground (arith, h)

  fit_loop-IsFitted :
      (limit size : ℕ) (log har : Har) (queue : List Candidate)
      → IsExact limit size har
      → IsShrunk log har
      → IsQueue entry_text reply_text har.entries queue
      → IsFitted limit log (fit_loop entry_text reply_text limit size har queue)
  unfolding IsFitted fit_loop drop_body
  fit_loop-IsFitted limit size log har [] h s k = elim (Bool-cases (leb size limit)) [
    | inl fits ↦ rw fits (s, fits_reply limit size har h fits)
    | inr large ↦ rw large (har, s, refl)
  ]
  fit_loop-IsFitted limit size log har (c ∷ queue) h s (p, k) = elim (Bool-cases (leb size limit)) [
    | inl fits ↦ rw fits (s, fits_reply limit size har h fits)
    | inr large ↦ rw large (
        fit_loop-IsFitted limit
          (next_size entry_text reply_text limit size c.saving (drop_body har c)) log
          (drop_body har c) queue (next_size-IsExact limit size c.saving (drop_body har c))
          (drop_body-IsShrunk log har c s p) k)
  ]

  -- A log whose counter is right, and in which no body that is there is marked as dropped, is given
  -- back with a reply that fits and a counter that is right, its entries those of the log or their
  -- shells; the size of the error is that of such a log.
  pub fit_log-IsFitted :
      (log : Har) (limit : ℕ)
      → All IsFresh log.entries
      → IsCounted log
      → IsFitted limit log (fit_log entry_text reply_text log limit)
  unfolding fit_log IsExact
  fit_log-IsFitted log limit fresh counted =
      fit_loop-IsFitted limit (reply_bytes entry_text reply_text log) log log
        (candidates entry_text reply_text log.entries) (inl refl)
        (record {
          kept = kept_self log.entries;
          fresh = fresh;
          counted = counted;
          same_pages = refl;
        })
        (candidates-IsQueue entry_text reply_text log.entries)
