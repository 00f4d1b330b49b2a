-- ===== src/Har/Fit/Reference.antt =====
-- `fitLog` against a plain one, which writes out the whole reply after every body that it drops.
use firefox_ctl.Base.{
  List, Text, [], ap, arith, get_elem?, if◌then◌else◌, inl, leb, refl, set, some, ℕ, ◌+◌, ◌<◌, ◌∷◌,
  ◌≡◌, ◌≤◌, ◌⊎◌,
}
use firefox_ctl.Har.{Har, HarEntry}
use firefox_ctl.Har.Fit.{
  Candidate, Fitted, candidates, drop_body, entry_bytes, fit_log, fit_loop, fitted, next_size,
  reply_bytes, too_large,
}
use firefox_ctl.Har.Fit.Queue.{IsCandidate, IsQueue, candidates-IsQueue}

module _ (entry_text : HarEntry → Text) (reply_text : Har → Text) where
  -- The first of the logs that fits.
  unfoldable pub first_fit : ℕ → Har → List Candidate → Fitted
  unfolding reply_bytes drop_body
  first_fit limit har [] =
      if leb (reply_bytes entry_text reply_text har) limit
      then fitted har
      else too_large (reply_bytes entry_text reply_text har)
  first_fit limit har (next ∷ queue) =
      let later = first_fit limit (drop_body har next) queue in
      if leb (reply_bytes entry_text reply_text har) limit then fitted har else later

-- An entry's text is a part of the reply's, and a larger counter takes no fewer digits.
module _ (entry_text : HarEntry → Text) (reply_text : Har → Text)
    (swaps : (har : Har) (i : ℕ) (e f : HarEntry)
      → get_elem? har.entries i ≡ some e
      → reply_bytes entry_text reply_text (record har { entries = set har.entries i f })
          + entry_bytes entry_text reply_text e
        ≡ reply_bytes entry_text reply_text har + entry_bytes entry_text reply_text f)
    (grows : (har : Har) (n : ℕ)
      → reply_bytes entry_text reply_text har
        ≤ reply_bytes entry_text reply_text (record har {
          recording = record har.recording { dropped_bodies = har.recording.dropped_bodies + n };
        })) where
  -- The size that the loop holds is the reply's, or it is too large and the reply's is no less.
  IsEstimate : ℕ → ℕ → Har → Type 0
  IsEstimate limit size har =
      (size ≡ reply_bytes entry_text reply_text har)
      ⊎ ((limit < size) × (size ≤ reply_bytes entry_text reply_text har))

  -- A dropped body takes no more than its saving.
  drop_body_le :
      (har : Har) (c : Candidate)
      → IsCandidate entry_text reply_text har.entries c
      → reply_bytes entry_text reply_text har
        ≤ reply_bytes entry_text reply_text (drop_body har c) + c.saving
  unfolding drop_body
  drop_body_le har c (e, found, of) = omega (
    arith,
    swaps har c.index e c.shell found,
    ap (entry_bytes entry_text reply_text) of.shell_of,
    of.saving_of,
    grows (record har { entries = set har.entries c.index c.shell }) c.bodies,
  )

  next_size-IsEstimate :
      (limit size : ℕ) (har : Har) (c : Candidate)
      → IsEstimate limit size har
      → IsCandidate entry_text reply_text har.entries c
      → IsEstimate limit
          (next_size entry_text reply_text limit size c.saving (drop_body har c))
          (drop_body har c)
  unfolding IsEstimate next_size
  next_size-IsEstimate limit size har c h k = ground (arith, h, drop_body_le har c k)

  fit_loop-first_fit :
      (limit size : ℕ) (har : Har) (queue : List Candidate)
      → IsEstimate limit size har
      → IsQueue entry_text reply_text har.entries queue
      → fit_loop entry_text reply_text limit size har queue
        ≡ first_fit entry_text reply_text limit har queue
  unfolding fit_loop first_fit IsEstimate drop_body
  fit_loop-first_fit limit size har [] h k = ground (arith, h)
  fit_loop-first_fit limit size har (c ∷ queue) h (p, k) =
      let later =
        fit_loop-first_fit limit
          (next_size entry_text reply_text limit size c.saving (drop_body har c)) (drop_body har c)
          queue (next_size-IsEstimate limit size har c h p) k in
      ground (arith, h, later)

  -- The candidates are dropped until the whole reply fits, and no longer: measuring each entry once
  -- gives what measuring the reply each time gives.
  pub fit_log-first_fit :
      (har : Har) (limit : ℕ)
      → fit_log entry_text reply_text har limit
        ≡ first_fit entry_text reply_text limit har (candidates entry_text reply_text har.entries)
  unfolding fit_log IsEstimate
  fit_log-first_fit har limit =
      fit_loop-first_fit limit (reply_bytes entry_text reply_text har) har
        (candidates entry_text reply_text har.entries) (inl refl)
        (candidates-IsQueue entry_text reply_text har.entries)
