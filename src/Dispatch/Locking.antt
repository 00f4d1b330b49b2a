-- ===== src/Dispatch/Locking.antt =====
-- How a command of extension/src/dispatch.ts comes to the lock and enters.
use firefox_ctl.Base.{
  List, Option, Text, [], ap, get_elem?, if◌then◌else◌, inl, inr, length, none, refl, set, some,
  subst, suc, sym, true, zero, ℕ, ◌∙◌, ◌∷◌, ◌≡◌,
}
use firefox_ctl.Protocol.{failure}
use mathlib.Core.Bool.{false≢true}
use firefox_ctl.Lock.Tickets.{
  acquire-phase_at, acquire_free, acquire_new, phase_at, release-phase_at, resume-phase_at,
  resume_own,
}
use firefox_ctl.Dispatch.{
  CommandRun, Dispatcher, Progress, Stage, broken, handling, is_state_command, locking, prepared,
  preparing, put_run, settle,
}
use firefox_ctl.Dispatch.Steps.{
  after_attempt, enter, go_on, is_held, lock_settles, locked, preamble_settles, progress_at,
  timed_out, wait_lock,
}
use firefox_ctl.Dispatch.Holding.{Fits, Inv, RunFits, Turn, Turn-Inv, ticket_of}
use firefox_ctl.Dispatch.Passing.{
  finished_fits, if-Inv, no_ticket, quiet, settle-finished, settles-Inv,
}
use firefox_ctl.Lock.Invariant.{acquire-Inv, release-Inv, resume-Inv}
use firefox_ctl.Lock.{Phase, acquire, held, release, released, resume, waiting}

set_same :
    (rs : List CommandRun) (k : ℕ) (r : CommandRun) → get_elem? rs k ≡ some r → rs ≡ set rs k r
set_same [] k r e = refl
set_same (x ∷ rs) zero r e = let same : x ≡ r = cc in ap (λ y. y ∷ rs) same
set_same (x ∷ rs) (suc k) r e = ap (λ ys. x ∷ ys) (set_same rs k r e)

module _ (commands : List Text) (show : ℕ → Text) where
  wait_lock-Inv :
      (d : Dispatcher) (k : ℕ) (r s : CommandRun)
      → Inv d
      → get_elem? d.runs k ≡ some r
      → Inv (wait_lock d k s)
  unfolding wait_lock
  wait_lock-Inv d k r s h g =
      let v : CommandRun = record s { stage = locking (length d.lock.tickets) } in
      Turn-Inv d (wait_lock d k s) k r v (acquire d.lock) h
        (record {
          lock = acquire-Inv d.lock h.lock;
          here = g;
          others = λ u f n p. acquire-phase_at d.lock u f p;
          own = λ t p. inr (subst (λ n. phase_at d.lock n ≡ none) (inside p) (acquire_free d.lock));
          fits = acquire_new d.lock;
        })
        refl refl
    where
      inside : {m n : ℕ} → some m ≡ some n → m ≡ n
      inside e = cc

  go_on-Inv :
      (d : Dispatcher) (k : ℕ) (r s : CommandRun)
      → Inv d
      → get_elem? d.runs k ≡ some r
      → Inv (go_on commands show d k s)
  unfolding go_on enter
  go_on-Inv d k r s h g =
      if-Inv s.expired (put_run d k (settle s (timed_out commands show s)))
        (if is_state_command s.command.command then wait_lock d k s else enter d k s none)
        (λ late. settles-Inv d k r s (timed_out commands show s) h g)
        (λ in_time.
          if-Inv (is_state_command s.command.command) (wait_lock d k s) (enter d k s none)
            (λ state. wait_lock-Inv d k r s h g)
            (λ other.
              Turn-Inv d (enter d k s none) k r (record s { stage = handling none }) d.lock h
                (quiet d k r (record s { stage = handling none }) h g (λ t p. cc) other) refl refl))

  after_attempt-Inv :
      (d : Dispatcher) (k : ℕ) (r : CommandRun) (o : Option Progress)
      → Inv d
      → get_elem? d.runs k ≡ some r
      → Inv (after_attempt commands show d k r o)
  unfolding after_attempt
  after_attempt-Inv d k r (some prepared) h g = go_on-Inv d k r (record r { preamble = none }) h g
  after_attempt-Inv d k r (some (broken e)) h g =
      settles-Inv d k r (record r { preamble = none }) (failure r.command.id e) h g
  after_attempt-Inv d k r _ h g = h

  pub preamble_settles-Inv :
      (d : Dispatcher) (k : ℕ) (r : CommandRun) (s : Stage)
      → r.stage ≡ s
      → get_elem? d.runs k ≡ some r
      → Inv d
      → Inv (preamble_settles commands show d k r s)
  unfolding preamble_settles
  preamble_settles-Inv d k r (preparing p) e g h =
      after_attempt-Inv d k r (progress_at commands show d p) h g
  preamble_settles-Inv d k r _ e g h = h

  -- The turn that returns from `acquire`, as far as the lock goes.
  resumed-Turn :
      (d : Dispatcher) (k t : ℕ) (r v : CommandRun)
      → Inv d
      → get_elem? d.runs k ≡ some r
      → r.stage ≡ locking t
      → ((u : ℕ) → ticket_of v.stage ≡ some u → u ≡ t)
      → RunFits (resume d.lock t) v
      → Turn d k r v (resume d.lock t)
  resumed-Turn d k t r v h g e own fits = record {
    lock = resume-Inv d.lock t h.lock;
    here = g;
    others = λ u f n p. resume-phase_at d.lock t u (λ same. n (ap ticket_of e ∙ ap some same)) ∙ p;
    own = λ u p. inl (ap ticket_of e ∙ ap some (sym (own u p)));
    fits = fits;
  }

  is_held-held : (o : Option Phase) → is_held o ≡ true → o ≡ some held
  is_held-held none e = cc
  is_held-held (some waiting) e = cc
  is_held-held (some held) e = refl
  is_held-held (some released) e = cc

  locked-Inv :
      (d : Dispatcher) (k t : ℕ) (r : CommandRun)
      → Inv d
      → get_elem? d.runs k ≡ some r
      → r.stage ≡ locking t
      → phase_at (resume d.lock t) t ≡ some held
      → Inv (locked commands show (record d { lock = resume d.lock t }) k r t)
  unfolding locked enter
  locked-Inv d k t r h g e owns =
      let after : Dispatcher = record d { lock = resume d.lock t } in
      let late = settle r (timed_out commands show r) in
      let inside : CommandRun = record r { stage = handling (some t) } in
      let turn : Turn d k r inside (resume d.lock t) =
        resumed-Turn d k t r inside h g e (λ u p. cc) owns in
      if-Inv r.expired (record after { lock = release after.lock t; runs = set d.runs k late })
        (enter after k r (some t))
        (λ expired.
          Turn-Inv d _ k r late (release after.lock t) h
            (record {
              lock = release-Inv after.lock t turn.lock;
              here = g;
              others = λ u f n p.
                  release-phase_at after.lock t u (λ same. n (ap ticket_of e ∙ ap some same))
                  ∙ turn.others u f n p;
              own = λ u p.
                  absurd (no_ticket late.stage u (settle-finished r (timed_out commands show r)) p);
              fits =
                  finished_fits (release after.lock t) late
                    (settle-finished r (timed_out commands show r));
            })
            refl refl)
        (λ in_time.
          Turn-Inv d (enter after k r (some t)) k r inside (resume d.lock t) h turn refl refl)

  pub lock_settles-Inv :
      (d : Dispatcher) (k : ℕ) (r : CommandRun) (s : Stage)
      → r.stage ≡ s
      → get_elem? d.runs k ≡ some r
      → Inv d
      → Inv (lock_settles commands show d k r s)
  unfolding lock_settles
  lock_settles-Inv d k r (locking t) e g h =
      let after : Dispatcher = record d { lock = resume d.lock t } in
      let waits : phase_at d.lock t ≡ some waiting =
        subst (Fits d.lock (is_state_command r.command.command)) e (h.fits k r g) in
      if-Inv (is_held (phase_at after.lock t)) (locked commands show after k r t) after
        (λ owns. locked-Inv d k t r h g e (is_held-held (phase_at after.lock t) owns))
        (λ not_yet. elim (resume_own d.lock t waits) [
          | inl still ↦
              Turn-Inv d after k r r (resume d.lock t) h
                (resumed-Turn d k t r r h g e (λ u p. inside (sym p ∙ ap ticket_of e))
                  (subst (Fits after.lock (is_state_command r.command.command)) (sym e) still))
                refl (set_same d.runs k r g)
          | inr owns ↦ absurd (false≢true (sym not_yet ∙ ap is_held owns))
        ])
    where
      inside : {m n : ℕ} → some m ≡ some n → m ≡ n
      inside e = cc
  lock_settles-Inv d k r _ e g h = h
