-- ===== src/Dispatch/Turns.antt =====
-- The turns of a command of extension/src/dispatch.ts keep it answered at most once.
use firefox_ctl.Base.{
  All, All-set, List, Option, Text, [], ap, if◌then◌else◌, inl, inr, length, none, refl, set, some,
  subst, sym, ℕ, ◌++◌, ◌∷◌, ◌≡◌, ◌≢◌,
}
use firefox_ctl.Lock.Tickets.{phase_at}
use firefox_ctl.Dispatch.{
  CommandRun, Dispatcher, Outcome, Progress, Stage, broken, finished, handling, is_state_command,
  locking, persisting, prepared, preparing, probing, put_run, settle,
}
use firefox_ctl.Dispatch.Answering.{
  AllAnswered, IsAnswered, abandon_preamble-runs, if-AllAnswered, leaves-IsAnswered,
  moves-IsAnswered, settle-IsAnswered,
}
use firefox_ctl.Dispatch.Steps.{
  after_attempt, enter, go_on, handler_settles, is_held, lock_settles, locked, persist_settles,
  preamble_settles, time_out, timed_out, wait_lock,
}
use firefox_ctl.Lock.{release, resume}

pub persist_settles-AllAnswered :
    (d : Dispatcher) (i : ℕ) (r : CommandRun) (s : Stage)
    → r.stage ≡ s
    → IsAnswered r
    → AllAnswered d
    → AllAnswered (persist_settles d i r s)
unfolding persist_settles
persist_settles-AllAnswered d i r (persisting t response) e h all =
    All-set IsAnswered d.runs i _ all (settle-IsAnswered r response (λ f. cc) h)
persist_settles-AllAnswered d i r _ e h all = all

pub handler_settles-AllAnswered :
    (outcome : Outcome) (d : Dispatcher) (i : ℕ) (r : CommandRun) (s : Stage)
    → r.stage ≡ s
    → IsAnswered r
    → AllAnswered d
    → AllAnswered (handler_settles outcome d i r s)
unfolding handler_settles
handler_settles-AllAnswered outcome d i r (handling t) e h all =
    All-set IsAnswered d.runs i _ all (moves-IsAnswered r _ (λ f. cc) (λ f. cc) h)
handler_settles-AllAnswered outcome d i r probing e h all =
    All-set IsAnswered d.runs i _ all (settle-IsAnswered r _ (λ f. cc) h)
handler_settles-AllAnswered outcome d i r _ e h all = all

module _ (commands : List Text) (show : ℕ → Text) where
  pub time_out-AllAnswered :
      (d : Dispatcher) (i : ℕ) (r : CommandRun) (s : Stage)
      → r.stage ≡ s
      → IsAnswered r
      → AllAnswered d
      → AllAnswered (time_out commands show d i r s)
  unfolding time_out
  time_out-AllAnswered d i r s e (inl open_run) all =
      simp (open_run.timer_on, time_out)
        (subst (All IsAnswered) (sym (abandon_preamble-runs _ r.preamble)) (
          All-set IsAnswered d.runs i _ all (
            inr (record {
              timer_off = refl;
              one_answer =
                  ap (λ answers. length (answers ++ timed_out commands show r ∷ []))
                    open_run.no_answer;
              over = inl refl;
            }))))
  time_out-AllAnswered d i r s e (inr closed) all = simp (closed.timer_off, time_out) all

  go_on-AllAnswered :
      (d : Dispatcher) (i : ℕ) (r : CommandRun)
      → r.stage ≢ finished
      → IsAnswered r
      → AllAnswered d
      → AllAnswered (go_on commands show d i r)
  unfolding go_on wait_lock enter
  go_on-AllAnswered d i r n h all =
      if-AllAnswered r.expired (put_run d i (settle r (timed_out commands show r)))
        (if is_state_command r.command.command then wait_lock d i r else enter d i r none)
        (All-set IsAnswered d.runs i _ all (settle-IsAnswered r (timed_out commands show r) n h))
        (if-AllAnswered (is_state_command r.command.command) (wait_lock d i r) (enter d i r none)
          (All-set IsAnswered d.runs i _ all (moves-IsAnswered r _ n (λ f. cc) h))
          (All-set IsAnswered d.runs i _ all (moves-IsAnswered r _ n (λ f. cc) h)))

  after_attempt-AllAnswered :
      (d : Dispatcher) (i : ℕ) (r : CommandRun) (o : Option Progress)
      → r.stage ≢ finished
      → IsAnswered r
      → AllAnswered d
      → AllAnswered (after_attempt commands show d i r o)
  unfolding after_attempt
  after_attempt-AllAnswered d i r (some prepared) n h all =
      go_on-AllAnswered d i (record r { preamble = none }) n (leaves-IsAnswered r h) all
  after_attempt-AllAnswered d i r (some (broken e)) n h all =
      All-set IsAnswered d.runs i _ all
        (settle-IsAnswered (record r { preamble = none }) _ n (leaves-IsAnswered r h))
  after_attempt-AllAnswered d i r _ n h all = all

  pub preamble_settles-AllAnswered :
      (d : Dispatcher) (i : ℕ) (r : CommandRun) (s : Stage)
      → r.stage ≡ s
      → IsAnswered r
      → AllAnswered d
      → AllAnswered (preamble_settles commands show d i r s)
  unfolding preamble_settles
  preamble_settles-AllAnswered d i r (preparing p) e h all =
      after_attempt-AllAnswered d i r _ (λ f. cc) h all
  preamble_settles-AllAnswered d i r _ e h all = all

  locked-AllAnswered :
      (d : Dispatcher) (i : ℕ) (r : CommandRun) (t : ℕ)
      → r.stage ≢ finished
      → IsAnswered r
      → AllAnswered d
      → AllAnswered (locked commands show d i r t)
  unfolding locked enter
  locked-AllAnswered d i r t n h all =
      if-AllAnswered r.expired
        (record d {
          lock = release d.lock t;
          runs = set d.runs i (settle r (timed_out commands show r));
        })
        (enter d i r (some t))
        (All-set IsAnswered d.runs i _ all (settle-IsAnswered r (timed_out commands show r) n h))
        (All-set IsAnswered d.runs i _ all (moves-IsAnswered r _ n (λ f. cc) h))

  pub lock_settles-AllAnswered :
      (d : Dispatcher) (i : ℕ) (r : CommandRun) (s : Stage)
      → r.stage ≡ s
      → IsAnswered r
      → AllAnswered d
      → AllAnswered (lock_settles commands show d i r s)
  unfolding lock_settles
  lock_settles-AllAnswered d i r (locking t) e h all =
      if-AllAnswered (is_held (phase_at (resume d.lock t) t))
        (locked commands show (record d { lock = resume d.lock t }) i r t)
        (record d { lock = resume d.lock t })
        (locked-AllAnswered (record d { lock = resume d.lock t }) i r t (λ f. cc) h all) all
  lock_settles-AllAnswered d i r _ e h all = all
