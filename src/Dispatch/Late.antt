-- ===== src/Dispatch/Late.antt =====
-- The turns of extension/src/dispatch.ts call no handler of a command whose deadline has passed.
use firefox_ctl.Base.{
  Bool-cases, List, Option, Option-cases, Text, [], false, get_elem?, if◌then◌else◌, inl, inr,
  length, none, refl, set, some, sym, true, ℕ, ◌++◌, ◌∙◌, ◌∷◌, ◌≡◌,
}
use firefox_ctl.Memo.{abandon}
use firefox_ctl.Memo.Fence.{abandons, perform}
use firefox_ctl.Protocol.{failure}
use firefox_ctl.Lock.Tickets.{phase_at}
use firefox_ctl.Dispatch.{
  CommandRun, Dispatcher, Outcome, Progress, Stage, abandon_preamble, abandon_restores, broken,
  handling, is_state_command, locking, persisting, prepared, preparing, probing, put_run, reply_of,
  settle,
}
use firefox_ctl.Dispatch.Answering.{abandon_preamble-runs}
use firefox_ctl.Dispatch.Steps.{
  after_attempt, enter, go_on, handler_settles, is_held, lock_settles, locked, persist_settles,
  preamble_settles, progress_at, time_out, timed_out, wait_lock,
}
use firefox_ctl.Dispatch.Entries.{
  IsLate, Stays, calls, enter-Stays, if-Stays, same-Stays, set-Stays, settle_keeps,
}
use firefox_ctl.Lock.{release, resume}

abandon_restores-entered : (d : Dispatcher) → (abandon_restores d).entered ≡ d.entered
unfolding abandon_restores
abandon_restores-entered d = elim (Option-cases d.restores) [
  | inl e ↦ rw (e, abandon_restores) refl
  | inr (p, e) ↦ elim (Option-cases (get_elem? d.attempts p)) [
    | inl f ↦ rw (e, f, abandon_restores) refl
    | inr (a, f) ↦ rw (e, f, abandon_restores) refl
  ]
]

abandon_preamble-entered :
    (d : Dispatcher) (o : Option ℕ) → (abandon_preamble d o).entered ≡ d.entered
unfolding abandon_preamble
abandon_preamble-entered d none = refl
abandon_preamble-entered d (some p) = elim (Bool-cases (abandon d.preamble.memo p).1) [
  | inl e ↦
      rw (e, abandon_preamble)
        (abandon_restores-entered (record d { preamble = perform d.preamble (abandons p) }))
  | inr e ↦ rw (e, abandon_preamble) refl
]

module _ (commands : List Text) (show : ℕ → Text) (i : ℕ) where
  pub time_out-Stays :
      (d : Dispatcher) (j : ℕ) (r : CommandRun) (s : Stage)
      → get_elem? d.runs j ≡ some r
      → IsLate i d
      → Stays i d (time_out commands show d j r s)
  unfolding time_out
  time_out-Stays d j r s e h =
      let late : CommandRun = record r {
        expired = true;
        timer = false;
        answers = r.answers ++ timed_out commands show r ∷ [];
      } in
      if-Stays i d r.timer (abandon_preamble (put_run d j late) r.preamble) d
        (λ t.
          set-Stays i j d _ r late (abandon_preamble-runs (put_run d j late) r.preamble)
            (abandon_preamble-entered (put_run d j late) r.preamble) e (λ k. refl) h)
        (λ t. same-Stays i d d refl refl h)

  pub persist_settles-Stays :
      (d : Dispatcher) (j : ℕ) (r : CommandRun) (s : Stage)
      → get_elem? d.runs j ≡ some r
      → IsLate i d
      → Stays i d (persist_settles d j r s)
  unfolding persist_settles
  persist_settles-Stays d j r (persisting t response) e h =
      set-Stays i j d _ r (settle r response) refl refl e (settle_keeps r response) h
  persist_settles-Stays d j r _ e h = same-Stays i d d refl refl h

  pub handler_settles-Stays :
      (outcome : Outcome) (d : Dispatcher) (j : ℕ) (r : CommandRun) (s : Stage)
      → get_elem? d.runs j ≡ some r
      → IsLate i d
      → Stays i d (handler_settles outcome d j r s)
  unfolding handler_settles
  handler_settles-Stays outcome d j r (handling t) e h =
      set-Stays i j d _ r (record r { stage = persisting t (reply_of r.command outcome) }) refl refl
        e (λ k. k) h
  handler_settles-Stays outcome d j r probing e h =
      set-Stays i j d _ r (settle r (reply_of r.command outcome)) refl refl e
        (settle_keeps r (reply_of r.command outcome)) h
  handler_settles-Stays outcome d j r _ e h = same-Stays i d d refl refl h

  -- The run is the one that there is, but for its preamble.
  go_on-Stays :
      (d : Dispatcher) (j : ℕ) (r s : CommandRun)
      → get_elem? d.runs j ≡ some s
      → s.expired ≡ r.expired
      → IsLate i d
      → Stays i d (go_on commands show d j r)
  unfolding go_on wait_lock
  go_on-Stays d j r s e same h =
      if-Stays i d r.expired (put_run d j (settle r (timed_out commands show r)))
        (if is_state_command r.command.command then wait_lock d j r else enter d j r none)
        (λ late.
          set-Stays i j d _ s (settle r (timed_out commands show r)) refl refl e
            (λ k. settle_keeps r (timed_out commands show r) (sym same ∙ k)) h)
        (λ in_time.
          if-Stays i d (is_state_command r.command.command) (wait_lock d j r) (enter d j r none)
            (λ state.
              set-Stays i j d _ s (record r { stage = locking (length d.lock.tickets) }) refl refl e
                (λ k. sym same ∙ k) h)
            (λ other. enter-Stays i j d r none s e same in_time h))

  after_attempt-Stays :
      (d : Dispatcher) (j : ℕ) (r : CommandRun) (o : Option Progress)
      → get_elem? d.runs j ≡ some r
      → IsLate i d
      → Stays i d (after_attempt commands show d j r o)
  unfolding after_attempt
  after_attempt-Stays d j r (some prepared) e h =
      go_on-Stays d j (record r { preamble = none }) r e refl h
  after_attempt-Stays d j r (some (broken error)) e h =
      set-Stays i j d _ r (settle (record r { preamble = none }) (failure r.command.id error)) refl
        refl e (settle_keeps (record r { preamble = none }) (failure r.command.id error)) h
  after_attempt-Stays d j r _ e h = same-Stays i d d refl refl h

  pub preamble_settles-Stays :
      (d : Dispatcher) (j : ℕ) (r : CommandRun) (s : Stage)
      → get_elem? d.runs j ≡ some r
      → IsLate i d
      → Stays i d (preamble_settles commands show d j r s)
  unfolding preamble_settles
  preamble_settles-Stays d j r (preparing p) e h =
      after_attempt-Stays d j r (progress_at commands show d p) e h
  preamble_settles-Stays d j r _ e h = same-Stays i d d refl refl h

  pub lock_settles-Stays :
      (d : Dispatcher) (j : ℕ) (r : CommandRun) (s : Stage)
      → get_elem? d.runs j ≡ some r
      → IsLate i d
      → Stays i d (lock_settles commands show d j r s)
  unfolding lock_settles locked calls
  lock_settles-Stays d j r (locking t) e h =
      let after : Dispatcher = record d { lock = resume d.lock t } in
      let h' : IsLate i after = record { run = h.run; found = h.found; late = h.late } in
      if-Stays i d (is_held (phase_at after.lock t)) (locked commands show after j r t) after
        (λ held.
          if-Stays i d r.expired
            (record after {
              lock = release after.lock t;
              runs = set d.runs j (settle r (timed_out commands show r));
            })
            (enter after j r (some t))
            (λ late.
              set-Stays i j d _ r (settle r (timed_out commands show r)) refl refl e
                (settle_keeps r (timed_out commands show r)) h)
            (λ in_time.
              let entry = enter-Stays i j after r (some t) r e refl in_time h' in
              record { is_late = entry.is_late; same_calls = entry.same_calls }))
        (λ waits. same-Stays i d after refl refl h)
  lock_settles-Stays d j r _ e h = same-Stays i d d refl refl h
