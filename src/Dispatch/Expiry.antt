-- ===== src/Dispatch/Expiry.antt =====
-- A command of extension/src/dispatch.ts that waited past its deadline never enters.
use firefox_ctl.Base.{
  List, Option, Option-cases, Text, [], ap, arith, false, filter, get_elem?, get_elem?_lt,
  if◌then◌else◌, inl, inr, length, nat_beq, none, not, refl, set, some, true, ℕ, ◌++◌, ◌<◌, ◌∙◌,
  ◌∷◌, ◌≡◌,
}
use firefox_ctl.Memo.{Attempt, run, shared, started}
use firefox_ctl.Memo.Fence.{fails, perform, runs}
use firefox_ctl.Protocol.{CommandContext, HostCommand, command_context, without_request_timeout}
use firefox_ctl.Dispatch.{
  AttemptRun, CommandRun, Dispatcher, Stage, broken, is_probe_command, join_attempt, prepare,
  preparing, probing, unsupported_frame_id,
}
use firefox_ctl.Dispatch.Steps.{
  Event, answered_run, attempt_settles, deadline, enters, frame_text, handle, handled,
  handler_settles, handles, has_handler, is_settled, lock_settles, on_run, persist_settles,
  persisted, play, preamble_settles, prepares, refuse, settle_attempt, start, start_probe,
  start_run, step, time_out, unknown_text, waiting_run,
}
use firefox_ctl.Dispatch.Entries.{IsLate, Stays, added, append-IsLate, calls, if-Stays, same-Stays}
use firefox_ctl.Dispatch.Late.{
  handler_settles-Stays, lock_settles-Stays, persist_settles-Stays, preamble_settles-Stays,
  time_out-Stays,
}

module _ (commands : List Text) (show : ℕ → Text) (i : ℕ) where
  added-Stays :
      (d after : Dispatcher) (r : CommandRun)
      → after.runs ≡ d.runs ++ r ∷ []
      → after.entered ≡ d.entered
      → IsLate i d
      → Stays i d after
  unfolding calls
  added-Stays d after r e f h = record {
    is_late = append-IsLate i d after r e h;
    same_calls = ap (λ js. length (filter (λ j. nat_beq j i) js)) f;
  }

  join-Stays :
      (d : Dispatcher) (a : Attempt)
      → ((join_attempt d a).runs ≡ d.runs) × ((join_attempt d a).entered ≡ d.entered)
  join-Stays d (shared p) = (refl, refl)
  join-Stays d (started p epoch) = (refl, refl)

  not_last : (n j : ℕ) → j < n → nat_beq n j ≡ false
  not_last n j h = ground arith

  start-Stays :
      (d : Dispatcher) (c : HostCommand) (ctx : CommandContext)
      → IsLate i d
      → Stays i d (start commands show d c ctx)
  unfolding start start_probe start_run calls prepare
  start-Stays d c ctx h =
      if-Stays i d (is_probe_command c.command) (start_probe commands show d c ctx)
        (start_run commands show d c ctx)
        (λ probe. record {
          is_late =
              append-IsLate i d (start_probe commands show d c ctx)
                (waiting_run commands show c ctx none probing) refl h;
          same_calls =
              added i (length d.runs) d.entered
                (not_last (length d.runs) i (get_elem?_lt d.runs i h.run h.found));
        })
        (λ other.
          added-Stays d (start_run commands show d c ctx)
            (waiting_run commands show c ctx (some (prepare d).1) (preparing (prepare d).1))
            (ap
              (λ rs.
                rs
                ++ waiting_run commands show c ctx (some (prepare d).1) (preparing (prepare d).1)
                  ∷ [])
              (join-Stays (record d { preamble = perform d.preamble (runs true) })
                (run d.preamble.memo d.preamble.next true).1).0)
            (join-Stays (record d { preamble = perform d.preamble (runs true) })
              (run d.preamble.memo d.preamble.next true).1).1
            h)

  handle-Stays :
      (d : Dispatcher) (now : ℕ) (c : HostCommand)
      → IsLate i d
      → Stays i d (handle commands show d now c)
  unfolding handle
  handle-Stays d now c h =
      let ctx = command_context c.params now in
      let scoped : HostCommand = record c { params = without_request_timeout c.params } in
      if-Stays i d (not (has_handler commands show c.command))
        (refuse commands show d c ctx (unknown_text commands show c))
        (if unsupported_frame_id c
          then refuse commands show d c ctx (frame_text commands show c)
          else start commands show d scoped ctx)
        (λ unknown.
          added-Stays d _ (answered_run commands show c ctx (unknown_text commands show c)) refl
            refl h)
        (λ known.
          if-Stays i d (unsupported_frame_id c)
            (refuse commands show d c ctx (frame_text commands show c))
            (start commands show d scoped ctx)
            (λ refused.
              added-Stays d _ (answered_run commands show c ctx (frame_text commands show c)) refl
                refl h)
            (λ starts. start-Stays d scoped ctx h))

  settle_attempt-Stays :
      (d : Dispatcher) (p : ℕ) (a : AttemptRun) (o : Option Text)
      → IsLate i d
      → Stays i d (settle_attempt d p a o)
  unfolding settle_attempt
  settle_attempt-Stays d p a none h = same-Stays i d _ refl refl h
  settle_attempt-Stays d p a (some e) h =
      if-Stays i d (is_settled a.progress) d
        (record d {
          attempts = set d.attempts p (record a { progress = broken e });
          preamble = perform d.preamble (fails p);
        })
        (λ over. same-Stays i d d refl refl h) (λ goes_on. same-Stays i d _ refl refl h)

  on_run-Stays :
      (turn : Dispatcher → ℕ → CommandRun → Stage → Dispatcher) (d : Dispatcher) (j : ℕ)
      → ((r : CommandRun) (s : Stage)
          → get_elem? d.runs j ≡ some r
          → IsLate i d
          → Stays i d (turn d j r s))
      → IsLate i d
      → Stays i d (on_run commands show turn d j)
  unfolding on_run
  on_run-Stays turn d j stays h = elim (Option-cases (get_elem? d.runs j)) [
    | inl e ↦ rw (e, on_run) (same-Stays i d d refl refl h)
    | inr (r, e) ↦ rw (e, on_run) (stays r r.stage e h)
  ]

  step-Stays : (d : Dispatcher) (e : Event) → IsLate i d → Stays i d (step commands show d e)
  unfolding step
  step-Stays d (handles now c) h = handle-Stays d now c h
  step-Stays d (deadline j) h =
      on_run-Stays (time_out commands show) d j (time_out-Stays commands show i d j) h
  step-Stays d (attempt_settles p o) h = elim (Option-cases (get_elem? d.attempts p)) [
    | inl e ↦ rw (e, step) (same-Stays i d d refl refl h)
    | inr (a, e) ↦ rw (e, step) (settle_attempt-Stays d p a o h)
  ]
  step-Stays d (prepares j) h =
      on_run-Stays (preamble_settles commands show) d j (preamble_settles-Stays commands show i d j)
        h
  step-Stays d (enters j) h =
      on_run-Stays (lock_settles commands show) d j (lock_settles-Stays commands show i d j) h
  step-Stays d (handled j outcome) h =
      on_run-Stays (handler_settles outcome) d j (handler_settles-Stays commands show i outcome d j)
        h
  step-Stays d (persisted j) h =
      on_run-Stays persist_settles d j (persist_settles-Stays commands show i d j) h

  play-Stays :
      (d : Dispatcher) (es : List Event)
      → IsLate i d
      → calls i (play commands show d es) ≡ calls i d
  unfolding play
  play-Stays d [] h = refl
  play-Stays d (e ∷ es) h =
      let after = step-Stays d e h in
      play-Stays (step commands show d e) es after.is_late ∙ after.same_calls

-- Once the deadline of a command has passed its handler is not called any more, whatever happens: a
-- command that waited for its preamble or for the lock never enters.
pub calls-play :
    (commands : List Text) (show : ℕ → Text) (d : Dispatcher) (es : List Event) (i : ℕ)
    → IsLate i d
    → calls i (play commands show d es) ≡ calls i d
calls-play commands show d es i h = play-Stays commands show i d es h
