-- ===== src/Dispatch/Answers.antt =====
-- What each command of extension/src/dispatch.ts has answered, whatever happens.
use firefox_ctl.Base.{
  All, All-append, All-get, List, Option, Option-cases, Text, [], get_elem?, if◌then◌else◌, inl,
  inr, none, not, refl, set, some, true, ℕ, ◌++◌, ◌∷◌, ◌≡◌, ◌≢◌,
}
use firefox_ctl.Memo.{Attempt, run, shared, started}
use firefox_ctl.Protocol.{CommandContext, HostCommand, command_context, without_request_timeout}
use firefox_ctl.Memo.Fence.{fails, perform}
use firefox_ctl.Dispatch.{
  AttemptRun, CommandRun, Dispatcher, Stage, broken, finished, is_probe_command, join_attempt,
  new_dispatcher, prepare, preparing, probing, unsupported_frame_id,
}
use firefox_ctl.Dispatch.Answering.{AllAnswered, IsAnswered, if-AllAnswered}
use firefox_ctl.Dispatch.Steps.{
  Event, answered_run, attempt_settles, deadline, enters, frame_text, handle, handled,
  handler_settles, handles, has_handler, is_settled, lock_settles, on_run, persist_settles,
  persisted, play, preamble_settles, prepares, refuse, settle_attempt, start, start_probe,
  start_run, step, time_out, unknown_text, waiting_run,
}
use firefox_ctl.Dispatch.Turns.{
  handler_settles-AllAnswered, lock_settles-AllAnswered, persist_settles-AllAnswered,
  preamble_settles-AllAnswered, time_out-AllAnswered,
}

module _ (commands : List Text) (show : ℕ → Text) where
  settle_attempt-AllAnswered :
      (d : Dispatcher) (p : ℕ) (a : AttemptRun) (o : Option Text)
      → AllAnswered d
      → AllAnswered (settle_attempt d p a o)
  unfolding settle_attempt
  settle_attempt-AllAnswered d p a none all = all
  settle_attempt-AllAnswered d p a (some e) all =
      if-AllAnswered (is_settled a.progress) d
        (record d {
          attempts = set d.attempts p (record a { progress = broken e });
          preamble = perform d.preamble (fails p);
        })
        all all

  join-AllAnswered : (d : Dispatcher) (a : Attempt) → AllAnswered d → AllAnswered (join_attempt d a)
  join-AllAnswered d (shared p) all = all
  join-AllAnswered d (started p epoch) all = all

  prepare-AllAnswered : (d : Dispatcher) → AllAnswered d → AllAnswered (prepare d).0
  unfolding prepare
  prepare-AllAnswered d all = join-AllAnswered _ (run d.preamble.memo d.preamble.next true).1 all

  waiting-IsAnswered :
      (c : HostCommand) (ctx : CommandContext) (o : Option ℕ) (s : Stage)
      → s ≢ finished
      → IsAnswered (waiting_run commands show c ctx o s)
  waiting-IsAnswered c ctx o s n =
      inl (record { timer_on = refl; no_answer = refl; in_time = refl; running = n })

  refused_run-IsAnswered :
      (c : HostCommand) (ctx : CommandContext) (error : Text)
      → IsAnswered (answered_run commands show c ctx error)
  refused_run-IsAnswered c ctx error =
      inr (record { timer_off = refl; one_answer = refl; over = inr refl })

  All-added :
      (rs : List CommandRun) (r : CommandRun)
      → All IsAnswered rs
      → IsAnswered r
      → All IsAnswered (rs ++ r ∷ [])
  All-added rs r all h = All-append IsAnswered rs (r ∷ []) all (h, tt)

  refuse-AllAnswered :
      (d : Dispatcher) (c : HostCommand) (ctx : CommandContext) (error : Text)
      → AllAnswered d
      → AllAnswered (refuse commands show d c ctx error)
  refuse-AllAnswered d c ctx error all =
      All-added d.runs (answered_run commands show c ctx error) all
        (refused_run-IsAnswered c ctx error)

  start-AllAnswered :
      (d : Dispatcher) (c : HostCommand) (ctx : CommandContext)
      → AllAnswered d
      → AllAnswered (start commands show d c ctx)
  unfolding start start_probe start_run
  start-AllAnswered d c ctx all =
      if-AllAnswered (is_probe_command c.command) (start_probe commands show d c ctx)
        (start_run commands show d c ctx)
        (All-added d.runs _ all (waiting-IsAnswered c ctx none probing (λ f. cc)))
        (All-added (prepare d).0.runs _ (prepare-AllAnswered d all)
          (waiting-IsAnswered c ctx (some (prepare d).1) (preparing (prepare d).1) (λ f. cc)))

  handle-AllAnswered :
      (d : Dispatcher) (now : ℕ) (c : HostCommand)
      → AllAnswered d
      → AllAnswered (handle commands show d now c)
  unfolding handle
  handle-AllAnswered d now c all =
      let ctx = command_context c.params now in
      let scoped : HostCommand = record c { params = without_request_timeout c.params } in
      if-AllAnswered (not (has_handler commands show c.command))
        (refuse commands show d c ctx (unknown_text commands show c))
        (if unsupported_frame_id c
          then refuse commands show d c ctx (frame_text commands show c)
          else start commands show d scoped ctx)
        (refuse-AllAnswered d c ctx (unknown_text commands show c) all)
        (if-AllAnswered (unsupported_frame_id c)
          (refuse commands show d c ctx (frame_text commands show c))
          (start commands show d scoped ctx)
          (refuse-AllAnswered d c ctx (frame_text commands show c) all)
          (start-AllAnswered d scoped ctx all))

  -- A turn of one run keeps what each step of it keeps.
  on_run-AllAnswered :
      (turn : Dispatcher → ℕ → CommandRun → Stage → Dispatcher) (d : Dispatcher) (i : ℕ)
      → ((r : CommandRun) (s : Stage)
          → r.stage ≡ s
          → IsAnswered r
          → AllAnswered d
          → AllAnswered (turn d i r s))
      → AllAnswered d
      → AllAnswered (on_run commands show turn d i)
  unfolding on_run
  on_run-AllAnswered turn d i keeps all = elim (Option-cases (get_elem? d.runs i)) [
    | inl e ↦ rw (e, on_run) all
    | inr (r, e) ↦ rw (e, on_run) (keeps r r.stage refl (All-get IsAnswered d.runs i r all e) all)
  ]

  step-AllAnswered :
      (d : Dispatcher) (e : Event) → AllAnswered d → AllAnswered (step commands show d e)
  unfolding step
  step-AllAnswered d (handles now c) all = handle-AllAnswered d now c all
  step-AllAnswered d (deadline i) all =
      on_run-AllAnswered (time_out commands show) d i (time_out-AllAnswered commands show d i) all
  step-AllAnswered d (attempt_settles p o) all = elim (Option-cases (get_elem? d.attempts p)) [
    | inl e ↦ rw (e, step) all
    | inr (a, e) ↦ rw (e, step) (settle_attempt-AllAnswered d p a o all)
  ]
  step-AllAnswered d (prepares i) all =
      on_run-AllAnswered (preamble_settles commands show) d i
        (preamble_settles-AllAnswered commands show d i) all
  step-AllAnswered d (enters i) all =
      on_run-AllAnswered (lock_settles commands show) d i
        (lock_settles-AllAnswered commands show d i) all
  step-AllAnswered d (handled i outcome) all =
      on_run-AllAnswered (handler_settles outcome) d i (handler_settles-AllAnswered outcome d i) all
  step-AllAnswered d (persisted i) all =
      on_run-AllAnswered persist_settles d i (persist_settles-AllAnswered d i) all

  play-AllAnswered :
      (d : Dispatcher) (es : List Event) → AllAnswered d → AllAnswered (play commands show d es)
  unfolding play
  play-AllAnswered d [] all = all
  play-AllAnswered d (e ∷ es) all =
      play-AllAnswered (step commands show d e) es (step-AllAnswered d e all)

  -- Whatever happens, a command has no answer while its timer runs, and then it is still going on;
  -- else it has exactly one, and its deadline has passed or it is done.
  pub play-IsAnswered :
      (es : List Event) → All IsAnswered (play commands show new_dispatcher es).runs
  unfolding new_dispatcher
  play-IsAnswered es = play-AllAnswered new_dispatcher es tt
