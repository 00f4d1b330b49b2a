-- ===== src/Dispatch/Exclusion.antt =====
-- State commands of extension/src/dispatch.ts, one at a time.
use firefox_ctl.Base.{
  List, Option, Option-cases, Text, [], ap, get_elem?, if◌then◌else◌, inl, inr, none, not, refl,
  set, some, subst, suc, sym, true, zero, ℕ, ◌++◌, ◌∙◌, ◌∷◌, ◌≡◌, ◌≢◌, ◌⊎◌,
}
use mathlib.Core.Bool.{false≢true}
use firefox_ctl.Memo.{Attempt, run, shared, started}
use firefox_ctl.Memo.Fence.{fails, perform, runs}
use firefox_ctl.Protocol.{CommandContext, HostCommand, command_context, without_request_timeout}
use firefox_ctl.Lock.Tickets.{phase_at, ticket_at}
use firefox_ctl.Lock.Fairness.{held_once}
use firefox_ctl.Dispatch.{
  AttemptRun, CommandRun, Dispatcher, Stage, broken, finished, handling, is_probe_command,
  is_state_command, join_attempt, locking, new_dispatcher, persisting, prepare, preparing, probing,
  unsupported_frame_id,
}
use firefox_ctl.Dispatch.Steps.{
  Event, answered_run, attempt_settles, deadline, enters, frame_text, handle, handled,
  handler_settles, handles, has_handler, is_settled, lock_settles, on_run, persist_settles,
  persisted, play, preamble_settles, prepares, refuse, settle_attempt, start, start_probe,
  start_run, step, time_out, unknown_text, waiting_run,
}
use firefox_ctl.Dispatch.Holding.{Fits, Inv, RunFits, ticket_of}
use firefox_ctl.Dispatch.Passing.{handler_settles-Inv, if-Inv, persist_settles-Inv, time_out-Inv}
use firefox_ctl.Dispatch.Locking.{lock_settles-Inv, preamble_settles-Inv}
use firefox_ctl.Lock.Invariant as Lock
use firefox_ctl.Lock.Invariant.{initial-Inv}
use firefox_ctl.Lock.{StateLock, held}

appended :
    (rs : List CommandRun) (v : CommandRun) (i : ℕ) (s : CommandRun)
    → get_elem? (rs ++ v ∷ []) i ≡ some s
    → (get_elem? rs i ≡ some s) ⊎ (v ≡ s)
appended [] v zero s e = inr cc
appended [] v (suc i) s e = cc
appended (x ∷ rs) v zero s e = inl e
appended (x ∷ rs) v (suc i) s e = appended rs v i s e

-- A command that arrives has no ticket.
append-Inv :
    (d after : Dispatcher) (v : CommandRun)
    → Inv d
    → after.lock ≡ d.lock
    → after.runs ≡ d.runs ++ v ∷ []
    → ticket_of v.stage ≡ none
    → RunFits d.lock v
    → Inv after
append-Inv d after v h e f n fits = record {
  lock = subst Lock.Inv (sym e) h.lock;
  fits = λ i s g.
      subst (λ l. RunFits l s) (sym e)
        (elim (old i s g) [
          | inl there ↦ h.fits i s there
          | inr new ↦ subst (RunFits d.lock) new fits
        ]);
  once = λ i j t r s g k p q. elim (old i r g) [
    | inl there ↦ elim (old j s k) [
      | inl there' ↦ h.once i j t r s there there' p q
      | inr new ↦ absurd (without s t new q)
    ]
    | inr new ↦ absurd (without r t new p)
  ];
}
  where
    old :
        (i : ℕ) (s : CommandRun)
        → get_elem? after.runs i ≡ some s
        → (get_elem? d.runs i ≡ some s) ⊎ (v ≡ s)
    old i s g = appended d.runs v i s (ap (λ rs. get_elem? rs i) (sym f) ∙ g)

    without : (s : CommandRun) (t : ℕ) → v ≡ s → ticket_of s.stage ≢ some t
    without s t new p = cc (sym n ∙ ap (λ (x : CommandRun). ticket_of x.stage) new ∙ p)

module _ (commands : List Text) (show : ℕ → Text) where
  refuse-Inv :
      (d : Dispatcher) (c : HostCommand) (ctx : CommandContext) (error : Text)
      → Inv d
      → Inv (refuse commands show d c ctx error)
  refuse-Inv d c ctx error h =
      append-Inv d (refuse commands show d c ctx error) (answered_run commands show c ctx error) h
        refl refl refl tt

  join_attempt-Inv : (d : Dispatcher) (a : Attempt) → Inv d → Inv (join_attempt d a)
  join_attempt-Inv d (shared p) h = h
  join_attempt-Inv d (started p epoch) h = record { lock = h.lock; fits = h.fits; once = h.once }

  prepare-Inv : (d : Dispatcher) → Inv d → Inv (prepare d).0
  unfolding prepare
  prepare-Inv d h =
      join_attempt-Inv (record d { preamble = perform d.preamble (runs true) })
        (run d.preamble.memo d.preamble.next true).1
        (record { lock = h.lock; fits = h.fits; once = h.once })

  start-Inv :
      (d : Dispatcher) (c : HostCommand) (ctx : CommandContext)
      → Inv d
      → Inv (start commands show d c ctx)
  unfolding start start_probe start_run
  start-Inv d c ctx h =
      if-Inv (is_probe_command c.command) (start_probe commands show d c ctx)
        (start_run commands show d c ctx)
        (λ probe.
          append-Inv d (start_probe commands show d c ctx)
            (waiting_run commands show c ctx none probing) h refl refl refl tt)
        (λ other.
          append-Inv (prepare d).0 (start_run commands show d c ctx)
            (waiting_run commands show c ctx (some (prepare d).1) (preparing (prepare d).1))
            (prepare-Inv d h) refl refl refl tt)

  handle-Inv :
      (d : Dispatcher) (now : ℕ) (c : HostCommand) → Inv d → Inv (handle commands show d now c)
  unfolding handle
  handle-Inv d now c h =
      let ctx = command_context c.params now in
      let scoped : HostCommand = record c { params = without_request_timeout c.params } in
      if-Inv (not (has_handler commands show c.command))
        (refuse commands show d c ctx (unknown_text commands show c))
        (if unsupported_frame_id c
          then refuse commands show d c ctx (frame_text commands show c)
          else start commands show d scoped ctx)
        (λ unknown. refuse-Inv d c ctx (unknown_text commands show c) h)
        (λ known.
          if-Inv (unsupported_frame_id c)
            (refuse commands show d c ctx (frame_text commands show c))
            (start commands show d scoped ctx)
            (λ refused. refuse-Inv d c ctx (frame_text commands show c) h)
            (λ starts. start-Inv d scoped ctx h))

  settle_attempt-Inv :
      (d : Dispatcher) (p : ℕ) (a : AttemptRun) (o : Option Text)
      → Inv d
      → Inv (settle_attempt d p a o)
  unfolding settle_attempt
  settle_attempt-Inv d p a none h = record { lock = h.lock; fits = h.fits; once = h.once }
  settle_attempt-Inv d p a (some e) h =
      if-Inv (is_settled a.progress) d
        (record d {
          attempts = set d.attempts p (record a { progress = broken e });
          preamble = perform d.preamble (fails p);
        })
        (λ over. h) (λ goes_on. record { lock = h.lock; fits = h.fits; once = h.once })

  on_run-Inv :
      (turn : Dispatcher → ℕ → CommandRun → Stage → Dispatcher) (d : Dispatcher) (k : ℕ)
      → ((r : CommandRun) (s : Stage)
          → r.stage ≡ s
          → get_elem? d.runs k ≡ some r
          → Inv d
          → Inv (turn d k r s))
      → Inv d
      → Inv (on_run commands show turn d k)
  unfolding on_run
  on_run-Inv turn d k keeps h = elim (Option-cases (get_elem? d.runs k)) [
    | inl e ↦ rw (e, on_run) h
    | inr (r, e) ↦ rw (e, on_run) (keeps r r.stage refl e h)
  ]

  step-Inv : (d : Dispatcher) (e : Event) → Inv d → Inv (step commands show d e)
  unfolding step
  step-Inv d (handles now c) h = handle-Inv d now c h
  step-Inv d (deadline k) h =
      on_run-Inv (time_out commands show) d k (time_out-Inv commands show d k) h
  step-Inv d (attempt_settles p o) h = elim (Option-cases (get_elem? d.attempts p)) [
    | inl e ↦ rw (e, step) h
    | inr (a, e) ↦ rw (e, step) (settle_attempt-Inv d p a o h)
  ]
  step-Inv d (prepares k) h =
      on_run-Inv (preamble_settles commands show) d k (preamble_settles-Inv commands show d k) h
  step-Inv d (enters k) h =
      on_run-Inv (lock_settles commands show) d k (lock_settles-Inv commands show d k) h
  step-Inv d (handled k outcome) h =
      on_run-Inv (handler_settles outcome) d k (handler_settles-Inv outcome d k) h
  step-Inv d (persisted k) h = on_run-Inv persist_settles d k (persist_settles-Inv d k) h

  play-Inv : (d : Dispatcher) (es : List Event) → Inv d → Inv (play commands show d es)
  unfolding play
  play-Inv d [] h = h
  play-Inv d (e ∷ es) h = play-Inv (step commands show d e) es (step-Inv d e h)

new-Inv : Inv new_dispatcher
unfolding new_dispatcher
new-Inv = record { lock = initial-Inv; fits = λ i r e. cc; once = λ i j t r s e f. cc }

-- The handler runs, or what it did is being persisted.
unfoldable pub IsInside : Stage → Type 0
IsInside (handling ticket) = Unit
IsInside (persisting ticket response) = Unit
IsInside other = ⊥

-- A state command that is inside holds the lock.
Fits-IsInside :
    (l : StateLock) (s : Stage)
    → Fits l true s
    → IsInside s
    → (t : ℕ) × (ticket_of s ≡ some t) × (phase_at l t ≡ some held)
unfolding IsInside
Fits-IsInside l (handling (some t)) h k = (t, refl, h)
Fits-IsInside l (persisting (some t) response) h k = (t, refl, h)
Fits-IsInside l (handling none) h k = absurd (false≢true (sym h))
Fits-IsInside l (persisting none response) h k = absurd (false≢true (sym h))
Fits-IsInside l (preparing p) h k = absurd k
Fits-IsInside l (locking t) h k = absurd k
Fits-IsInside l probing h k = absurd k
Fits-IsInside l finished h k = absurd k

held_same :
    (l : StateLock) (t u : ℕ)
    → Lock.Inv l
    → phase_at l t ≡ some held
    → phase_at l u ≡ some held
    → t ≡ u
held_same l t u h e f =
    let x = ticket_at l t held e in
    let y = ticket_at l u held f in held_once l t u x.0 y.0 h x.1 y.1 x.2 y.2

-- However the turns of commands, deadlines, restores and handlers interleave, two state commands of
-- which each has its handler running or its state being persisted are the same command.
pub play-exclusive :
    (commands : List Text) (show : ℕ → Text) (es : List Event) (i j : ℕ) (r s : CommandRun)
    → get_elem? (play commands show new_dispatcher es).runs i ≡ some r
    → get_elem? (play commands show new_dispatcher es).runs j ≡ some s
    → is_state_command r.command.command ≡ true
    → is_state_command s.command.command ≡ true
    → IsInside r.stage
    → IsInside s.stage
    → i ≡ j
play-exclusive commands show es i j r s e f x y a b =
    let d = play commands show new_dispatcher es in
    let h = play-Inv commands show new_dispatcher es new-Inv in
    let p = Fits-IsInside d.lock r.stage (subst (λ t. Fits d.lock t r.stage) x (h.fits i r e)) a in
    let q = Fits-IsInside d.lock s.stage (subst (λ t. Fits d.lock t s.stage) y (h.fits j s f)) b in
    h.once i j p.0 r s e f p.1 (q.1 ∙ ap some (sym (held_same d.lock p.0 q.0 h.lock p.2 q.2)))
