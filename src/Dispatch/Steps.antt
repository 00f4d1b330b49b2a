-- ===== src/Dispatch/Steps.antt =====
-- The turns of extension/src/dispatch.ts. `commands` are the names of the command table, `show`
-- writes a number.
use firefox_ctl.Base.{
  Bool, List, Option, Text, [], false, get_elem?, if◌then◌else◌, length, mem_beq, nat_eq, none, not,
  set, some, text_eq, true, txt, ℕ, ◌&&◌, ◌++◌, ◌∷◌,
}
use firefox_ctl.Memo.{RestoreMemo, is_current}
use firefox_ctl.Memo.Fence.{fails, perform}
use firefox_ctl.Protocol.{
  CommandContext, ExtensionResponse, HostCommand, command_context, command_timeout, extension_error,
  failure, is_command_name, message, unknown_command, without_request_timeout,
}
use firefox_ctl.Lock.Tickets.{phase_at}
use firefox_ctl.Lock.{Phase, StateLock, acquire, held, release, resume}
use firefox_ctl.Dispatch.{
  AttemptRun, CommandRun, Dispatcher, Outcome, Progress, Stage, abandon_preamble, broken,
  dropping_pool, finished, handling, is_probe_command, is_state_command, locking, persisting,
  prepare, prepared, preparing, probing, put_run, registered, reply_of, restoring_attached,
  restoring_session, settle, unsupported_frame_id,
}

pub data Event : Type 0 where
  handles : ℕ → HostCommand → Event
  deadline : ℕ → Event
  attempt_settles : ℕ → Option Text → Event
  prepares enters : ℕ → Event
  handled : ℕ → Outcome → Event
  persisted : ℕ → Event

abbrev pub is_held : Option Phase → Bool
is_held (some held) = true
is_held other = false

-- `prepareOnce` after the await of one of its restores.
unfoldable pub attempt_goes_on : RestoreMemo → AttemptRun → AttemptRun
unfolding is_current
attempt_goes_on memo a = elim a.progress [
  | restoring_session ↦
      if is_current memo a.epoch
      then record a { session = false; progress = restoring_attached; attached = true }
      else record a { session = false; progress = prepared }
  | restoring_attached ↦
      if is_current memo a.epoch
      then record a { attached = false; progress = dropping_pool }
      else record a { attached = false; progress = prepared }
  | dropping_pool ↦ record a { progress = prepared }
  | prepared ↦ a
  | broken e ↦ a
]

abbrev pub is_settled : Progress → Bool
is_settled prepared = true
is_settled (broken e) = true
is_settled other = false

-- A restore that failed fails the attempt, which the memo then evicts.
unfoldable pub settle_attempt : Dispatcher → ℕ → AttemptRun → Option Text → Dispatcher
unfolding attempt_goes_on perform
settle_attempt d p a none = record d {
  attempts = set d.attempts p (attempt_goes_on d.preamble.memo a);
}
settle_attempt d p a (some e) = if is_settled a.progress then d else record d {
  attempts = set d.attempts p (record a { progress = broken e });
  preamble = perform d.preamble (fails p);
}

-- The call of the handler.
unfoldable pub enter : Dispatcher → ℕ → CommandRun → Option ℕ → Dispatcher
enter d i r ticket = record d {
  runs = set d.runs i (record r { stage = handling ticket });
  entered = d.entered ++ i ∷ [];
}

unfoldable pub wait_lock : Dispatcher → ℕ → CommandRun → Dispatcher
wait_lock d i r = record d {
  lock = acquire d.lock;
  runs = set d.runs i (record r { stage = locking (length d.lock.tickets) });
}

abbrev pub release_ticket : StateLock → Option ℕ → StateLock
release_ticket l none = l
release_ticket l (some t) = release l t

-- `persist` has settled, whether it failed or not.
unfoldable pub persist_settles : Dispatcher → ℕ → CommandRun → Stage → Dispatcher
unfolding settle
persist_settles d i r (persisting ticket response) = record d {
  lock = release_ticket d.lock ticket;
  runs = set d.runs i (settle r response);
}
persist_settles d i r other = d

-- The handler has settled: `execute` goes on to persist, and a probe is done.
unfoldable pub handler_settles : Outcome → Dispatcher → ℕ → CommandRun → Stage → Dispatcher
unfolding settle reply_of
handler_settles outcome d i r (handling ticket) =
    put_run d i (record r { stage = persisting ticket (reply_of r.command outcome) })
handler_settles outcome d i r probing = put_run d i (settle r (reply_of r.command outcome))
handler_settles outcome d i r other = d

module _ (commands : List Text) (show : ℕ → Text) where
  unfoldable pub timed_out : CommandRun → ExtensionResponse
  timed_out r = failure r.command.id (
      message (
        extension_error command_timeout (
          r.command.command
          ++ (txt " did not finish within " ++ (show r.ctx.budget_ms ++ txt " ms.")))))

  -- The deadline's timer fires.
  unfoldable pub time_out : Dispatcher → ℕ → CommandRun → Stage → Dispatcher
  unfolding timed_out abandon_preamble
  time_out d i r stage =
      if r.timer
      then abandon_preamble
          (put_run d i
            (record r { expired = true; timer = false; answers = r.answers ++ timed_out r ∷ [] }))
          r.preamble
      else d

  -- What `run` does once the preamble is there.
  unfoldable pub go_on : Dispatcher → ℕ → CommandRun → Dispatcher
  unfolding settle timed_out is_state_command wait_lock enter
  go_on d i r =
      if r.expired
      then put_run d i (settle r (timed_out r))
      else if is_state_command r.command.command
      then wait_lock d i r
      else enter d i r none

  abbrev pub progress_at : Dispatcher → ℕ → Option Progress
  progress_at d p = elim (get_elem? d.attempts p) [ none ↦ none | some a ↦ some a.progress ]

  unfoldable pub after_attempt : Dispatcher → ℕ → CommandRun → Option Progress → Dispatcher
  unfolding go_on settle
  after_attempt d i r (some prepared) = go_on d i (record r { preamble = none })
  after_attempt d i r (some (broken e)) =
      put_run d i (settle (record r { preamble = none }) (failure r.command.id e))
  after_attempt d i r other = d

  -- The run returns from the `await` of its attempt, if that has settled.
  unfoldable pub preamble_settles : Dispatcher → ℕ → CommandRun → Stage → Dispatcher
  unfolding after_attempt
  preamble_settles d i r (preparing p) = after_attempt d i r (progress_at d p)
  preamble_settles d i r other = d

  -- The run holds the lock.
  unfoldable pub locked : Dispatcher → ℕ → CommandRun → ℕ → Dispatcher
  unfolding settle timed_out enter
  locked d i r t =
      if r.expired
      then record d { lock = release d.lock t; runs = set d.runs i (settle r (timed_out r)) }
      else enter d i r (some t)

  -- The run returns from `acquire`, if the lock was passed on to it.
  unfoldable pub lock_settles : Dispatcher → ℕ → CommandRun → Stage → Dispatcher
  unfolding locked
  lock_settles d i r (locking t) =
      let after : Dispatcher = record d { lock = resume d.lock t } in
      if is_held (phase_at after.lock t) then locked after i r t else after
  lock_settles d i r other = d

  abbrev pub answered_run : HostCommand → CommandContext → Text → CommandRun
  answered_run c ctx error = record {
    command = c;
    ctx = ctx;
    expired = false;
    preamble = none;
    stage = finished;
    timer = false;
    answers = failure c.id error ∷ [];
  }

  abbrev pub waiting_run : HostCommand → CommandContext → Option ℕ → Stage → CommandRun
  waiting_run c ctx preamble stage = record {
    command = c;
    ctx = ctx;
    expired = false;
    preamble = preamble;
    stage = stage;
    timer = true;
    answers = [];
  }

  abbrev pub add_run : Dispatcher → CommandRun → Dispatcher
  add_run d r = record d { runs = d.runs ++ r ∷ [] }

  -- `has`
  unfoldable pub has_handler : Text → Bool
  unfolding is_command_name registered
  has_handler name = is_command_name commands name && mem_beq name registered

  abbrev pub refuse : Dispatcher → HostCommand → CommandContext → Text → Dispatcher
  refuse d c ctx error = add_run d (answered_run c ctx error)

  unfoldable pub start_probe : Dispatcher → HostCommand → CommandContext → Dispatcher
  start_probe d c ctx = record d {
    runs = d.runs ++ waiting_run c ctx none probing ∷ [];
    entered = d.entered ++ length d.runs ∷ [];
  }

  unfoldable pub start_run : Dispatcher → HostCommand → CommandContext → Dispatcher
  unfolding prepare
  start_run d c ctx =
      let begun = prepare d in
      add_run begun.0 (waiting_run c ctx (some begun.1) (preparing begun.1))

  unfoldable pub unknown_text : HostCommand → Text
  unknown_text c = message (extension_error unknown_command c.command)

  unfoldable pub frame_text : HostCommand → Text
  frame_text c = txt "frameId is not supported by " ++ (c.command ++ txt ".")

  -- What `handle` awaits for a command that it does not refuse.
  unfoldable pub start : Dispatcher → HostCommand → CommandContext → Dispatcher
  unfolding is_probe_command start_probe start_run
  start d c ctx = if is_probe_command c.command then start_probe d c ctx else start_run d c ctx

  -- `handle`, up to the first `await`.
  unfoldable pub handle : Dispatcher → ℕ → HostCommand → Dispatcher
  unfolding has_handler unsupported_frame_id start unknown_text frame_text command_context
      without_request_timeout
  handle d now c =
      let ctx = command_context c.params now in
      if not (has_handler c.command)
      then refuse d c ctx (unknown_text c)
      else if unsupported_frame_id c
      then refuse d c ctx (frame_text c)
      else start d (record c { params = without_request_timeout c.params }) ctx

  -- A turn of a run that there is.
  unfoldable pub on_run :
      (Dispatcher → ℕ → CommandRun → Stage → Dispatcher) → Dispatcher → ℕ → Dispatcher
  on_run turn d i = elim (get_elem? d.runs i) [ none ↦ d | some r ↦ turn d i r r.stage ]

  unfoldable pub step : Dispatcher → Event → Dispatcher
  unfolding handle on_run time_out settle_attempt preamble_settles lock_settles handler_settles
      persist_settles
  step d (handles now c) = handle d now c
  step d (deadline i) = on_run time_out d i
  step d (attempt_settles p e) = elim (get_elem? d.attempts p) [
    | none ↦ d
    | some a ↦ settle_attempt d p a e
  ]
  step d (prepares i) = on_run preamble_settles d i
  step d (enters i) = on_run lock_settles d i
  step d (handled i outcome) = on_run (handler_settles outcome) d i
  step d (persisted i) = on_run persist_settles d i

  unfoldable pub play : Dispatcher → List Event → Dispatcher
  unfolding step
  play d [] = d
  play d (e ∷ es) = play (step d e) es
