-- ===== src/Dispatch/Tests.antt =====
-- Runs of the dispatcher of extension/src/dispatch.ts, and the theorems at concrete commands.
use firefox_ctl.Base.{
  All, List, Text, [], false, map, none, refl, some, text_beq, true, txt, ℕ, ◌++◌, ◌∷◌, ◌≡◌,
}
use firefox_ctl.Base.Json.{end, null}
use firefox_ctl.Memo.{abandon, begin, evict, fresh_memo, is_current, join, run}
use firefox_ctl.Memo.Fence.{empty, perform}
use firefox_ctl.Protocol.{
  ExtensionResponse, HostCommand, command_context, failure, is_command_name, request_budget_ms,
  success, timeout_of, without_request_timeout,
}
use firefox_ctl.Dispatch.{
  CommandRun, Dispatcher, abandon_preamble, abandon_restores, attached_restore, handling,
  is_probe_command, is_state_command, new_dispatcher, page_commands, prepare, preparing,
  probe_commands, registered, reply_of, returned, settle, state_commands, thrown,
  unsupported_frame_id,
}
use firefox_ctl.Dispatch.Answering.{IsAnswered}
use firefox_ctl.Dispatch.Answers.{play-IsAnswered}
use firefox_ctl.Dispatch.Steps.{
  Event, after_attempt, attempt_goes_on, attempt_settles, deadline, enter, enters, frame_text,
  go_on, handle, handled, handler_settles, handles, has_handler, lock_settles, locked, on_run,
  persist_settles, persisted, play, preamble_settles, prepares, settle_attempt, start, start_probe,
  start_run, step, time_out, timed_out, unknown_text, wait_lock,
}
use firefox_ctl.Lock.{acquire, initial, release, release_phase, resume, resumed}
use firefox_ctl.Dispatch.Entries.{calls}
use firefox_ctl.Dispatch.Expiry.{calls-play}
use firefox_ctl.Dispatch.Exclusion.{IsInside, play-exclusive}

dispatch_run : Unit {0}
unfolding initial acquire resumed resume release_phase release fresh_memo begin join run is_current
    evict abandon empty perform is_command_name command_context without_request_timeout
    request_budget_ms timeout_of probe_commands page_commands state_commands registered
    is_probe_command is_state_command unsupported_frame_id new_dispatcher settle reply_of
    abandon_restores abandon_preamble prepare attempt_goes_on settle_attempt enter wait_lock
    persist_settles handler_settles timed_out time_out go_on after_attempt preamble_settles locked
    lock_settles has_handler start_probe start_run unknown_text frame_text start handle on_run step
    play calls IsInside text_beq
dispatch_run = tt

abbrev commands : List Text
commands = txt "closeTab" ∷ txt "ping" ∷ txt "navigate" ∷ []

abbrev show : ℕ → Text
show n = txt "n"

abbrev named : Text → HostCommand
named name = record { id = txt "c"; command = name; params = end }

-- The turns of the first attempt of the preamble.
abbrev prepared_events : List Event
prepared_events =
    attempt_settles 0 none ∷ attempt_settles 0 none ∷ attempt_settles 0 none ∷ prepares 0 ∷ []

abbrev entered_events : List Event
entered_events =
    handles 7 (named (txt "closeTab"))
    ∷ handles 8 (named (txt "closeTab"))
    ∷ (prepared_events ++ prepares 1 ∷ enters 0 ∷ enters 1 ∷ [])

answers_of : List Event → List (List ExtensionResponse)
answers_of es = map (λ r. r.answers) (play commands show new_dispatcher es).runs

-- The second command does not enter while the first has the lock.
one_enters : (play commands show new_dispatcher entered_events).entered ≡ 0 ∷ []
unfolding dispatch_run
one_enters = refl

-- It enters once the first is done.
both_answer :
    answers_of (
      entered_events
      ++ handled 0 (returned null)
        ∷ persisted 0
        ∷ enters 1
        ∷ handled 1 (thrown (txt "no"))
        ∷ persisted 1
        ∷ [])
    ≡ (success (txt "c") null ∷ []) ∷ (failure (txt "c") (txt "no") ∷ []) ∷ []
unfolding dispatch_run answers_of
both_answer = refl

-- A restore that nobody waits for any more is abandoned.
abandons_restore :
    (play commands show new_dispatcher
      (handles 7 (named (txt "navigate")) ∷ attempt_settles 0 none ∷ deadline 0 ∷ [])).abandoned
    ≡ attached_restore 0 ∷ []
unfolding dispatch_run
abandons_restore = refl

refuses_unknown :
    answers_of (handles 7 (named (txt "nothing")) ∷ [])
    ≡ (failure (txt "c") (txt "UNKNOWN_COMMAND: nothing") ∷ []) ∷ []
unfolding dispatch_run answers_of
refuses_unknown = refl

play-IsAnswered_example : All IsAnswered (play commands show new_dispatcher entered_events).runs
play-IsAnswered_example = play-IsAnswered commands show entered_events

abbrev late : Dispatcher
late = play commands show new_dispatcher (handles 7 (named (txt "navigate")) ∷ deadline 0 ∷ [])

calls-play_example : calls 0 (play commands show late prepared_events) ≡ calls 0 late
unfolding dispatch_run
calls-play_example = calls-play commands show late prepared_events 0 (record {
  run = record {
    command = named (txt "navigate");
    ctx = record { budget_ms = 149000; deadline_at = 149007 };
    expired = true;
    preamble = some 0;
    stage = preparing 0;
    timer = false;
    answers = failure (txt "c") (txt "COMMAND_TIMEOUT: navigate did not finish within n ms.") ∷ [];
  };
  found = refl;
  late = refl;
})

abbrev inside : CommandRun
inside = record {
  command = named (txt "closeTab");
  ctx = record { budget_ms = 149000; deadline_at = 149007 };
  expired = false;
  preamble = none;
  stage = handling (some 0);
  timer = true;
  answers = [];
}

abbrev first : ℕ
first = 0

play-exclusive_example : first ≡ first
unfolding dispatch_run
play-exclusive_example =
    play-exclusive commands show entered_events first first inside inside refl refl refl refl tt tt
