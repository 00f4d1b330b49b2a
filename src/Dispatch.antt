-- ===== src/Dispatch.antt =====
-- extension/src/dispatch.ts: the commands in flight, from their frame to their answer.
--
-- An event is one turn of the event loop: a frame that arrives, a deadline, or the return from an
-- `await`. What a handler does, and what a restore does, is its event's argument. A run is known by
-- its place in `runs`, an attempt of the preamble by its promise, which is its place in `attempts`.
pub mod Steps
pub mod Answering
pub mod Turns
pub mod Answers
pub mod Entries
pub mod Late
pub mod Expiry
pub mod Holding
pub mod Passing
pub mod Locking
pub mod Exclusion
mod Tests
use firefox_ctl.Base.{
  Bool, List, Option, Text, [], false, get_elem?, if◌then◌else◌, is_some, mem_beq, nat_eq, none,
  not, set, some, text_eq, true, txt, ℕ, ◌&&◌, ◌++◌, ◌∷◌,
}
use firefox_ctl.Base.Json.{Json, get}
use firefox_ctl.Memo.{Attempt, abandon, run, shared, started}
use firefox_ctl.Memo.Fence.{History, abandons, empty, perform, runs}
use firefox_ctl.Lock.{StateLock, initial}
use firefox_ctl.Protocol.{CommandContext, ExtensionResponse, HostCommand, failure, success}

unfoldable pub probe_commands : List Text
probe_commands = txt "ping" ∷ txt "version" ∷ []

unfoldable pub page_commands : List Text
page_commands =
    txt "getContent"
    ∷ txt "click"
    ∷ txt "type"
    ∷ txt "pressKey"
    ∷ txt "scroll"
    ∷ txt "waitFor"
    ∷ txt "getPageState"
    ∷ txt "getAccessibilitySnapshot"
    ∷ txt "getElementInfo"
    ∷ txt "evaluate"
    ∷ txt "getConsoleLogs"
    ∷ txt "handleConsent"
    ∷ []

unfoldable pub state_commands : List Text
state_commands =
    txt "createWindow" ∷ txt "closeTab" ∷ txt "closeWindow" ∷ txt "attachTab" ∷ txt "detachTab" ∷ []

-- The names that `createDispatcher` gives a handler.
unfoldable pub registered : List Text
unfolding page_commands
registered =
    txt "ping"
    ∷ txt "version"
    ∷ txt "createWindow"
    ∷ txt "navigate"
    ∷ txt "canNavigate"
    ∷ txt "getWindowMode"
    ∷ txt "getActiveTab"
    ∷ txt "getTabs"
    ∷ txt "listAllTabs"
    ∷ txt "attachTab"
    ∷ txt "detachTab"
    ∷ txt "closeTab"
    ∷ txt "closeWindow"
    ∷ txt "getWindows"
    ∷ txt "resizeWindow"
    ∷ txt "setViewport"
    ∷ txt "screenshot"
    ∷ txt "getNetworkRequests"
    ∷ txt "watchFrames"
    ∷ txt "unwatchFrames"
    ∷ txt "listFrames"
    ∷ txt "exportCookies"
    ∷ txt "setCookie"
    ∷ txt "deleteCookies"
    ∷ txt "importCookies"
    ∷ txt "startHar"
    ∷ txt "stopHar"
    ∷ page_commands

unfoldable pub is_probe_command : Text → Bool
unfolding probe_commands
is_probe_command name = mem_beq name probe_commands

unfoldable pub is_state_command : Text → Bool
unfolding state_commands
is_state_command name = mem_beq name state_commands

unfoldable pub unsupported_frame_id : HostCommand → Bool
unfolding page_commands get
unsupported_frame_id c =
    is_some (get (txt "frameId") c.params) && not (mem_beq c.command page_commands)

-- Where a command is. A ticket is that of the lock, which only a state command takes.
pub data Stage : Type 0 where
  preparing locking : ℕ → Stage
  probing : Stage
  handling : Option ℕ → Stage
  persisting : Option ℕ → ExtensionResponse → Stage
  finished : Stage

-- A command in flight, with what it answered, and whether its deadline's timer runs.
pub record CommandRun : Type 0 where
  pub command : HostCommand
  pub ctx : CommandContext
  pub expired : Bool
  pub preamble : Option ℕ
  pub stage : Stage
  pub timer : Bool
  pub answers : List ExtensionResponse

-- How far an attempt of `prepareOnce` is.
pub data Progress : Type 0 where
  restoring_session restoring_attached dropping_pool prepared : Progress
  broken : Text → Progress

-- An attempt, and what its tracker says is still in flight.
pub record AttemptRun : Type 0 where
  pub epoch : ℕ
  pub progress : Progress
  pub session : Bool
  pub attached : Bool

-- A restore that was told to be abandoned, by its attempt.
pub data Abandoned : Type 0 where
  session_restore attached_restore : ℕ → Abandoned

-- `restores` is the attempt whose tracker it is. `entered` are the runs whose handler was called.
pub record Dispatcher : Type 0 where
  pub lock : StateLock
  pub preamble : History
  pub attempts : List AttemptRun
  pub restores : Option ℕ
  pub runs : List CommandRun
  pub entered : List ℕ
  pub abandoned : List Abandoned

unfoldable pub new_dispatcher : Dispatcher
unfolding empty
new_dispatcher = record {
  lock = initial;
  preamble = empty;
  attempts = [];
  restores = none;
  runs = [];
  entered = [];
  abandoned = [];
}

abbrev pub put_run : Dispatcher → ℕ → CommandRun → Dispatcher
put_run d i run = record d { runs = set d.runs i run }

-- The reply to a command, unless its deadline has answered for it.
unfoldable pub settle : CommandRun → ExtensionResponse → CommandRun
settle run response =
    if run.expired
    then record run { stage = finished }
    else record run { stage = finished; timer = false; answers = run.answers ++ response ∷ [] }

-- What a handler's promise does: `invoke` makes a reply of it.
pub data Outcome : Type 0 where
  returned : Json → Outcome
  thrown : Text → Outcome

unfoldable pub reply_of : HostCommand → Outcome → ExtensionResponse
reply_of c (returned result) = success c.id result
reply_of c (thrown error) = failure c.id error

-- `restores` of the attempt that the tracker belongs to, each abandoned while it is in flight.
unfoldable pub abandon_restores : Dispatcher → Dispatcher
abandon_restores d = elim d.restores [
  | none ↦ d
  | some p ↦ elim (get_elem? d.attempts p) [
    | none ↦ d
    | some a ↦
        let session : List Abandoned = if a.session then session_restore p ∷ [] else [] in
        let attached : List Abandoned = if a.attached then attached_restore p ∷ [] else [] in
        record d { abandoned = d.abandoned ++ (session ++ attached) }
  ]
]

unfoldable pub abandon_preamble : Dispatcher → Option ℕ → Dispatcher
unfolding abandon_restores perform
abandon_preamble d none = d
abandon_preamble d (some p) =
    let after : Dispatcher = record d { preamble = perform d.preamble (abandons p) } in
    if (abandon d.preamble.memo p).1 then abandon_restores after else after

-- `prepare` up to its `await`: an attempt that starts is the one that the tracker belongs to.
abbrev pub join_attempt : Dispatcher → Attempt → Dispatcher
join_attempt d (shared p) = d
join_attempt d (started p epoch) = record d {
  attempts =
      d.attempts
      ++ record { epoch = epoch; progress = restoring_session; session = true; attached = false }
        ∷ [];
  restores = some p;
}

abbrev pub promise_of : Attempt → ℕ
promise_of (shared p) = p
promise_of (started p epoch) = p

unfoldable pub prepare : Dispatcher → Dispatcher × ℕ
unfolding perform run
prepare d =
    let attempt = (run d.preamble.memo d.preamble.next true).1 in
    (
      join_attempt (record d { preamble = perform d.preamble (runs true) }) attempt,
      promise_of attempt,
    )
