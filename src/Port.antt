-- ===== src/Port.antt =====
-- extension/src/port.ts: the link to the native host, with its pending requests and its reconnects.
--
-- Ports and timers are numbers. The state holds what the class holds, and what it has done to its
-- environment: the armed timers, the settled promises of `send` and the frames posted. A call that
-- may throw takes the outcome as an argument.
pub mod Backoff
pub mod Links
pub mod Reconnects
mod Tests
use firefox_ctl.Base.{
  Bool, List, Option, Text, [], delete, false, if◌then◌else◌, insert, is_some, leb, lookup, map,
  min, nat_eq, none, or_else, some, suc, text_eq, true, txt, ℕ, ◌*◌, ◌++◌, ◌-◌, ◌==◌, ◌^◌, ◌||◌,
  ◌∷◌,
}
use firefox_ctl.Base.Json.{Fields, Json, as_text, bool, end, get, null, obj}
use firefox_ctl.Protocol.{ExtensionResponse, is_host_command, message, success}

abbrev pub max_attempts : ℕ
max_attempts = 10

abbrev pub initial_delay_ms : ℕ
initial_delay_ms = 1000

abbrev pub max_delay_ms : ℕ
max_delay_ms = 30000

-- What an armed timer will do; that of a request keeps its id, command and timeout. A delay is in
-- 1024ths of a millisecond, so that the powers of 1.5 up to the tenth are whole.
pub data Timer : Type 0 where
  becomes_stable : Timer
  reconnects : ℕ → Timer
  times_out : Text → Text → ℕ → Timer

pub record PendingRequest : Type 0 where
  pub command : Text
  pub timer : ℕ

-- The errors that `send` rejects with, by what their messages are made of.
pub data Rejection : Type 0 where
  not_connected : Rejection
  timed_out : ℕ → Text → Rejection
  send_failed : Text → Text → Rejection
  disconnected : Text → Rejection
  failed_reply : Text → Rejection

pub data Outcome : Type 0 where
  resolved : Json → Outcome
  rejected : Rejection → Outcome

pub data Posted : Type 0 where
  request : Text → Text → Posted
  reply : ExtensionResponse → Posted

pub record NativeLink : Type 0 where
  pub port : Option ℕ
  pub attempt : ℕ
  pub reconnect_timer : Option ℕ
  pub stable_timer : Option ℕ
  pub last_disconnect_reason : Option Text
  pub pending : List (Text × PendingRequest)
  pub timers : List (ℕ × Timer)
  pub next_timer : ℕ
  pub settled : List (Text × Outcome)
  pub posted : List (ℕ × Posted)

unfoldable pub fresh_link : NativeLink
fresh_link = record {
  port = none;
  attempt = 0;
  reconnect_timer = none;
  stable_timer = none;
  last_disconnect_reason = none;
  pending = [];
  timers = [];
  next_timer = 0;
  settled = [];
  posted = [];
}

-- `1000 * 1.5 ** attempt`, at most 30000, in 1024ths.
unfoldable pub backoff_delay : ℕ → ℕ
backoff_delay attempt =
    min (initial_delay_ms * 3 ^ attempt * 2 ^ (max_attempts - attempt)) (max_delay_ms * 1024)

-- `this.port === port`
abbrev pub is_port : Option ℕ → ℕ → Bool
is_port none p = false
is_port (some q) p = q == p

abbrev pub clear_timer : Option ℕ → List (ℕ × Timer) → List (ℕ × Timer)
clear_timer none ts = ts
clear_timer (some t) ts = delete t ts

unfoldable pub schedule_reconnect : NativeLink → NativeLink
schedule_reconnect s =
    if is_some s.port || is_some s.reconnect_timer
    then s
    else if leb max_attempts s.attempt
    then record s { attempt = 0 }
    else record s {
      attempt = suc s.attempt;
      reconnect_timer = some s.next_timer;
      timers = insert s.next_timer (reconnects (backoff_delay s.attempt)) s.timers;
      next_timer = suc s.next_timer;
    }

-- `runtime.connectNative` gives the port, or throws.
unfoldable pub connect_port : NativeLink → ℕ → NativeLink
connect_port s p = record s {
  port = some p;
  reconnect_timer = none;
  last_disconnect_reason = none;
  stable_timer = some s.next_timer;
  timers = insert s.next_timer becomes_stable (clear_timer s.reconnect_timer s.timers);
  next_timer = suc s.next_timer;
}

unfoldable pub connect : NativeLink → Option ℕ → NativeLink
unfolding connect_port schedule_reconnect
connect s opened = elim s.port [
  | some p ↦ s
  | none ↦ elim opened [
    | some p ↦ connect_port s p
    | none ↦ schedule_reconnect (record s { port = none })
  ]
]

abbrev settle : NativeLink → Text → Outcome → NativeLink
settle s id o = record s { settled = s.settled ++ (id, o) ∷ [] }

-- `send` with the id that `randomUUID` gives, and the error that `postMessage` throws, if it does.
unfoldable pub send_on : NativeLink → ℕ → Text → Text → ℕ → Option Text → NativeLink
send_on s p id command timeout_ms none = record s {
  timers = insert s.next_timer (times_out id command timeout_ms) s.timers;
  next_timer = suc s.next_timer;
  pending = insert id (record { command = command; timer = s.next_timer }) s.pending;
  posted = s.posted ++ (p, request id command) ∷ [];
}
send_on s p id command timeout_ms (some e) = record s {
  timers = delete s.next_timer (insert s.next_timer (times_out id command timeout_ms) s.timers);
  next_timer = suc s.next_timer;
  pending = delete id (insert id (record { command = command; timer = s.next_timer }) s.pending);
  settled = s.settled ++ (id, rejected (send_failed command e)) ∷ [];
}

unfoldable pub send : NativeLink → Text → Text → ℕ → Option Text → NativeLink
unfolding send_on
send s id command timeout_ms thrown = elim s.port [
  | none ↦ settle s id (rejected not_connected)
  | some p ↦ send_on s p id command timeout_ms thrown
]

unfoldable pub mark_stable : NativeLink → NativeLink
mark_stable s = elim s.stable_timer [
  | none ↦ s
  | some t ↦ record s { stable_timer = none; attempt = 0; timers = delete t s.timers }
]

-- The fields of a reply frame; anything but an object has none.
abbrev pub frame_fields : Json → Fields
frame_fields (obj fs) = fs
frame_fields other = end

abbrev is_true : Option Json → Bool
is_true (some (bool true)) = true
is_true other = false

-- `frame.result ?? null`
abbrev result_of : Option Json → Json
result_of none = null
result_of (some v) = v

unfoldable pub outcome_of : Fields → Outcome
outcome_of fs =
    if is_true (get (txt "success") fs)
    then resolved (result_of (get (txt "result") fs))
    else rejected (failed_reply (or_else (as_text (get (txt "error") fs)) (txt "Unknown error")))

unfoldable pub resolve_id : NativeLink → Text → Outcome → NativeLink
resolve_id s id o = elim (lookup id s.pending) [
  | none ↦ s
  | some r ↦ record s {
    pending = delete id s.pending;
    timers = delete r.timer s.timers;
    settled = s.settled ++ (id, o) ∷ [];
  }
]

unfoldable pub resolve_pending : NativeLink → Json → NativeLink
unfolding resolve_id outcome_of
resolve_pending s message =
    let fs = frame_fields message in
    elim (as_text (get (txt "id") fs)) [ none ↦ s | some id ↦ resolve_id s id (outcome_of fs) ]

-- A host command goes to the listener, which is the dispatcher.
unfoldable pub receive : NativeLink → ℕ → Json → NativeLink
unfolding mark_stable resolve_pending
receive s p message =
    let s' : NativeLink = if is_port s.port p then mark_stable s else s in
    if is_host_command message then s' else resolve_pending s' message

unfoldable pub post_reply : NativeLink → ℕ → ExtensionResponse → NativeLink
post_reply s p response =
    if is_port s.port p then record s { posted = s.posted ++ (p, reply response) ∷ [] } else s

abbrev pub clear_timers : List (Text × PendingRequest) → List (ℕ × Timer) → List (ℕ × Timer)
clear_timers [] ts = ts
clear_timers ((id, r) ∷ rs) ts = clear_timers rs (delete r.timer ts)

unfoldable pub reject_pending : NativeLink → Rejection → NativeLink
reject_pending s reason = record s {
  timers = clear_timers s.pending s.timers;
  settled = s.settled ++ map (λ (r : Text × PendingRequest). (r.0, rejected reason)) s.pending;
  pending = [];
}

unfoldable pub handle_disconnect : NativeLink → ℕ → Text → NativeLink
unfolding reject_pending schedule_reconnect
handle_disconnect s p reason =
    if is_port s.port p
    then schedule_reconnect (
        reject_pending
          (record s {
            port = none;
            last_disconnect_reason = some reason;
            timers = clear_timer s.stable_timer s.timers;
            stable_timer = none;
          })
          (disconnected reason))
    else s

-- What each timer does when it fires. A timer that reconnects takes what `connectNative` gives.
unfoldable pub run_timer : NativeLink → Timer → Option ℕ → NativeLink
unfolding connect
run_timer s becomes_stable opened = record s { stable_timer = none; attempt = 0 }
run_timer s (reconnects delay) opened = connect (record s { reconnect_timer = none }) opened
run_timer s (times_out id command timeout_ms) opened = elim (lookup id s.pending) [
  | none ↦ s
  | some r ↦ record s {
    pending = delete id s.pending;
    settled = s.settled ++ (id, rejected (timed_out timeout_ms command)) ∷ [];
  }
]

unfoldable pub fire : NativeLink → ℕ → Option ℕ → NativeLink
unfolding run_timer
fire s t opened = elim (lookup t s.timers) [
  | none ↦ s
  | some timer ↦ run_timer (record s { timers = delete t s.timers }) timer opened
]
