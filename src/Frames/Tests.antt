-- ===== src/Frames/Tests.antt =====
-- Runs of the registry of extension/src/frames.ts, and the theorems at concrete registries.
use firefox_ctl.Base.{
  Bool, List, Text, [], delete, insert, length, lookup, ltb, nat_eq, none, refl, some, text_beq,
  text_eq, true, txt, ◌++◌, ◌∷◌, ◌≡◌,
}
use firefox_ctl.Frames.{
  FrameCriterion, FrameInfo, FrameRegistry, Port, Watch, admit, admit_from, admit_to, await_frame,
  connected, found, frame_disconnected, frame_loaded, frame_port_name, fresh_registry,
  injection_failed, is_observed, list, load_in, matching, notify_waits, pending_of, sorted,
  tab_removed, time_out, unwatch, watch,
}
use firefox_ctl.Frames.Fence.{IsAllowed}
use firefox_ctl.Frames.Runs.{
  Event, apply, apply_all, awaits, connected-frame_loaded, connects, loads, observed-IsAllowed,
  watches,
}

registry : Unit {0}
unfolding fresh_registry watch unwatch is_observed sorted list matching notify_waits await_frame
    time_out load_in frame_loaded injection_failed pending_of admit_to admit_from admit connected
    frame_disconnected tab_removed apply apply_all lookup insert delete text_beq
registry = tt

abbrev short : Text → Bool
short url = ltb (length url) 4

abbrev pay : FrameInfo
pay = record { frame_id = 5; url = txt "pay"; parent_frame_id = 0 }

abbrev from_pay : Port
from_pay = record {
  port = 40;
  name = frame_port_name;
  tab_id = some 3;
  frame_id = some 5;
  url = some (txt "pay");
}

abbrev any_frame : FrameCriterion
any_frame = record { frame_id = none; match = none }

abbrev events : List Event
events = watches 3 (some short) ∷ awaits 3 0 any_frame 100 ∷ loads 3 pay ∷ connects from_pay ∷ []

wait_settled :
    (apply_all fresh_registry events).settled
    ≡ (0, record { outcome = found; frames = pay ∷ [] }) ∷ []
unfolding registry
wait_settled = refl

observed : is_observed (apply_all fresh_registry events) 3 5 ≡ true
unfolding registry
observed = refl

abbrev watched : Watch
watched = record {
  generation = 1;
  pattern = some short;
  pending = [];
  frames = (5, record { info = pay; port = 40 }) ∷ [];
  waits = [];
  errors = [];
}

observed-IsAllowed_example : IsAllowed (some short) 5 pay
unfolding registry
observed-IsAllowed_example =
    observed-IsAllowed events 3 5 watched (record { info = pay; port = 40 }) refl refl

abbrev injected_once : FrameRegistry
injected_once = apply_all fresh_registry (watches 3 (some short) ∷ loads 3 pay ∷ [])

abbrev injecting : Watch
injecting = record {
  generation = 1;
  pattern = some short;
  pending = (5, record { info = pay; generation = 1 }) ∷ [];
  frames = [];
  waits = [];
  errors = [];
}

abbrev elsewhere : FrameInfo
elsewhere = record { frame_id = 5; url = txt "other"; parent_frame_id = 0 }

connected-frame_loaded_example :
    connected (frame_loaded injected_once 3 elsewhere) from_pay
    ≡ record (frame_loaded injected_once 3 elsewhere) {
      silenced = (frame_loaded injected_once 3 elsewhere).silenced ++ 40 ∷ [];
    }
unfolding registry
connected-frame_loaded_example =
    connected-frame_loaded injected_once 3 elsewhere injecting from_pay refl refl refl refl refl
