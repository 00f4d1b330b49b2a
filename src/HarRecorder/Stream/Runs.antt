-- ===== src/HarRecorder/Stream/Runs.antt =====
-- What a recording of extension/src/har-recorder.ts stores over every order of requests, chunks,
-- ends and errors.
use firefox_ctl.Base.{List, Option, Text, [], ℕ, ◌∷◌}
use firefox_ctl.HarRecorder.Body.{RequestBody}
use firefox_ctl.HarRecorder.Stream.{
  Capture, begin_hop, on_data, on_error, on_stop, start_capture, stop_capture,
}
use firefox_ctl.HarRecorder.Stream.Budget.{
  Inv, begin_hop-Inv, on_data-Inv, on_error-Inv, on_stop-Inv, start_capture-Inv, stop_capture-Inv,
}

pub data Event : Type 0 where
  begins : Option RequestBody → Option Text → Event
  gets : ℕ → List ℕ → Event
  ends : ℕ → Event
  fails : ℕ → Text → Event
  stops : Event

unfoldable pub play : Capture → Event → Capture
play c (begins body thrown) = begin_hop c body thrown
play c (gets i bytes) = on_data c i bytes
play c (ends i) = on_stop c i
play c (fails i error) = on_error c i error
play c stops = stop_capture c

unfoldable pub play_all : Capture → List Event → Capture
play_all c [] = c
play_all c (e ∷ es) = play_all (play c e) es

play-Inv :
    (limit budget : ℕ) (c : Capture) (e : Event) → Inv limit budget c → Inv limit budget (play c e)
unfolding play
play-Inv limit budget c (begins body thrown) v = begin_hop-Inv limit budget c body thrown v
play-Inv limit budget c (gets i bytes) v = on_data-Inv limit budget c i bytes v
play-Inv limit budget c (ends i) v = on_stop-Inv limit budget c i v
play-Inv limit budget c (fails i error) v = on_error-Inv limit budget c i error v
play-Inv limit budget c stops v = stop_capture-Inv limit budget c v

play_all-Inv_of :
    (limit budget : ℕ) (c : Capture) (es : List Event)
    → Inv limit budget c
    → Inv limit budget (play_all c es)
unfolding play_all
play_all-Inv_of limit budget c [] v = v
play_all-Inv_of limit budget c (e ∷ es) v =
    play_all-Inv_of limit budget (play c e) es (play-Inv limit budget c e v)

-- After any requests, chunks, ends, errors and stops, the budget left and the bytes stored (request
-- and response bodies) make up the initial budget; a stored request body is within the body cap;
-- and a response body is the first bytes that the page got, within the cap, and all of them unless
-- the cap is reached, the budget spent or the recording stopped.
pub play_all-Inv :
    (limit budget : ℕ) (es : List Event)
    → Inv limit budget (play_all (start_capture limit budget) es)
play_all-Inv limit budget es =
    play_all-Inv_of limit budget (start_capture limit budget) es (start_capture-Inv limit budget)
