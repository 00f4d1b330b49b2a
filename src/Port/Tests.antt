-- ===== src/Port/Tests.antt =====
-- Runs of the link of extension/src/port.ts, and the theorems at concrete links.
use firefox_ctl.Base.{
  List, Text, [], arith, delete, insert, lookup, map, nat_eq, none, refl, some, text_beq, text_eq,
  txt, ◌∷◌, ◌≡◌,
}
use firefox_ctl.Port.{
  NativeLink, PendingRequest, backoff_delay, connect, connect_port, fire, fresh_link,
  handle_disconnect, mark_stable, max_attempts, outcome_of, post_reply, receive, reject_pending,
  resolve_id, resolve_pending, run_timer, schedule_reconnect, send, send_on,
}
use firefox_ctl.Port.Links.{Event, Inv, connects, run, run-Inv, sends, step}
use firefox_ctl.Port.Reconnects.{GaveUp, Waits, fail_reconnect, fail_times, fail_times_lem}

links : Unit {0}
unfolding fresh_link connect connect_port send send_on handle_disconnect reject_pending
    schedule_reconnect backoff_delay step run fail_times fail_reconnect fire run_timer receive
    mark_stable resolve_pending resolve_id outcome_of post_reply lookup insert delete text_beq
links = tt

abbrev events : List Event
events =
    connects (some 7)
    ∷ sends (txt "a") (txt "listTabs") 500 none
    ∷ sends (txt "b") (txt "getUrl") 500 none
    ∷ []

abbrev linked : NativeLink
linked = run fresh_link events

two_pending : map (λ (r : Text × PendingRequest). r.0) linked.pending ≡ txt "a" ∷ txt "b" ∷ []
unfolding links
two_pending = refl

abbrev lost : NativeLink
lost = handle_disconnect linked 7 (txt "gone")

run-Inv_example : Inv (run fresh_link events)
run-Inv_example = run-Inv events

fail_times_lem_example : Waits (fail_times 2 lost) 2 × GaveUp (fail_times max_attempts lost)
unfolding links
fail_times_lem_example = fail_times_lem linked 7 (txt "gone") 2 refl refl refl (omega arith)
