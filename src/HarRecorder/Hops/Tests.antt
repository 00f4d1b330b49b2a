-- ===== src/HarRecorder/Hops/Tests.antt =====
-- Runs of the hops of extension/src/har-recorder.ts, and the theorems at concrete recordings.
use firefox_ctl.Base.{
  [], delete, false, insert, length, lookup, nat_eq, none, refl, some, text_beq, text_eq, txt, ◌∷◌,
  ◌≡◌,
}
use firefox_ctl.HarRecorder.Pages.{
  before, bind_page, bound, committed, first_page, is_repeat, open_page, time_page, waits_for,
  without_fragment,
}
use firefox_ctl.HarRecorder.Hops.{
  Details, HopRecord, Hops, ResponseDetails, before_request, ended, failed, headers_received,
  navigation_page, new_hop, open_hop, pageref, response, response_started, send_headers, start_hops,
}
use firefox_ctl.HarRecorder.Hops.Closing.{ended-handle_hop, fails, handle_hop}
use firefox_ctl.HarRecorder.Hops.Pagerefs.{Inv}
use firefox_ctl.HarRecorder.Hops.Recording.{
  begins, navigates, record_all, record_all-Inv, record_one,
}

hops_run : Unit {0}
unfolding start_hops first_page open_page without_fragment is_repeat waits_for bound bind_page
    time_page navigation_page pageref new_hop before_request open_hop send_headers response
    headers_received response_started ended failed handle_hop record_one record_all lookup insert
    delete text_beq
hops_run = tt

abbrev document : Details
document = record {
  request_id = txt "r";
  url = txt "http://a/#x";
  method = txt "GET";
  type = txt "main_frame";
  frame_id = 0;
  time_stamp = 10;
}

abbrev answer : ResponseDetails
answer = record {
  status_code = 200;
  status_line = txt "OK";
  response_headers = none;
  ip = none;
  from_cache = some false;
}

abbrev begun : Hops
begun = before_request (start_hops 5 (txt "http://old/")) document

abbrev hop : HopRecord
hop = new_hop document 2

two_pages : length (record_one begun (navigates before 11 (txt "http://a/"))).pages ≡ 2
unfolding hops_run
two_pages = refl

ended-handle_hop_example :
    (handle_hop
        (ended begun (txt "r") (txt "http://a/#x") 20 answer none)
        (txt "r")
        (fails (txt "http://a/#x") 30 (txt "late"))
      ≡ ended begun (txt "r") (txt "http://a/#x") 20 answer none)
    × (handle_hop
          (failed begun (txt "r") (txt "http://a/#x") 20 (txt "reset"))
          (txt "r")
          (fails (txt "http://a/#x") 30 (txt "late"))
        ≡ failed begun (txt "r") (txt "http://a/#x") 20 (txt "reset"))
unfolding hops_run
ended-handle_hop_example =
    ended-handle_hop begun (txt "r") (txt "http://a/#x") (0, hop) 20 answer none (txt "reset")
      (fails (txt "http://a/#x") 30 (txt "late")) refl

record_all-Inv_example : Inv (
    record_all
      (start_hops 5 (txt "http://old/"))
      (begins document ∷ navigates committed 12 (txt "http://a/") ∷ []))
record_all-Inv_example =
    record_all-Inv 5 (txt "http://old/")
      (begins document ∷ navigates committed 12 (txt "http://a/") ∷ [])
