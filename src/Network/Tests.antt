-- ===== src/Network/Tests.antt =====
-- Runs of the tracker of extension/src/network.ts, and the theorems at concrete logs.
use firefox_ctl.Base.Int.{pos}
use firefox_ctl.Base.{
  All, List, Text, [], drop, false, filter, if◌then◌else◌, inl, insert, leb, length, lookup, map,
  min, nat_eq, none, refl, some, text_beq, text_eq, true, txt, ◌&&◌, ◌+◌, ◌-◌, ◌↔◌, ◌∷◌, ◌≡◌, ◌≤◌,
}
use firefox_ctl.Base.Selected.{Selected}
use firefox_ctl.Base.Json.{number}
use firefox_ctl.Network.{
  CompletedDetails, HttpHeader, NetworkEntry, RequestDetails, critical_types, max_network_entries,
  on_completed, on_failed, on_started, redacted_header, sensitive_headers, visual_types,
}
use firefox_ctl.Network.Url.{
  Params, is_sensitive_key, redact_params, redact_sensitive_url, redacted_value, sensitive_params,
}
use firefox_ctl.Network.Url.Loop.{Redacted, redact_params-Redacted}
use firefox_ctl.Network.Query.{
  NetworkQuery, copy, is_sensitive, last_n, matches, query, redact_header, take_limit,
}
use firefox_ctl.Network.Ring.{
  Event, completes, handle, handle_all, handle_all-last_n, ids, started_ids, starts,
}
use firefox_ctl.Network.Redaction.{EntryIsSafe, query-EntryIsSafe}
use firefox_ctl.Network.Filtering.{IsAsked, query_lem}
use firefox_ctl.Network.Activity.{
  IsCritical, IsWaiting, count_types, is_recent, latest, tab_status, tab_status_lem, total,
}

network : Unit {0}
unfolding handle_all handle on_started on_completed on_failed query copy matches take_limit
    redact_header is_sensitive sensitive_headers redacted_header text_beq started_ids last_n
    tab_status is_recent count_types latest lookup insert critical_types visual_types redact_params
    is_sensitive_key sensitive_params redacted_value redact_sensitive_url
network = tt

-- Lower case of ASCII letters.
abbrev lower : Text → Text
lower t = map (λ c. if leb b'A' c && leb c b'Z' then c + 32 else c) t

abbrev same : Text → Text
same t = t

abbrev started_a : RequestDetails
started_a = record {
  request_id = txt "a";
  url = txt "u";
  method = txt "GET";
  type = txt "script";
  tab_id = pos 3;
}

abbrev cookie : HttpHeader
cookie = record { name = txt "Set-Cookie"; value = some (txt "s=1"); binary_value = none }

abbrev completed_a : CompletedDetails
completed_a = record {
  request_id = txt "a";
  status_code = 200;
  response_headers = some (cookie ∷ []);
}

abbrev events : List Event
events =
    starts 10 started_a
    ∷ starts 20 (record started_a { request_id = txt "b"; type = txt "image" })
    ∷ completes 30 completed_a
    ∷ []

abbrev all_of_3 : NetworkQuery
all_of_3 = record {
  tab_id = some (pos 3);
  type = none;
  status = none;
  clear = false;
  limit = number 1;
  include_headers = true;
  redact = true;
}

abbrev log : List NetworkEntry
log = handle_all lower same [] events

log-ids : ids log ≡ txt "a" ∷ txt "b" ∷ []
unfolding network
log-ids = refl

redacted_answer :
    map
      (λ (e : NetworkEntry). e.response_headers)
      (query lower log (record all_of_3 { status = some (txt "completed") })).1.requests
    ≡ some (record cookie { value = some (txt "[redacted]") } ∷ []) ∷ []
unfolding network
redacted_answer = refl

handle_all-last_n_example :
    (ids log ≡ last_n max_network_entries (started_ids [] events)) × (length log ≤ 200)
handle_all-last_n_example = handle_all-last_n lower same events

abbrev completed_of_3 : NetworkQuery
completed_of_3 = record all_of_3 { status = some (txt "completed") }

query-EntryIsSafe_example : All (EntryIsSafe lower) (query lower log completed_of_3).1.requests
query-EntryIsSafe_example = query-EntryIsSafe lower log completed_of_3 (inl refl)

query_lem_example :
    (asked : List NetworkEntry) × Selected (IsAsked all_of_3) log asked
    × ((query lower log all_of_3).1.requests
        ≡ map (copy lower all_of_3.include_headers all_of_3.redact) (drop (length asked - 1) asked))
    × ((query lower log all_of_3).1.filtered ≡ min 1 (length asked))
    × ((query lower log all_of_3).0 ≡ (if all_of_3.clear then [] else log))
    × ((query lower log all_of_3).1.total ≡ length (query lower log all_of_3).0)
query_lem_example = query_lem lower log all_of_3 1 refl

tab_status_lem_example :
    (waiting : List NetworkEntry) × Selected (IsWaiting 40 (pos 3)) log waiting
    × ((tab_status log 40 (pos 3)).pending_count ≡ length waiting)
    × ((critical : List NetworkEntry) × Selected IsCritical waiting critical
        × ((tab_status log 40 (pos 3)).critical_pending ≡ length critical))
    × (total (tab_status log 40 (pos 3)).pending_by_type
        ≡ (tab_status log 40 (pos 3)).pending_count)
    × ((tab_status log 40 (pos 3)).critical_pending + (tab_status log 40 (pos 3)).visual_pending
        ≤ (tab_status log 40 (pos 3)).pending_count)
    × (((tab_status log 40 (pos 3)).is_idle ≡ true)
        ↔ ((tab_status log 40 (pos 3)).pending_count ≡ 0))
    × (((tab_status log 40 (pos 3)).is_critical_idle ≡ true)
        ↔ ((tab_status log 40 (pos 3)).critical_pending ≡ 0))
    × All
        (λ (e : NetworkEntry). e.timestamp ≤ (tab_status log 40 (pos 3)).last_activity)
        (filter (is_recent 40 (pos 3)) log)
tab_status_lem_example = tab_status_lem log 40 (pos 3)

abbrev secret_params : Params
secret_params =
    (txt "q", txt "x") ∷ (txt "Token", txt "1") ∷ (txt "p", txt "y") ∷ (txt "Token", txt "2") ∷ []

swept :
    redact_params lower secret_params
    ≡ ((txt "q", txt "x") ∷ (txt "Token", txt "[REDACTED]") ∷ (txt "p", txt "y") ∷ [], true)
unfolding network
swept = refl

redact_params-Redacted_example :
    Redacted lower secret_params secret_params false (redact_params lower secret_params)
redact_params-Redacted_example = redact_params-Redacted lower secret_params
