-- ===== src/Protocol/Tests.antt =====
-- Frames and budgets of extension/src/protocol.ts at concrete params.
use firefox_ctl.Base.{false, refl, text_beq, true, txt, ℕ, ◌+◌, ◌≡◌, ◌≤◌}
use firefox_ctl.Base.Json.{Fields, as_number, end, field, finite, get, num, obj, text, without}
use firefox_ctl.Protocol.{
  is_host_command, max_timeout_ms, min_timeout_ms, request_budget_ms, timeout_margin_ms,
  timeout_param, without_request_timeout,
}
use firefox_ctl.Protocol.Budget.{Reading, request_budget_ms-Reading}

protocol : Unit {0}
unfolding get without request_budget_ms without_request_timeout is_host_command text_beq
protocol = tt

-- `_timeout: 7000.5` beside another key.
abbrev timed : Fields
timed = field (txt "url") (text (txt "x")) (field timeout_param (num (finite false 7000 1)) end)

timed_budget : request_budget_ms timed ≡ 6000
unfolding protocol
timed_budget = refl

frame :
    is_host_command (
      obj (
        field (txt "type") (text (txt "command")) (
          field
            (txt "id")
            (text (txt "1"))
            (field (txt "command") (text (txt "ping")) (field (txt "params") (obj timed) end)))))
    ≡ true
unfolding protocol
frame = refl

request_budget_ms-Reading_example :
    (ms : ℕ) × Reading (as_number (get timeout_param timed)) ms
    × (min_timeout_ms ≤ ms)
    × (ms ≤ max_timeout_ms)
    × (request_budget_ms timed + timeout_margin_ms ≡ ms)
request_budget_ms-Reading_example = request_budget_ms-Reading timed
