-- ===== src/Protocol.antt =====
-- extension/src/protocol.ts: the frames of the native host, the command names, error codes and the
-- time budget of a command.
pub mod Budget
mod Tests
use firefox_ctl.Base.{
  Bool, List, Option, Text, false, if◌then◌else◌, is_some, mem_beq, nat_eq, none, some, text_eq,
  txt, ℕ, ◌&&◌, ◌++◌, ◌+◌, ◌-◌, ◌==◌,
}
use firefox_ctl.Base.Json.{
  Fields, Json, Number, as_number, as_object, as_text, finite, ge_nat, get, le_nat, nan, obj,
  trunc_finite, without,
}

pub record HostCommand : Type 0 where
  pub id : Text
  pub command : Text
  pub params : Fields

pub data ExtensionResponse : Type 0 where
  success : Text → Json → ExtensionResponse
  failure : Text → Text → ExtensionResponse

-- The command table, extension/src/commands.json, is a parameter: the names that it lists.
unfoldable pub is_command_name : List Text → Text → Bool
is_command_name commands name = mem_beq name commands

abbrev has_text : Option Text → Text → Bool
has_text none t = false
has_text (some s) t = s == t

unfoldable pub is_host_command_fields : Fields → Bool
is_host_command_fields fs =
    has_text (as_text (get (txt "type") fs)) (txt "command")
    && (is_some (as_text (get (txt "id") fs))
        && (is_some (as_text (get (txt "command") fs))
            && is_some (as_object (get (txt "params") fs))))

unfoldable pub is_host_command : Json → Bool
unfolding is_host_command_fields
is_host_command (obj fs) = is_host_command_fields fs
is_host_command other = false

pub data ErrorCode : Type 0 where
  tab_closed tab_unavailable no_tabs mode_mismatch restricted_page page_load_failed : ErrorCode
  content_script_unavailable content_script_error unknown_command command_timeout : ErrorCode
  screenshot_too_large evaluate_disabled ambiguous_text frame_not_observed : ErrorCode
  har_too_large har_already_recording har_not_recording har_disabled : ErrorCode

abbrev pub code_text : ErrorCode → Text
code_text tab_closed = txt "TAB_CLOSED"
code_text tab_unavailable = txt "TAB_UNAVAILABLE"
code_text no_tabs = txt "NO_TABS"
code_text mode_mismatch = txt "MODE_MISMATCH"
code_text restricted_page = txt "RESTRICTED_PAGE"
code_text page_load_failed = txt "PAGE_LOAD_FAILED"
code_text content_script_unavailable = txt "CONTENT_SCRIPT_UNAVAILABLE"
code_text content_script_error = txt "CONTENT_SCRIPT_ERROR"
code_text unknown_command = txt "UNKNOWN_COMMAND"
code_text command_timeout = txt "COMMAND_TIMEOUT"
code_text screenshot_too_large = txt "SCREENSHOT_TOO_LARGE"
code_text evaluate_disabled = txt "EVALUATE_DISABLED"
code_text ambiguous_text = txt "AMBIGUOUS_TEXT"
code_text frame_not_observed = txt "FRAME_NOT_OBSERVED"
code_text har_too_large = txt "HAR_TOO_LARGE"
code_text har_already_recording = txt "HAR_ALREADY_RECORDING"
code_text har_not_recording = txt "HAR_NOT_RECORDING"
code_text har_disabled = txt "HAR_DISABLED"

-- An error that a handler throws: with a code, its message is `<CODE>: <text>`.
pub data Error : Type 0 where
  extension_error : ErrorCode → Text → Error
  plain_error : Text → Error

abbrev pub message : Error → Text
message (extension_error c t) = code_text c ++ (txt ": " ++ t)
message (plain_error t) = t

abbrev pub timeout_param : Text
timeout_param = txt "_timeout"

abbrev pub min_timeout_ms : ℕ
min_timeout_ms = 5000

abbrev pub max_timeout_ms : ℕ
max_timeout_ms = 300000

abbrev pub default_timeout_ms : ℕ
default_timeout_ms = 150000

abbrev pub timeout_margin_ms : ℕ
timeout_margin_ms = 1000

pub record CommandContext : Type 0 where
  pub budget_ms : ℕ
  pub deadline_at : ℕ

-- `typeof raw === "number" && Number.isFinite(raw) ? Math.trunc(raw) : Number.NaN`
abbrev truncated : Option Number → Number
truncated none = nan
truncated (some n) = trunc_finite n

abbrev whole : Number → ℕ
whole (finite s w f) = w
whole other = 0

-- `timeout`; its whole part, where `ms` passed the comparisons.
unfoldable pub timeout_of : Option Number → ℕ
unfolding trunc_finite ge_nat le_nat
timeout_of raw =
    let ms = truncated raw in
    if ge_nat ms min_timeout_ms && le_nat ms max_timeout_ms then whole ms else default_timeout_ms

unfoldable pub request_budget_ms : Fields → ℕ
unfolding timeout_of
request_budget_ms params = timeout_of (as_number (get timeout_param params)) - timeout_margin_ms

unfoldable pub command_context : Fields → ℕ → CommandContext
command_context params now =
    let budget = request_budget_ms params in
    record { budget_ms = budget; deadline_at = now + budget }

-- Without the key the source answers the params themselves.
unfoldable pub without_request_timeout : Fields → Fields
without_request_timeout params =
    if is_some (get timeout_param params) then without timeout_param params else params
