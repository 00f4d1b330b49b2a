-- ===== src/Network.antt =====
-- extension/src/network.ts: the tracker of the requests that Firefox made, a bounded log.
--
-- `to_lower` is `String.prototype.toLowerCase`, a parameter; the time of an event is an argument.
pub mod Url
pub mod Query
pub mod Ring
pub mod Redaction
pub mod Filtering
pub mod Activity
mod Tests
use firefox_ctl.Base.{
  List, Option, Text, [], drop, if◌then◌else◌, length, ltb, nat_eq, none, some, text_eq, txt, ℕ,
  ◌++◌, ◌==◌, ◌∷◌,
}
use firefox_ctl.Base.Int.{int_eq, sub_ℕ, ℤ}

abbrev pub max_network_entries : ℕ
max_network_entries = 200

abbrev pub recent_window_ms : ℕ
recent_window_ms = 2000

unfoldable pub sensitive_headers : List Text
sensitive_headers =
    txt "set-cookie"
    ∷ txt "cookie"
    ∷ txt "authorization"
    ∷ txt "proxy-authorization"
    ∷ txt "www-authenticate"
    ∷ txt "proxy-authenticate"
    ∷ []

unfoldable pub redacted_header : Text
redacted_header = txt "[redacted]"

unfoldable pub critical_types : List Text
critical_types =
    txt "script"
    ∷ txt "stylesheet"
    ∷ txt "xmlhttprequest"
    ∷ txt "fetch"
    ∷ txt "main_frame"
    ∷ txt "sub_frame"
    ∷ []

unfoldable pub visual_types : List Text
visual_types = txt "image" ∷ txt "font" ∷ txt "media" ∷ []

pub data RequestStatus : Type 0 where
  pending completed error : RequestStatus

abbrev pub status_text : RequestStatus → Text
status_text pending = txt "pending"
status_text completed = txt "completed"
status_text error = txt "error"

pub record HttpHeader : Type 0 where
  pub name : Text
  pub value : Option Text
  pub binary_value : Option (List ℕ)

pub record NetworkEntry : Type 0 where
  pub request_id : Text
  pub url : Text
  pub method : Text
  pub type : Text
  pub tab_id : ℤ
  pub timestamp : ℕ
  pub status : RequestStatus
  pub status_code : Option ℕ
  pub response_headers : Option (List HttpHeader)
  pub duration : Option ℤ
  pub error : Option Text

pub record RequestDetails : Type 0 where
  pub request_id : Text
  pub url : Text
  pub method : Text
  pub type : Text
  pub tab_id : ℤ

pub record CompletedDetails : Type 0 where
  pub request_id : Text
  pub status_code : ℕ
  pub response_headers : Option (List HttpHeader)

pub record ErrorDetails : Type 0 where
  pub request_id : Text
  pub error : Text

-- `entries.push(e)`, then one `shift` when there are too many.
unfoldable pub push_bounded {ℓ} : {A : Type ℓ} → List A → A → List A
push_bounded xs x =
    let all = xs ++ x ∷ [] in if ltb max_network_entries (length all) then drop 1 all else all

-- `redact_url` is `redactSensitiveUrl`, modelled in Network/Url.antt.
unfoldable pub on_started :
    (Text → Text) → ℕ → List NetworkEntry → RequestDetails → List NetworkEntry
unfolding push_bounded
on_started redact_url now entries d = push_bounded entries (record {
  request_id = d.request_id;
  url = redact_url d.url;
  method = d.method;
  type = d.type;
  tab_id = d.tab_id;
  timestamp = now;
  status = pending;
  status_code = none;
  response_headers = none;
  duration = none;
  error = none;
})

-- `find` and the assignments to the entry that it gives: the first of this request.
unfoldable pub update_first :
    Text → (NetworkEntry → NetworkEntry) → List NetworkEntry → List NetworkEntry
update_first id f [] = []
update_first id f (e ∷ es) = if e.request_id == id then f e ∷ es else e ∷ update_first id f es

abbrev pub complete : ℕ → CompletedDetails → NetworkEntry → NetworkEntry
complete now d e = record e {
  status = completed;
  status_code = some d.status_code;
  response_headers = d.response_headers;
  duration = some (sub_ℕ now e.timestamp);
}

abbrev pub fail : ℕ → ErrorDetails → NetworkEntry → NetworkEntry
fail now d e = record e {
  status = error;
  error = some d.error;
  duration = some (sub_ℕ now e.timestamp);
}

unfoldable pub on_completed : ℕ → List NetworkEntry → CompletedDetails → List NetworkEntry
unfolding update_first
on_completed now entries d = update_first d.request_id (complete now d) entries

unfoldable pub on_failed : ℕ → List NetworkEntry → ErrorDetails → List NetworkEntry
unfolding update_first
on_failed now entries d = update_first d.request_id (fail now d) entries
