-- ===== src/Har.antt =====
-- extension/src/har.ts: a recording turned into a HAR log. Here are the types; the parts are the
-- cookies (Cookies), the query of a url (Query), headers, status lines and mime types (Mime), bodies
-- (Bodies), a finished hop (Finish), sizes (Sizes), the log (Log), its redaction (Redaction) and its
-- fitting (Fit).
--
-- What JavaScript gives is passed in: the lower and upper case of a text, `Date.parse` and
-- `toISOString`, `decodeURIComponent`, `TextDecoder`, `btoa` and `JSON.stringify`. A flag that the
-- log leaves out when it is not set is false here.
pub mod Cookies
pub mod Query
pub mod Mime
pub mod Bodies
pub mod Finish
pub mod Sizes
pub mod Log
pub mod Redaction
pub mod Fit
mod Tests
use firefox_ctl.Base.{Bool, List, Option, Text, ℕ}
use firefox_ctl.Base.Int.{ℤ}
use firefox_ctl.HarRecorder.Body.{RequestBodyShape}
use firefox_ctl.HarRecorder.Stream.{ResponseBodyRecord}
use firefox_ctl.HarRecorder.Hops.{HopRecord, pageref, response}

pub record HarHeader : Type 0 where
  pub name : Text
  pub value : Text

pub record HarCookie : Type 0 where
  pub name : Text
  pub value : Text
  pub path : Option Text
  pub domain : Option Text
  pub expires : Option Text
  pub http_only : Bool
  pub secure : Bool
  pub same_site : Option Text

pub record HarParam : Type 0 where
  pub name : Text
  pub value : Text

pub record HarPostData : Type 0 where
  pub mime_type : Text
  pub text : Option Text
  pub params : Option (List HarParam)
  pub is_multipart : Bool
  pub is_base64 : Bool
  pub file_parts : ℕ
  pub is_form_data : Bool
  pub truncated : Bool
  pub truncated_by_browser : Bool
  pub original_size : Option ℕ
  pub body_dropped : Bool
  pub error : Option Text

-- `incomplete` is `_complete: false`.
pub record HarContent : Type 0 where
  pub size : ℕ
  pub mime_type : Text
  pub text : Option Text
  pub is_base64 : Bool
  pub incomplete : Bool
  pub truncated : Bool
  pub body_dropped : Bool
  pub body_error : Option Text

-- `dns`, `connect` and `ssl` are always -1, and `send` is 0.
pub record HarTimings : Type 0 where
  pub blocked : ℕ
  pub wait : ℕ
  pub receive : ℕ

-- The size of the headers is always -1.
pub record HarRequest : Type 0 where
  pub method : Text
  pub url : Text
  pub http_version : Text
  pub cookies : List HarCookie
  pub headers : List HarHeader
  pub query_string : List HarParam
  pub post_data : Option HarPostData
  pub body_size : ℤ

pub record HarResponse : Type 0 where
  pub status : ℕ
  pub status_text : Text
  pub http_version : Text
  pub cookies : List HarCookie
  pub headers : List HarHeader
  pub content : HarContent
  pub redirect_url : Text
  pub body_size : ℤ

pub record HarEntry : Type 0 where
  pub pageref : Option ℕ
  pub started_date_time : Text
  pub time : ℕ
  pub request : HarRequest
  pub response : HarResponse
  pub timings : HarTimings
  pub server_ip_address : Option Text
  pub resource_type : Text
  pub frame_id : ℕ
  pub from_cache : Option Bool
  pub error : Option Text
  pub pending : Bool

-- A time of a page's events is -1 where the page did not see it.
pub record HarPage : Type 0 where
  pub id : ℕ
  pub started_date_time : Text
  pub title : Text
  pub on_content_load : ℤ
  pub on_load : ℤ

pub record HarRecordingSummary : Type 0 where
  pub tab_id : ℕ
  pub started_date_time : Text
  pub max_body_size : ℕ
  pub truncated_bodies : ℕ
  pub dropped_bodies : ℕ
  pub pending_entries : ℕ
  pub tab_closed : Bool

pub record Har : Type 0 where
  pub creator_version : Text
  pub pages : List HarPage
  pub entries : List HarEntry
  pub recording : HarRecordingSummary

pub record PageRecord : Type 0 where
  pub id : ℕ
  pub start : ℕ
  pub title : Text
  pub dom_content_loaded : Option ℕ
  pub load : Option ℕ

-- A hop as the recorder hands it over: what its events gave, and its bodies. Its security info is
-- left out.
pub record FinishedHop : Type 0 where
  pub hop : HopRecord
  pub request_body : Option RequestBodyShape
  pub body_captured : Bool
  pub post_data : Option HarPostData
  pub pending : Bool
  pub body : Option ResponseBodyRecord
  pub body_dropped : Bool

pub record HarRecording : Type 0 where
  pub tab_id : ℕ
  pub start : ℕ
  pub max_body_size : ℕ
  pub creator_version : Text
  pub tab_closed : Bool
  pub pages : List PageRecord
  pub hops : List FinishedHop
