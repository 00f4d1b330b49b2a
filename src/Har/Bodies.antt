-- ===== src/Har/Bodies.antt =====
-- The bodies of a HAR log, extension/src/har.ts: `postData` and `responseContent`.
--
-- `decode` is a `TextDecoder` of a charset that refuses what does not decode, `btoa` the base64 of
-- bytes. A limit of none is infinity.
pub mod Base64
use firefox_ctl.Base.{
  Bool, List, Option, Text, [], drop, false, if◌then◌else◌, is_some, length, ltb, map, min, none,
  not, or_else, some, suc, take, true, txt, zero, ℕ, ◌&&◌, ◌*◌, ◌++◌, ◌+◌, ◌-◌, ◌||◌, ◌∷◌,
}
use firefox_ctl.Base.Texts.{join, starts_with}
use firefox_ctl.Reply.{utf8_length}
use firefox_ctl.Network.{HttpHeader, complete}
use firefox_ctl.HarRecorder.Body.{RequestBody, UploadData, pairs}
use firefox_ctl.Har.{HarContent, HarParam, HarPostData}
use firefox_ctl.Har.Mime.{ascii_lower, charset, content_type, is_textual}

unfoldable pub base64_chunk : ℕ
base64_chunk = 3 * 8192

-- `concat` fills a buffer from its start; at its calls the buffer's length is the sum of the parts'.
unfoldable pub concat : List (List ℕ) → List ℕ
concat [] = []
concat (part ∷ parts) = part ++ concat parts

abbrev pub exceeds : ℕ → Option ℕ → Bool
exceeds used none = false
exceeds used (some limit) = ltb limit used

abbrev pub no_post_data : Text → HarPostData
no_post_data mime_type = record {
  mime_type = mime_type;
  text = none;
  params = none;
  is_multipart = false;
  is_base64 = false;
  file_parts = 0;
  is_form_data = false;
  truncated = false;
  truncated_by_browser = false;
  original_size = none;
  body_dropped = false;
  error = none;
}

-- The params that are kept, and whether one was not.
unfoldable pub form_params : Option ℕ → List (Text × Text) → ℕ → List HarParam × Bool
form_params limit [] used = ([], false)
form_params limit ((name, value) ∷ rest) used =
    let size = used + (utf8_length name + utf8_length value) in
    let later = form_params limit rest size in
    if exceeds size limit
    then ([], true)
    else (record { name = name; value = value } ∷ later.0, later.1)

unfoldable pub form_post_data : List (Text × List Text) → Text → Option ℕ → HarPostData
unfolding form_params pairs starts_with
form_post_data form_data mime_type limit =
    let out = form_params limit (pairs form_data) 0 in
    record (no_post_data mime_type) {
      params = some out.0;
      is_form_data = true;
      is_multipart = starts_with (txt "multipart/form-data") (map ascii_lower mime_type);
      truncated = out.1;
    }

-- What the loop of `rawPostData` changes: the result, the parts kept, and the bytes used.
pub record RawPost : Type 0 where
  pub result : HarPostData
  pub parts : List (List ℕ)
  pub used : ℕ

abbrev kept_size : Option ℕ → ℕ → ℕ → ℕ
kept_size none used size = size
kept_size (some limit) used size = min (limit - used) size

abbrev mark_part : HarPostData → UploadData → HarPostData
mark_part r part = record r {
  file_parts = if is_some part.file then r.file_parts + 1 else r.file_parts;
  truncated_by_browser = r.truncated_by_browser || or_else part.truncated false;
  original_size =
      if or_else part.truncated false && not (is_some r.original_size)
      then part.original_size
      else r.original_size;
}

unfoldable pub raw_part : Option ℕ → RawPost → UploadData → RawPost
raw_part limit state part =
    let marked = mark_part state.result part in
    elim part.bytes [
      | none ↦ record state { result = marked }
      | some bytes ↦
          let size = kept_size limit state.used (length bytes) in
          record {
            result = record marked { truncated = marked.truncated || ltb size (length bytes) };
            parts = state.parts ++ take size bytes ∷ [];
            used = state.used + size;
          }
    ]

unfoldable pub raw_parts : Option ℕ → RawPost → List UploadData → RawPost
unfolding raw_part
raw_parts limit state [] = state
raw_parts limit state (part ∷ rest) = raw_parts limit (raw_part limit state part) rest

-- How a captured response body ended.
pub record BodyState : Type 0 where
  pub complete : Bool
  pub truncated : Bool
  pub dropped : Bool
  pub error : Option Text
  pub size : Option ℕ

module _ (to_lower : Text → Text) (decode : Text → List ℕ → Option Text)
    (btoa : List ℕ → Text) where
  unfoldable pub decode_text : List ℕ → Text → Option Text
  unfolding charset
  decode_text bytes mime_type = decode (charset mime_type) bytes

  -- The pieces of `base64`. There is at most one for each byte.
  unfoldable pub base64_pieces : ℕ → List ℕ → List Text
  base64_pieces zero bytes = []
  base64_pieces (suc fuel) [] = []
  base64_pieces (suc fuel) (b ∷ bytes) =
      btoa (take base64_chunk (b ∷ bytes)) ∷ base64_pieces fuel (drop base64_chunk (b ∷ bytes))

  unfoldable pub base64 : List ℕ → Text
  unfolding base64_pieces join
  base64 bytes = join [] (base64_pieces (length bytes) bytes)

  unfoldable pub raw_post_data : List UploadData → Text → Option ℕ → HarPostData
  unfolding raw_parts concat decode_text base64
  raw_post_data raw mime_type limit =
      let out =
        raw_parts limit (record { result = no_post_data mime_type; parts = []; used = 0 }) raw in
      let bytes = concat out.parts in
      elim (decode_text bytes mime_type) [
        | none ↦ record out.result { text = some (base64 bytes); is_base64 = true }
        | some t ↦ record out.result { text = some t }
      ]

  unfoldable pub post_data : RequestBody → Text → Option ℕ → HarPostData
  unfolding form_post_data raw_post_data
  post_data body mime_type limit = elim body.error [
    | some e ↦ record (no_post_data mime_type) { text = some []; error = some e }
    | none ↦ elim body.form_data [
      | some form_data ↦ form_post_data form_data mime_type limit
      | none ↦ raw_post_data (or_else body.raw []) mime_type limit
    ]
  ]

  -- The text of a body, and whether it is base64.
  unfoldable pub body_text : List ℕ → Text → Text × Bool
  unfolding is_textual decode_text base64
  body_text body mime_type =
      let decoded : Option Text =
        if is_textual to_lower mime_type then decode_text body mime_type else none in
      elim decoded [ none ↦ (base64 body, true) | some t ↦ (t, false) ]

  unfoldable pub response_content :
      Option (List ℕ) → Option (List HttpHeader) → BodyState → HarContent
  unfolding content_type body_text
  response_content body headers state =
      let mime_type = content_type to_lower headers in
      let seen : ℕ = elim body [ none ↦ 0 | some bytes ↦ length bytes ] in
      let empty : HarContent = record {
        size = or_else state.size seen;
        mime_type = mime_type;
        text = none;
        is_base64 = false;
        incomplete = false;
        truncated = state.truncated;
        body_dropped = state.dropped;
        body_error = state.error;
      } in
      elim body [
        | none ↦ empty
        | some bytes ↦
            let out = body_text bytes mime_type in
            record empty { text = some out.0; is_base64 = out.1; incomplete = not state.complete }
      ]
