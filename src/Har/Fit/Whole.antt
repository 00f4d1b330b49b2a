-- ===== src/Har/Fit/Whole.antt =====
-- From a recording to the HAR that is handed out: `finish`, `buildLog`, then `fitLog`.
use firefox_ctl.Base.{
  Bool, Bool-cases, List, Option, Option-cases, Text, [], arith, false, inl, inr, is_some, none,
  or_else, refl, some, ℕ, ◌&&◌, ◌∙◌, ◌∷◌, ◌≡◌,
}
use firefox_ctl.Har.{FinishedHop, Har}
use firefox_ctl.Har.Mime.{content_type}
use firefox_ctl.Har.Bodies.{
  RawPost, concat, decode_text, form_post_data, no_post_data, post_data, raw_part, raw_parts,
  raw_post_data,
}
use firefox_ctl.Har.Finish.{finish, finished_post}
use firefox_ctl.Har.Fit.{filled_post, filled_text}
use firefox_ctl.Har.Fit.Shells.{PostIsFresh}
use firefox_ctl.HarRecorder.Body.{RequestBody, StoredBody, UploadData}
use firefox_ctl.HarRecorder.Hops.{HopRecord}
use firefox_ctl.HarRecorder.Stream.{ResponseBodyRecord}

-- A hop without a response's body where the budget was spent; likewise its post data.
abbrev pub HopIsWhole : FinishedHop → Type 0
HopIsWhole hop = (hop.body_dropped && is_some hop.body ≡ false) × PostIsFresh hop.post_data

gone_first : (b c : Bool) → b ≡ false → b && c ≡ false
gone_first b c h = ground arith

module _ (to_lower to_upper : Text → Text) (iso_date decode_uri : Text → Option Text)
    (iso : ℕ → Text) (decode : Text → List ℕ → Option Text) (btoa : List ℕ → Text) where
  raw_part_dropped :
      (limit : Option ℕ) (state : RawPost) (part : UploadData)
      → (raw_part limit state part).result.body_dropped ≡ state.result.body_dropped
  unfolding raw_part
  raw_part_dropped limit state part = elim (Option-cases part.bytes) [
    | inl absent ↦ rw absent refl
    | inr (b, present) ↦ rw present refl
  ]

  raw_parts_dropped :
      (limit : Option ℕ) (state : RawPost) (raw : List UploadData)
      → (raw_parts limit state raw).result.body_dropped ≡ state.result.body_dropped
  unfolding raw_parts
  raw_parts_dropped limit state [] = refl
  raw_parts_dropped limit state (part ∷ raw) =
      raw_parts_dropped limit (raw_part limit state part) raw ∙ raw_part_dropped limit state part

  raw_dropped :
      (raw : List UploadData) (mime_type : Text)
      → (raw_post_data to_lower decode btoa raw mime_type none).body_dropped ≡ false
  unfolding raw_post_data
  raw_dropped raw mime_type =
      let start : RawPost = record { result = no_post_data mime_type; parts = []; used = 0 } in
      let out = raw_parts none start raw in
      elim (Option-cases (decode_text to_lower decode btoa (concat out.parts) mime_type)) [
        | inl binary ↦ rw (binary, raw_post_data) (raw_parts_dropped none start raw)
        | inr (t, decoded) ↦ rw (decoded, raw_post_data) (raw_parts_dropped none start raw)
      ]

  post_data_dropped :
      (body : RequestBody) (mime_type : Text)
      → (post_data to_lower decode btoa body mime_type none).body_dropped ≡ false
  unfolding post_data form_post_data
  post_data_dropped body mime_type = elim (Option-cases body.error) [
    | inr (e, refused) ↦ rw (refused, post_data) refl
    | inl whole ↦ elim (Option-cases body.form_data) [
      | inr (f, form) ↦ rw (whole, form, post_data) refl
      | inl raw ↦ rw (whole, raw, post_data) (raw_dropped (or_else body.raw []) mime_type)
    ]
  ]

  post_fresh :
      (s : StoredBody) (mime_type : Text)
      → PostIsFresh (finished_post to_lower decode btoa s mime_type)
  unfolding finished_post filled_post filled_text PostIsFresh
  post_fresh s mime_type = elim (Bool-cases s.dropped) [
    | inl dropped ↦ rw (dropped, finished_post) refl
    | inr kept ↦ elim (Option-cases s.stored) [
      | inl absent ↦ rw (kept, absent, finished_post) tt
      | inr (body, stored) ↦
          rw (kept, stored, finished_post) (gone_first _ _ (post_data_dropped body mime_type))
    ]
  ]

  -- `finish` hands over a hop of which nothing is there that it says was dropped.
  pub finish-HopIsWhole :
      (hop : HopRecord) (captured : Bool) (stored : Option StoredBody)
      (body : Option ResponseBodyRecord) (dropped : Bool)
      → dropped && is_some body ≡ false
      → HopIsWhole (finish to_lower decode btoa hop captured stored body dropped)
  unfolding finish PostIsFresh
  finish-HopIsWhole hop captured none body dropped h = (h, tt)
  finish-HopIsWhole hop captured (some s) body dropped h =
      (h, post_fresh s (content_type to_lower hop.request_headers))
