-- ===== src/Har/Finish.antt =====
-- `finish` of extension/src/har-recorder.ts: a hop as `buildLog` takes it.
use firefox_ctl.Base.{
  Bool, List, Option, Text, if◌then◌else◌, is_some, none, not, some, true, ℕ, ◌||◌,
}
use firefox_ctl.HarRecorder.Body.{StoredBody}
use firefox_ctl.HarRecorder.Stream.{ResponseBodyRecord}
use firefox_ctl.HarRecorder.Hops.{HopRecord}
use firefox_ctl.Har.{FinishedHop, HarPostData}
use firefox_ctl.Har.Mime.{content_type}
use firefox_ctl.Har.Bodies.{no_post_data, post_data}

module _ (to_lower : Text → Text) (decode : Text → List ℕ → Option Text)
    (btoa : List ℕ → Text) where
  -- The `postData` of `finish`: the prefix is already cut, so all of it is kept.
  unfoldable pub finished_post : StoredBody → Text → Option HarPostData
  unfolding post_data
  finished_post stored mime_type =
      if stored.dropped
      then some (record (no_post_data mime_type) { body_dropped = true })
      else elim stored.stored [
        | none ↦ none
        | some body ↦
            let post = post_data to_lower decode btoa body mime_type none in
            some (record post { truncated = post.truncated || stored.cut })
      ]

  unfoldable pub finish :
      HopRecord → Bool → Option StoredBody → Option ResponseBodyRecord → Bool → FinishedHop
  unfolding content_type finished_post
  finish hop captured stored body dropped = record {
    hop = hop;
    request_body = elim stored [ none ↦ none | some s ↦ some s.request_body ];
    body_captured = captured;
    post_data = elim stored [
      | none ↦ none
      | some s ↦ finished_post s (content_type to_lower hop.request_headers)
    ];
    pending = not (is_some hop.end);
    body = body;
    body_dropped = dropped;
  }
