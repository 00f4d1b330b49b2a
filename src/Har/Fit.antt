-- ===== src/Har/Fit.antt =====
-- `fitLog` of extension/src/har.ts: the largest bodies dropped until the reply fits.
--
-- `entry_text` and `reply_text` are what `JSON.stringify` makes of an entry, and of the reply that
-- carries the log. A size that the source lets fall below 0 stops at 0 here: the limit is no less.
pub mod Shells
pub mod Dropping
pub mod Whole
pub mod Queue
pub mod Reference
use firefox_ctl.Base.{
  Bool, List, Option, Text, [], false, if◌then◌else◌, keep_some, leb, length, ltb, nat_eq, none,
  not, or_else, set, some, suc, text_eq, true, ℕ, ◌&&◌, ◌+◌, ◌-◌, ◌==◌, ◌||◌, ◌∷◌,
}
use firefox_ctl.Reply.{utf8_length}
use firefox_ctl.Har.{Har, HarContent, HarEntry, HarPostData}
use firefox_ctl.Har.Log.{content, dropped_bodies, one_if, request, response, sort_by}

unfoldable pub filled_text : Option Text → Bool
filled_text none = false
filled_text (some t) = not (t == [])

unfoldable pub filled_post : HarPostData → Bool
unfolding filled_text
filled_post post = filled_text post.text || ltb 0 (length (or_else post.params []))

unfoldable pub filled_request : Option HarPostData → Bool
unfolding filled_post
filled_request none = false
filled_request (some post) = filled_post post

unfoldable pub has_payload : HarEntry → Bool
unfolding filled_text filled_request
has_payload e = filled_text e.response.content.text || filled_request e.request.post_data

unfoldable pub shell_content : HarContent → HarContent
unfolding filled_text
shell_content content =
    if filled_text content.text
    then record content { text = none; is_base64 = false; body_dropped = true }
    else content

-- What is left keeps its `_encoding`.
unfoldable pub shell_post : HarPostData → HarPostData
unfolding filled_post
shell_post post =
    if filled_post post
    then record post { text = none; params = none; body_dropped = true }
    else post

unfoldable pub shell_request : Option HarPostData → Option HarPostData
unfolding shell_post
shell_request none = none
shell_request (some post) = some (shell_post post)

-- The entry of `shell`.
unfoldable pub shell : HarEntry → HarEntry
unfolding shell_content shell_request
shell e = record e {
  request = record e.request { post_data = shell_request e.request.post_data };
  response = record e.response { content = shell_content e.response.content };
}

-- The bodies of `shell`.
unfoldable pub shell_bodies : HarEntry → ℕ
unfolding filled_text filled_request
shell_bodies e =
    one_if (filled_text e.response.content.text) + one_if (filled_request e.request.post_data)

pub record Candidate : Type 0 where
  pub index : ℕ
  pub shell : HarEntry
  pub bodies : ℕ
  pub saving : ℕ

unfoldable pub drop_body : Har → Candidate → Har
drop_body har next = record har {
  entries = set har.entries next.index next.shell;
  recording = record har.recording { dropped_bodies = har.recording.dropped_bodies + next.bodies };
}

-- The log, or `HAR_TOO_LARGE` with the size it names.
pub data Fitted : Type 0 where
  fitted : Har → Fitted
  too_large : ℕ → Fitted

module _ (entry_text : HarEntry → Text) (reply_text : Har → Text) where
  unfoldable pub entry_bytes : HarEntry → ℕ
  unfolding utf8_length
  entry_bytes e = utf8_length (entry_text e)

  unfoldable pub reply_bytes : Har → ℕ
  unfolding utf8_length
  reply_bytes har = utf8_length (reply_text har)

  -- An entry's candidate, where dropping its bodies saves something.
  unfoldable pub candidate : ℕ → HarEntry → Option Candidate
  unfolding has_payload shell shell_bodies entry_bytes
  candidate index e =
      let saving = entry_bytes e - entry_bytes (shell e) in
      if has_payload e && ltb 0 saving
      then some
          (record { index = index; shell = shell e; bodies = shell_bodies e; saving = saving })
      else none

  unfoldable pub candidates_from : ℕ → List HarEntry → List Candidate
  unfolding candidate
  candidates_from index [] = []
  candidates_from index (e ∷ es) = keep_some (candidate index e) (candidates_from (suc index) es)

  unfoldable pub candidates : List HarEntry → List Candidate
  unfolding candidates_from sort_by
  candidates entries = sort_by (λ a b. leb b.saving a.saving) (candidates_from 0 entries)

  -- The size after a candidate: that of the reply where the estimate says that it fits.
  unfoldable pub next_size : ℕ → ℕ → ℕ → Har → ℕ
  unfolding reply_bytes
  next_size limit size saving har =
      if leb (size - saving) limit then reply_bytes har else size - saving

  unfoldable pub fit_loop : ℕ → ℕ → Har → List Candidate → Fitted
  unfolding reply_bytes drop_body next_size
  fit_loop limit size har [] = if leb size limit then fitted har else too_large (reply_bytes har)
  fit_loop limit size har (next ∷ queue) =
      let later =
        fit_loop limit (next_size limit size next.saving (drop_body har next)) (drop_body har next)
          queue in
      if leb size limit then fitted har else later

  unfoldable pub fit_log : Har → ℕ → Fitted
  unfolding fit_loop reply_bytes candidates
  fit_log har limit = fit_loop limit (reply_bytes har) har (candidates har.entries)
