-- ===== src/HarRecorder/Tests.antt =====
-- Runs of the recorder of extension/src/har-recorder.ts, and the theorems at concrete recordings.
use firefox_ctl.Base.{
  List, Text, [], insert, length, lookup, ltb, map, map_some, min, nat_eq, none, refl, some, take,
  text_beq, text_eq, txt, ℕ, ◌∷◌, ◌≡◌,
}
use firefox_ctl.Reply.{utf8_length}
use firefox_ctl.HarRecorder.Body.{
  Kept, RequestBody, UploadData, add_value, cut_body, cut_form, cut_part, cut_raw, form_loop,
  has_payload, inherited_names, is_inherited, pair_size, pairs, part_bytes, part_shape, raw_loop,
  raw_of, shape, store_body, with_value,
}
use firefox_ctl.HarRecorder.Body.Cut.{all_bytes, cut_raw_lem}
use firefox_ctl.HarRecorder.Body.Form.{FormEnds, cut_form_lem}
use firefox_ctl.HarRecorder.Body.Store.{IsStored, store_body_lem}
use firefox_ctl.HarRecorder.Stream.{
  Stream, begin_hop, capture_response, kept_length, new_stream, on_data, on_data_of, on_error,
  on_stop, start_capture, stop_capture, store_chunk,
}
use firefox_ctl.HarRecorder.Stream.Budget.{Inv}
use firefox_ctl.HarRecorder.Stream.Runs.{
  Event, begins, ends, gets, play, play_all, play_all-Inv, stops,
}

recorder : Unit {0}
unfolding cut_raw raw_loop cut_part part_bytes cut_form form_loop pairs pair_size add_value
    with_value is_inherited inherited_names lookup insert text_beq utf8_length cut_body store_body
    has_payload shape part_shape start_capture new_stream capture_response begin_hop kept_length
    store_chunk on_data_of on_data on_stop on_error stop_capture play play_all
recorder = tt

abbrev part : List ℕ → UploadData
part bytes = record { bytes = some bytes; file = none; truncated = none; original_size = none }

abbrev upload : List UploadData
upload = part (1 ∷ 2 ∷ 3 ∷ []) ∷ part (4 ∷ 5 ∷ []) ∷ []

abbrev form : List (Text × List Text)
form = (txt "a", txt "x" ∷ txt "yy" ∷ []) ∷ (txt "b", txt "z" ∷ []) ∷ []

abbrev body : RequestBody
body = record { error = none; form_data = none; raw = some upload }

abbrev events : List Event
events = begins (some body) none ∷ gets 0 (7 ∷ 8 ∷ 9 ∷ []) ∷ gets 0 (10 ∷ []) ∷ ends 0 ∷ stops ∷ []

upload_cut : (cut_raw upload 4).used ≡ 4
unfolding recorder
upload_cut = refl

form_cut :
    map_some (λ (k : Kept). k.body.form_data) (cut_form form 6)
    ≡ some (some ((txt "a", txt "x" ∷ txt "yy" ∷ []) ∷ []))
unfolding recorder
form_cut = refl

inherited_throws : cut_form ((txt "toString", txt "x" ∷ []) ∷ []) 100 ≡ none
unfolding recorder
inherited_throws = refl

chunks_stored :
    map (λ (s : Stream). s.body.chunks) (play_all (start_capture 4 6) events).streams
    ≡ ((7 ∷ 8 ∷ []) ∷ []) ∷ []
unfolding recorder
chunks_stored = refl

cut_raw_lem_example :
    (all_bytes (raw_of (cut_raw upload 4).body.raw) ≡ take 4 (all_bytes upload))
    × ((cut_raw upload 4).used ≡ min 4 (length (all_bytes upload)))
    × ((cut_raw upload 4).cut ≡ ltb 4 (length (all_bytes upload)))
cut_raw_lem_example = cut_raw_lem upload 4

cut_form_lem_example : FormEnds form 6 (cut_form form 6)
cut_form_lem_example = cut_form_lem form 6

store_body_lem_example : IsStored 4 100 body (store_body 4 100 body)
store_body_lem_example = store_body_lem 4 100 body

play_all-Inv_example : Inv 4 6 (play_all (start_capture 4 6) events)
play_all-Inv_example = play_all-Inv 4 6 events
