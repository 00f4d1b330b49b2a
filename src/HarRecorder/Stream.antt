-- ===== src/HarRecorder/Stream.antt =====
-- The body bytes that a recording of extension/src/har-recorder.ts stores: the request's body, and
-- the response's as its stream filter passes it on.
--
-- A filter is the index of its stream. What the recorder closes over for a filter (the body, the
-- counts) stands in the stream; a hop points to the stream of its body.
pub mod Chunk
pub mod Budget
pub mod Runs
use firefox_ctl.Base.{
  Bool, List, Option, Text, [], false, get_elem?, if◌then◌else◌, leb, length, ltb, map, min,
  nat_beq, none, not, set, some, take, true, ℕ, ◌&&◌, ◌++◌, ◌+◌, ◌-◌, ◌||◌, ◌∷◌,
}
use firefox_ctl.HarRecorder.Body.{RequestBody, StoredBody, store_body}

pub record ResponseBodyRecord : Type 0 where
  pub chunks : List (List ℕ)
  pub complete : Bool
  pub truncated : Bool
  pub size : Option ℕ
  pub error : Option Text

-- What was written through to the page, and whether the filter was disconnected or closed, are what
-- the recorder did to the filter.
pub record Stream : Type 0 where
  pub body : ResponseBodyRecord
  pub stored : ℕ
  pub seen : ℕ
  pub written : List (List ℕ)
  pub disconnected : Bool
  pub closed : Bool

-- The bodies of a hop: the request's, and the index of the response's.
pub record HopBody : Type 0 where
  pub request : Option StoredBody
  pub body : Option ℕ
  pub body_dropped : Bool

-- The part of a recording that its bodies are in.
pub record Capture : Type 0 where
  pub max_body_size : ℕ
  pub budget : ℕ
  pub stopped : Bool
  pub streams : List Stream
  pub hops : List HopBody

unfoldable pub start_capture : ℕ → ℕ → Capture
start_capture max_body_size budget = record {
  max_body_size = max_body_size;
  budget = budget;
  stopped = false;
  streams = [];
  hops = [];
}

-- A stream that starts, or the error that `filterResponseData` threw.
unfoldable pub new_stream : Option Text → Stream
new_stream thrown = record {
  body = record { chunks = []; complete = false; truncated = false; size = none; error = thrown };
  stored = 0;
  seen = 0;
  written = [];
  disconnected = false;
  closed = false;
}

-- `captureResponse` for a hop that is pushed after it.
unfoldable pub capture_response : Capture → Option StoredBody → Option Text → Capture
capture_response c request thrown =
    if leb c.budget 0
    then record c {
      hops = c.hops ++ record { request = request; body = none; body_dropped = true } ∷ [];
    }
    else record c {
      streams = c.streams ++ new_stream thrown ∷ [];
      hops =
          c.hops
          ++ record { request = request; body = some (length c.streams); body_dropped = false }
            ∷ [];
    }

-- The bodies of `beforeRequest`; nothing is stored for a request whose form throws.
unfoldable pub begin_hop : Capture → Option RequestBody → Option Text → Capture
unfolding capture_response
begin_hop c request_body thrown =
    if ltb 0 c.max_body_size
    then elim request_body [
      | none ↦ capture_response c none thrown
      | some body ↦ elim (store_body c.max_body_size c.budget body) [
        | none ↦ c
        | some out ↦ capture_response (record c { budget = out.1 }) (some out.0) thrown
      ]
    ]
    else record c {
      hops = c.hops ++ record { request = none; body = none; body_dropped = false } ∷ [];
    }

-- How many bytes of a chunk are stored.
unfoldable pub kept_length : ℕ → ℕ → Stream → List ℕ → ℕ
kept_length max_body_size budget s bytes =
    min (min (max_body_size - s.stored) budget) (length bytes)

abbrev pub add_chunk : List (List ℕ) → ℕ → List ℕ → List (List ℕ)
add_chunk chunks n bytes = if ltb 0 n then chunks ++ take n bytes ∷ [] else chunks

-- `filter.ondata` of a recording that goes on, when n bytes of the chunk are stored.
unfoldable pub store_chunk : Stream → ℕ → List ℕ → Stream
store_chunk s n bytes =
    let cut = ltb n (length bytes) in
    let nothing = nat_beq (s.stored + n) 0 in
    let seen = s.seen + length bytes in
    record {
      body = record s.body {
        chunks = add_chunk s.body.chunks n bytes;
        truncated = if cut && not nothing then true else s.body.truncated;
        size = if cut && not nothing then some seen else s.body.size;
      };
      stored = s.stored + n;
      seen = seen;
      written = s.written ++ bytes ∷ [];
      disconnected = s.disconnected || cut;
      closed = s.closed;
    }

-- A hop whose body is the stream loses it.
abbrev pub lose_body : ℕ → HopBody → HopBody
lose_body i h = elim h.body [
  | none ↦ h
  | some j ↦ if nat_beq i j then record h { body = none; body_dropped = true } else h
]

unfoldable pub on_data_of : Capture → ℕ → Stream → List ℕ → Capture
on_data_of c i s bytes =
    let n = kept_length c.max_body_size c.budget s bytes in
    if c.stopped
    then record c { streams = set c.streams i (record s { written = s.written ++ bytes ∷ [] }) }
    else record c {
      budget = c.budget - n;
      streams = set c.streams i (store_chunk s n bytes);
      hops =
          if ltb n (length bytes) && nat_beq (s.stored + n) 0
          then map (lose_body i) c.hops
          else c.hops;
    }

unfoldable pub on_data : Capture → ℕ → List ℕ → Capture
unfolding on_data_of
on_data c i bytes = elim (get_elem? c.streams i) [ none ↦ c | some s ↦ on_data_of c i s bytes ]

unfoldable pub on_stop : Capture → ℕ → Capture
on_stop c i = elim (get_elem? c.streams i) [
  | none ↦ c
  | some s ↦ record c {
    streams = set c.streams i (record s {
      closed = true;
      body = record s.body { complete = if c.stopped then s.body.complete else true };
    });
  }
]

unfoldable pub on_error : Capture → ℕ → Text → Capture
on_error c i error = elim (get_elem? c.streams i) [
  | none ↦ c
  | some s ↦ record c {
    streams = set c.streams i (record s {
      body = record s.body { error = if c.stopped then s.body.error else some error };
    });
  }
]

-- `releaseFilters`, of what the bodies depend on.
unfoldable pub stop_capture : Capture → Capture
stop_capture c = record c { stopped = true }
