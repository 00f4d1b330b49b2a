-- ===== src/HarRecorder/Stream/Budget.antt =====
-- The budget of a recording of extension/src/har-recorder.ts is spent exactly on what is stored, by
-- each of its handlers.
use firefox_ctl.Base.{
  All, All-append, All-get, All-map, All-mono, All-set, Bool, Bool-cases, List, Option,
  Option-cases, Text, [], arith, false, get_elem?, if◌then◌else◌, inl, inr, leb, length, ltb, map,
  min, nat_beq, none, refl, set, some, subst, sym, total, total-append, total-map, total-set, true,
  ℕ, ◌&&◌, ◌++◌, ◌+◌, ◌-◌, ◌∷◌, ◌≡◌, ◌≤◌,
}
use firefox_ctl.HarRecorder.Body.{RequestBody, StoredBody, store_body}
use firefox_ctl.HarRecorder.Body.Store.{IsStored, store_body_lem, stored_size}
use firefox_ctl.HarRecorder.Stream.{
  Capture, HopBody, Stream, begin_hop, capture_response, kept_length, lose_body, new_stream,
  on_data, on_data_of, on_error, on_stop, start_capture, stop_capture, store_chunk,
}
use firefox_ctl.HarRecorder.Stream.Chunk.{
  IsPrefix, IsPrefix-mono, new_stream-IsPrefix, pass_on-IsPrefix, store_chunk-IsPrefix,
}

unfoldable pub request_size : HopBody → ℕ
request_size h = elim h.request [ none ↦ 0 | some stored ↦ stored_size stored ]

abbrev pub stream_size : Stream → ℕ
stream_size s = s.stored

-- A recording that began with the limit and the budget given: what is left of the budget and what
-- is stored make up the budget, a stored request body is within the limit, and each response body is
-- the first bytes that its page got.
pub record Inv (limit budget : ℕ) (c : Capture) : Type 0 where
  pub limit_kept : c.max_body_size ≡ limit
  pub spent : c.budget + total stream_size c.streams + total request_size c.hops ≡ budget
  pub requests : All (λ h. request_size h ≤ limit) c.hops
  pub prefixes : All (IsPrefix limit c.budget c.stopped) c.streams

pub start_capture-Inv : (limit budget : ℕ) → Inv limit budget (start_capture limit budget)
unfolding start_capture
start_capture-Inv limit budget = record {
  limit_kept = refl;
  spent = omega arith;
  requests = tt;
  prefixes = tt;
}

-- A hop that is pushed, with what its request body took of the budget.
capture_response-Inv :
    (limit budget : ℕ) (c : Capture) (left : ℕ) (request : Option StoredBody) (thrown : Option Text)
    → Inv limit budget c
    → left + request_size (record { request = request; body = none; body_dropped = true })
      ≡ c.budget
    → request_size (record { request = request; body = none; body_dropped = true }) ≤ limit
    → Inv limit budget (capture_response (record c { budget = left }) request thrown)
unfolding capture_response request_size new_stream
capture_response-Inv limit budget c left request thrown v e le =
    let old_streams =
      All-mono (IsPrefix limit c.budget c.stopped) c.streams
        (λ s p.
          IsPrefix-mono limit c.budget left c.stopped c.stopped s (omega arith) (ground arith) p)
        v.prefixes in
    elim (Bool-cases (leb left 0)) [
      | inl z ↦ rw z (record {
        limit_kept = v.limit_kept;
        spent = omega (
          arith,
          total-append request_size c.hops
              (record { request = request; body = none; body_dropped = true } ∷ []),
          v.spent,
          e,
        );
        requests = All-append _ c.hops _ v.requests (le, tt);
        prefixes = old_streams;
      })
      | inr z ↦ rw z (record {
        limit_kept = v.limit_kept;
        spent = omega (
          arith,
          total-append request_size c.hops (
              record { request = request; body = some (length c.streams); body_dropped = false }
              ∷ []),
          total-append stream_size c.streams (new_stream thrown ∷ []),
          v.spent,
          e,
        );
        requests = All-append _ c.hops _ v.requests (le, tt);
        prefixes =
            All-append _ c.streams _ old_streams
              (new_stream-IsPrefix limit left c.stopped thrown, tt);
      })
    ]

pub begin_hop-Inv :
    (limit budget : ℕ) (c : Capture) (body : Option RequestBody) (thrown : Option Text)
    → Inv limit budget c
    → Inv limit budget (begin_hop c body thrown)
unfolding begin_hop request_size
begin_hop-Inv limit budget c body thrown v = elim (Bool-cases (ltb 0 c.max_body_size)) [
  | inr z ↦ rw z (record {
    limit_kept = v.limit_kept;
    spent = omega (
      arith,
      total-append request_size c.hops
          (record { request = none; body = none; body_dropped = false } ∷ []),
      v.spent,
    );
    requests = All-append _ c.hops _ v.requests (omega arith, tt);
    prefixes = v.prefixes;
  })
  | inl z ↦ rw z (elim (Option-cases body) [
    | inl e ↦
        rw (e, begin_hop)
          (capture_response-Inv limit budget c c.budget none thrown v (omega arith) (omega arith))
    | inr (b, e) ↦
        rw (e, begin_hop)
          (elim (Option-cases (store_body c.max_body_size c.budget b)) [
            | inl throws ↦ rw (throws, begin_hop) v
            | inr (out, kept) ↦
                let stored =
                  subst (IsStored c.max_body_size c.budget b) kept
                    (store_body_lem c.max_body_size c.budget b) in
                rw (kept, begin_hop)
                  (capture_response-Inv limit budget c out.1 (some out.0) thrown v stored.0
                    (omega (arith, stored.1, v.limit_kept)))
          ])
  ])
]

lose_body-request_size : (i : ℕ) (h : HopBody) → request_size (lose_body i h) ≡ request_size h
unfolding request_size
lose_body-request_size i h = elim (Option-cases h.body) [
  | inl e ↦ rw (e, lose_body) refl
  | inr (j, e) ↦ rw (e, lose_body) (ground arith)
]

-- A change of one stream that keeps what it stored.
set_stream-Inv :
    (limit budget : ℕ) (c : Capture) (i : ℕ) (s s' : Stream)
    → Inv limit budget c
    → get_elem? c.streams i ≡ some s
    → s'.stored ≡ s.stored
    → IsPrefix limit c.budget c.stopped s'
    → Inv limit budget (record c { streams = set c.streams i s' })
set_stream-Inv limit budget c i s s' v e same p = record {
  limit_kept = v.limit_kept;
  spent = omega (arith, total-set stream_size c.streams i s s' e, v.spent, same);
  requests = v.requests;
  prefixes = All-set _ c.streams i s' v.prefixes p;
}

lost_hops :
    (limit i : ℕ) (lost : Bool) (hops : List HopBody)
    → All (λ h. request_size h ≤ limit) hops
    → (total request_size (if lost then map (lose_body i) hops else hops) ≡ total request_size hops)
      × All (λ h. request_size h ≤ limit) (if lost then map (lose_body i) hops else hops)
lost_hops limit i false hops h = (refl, h)
lost_hops limit i true hops h = (
  total-map request_size (lose_body i) hops (lose_body-request_size i),
  All-map (λ h. request_size h ≤ limit) (lose_body i) hops
      (λ x le. omega (arith, lose_body-request_size i x, le)) h,
)

store_chunk-stored :
    (s : Stream) (n : ℕ) (bytes : List ℕ) → (store_chunk s n bytes).stored ≡ s.stored + n
unfolding store_chunk
store_chunk-stored s n bytes = refl

grown :
    (limit max_body_size budget : ℕ) (stopped : Bool) (s : Stream) (bytes : List ℕ)
    → max_body_size ≡ limit
    → stopped ≡ false
    → IsPrefix limit budget stopped s
    → IsPrefix limit
        (budget - kept_length max_body_size budget s bytes)
        stopped
        (store_chunk s (kept_length max_body_size budget s bytes) bytes)
grown limit max_body_size budget stopped s bytes e running p =
    subst
      (λ m.
        IsPrefix limit (budget - kept_length m budget s bytes) stopped
          (store_chunk s (kept_length m budget s bytes) bytes))
      (sym e)
      (subst
        (λ b.
          IsPrefix limit (budget - kept_length limit budget s bytes) b
            (store_chunk s (kept_length limit budget s bytes) bytes))
        (sym running)
        (store_chunk-IsPrefix limit budget s bytes
          (subst (λ b. IsPrefix limit budget b s) running p)))

store_chunk-Inv :
    (limit budget : ℕ) (c : Capture) (i : ℕ) (s : Stream) (bytes : List ℕ) (lost : Bool)
    → Inv limit budget c
    → get_elem? c.streams i ≡ some s
    → c.stopped ≡ false
    → Inv limit budget (record c {
      budget = c.budget - kept_length c.max_body_size c.budget s bytes;
      streams =
          set c.streams i (store_chunk s (kept_length c.max_body_size c.budget s bytes) bytes);
      hops = if lost then map (lose_body i) c.hops else c.hops;
    })
unfolding kept_length
store_chunk-Inv limit budget c i s bytes lost v e running =
    let n = min (min (c.max_body_size - s.stored) c.budget) (length bytes) in
    let hops = lost_hops limit i lost c.hops v.requests in
    record {
      limit_kept = v.limit_kept;
      spent = omega (
        arith,
        total-set stream_size c.streams i s (store_chunk s n bytes) e,
        hops.0,
        v.spent,
        store_chunk-stored s n bytes,
      );
      requests = hops.1;
      prefixes =
          All-set _ c.streams i (store_chunk s n bytes)
            (All-mono (IsPrefix limit c.budget c.stopped) c.streams
              (λ x p.
                IsPrefix-mono limit c.budget (c.budget - n) c.stopped c.stopped x (omega arith)
                  (inl running) p)
              v.prefixes)
            (grown limit c.max_body_size c.budget c.stopped s bytes v.limit_kept running
              (All-get _ c.streams i s v.prefixes e));
    }

lost : Capture → Stream → List ℕ → Bool
lost c s bytes =
    ltb (kept_length c.max_body_size c.budget s bytes) (length bytes)
    && nat_beq (s.stored + kept_length c.max_body_size c.budget s bytes) 0

on_data_of-running :
    (c : Capture) (i : ℕ) (s : Stream) (bytes : List ℕ)
    → c.stopped ≡ false
    → on_data_of c i s bytes ≡ record c {
      budget = c.budget - kept_length c.max_body_size c.budget s bytes;
      streams =
          set c.streams i (store_chunk s (kept_length c.max_body_size c.budget s bytes) bytes);
      hops = if lost c s bytes then map (lose_body i) c.hops else c.hops;
    }
unfolding on_data_of lost
on_data_of-running c i s bytes running = rw running refl

on_data_of-stopped :
    (c : Capture) (i : ℕ) (s : Stream) (bytes : List ℕ)
    → c.stopped ≡ true
    → on_data_of c i s bytes
      ≡ record c { streams = set c.streams i (record s { written = s.written ++ bytes ∷ [] }) }
unfolding on_data_of
on_data_of-stopped c i s bytes stop = rw stop refl

pub on_data-Inv :
    (limit budget : ℕ) (c : Capture) (i : ℕ) (bytes : List ℕ)
    → Inv limit budget c
    → Inv limit budget (on_data c i bytes)
unfolding on_data
on_data-Inv limit budget c i bytes v = elim (Option-cases (get_elem? c.streams i)) [
  | inl e ↦ rw (e, on_data) v
  | inr (s, e) ↦
      let p = All-get _ c.streams i s v.prefixes e in
      rw (e, on_data)
        (elim (Bool-cases c.stopped) [
          | inl stop ↦ subst (Inv limit budget) (sym (on_data_of-stopped c i s bytes stop)) (
              set_stream-Inv limit budget c i s (record s { written = s.written ++ bytes ∷ [] }) v e
                refl
                (subst
                  (λ b. IsPrefix limit c.budget b (record s { written = s.written ++ bytes ∷ [] }))
                  (sym stop)
                  (pass_on-IsPrefix limit c.budget s bytes
                    (subst (λ b. IsPrefix limit c.budget b s) stop p))))
          | inr running ↦
              subst (Inv limit budget) (sym (on_data_of-running c i s bytes running))
                (store_chunk-Inv limit budget c i s bytes (lost c s bytes) v e running)
        ])
]

pub on_stop-Inv :
    (limit budget : ℕ) (c : Capture) (i : ℕ) → Inv limit budget c → Inv limit budget (on_stop c i)
unfolding on_stop
on_stop-Inv limit budget c i v = elim (Option-cases (get_elem? c.streams i)) [
  | inl e ↦ rw (e, on_stop) v
  | inr (s, e) ↦
      let p = All-get _ c.streams i s v.prefixes e in
      rw (e, on_stop)
        (set_stream-Inv limit budget c i s _ v e refl
          (record { bytes = p.bytes; stored = p.stored; within = p.within; blocked = p.blocked }))
]

pub on_error-Inv :
    (limit budget : ℕ) (c : Capture) (i : ℕ) (error : Text)
    → Inv limit budget c
    → Inv limit budget (on_error c i error)
unfolding on_error
on_error-Inv limit budget c i error v = elim (Option-cases (get_elem? c.streams i)) [
  | inl e ↦ rw (e, on_error) v
  | inr (s, e) ↦
      let p = All-get _ c.streams i s v.prefixes e in
      rw (e, on_error)
        (set_stream-Inv limit budget c i s _ v e refl
          (record { bytes = p.bytes; stored = p.stored; within = p.within; blocked = p.blocked }))
]

pub stop_capture-Inv :
    (limit budget : ℕ) (c : Capture) → Inv limit budget c → Inv limit budget (stop_capture c)
unfolding stop_capture
stop_capture-Inv limit budget c v = record {
  limit_kept = v.limit_kept;
  spent = v.spent;
  requests = v.requests;
  prefixes =
      All-mono (IsPrefix limit c.budget c.stopped) c.streams
        (λ x p. IsPrefix-mono limit c.budget c.budget c.stopped true x (omega arith) (inr refl) p)
        v.prefixes;
}
