-- ===== src/Port/Links.antt =====
-- What holds of the link of extension/src/port.ts over every order of calls, frames and timers.
use firefox_ctl.Base.{
  Bool-cases, List, Option, Option-cases, Text, [], arith, delete, false, if◌then◌else◌, inl, inr,
  insert, is_some, leb, lookup, lookup-delete, lookup-insert, nat_beq, nat_eq, none, refl, some,
  subst, sym, text_eq, true, txt, ℕ, ◌||◌, ◌∷◌, ◌≡◌, ◌≤◌, ◌⊎◌,
}
use firefox_ctl.Base.Json.{Json, as_text, get}
use firefox_ctl.Protocol.{ExtensionResponse, is_host_command, message}
use firefox_ctl.Port.{
  NativeLink, Outcome, PendingRequest, Timer, backoff_delay, becomes_stable, clear_timer,
  clear_timers, connect, connect_port, fire, frame_fields, fresh_link, handle_disconnect, is_port,
  mark_stable, max_attempts, post_reply, receive, reconnects, reject_pending, resolve_id,
  resolve_pending, run_timer, schedule_reconnect, send, send_on, times_out,
}

pub data Event : Type 0 where
  connects : Option ℕ → Event
  sends : Text → Text → ℕ → Option Text → Event
  receives : ℕ → Json → Event
  replies : ℕ → ExtensionResponse → Event
  disconnects : ℕ → Text → Event
  fires : ℕ → Option ℕ → Event

unfoldable pub step : NativeLink → Event → NativeLink
step s (connects opened) = connect s opened
step s (sends id command ms thrown) = send s id command ms thrown
step s (receives p message) = receive s p message
step s (replies p response) = post_reply s p response
step s (disconnects p reason) = handle_disconnect s p reason
step s (fires t opened) = fire s t opened

unfoldable pub run : NativeLink → List Event → NativeLink
run s [] = s
run s (e ∷ es) = run (step s e) es

abbrev pub Mode : NativeLink → Type 0
Mode s =
    ((s.port ≡ none) × (s.pending ≡ []) × (s.stable_timer ≡ none))
    ⊎ ((is_some s.port ≡ true) × (s.reconnect_timer ≡ none))

-- A timer of a stable connection or of a reconnect is the one that the link knows.
abbrev pub TimerOf : Option ℕ → Option ℕ → ℕ → Option Timer → Type 0
TimerOf stable reconnect t none = Unit
TimerOf stable reconnect t (some becomes_stable) = stable ≡ some t
TimerOf stable reconnect t (some (reconnects delay)) = reconnect ≡ some t
TimerOf stable reconnect t (some (times_out id command ms)) = Unit

abbrev pub Armed : Option ℕ → Option ℕ → List (ℕ × Timer) → Type 0
Armed stable reconnect timers = (t : ℕ) → TimerOf stable reconnect t (lookup t timers)

-- A link that is not connected waits for no answer and for no stable connection; a connected one
-- waits for no reconnect; no timer of either kind is armed but the one the link knows; and at most
-- ten attempts are counted.
pub record Inv (s : NativeLink) : Type 0 where
  pub mode : Mode s
  pub armed : Armed s.stable_timer s.reconnect_timer s.timers
  pub counted : s.attempt ≤ max_attempts

TimerOf-kept :
    (a b : Option ℕ) (k t : ℕ) (m : Option Timer)
    → TimerOf a b t m
    → TimerOf a b t (if nat_beq k t then none else m)
TimerOf-kept a b k t m h = elim (Bool-cases (nat_beq k t)) [ inl e ↦ rw e tt | inr e ↦ rw e h ]

not_stable :
    (a b : Option ℕ) (k t : ℕ) (m : Option Timer)
    → a ≡ some k
    → nat_beq k t ≡ false
    → TimerOf a b t m
    → TimerOf none b t m
not_stable a b k t none e n h = tt
not_stable a b k t (some becomes_stable) e n h = let same : k ≡ t = cc in absurd (ground arith)
not_stable a b k t (some (reconnects delay)) e n h = h
not_stable a b k t (some (times_out id command ms)) e n h = tt

not_reconnect :
    (a b : Option ℕ) (k t : ℕ) (m : Option Timer)
    → b ≡ some k
    → nat_beq k t ≡ false
    → TimerOf a b t m
    → TimerOf a none t m
not_reconnect a b k t none e n h = tt
not_reconnect a b k t (some becomes_stable) e n h = h
not_reconnect a b k t (some (reconnects delay)) e n h =
    let same : k ≡ t = cc in absurd (ground arith)
not_reconnect a b k t (some (times_out id command ms)) e n h = tt

module _ (a b : Option ℕ) (ts : List (ℕ × Timer)) where
  Armed-delete : (k : ℕ) → Armed a b ts → Armed a b (delete k ts)
  Armed-delete k h t =
      subst (TimerOf a b t) (sym (lookup-delete k t ts)) (TimerOf-kept a b k t (lookup t ts) (h t))

  Armed-delete_stable : (k : ℕ) → a ≡ some k → Armed a b ts → Armed none b (delete k ts)
  Armed-delete_stable k e h t =
      subst (TimerOf none b t) (sym (lookup-delete k t ts)) (elim (Bool-cases (nat_beq k t)) [
        | inl same ↦ rw same tt
        | inr other ↦ rw other (not_stable a b k t (lookup t ts) e other (h t))
      ])

  Armed-delete_reconnect : (k : ℕ) → b ≡ some k → Armed a b ts → Armed a none (delete k ts)
  Armed-delete_reconnect k e h t =
      subst (TimerOf a none t) (sym (lookup-delete k t ts)) (elim (Bool-cases (nat_beq k t)) [
        | inl same ↦ rw same tt
        | inr other ↦ rw other (not_reconnect a b k t (lookup t ts) e other (h t))
      ])

  Armed-insert :
      (k : ℕ) (timer : Timer)
      → TimerOf a b k (some timer)
      → ((t : ℕ) → nat_beq k t ≡ false → TimerOf a b t (lookup t ts))
      → Armed a b (insert k timer ts)
  Armed-insert k timer new h t =
      subst (TimerOf a b t) (sym (lookup-insert k t timer ts)) (elim (Bool-cases (nat_beq k t)) [
        | inl same ↦
            let at : k ≡ t = ground arith in
            rw same (subst (λ u. TimerOf a b u (some timer)) at new)
        | inr other ↦ rw other (h t other)
      ])

-- A link that knows no such timer may come to know one.
none_stable : (a b : Option ℕ) (t : ℕ) (m : Option Timer) → TimerOf none b t m → TimerOf a b t m
none_stable a b t none h = tt
none_stable a b t (some becomes_stable) h = cc
none_stable a b t (some (reconnects delay)) h = h
none_stable a b t (some (times_out id command ms)) h = tt

none_reconnect : (a b : Option ℕ) (t : ℕ) (m : Option Timer) → TimerOf a none t m → TimerOf a b t m
none_reconnect a b t none h = tt
none_reconnect a b t (some becomes_stable) h = h
none_reconnect a b t (some (reconnects delay)) h = cc
none_reconnect a b t (some (times_out id command ms)) h = tt

Armed-insert_stable :
    (b : Option ℕ) (k : ℕ) (ts : List (ℕ × Timer))
    → Armed none b ts
    → Armed (some k) b (insert k becomes_stable ts)
Armed-insert_stable b k ts h =
    Armed-insert (some k) b ts k becomes_stable refl
      (λ t other. none_stable (some k) b t (lookup t ts) (h t))

Armed-insert_reconnect :
    (a : Option ℕ) (k delay : ℕ) (ts : List (ℕ × Timer))
    → Armed a none ts
    → Armed a (some k) (insert k (reconnects delay) ts)
Armed-insert_reconnect a k delay ts h =
    Armed-insert a (some k) ts k (reconnects delay) refl
      (λ t other. none_reconnect a (some k) t (lookup t ts) (h t))

Armed-clear_stable :
    (a b : Option ℕ) (ts : List (ℕ × Timer)) → Armed a b ts → Armed none b (clear_timer a ts)
Armed-clear_stable none b ts h = h
Armed-clear_stable (some k) b ts h = Armed-delete_stable (some k) b ts k refl h

Armed-clear_reconnect :
    (a b : Option ℕ) (ts : List (ℕ × Timer)) → Armed a b ts → Armed a none (clear_timer b ts)
Armed-clear_reconnect a none ts h = h
Armed-clear_reconnect a (some k) ts h = Armed-delete_reconnect a (some k) ts k refl h

Armed-clear_timers :
    (a b : Option ℕ) (pending : List (Text × PendingRequest)) (ts : List (ℕ × Timer))
    → Armed a b ts
    → Armed a b (clear_timers pending ts)
Armed-clear_timers a b [] ts h = h
Armed-clear_timers a b ((id, r) ∷ rs) ts h =
    Armed-clear_timers a b rs (delete r.timer ts) (Armed-delete a b ts r.timer h)

fresh_link-Inv : Inv fresh_link
unfolding fresh_link lookup
fresh_link-Inv = record { mode = inl (refl, refl, refl); armed = λ t. tt; counted = omega arith }

schedule_reconnect-Inv : (s : NativeLink) → Inv s → Inv (schedule_reconnect s)
unfolding schedule_reconnect
schedule_reconnect-Inv s v = elim (Bool-cases (is_some s.port || is_some s.reconnect_timer)) [
  | inl busy ↦ rw busy v
  | inr free ↦ elim (Bool-cases (leb max_attempts s.attempt)) [
    | inl spent ↦
        rw free (rw spent (record { mode = v.mode; armed = v.armed; counted = omega arith }))
    | inr more ↦
        let idle : s.reconnect_timer ≡ none = ground arith in
        rw free (
          rw more (record {
            mode = ground (arith, v.mode);
            armed =
                Armed-insert_reconnect s.stable_timer s.next_timer (backoff_delay s.attempt)
                  s.timers (subst (λ b. Armed s.stable_timer b s.timers) idle v.armed);
            counted = ground arith;
          }))
  ]
]

connect_port-Inv : (s : NativeLink) (p : ℕ) → s.port ≡ none → Inv s → Inv (connect_port s p)
unfolding connect_port
connect_port-Inv s p e v =
    let idle : s.stable_timer ≡ none = ground (arith, v.mode) in
    record {
      mode = inr (refl, refl);
      armed = Armed-insert_stable none s.next_timer (clear_timer s.reconnect_timer s.timers) (
          Armed-clear_reconnect none s.reconnect_timer s.timers
            (subst (λ a. Armed a s.reconnect_timer s.timers) idle v.armed));
      counted = v.counted;
    }

connect-Inv : (s : NativeLink) (opened : Option ℕ) → Inv s → Inv (connect s opened)
unfolding connect
connect-Inv s opened v = elim (Option-cases s.port) [
  | inr (p, e) ↦ rw (e, connect) v
  | inl e ↦ elim (Option-cases opened) [
    | inr (p, o) ↦ rw (e, connect) (rw (o, connect) (connect_port-Inv s p e v))
    | inl o ↦
        rw (e, connect)
          (rw (o, connect)
            (schedule_reconnect-Inv (record s { port = none })
              (record { mode = ground (arith, v.mode); armed = v.armed; counted = v.counted })))
  ]
]

send_on-Inv :
    (s : NativeLink) (p : ℕ) (id command : Text) (ms : ℕ) (thrown : Option Text)
    → s.port ≡ some p
    → Inv s
    → Inv (send_on s p id command ms thrown)
unfolding send_on
send_on-Inv s p id command ms none e v = record {
  mode = ground (arith, v.mode);
  armed =
      Armed-insert s.stable_timer s.reconnect_timer s.timers s.next_timer (times_out id command ms)
        tt (λ t other. v.armed t);
  counted = v.counted;
}
send_on-Inv s p id command ms (some thrown) e v = record {
  mode = ground (arith, v.mode);
  armed = Armed-delete s.stable_timer s.reconnect_timer _ s.next_timer (
      Armed-insert s.stable_timer s.reconnect_timer s.timers s.next_timer (times_out id command ms)
        tt (λ t other. v.armed t));
  counted = v.counted;
}

send-Inv :
    (s : NativeLink) (id command : Text) (ms : ℕ) (thrown : Option Text)
    → Inv s
    → Inv (send s id command ms thrown)
unfolding send
send-Inv s id command ms thrown v = elim (Option-cases s.port) [
  | inl e ↦ rw (e, send) (record { mode = v.mode; armed = v.armed; counted = v.counted })
  | inr (p, e) ↦ rw (e, send) (send_on-Inv s p id command ms thrown e v)
]

mark_stable-Inv : (s : NativeLink) → Inv s → Inv (mark_stable s)
unfolding mark_stable
mark_stable-Inv s v = elim (Option-cases s.stable_timer) [
  | inl e ↦ rw (e, mark_stable) v
  | inr (t, e) ↦
      rw (e, mark_stable)
        (record {
          mode = ground (arith, v.mode);
          armed = Armed-delete_stable s.stable_timer s.reconnect_timer s.timers t e v.armed;
          counted = omega arith;
        })
]

delete-nil : (id : Text) → delete {V = PendingRequest} id [] ≡ []
unfolding delete
delete-nil id = refl

resolve_id-Inv : (s : NativeLink) (id : Text) (o : Outcome) → Inv s → Inv (resolve_id s id o)
unfolding resolve_id
resolve_id-Inv s id o v = elim (Option-cases (lookup id s.pending)) [
  | inl e ↦ rw (e, resolve_id) v
  | inr (r, e) ↦
      rw (e, resolve_id)
        (record {
          mode = ground (arith, v.mode, delete-nil id);
          armed = Armed-delete s.stable_timer s.reconnect_timer s.timers r.timer v.armed;
          counted = v.counted;
        })
]

resolve_pending-Inv : (s : NativeLink) (m : Json) → Inv s → Inv (resolve_pending s m)
unfolding resolve_pending
resolve_pending-Inv s m v = elim (Option-cases (as_text (get (txt "id") (frame_fields m)))) [
  | inl e ↦ rw (e, resolve_pending) v
  | inr (id, e) ↦ rw (e, resolve_pending) (resolve_id-Inv s id _ v)
]

receive-Inv : (s : NativeLink) (p : ℕ) (m : Json) → Inv s → Inv (receive s p m)
unfolding receive
receive-Inv s p m v = elim (Bool-cases (is_port s.port p)) [
  | inl e ↦
      rw (e, receive)
        (elim (Bool-cases (is_host_command m)) [
          | inl h ↦ rw h (mark_stable-Inv s v)
          | inr h ↦ rw h (resolve_pending-Inv (mark_stable s) m (mark_stable-Inv s v))
        ])
  | inr e ↦
      rw (e, receive)
        (elim (Bool-cases (is_host_command m)) [
          | inl h ↦ rw h v
          | inr h ↦ rw h (resolve_pending-Inv s m v)
        ])
]

post_reply-Inv : (s : NativeLink) (p : ℕ) (r : ExtensionResponse) → Inv s → Inv (post_reply s p r)
unfolding post_reply
post_reply-Inv s p r v = elim (Bool-cases (is_port s.port p)) [
  | inl e ↦ rw e (record { mode = v.mode; armed = v.armed; counted = v.counted })
  | inr e ↦ rw e v
]

handle_disconnect-Inv :
    (s : NativeLink) (p : ℕ) (reason : Text) → Inv s → Inv (handle_disconnect s p reason)
unfolding handle_disconnect reject_pending
handle_disconnect-Inv s p reason v = elim (Bool-cases (is_port s.port p)) [
  | inl e ↦ rw e (
      schedule_reconnect-Inv _ (record {
        mode = inl (refl, refl, refl);
        armed =
            Armed-clear_timers none s.reconnect_timer s.pending _
              (Armed-clear_stable s.stable_timer s.reconnect_timer s.timers v.armed);
        counted = v.counted;
      }))
  | inr e ↦ rw e v
]

-- What a timer that is no longer armed does.
run_timer-Inv :
    (s : NativeLink) (t : ℕ) (timer : Timer) (opened : Option ℕ)
    → Inv s
    → lookup t s.timers ≡ some timer
    → Inv (run_timer (record s { timers = delete t s.timers }) timer opened)
unfolding run_timer
run_timer-Inv s t becomes_stable opened v e =
    let known = subst (TimerOf s.stable_timer s.reconnect_timer t) e (v.armed t) in
    record {
      mode = ground (arith, v.mode);
      armed = Armed-delete_stable s.stable_timer s.reconnect_timer s.timers t known v.armed;
      counted = omega arith;
    }
run_timer-Inv s t (reconnects delay) opened v e =
    let known = subst (TimerOf s.stable_timer s.reconnect_timer t) e (v.armed t) in
    connect-Inv (record s { timers = delete t s.timers; reconnect_timer = none }) opened
      (record {
        mode = ground (arith, v.mode);
        armed = Armed-delete_reconnect s.stable_timer s.reconnect_timer s.timers t known v.armed;
        counted = v.counted;
      })
run_timer-Inv s t (times_out id command ms) opened v e =
    let armed = Armed-delete s.stable_timer s.reconnect_timer s.timers t v.armed in
    elim (Option-cases (lookup id s.pending)) [
      | inl n ↦ rw (n, run_timer) (record { mode = v.mode; armed = armed; counted = v.counted })
      | inr (r, n) ↦
          rw (n, run_timer)
            (record {
              mode = ground (arith, v.mode, delete-nil id);
              armed = armed;
              counted = v.counted;
            })
    ]

fire-Inv : (s : NativeLink) (t : ℕ) (opened : Option ℕ) → Inv s → Inv (fire s t opened)
unfolding fire
fire-Inv s t opened v = elim (Option-cases (lookup t s.timers)) [
  | inl e ↦ rw (e, fire) v
  | inr (timer, e) ↦ rw (e, fire) (run_timer-Inv s t timer opened v e)
]

step-Inv : (s : NativeLink) (e : Event) → Inv s → Inv (step s e)
unfolding step
step-Inv s (connects opened) v = connect-Inv s opened v
step-Inv s (sends id command ms thrown) v = send-Inv s id command ms thrown v
step-Inv s (receives p m) v = receive-Inv s p m v
step-Inv s (replies p r) v = post_reply-Inv s p r v
step-Inv s (disconnects p reason) v = handle_disconnect-Inv s p reason v
step-Inv s (fires t opened) v = fire-Inv s t opened v

pub run-Inv_of : (s : NativeLink) (es : List Event) → Inv s → Inv (run s es)
unfolding run
run-Inv_of s [] v = v
run-Inv_of s (e ∷ es) v = run-Inv_of (step s e) es (step-Inv s e v)

-- After any events, a link that is not connected has no pending request and knows no timer for a
-- stable connection, a connected one knows no reconnect timer, no timer for a stable connection or
-- a reconnect is armed but the one that the link knows, and at most ten attempts are counted.
pub run-Inv : (es : List Event) → Inv (run fresh_link es)
run-Inv es = run-Inv_of fresh_link es fresh_link-Inv
