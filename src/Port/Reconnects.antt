-- ===== src/Port/Reconnects.antt =====
-- Disconnects and reconnects of extension/src/port.ts.
use firefox_ctl.Base.{
  Text, ap, arith, delete, eq_self, false, leb, lookup, lookup-insert, nat_eq, none, refl, some,
  subst, suc, sym, text_eq, true, zero, ℕ, ◌+◌, ◌<◌, ◌∙◌, ◌≡◌, ◌≤◌,
}
use firefox_ctl.Protocol.{ExtensionResponse}
use firefox_ctl.Port.{
  NativeLink, backoff_delay, clear_timer, connect, disconnected, fire, handle_disconnect, is_port,
  max_attempts, post_reply, reconnects, reject_pending, run_timer, schedule_reconnect,
}

-- The disconnect of a port that is not the current one changes nothing, and a reply to such a port
-- is not posted.
pub stale_port :
    (s : NativeLink) (p : ℕ) (reason : Text) (r : ExtensionResponse)
    → is_port s.port p ≡ false
    → (handle_disconnect s p reason ≡ s) × (post_reply s p r ≡ s)
unfolding handle_disconnect post_reply
stale_port s p reason r h = (rw h refl, rw h refl)

-- The link whose port went away, before anything is scheduled.
abbrev drop_port : NativeLink → Text → NativeLink
drop_port s reason =
    reject_pending
      (record s {
        port = none;
        last_disconnect_reason = some reason;
        timers = clear_timer s.stable_timer s.timers;
        stable_timer = none;
      })
      (disconnected reason)

-- A reconnect that fails: the timer fires and `connectNative` throws.
unfoldable pub fail_reconnect : NativeLink → NativeLink
fail_reconnect s = elim s.reconnect_timer [ none ↦ s | some t ↦ fire s t none ]

unfoldable pub fail_times : ℕ → NativeLink → NativeLink
fail_times zero s = s
fail_times (suc n) s = fail_times n (fail_reconnect s)

-- The link waits for reconnect number a, counted from 0, with that attempt's delay.
pub record Waits (s : NativeLink) (a : ℕ) : Type 0 where
  pub port : s.port ≡ none
  pub attempt : s.attempt ≡ suc a
  pub timer :
      (t : ℕ) × (s.reconnect_timer ≡ some t)
      × (lookup t s.timers ≡ some (reconnects (backoff_delay a)))

-- The link has given up: nothing will reconnect it, and the count starts anew.
pub record GaveUp (s : NativeLink) : Type 0 where
  pub port : s.port ≡ none
  pub attempt : s.attempt ≡ 0
  pub timer : s.reconnect_timer ≡ none

schedule_reconnect-Waits :
    (s : NativeLink) (a : ℕ)
    → s.port ≡ none
    → s.reconnect_timer ≡ none
    → s.attempt ≡ a
    → a < max_attempts
    → Waits (schedule_reconnect s) a
unfolding schedule_reconnect
schedule_reconnect-Waits s a p r e lt =
    let open_test : leb max_attempts s.attempt ≡ false = ground arith in
    rw (p, schedule_reconnect)
      (rw (r, schedule_reconnect)
        (rw (open_test) (record {
          port = refl;
          attempt = ap suc e;
          timer = (
            s.next_timer,
            refl,
            lookup-insert s.next_timer s.next_timer _ s.timers
                ∙ rw (eq_self s.next_timer) (ap (λ n. some (reconnects (backoff_delay n))) e),
          );
        })))

schedule_reconnect-GaveUp :
    (s : NativeLink)
    → s.port ≡ none
    → s.reconnect_timer ≡ none
    → max_attempts ≤ s.attempt
    → GaveUp (schedule_reconnect s)
unfolding schedule_reconnect
schedule_reconnect-GaveUp s p r le = record {
  port = ground arith;
  attempt = ground arith;
  timer = ground arith;
}

-- What a failed reconnect comes to.
after_failure : NativeLink → ℕ → NativeLink
after_failure s t = record s { timers = delete t s.timers; reconnect_timer = none; port = none }

fail_reconnect_lem :
    (s : NativeLink) (a : ℕ) (w : Waits s a)
    → fail_reconnect s ≡ schedule_reconnect (after_failure s w.timer.0)
unfolding fail_reconnect fire run_timer connect after_failure
fail_reconnect_lem s a w =
    let t = w.timer.0 in
    let armed : lookup t s.timers ≡ some (reconnects (backoff_delay a)) = w.timer.2 in
    rw (w.timer.1, fail_reconnect) (rw (armed, fire) (rw (w.port, connect) refl))

after_failure-Waits :
    (s : NativeLink) (a : ℕ) (w : Waits s a)
    → suc a < max_attempts
    → Waits (schedule_reconnect (after_failure s w.timer.0)) (suc a)
unfolding after_failure
after_failure-Waits s a w lt =
    schedule_reconnect-Waits (after_failure s w.timer.0) (suc a) refl refl w.attempt lt

after_failure-GaveUp :
    (s : NativeLink) (a : ℕ) (w : Waits s a)
    → suc a ≡ max_attempts
    → GaveUp (schedule_reconnect (after_failure s w.timer.0))
unfolding after_failure
after_failure-GaveUp s a w e =
    let last : max_attempts ≤ s.attempt = rw w.attempt (rw e (omega arith)) in
    schedule_reconnect-GaveUp (after_failure s w.timer.0) refl refl last

fail_reconnect-Waits :
    (s : NativeLink) (a : ℕ) → Waits s a → suc a < max_attempts → Waits (fail_reconnect s) (suc a)
fail_reconnect-Waits s a w lt =
    subst (λ x. Waits x (suc a)) (sym (fail_reconnect_lem s a w)) (after_failure-Waits s a w lt)

fail_reconnect-GaveUp :
    (s : NativeLink) (a : ℕ) → Waits s a → suc a ≡ max_attempts → GaveUp (fail_reconnect s)
fail_reconnect-GaveUp s a w e =
    subst GaveUp (sym (fail_reconnect_lem s a w)) (after_failure-GaveUp s a w e)

fail_times-Waits :
    (k a : ℕ) (s : NativeLink) → Waits s a → a + k < max_attempts → Waits (fail_times k s) (a + k)
unfolding fail_times
fail_times-Waits zero a s w lt = subst (Waits s) (omega arith) w
fail_times-Waits (suc k) a s w lt = subst (Waits (fail_times k (fail_reconnect s))) (omega arith) (
    fail_times-Waits k (suc a) (fail_reconnect s) (fail_reconnect-Waits s a w (omega arith))
      (omega arith))

fail_times-GaveUp :
    (k a : ℕ) (s : NativeLink)
    → Waits s a
    → suc (a + k) ≡ max_attempts
    → GaveUp (fail_times (suc k) s)
unfolding fail_times
fail_times-GaveUp zero a s w e = fail_reconnect-GaveUp s a w (omega arith)
fail_times-GaveUp (suc k) a s w e =
    fail_times-GaveUp k (suc a) (fail_reconnect s) (fail_reconnect-Waits s a w (omega arith))
      (omega arith)

handle_disconnect-Waits :
    (s : NativeLink) (p : ℕ) (reason : Text)
    → s.port ≡ some p
    → s.reconnect_timer ≡ none
    → s.attempt ≡ 0
    → Waits (handle_disconnect s p reason) 0
unfolding handle_disconnect reject_pending
handle_disconnect-Waits s p reason e r z =
    let current : is_port s.port p ≡ true = rw e (eq_self p) in
    rw current (schedule_reconnect-Waits (drop_port s reason) 0 refl r z (omega arith))

-- After the disconnect of the current port, with no attempt counted and no reconnect waiting, the
-- reconnect that follows k failures (fewer than ten) waits for the delay of attempt k; the tenth
-- failure gives up.
pub fail_times_lem :
    (s : NativeLink) (p : ℕ) (reason : Text) (k : ℕ)
    → s.port ≡ some p
    → s.reconnect_timer ≡ none
    → s.attempt ≡ 0
    → k < max_attempts
    → Waits (fail_times k (handle_disconnect s p reason)) k
      × GaveUp (fail_times max_attempts (handle_disconnect s p reason))
fail_times_lem s p reason k e r z lt =
    let w = handle_disconnect-Waits s p reason e r z in
    (
      subst (Waits (fail_times k (handle_disconnect s p reason))) (omega arith)
          (fail_times-Waits k 0 (handle_disconnect s p reason) w (omega arith)),
      fail_times-GaveUp 9 0 (handle_disconnect s p reason) w refl,
    )
