-- ===== src/Port/Backoff.antt =====
-- The delays between reconnects, extension/src/port.ts.
use firefox_ctl.Base.{Bool, leb, suc, true, zero, ℕ, ◌&&◌, ◌*◌}
use firefox_ctl.Port.{backoff_delay, initial_delay_ms, max_delay_ms}

abbrev delay_in_range : ℕ → Bool
delay_in_range a =
    leb (initial_delay_ms * 1024) (backoff_delay a)
    && (leb (backoff_delay a) (max_delay_ms * 1024)
        && (leb (backoff_delay a) (backoff_delay (suc a))
            && leb (backoff_delay (suc a) * 2) (backoff_delay a * 3)))

-- The delays of as many attempts, from the first one given, by evaluation.
abbrev delays_ok : (first count : ℕ) → Bool
delays_ok first zero = true
delays_ok first (suc count) = delay_in_range first && delays_ok (suc first) count
