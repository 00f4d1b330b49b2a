-- ===== src/HarRecorder/Kept/Tests.antt =====
-- The kept HARs of extension/src/har-recorder.ts, and the theorem at a concrete run.
use firefox_ctl.Base.{List, [], delete, insert, lookup, nat_eq, refl, text_eq, ◌∷◌, ◌≡◌}
use firefox_ctl.HarRecorder.Kept.{
  Event, expire, expires, fire, forget, keep, keeps, none_kept, play, step,
}
use firefox_ctl.HarRecorder.Kept.Expiry.{Inv, play_kept-Inv}

kept_run : Unit {0}
unfolding none_kept forget keep expire fire step play lookup insert delete
kept_run = tt

-- A HAR kept again while it has a timer: the timer is cleared.
abbrev again : List Event
again = keeps 4 ∷ expires 0 ∷ keeps 4 ∷ []

clears_timer : (play none_kept again).timers ≡ []
unfolding kept_run
clears_timer = refl

-- The first HAR does not expire the second.
late_build : (play none_kept (keeps 4 ∷ keeps 4 ∷ expires 0 ∷ [])).stopped ≡ (4, 1) ∷ []
unfolding kept_run
late_build = refl

play_kept-Inv_example : Inv (play none_kept again)
play_kept-Inv_example = play_kept-Inv again
