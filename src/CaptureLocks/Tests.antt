-- ===== src/CaptureLocks/Tests.antt =====
-- The locks of extension/src/capture-locks.ts at concrete uses.
use firefox_ctl.Base.{List, [], refl, ◌∷◌, ◌≡◌}
use firefox_ctl.CaptureLocks.{get_lock, no_locks}
use firefox_ctl.CaptureLocks.Rendezvous.{Use, deletes, get_lock-use_locks, gets, use_locks}

abbrev uses : List Use
uses = gets 4 ∷ deletes 4 ∷ gets 3 ∷ []

get_lock-use_locks_example :
    get_lock (use_locks (get_lock no_locks 3).0 uses) 3
    ≡ (use_locks (get_lock no_locks 3).0 uses, (get_lock no_locks 3).1)
get_lock-use_locks_example = get_lock-use_locks no_locks 3 uses (refl, (refl, (refl, tt)))
