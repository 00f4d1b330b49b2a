-- ===== src/CaptureLocks.antt =====
-- extension/src/capture-locks.ts: one capture lock per tab.
--
-- The locks are objects that their holders keep: they stand in a store, in the order they were
-- made, and the map points into it.
pub mod Rendezvous
mod Tests
use firefox_ctl.Base.{
  Bool, List, [], delete, false, insert, length, lookup, nat_eq, none, some, text_eq, ℕ, ◌++◌, ◌∷◌,
}
use firefox_ctl.Lock.{StateLock, initial}

pub record TabLock : Type 0 where
  pub lock : StateLock
  pub stale_annotations : Bool

pub record CaptureLocks : Type 0 where
  pub objects : List TabLock
  pub entries : List (ℕ × ℕ)

unfoldable pub no_locks : CaptureLocks
no_locks = record { objects = []; entries = [] }

unfoldable pub get_lock : CaptureLocks → ℕ → CaptureLocks × ℕ
get_lock c tab = elim (lookup tab c.entries) [
  | some o ↦ (c, o)
  | none ↦ (
    record {
      objects = c.objects ++ record { lock = initial; stale_annotations = false } ∷ [];
      entries = insert tab (length c.objects) c.entries;
    },
    length c.objects,
  )
]

-- `delete`, and what the listener of `attach` does when a tab closes.
unfoldable pub delete_lock : CaptureLocks → ℕ → CaptureLocks
delete_lock c tab = record c { entries = delete tab c.entries }
