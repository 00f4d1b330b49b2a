-- ===== src/CaptureLocks/Rendezvous.antt =====
-- The captures of one tab meet at one lock, extension/src/capture-locks.ts.
use firefox_ctl.Base.{
  All, Bool, Bool-cases, List, Option-cases, [], ap, arith, eq_self, false, inl, inr, length,
  lookup, lookup-delete, lookup-insert, nat_eq, none, not, refl, some, sym, text_eq, true, ℕ, ◌==◌,
  ◌∙◌, ◌∷◌, ◌≡◌, ◌≢◌,
}
use firefox_ctl.CaptureLocks.{CaptureLocks, delete_lock, get_lock}

pub data Use : Type 0 where
  gets : ℕ → Use
  deletes : ℕ → Use

unfoldable pub use_locks : CaptureLocks → List Use → CaptureLocks
use_locks c [] = c
use_locks c (gets tab ∷ us) = use_locks (get_lock c tab).0 us
use_locks c (deletes tab ∷ us) = use_locks (delete_lock c tab) us

-- Whether a use leaves the tab's entry: it is no deletion of that tab.
abbrev pub spares : ℕ → Use → Bool
spares tab (gets other) = true
spares tab (deletes other) = not (other == tab)

get_lock-lookup :
    (c : CaptureLocks) (tab other o : ℕ)
    → lookup tab c.entries ≡ some o
    → lookup tab (get_lock c other).0.entries ≡ some o
unfolding get_lock
get_lock-lookup c tab other o e = elim (Option-cases (lookup other c.entries)) [
  | inr (p, f) ↦ rw (f, get_lock) e
  | inl f ↦
      rw (f, get_lock)
        (lookup-insert other tab (length c.objects) c.entries ∙ elim (Bool-cases (other == tab)) [
          | inr differs ↦ rw differs e
          | inl same ↦
              absurd
                (missing o (sym f ∙ ap (λ t. lookup t c.entries) (other_tab other tab same) ∙ e))
        ])
]
  where
    missing : (o : ℕ) → none ≢ some o
    missing o e = cc

    other_tab : (other tab : ℕ) → (other == tab) ≡ true → other ≡ tab
    other_tab other tab same = ground (arith, same)

delete_lock-lookup :
    (c : CaptureLocks) (tab other o : ℕ)
    → (other == tab) ≡ false
    → lookup tab c.entries ≡ some o
    → lookup tab (delete_lock c other).entries ≡ some o
unfolding delete_lock
delete_lock-lookup c tab other o differs e = lookup-delete other tab c.entries ∙ rw differs e

use_locks-lookup :
    (us : List Use) (c : CaptureLocks) (tab o : ℕ)
    → lookup tab c.entries ≡ some o
    → All (λ u. spares tab u ≡ true) us
    → lookup tab (use_locks c us).entries ≡ some o
unfolding use_locks
use_locks-lookup [] c tab o e h = e
use_locks-lookup (gets other ∷ us) c tab o e h =
    use_locks-lookup us (get_lock c other).0 tab o (get_lock-lookup c tab other o e) h.1
use_locks-lookup (deletes other ∷ us) c tab o e h =
    use_locks-lookup us (delete_lock c other) tab o
      (delete_lock-lookup c tab other o (ground (arith, h.0)) e) h.1

get_lock-entry :
    (c : CaptureLocks) (tab : ℕ) → lookup tab (get_lock c tab).0.entries ≡ some (get_lock c tab).1
unfolding get_lock
get_lock-entry c tab = elim (Option-cases (lookup tab c.entries)) [
  | inr (o, e) ↦ rw (e, get_lock) e
  | inl e ↦
      rw (e, get_lock) (lookup-insert tab tab (length c.objects) c.entries ∙ rw (eq_self tab) refl)
]

get_lock_again :
    (c : CaptureLocks) (tab o : ℕ) → lookup tab c.entries ≡ some o → get_lock c tab ≡ (c, o)
unfolding get_lock
get_lock_again c tab o e = rw (e, get_lock) refl

-- Two captures of a tab get the same lock whatever happens in between, unless the tab is closed or
-- its lock is deleted; the second makes no new one.
pub get_lock-use_locks :
    (c : CaptureLocks) (tab : ℕ) (us : List Use)
    → All (λ u. spares tab u ≡ true) us
    → get_lock (use_locks (get_lock c tab).0 us) tab
      ≡ (use_locks (get_lock c tab).0 us, (get_lock c tab).1)
get_lock-use_locks c tab us h =
    get_lock_again (use_locks (get_lock c tab).0 us) tab (get_lock c tab).1
      (use_locks-lookup us (get_lock c tab).0 tab (get_lock c tab).1 (get_lock-entry c tab) h)
