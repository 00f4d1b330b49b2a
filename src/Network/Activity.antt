-- ===== src/Network/Activity.antt =====
-- `tabStatus` of extension/src/network.ts: the pending activity of one tab.
use firefox_ctl.Base.{
  All, Bool, Bool-cases, List, Text, [], arith, false, filter, inl, inr, insert, length, lookup,
  ltb, max, mem_beq, nat_beq_iff, nat_eq, or_else, refl, subst, suc, sym, text_beq, text_beq_iff,
  text_eq, true, txt, ℕ, ◌&&◌, ◌+◌, ◌<◌, ◌==◌, ◌↔◌, ◌∙◌, ◌∷◌, ◌≡◌, ◌≤◌,
}
use firefox_ctl.Base.Selected.{Selected, filter-Selected, filter-filter}
use firefox_ctl.Base.Int.{int_beq_iff, int_eq, ℤ}
use firefox_ctl.Network.{
  NetworkEntry, RequestStatus, completed, critical_types, pending, recent_window_ms, visual_types,
}

pub record TabNetworkStatus : Type 0 where
  pub pending_count : ℕ
  pub pending_by_type : List (Text × ℕ)
  pub critical_pending : ℕ
  pub visual_pending : ℕ
  pub last_activity : ℕ
  pub is_idle : Bool
  pub is_critical_idle : Bool

-- `entry.tabId === tabId && entry.timestamp > now - RECENT_WINDOW_MS`
unfoldable pub is_recent : ℕ → ℤ → NetworkEntry → Bool
is_recent now tab e = e.tab_id == tab && ltb now (e.timestamp + recent_window_ms)

abbrev pub pending_status : RequestStatus → Bool
pending_status pending = true
pending_status other = false

-- `entry.status === "pending"`
abbrev pub is_pending : NetworkEntry → Bool
is_pending e = pending_status e.status

-- The loop that fills `pendingByType`.
unfoldable pub count_types : List (Text × ℕ) → List NetworkEntry → List (Text × ℕ)
count_types m [] = m
count_types m (e ∷ es) = count_types (insert e.type (or_else (lookup e.type m) 0 + 1) m) es

-- The `reduce` over the timestamps.
unfoldable pub latest : ℕ → List NetworkEntry → ℕ
latest t [] = t
latest t (e ∷ es) = latest (max t e.timestamp) es

unfoldable pub tab_status : List NetworkEntry → ℕ → ℤ → TabNetworkStatus
tab_status entries now tab =
    let recent = filter (is_recent now tab) entries in
    let waiting = filter is_pending recent in
    let critical = length (filter (λ (e : NetworkEntry). mem_beq e.type critical_types) waiting) in
    record {
      pending_count = length waiting;
      pending_by_type = count_types [] waiting;
      critical_pending = critical;
      visual_pending = length (filter (λ (e : NetworkEntry). mem_beq e.type visual_types) waiting);
      last_activity = latest 0 recent;
      is_idle = length waiting == 0;
      is_critical_idle = critical == 0;
    }

abbrev pub total : List (Text × ℕ) → ℕ
total [] = 0
total ((k, n) ∷ m) = n + total m

total-insert :
    (k : Text) (m : List (Text × ℕ))
    → total (insert k (or_else (lookup k m) 0 + 1) m) ≡ suc (total m)
unfolding insert lookup
total-insert k [] = omega arith
total-insert k ((j, n) ∷ m) = ground (arith, total-insert k m)

total-count_types :
    (m : List (Text × ℕ)) (es : List NetworkEntry) → total (count_types m es) ≡ total m + length es
unfolding count_types
total-count_types m [] = omega arith
total-count_types m (e ∷ es) = omega (
  arith,
  total-count_types (insert e.type (or_else (lookup e.type m) 0 + 1) m) es,
  total-insert e.type m,
)

critical_as :
    (s t : Text)
    → text_beq s t ≡ true
    → mem_beq s critical_types ≡ false
    → mem_beq t critical_types ≡ false
critical_as s t e h = subst (λ x. mem_beq x critical_types ≡ false) ((text_beq_iff s t).0 e) h

-- No type is both critical and visual.
visual_not_critical : (t : Text) → mem_beq t visual_types ≡ true → mem_beq t critical_types ≡ false
unfolding visual_types critical_types text_beq
visual_not_critical t h = elim (Bool-cases (text_beq (txt "image") t)) [
  | inl e ↦ critical_as (txt "image") t e refl
  | inr no_image ↦ elim (Bool-cases (text_beq (txt "font") t)) [
    | inl e ↦ critical_as (txt "font") t e refl
    | inr no_font ↦ elim (Bool-cases (text_beq (txt "media") t)) [
      | inl e ↦ critical_as (txt "media") t e refl
      | inr no_media ↦ cc (sym h ∙ none_visual t no_image no_font no_media)
    ]
  ]
]
  where
    none_visual :
        (t : Text)
        → text_beq (txt "image") t ≡ false
        → text_beq (txt "font") t ≡ false
        → text_beq (txt "media") t ≡ false
        → mem_beq t visual_types ≡ false
    none_visual t a b c = rw (a, b, c) refl

length-filter-exclusive :
    (es : List NetworkEntry)
    → length (filter (λ (e : NetworkEntry). mem_beq e.type critical_types) es)
        + length (filter (λ (e : NetworkEntry). mem_beq e.type visual_types) es)
      ≤ length es
length-filter-exclusive [] = omega arith
length-filter-exclusive (e ∷ es) =
    ground (arith, length-filter-exclusive es, visual_not_critical e.type)

latest-ge : (t : ℕ) (es : List NetworkEntry) → t ≤ latest t es
unfolding latest
latest-ge t [] = omega arith
latest-ge t (e ∷ es) = omega (arith, latest-ge (max t e.timestamp) es)

latest-All :
    (t : ℕ) (es : List NetworkEntry) → All (λ (e : NetworkEntry). e.timestamp ≤ latest t es) es
unfolding latest
latest-All t [] = tt
latest-All t (e ∷ es) =
    (omega (arith, latest-ge (max t e.timestamp) es), latest-All (max t e.timestamp) es)

abbrev pub IsRecent : ℕ → ℤ → NetworkEntry → Type 0
IsRecent now tab e = (e.tab_id ≡ tab) × (now < e.timestamp + recent_window_ms)

-- A request of the tab, recent and without an answer.
abbrev pub IsWaiting : ℕ → ℤ → NetworkEntry → Type 0
IsWaiting now tab e = IsRecent now tab e × (e.status ≡ pending)

-- It is of a type that a page cannot do without.
abbrev pub IsCritical : NetworkEntry → Type 0
IsCritical e = mem_beq e.type critical_types ≡ true

is_recent-IsRecent :
    (now : ℕ) (tab : ℤ) (e : NetworkEntry) → (is_recent now tab e ≡ true) ↔ IsRecent now tab e
unfolding is_recent
is_recent-IsRecent now tab e =
    let same = int_beq_iff e.tab_id tab in
    (
      λ h. (same.0 (ground (arith, h)), ground (arith, h)),
      λ h. rw (same.1 h.0) (ground (arith, h.1)),
    )

is_pending-pending : (e : NetworkEntry) → (is_pending e ≡ true) ↔ (e.status ≡ pending)
is_pending-pending e = pending_status_iff e.status
  where
    pending_status_iff : (t : RequestStatus) → (pending_status t ≡ true) ↔ (t ≡ pending)
    pending_status_iff pending = (λ _. refl, λ _. refl)
    pending_status_iff completed = (λ h. cc, λ h. cc)
    pending_status_iff RequestStatus.error = (λ h. cc, λ h. cc)

waits-IsWaiting :
    (now : ℕ) (tab : ℤ) (e : NetworkEntry)
    → ((is_recent now tab e && is_pending e) ≡ true) ↔ IsWaiting now tab e
waits-IsWaiting now tab e =
    let recent = is_recent-IsRecent now tab e in
    let waits = is_pending-pending e in
    (
      λ h. (recent.0 (ground (arith, h)), waits.0 (ground (arith, h))),
      λ h. rw (recent.1 h.0) (waits.1 h.1),
    )

filter_twice-Selected :
    (entries : List NetworkEntry) (now : ℕ) (tab : ℤ)
    → Selected (IsWaiting now tab) entries (filter is_pending (filter (is_recent now tab) entries))
filter_twice-Selected entries now tab =
    subst (Selected (IsWaiting now tab) entries)
      (sym (filter-filter is_pending (is_recent now tab) entries))
      (filter-Selected (λ e. is_recent now tab e && is_pending e) (IsWaiting now tab)
        (waits-IsWaiting now tab) entries)

-- The pending count is that of the log's requests of the tab that are recent and without an answer,
-- and the critical count is that of those among them of a critical type. The counts by type add up
-- to the pending count; the critical and the visual ones are disjoint among them; the tab is idle
-- exactly when nothing is pending, and critically idle exactly when nothing critical is; no recent
-- request of the tab is later than the last activity.
pub tab_status_lem :
    (entries : List NetworkEntry) (now : ℕ) (tab : ℤ)
    → (waiting : List NetworkEntry) × Selected (IsWaiting now tab) entries waiting
      × ((tab_status entries now tab).pending_count ≡ length waiting)
      × ((critical : List NetworkEntry) × Selected IsCritical waiting critical
          × ((tab_status entries now tab).critical_pending ≡ length critical))
      × (total (tab_status entries now tab).pending_by_type
          ≡ (tab_status entries now tab).pending_count)
      × ((tab_status entries now tab).critical_pending + (tab_status entries now tab).visual_pending
          ≤ (tab_status entries now tab).pending_count)
      × (((tab_status entries now tab).is_idle ≡ true)
          ↔ ((tab_status entries now tab).pending_count ≡ 0))
      × (((tab_status entries now tab).is_critical_idle ≡ true)
          ↔ ((tab_status entries now tab).critical_pending ≡ 0))
      × All
          (λ (e : NetworkEntry). e.timestamp ≤ (tab_status entries now tab).last_activity)
          (filter (is_recent now tab) entries)
unfolding tab_status
tab_status_lem entries now tab =
    let recent = filter (is_recent now tab) entries in
    let waiting = filter is_pending recent in
    (
      waiting,
      filter_twice-Selected entries now tab,
      refl,
      (
        filter (λ (e : NetworkEntry). mem_beq e.type critical_types) waiting,
        filter-Selected (λ (e : NetworkEntry). mem_beq e.type critical_types) IsCritical
            (λ e. (λ h. h, λ h. h)) waiting,
        refl,
      ),
      total-count_types [] waiting ∙ omega arith,
      length-filter-exclusive waiting,
      nat_beq_iff _ 0,
      nat_beq_iff _ 0,
      latest-All 0 recent,
    )
