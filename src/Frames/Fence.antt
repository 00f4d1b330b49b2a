-- ===== src/Frames/Fence.antt =====
-- Which frames extension/src/frames.ts lets commands reach.
use firefox_ctl.Base.{
  All, All-delete, All-insert, All-lookup, All-mono, Bool, Bool-cases, Option, Option-cases, Text,
  arith, delete, false, has_key, inl, inr, length, lookup, ltb, nat_beq, nat_eq, suc, text_eq, true,
  ℕ, ◌≡◌, ◌≤◌,
}
use firefox_ctl.Frames.{
  FrameCriterion, FrameInfo, FrameRegistry, ObservedFrame, PendingInjection, Watch, accepts,
  await_frame, matching, tab_removed, time_out, unwatch, watch,
}

-- A document that the watch asked for: of a child frame, with a url that the pattern accepts.
pub record IsAllowed (pattern : Option (Text → Bool)) (frame : ℕ) (info : FrameInfo) : Type 0 where
  pub id : info.frame_id ≡ frame
  pub child : nat_beq frame 0 ≡ false
  pub accepted : accepts pattern info.url ≡ true

-- The pending injections and the observed frames of a watch are allowed, and the injections are of
-- the watch's own generation.
pub record WatchInv (newest : ℕ) (w : Watch) : Type 0 where
  pub pending :
      All
        (λ (e : ℕ × PendingInjection).
          IsAllowed w.pattern e.0 e.1.info × (e.1.generation ≡ w.generation))
        w.pending
  pub frames : All (λ (e : ℕ × ObservedFrame). IsAllowed w.pattern e.0 e.1.info) w.frames
  pub generation : w.generation ≤ newest

abbrev pub Inv : FrameRegistry → Type 0
Inv r = All (λ (e : ℕ × Watch). WatchInv r.generation e.1) r.watches

WatchInv-suc : (n : ℕ) (w : Watch) → WatchInv n w → WatchInv (suc n) w
WatchInv-suc n w v = record {
  pending = v.pending;
  frames = v.frames;
  generation = omega (arith, v.generation);
}

pub watch-Inv :
    (r : FrameRegistry) (tab : ℕ) (pattern : Option (Text → Bool))
    → Inv r
    → Inv (watch r tab pattern).0
unfolding watch
watch-Inv r tab pattern v = elim (Bool-cases (has_key tab r.watches)) [
  | inl there ↦ rw there v
  | inr new ↦ rw new (
      All-insert _ tab _ r.watches (record { pending = tt; frames = tt; generation = omega arith })
        (All-mono _ r.watches (λ e p. WatchInv-suc r.generation e.1 p) v))
]

pub unwatch-Inv : (r : FrameRegistry) (tab : ℕ) → Inv r → Inv (unwatch r tab).0
unfolding unwatch
unwatch-Inv r tab v = elim (Option-cases (lookup tab r.watches)) [
  | inl e ↦ rw (e, unwatch) v
  | inr (w, e) ↦
      rw (e, unwatch)
        (All-mono _ (delete tab r.watches) (λ e p. WatchInv-suc r.generation e.1 p)
          (All-delete _ tab r.watches v))
]

pub tab_removed-Inv : (r : FrameRegistry) (tab : ℕ) → Inv r → Inv (tab_removed r tab)
unfolding tab_removed
tab_removed-Inv r tab v = elim (Option-cases (lookup tab r.watches)) [
  | inl e ↦ rw (e, tab_removed) v
  | inr (w, e) ↦ rw (e, tab_removed) (All-delete _ tab r.watches v)
]

pub await_frame-Inv :
    (r : FrameRegistry) (tab id : ℕ) (c : FrameCriterion) (remaining : ℕ)
    → Inv r
    → Inv (await_frame r tab id c remaining)
unfolding await_frame
await_frame-Inv r tab id c remaining v = elim (Option-cases (lookup tab r.watches)) [
  | inl e ↦ rw (e, await_frame) v
  | inr (w, e) ↦
      rw (e, await_frame)
        (elim (Bool-cases (ltb 0 (length (matching w c)))) [
          | inl now ↦ rw now v
          | inr later ↦ rw later (elim (Bool-cases (nat_beq remaining 0)) [
            | inl late ↦ rw late v
            | inr time ↦
                let p = All-lookup _ tab w r.watches v e in
                rw time (
                  All-insert _ tab _ r.watches
                    (record { pending = p.pending; frames = p.frames; generation = p.generation })
                    v)
          ])
        ])
]

pub time_out-Inv : (r : FrameRegistry) (tab id : ℕ) → Inv r → Inv (time_out r tab id)
unfolding time_out
time_out-Inv r tab id v = elim (Option-cases (lookup tab r.watches)) [
  | inl e ↦ rw (e, time_out) v
  | inr (w, e) ↦
      rw (e, time_out)
        (elim (Bool-cases (has_key id w.waits)) [
          | inr gone ↦ rw gone v
          | inl there ↦
              let p = All-lookup _ tab w r.watches v e in
              rw there (
                All-insert _ tab _ r.watches
                  (record { pending = p.pending; frames = p.frames; generation = p.generation }) v)
        ])
]
