-- ===== src/Frames/Admission.antt =====
-- How extension/src/frames.ts admits a frame: only one that it had injected.
use firefox_ctl.Base.{
  All-delete, All-insert, All-lookup, Bool-cases, Option, Option-cases, Text, arith, false, inl,
  inr, lookup, nat_beq, nat_eq, none, refl, some, text_beq_iff, text_eq, ℕ, ◌≡◌,
}
use firefox_ctl.Frames.{
  FrameInfo, FrameRegistry, PendingInjection, Watch, accepts, admit_to, forget, frame_disconnected,
  frame_loaded, injection_failed, is_port, is_same, load_in, pending_of,
}
use firefox_ctl.Frames.Fence.{Inv, IsAllowed, WatchInv}

load_in-Inv :
    (r : FrameRegistry) (tab : ℕ) (f : FrameInfo) (w : Watch)
    → nat_beq f.frame_id 0 ≡ false
    → Inv r
    → WatchInv r.generation w
    → Inv (load_in r tab f w)
unfolding load_in
load_in-Inv r tab f w child v p = elim (Bool-cases (accepts w.pattern f.url)) [
  | inr other ↦ rw other (
      All-insert _ tab _ r.watches
        (record {
          pending = All-delete _ f.frame_id w.pending p.pending;
          frames = p.frames;
          generation = p.generation;
        })
        v)
  | inl wanted ↦
      rw wanted (elim (Bool-cases (is_same (lookup f.frame_id w.pending) f.url w.generation)) [
        | inl same ↦ rw same v
        | inr new ↦ rw new (
            All-insert _ tab _ r.watches
              (record {
                pending =
                    All-insert _ f.frame_id _ w.pending
                      (record { id = refl; child = child; accepted = wanted }, refl) p.pending;
                frames = p.frames;
                generation = p.generation;
              })
              v)
      ])
]

pub frame_loaded-Inv :
    (r : FrameRegistry) (tab : ℕ) (f : FrameInfo) → Inv r → Inv (frame_loaded r tab f)
unfolding frame_loaded
frame_loaded-Inv r tab f v = elim (Option-cases (lookup tab r.watches)) [
  | inl e ↦ rw (e, frame_loaded) v
  | inr (w, e) ↦
      rw (e, frame_loaded)
        (elim (Bool-cases (nat_beq f.frame_id 0)) [
          | inl top ↦ rw top v
          | inr child ↦ rw child (load_in-Inv r tab f w child v (All-lookup _ tab w r.watches v e))
        ])
]

pub injection_failed-Inv :
    (r : FrameRegistry) (tab frame : ℕ) (url : Text) (generation : ℕ) (error : Text)
    → Inv r
    → Inv (injection_failed r tab frame url generation error)
unfolding injection_failed
injection_failed-Inv r tab frame url generation error v =
    elim (Option-cases (lookup tab r.watches)) [
      | inl e ↦ rw (e, injection_failed) v
      | inr (w, e) ↦
          let p = All-lookup _ tab w r.watches v e in
          rw (e, injection_failed)
            (elim (Bool-cases (is_same (lookup frame w.pending) url generation)) [
              | inl same ↦ rw same (
                  All-insert _ tab _ r.watches
                    (record {
                      pending = All-delete _ frame w.pending p.pending;
                      frames = p.frames;
                      generation = p.generation;
                    })
                    v)
              | inr other ↦ rw other (
                  All-insert _ tab _ r.watches
                    (record { pending = p.pending; frames = p.frames; generation = p.generation })
                    v)
            ])
    ]

pub frame_disconnected-Inv :
    (r : FrameRegistry) (tab frame port : ℕ) → Inv r → Inv (frame_disconnected r tab frame port)
unfolding frame_disconnected
frame_disconnected-Inv r tab frame port v = elim (Option-cases (lookup tab r.watches)) [
  | inl e ↦ rw (e, frame_disconnected) v
  | inr (w, e) ↦
      rw (e, frame_disconnected)
        (elim (Bool-cases (is_port (lookup frame w.frames) port)) [
          | inr other ↦ rw other v
          | inl same ↦
              let p = All-lookup _ tab w r.watches v e in
              rw same (
                All-insert _ tab _ r.watches
                  (record {
                    pending = p.pending;
                    frames = All-delete _ frame w.frames p.frames;
                    generation = p.generation;
                  })
                  v)
        ])
]

pub pending_of-lookup :
    (w : Watch) (frame : ℕ) (url : Option Text) (p : PendingInjection)
    → pending_of w frame url ≡ some p
    → (lookup frame w.pending ≡ some p) × (url ≡ some p.info.url) × (p.generation ≡ w.generation)
unfolding pending_of
pending_of-lookup w frame none p h = ground (arith, h)
pending_of-lookup w frame (some u) p h = ground (arith, h, text_beq_iff p.info.url u)

pub admit_to-Inv :
    (r : FrameRegistry) (tab frame : ℕ) (w : Watch) (p : PendingInjection) (port : ℕ)
    → Inv r
    → WatchInv r.generation w
    → IsAllowed w.pattern frame p.info
    → Inv (admit_to r tab frame w p port)
unfolding admit_to
admit_to-Inv r tab frame w p port v inv allowed =
    All-insert _ tab _ r.watches
      (record {
        pending = All-delete _ frame w.pending inv.pending;
        frames =
            All-insert _ frame _ w.frames
              (record { id = refl; child = allowed.child; accepted = allowed.accepted }) inv.frames;
        generation = inv.generation;
      })
      v

pub forget-Inv : (r : FrameRegistry) (tab frame : ℕ) → Inv r → Inv (forget r tab frame)
unfolding forget
forget-Inv r tab frame v = elim (Option-cases (lookup tab r.watches)) [
  | inl e ↦ rw (e, forget) v
  | inr (w, e) ↦
      let p = All-lookup _ tab w r.watches v e in
      rw (e, forget)
        (All-insert _ tab _ r.watches
          (record {
            pending = p.pending;
            frames = All-delete _ frame w.frames p.frames;
            generation = p.generation;
          })
          v)
]
