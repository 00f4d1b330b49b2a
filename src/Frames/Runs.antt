-- ===== src/Frames/Runs.antt =====
-- What holds of the registry of extension/src/frames.ts after any calls and events.
use firefox_ctl.Base.{
  All-lookup, Bool, Bool-cases, List, Option, Option-cases, Text, [], ap, delete, eq_self, false,
  inl, inr, insert, lookup, lookup-delete, lookup-insert, nat_beq, nat_eq, none, refl, some, subst,
  text_eq, ℕ, ◌++◌, ◌==◌, ◌∙◌, ◌∷◌, ◌≡◌,
}
use firefox_ctl.Frames.{
  FrameCriterion, FrameInfo, FrameRegistry, ObservedFrame, Port, Watch, accepts, admit, admit_from,
  await_frame, connected, forget, frame_disconnected, frame_loaded, frame_port_name, fresh_registry,
  injection_failed, load_in, pending_of, tab_removed, time_out, unwatch, watch,
}
use firefox_ctl.Frames.Fence.{
  Inv, IsAllowed, await_frame-Inv, tab_removed-Inv, time_out-Inv, unwatch-Inv, watch-Inv,
}
use firefox_ctl.Frames.Admission.{
  admit_to-Inv, forget-Inv, frame_disconnected-Inv, frame_loaded-Inv, injection_failed-Inv,
  pending_of-lookup,
}

abbrev IsFine : Option FrameRegistry → Type 0
IsFine none = Unit
IsFine (some r) = Inv r

admit_from-IsFine :
    (r : FrameRegistry) (tab frame : ℕ) (url : Option Text) (port : ℕ)
    → Inv r
    → IsFine (admit_from r tab frame url port)
unfolding admit_from
admit_from-IsFine r tab frame url port v = elim (Bool-cases (nat_beq frame 0)) [
  | inl top ↦ rw top tt
  | inr child ↦ rw child (elim (Option-cases (lookup tab r.watches)) [
    | inl e ↦ rw (e, admit_from) tt
    | inr (w, e) ↦
        rw (e, admit_from)
          (elim (Option-cases (pending_of w frame url)) [
            | inl n ↦ rw n tt
            | inr (p, n) ↦
                let inv = All-lookup _ tab w r.watches v e in
                let asked =
                  All-lookup _ frame p w.pending inv.pending
                    (pending_of-lookup w frame url p n).0 in
                rw n (admit_to-Inv r tab frame w p port v inv asked.0)
          ])
  ])
]

admit-IsFine : (r : FrameRegistry) (port : Port) → Inv r → IsFine (admit r port)
unfolding admit
admit-IsFine r port v = elim (Bool-cases (port.name == frame_port_name)) [
  | inr other ↦ rw other tt
  | inl named ↦ rw named (elim (Option-cases port.tab_id) [
    | inl t ↦ rw (t, admit) tt
    | inr (tab, t) ↦
        rw (t, admit)
          (elim (Option-cases port.frame_id) [
            | inl f ↦ rw (f, admit) tt
            | inr (frame, f) ↦ rw (f, admit) (admit_from-IsFine r tab frame port.url port.port v)
          ])
  ])
]

connected-Inv : (r : FrameRegistry) (port : Port) → Inv r → Inv (connected r port)
unfolding connected
connected-Inv r port v = elim (Option-cases (admit r port)) [
  | inl e ↦ rw (e, connected) v
  | inr (r', e) ↦ rw (e, connected) (subst IsFine e (admit-IsFine r port v))
]

pub data Event : Type 0 where
  watches : ℕ → Option (Text → Bool) → Event
  unwatches : ℕ → Event
  awaits : ℕ → ℕ → FrameCriterion → ℕ → Event
  times_out : ℕ → ℕ → Event
  loads : ℕ → FrameInfo → Event
  rejects : ℕ → ℕ → Text → ℕ → Text → Event
  connects : Port → Event
  disconnects : ℕ → ℕ → ℕ → Event
  forgets : ℕ → ℕ → Event
  removes : ℕ → Event

unfoldable pub apply : FrameRegistry → Event → FrameRegistry
apply r (watches tab pattern) = (watch r tab pattern).0
apply r (unwatches tab) = (unwatch r tab).0
apply r (awaits tab id c remaining) = await_frame r tab id c remaining
apply r (times_out tab id) = time_out r tab id
apply r (loads tab f) = frame_loaded r tab f
apply r (rejects tab frame url generation error) = injection_failed r tab frame url generation error
apply r (connects port) = connected r port
apply r (disconnects tab frame port) = frame_disconnected r tab frame port
apply r (forgets tab frame) = forget r tab frame
apply r (removes tab) = tab_removed r tab

unfoldable pub apply_all : FrameRegistry → List Event → FrameRegistry
apply_all r [] = r
apply_all r (e ∷ es) = apply_all (apply r e) es

apply-Inv : (r : FrameRegistry) (e : Event) → Inv r → Inv (apply r e)
unfolding apply
apply-Inv r (watches tab pattern) v = watch-Inv r tab pattern v
apply-Inv r (unwatches tab) v = unwatch-Inv r tab v
apply-Inv r (awaits tab id c remaining) v = await_frame-Inv r tab id c remaining v
apply-Inv r (times_out tab id) v = time_out-Inv r tab id v
apply-Inv r (loads tab f) v = frame_loaded-Inv r tab f v
apply-Inv r (rejects tab frame url generation error) v =
    injection_failed-Inv r tab frame url generation error v
apply-Inv r (connects port) v = connected-Inv r port v
apply-Inv r (disconnects tab frame port) v = frame_disconnected-Inv r tab frame port v
apply-Inv r (forgets tab frame) v = forget-Inv r tab frame v
apply-Inv r (removes tab) v = tab_removed-Inv r tab v

apply_all-Inv : (r : FrameRegistry) (es : List Event) → Inv r → Inv (apply_all r es)
unfolding apply_all
apply_all-Inv r [] v = v
apply_all-Inv r (e ∷ es) v = apply_all-Inv (apply r e) es (apply-Inv r e v)

fresh_registry-Inv : Inv fresh_registry
unfolding fresh_registry
fresh_registry-Inv = tt

-- Whatever is called and whatever happens, a frame that a watch has on record is a child frame under
-- its own id, whose url the pattern of that watch accepts.
pub observed-IsAllowed :
    (es : List Event) (tab frame : ℕ) (w : Watch) (f : ObservedFrame)
    → lookup tab (apply_all fresh_registry es).watches ≡ some w
    → lookup frame w.frames ≡ some f
    → IsAllowed w.pattern frame f.info
observed-IsAllowed es tab frame w f watched seen =
    let inv = apply_all-Inv fresh_registry es fresh_registry-Inv in
    let mine = All-lookup _ tab w (apply_all fresh_registry es).watches inv watched in
    All-lookup _ frame f w.frames mine.frames seen

refused :
    (r : FrameRegistry) (tab frame : ℕ) (w : Watch) (url : Option Text) (port : ℕ)
    → lookup tab r.watches ≡ some w
    → lookup frame w.pending ≡ none
    → admit_from r tab frame url port ≡ none
unfolding admit_from pending_of
refused r tab frame w url port e none_asked = elim (Bool-cases (nat_beq frame 0)) [
  | inl top ↦ rw top refl
  | inr child ↦ rw child (rw (e, admit_from) (rw (none_asked, pending_of) refl))
]

-- The watch of a frame whose new document the pattern does not accept.
abbrev away : Watch → ℕ → Watch
away w frame = record w { pending = delete frame w.pending }

frame_loaded-away :
    (r : FrameRegistry) (tab : ℕ) (f : FrameInfo) (w : Watch)
    → lookup tab r.watches ≡ some w
    → nat_beq f.frame_id 0 ≡ false
    → accepts w.pattern f.url ≡ false
    → frame_loaded r tab f ≡ record r { watches = insert tab (away w f.frame_id) r.watches }
unfolding frame_loaded load_in
frame_loaded-away r tab f w e child other = rw (e, frame_loaded) (rw child (rw other refl))

lookup-put :
    (r : FrameRegistry) (tab : ℕ) (w : Watch) → lookup tab (insert tab w r.watches) ≡ some w
lookup-put r tab w = lookup-insert tab tab w r.watches ∙ rw (eq_self tab) refl

lookup-away : (w : Watch) (frame : ℕ) → lookup frame (away w frame).pending ≡ none
lookup-away w frame = lookup-delete frame frame w.pending ∙ rw (eq_self frame) refl

admit_refused :
    (r : FrameRegistry) (tab frame : ℕ) (w : Watch) (port : Port)
    → lookup tab r.watches ≡ some w
    → lookup frame w.pending ≡ none
    → port.tab_id ≡ some tab
    → port.frame_id ≡ some frame
    → admit r port ≡ none
unfolding admit
admit_refused r tab frame w port e none_asked t f =
    let turned_down = refused r tab frame w port.url port.port e none_asked in
    elim (Bool-cases (port.name == frame_port_name)) [
      | inl named ↦ rw named (rw (t, admit) (rw (f, admit) turned_down))
      | inr other ↦ rw other refl
    ]

connected_refused :
    (r : FrameRegistry) (port : Port)
    → admit r port ≡ none
    → connected r port ≡ record r { silenced = r.silenced ++ port.port ∷ [] }
unfolding connected
connected_refused r port turned_down = rw (turned_down, connected) refl

-- Once a child frame of a watched tab has loaded a document whose url the pattern does not accept,
-- whatever port connects from it next is disconnected and not admitted, also that of a script which
-- was injected before.
pub connected-frame_loaded :
    (r : FrameRegistry) (tab : ℕ) (f : FrameInfo) (w : Watch) (port : Port)
    → lookup tab r.watches ≡ some w
    → nat_beq f.frame_id 0 ≡ false
    → accepts w.pattern f.url ≡ false
    → port.tab_id ≡ some tab
    → port.frame_id ≡ some f.frame_id
    → connected (frame_loaded r tab f) port ≡ record (frame_loaded r tab f) {
      silenced = (frame_loaded r tab f).silenced ++ port.port ∷ [];
    }
connected-frame_loaded r tab f w port e child other t i =
    connected_refused (frame_loaded r tab f) port (
      admit_refused (frame_loaded r tab f) tab f.frame_id (away w f.frame_id) port
        (ap (λ s. lookup tab s.watches) (frame_loaded-away r tab f w e child other)
          ∙ lookup-put r tab (away w f.frame_id))
        (lookup-away w f.frame_id) t i)
