-- ===== src/Frames.antt =====
-- extension/src/frames.ts: the child frames that a watched tab lets commands reach.
--
-- Ports and waits are numbers. A watch's pattern is the test of the regular expression that glob.ts
-- makes of the text. The state holds what the registry did: the ports it silenced (told to stop, or
-- disconnected), the frames it had a script injected into, and the waits it settled.
pub mod Fence
pub mod Admission
pub mod Runs
mod Tests
use firefox_ctl.Base.{
  Bool, List, Option, Text, [], delete, false, filter, has_key, if◌then◌else◌, insert, leb, length,
  lookup, ltb, map, nat_beq, nat_eq, none, not, some, suc, text_eq, true, txt, ℕ, ◌&&◌, ◌++◌, ◌==◌,
  ◌∷◌,
}

pub record FrameInfo : Type 0 where
  pub frame_id : ℕ
  pub url : Text
  pub parent_frame_id : ℕ

pub record PendingInjection : Type 0 where
  pub info : FrameInfo
  pub generation : ℕ

pub record ObservedFrame : Type 0 where
  pub info : FrameInfo
  pub port : ℕ

pub record FrameCriterion : Type 0 where
  pub frame_id : Option ℕ
  pub match : Option (Text → Bool)

pub data FrameWaitOutcome : Type 0 where
  found : FrameWaitOutcome
  timeout : FrameWaitOutcome
  unwatched : FrameWaitOutcome
  closed : FrameWaitOutcome

pub record FrameWaitResult : Type 0 where
  pub outcome : FrameWaitOutcome
  pub frames : List FrameInfo

pub record Watch : Type 0 where
  pub generation : ℕ
  pub pattern : Option (Text → Bool)
  pub pending : List (ℕ × PendingInjection)
  pub frames : List (ℕ × ObservedFrame)
  pub waits : List (ℕ × FrameCriterion)
  pub errors : List (ℕ × Text)

pub record FrameRegistry : Type 0 where
  pub watches : List (ℕ × Watch)
  pub generation : ℕ
  pub settled : List (ℕ × FrameWaitResult)
  pub silenced : List ℕ
  pub injected : List (ℕ × ℕ)

unfoldable pub fresh_registry : FrameRegistry
fresh_registry = record { watches = []; generation = 0; settled = []; silenced = []; injected = [] }

-- `watch`, with false where it throws.
unfoldable pub watch : FrameRegistry → ℕ → Option (Text → Bool) → FrameRegistry × Bool
watch r tab pattern = if has_key tab r.watches then (r, false) else (
  record r {
    generation = suc r.generation;
    watches =
        insert tab
          (record {
            generation = suc r.generation;
            pattern = pattern;
            pending = [];
            frames = [];
            waits = [];
            errors = [];
          })
          r.watches;
  },
  true,
)

abbrev end_waits : List (ℕ × FrameCriterion) → FrameWaitOutcome → List (ℕ × FrameWaitResult)
end_waits waits outcome =
    map (λ (w : ℕ × FrameCriterion). (w.0, record { outcome = outcome; frames = [] })) waits

-- `unwatch`, with the number of frames released.
unfoldable pub unwatch : FrameRegistry → ℕ → FrameRegistry × ℕ
unwatch r tab = elim (lookup tab r.watches) [
  | none ↦ (r, 0)
  | some w ↦ (
    record r {
      watches = delete tab r.watches;
      generation = suc r.generation;
      silenced = r.silenced ++ map (λ (f : ℕ × ObservedFrame). f.1.port) w.frames;
      settled = r.settled ++ end_waits w.waits unwatched;
    },
    length w.frames,
  )
]

abbrev frames_of : Option Watch → List (ℕ × ObservedFrame)
frames_of none = []
frames_of (some w) = w.frames

-- Whether a command may be sent to this child frame.
unfoldable pub is_observed : FrameRegistry → ℕ → ℕ → Bool
is_observed r tab frame = not (nat_beq frame 0) && has_key frame (frames_of (lookup tab r.watches))

abbrev insert_sorted : FrameInfo → List FrameInfo → List FrameInfo
insert_sorted f [] = f ∷ []
insert_sorted f (g ∷ gs) =
    let rest = insert_sorted f gs in if leb f.frame_id g.frame_id then f ∷ g ∷ gs else g ∷ rest

-- `sorted`
unfoldable pub sorted : List (ℕ × ObservedFrame) → List FrameInfo
sorted [] = []
sorted ((id, f) ∷ fs) = insert_sorted f.info (sorted fs)

unfoldable pub list : FrameRegistry → ℕ → List FrameInfo
unfolding sorted
list r tab = sorted (frames_of (lookup tab r.watches))

abbrev pub accepts : Option (Text → Bool) → Text → Bool
accepts none url = true
accepts (some test) url = test url

abbrev is_wanted : FrameCriterion → FrameInfo → Bool
is_wanted c f =
    elim c.frame_id [ none ↦ true | some id ↦ nat_beq f.frame_id id ] && accepts c.match f.url

unfoldable pub matching : Watch → FrameCriterion → List FrameInfo
unfolding sorted
matching w c = filter (is_wanted c) (sorted w.frames)

-- `notifyWaits`: the waits that stay, and those that are settled.
unfoldable pub notify_waits :
    Watch → List (ℕ × FrameCriterion) → List (ℕ × FrameCriterion) × List (ℕ × FrameWaitResult)
unfolding matching
notify_waits w [] = ([], [])
notify_waits w ((id, c) ∷ waits) =
    let rest = notify_waits w waits in
    let frames = matching w c in
    if ltb 0 (length frames)
    then (rest.0, (id, record { outcome = found; frames = frames }) ∷ rest.1)
    else ((id, c) ∷ rest.0, rest.1)

abbrev put_watch : FrameRegistry → ℕ → Watch → FrameRegistry
put_watch r tab w = record r { watches = insert tab w r.watches }

-- `awaitFrame` of a wait with the number given and the time it has left.
unfoldable pub await_frame : FrameRegistry → ℕ → ℕ → FrameCriterion → ℕ → FrameRegistry
unfolding matching
await_frame r tab id c remaining = elim (lookup tab r.watches) [
  | none ↦ record r {
    settled = r.settled ++ (id, record { outcome = unwatched; frames = [] }) ∷ [];
  }
  | some w ↦
      if ltb 0 (length (matching w c))
      then record r {
        settled = r.settled ++ (id, record { outcome = found; frames = matching w c }) ∷ [];
      }
      else if nat_beq remaining 0
      then record r { settled = r.settled ++ (id, record { outcome = timeout; frames = [] }) ∷ [] }
      else put_watch r tab (record w { waits = w.waits ++ (id, c) ∷ [] })
]

-- The timer of a wait that its watch still has.
unfoldable pub time_out : FrameRegistry → ℕ → ℕ → FrameRegistry
time_out r tab id = elim (lookup tab r.watches) [
  | none ↦ r
  | some w ↦
      if has_key id w.waits
      then record (put_watch r tab (record w { waits = delete id w.waits })) {
        settled = r.settled ++ (id, record { outcome = timeout; frames = [] }) ∷ [];
      }
      else r
]

abbrev pub is_same : Option PendingInjection → Text → ℕ → Bool
is_same none url generation = false
is_same (some p) url generation = p.info.url == url && nat_beq p.generation generation

-- `frameLoaded`, up to the answer of `executeScript`.
unfoldable pub load_in : FrameRegistry → ℕ → FrameInfo → Watch → FrameRegistry
load_in r tab f w =
    if accepts w.pattern f.url
    then (if is_same (lookup f.frame_id w.pending) f.url w.generation
        then r
        else record (put_watch r tab (record w {
          pending = insert f.frame_id (record { info = f; generation = w.generation }) w.pending;
          errors = delete f.frame_id w.errors;
        })) { injected = r.injected ++ (tab, f.frame_id) ∷ [] })
    else put_watch r tab (record w { pending = delete f.frame_id w.pending })

unfoldable pub frame_loaded : FrameRegistry → ℕ → FrameInfo → FrameRegistry
unfolding load_in
frame_loaded r tab f = elim (lookup tab r.watches) [
  | none ↦ r
  | some w ↦ if nat_beq f.frame_id 0 then r else load_in r tab f w
]

-- What `inject` does when `executeScript` rejects.
unfoldable pub injection_failed : FrameRegistry → ℕ → ℕ → Text → ℕ → Text → FrameRegistry
injection_failed r tab frame url generation error = elim (lookup tab r.watches) [
  | none ↦ r
  | some w ↦ put_watch r tab (record w {
    errors = insert frame error w.errors;
    pending =
        if is_same (lookup frame w.pending) url generation
        then delete frame w.pending
        else w.pending;
  })
]

-- A port that connects: its number, its name, and what its sender says.
pub record Port : Type 0 where
  pub port : ℕ
  pub name : Text
  pub tab_id : Option ℕ
  pub frame_id : Option ℕ
  pub url : Option Text

-- The pending injection that a connecting port answers.
unfoldable pub pending_of : Watch → ℕ → Option Text → Option PendingInjection
pending_of w frame url = elim (lookup frame w.pending) [
  | none ↦ none
  | some p ↦ elim url [
    | none ↦ none
    | some u ↦ if nat_beq p.generation w.generation && p.info.url == u then some p else none
  ]
]

unfoldable pub admit_to : FrameRegistry → ℕ → ℕ → Watch → PendingInjection → ℕ → FrameRegistry
unfolding notify_waits
admit_to r tab frame w p port =
    let w' : Watch = record w {
      pending = delete frame w.pending;
      errors = delete frame w.errors;
      frames =
          insert frame
            (record {
              info = record {
                frame_id = frame;
                url = p.info.url;
                parent_frame_id = p.info.parent_frame_id;
              };
              port = port;
            })
            w.frames;
    } in
    let out = notify_waits w' w'.waits in
    record (put_watch r tab (record w' { waits = out.0 })) { settled = r.settled ++ out.1 }

abbrev pub frame_port_name : Text
frame_port_name = txt "firefox-ctl-frame"

-- `admit` of a port with the right name, from a frame of a tab.
unfoldable pub admit_from : FrameRegistry → ℕ → ℕ → Option Text → ℕ → Option FrameRegistry
unfolding pending_of admit_to
admit_from r tab frame url port = if nat_beq frame 0 then none else elim (lookup tab r.watches) [
  | none ↦ none
  | some w ↦ elim (pending_of w frame url) [
    | none ↦ none
    | some p ↦ some (admit_to r tab frame w p port)
  ]
]

unfoldable pub admit : FrameRegistry → Port → Option FrameRegistry
unfolding admit_from
admit r port =
    if port.name == frame_port_name
    then elim port.tab_id [
      | none ↦ none
      | some tab ↦ elim port.frame_id [
        | none ↦ none
        | some frame ↦ admit_from r tab frame port.url port.port
      ]
    ]
    else none

unfoldable pub connected : FrameRegistry → Port → FrameRegistry
unfolding admit
connected r port = elim (admit r port) [
  | none ↦ record r { silenced = r.silenced ++ port.port ∷ [] }
  | some r' ↦ r'
]

abbrev pub is_port : Option ObservedFrame → ℕ → Bool
is_port none port = false
is_port (some f) port = nat_beq f.port port

-- `frameDisconnected`, which `forget` with a port does as well.
unfoldable pub frame_disconnected : FrameRegistry → ℕ → ℕ → ℕ → FrameRegistry
frame_disconnected r tab frame port = elim (lookup tab r.watches) [
  | none ↦ r
  | some w ↦
      if is_port (lookup frame w.frames) port
      then put_watch r tab (record w { frames = delete frame w.frames })
      else r
]

-- `forget` without a port.
unfoldable pub forget : FrameRegistry → ℕ → ℕ → FrameRegistry
forget r tab frame = elim (lookup tab r.watches) [
  | none ↦ r
  | some w ↦ put_watch r tab (record w { frames = delete frame w.frames })
]

unfoldable pub tab_removed : FrameRegistry → ℕ → FrameRegistry
tab_removed r tab = elim (lookup tab r.watches) [
  | none ↦ r
  | some w ↦ record r {
    watches = delete tab r.watches;
    settled = r.settled ++ end_waits w.waits closed;
  }
]
