-- ===== src/Dispatch/Passing.antt =====
-- How the turns of extension/src/dispatch.ts pass the lock on.
use firefox_ctl.Base.{
  Bool, Bool-cases, List, Option, Option-cases, Text, [], ap, false, get_elem?, if◌then◌else◌, inl,
  inr, none, refl, some, subst, sym, true, ℕ, ◌++◌, ◌∙◌, ◌∷◌, ◌≡◌, ◌≢◌,
}
use firefox_ctl.Memo.{abandon}
use firefox_ctl.Memo.Fence.{abandons, perform}
use firefox_ctl.Protocol.{ExtensionResponse}
use firefox_ctl.Lock.Tickets.{release-phase_at}
use firefox_ctl.Dispatch.{
  CommandRun, Dispatcher, Outcome, Stage, abandon_preamble, abandon_restores, finished, handling,
  is_state_command, persisting, probing, put_run, reply_of, settle,
}
use firefox_ctl.Dispatch.Answering.{abandon_preamble-runs}
use firefox_ctl.Dispatch.Steps.{handler_settles, persist_settles, time_out, timed_out}
use firefox_ctl.Dispatch.Holding.{Fits, Inv, RunFits, Turn, Turn-Inv, ticket_of}
use firefox_ctl.Lock.Invariant.{release-Inv}
use firefox_ctl.Lock.{StateLock, release}

pub if-Inv :
    (b : Bool) (x y : Dispatcher)
    → (b ≡ true → Inv x)
    → (b ≡ false → Inv y)
    → Inv (if b then x else y)
if-Inv true x y h k = h refl
if-Inv false x y h k = k refl

pub settle-finished :
    (r : CommandRun) (response : ExtensionResponse) → (settle r response).stage ≡ finished
unfolding settle
settle-finished r response = elim (Bool-cases r.expired) [
  | inl late ↦ rw late refl
  | inr in_time ↦ rw in_time refl
]

pub no_ticket : (s : Stage) (t : ℕ) → s ≡ finished → ticket_of s ≢ some t
no_ticket s t e h = cc (ap ticket_of e)

pub finished_fits : (l : StateLock) (r : CommandRun) → r.stage ≡ finished → RunFits l r
finished_fits l r e = subst (Fits l (is_state_command r.command.command)) (sym e) tt

-- A turn that leaves the lock alone.
pub quiet :
    (d : Dispatcher) (k : ℕ) (r v : CommandRun)
    → Inv d
    → get_elem? d.runs k ≡ some r
    → ((t : ℕ) → ticket_of v.stage ≡ some t → ticket_of r.stage ≡ some t)
    → RunFits d.lock v
    → Turn d k r v d.lock
quiet d k r v h e own fits = record {
  lock = h.lock;
  here = e;
  others = λ u f n p. p;
  own = λ t g. inl (own t g);
  fits = fits;
}

pub settles-Inv :
    (d : Dispatcher) (k : ℕ) (r s : CommandRun) (response : ExtensionResponse)
    → Inv d
    → get_elem? d.runs k ≡ some r
    → Inv (put_run d k (settle s response))
settles-Inv d k r s response h e =
    Turn-Inv d (put_run d k (settle s response)) k r (settle s response) d.lock h
      (quiet d k r (settle s response) h e
        (λ t g. absurd (no_ticket (settle s response).stage t (settle-finished s response) g))
        (finished_fits d.lock (settle s response) (settle-finished s response)))
      refl refl

abandon_restores-lock : (d : Dispatcher) → (abandon_restores d).lock ≡ d.lock
unfolding abandon_restores
abandon_restores-lock d = elim (Option-cases d.restores) [
  | inl e ↦ rw (e, abandon_restores) refl
  | inr (p, e) ↦ elim (Option-cases (get_elem? d.attempts p)) [
    | inl f ↦ rw (e, f, abandon_restores) refl
    | inr (a, f) ↦ rw (e, f, abandon_restores) refl
  ]
]

abandon_preamble-lock : (d : Dispatcher) (o : Option ℕ) → (abandon_preamble d o).lock ≡ d.lock
unfolding abandon_preamble
abandon_preamble-lock d none = refl
abandon_preamble-lock d (some p) = elim (Bool-cases (abandon d.preamble.memo p).1) [
  | inl e ↦
      rw (e, abandon_preamble)
        (abandon_restores-lock (record d { preamble = perform d.preamble (abandons p) }))
  | inr e ↦ rw (e, abandon_preamble) refl
]

module _ (commands : List Text) (show : ℕ → Text) where
  pub time_out-Inv :
      (d : Dispatcher) (k : ℕ) (r : CommandRun) (s : Stage)
      → r.stage ≡ s
      → get_elem? d.runs k ≡ some r
      → Inv d
      → Inv (time_out commands show d k r s)
  unfolding time_out
  time_out-Inv d k r s e g h =
      let late : CommandRun = record r {
        expired = true;
        timer = false;
        answers = r.answers ++ timed_out commands show r ∷ [];
      } in
      let after = abandon_preamble (put_run d k late) r.preamble in
      if-Inv r.timer after d
        (λ t.
          Turn-Inv d after k r late d.lock h (quiet d k r late h g (λ u p. p) (h.fits k r g))
            (abandon_preamble-lock (put_run d k late) r.preamble)
            (abandon_preamble-runs (put_run d k late) r.preamble))
        (λ t. h)

-- The lock without a ticket that was held.
pub released-Turn :
    (d : Dispatcher) (l : StateLock) (k t : ℕ) (r v : CommandRun)
    → Turn d k r r l
    → ticket_of r.stage ≡ some t
    → v.stage ≡ finished
    → Turn d k r v (release l t)
released-Turn d l k t r v turn g e = record {
  lock = release-Inv l t turn.lock;
  here = turn.here;
  others = λ u f n p. release-phase_at l t u (λ same. n (g ∙ ap some same)) ∙ turn.others u f n p;
  own = λ u p. absurd (no_ticket v.stage u e p);
  fits = finished_fits (release l t) v e;
}

pub persist_settles-Inv :
    (d : Dispatcher) (k : ℕ) (r : CommandRun) (s : Stage)
    → r.stage ≡ s
    → get_elem? d.runs k ≡ some r
    → Inv d
    → Inv (persist_settles d k r s)
unfolding persist_settles
persist_settles-Inv d k r (persisting none response) e g h = settles-Inv d k r r response h g
persist_settles-Inv d k r (persisting (some t) response) e g h =
    Turn-Inv d _ k r (settle r response) (release d.lock t) h
      (released-Turn d d.lock k t r (settle r response)
        (quiet d k r r h g (λ u p. p) (h.fits k r g)) (ap ticket_of e) (settle-finished r response))
      refl refl
persist_settles-Inv d k r _ e g h = h

Fits-persisting :
    (l : StateLock) (state : Bool) (ticket : Option ℕ) (response : ExtensionResponse)
    → Fits l state (handling ticket)
    → Fits l state (persisting ticket response)
Fits-persisting l state none response h = h
Fits-persisting l state (some t) response h = h

pub handler_settles-Inv :
    (outcome : Outcome) (d : Dispatcher) (k : ℕ) (r : CommandRun) (s : Stage)
    → r.stage ≡ s
    → get_elem? d.runs k ≡ some r
    → Inv d
    → Inv (handler_settles outcome d k r s)
unfolding handler_settles
handler_settles-Inv outcome d k r (handling ticket) e g h =
    let response = reply_of r.command outcome in
    let v : CommandRun = record r { stage = persisting ticket response } in
    Turn-Inv d (put_run d k v) k r v d.lock h
      (quiet d k r v h g (λ t p. ap ticket_of e ∙ p)
        (Fits-persisting d.lock (is_state_command r.command.command) ticket response
          (subst (Fits d.lock (is_state_command r.command.command)) e (h.fits k r g))))
      refl refl
handler_settles-Inv outcome d k r probing e g h =
    settles-Inv d k r r (reply_of r.command outcome) h g
handler_settles-Inv outcome d k r _ e g h = h
