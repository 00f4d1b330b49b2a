-- ===== src/HarRecorder/Kept/Expiry.antt =====
-- The expiry timers of the HARs kept by extension/src/har-recorder.ts.
use firefox_ctl.Base.{
  Bool-cases, List, Option, Option-cases, [], ap, arith, delete, inl, inr, insert, lookup,
  lookup-delete, lookup-insert, nat_beq_iff, nat_eq, none, some, subst, suc, sym, text_eq, true, ℕ,
  ◌<◌, ◌∙◌, ◌∷◌, ◌≡◌, ◌≢◌, ◌⊎◌,
}
use firefox_ctl.HarRecorder.Kept.{
  Event, KeptHars, expire, expires, fire, fires, forget, forgets, is_har, keep, keeps, none_kept,
  play, step,
}

-- A timer runs exactly for the expiry of a HAR that is kept, and none yet for one that is built.
pub record Inv (k : KeptHars) : Type 0 where
  pub armed : (t tab : ℕ) → lookup t k.timers ≡ some tab → lookup tab k.expiries ≡ some t
  pub backed : (tab t : ℕ) → lookup tab k.expiries ≡ some t → lookup t k.timers ≡ some tab
  pub kept : (tab t : ℕ) → lookup tab k.expiries ≡ some t → lookup tab k.stopped ≢ none
  pub building :
      (p tab : ℕ)
      → lookup p k.waiting ≡ some tab
      → lookup tab k.stopped ≡ some p
      → lookup tab k.expiries ≡ none
  pub old_timers : (t tab : ℕ) → lookup t k.timers ≡ some tab → t < k.next_timer
  pub old_promises : (tab p : ℕ) → lookup tab k.stopped ≡ some p → p < k.next_promise

deleted :
    (a b v : ℕ) (m : List (ℕ × ℕ))
    → lookup b (delete a m) ≡ some v
    → (a ≢ b) × (lookup b m ≡ some v)
deleted a b v m h = ground (arith, lookup-delete a b m, h)

survives : (a b : ℕ) (m : List (ℕ × ℕ)) → a ≢ b → lookup b (delete a m) ≡ lookup b m
survives a b m n = ground (arith, lookup-delete a b m, n)

gone : (a : ℕ) (m : List (ℕ × ℕ)) → lookup a (delete a m) ≡ none
gone a m = ground (arith, lookup-delete a a m)

inserted :
    (a b v w : ℕ) (m : List (ℕ × ℕ))
    → lookup b (insert a v m) ≡ some w
    → ((a ≡ b) × (v ≡ w)) ⊎ ((a ≢ b) × (lookup b m ≡ some w))
inserted a b v w m h = ground (arith, lookup-insert a b v m, h)

found : (a v : ℕ) (m : List (ℕ × ℕ)) → lookup a (insert a v m) ≡ some v
found a v m = ground (arith, lookup-insert a a v m)

passed_over : (a b v : ℕ) (m : List (ℕ × ℕ)) → a ≢ b → lookup b (insert a v m) ≡ lookup b m
passed_over a b v m n = ground (arith, lookup-insert a b v m, n)

-- The timer goes with the expiry.
dropped-Inv :
    (k : KeptHars) (tab s : ℕ)
    → lookup tab k.expiries ≡ some s
    → Inv k
    → Inv (record k {
      timers = delete s k.timers;
      expiries = delete tab k.expiries;
      stopped = delete tab k.stopped;
    })
dropped-Inv k tab s e h = record {
  armed = λ t b f.
      let there = deleted s t b k.timers f in
      let expiry : lookup b k.expiries ≡ some t = h.armed t b there.1 in
      survives tab b k.expiries (λ same. there.0 cc) ∙ expiry;
  backed = λ b t f.
      let there = deleted tab b t k.expiries f in
      let timer : lookup t k.timers ≡ some b = h.backed b t there.1 in
      let own : lookup s k.timers ≡ some tab = h.backed tab s e in
      survives s t k.timers (λ same. there.0 cc) ∙ timer;
  kept = λ b t f g.
      let there = deleted tab b t k.expiries f in
      h.kept b t there.1 (sym (survives tab b k.stopped there.0) ∙ g);
  building = λ p b f g.
      let there = deleted tab b p k.stopped g in
      survives tab b k.expiries there.0 ∙ h.building p b f there.1;
  old_timers = λ t b f. h.old_timers t b (deleted s t b k.timers f).1;
  old_promises = λ b p f. h.old_promises b p (deleted tab b p k.stopped f).1;
}

forget-Inv : (k : KeptHars) (tab : ℕ) → Inv k → Inv (forget k tab)
unfolding forget
forget-Inv k tab h = elim (Option-cases (lookup tab k.expiries)) [
  | inl e ↦
      rw (e, forget)
        (record {
          armed = h.armed;
          backed = h.backed;
          kept = λ b t f g. h.kept b t f (sym (survives tab b k.stopped (λ same. cc)) ∙ g);
          building = λ p b f g. h.building p b f (deleted tab b p k.stopped g).1;
          old_timers = h.old_timers;
          old_promises = λ b p f. h.old_promises b p (deleted tab b p k.stopped f).1;
        })
  | inr (s, e) ↦ rw (e, forget) (dropped-Inv k tab s e h)
]

-- The tab has no expiry any more.
forget_gone : (k : KeptHars) (tab : ℕ) → lookup tab (forget k tab).expiries ≡ none
unfolding forget
forget_gone k tab = elim (Option-cases (lookup tab k.expiries)) [
  | inl e ↦ rw (e, forget) e
  | inr (s, e) ↦ rw (e, forget) (gone tab k.expiries)
]

-- A HAR that is new in the recorder.
kept-Inv :
    (k : KeptHars) (tab : ℕ)
    → lookup tab k.expiries ≡ none
    → Inv k
    → Inv (record k {
      stopped = insert tab k.next_promise k.stopped;
      waiting = insert k.next_promise tab k.waiting;
      next_promise = suc k.next_promise;
    })
kept-Inv k tab n h = record {
  armed = h.armed;
  backed = h.backed;
  kept =
      λ b t f g. h.kept b t f (sym (passed_over tab b k.next_promise k.stopped (λ same. cc)) ∙ g);
  building = λ p b f g. elim (inserted tab b k.next_promise p k.stopped g) [
    | inl (same, new) ↦ ap (λ c. lookup c k.expiries) (sym same) ∙ n
    | inr (other, old) ↦
        let before : p < k.next_promise = h.old_promises b p old in
        elim (inserted k.next_promise p tab b k.waiting f) [
          | inl (new, same) ↦ absurd (omega (arith, before, new))
          | inr (older, there) ↦ h.building p b there old
        ]
  ];
  old_timers = h.old_timers;
  old_promises = λ b p f. elim (inserted tab b k.next_promise p k.stopped f) [
    | inl (same, new) ↦ omega (arith, new)
    | inr (other, old) ↦ omega (arith, h.old_promises b p old)
  ];
}

keep-Inv : (k : KeptHars) (tab : ℕ) → Inv k → Inv (keep k tab)
unfolding keep
keep-Inv k tab h = kept-Inv (forget k tab) tab (forget_gone k tab) (forget-Inv k tab h)

-- The expiry of a HAR that the recorder still keeps.
expiring-Inv :
    (k : KeptHars) (p tab : ℕ)
    → lookup p k.waiting ≡ some tab
    → lookup tab k.stopped ≡ some p
    → Inv k
    → Inv (record k {
      waiting = delete p k.waiting;
      timers = insert k.next_timer tab k.timers;
      expiries = insert tab k.next_timer k.expiries;
      next_timer = suc k.next_timer;
    })
expiring-Inv k p tab e g h =
    let none_yet : lookup tab k.expiries ≡ none = h.building p tab e g in
    record {
      armed = λ t b f. elim (inserted k.next_timer t tab b k.timers f) [
        | inl (new, same) ↦
            subst (λ c. lookup c (insert tab k.next_timer k.expiries) ≡ some t) same
              (found tab k.next_timer k.expiries ∙ ap some new)
        | inr (older, there) ↦
            let expiry : lookup b k.expiries ≡ some t = h.armed t b there in
            passed_over tab b k.next_timer k.expiries (λ same. cc) ∙ expiry
      ];
      backed = λ b t f. elim (inserted tab b k.next_timer t k.expiries f) [
        | inl (same, new) ↦
            subst (λ u. lookup u (insert k.next_timer tab k.timers) ≡ some b) new
              (found k.next_timer tab k.timers ∙ ap some same)
        | inr (other, there) ↦
            let timer : lookup t k.timers ≡ some b = h.backed b t there in
            let before : t < k.next_timer = h.old_timers t b timer in
            passed_over k.next_timer t tab k.timers (λ same. omega (arith, same, before)) ∙ timer
      ];
      kept = λ b t f n. elim (inserted tab b k.next_timer t k.expiries f) [
        | inl (same, new) ↦ cc
        | inr (other, there) ↦ h.kept b t there n
      ];
      building = λ q b f m.
          let there = deleted p q b k.waiting f in
          passed_over tab b k.next_timer k.expiries (λ same. there.0 cc) ∙ h.building q b there.1 m;
      old_timers = λ t b f. elim (inserted k.next_timer t tab b k.timers f) [
        | inl (new, same) ↦ omega (arith, new)
        | inr (older, there) ↦ omega (arith, h.old_timers t b there)
      ];
      old_promises = h.old_promises;
    }

built-Inv : (k : KeptHars) (p : ℕ) → Inv k → Inv (record k { waiting = delete p k.waiting })
built-Inv k p h = record {
  armed = h.armed;
  backed = h.backed;
  kept = h.kept;
  building = λ q b f g. h.building q b (deleted p q b k.waiting f).1 g;
  old_timers = h.old_timers;
  old_promises = h.old_promises;
}

is_har_lem : (o : Option ℕ) (p : ℕ) → is_har o p ≡ true → o ≡ some p
is_har_lem none p e = cc
is_har_lem (some q) p e = ap some ((nat_beq_iff q p).0 e)

expire-Inv : (k : KeptHars) (p : ℕ) → Inv k → Inv (expire k p)
unfolding expire
expire-Inv k p h = elim (Option-cases (lookup p k.waiting)) [
  | inl e ↦ rw (e, expire) h
  | inr (tab, e) ↦ elim (Bool-cases (is_har (lookup tab k.stopped) p)) [
    | inl same ↦
        rw (e, expire)
          (rw same (expiring-Inv k p tab e (is_har_lem (lookup tab k.stopped) p same) h))
    | inr other ↦ rw (e, expire) (rw other (built-Inv k p h))
  ]
]

-- Timers with the same entries.
timers-Inv :
    (k : KeptHars) (m : List (ℕ × ℕ))
    → ((t : ℕ) → lookup t m ≡ lookup t k.timers)
    → Inv k
    → Inv (record k { timers = m })
timers-Inv k m same h = record {
  armed = λ t tab f. h.armed t tab (sym (same t) ∙ f);
  backed = λ tab t f. same t ∙ h.backed tab t f;
  kept = h.kept;
  building = h.building;
  old_timers = λ t tab f. h.old_timers t tab (sym (same t) ∙ f);
  old_promises = h.old_promises;
}

twice : (s t : ℕ) (m : List (ℕ × ℕ)) → lookup t (delete s (delete s m)) ≡ lookup t (delete s m)
twice s t m = ground (arith, lookup-delete s t (delete s m), lookup-delete s t m)

fire-Inv : (k : KeptHars) (s : ℕ) → Inv k → Inv (fire k s)
unfolding fire forget
fire-Inv k s h = elim (Option-cases (lookup s k.timers)) [
  | inl e ↦ rw (e, fire) h
  | inr (tab, e) ↦
      let own : lookup tab k.expiries ≡ some s = h.armed s tab e in
      rw (e, fire)
        (rw (own, forget)
          (timers-Inv
            (record k {
              timers = delete s k.timers;
              expiries = delete tab k.expiries;
              stopped = delete tab k.stopped;
            })
            (delete s (delete s k.timers)) (λ t. twice s t k.timers) (dropped-Inv k tab s own h)))
]

step-Inv : (k : KeptHars) (e : Event) → Inv k → Inv (step k e)
unfolding step
step-Inv k (keeps tab) h = keep-Inv k tab h
step-Inv k (forgets tab) h = forget-Inv k tab h
step-Inv k (expires p) h = expire-Inv k p h
step-Inv k (fires s) h = fire-Inv k s h

play_from : (k : KeptHars) (es : List Event) → Inv k → Inv (play k es)
unfolding play
play_from k [] h = h
play_from k (e ∷ es) h = play_from (step k e) es (step-Inv k e h)

-- However keeping, releasing, building and expiring follow each other, a timer runs for a tab
-- exactly if it is the expiry of that tab, which then has a HAR that is kept; so no timer holds on
-- to a HAR that was let go, and a HAR still being built has none.
pub play_kept-Inv : (es : List Event) → Inv (play none_kept es)
unfolding none_kept lookup
play_kept-Inv es = play_from none_kept es (record {
  armed = λ t tab f. cc;
  backed = λ tab t f. cc;
  kept = λ tab t f. cc;
  building = λ p tab f. cc;
  old_timers = λ t tab f. cc;
  old_promises = λ tab p f. cc;
})
