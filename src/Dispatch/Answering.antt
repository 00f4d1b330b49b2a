-- ===== src/Dispatch/Answering.antt =====
-- Whether a command of extension/src/dispatch.ts has answered, and what a turn does to that.
use firefox_ctl.Base.{
  All, Bool, Bool-cases, Option, Option-cases, [], ap, false, get_elem?, if◌then◌else◌, inl, inr,
  length, none, refl, some, true, ℕ, ◌++◌, ◌∷◌, ◌≡◌, ◌≢◌, ◌⊎◌,
}
use firefox_ctl.Memo.{abandon}
use firefox_ctl.Protocol.{ExtensionResponse}
use firefox_ctl.Memo.Fence.{abandons, perform}
use firefox_ctl.Dispatch.{
  CommandRun, Dispatcher, Stage, abandon_preamble, abandon_restores, finished, settle,
}

-- It has not answered: its timer runs, and so does the command.
pub record IsOpen (r : CommandRun) : Type 0 where
  pub timer_on : r.timer ≡ true
  pub no_answer : r.answers ≡ []
  pub in_time : r.expired ≡ false
  pub running : r.stage ≢ finished

-- It has answered once: its timer has fired or it is done.
pub record IsClosed (r : CommandRun) : Type 0 where
  pub timer_off : r.timer ≡ false
  pub one_answer : length r.answers ≡ 1
  pub over : (r.expired ≡ true) ⊎ (r.stage ≡ finished)

abbrev pub IsAnswered : CommandRun → Type 0
IsAnswered r = IsOpen r ⊎ IsClosed r

pub settle-IsAnswered :
    (r : CommandRun) (response : ExtensionResponse)
    → r.stage ≢ finished
    → IsAnswered r
    → IsAnswered (settle r response)
unfolding settle
settle-IsAnswered r response h (inl open_run) = rw (open_run.in_time) (
    inr (record {
      timer_off = refl;
      one_answer = ap (λ answers. length (answers ++ response ∷ [])) open_run.no_answer;
      over = inr refl;
    }))
settle-IsAnswered r response h (inr closed) = elim closed.over [
  | inl late ↦ rw late (
      inr
        (record { timer_off = closed.timer_off; one_answer = closed.one_answer; over = inl refl }))
  | inr done ↦ absurd (h done)
]

-- A turn that leaves the command running.
pub moves-IsAnswered :
    (r : CommandRun) (stage : Stage)
    → r.stage ≢ finished
    → stage ≢ finished
    → IsAnswered r
    → IsAnswered (record r { stage = stage })
moves-IsAnswered r stage h k (inl open_run) = inl (record {
  timer_on = open_run.timer_on;
  no_answer = open_run.no_answer;
  in_time = open_run.in_time;
  running = k;
})
moves-IsAnswered r stage h k (inr closed) = elim closed.over [
  | inl late ↦
      inr (record { timer_off = closed.timer_off; one_answer = closed.one_answer; over = inl late })
  | inr done ↦ absurd (h done)
]

pub leaves-IsAnswered : (r : CommandRun) → IsAnswered r → IsAnswered (record r { preamble = none })
leaves-IsAnswered r (inl open_run) = inl (record {
  timer_on = open_run.timer_on;
  no_answer = open_run.no_answer;
  in_time = open_run.in_time;
  running = open_run.running;
})
leaves-IsAnswered r (inr closed) =
    inr
      (record { timer_off = closed.timer_off; one_answer = closed.one_answer; over = closed.over })

abandon_restores-runs : (d : Dispatcher) → (abandon_restores d).runs ≡ d.runs
unfolding abandon_restores
abandon_restores-runs d = elim (Option-cases d.restores) [
  | inl e ↦ rw (e, abandon_restores) refl
  | inr (p, e) ↦ elim (Option-cases (get_elem? d.attempts p)) [
    | inl f ↦ rw (e, f, abandon_restores) refl
    | inr (a, f) ↦ rw (e, f, abandon_restores) refl
  ]
]

pub abandon_preamble-runs : (d : Dispatcher) (o : Option ℕ) → (abandon_preamble d o).runs ≡ d.runs
unfolding abandon_preamble
abandon_preamble-runs d none = refl
abandon_preamble-runs d (some p) = elim (Bool-cases (abandon d.preamble.memo p).1) [
  | inl e ↦
      rw (e, abandon_preamble)
        (abandon_restores-runs (record d { preamble = perform d.preamble (abandons p) }))
  | inr e ↦ rw (e, abandon_preamble) refl
]

abbrev pub AllAnswered : Dispatcher → Type 0
AllAnswered d = All IsAnswered d.runs

pub if-AllAnswered :
    (b : Bool) (x y : Dispatcher) → AllAnswered x → AllAnswered y → AllAnswered (if b then x else y)
if-AllAnswered true x y h k = h
if-AllAnswered false x y h k = k
