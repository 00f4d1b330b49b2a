-- ===== src/Lock/Tests.antt =====
-- Runs of the lock of extension/src/lock.ts, and the theorems at concrete runs.
use firefox_ctl.Base.{List, [], arith, get_elem?, refl, some, ℕ, ◌+◌, ◌∷◌, ◌≡◌}
use firefox_ctl.Lock.{
  Event, Phase, Ticket, acquire, acquires, held, initial, release, release_phase, released,
  releases, resume, resumed, resumes, run, step, waiting,
}
use firefox_ctl.Lock.Fairness.{resume_progress, run-fifo, run_exclusive}

lock : Unit {0}
unfolding run step acquire resume resumed release release_phase initial
lock = tt

-- Two calls; the first enters and releases twice, then the second enters.
abbrev history : List Event
history = acquires ∷ acquires ∷ resumes 1 ∷ resumes 0 ∷ releases 0 ∷ releases 0 ∷ resumes 1 ∷ []

abbrev ticket : ℕ → Phase → Ticket
ticket p f = record { previous = p; own = p + 1; phase = f }

history_tickets : (run initial history).tickets ≡ ticket 0 released ∷ ticket 1 held ∷ []
unfolding lock
history_tickets = refl

run-fifo_example : (ticket 0 released).phase ≡ released
unfolding lock
run-fifo_example = run-fifo history 0 1 _ (ticket 1 held) (omega arith) refl refl (λ e. cc)

run_exclusive_example : ◌≡◌ {A = ℕ} 1 1
unfolding lock
run_exclusive_example =
    run_exclusive history 1 1 (ticket 1 held) (ticket 1 held) refl refl refl refl

resume_progress_example :
    get_elem? (resume (run initial (acquires ∷ [])) 0).tickets 0 ≡ some (ticket 0 held)
unfolding lock
resume_progress_example =
    resume_progress (acquires ∷ []) 0 (ticket 0 waiting) refl refl (λ j u h e. absurd (omega arith))
