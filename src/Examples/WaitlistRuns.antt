-- ===== src/Examples/WaitlistRuns.antt =====
-- The waitlist with senders and events that are numbers.
use conferences.Base.{ℕ, ◌≡◌, List, [], ◌∷◌, some, false, arith}
use conferences.Waitlist.{
  register, fire, Wake, received, ticked, new_inner, WaitListInner, step, run, WaitList,
}
use conferences.Waitlist.Phases.{phase, phase_step, phase-step, IsValid}
use conferences.Waitlist.Delivery.{fire-run_registered, new_inner-IsValid}

abbrev fresh : WaitListInner ℕ
fresh = new_inner

abbrev other_commands : List (Wake ℕ ℕ)
other_commands = received (register 8 80) ∷ ticked ∷ received (fire 8 9) ∷ []

phase-step_example :
    (phase 7 (step {T = ℕ} fresh (received (register 7 70))).0
      ≡ phase_step {T = ℕ} 7 (phase 7 fresh) (received (register 7 70)))
    × IsValid 7 (step {T = ℕ} fresh (received (register 7 70))).0
phase-step_example =
    phase-step 7 fresh (received (register 7 70)) (new_inner-IsValid 7).0
      (λ e. (new_inner-IsValid 7).1)

fire-run_registered_example :
    (step {T = ℕ}
      (run (step {T = ℕ} fresh (received (register 7 70))).0 other_commands)
      (received (fire 7 5))).1
    ≡ some (70, 5)
fire-run_registered_example =
    fire-run_registered fresh 7 70 5 other_commands (new_inner-IsValid 7).0 (new_inner-IsValid 7).1
      (omega arith, (omega arith, tt))

abbrev running : WaitList ℕ ℕ
running = record { counter = 41; queue = []; stopped = false }
