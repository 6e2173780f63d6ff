-- ===== src/Waitlist/Delivery.antt =====
-- When an answer reaches the one who waits for it: the task over a schedule of commands and ticks.
use conferences.Base.{
  ℕ, zero, suc, ◌≡◌, refl, ◌≢◌, inl, List, [], ◌∷◌, none, some, if◌then◌else◌, leb, arith,
}
use conferences.Base.Table.{find}
use conferences.Waitlist.{
  register, fire, WaitListInner, Wake, received, ticked, new_inner, step, run,
}
use conferences.Waitlist.Phases.{
  Phase, current, gone, aged, holder, phase, phase_step, IsValid, phase-step, fire-holder, get,
}

module _ {S : Type 0} where
  abbrev aged_by : ℕ → Phase S → Phase S
  aged_by zero p = p
  aged_by (suc n) p = aged_by n (aged p)

  aged_by_gone : (n : ℕ) → aged_by n gone ≡ gone
  aged_by_gone zero = refl
  aged_by_gone (suc n) = aged_by_gone n

  -- A fresh id survives one tick.
  holder-aged_by :
      (n : ℕ) (s : S) → holder (aged_by n (current s)) ≡ (if leb n 1 then some s else none)
  holder-aged_by zero s = refl
  holder-aged_by (suc zero) s = refl
  holder-aged_by (suc (suc n)) s = rw (aged_by_gone n) (ground arith)

module _ {S T : Type 0} where
  -- The schedule holds no command for the id.
  abbrev pub IsQuiet : ℕ → List (Wake S T) → Type 0
  IsQuiet id [] = Unit
  IsQuiet id (received (register j s) ∷ ws) = (j ≢ id) × IsQuiet id ws
  IsQuiet id (received (fire j evt) ∷ ws) = (j ≢ id) × IsQuiet id ws
  IsQuiet id (ticked ∷ ws) = IsQuiet id ws

  -- The schedule does not register the id.
  abbrev pub NotRegistered : ℕ → List (Wake S T) → Type 0
  NotRegistered id [] = Unit
  NotRegistered id (received (register j s) ∷ ws) = (j ≢ id) × NotRegistered id ws
  NotRegistered id (received (fire j evt) ∷ ws) = NotRegistered id ws
  NotRegistered id (ticked ∷ ws) = NotRegistered id ws

  -- How often the timer fires.
  abbrev pub ticks : List (Wake S T) → ℕ
  ticks [] = 0
  ticks (received c ∷ ws) = ticks ws
  ticks (ticked ∷ ws) = suc (ticks ws)

  -- With no command for it, an id only ages.
  phase-run :
      (id : ℕ) (st : WaitListInner S) (ws : List (Wake S T))
      → IsValid id st
      → IsQuiet id ws
      → (phase id (run st ws) ≡ aged_by (ticks ws) (phase id st)) × IsValid id (run st ws)
  unfolding run phase_step
  phase-run id st [] v q = (refl, v)
  phase-run id st (received (register j s) ∷ ws) v q =
      let w : Wake S T = received (register j s) in
      ground (arith, phase-step id st w v (λ e. absurd (q.0 e)), phase-run id (step st w).0 ws)
  phase-run id st (received (fire j evt) ∷ ws) v q =
      let w : Wake S T = received (fire j evt) in
      ground (arith, phase-step id st w v tt, phase-run id (step st w).0 ws)
  phase-run id st (ticked ∷ ws) v q =
      let w : Wake S T = ticked in
      ground (arith, phase-step id st w v tt, phase-run id (step st w).0 ws)

  -- An id that is gone stays gone until it is registered.
  phase-run_gone :
      (id : ℕ) (st : WaitListInner S) (ws : List (Wake S T))
      → IsValid id st
      → phase id st ≡ gone
      → NotRegistered id ws
      → (phase id (run st ws) ≡ gone) × IsValid id (run st ws)
  unfolding run phase_step
  phase-run_gone id st [] v g q = (g, v)
  phase-run_gone id st (received (register j s) ∷ ws) v g q =
      let w : Wake S T = received (register j s) in
      ground (arith, phase-step id st w v (λ e. g), phase-run_gone id (step st w).0 ws)
  phase-run_gone id st (received (fire j evt) ∷ ws) v g q =
      let w : Wake S T = received (fire j evt) in
      ground (arith, phase-step id st w v tt, phase-run_gone id (step st w).0 ws)
  phase-run_gone id st (ticked ∷ ws) v g q =
      let w : Wake S T = ticked in
      ground (arith, phase-step id st w v tt, phase-run_gone id (step st w).0 ws)

  -- An answer to an id that was gone and is then registered reaches its sender if the timer fired
  -- at most once in between, and nobody if it fired twice or more. No other command for the id
  -- stands in between; commands for other ids may.
  pub fire-run_registered :
      (st : WaitListInner S) (id : ℕ) (s : S) (evt : T) (ws : List (Wake S T))
      → IsValid id st
      → phase id st ≡ gone
      → IsQuiet id ws
      → (step (run (step {T = T} st (received (register id s))).0 ws) (received (fire id evt))).1
        ≡ (if leb (ticks ws) 1 then some (s, evt) else none)
  unfolding phase_step
  fire-run_registered st id s evt ws v g q =
      let w : Wake S T = received (register id s) in
      let started = phase-step id st w v (λ e. g) in
      let aged_run = phase-run id (step st w).0 ws started.1 q in
      let answer = fire-holder (run (step st w).0 ws) id evt aged_run.1 in
      ground (arith, answer, aged_run, started, holder-aged_by (ticks ws) s)

  -- Once an answer to an id was taken, no later one reaches anybody, whatever the schedule between
  -- them, as long as it does not register the id again.
  pub fire-run_fired :
      (st : WaitListInner S) (id : ℕ) (evt late : T) (ws : List (Wake S T))
      → IsValid id st
      → NotRegistered id ws
      → (step (run (step st (received (fire id evt))).0 ws) (received (fire id late))).1 ≡ none
  unfolding phase_step
  fire-run_fired st id evt late ws v q =
      let w : Wake S T = received (fire id evt) in
      let fired = phase-step id st w v tt in
      let left = phase-run_gone id (step st w).0 ws fired.1 (ground (arith, fired)) q in
      ground (arith, fire-holder (run (step st w).0 ws) id late left.1, left)

module _ {S : Type 0} where
  -- When the task starts every id is gone.
  pub new_inner-IsValid :
      (id : ℕ) → IsValid {S = S} id new_inner × (phase {S = S} id new_inner ≡ gone)
  unfolding new_inner phase get find
  new_inner-IsValid id = (record { index = omega arith; single = inl refl }, refl)
