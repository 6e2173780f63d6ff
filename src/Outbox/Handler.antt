-- ===== src/Outbox/Handler.antt =====
-- src/app/outbox_handler.rs: what one tick of the outbox handler does.
pub mod Drained
mod Keyed
mod Loaded
mod Run
use conferences.Base.{ℕ, zero, suc, ◌+◌, List, Option, none, some, Result, ok, err}
use conferences.Outbox.{Object}
use conferences.Outbox.Pipeline.{
  Env, Transactional, Errors, MultipleStagePipelineResult, continue, done, run_multiple_stages,
}

-- The `match` on the result of a batch.
abbrev pub after_batch :
    {J : Type 0}
    → (List (Object J) → Option (List (Object J) × Result Errors (Unit {0})))
    → List (Object J) × Result Errors MultipleStagePipelineResult
    → Option (List (Object J) × Result Errors (Unit {0}))
after_batch again (s, ok done) = some (s, ok tt)
after_batch again (s, ok continue) = again s
after_batch again (s, err es) = some (s, err es)

module _ {T J : Type 0} (env : Env T J) (db : Transactional (List (Object J))) where
  -- The loop over batches, on fuel, with the number of the first run of a batch; `none` means that the
  -- fuel ran out.
  unfoldable pub drain :
      ℕ → ℕ → ℕ → List (Object J) → Option (List (Object J) × Result Errors (Unit {0}))
  unfolding run_multiple_stages
  drain zero k messages_per_try s = none
  drain (suc fuel) k messages_per_try s =
      after_batch (drain fuel (k + messages_per_try) messages_per_try)
        (run_multiple_stages env db k messages_per_try s)
