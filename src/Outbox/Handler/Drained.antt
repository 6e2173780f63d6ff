-- ===== src/Outbox/Handler/Drained.antt =====
-- A tick of the outbox handler ends.
use conferences.Base.{
  ℕ, zero, suc, ◌+◌, ◌≤◌, ◌<◌, ◌≡◌, ◌≢◌, refl, sym, ap, inl, inr, List, [], ◌∷◌, Option, none, some,
  false, All, length, Result, ok, err, Bool-cases, Option-cases, arith,
}
use conferences.Outbox.{EventId, Object, event_id, has_event, list_query}
use conferences.Outbox.Handler.{drain, after_batch}
use conferences.Outbox.Handler.Keyed.{IsKeyed, weight}
use conferences.Outbox.Pipeline.{
  Env, Transactional, Failure, error, panicked, Errors, MultipleStagePipelineResult, continue, done,
  handle_record, handle_records, decode_all, load_multiple_records, multiple_body,
  run_multiple_stages, collect, after_load, finish_batch,
}
use conferences.Outbox.Pipeline.Rollback.{settled, transaction-settled}
use conferences.Outbox.Handler.Loaded.{AreLoaded, list_query-AreLoaded}
use conferences.Outbox.Handler.Run.{
  row_rank, IsRun, IsRun-lowers, IsRun-IsKeyed, IsRun-Holds, handle_record-IsRun,
}

-- A measure of stages that the handler lowers, and a JSON form that is read back.
module _ {T J : Type 0} (env : Env T J) (rank : T → ℕ)
    (lowers : (k : ℕ) (stage next : T) (e : EventId)
      → env.handle k stage e ≡ ok (some next)
      → rank next < rank stage)
    (reads_back : (stage : T) (json : J)
      → env.encode stage ≡ some json
      → env.decode json ≡ some stage) where
  AreLoaded-run :
      (o : Object J) (s s' : List (Object J)) (rs : List (Object J × T))
      → All (λ x. has_event (event_id o) (x.0) ≡ false) rs
      → IsRun env rank o s s'
      → AreLoaded env s rs
      → AreLoaded env s' rs
  AreLoaded-run o s s' [] n run h = tt
  AreLoaded-run o s s' ((x, stage) ∷ rs) n run (holds, decoded, others, rest) = (
    IsRun-Holds env rank o x s s' n.0 holds run,
    decoded,
    others,
    AreLoaded-run o s s' rs n.1 run rest,
  )

  collect-no_errors :
      {A : Type 0} (rest : List (Object J) → List (Object J) × Errors)
      (p : List (Object J) × Result Failure A) (s' : List (Object J))
      → collect rest p ≡ (s', [])
      → (t : List (Object J)) × (a : A) × (p ≡ (t, ok a)) × (rest t ≡ (s', []))
  collect-no_errors rest (t, ok a) s' h = (t, a, refl, h)
  collect-no_errors rest (t, err (error x)) s' h = cc
  collect-no_errors rest (t, err panicked) s' h = cc

  handle_records-lowers :
      (k : ℕ) (rs : List (Object J × T)) (s s' : List (Object J))
      → IsKeyed s
      → AreLoaded env s rs
      → handle_records env k rs s ≡ (s', [])
      → IsKeyed s' × (weight (row_rank env rank) s' + length rs ≤ weight (row_rank env rank) s)
  unfolding handle_records
  handle_records-lowers k [] s s' keyed loaded h =
      let e : s' ≡ s = sym (ap (λ p. p.0) h) in rw e (keyed, omega arith)
  handle_records-lowers k ((o, stage) ∷ rs) s s' keyed (holds, decoded, others, rest) h =
      let (t, r, ran, more) =
        collect-no_errors (handle_records env (k + 1) rs) (handle_record env k o stage s) s' h in
      let run = handle_record-IsRun env rank lowers reads_back k o stage s t r holds decoded ran in
      let (keyed', le) =
        handle_records-lowers (k + 1) rs t s' (IsRun-IsKeyed env rank o s t keyed run)
          (AreLoaded-run o s t rs others run rest) more in
      (keyed', omega (arith, le, IsRun-lowers env rank o s t holds run))

  finish_batch-continue :
      (p : List (Object J) × Errors) (s' : List (Object J))
      → finish_batch p ≡ (s', ok continue)
      → p ≡ (s', [])
  finish_batch-continue (t, []) s' h = ap (λ q. (q.0, [])) h
  finish_batch-continue (t, e ∷ es) s' h = cc

  -- A batch that says to go on has lowered the work that is left.
  multiple_body-lowers :
      (k n : ℕ) (s s' : List (Object J))
      → IsKeyed s
      → multiple_body env k n s ≡ (s', ok continue)
      → IsKeyed s' × (suc (weight (row_rank env rank) s') ≤ weight (row_rank env rank) s)
  unfolding multiple_body load_multiple_records
  multiple_body-lowers k n s s' keyed h =
      elim (Option-cases (decode_all env (list_query env.locked env.now n s))) [
        | inl m ↦ let h' = rw (multiple_body, load_multiple_records, m) at h in cc
        | inr (rs, m) ↦
            batch rs (list_query-AreLoaded env n s rs keyed m)
              (rw (multiple_body, load_multiple_records, m) at h)
      ]
    where
      batch :
          (rs : List (Object J × T))
          → AreLoaded env s rs
          → after_load env k (s, ok rs) ≡ (s', ok continue)
          → IsKeyed s' × (suc (weight (row_rank env rank) s') ≤ weight (row_rank env rank) s)
      batch [] loaded h = cc
      batch (r ∷ rs) loaded h =
          let (keyed', le) =
            handle_records-lowers k (r ∷ rs) s s' keyed loaded
              (finish_batch-continue (handle_records env k (r ∷ rs) s) s' h) in
          (keyed', omega (arith, le))

  after_batch-ends :
      (again : List (Object J) → Option (List (Object J) × Result Errors (Unit {0})))
      (s : List (Object J)) (p : List (Object J) × Result Errors MultipleStagePipelineResult)
      → ((t : List (Object J)) → p ≡ (t, ok continue) → again t ≢ none)
      → after_batch again (settled s p) ≢ none
  after_batch-ends again s (t, ok continue) h = h t refl
  after_batch-ends again s (t, ok done) h = λ q. cc q
  after_batch-ends again s (t, err e) h = λ q. cc q

  -- The loop over batches of a tick ends on rows of different events, whatever fails, when the fuel is
  -- above the sum, over the rows, of one more than the rank of their stages.
  pub drain_ends :
      (fuel k messages_per_try : ℕ) (s : List (Object J)) (db : Transactional (List (Object J)))
      → IsKeyed s
      → weight (row_rank env rank) s < fuel
      → drain env db fuel k messages_per_try s ≢ none
  unfolding drain run_multiple_stages
  drain_ends zero k n s db keyed l = absurd (omega (arith, l))
  drain_ends (suc fuel) k n s db keyed l = elim (Bool-cases (env.acquired k)) [
    | inr a ↦ rw (a, run_multiple_stages) (λ q. cc q)
    | inl a ↦
        rw
          (
            a,
            run_multiple_stages,
            transaction-settled db Errors MultipleStagePipelineResult (multiple_body env k n) s,
          )
          (after_batch-ends (drain env db fuel (k + n) n) s (multiple_body env k n s) (λ t h.
            let (keyed', le) = multiple_body-lowers k n s t keyed h in
            drain_ends fuel (k + n) n t db keyed' (omega (arith, le, l))))
  ]
