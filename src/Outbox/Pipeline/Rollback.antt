-- ===== src/Outbox/Pipeline/Rollback.antt =====
-- What a failed stage leaves behind. The new deadline, the error's kind and the retry count of a
-- failed record are written inside the transaction that the failure then rolls back.
use Prim.Native.String.{String}
use conferences.Base.{
  ℕ, suc, ◌+◌, ◌≡◌, refl, subst, inl, inr, List, [], ◌∷◌, ◌++◌, length, Option, some, true, Result,
  ok, err, Option-cases, arith,
}
use conferences.Outbox.{EventId, Object, event_id, list_query, update_query}
use conferences.Outbox.Backoff.{next_delivery_deadline_at}
use conferences.Outbox.Pipeline.{
  Env, Transactional, Failure, error, panicked, stage_error, update_stage_failed, resume, fail,
  query, collect, single_body, multiple_body, run_single_stage, run_multiple_stages, Errors,
  MultipleStagePipelineResult, decode_all, load_multiple_records, handle_record, handle_records,
  outcome_arm, failed_arm, after_load,
}

-- A transaction runs its body, and takes back the writes of one that fails.
abbrev pub settled : {S E A : Type 0} → S → S × Result E A → S × Result E A
settled s (t, ok a) = (t, ok a)
settled s (t, err e) = (s, err e)

pub transaction-settled :
    {S : Type 0} (db : Transactional S) (E A : Type 0) (f : S → S × Result E A) (s : S)
    → db.transaction E A f s ≡ settled s (f s)
transaction-settled {S} db E A f s = go (f s) refl
  where
    go : (p : S × Result E A) → f s ≡ p → db.transaction E A f s ≡ settled s p
    go (t, ok a) h = db.commits E A f s t a h
    go (t, err e) h = db.rolls_back E A f s t e h

settled_failed :
    {S E A : Type 0} (s : S) (p : S × Result E A) {e : E} → p.1 ≡ err e → settled s p ≡ (s, err e)
settled_failed s (t, ok a) h = cc
settled_failed s (t, err x) h = cc

-- What a run with an error is.
abbrev IsFailed : {S A E : Type 0} → S × Result E A → Type 0
IsFailed {S} {A} {E} p = (t : S) × (x : E) × (p ≡ (t, err x))

resume-fail-IsFailed :
    {J A B : Type 0} (e : Failure) (p : List (Object J) × Result Failure A)
    → IsFailed (resume (λ _. fail {J = J} {A = B} e) p)
resume-fail-IsFailed e (s, ok a) = (s, e, refl)
resume-fail-IsFailed e (s, err x) = (s, x, refl)

collect_failed :
    {J A : Type 0} (rest : List (Object J) → List (Object J) × Errors)
    (p : List (Object J) × Result Failure A)
    → IsFailed p
    → (t : List (Object J)) × (x : Failure) × (xs : Errors) × (collect rest p ≡ (t, x ∷ xs))
collect_failed rest p (t, error k, e) = ((rest t).0, error k, (rest t).1, rw e refl)
collect_failed rest p (t, panicked, e) = (t, panicked, [], rw e refl)

-- An error of the others is an error of all.
collect_rest :
    {J A : Type 0} (rest : List (Object J) → List (Object J) × Errors)
    (p : List (Object J) × Result Failure A)
    → ((s : List (Object J))
        → (t : List (Object J)) × (x : Failure) × (xs : Errors) × (rest s ≡ (t, x ∷ xs)))
    → (t : List (Object J)) × (x : Failure) × (xs : Errors) × (collect rest p ≡ (t, x ∷ xs))
collect_rest rest (s, ok a) h = h s
collect_rest rest (s, err (error k)) h = ((rest s).0, error k, (rest s).1, refl)
collect_rest rest (s, err panicked) h = (s, panicked, [], refl)

module _ {T J : Type 0} (env : Env T J) where
  -- The run of a record whose handler fails has an error, whatever is written for it.
  handle_record-IsFailed :
      (k : ℕ) (o : Object J) (stage : T) (kind : String) (s : List (Object J))
      → env.handle k stage (event_id o) ≡ err kind
      → IsFailed (handle_record env k o stage s)
  unfolding handle_record outcome_arm failed_arm
  handle_record-IsFailed k o stage kind s h =
      elim (Option-cases (
        next_delivery_deadline_at o.retry_count o.delivery_deadline_at env.try_wake_interval
          env.max_delivery_interval)) [
            | inl n ↦ rw (handle_record, h, failed_arm, n) (s, panicked, refl)
            | inr (deadline, n) ↦
                rw (handle_record, h, failed_arm, n)
                  (resume-fail-IsFailed (error (stage_error kind))
                    (query (update_query (event_id o) deadline kind) update_stage_failed s))
          ]

  -- The errors of the other records do not hide it.
  handle_records-fails :
      (k : ℕ) (before after : List (Object J × T)) (o : Object J) (stage : T) (kind : String)
      (s : List (Object J))
      → env.handle (k + length before) stage (event_id o) ≡ err kind
      → (t : List (Object J)) × (x : Failure) × (xs : Errors) × (handle_records env k
            (before ++ (o, stage) ∷ after)
            s
          ≡ (t, x ∷ xs))
  unfolding handle_records
  handle_records-fails k [] after o stage kind s h =
      collect_failed (handle_records env (k + 1) after) (handle_record env k o stage s) (
        handle_record-IsFailed k o stage kind s
          (subst (λ n. env.handle n stage (event_id o) ≡ err kind) (omega arith) h))
  handle_records-fails k ((x, y) ∷ rs) after o stage kind s h =
      collect_rest (handle_records env (k + 1) (rs ++ (o, stage) ∷ after))
        (handle_record env k x y s)
        (λ t.
          handle_records-fails (k + 1) rs after o stage kind t
            (subst (λ n. env.handle n stage (event_id o) ≡ err kind) (omega arith) h))

  -- The errors of the records end a batch.
  after_load-err :
      (k : ℕ) (before after : List (Object J × T)) (r : Object J × T) (s t : List (Object J))
      (x : Failure) (xs : Errors)
      → handle_records env k (before ++ r ∷ after) s ≡ (t, x ∷ xs)
      → after_load env k (s, ok (before ++ r ∷ after)) ≡ (t, err (x ∷ xs))
  after_load-err k [] after r s t x xs h = rw h refl
  after_load-err k (b ∷ before) after r s t x xs h = rw h refl

module _ {T J : Type 0} (env : Env T J) (db : Transactional (List (Object J))) where
  -- A batch is all or nothing. When the handler fails for one of the records that the batch has read, whatever
  -- the others do before and after it, the batch ends with errors, of which a panic is one, and the rows of the
  -- outbox are those from before the batch.
  pub run_multiple_stages-fails :
      (k records_per_try : ℕ) (before after : List (Object J × T)) (o : Object J) (stage : T)
      (kind : String) (s : List (Object J))
      → env.acquired k ≡ true
      → decode_all env (list_query env.locked env.now records_per_try s)
        ≡ some (before ++ (o, stage) ∷ after)
      → env.handle (k + length before) stage (event_id o) ≡ err kind
      → (x : Failure) × (xs : Errors) × (run_multiple_stages env db k records_per_try s
          ≡ (s, err (x ∷ xs)))
  unfolding run_multiple_stages multiple_body load_multiple_records
  run_multiple_stages-fails k n before after o stage kind s a d h =
      let (t, x, xs, e) = handle_records-fails env k before after o stage kind s h in
      let body : multiple_body env k n s ≡ (t, err (x ∷ xs)) =
        rw (multiple_body, load_multiple_records, d)
          (after_load-err env k before after (o, stage) s t x xs e) in
      (
        x,
        xs,
        rw
            (
              a,
              run_multiple_stages,
              transaction-settled db Errors MultipleStagePipelineResult (multiple_body env k n) s,
              body,
            )
            refl,
      )

  -- A stage that fails leaves no trace: when the first transaction of `run_single_stage` fails,
  -- the call fails alike, and the rows are those from before it.
  run_single_stage_err :
      (fuel k : ℕ) (e : EventId) (s : List (Object J)) (x : Failure)
      → env.acquired k ≡ true
      → (single_body env k e s).1 ≡ err x
      → run_single_stage env db (suc fuel) k e s ≡ some (s, err x)
  unfolding run_single_stage
  run_single_stage_err fuel k e s x a h =
      rw
        (
          a,
          run_single_stage,
          transaction-settled db Failure (Option EventId) (single_body env k e) s,
        )
        (rw (settled_failed s (single_body env k e s) h) refl)
