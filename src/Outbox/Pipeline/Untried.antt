-- ===== src/Outbox/Pipeline/Untried.antt =====
-- Failed tries are not counted. The new deadline, the error's kind and the retry count of a failed
-- record are written inside the transaction that the failure then rolls back.
use Prim.Native.String.{String}
use conferences.Base.{
  ℕ, zero, suc, ◌+◌, ◌≡◌, refl, inl, inr, List, [], ◌∷◌, Option, none, some, Bool, Result, ok, err,
  ok_or, All, All-append, Option-cases, Bool-cases, arith,
}
use conferences.Base.Table.{find, delete_where}
use conferences.Outbox.{EventId, Object, event_id, has_event, inserted, insert_query, delete_query}
use conferences.Outbox.Pipeline.Rollback.{settled, transaction-settled}
use conferences.Outbox.Pipeline.{
  Env, Transactional, Failure, error, panicked, ErrorKind, pure, M, resume, or_error, query,
  load_single_record, store_next, encode_next, no_stage, handle_loaded, next_stage_arm,
  last_stage_arm, failed_arm, outcome_arm, handle_record, single_body, handle_records, finish_batch,
  collect, after_load, after_stage, multiple_body, run_single_stage, run_multiple_stages,
  load_multiple_records, Errors, MultipleStagePipelineResult, delete_stage_failed,
  serialization_failed, insert_stage_failed,
}

-- No try of the row has been recorded.
abbrev pub IsUntried : {J : Type 0} → Object J → Type 0
IsUntried o = (o.retry_count ≡ 0) × (o.error_kind ≡ none)

All-delete_where :
    {A : Type 0} (P : A → Type 0) (p : A → Bool) (xs : List A)
    → All P xs
    → All P (delete_where p xs)
unfolding delete_where
All-delete_where P p [] h = tt
All-delete_where P p (x ∷ xs) h = elim (Bool-cases (p x)) [
  | inl t ↦ rw t (All-delete_where P p xs h.1)
  | inr t ↦ rw t (h.0, All-delete_where P p xs h.1)
]

module _ {J : Type 0} where
  -- A run that returns a value leaves the rows untried.
  abbrev Kept : {E A : Type 0} → List (Object J) × Result E A → Type 0
  Kept (s, ok a) = All IsUntried s
  Kept (s, err e) = Unit {0}

  abbrev Keeps : {A : Type 0} → M J A → Type 0
  Keeps m = (s : List (Object J)) → All IsUntried s → Kept (m s)

  resume-Kept :
      {A B : Type 0} (f : A → M J B) (p : List (Object J) × Result Failure A)
      → ((a : A) → Keeps (f a))
      → Kept p
      → Kept (resume f p)
  resume-Kept f (s, ok a) k h = k a s h
  resume-Kept f (s, err e) k h = tt

  delete-Keeps : (e : EventId) (k : ErrorKind) → Keeps (query (delete_query e) k)
  unfolding delete_query
  delete-Keeps e k s h = elim (Option-cases (find (has_event e) s)) [
    | inl n ↦ rw (n, delete_query) tt
    | inr (o, n) ↦ rw (n, delete_query) (All-delete_where _ _ s h)
  ]

  insert-Keeps : (o : Object J) (k : ErrorKind) → IsUntried o → Keeps (query (insert_query o) k)
  unfolding insert_query
  insert-Keeps o k u s h = elim (Option-cases (find (has_event (event_id o)) s)) [
    | inl n ↦ rw (n, insert_query) (All-append _ s (o ∷ []) h (u, tt))
    | inr (x, n) ↦ rw (n, insert_query) tt
  ]

  pure-Keeps : {A : Type 0} (a : A) → Keeps (pure a)
  pure-Keeps a s h = h

  or_error-Keeps : {A E : Type 0} (r : Result E A) (k : ErrorKind) → Keeps (or_error r k)
  or_error-Keeps (ok a) k s h = h
  or_error-Keeps (err e) k s h = tt

  collect-Kept :
      {A : Type 0} (rest : List (Object J) → List (Object J) × Errors)
      (p : List (Object J) × Result Failure A)
      → ((s : List (Object J)) → All IsUntried s → Kept (finish_batch (rest s)))
      → Kept p
      → Kept (finish_batch (collect rest p))
  collect-Kept rest (s, ok a) k h = k s h
  collect-Kept rest (s, err (error x)) k h = tt
  collect-Kept rest (s, err panicked) k h = tt

module _ {T J : Type 0} (env : Env T J) where
  load-Keeps : (e : EventId) → Keeps (load_single_record env e)
  unfolding load_single_record
  load-Keeps e s h = ground (arith, h)

  some_event-Keeps : (e : EventId) → Keeps {J = J} {A = Option EventId} (pure (some e))
  some_event-Keeps e s h = h

  store_next-Keeps : (k : ℕ) (o : Object J) (json : J) → Keeps (store_next env k o json)
  unfolding store_next inserted
  store_next-Keeps k o json s h =
      resume-Kept (λ e. pure {A = Option EventId} (some e)) _ some_event-Keeps
        (insert-Keeps
          (inserted (env.next_id k) env.now o.entity_type json o.delivery_deadline_at o.operation)
          insert_stage_failed (refl, refl) s h)

  encode_next-Keeps : (k : ℕ) (next : T) (o : Object J) → Keeps (encode_next env k next o)
  unfolding encode_next
  encode_next-Keeps k next o s h =
      resume-Kept (store_next env k o) _ (store_next-Keeps k o)
        (or_error-Keeps (ok_or (env.encode next) tt) serialization_failed s h)

  next_stage_arm-Keeps : (k : ℕ) (o : Object J) (next : T) → Keeps (next_stage_arm env k o next)
  unfolding next_stage_arm
  next_stage_arm-Keeps k o next s h =
      resume-Kept (encode_next env k next) _ (encode_next-Keeps k next)
        (delete-Keeps (event_id o) delete_stage_failed s h)

  no_stage-Keeps : (o : Object J) → Keeps (no_stage env o)
  unfolding no_stage
  no_stage-Keeps o s h = h

  last_stage_arm-Keeps : (o : Object J) → Keeps (last_stage_arm env o)
  unfolding last_stage_arm
  last_stage_arm-Keeps o s h =
      resume-Kept (no_stage env) _ no_stage-Keeps
        (delete-Keeps (event_id o) delete_stage_failed s h)

  failed_arm-Keeps : (o : Object J) (kind : String) → Keeps (failed_arm env o kind)
  unfolding failed_arm
  failed_arm-Keeps o kind s h = ground arith

  outcome_arm-Keeps :
      (k : ℕ) (o : Object J) (r : Result String (Option T)) → Keeps (outcome_arm env k o r)
  unfolding outcome_arm
  outcome_arm-Keeps k o (ok (some next)) = next_stage_arm-Keeps k o next
  outcome_arm-Keeps k o (ok none) = last_stage_arm-Keeps o
  outcome_arm-Keeps k o (err kind) = failed_arm-Keeps o kind

  handle_record-Keeps : (k : ℕ) (o : Object J) (stage : T) → Keeps (handle_record env k o stage)
  unfolding handle_record
  handle_record-Keeps k o stage = outcome_arm-Keeps k o (env.handle k stage (event_id o))

  handle_loaded-Keeps : (k : ℕ) (l : Object J × T) → Keeps (handle_loaded env k l)
  unfolding handle_loaded
  handle_loaded-Keeps k (o, stage) = handle_record-Keeps k o stage

  single_body-Keeps : (k : ℕ) (e : EventId) → Keeps (single_body env k e)
  unfolding single_body
  single_body-Keeps k e s h =
      resume-Kept (handle_loaded env k) _ (handle_loaded-Keeps k) (load-Keeps e s h)

  -- A batch whose records all pass keeps the rows untried.
  handle_records-Kept :
      (k : ℕ) (rs : List (Object J × T)) (s : List (Object J))
      → All IsUntried s
      → Kept (finish_batch (handle_records env k rs s))
  unfolding handle_records
  handle_records-Kept k [] s h = h
  handle_records-Kept k ((o, stage) ∷ rs) s h =
      collect-Kept (handle_records env (k + 1) rs) (handle_record env k o stage s)
        (handle_records-Kept (k + 1) rs) (handle_record-Keeps k o stage s h)

  after_load-Kept :
      (k : ℕ) (p : List (Object J) × Result Failure (List (Object J × T)))
      → Kept p
      → Kept (after_load env k p)
  after_load-Kept k (s, err e) h = tt
  after_load-Kept k (s, ok []) h = h
  after_load-Kept k (s, ok (r ∷ rs)) h = handle_records-Kept k (r ∷ rs) s h

  load_multiple-Keeps : (n : ℕ) → Keeps (load_multiple_records env n)
  unfolding load_multiple_records
  load_multiple-Keeps n s h = ground (arith, h)

  multiple_body-Kept :
      (k n : ℕ) (s : List (Object J)) → All IsUntried s → Kept (multiple_body env k n s)
  unfolding multiple_body
  multiple_body-Kept k n s h = after_load-Kept k _ (load_multiple-Keeps n s h)

settled-IsUntried :
    {J E A : Type 0} (s : List (Object J)) (p : List (Object J) × Result E A)
    → All IsUntried s
    → Kept p
    → All IsUntried (settled s p).0
settled-IsUntried s (t, ok a) h k = k
settled-IsUntried s (t, err e) h k = h

abbrev pub RowsOf : {J : Type 0} → Option (List (Object J) × Result Failure (Unit {0})) → Type 0
RowsOf none = Unit
RowsOf (some (s, r)) = All IsUntried s

after_stage-RowsOf :
    {J : Type 0}
    (again : EventId → List (Object J) → Option (List (Object J) × Result Failure (Unit {0})))
    (p : List (Object J) × Result Failure (Option EventId))
    → All IsUntried p.0
    → ((e : EventId) (s : List (Object J)) → All IsUntried s → RowsOf (again e s))
    → RowsOf (after_stage again p)
after_stage-RowsOf again (s, err x) h k = h
after_stage-RowsOf again (s, ok none) h k = h
after_stage-RowsOf again (s, ok (some e)) h k = k e s h

module _ {T J : Type 0} (env : Env T J) (db : Transactional (List (Object J))) where
  -- Failed tries are never counted: if no row of the outbox has a try recorded, none has after
  -- `run_multiple_stages`, whichever handlers failed in it.
  pub run_multiple_stages-IsUntried :
      (k records_per_try : ℕ) (s : List (Object J))
      → All IsUntried s
      → All IsUntried (run_multiple_stages env db k records_per_try s).0
  unfolding run_multiple_stages
  run_multiple_stages-IsUntried k n s h = elim (Bool-cases (env.acquired k)) [
    | inl a ↦
        rw
          (
            a,
            run_multiple_stages,
            transaction-settled db Errors MultipleStagePipelineResult (multiple_body env k n) s,
          )
          (settled-IsUntried s (multiple_body env k n s) h (multiple_body-Kept env k n s h))
    | inr a ↦ rw (a, run_multiple_stages) h
  ]

  -- If no row of the outbox has a try recorded, none has after `run_single_stage`, whenever it
  -- returns and whichever handlers failed in it.
  run_single_stage-IsUntried :
      (fuel k : ℕ) (e : EventId) (s : List (Object J))
      → All IsUntried s
      → RowsOf (run_single_stage env db fuel k e s)
  unfolding run_single_stage
  run_single_stage-IsUntried zero k e s h = tt
  run_single_stage-IsUntried (suc fuel) k e s h = elim (Bool-cases (env.acquired k)) [
    | inl a ↦
        rw
          (
            a,
            run_single_stage,
            transaction-settled db Failure (Option EventId) (single_body env k e) s,
          )
          (after_stage-RowsOf _ _
            (settled-IsUntried s (single_body env k e s) h (single_body-Keeps env k e s h))
            (run_single_stage-IsUntried fuel (k + 1)))
    | inr a ↦ rw (a, run_single_stage) h
  ]
