-- ===== src/Outbox/Pipeline.antt =====
-- src/outbox/pipeline/sqlx.rs: `Pipeline` over the rows of the outbox.
-- `T` is the type of stages, `J` their JSON. What the code under `src/` does not decide stands in
-- `Env`, and sqlx's `Connection::transaction` in `Transactional`.
pub mod Record
pub mod Rollback
pub mod Termination
pub mod Untried
use Prim.Native.String.{String}
use conferences.Base.{
  ℕ, zero, suc, ◌+◌, ◌≡◌, refl, List, [], ◌∷◌, ◌++◌, Option, none, some, Bool, true, false,
  if◌then◌else◌, Result, ok, err, map_err, ok_or,
}
use conferences.Outbox.{
  EventId, Object, SqlError, event_id, list_query, find_query, inserted, insert_query, update_query,
  delete_query,
}
use conferences.Outbox.Backoff.{next_delivery_deadline_at}

-- `outbox::error::ErrorKind`.
pub data ErrorKind : Type 0 where
  db_conn_acquisition_failed db_query_failed load_stages_failed : ErrorKind
  serialization_failed deserialization_failed : ErrorKind
  delete_stage_failed update_stage_failed insert_stage_failed : ErrorKind
  stage_error : String → ErrorKind

-- An error by its kind, or a panic on arithmetic overflow.
pub data Failure : Type 0 where
  error : ErrorKind → Failure
  panicked : Failure

-- `handle k` is the `k`-th call of the stage's handler: `ok none` when no stage follows, and the
-- kind of the error otherwise. `next_id k` is the `k`-th number drawn from `outbox_id_seq`,
-- `acquired k` says whether the pool gives a connection at the `k`-th time it is asked.
pub record Env (T J : Type 0) : Type 0 where
  pub decode : J → Option T
  pub encode : T → Option J
  pub handle : ℕ → T → EventId → Result String (Option T)
  pub locked : Object J → Bool
  pub acquired : ℕ → Bool
  pub next_id : ℕ → ℕ
  pub now : ℕ
  pub try_wake_interval : ℕ
  pub max_delivery_interval : ℕ

-- `Connection::transaction`: it commits what a body that returns has written, and rolls back what
-- a body that fails has written.
pub record Transactional (S : Type 0) : Type 1 where
  pub transaction : (E A : Type 0) → (S → S × Result E A) → S → S × Result E A
  pub commits :
      (E A : Type 0) (f : S → S × Result E A) (s t : S) (a : A)
      → f s ≡ (t, ok a)
      → transaction E A f s ≡ (t, ok a)
  pub rolls_back :
      (E A : Type 0) (f : S → S × Result E A) (s t : S) (e : E)
      → f s ≡ (t, err e)
      → transaction E A f s ≡ (s, err e)

-- Code that reads and writes the rows; what it wrote before a failure is kept in the state.
abbrev pub M : Type 0 → Type 0 → Type 0
M J A = List (Object J) → List (Object J) × Result Failure A

abbrev pub resume :
    {J A B : Type 0}
    → (A → M J B)
    → List (Object J) × Result Failure A
    → List (Object J) × Result Failure B
resume f (s, ok a) = f a s
resume f (s, err e) = (s, err e)

infixl 5 ◌>>=◌
abbrev pub ◌>>=◌ : {J A B : Type 0} → M J A → (A → M J B) → M J B
◌>>=◌ m f s = resume f (m s)

abbrev pub pure : {J A : Type 0} → A → M J A
pure a s = (s, ok a)

abbrev pub fail : {J A : Type 0} → Failure → M J A
fail e s = (s, err e)

-- `.error(kind)`.
abbrev pub or_error : {J A E : Type 0} → Result E A → ErrorKind → M J A
or_error (ok a) k s = (s, ok a)
or_error (err e) k s = (s, err (error k))

abbrev pub relabel :
    {J A E : Type 0} → ErrorKind → List (Object J) × Result E A → List (Object J) × Result Failure A
relabel k (s, ok a) = (s, ok a)
relabel k (s, err e) = (s, err (error k))

abbrev pub query :
    {J A E : Type 0} → (List (Object J) → List (Object J) × Result E A) → ErrorKind → M J A
query q k s = relabel k (q s)

module _ {T J : Type 0} (env : Env T J) where
  unfoldable pub load_single_record : EventId → M J (Object J × T)
  load_single_record e s = elim (find_query env.locked e s) [
    | err _ ↦ (s, err (error db_query_failed))
    | ok record_ ↦ elim (env.decode record_.stage) [
      | none ↦ (s, err (error deserialization_failed))
      | some stage ↦ (s, ok (record_, stage))
    ]
  ]

  -- The loop of `load_multiple_records`.
  unfoldable pub decode_all : List (Object J) → Option (List (Object J × T))
  decode_all [] = some []
  decode_all (o ∷ os) =
      let rest = decode_all os in
      elim (env.decode o.stage) [
        | none ↦ none
        | some stage ↦ elim rest [ none ↦ none | some rs ↦ some ((o, stage) ∷ rs) ]
      ]

  unfoldable pub load_multiple_records : ℕ → M J (List (Object J × T))
  unfolding decode_all
  load_multiple_records records_per_try s =
      elim (decode_all (list_query env.locked env.now records_per_try s)) [
        | none ↦ (s, err (error deserialization_failed))
        | some rs ↦ (s, ok rs)
      ]

  -- The insert of the next stage, in the place of the deleted row.
  unfoldable pub store_next : ℕ → Object J → J → M J (Option EventId)
  store_next k deleted json = do
    e ←
        query
          (insert_query (
            inserted (env.next_id k) env.now deleted.entity_type json deleted.delivery_deadline_at
              deleted.operation))
          insert_stage_failed
    pure (some e)

  unfoldable pub encode_next : ℕ → T → Object J → M J (Option EventId)
  unfolding store_next
  encode_next k next deleted = do
    json ← or_error (ok_or (env.encode next) tt) serialization_failed
    store_next k deleted json

  -- The three arms of the `match` of `handle_record`, in its `k`-th run.
  unfoldable pub next_stage_arm : ℕ → Object J → T → M J (Option EventId)
  unfolding encode_next
  next_stage_arm k o next = do
    deleted ← query (delete_query (event_id o)) delete_stage_failed
    encode_next k next deleted

  unfoldable pub no_stage : Object J → M J (Option EventId)
  no_stage deleted s = (s, ok none)

  unfoldable pub last_stage_arm : Object J → M J (Option EventId)
  unfolding no_stage
  last_stage_arm o = do
    deleted ← query (delete_query (event_id o)) delete_stage_failed
    no_stage deleted

  unfoldable pub failed_arm : Object J → String → M J (Option EventId)
  failed_arm o kind s =
      elim (next_delivery_deadline_at o.retry_count o.delivery_deadline_at env.try_wake_interval
        env.max_delivery_interval) [
          | none ↦ (s, err panicked)
          | some deadline ↦
              (query (update_query (event_id o) deadline kind) update_stage_failed >>= λ _.
              fail (error (stage_error kind)))
                s
        ]

  unfoldable pub outcome_arm : ℕ → Object J → Result String (Option T) → M J (Option EventId)
  unfolding next_stage_arm last_stage_arm failed_arm
  outcome_arm k o (ok (some next)) = next_stage_arm k o next
  outcome_arm k o (ok none) = last_stage_arm o
  outcome_arm k o (err kind) = failed_arm o kind

  unfoldable pub handle_record : ℕ → Object J → T → M J (Option EventId)
  unfolding outcome_arm
  handle_record k o stage = outcome_arm k o (env.handle k stage (event_id o))

  unfoldable pub handle_loaded : ℕ → Object J × T → M J (Option EventId)
  unfolding handle_record
  handle_loaded k (o, stage) = handle_record k o stage

  -- The body of the transaction of `run_single_stage`.
  unfoldable pub single_body : ℕ → EventId → M J (Option EventId)
  unfolding load_single_record handle_loaded
  single_body k e = do loaded ← load_single_record e; handle_loaded k loaded

-- `PipelineErrors`.
abbrev pub Errors : Type 0
Errors = List Failure

pub data MultipleStagePipelineResult : Type 0 where
  continue done : MultipleStagePipelineResult

abbrev pub finish_batch :
    {J : Type 0}
    → List (Object J) × Errors
    → List (Object J) × Result Errors MultipleStagePipelineResult
finish_batch (s, []) = (s, ok continue)
finish_batch (s, e ∷ es) = (s, err (e ∷ es))

-- The errors of a record's run come before those of the records after it. A panic leaves the batch at once,
-- and its transaction with it.
abbrev pub collect :
    {J A : Type 0}
    → (List (Object J) → List (Object J) × Errors)
    → List (Object J) × Result Failure A
    → List (Object J) × Errors
collect rest (s, ok a) = rest s
collect rest (s, err (error k)) = let (s', es) = rest s in (s', error k ∷ es)
collect rest (s, err panicked) = (s, panicked ∷ [])

-- What follows the transaction in the loop of `run_single_stage`.
abbrev pub after_stage :
    {J : Type 0}
    → (EventId → List (Object J) → Option (List (Object J) × Result Failure (Unit {0})))
    → List (Object J) × Result Failure (Option EventId)
    → Option (List (Object J) × Result Failure (Unit {0}))
after_stage again (s, err x) = some (s, err x)
after_stage again (s, ok none) = some (s, ok tt)
after_stage again (s, ok (some e)) = again e s

module _ {T J : Type 0} (env : Env T J) where
  -- The `for` loop of `run_multiple_stages`: the errors of the records, in order.
  unfoldable pub handle_records :
      ℕ → List (Object J × T) → List (Object J) → List (Object J) × Errors
  handle_records k [] s = (s, [])
  handle_records k ((o, stage) ∷ rs) s =
      collect (handle_records (k + 1) rs) (handle_record env k o stage s)

  abbrev pub after_load :
      ℕ
      → List (Object J) × Result Failure (List (Object J × T))
      → List (Object J) × Result Errors MultipleStagePipelineResult
  after_load k (s, err e) = (s, err (e ∷ []))
  after_load k (s, ok []) = (s, ok done)
  after_load k (s, ok (r ∷ rs)) = finish_batch (handle_records k (r ∷ rs) s)

  -- The body of the transaction of `run_multiple_stages`.
  unfoldable pub multiple_body :
      ℕ → ℕ → List (Object J) → List (Object J) × Result Errors MultipleStagePipelineResult
  unfolding load_multiple_records handle_records
  multiple_body k records_per_try s = after_load k (load_multiple_records env records_per_try s)

-- `run_single_stage` and `run_multiple_stages` over the database's transactions.
module _ {T J : Type 0} (env : Env T J) (db : Transactional (List (Object J))) where
  -- The loop of `run_single_stage` on fuel; the outer `none` means that the fuel ran out.
  unfoldable pub run_single_stage :
      ℕ → ℕ → EventId → List (Object J) → Option (List (Object J) × Result Failure (Unit {0}))
  run_single_stage zero k e s = none
  run_single_stage (suc fuel) k e s = elim (env.acquired k) [
    | false ↦ some (s, err (error db_conn_acquisition_failed))
    | true ↦
        after_stage (run_single_stage fuel (k + 1))
          (db.transaction Failure (Option EventId) (single_body env k e) s)
  ]

  unfoldable pub run_multiple_stages :
      ℕ → ℕ → List (Object J) → List (Object J) × Result Errors MultipleStagePipelineResult
  run_multiple_stages k records_per_try s = elim (env.acquired k) [
    | false ↦ (s, err (error db_conn_acquisition_failed ∷ []))
    | true ↦
        db.transaction Errors MultipleStagePipelineResult (multiple_body env k records_per_try) s
  ]
