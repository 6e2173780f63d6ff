-- ===== src/Outbox.antt =====
-- src/outbox/db/sqlx.rs: the rows of the table `outbox`, and its five queries. Times are whole seconds.
-- A query that another transaction's row lock hides a row from (`SKIP LOCKED`) takes the test
-- `locked`; `J` is the JSON of a stage.
pub mod Backoff
pub mod Handler
pub mod Pipeline
use text.Mathlib.Text.{◌==◌ as str_eq}
use Prim.Native.String.{String}
use conferences.Base.{
  ℕ, zero, suc, ◌+◌, List, [], ◌∷◌, ◌++◌, Option, none, some, Bool, true, false, not, ◌&&◌,
  if◌then◌else◌, ◌==◌, leb, take, filter, Result, ok, err,
}
use conferences.Base.Table.{find, update_where, delete_where}

-- svc_events' `EventId`, by its three parts.
pub record EventId : Type 0 where
  pub entity_type : String
  pub operation : String
  pub sequence_id : ℕ

pub record Object (J : Type 0) : Type 0 where
  pub id : ℕ
  pub entity_type : String
  pub stage : J
  pub delivery_deadline_at : ℕ
  pub error_kind : Option String
  pub retry_count : ℕ
  pub created_at : ℕ
  pub operation : String

-- What `fetch_one` and a statement may fail with.
pub data SqlError : Type 0 where
  row_not_found unique_violation : SqlError

module _ {J : Type 0} where
  -- `Object::id`.
  unfoldable pub event_id : Object J → EventId
  event_id o = record { entity_type = o.entity_type; operation = o.operation; sequence_id = o.id }

  -- `id = $1 AND entity_type = $2 AND operation = $3`.
  unfoldable pub has_event : EventId → Object J → Bool
  has_event e o =
      o.id == e.sequence_id && str_eq o.entity_type e.entity_type && str_eq o.operation e.operation

  -- `ListQuery::execute`.
  unfoldable pub list_query : (Object J → Bool) → ℕ → ℕ → List (Object J) → List (Object J)
  list_query locked now limit rows =
      take limit (filter (λ o. leb o.delivery_deadline_at now && not (locked o)) rows)

  -- `FindQuery::execute`.
  unfoldable pub find_query :
      (Object J → Bool) → EventId → List (Object J) → Result SqlError (Object J)
  find_query locked e rows = elim (find (λ o. has_event e o && not (locked o)) rows) [
    | some o ↦ ok o
    | none ↦ err row_not_found
  ]

  -- The row that `InsertQuery::execute` writes, under the number drawn from `outbox_id_seq`.
  unfoldable pub inserted : ℕ → ℕ → String → J → ℕ → String → Object J
  inserted seq now entity_type stage delivery_deadline_at operation = record {
    id = seq;
    entity_type = entity_type;
    stage = stage;
    delivery_deadline_at = delivery_deadline_at;
    error_kind = none;
    retry_count = 0;
    created_at = now;
    operation = operation;
  }

  -- `InsertQuery::execute`; the primary key is the event id.
  unfoldable pub insert_query :
      Object J → List (Object J) → List (Object J) × Result SqlError EventId
  insert_query o rows = elim (find (has_event (event_id o)) rows) [
    | some other ↦ (rows, err unique_violation)
    | none ↦ (rows ++ o ∷ [], ok (event_id o))
  ]

  abbrev pub retried : ℕ → String → Object J → Object J
  retried delivery_deadline_at error_kind o = record o {
    delivery_deadline_at = delivery_deadline_at;
    retry_count = o.retry_count + 1;
    error_kind = some error_kind;
  }

  -- `UpdateQuery::execute`.
  unfoldable pub update_query :
      EventId → ℕ → String → List (Object J) → List (Object J) × Result SqlError (Object J)
  update_query e delivery_deadline_at error_kind rows = elim (find (has_event e) rows) [
    | some o ↦ (
      update_where (has_event e) (retried delivery_deadline_at error_kind) rows,
      ok (retried delivery_deadline_at error_kind o),
    )
    | none ↦ (rows, err row_not_found)
  ]

  -- `DeleteQuery::execute`.
  unfoldable pub delete_query :
      EventId → List (Object J) → List (Object J) × Result SqlError (Object J)
  delete_query e rows = elim (find (has_event e) rows) [
    | some o ↦ (delete_where (has_event e) rows, ok o)
    | none ↦ (rows, err row_not_found)
  ]
