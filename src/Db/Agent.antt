-- ===== src/Db/Agent.antt =====
-- src/db/agent.rs: who has entered which room. An agent enters with `insert_query`, and counts as
-- present once `update_query` has made the row ready.
use conferences.Base.{
  ℕ, List, [], ◌∷◌, Option, none, some, Bool, true, false, ◌&&◌, if◌then◌else◌, ◌==◌, ltb, leb,
  filter, Result, ok, err,
}
use conferences.Base.Table.{find, update_where, upsert}
use conferences.Db.Rtc.{null_or, offset_by, limit_to}

pub data Status : Type 0 where
  in_progress ready : Status

pub record Object : Type 0 where
  pub id : ℕ
  pub agent_id : ℕ
  pub room_id : ℕ
  pub created_at : ℕ
  pub status : Status

unfoldable pub has_status : Status → Object → Bool
has_status ready o = elim o.status [ ready ↦ true | in_progress ↦ false ]
has_status in_progress o = elim o.status [ ready ↦ false | in_progress ↦ true ]

pub record ListQuery : Type 0 where
  pub agent_id : Option ℕ
  pub room_id : Option ℕ
  pub status : Option Status
  pub offset : Option ℕ
  pub limit : Option ℕ

abbrev status_or_null : Option Status → Object → Bool
status_or_null none o = true
status_or_null (some s) o = has_status s o

-- The `WHERE` clause of `ListQuery::execute`.
unfoldable pub is_listed : ListQuery → Object → Bool
unfolding has_status
is_listed q o =
    has_status ready o
    && null_or q.agent_id (λ a. o.agent_id == a)
    && null_or q.room_id (λ r. o.room_id == r)
    && status_or_null q.status o

-- `ORDER BY created_at DESC`; rows of one time stay in the order of the scan.
unfoldable pub insert_by_time_desc : Object → List Object → List Object
insert_by_time_desc o [] = o ∷ []
insert_by_time_desc o (x ∷ xs) =
    let rest = insert_by_time_desc o xs in
    if leb x.created_at o.created_at then o ∷ x ∷ xs else x ∷ rest

unfoldable pub order_by_time_desc : List Object → List Object
unfolding insert_by_time_desc
order_by_time_desc [] = []
order_by_time_desc (x ∷ xs) = insert_by_time_desc x (order_by_time_desc xs)

-- `ListQuery::execute`.
unfoldable pub list_query : ListQuery → List Object → List Object
unfolding is_listed order_by_time_desc
list_query q rows =
    limit_to q.limit (offset_by q.offset (order_by_time_desc (filter (is_listed q) rows)))

-- The unique key of the table.
abbrev pub has_key : ℕ → ℕ → Object → Bool
has_key agent_id room_id o = o.agent_id == agent_id && o.room_id == room_id

abbrev pub set_status : Status → Object → Object
set_status s o = record o { status = s }

-- `InsertQuery::execute`, with the id and the time of a new row.
unfoldable pub insert_query : ℕ → ℕ → ℕ → ℕ → List Object → List Object
insert_query id now agent_id room_id =
    upsert (has_key agent_id room_id) (set_status in_progress) (record {
      id = id;
      agent_id = agent_id;
      room_id = room_id;
      created_at = now;
      status = in_progress;
    })

-- A column that must not be null.
pub data UpdateError : Type 0 where
  not_null_violation : UpdateError

abbrev found_with : Status → Option Object → Option Object
found_with s none = none
found_with s (some o) = some (set_status s o)

-- `UpdateQuery::execute`.
unfoldable pub update_query :
    ℕ → ℕ → Option Status → List Object → List Object × Result UpdateError (Option Object)
update_query agent_id room_id (some s) rows = (
  update_where (has_key agent_id room_id) (set_status s) rows,
  ok (found_with s (find (has_key agent_id room_id) rows)),
)
update_query agent_id room_id none rows = elim (find (has_key agent_id room_id) rows) [
  | none ↦ (rows, ok none)
  | some o ↦ (rows, err not_null_violation)
]

-- The `WHERE` clauses of `DeleteQuery::execute` and `CleanupQuery::execute`.
unfoldable pub is_deleted : Option ℕ → Option ℕ → Object → Bool
is_deleted agent_id room_id o =
    null_or agent_id (λ a. o.agent_id == a) && null_or room_id (λ r. o.room_id == r)

unfoldable pub is_old : ℕ → Object → Bool
is_old created_at o = ltb o.created_at created_at
