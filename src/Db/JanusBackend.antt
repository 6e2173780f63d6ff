-- ===== src/Db/JanusBackend.antt =====
-- src/db/janus_backend.rs: the media backends. Load.antt beside this file has the queries that
-- distribute rooms over them.
pub mod Capacity
pub mod Choice
pub mod Load
pub mod Reconnect
use Prim.Native.String.{String}
use conferences.Base.{
  ℕ, ◌+◌, List, [], ◌∷◌, Option, none, some, Bool, ◌&&◌, ◌==◌, filter, length, get_or, or_else,
}
use conferences.Base.Table.{find, delete_where, upsert}

pub record Object : Type 0 where
  pub id : ℕ
  pub handle_id : ℕ
  pub session_id : ℕ
  pub created_at : ℕ
  pub capacity : Option ℕ
  pub balancer_capacity : Option ℕ
  pub api_version : String
  pub group : Option String
  pub janus_url : String

-- `JANUS_API_VERSION` of src/backend/janus.
abbrev pub janus_api_version : String
janus_api_version = "v1"

abbrev pub has_id : ℕ → Object → Bool
has_id id o = o.id == id

-- `FindQuery::execute`.
unfoldable pub find_query : List Object → ℕ → Option Object
find_query rows id = find (has_id id) rows

pub record UpsertQuery : Type 0 where
  pub id : ℕ
  pub handle_id : ℕ
  pub session_id : ℕ
  pub capacity : Option ℕ
  pub balancer_capacity : Option ℕ
  pub group : Option String
  pub janus_url : String

-- `UpsertQuery::new`.
unfoldable pub new : ℕ → ℕ → ℕ → String → UpsertQuery
new id handle_id session_id janus_url = record {
  id = id;
  handle_id = handle_id;
  session_id = session_id;
  capacity = none;
  balancer_capacity = none;
  group = none;
  janus_url = janus_url;
}

-- The row of the `INSERT`.
unfoldable pub inserted : UpsertQuery → ℕ → Object
inserted q now = record {
  id = q.id;
  handle_id = q.handle_id;
  session_id = q.session_id;
  created_at = now;
  capacity = q.capacity;
  balancer_capacity = q.balancer_capacity;
  api_version = janus_api_version;
  group = q.group;
  janus_url = q.janus_url;
}

-- The `SET` of the conflict.
unfoldable pub updated : UpsertQuery → Object → Object
updated q o = record o {
  handle_id = q.handle_id;
  session_id = q.session_id;
  capacity = or_else q.capacity o.capacity;
  balancer_capacity = or_else q.balancer_capacity o.balancer_capacity;
  api_version = janus_api_version;
  group = or_else q.group o.group;
  janus_url = q.janus_url;
}

-- `UpsertQuery::execute`, at the time of the database.
unfoldable pub upsert_query : UpsertQuery → ℕ → List Object → List Object
unfolding inserted updated
upsert_query q now = upsert (has_id q.id) (updated q) (inserted q now)

unfoldable pub is_deleted : ℕ → ℕ → ℕ → Object → Bool
is_deleted id session_id handle_id o =
    o.id == id && o.session_id == session_id && o.handle_id == handle_id

-- `DeleteQuery::execute`, and the rows affected.
unfoldable pub delete_query : ℕ → ℕ → ℕ → List Object → List Object × ℕ
unfolding is_deleted
delete_query id session_id handle_id rows = (
  delete_where (is_deleted id session_id handle_id) rows,
  length (filter (is_deleted id session_id handle_id) rows),
)

-- `total_capacity`: the sum passes over the rows without a capacity.
unfoldable pub total_capacity : List Object → ℕ
total_capacity [] = 0
total_capacity (o ∷ os) = get_or 0 o.capacity + total_capacity os

-- `count`.
unfoldable pub count : List Object → ℕ
count rows = length rows
