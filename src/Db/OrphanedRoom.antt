-- ===== src/Db/OrphanedRoom.antt =====
-- src/db/orphaned_room.rs: the rooms whose host has left, and since when.
use conferences.Base.{ℕ, List, map, Option, Bool, ◌==◌, ltb, any, filter}
use conferences.Base.Table.{delete_where, upsert}
use conferences.Db.Room

pub record Object : Type 0 where
  pub id : ℕ
  pub host_left_at : ℕ

abbrev pub has_id : ℕ → Object → Bool
has_id id o = o.id == id

-- `upsert_room`.
unfoldable pub upsert_room : ℕ → ℕ → List Object → List Object
upsert_room id host_left_at =
    upsert (has_id id) (λ o. record o { host_left_at = host_left_at })
      (record { id = id; host_left_at = host_left_at })

-- The left join of `get_timed_out`.
abbrev pub with_room : List Room.Object → Object → Object × Option Room.Object
with_room rooms o = (o, Room.find_query o.id rooms)

-- `get_timed_out`.
unfoldable pub get_timed_out :
    ℕ → List Room.Object → List Object → List (Object × Option Room.Object)
get_timed_out load_till rooms rows =
    map (with_room rooms) (filter (λ o. ltb o.host_left_at load_till) rows)

-- `remove_rooms`.
unfoldable pub remove_rooms : List ℕ → List Object → List Object
remove_rooms ids = delete_where (λ o. any (λ id. o.id == id) ids)

-- `remove_room`.
unfoldable pub remove_room : ℕ → List Object → List Object
remove_room id = delete_where (has_id id)
