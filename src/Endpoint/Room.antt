-- ===== src/Endpoint/Room.antt =====
-- src/app/endpoint/room.rs: creating and reading a room.
pub mod Create
use Prim.Native.String.{String}
use conferences.Base.{
  ℕ, max, List, [], ◌∷◌, ◌++◌, map, Option, none, some, Bool, true, false, not, ◌&&◌, if◌then◌else◌,
  ltb, leb, Result, ok, err, ◌>>=◌, map_err, get_or, or_else,
}
use conferences.AppError.{
  ErrorKind, access_denied, authorization_failed, db_query_failed, invalid_room_time,
  room_time_changing_forbidden,
}
use conferences.Groups.{GroupItem}
use conferences.Groups
use conferences.Db.Rtc.{SharingPolicy, none_policy, shared, owned}
use conferences.Db.Room.{
  Bound, included, excluded, unbounded, Time, Object, RoomBackend, SqlError, to_policy, is_closed,
  InsertQuery, insert_query, UpdateQuery, update_query, set_closed_by,
}
use conferences.Endpoint.Helpers.{
  RoomTimeRequirement, any_time, not_closed_or_unbounded_open, find_room_by_id,
}
use conferences.Endpoint.Handler.{
  AuthzErrorKind, AuthzObject, classrooms, classroom, Action, create_action, read_action,
  update_action, Env, authorized, of_sql, Label, room_create, room_update, room_close, Topic,
  audience_events, room_events, Notification, note, Response, respond,
}

pub record CreateRequest : Type 0 where
  pub time : Time
  pub audience : String
  pub backend : Option RoomBackend
  pub rtc_sharing_policy : Option SharingPolicy
  pub reserve : Option ℕ
  pub tags : Option ℕ
  pub classroom_id : ℕ

-- The policy of the request, else that of its backend, else none.
unfoldable pub requested_policy : CreateRequest → SharingPolicy
unfolding to_policy
requested_policy r =
    get_or none_policy
      (or_else r.rtc_sharing_policy (elim r.backend [ none ↦ none | some b ↦ some (to_policy b) ]))

unfoldable pub new_room : CreateRequest → InsertQuery
unfolding requested_policy
new_room r = record {
  time = r.time;
  audience = r.audience;
  reserve = r.reserve;
  tags = r.tags;
  backend_id = none;
  rtc_sharing_policy = requested_policy r;
  classroom_id = r.classroom_id;
  infinite = false;
}

-- The tables that `create` writes, and the ids that the database gives the new rows.
pub record Tables : Type 0 where
  pub rooms : List Object
  pub groups : List Groups.Object

pub record Ids : Type 0 where
  pub room_id : ℕ
  pub group_id : ℕ

-- `Groups::new(vec![GroupItem::new(0, vec![])])`.
unfoldable pub default_groups : List GroupItem
default_groups = record { number = 0; agents = [] } ∷ []

unfoldable pub create_group : Ids → Object → List Groups.Object → List Groups.Object
unfolding Groups.upsert_query default_groups
create_group ids room groups = elim room.rtc_sharing_policy [
  | owned ↦ Groups.upsert_query ids.group_id room.id default_groups groups
  | _ ↦ groups
]

unfoldable pub after_insert :
    Ids
    → List Groups.Object
    → List Object × Result SqlError Object
    → Tables × Result ErrorKind Response
unfolding create_group
after_insert ids groups (rooms, err e) = (record { rooms = rooms; groups = groups }, err (of_sql e))
after_insert ids groups (rooms, ok room) = (
  record { rooms = rooms; groups = create_group ids room groups },
  ok (respond room (note room_create (audience_events room.audience) room ∷ [])),
)

-- `CreateHandler::handle`.
unfoldable pub create : Env → Ids → ℕ → CreateRequest → Tables → Tables × Result ErrorKind Response
unfolding authorized new_room insert_query after_insert
create env ids agent r t = elim (authorized env agent r.audience classrooms create_action) [
  | err e ↦ (t, err e)
  | ok _ ↦ after_insert ids t.groups (insert_query (new_room r) ids.room_id env.db_now t.rooms)
]

-- `ReadHandler::handle`.
unfoldable pub read : Env → ℕ → ℕ → List Object → Result ErrorKind Response
unfolding find_room_by_id authorized
read env agent id rooms = do
  room ← find_room_by_id id any_time (env.clock 0) rooms
  _ ← authorized env agent room.audience (classroom room.classroom_id) read_action
  ok (respond room [])
