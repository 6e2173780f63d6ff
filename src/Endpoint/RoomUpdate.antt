-- ===== src/Endpoint/RoomUpdate.antt =====
-- src/app/endpoint/room.rs: updating and closing a room.
pub mod Schedule
mod Prepared
pub mod Endless
use Prim.Native.String.{String}
use conferences.Base.{
  ℕ, max, List, [], ◌∷◌, ◌++◌, map, Option, none, some, Bool, true, false, not, ◌&&◌, if◌then◌else◌,
  ltb, leb, Result, ok, err, ◌>>=◌, map_err, get_or, or_else,
}
use conferences.AppError.{
  ErrorKind, access_denied, authorization_failed, db_query_failed, invalid_room_time,
  room_time_changing_forbidden,
}
use conferences.Groups.{GroupItem}
use conferences.Groups
use conferences.Db.Rtc.{SharingPolicy, none_policy, shared, owned}
use conferences.Db.Room.{
  Bound, included, excluded, unbounded, Time, Object, RoomBackend, SqlError, to_policy, is_closed,
  InsertQuery, insert_query, UpdateQuery, update_query, set_closed_by,
}
use conferences.Endpoint.Helpers.{
  RoomTimeRequirement, any_time, not_closed_or_unbounded_open, find_room_by_id,
}
use conferences.Endpoint.Handler.{
  AuthzErrorKind, AuthzObject, classrooms, classroom, Action, create_action, read_action,
  update_action, Env, authorized, of_sql, Label, room_create, room_update, room_close, Topic,
  audience_events, room_events, Notification, note, Response, respond,
}

pub record UpdateRequest : Type 0 where
  pub id : ℕ
  pub time : Option Time
  pub reserve : Option (Option ℕ)
  pub tags : Option ℕ
  pub classroom_id : Option ℕ
  pub host : Option ℕ

unfoldable pub time_requirement : Option Time → RoomTimeRequirement
time_requirement none = any_time
time_requirement (some t) = not_closed_or_unbounded_open

abbrev pub map_ok : (Time → Option Time) → Result ErrorKind Time → Result ErrorKind (Option Time)
map_ok f (ok t) = ok (f t)
map_ok f (err e) = err e

-- The `match` that refuses an invalid time.
unfoldable pub is_valid : Bound → Bound → Bool
is_valid (included o) (excluded c) = ltb o c
is_valid (included o) unbounded = true
is_valid _ _ = false

unfoldable pub is_excluded : Bound → Bool
is_excluded (excluded c) = true
is_excluded _ = false

-- The new time of a room that closes in the future.
unfoldable pub move_closing : (ℕ → ℕ) → ℕ → Bound → Result ErrorKind Time
move_closing clock o (excluded nc) =
    ok (record { start = included o; end = excluded (max nc (clock 3)) })
move_closing clock o _ = err room_time_changing_forbidden

-- The `match` on the time of the room.
unfoldable pub reschedule : (ℕ → ℕ) → Bool → Bound → Bound → Time → Result ErrorKind Time
unfolding is_excluded move_closing
reschedule clock infinite start unbounded t =
    if is_excluded t.end && infinite then err room_time_changing_forbidden else ok t
reschedule clock infinite (included o) (excluded c) t =
    if ltb (clock 2) c then move_closing clock o t.end else err room_time_changing_forbidden
reschedule clock infinite _ _ t = err room_time_changing_forbidden

unfoldable pub new_time : (ℕ → ℕ) → Object → Option Time → Result ErrorKind (Option Time)
unfolding is_valid reschedule
new_time clock room none = ok none
new_time clock room (some t) =
    if is_valid t.start t.end
    then map_ok some (reschedule clock room.infinite room.time.start room.time.end t)
    else err invalid_room_time

unfoldable pub to_query : UpdateRequest → Option Time → UpdateQuery
to_query r time = record {
  time = time;
  reserve = r.reserve;
  tags = r.tags;
  backend_id = none;
  classroom_id = r.classroom_id;
  host = r.host;
  timed_out = none;
}

abbrev pub close_notes : Object → List Notification
close_notes room =
    note room_close (room_events room.id) room
    ∷ note room_close (audience_events room.audience) room
    ∷ []

abbrev pub update_note : Object → Notification
update_note room = note room_update (audience_events room.audience) room

-- The test before the notifications of a closed room, at the reading 4 of the clock.
unfoldable pub closes : (ℕ → ℕ) → Bool → Bound → Bool
closes clock room_was_open (excluded closed_at) = room_was_open && leb closed_at (clock 4)
closes clock room_was_open _ = false

-- The response and what `set_closed_by` gives.
unfoldable pub after_close :
    Response → List Object × Result SqlError Object → List Object × Result ErrorKind Response
after_close response (rooms, err e) = (rooms, err (of_sql e))
after_close response (rooms, ok room) =
    (rooms, ok (respond response.room (response.notifications ++ close_notes room)))

-- From the response on.
unfoldable pub after_update :
    Env → ℕ → Bool → List Object × Result SqlError Object → List Object × Result ErrorKind Response
unfolding closes after_close set_closed_by
after_update env agent room_was_open (rooms, err e) = (rooms, err (of_sql e))
after_update env agent room_was_open (rooms, ok room) =
    let response = respond room (update_note room ∷ []) in
    if closes env.clock room_was_open room.time.end
    then after_close response (set_closed_by room.id agent env.db_now rooms)
    else (rooms, ok response)

-- `UpdateHandler::handle` down to the new time: nothing is written by then.
unfoldable pub prepare_update :
    Env → ℕ → UpdateRequest → List Object → Result ErrorKind (Object × Option Time)
unfolding find_room_by_id time_requirement authorized new_time
prepare_update env agent r rooms = do
  room ← find_room_by_id r.id (time_requirement r.time) (env.clock 0) rooms
  _ ← authorized env agent room.audience (classroom room.classroom_id) update_action
  time ← new_time env.clock room r.time
  ok (room, time)

unfoldable pub write_update :
    Env
    → ℕ
    → UpdateRequest
    → List Object
    → Result ErrorKind (Object × Option Time)
    → List Object × Result ErrorKind Response
unfolding to_query update_query after_update is_closed
write_update env agent r rooms (err e) = (rooms, err e)
write_update env agent r rooms (ok (room, time)) =
    after_update env agent (not (is_closed (env.clock 1) room))
      (update_query (to_query r time) room.id rooms)

-- `UpdateHandler::handle`.
unfoldable pub update :
    Env → ℕ → UpdateRequest → List Object → List Object × Result ErrorKind Response
unfolding prepare_update write_update
update env agent r rooms = write_update env agent r rooms (prepare_update env agent r rooms)

-- `CloseHandler::handle` down to the write.
unfoldable pub prepare_close : Env → ℕ → ℕ → List Object → Result ErrorKind Object
unfolding find_room_by_id authorized
prepare_close env agent id rooms = do
  room ← find_room_by_id id not_closed_or_unbounded_open (env.clock 0) rooms
  room ← if room.infinite then err room_time_changing_forbidden else ok room
  _ ← authorized env agent room.audience (classroom room.classroom_id) update_action
  ok room

unfoldable pub respond_closed :
    List Object × Result SqlError Object → List Object × Result ErrorKind Response
respond_closed (rooms, err e) = (rooms, err (of_sql e))
respond_closed (rooms, ok room) = (rooms, ok (respond room (update_note room ∷ close_notes room)))

-- `CloseHandler::handle`.
unfoldable pub close : Env → ℕ → ℕ → List Object → List Object × Result ErrorKind Response
unfolding prepare_close set_closed_by respond_closed
close env agent id rooms = elim (prepare_close env agent id rooms) [
  | err e ↦ (rooms, err e)
  | ok room ↦ respond_closed (set_closed_by room.id agent env.db_now rooms)
]
