-- ===== src/Endpoint/Helpers.antt =====
-- src/app/endpoint/helpers.rs: a room that has to be there, and open enough for the request.
pub mod Requirements
use conferences.Base.{
  ℕ, List, [], ◌∷◌, Option, none, some, Bool, true, false, if◌then◌else◌, ltb, leb, Result, ok, err,
  ◌>>=◌, ok_or,
}
use conferences.AppError.{ErrorKind, room_not_found, room_closed, agent_not_entered_the_room}
use conferences.Db.Agent
use conferences.Db.Rtc
use conferences.Db.Room.{
  Bound, included, excluded, unbounded, Time, Object, bound_value, find_query, find_by_rtc_id_query,
}

pub data RoomTimeRequirement : Type 0 where
  any_time not_closed not_closed_or_unbounded_open opened : RoomTimeRequirement

-- `Bound::Included(dt) | Bound::Excluded(dt) if dt < now`.
unfoldable pub passed : ℕ → Bound → Bool
unfolding bound_value
passed now b = elim (bound_value b) [ none ↦ false | some dt ↦ ltb dt now ]

abbrev room_unless : Bool → Object → Result ErrorKind Object
room_unless true room = err room_closed
room_unless false room = ok room

-- The first `match` of the requirement `Open`.
unfoldable pub not_yet : ℕ → Bound → Bool
not_yet now unbounded = true
not_yet now (included dt) = leb now dt
not_yet now (excluded dt) = leb now dt

unfoldable pub is_unbounded : Bound → Bool
is_unbounded unbounded = true
is_unbounded _ = false

-- The `match` of `find_room`.
unfoldable pub check_time : RoomTimeRequirement → ℕ → Object → Result ErrorKind Object
unfolding passed not_yet is_unbounded
check_time any_time now room = ok room
check_time not_closed now room =
    if is_unbounded room.time.start
    then err room_closed
    else room_unless (passed now room.time.end) room
check_time not_closed_or_unbounded_open now room = room_unless (passed now room.time.end) room
check_time opened now room =
    if not_yet now room.time.start
    then err room_closed
    else room_unless (passed now room.time.end) room

unfoldable pub find_room : Option Object → RoomTimeRequirement → ℕ → Result ErrorKind Object
unfolding check_time
find_room found requirement now = do
  room ← ok_or found room_not_found
  check_time requirement now room

unfoldable pub find_room_by_id : ℕ → RoomTimeRequirement → ℕ → List Object → Result ErrorKind Object
unfolding find_room find_query
find_room_by_id id requirement now rooms = find_room (find_query id rooms) requirement now

unfoldable pub find_room_by_rtc_id :
    ℕ → RoomTimeRequirement → ℕ → List Rtc.Object → List Object → Result ErrorKind Object
unfolding find_room find_by_rtc_id_query
find_room_by_rtc_id rtc_id requirement now rtcs rooms =
    find_room (find_by_rtc_id_query rtc_id rtcs rooms) requirement now

-- `ListQuery::new().room_id(…).agent_id(…)` of `agent`.
abbrev pub present : ℕ → ℕ → Agent.ListQuery
present room_id agent_id = record {
  agent_id = some agent_id;
  room_id = some room_id;
  status = none;
  offset = none;
  limit = none;
}

-- `check_room_presence`.
unfoldable pub check_room_presence : Object → ℕ → List Agent.Object → Result ErrorKind (Unit {0})
unfolding Agent.list_query
check_room_presence room agent_id agents =
    elim (Agent.list_query (present room.id agent_id) agents) [
      | [] ↦ err agent_not_entered_the_room
      | _ ∷ _ ↦ ok tt
    ]
