-- ===== src/Examples/RoomRuns.antt =====
-- The endpoints of rooms on a table of three rooms: one to come, one open, one endless.
use conferences.Base.{
  ℕ, ◌+◌, ◌≡◌, refl, List, [], ◌∷◌, none, some, Bool, true, false, ok, err, arith,
}
use conferences.Base.Table.{find, update_where}
use conferences.AppError.{db_query_failed, room_closed}
use conferences.Db.Rtc.{shared, owned}
use conferences.Db.Room.{
  Bound, included, excluded, unbounded, Object, janus, find_query, is_closed, bound_value,
  set_closed_by, write, checked, check_range, check_backend, closed, both_included, lower_bound,
}
use conferences.Endpoint.Handler.{Env, respond, authorized}
use conferences.Endpoint.Helpers.{opened, find_room, find_room_by_id, check_time, passed}
use conferences.Endpoint.Helpers.Requirements.{find_room_boundaries}
use conferences.Endpoint.Room.{CreateRequest, Tables, Ids}
use conferences.Endpoint.RoomUpdate.{
  update_note, close_notes, UpdateRequest, update, close, prepare_close, respond_closed,
}
use conferences.Endpoint.RoomUpdate.Endless.{HasEndless, is_endless, update-HasEndless}
use conferences.Endpoint.RoomUpdate.Schedule.{close-is_closed, update_before_opening}
use conferences.Db.OrphanedRoom
use conferences.Endpoint.System.{Progress}

abbrev env : Env
env = record {
  authorize = λ agent audience object action. ok tt;
  clock = λ n. 100 + n;
  db_now = 110;
}

abbrev room_row : ℕ → Bound → Bound → Bool → Object
room_row id start end infinite = record {
  id = id;
  time = record { start = start; end = end };
  audience = "example.org";
  created_at = 1;
  backend = janus;
  reserve = none;
  tags = 0;
  backend_id = none;
  rtc_sharing_policy = shared;
  classroom_id = 50;
  host = none;
  timed_out = false;
  closed_by = none;
  infinite = infinite;
}

abbrev future_room : Object
future_room = room_row 1 (included 500) (excluded 600) false

abbrev open_room : Object
open_room = room_row 2 (included 50) (excluded 600) false

abbrev endless_room : Object
endless_room = room_row 3 (included 50) unbounded true

abbrev past_room : Object
past_room = room_row 4 (included 50) (excluded 60) false

abbrev rooms : List Object
rooms = future_room ∷ open_room ∷ endless_room ∷ past_room ∷ []

abbrev new_times : ℕ → ℕ → ℕ → UpdateRequest
new_times id o c = record {
  id = id;
  time = some (record { start = included o; end = excluded c });
  reserve = none;
  tags = none;
  classroom_id = none;
  host = none;
}

update-HasEndless_example : HasEndless 3 (update env 7 (new_times 3 50 90) rooms).0
unfolding HasEndless find_query find is_endless
update-HasEndless_example =
    update-HasEndless env 7 (new_times 3 50 90) rooms 3 (endless_room, refl, refl)

close-is_closed_example :
    (o : Object) × (find_query 2 rooms ≡ some o)
    × (find_query 2 (close env 7 2 rooms).0 ≡ some (closed 7 110 open_room))
    × ((closed 7 110 open_room).closed_by ≡ some 7)
    × (is_closed 120 (closed 7 110 open_room) ≡ true)
    × (bound_value (included 50) ≡ bound_value o.time.start)
unfolding close find_query find set_closed_by write checked check_range check_backend closed
    prepare_close find_room_by_id find_room check_time passed authorized respond_closed update_where
    bound_value lower_bound both_included
close-is_closed_example =
    close-is_closed env 7 2 rooms (close env 7 2 rooms).0
      (respond (closed 7 110 open_room)
        (update_note (closed 7 110 open_room) ∷ close_notes (closed 7 110 open_room)))
      120 refl (omega arith)

update_before_opening_example :
    update env 7 (new_times 1 300 400) rooms ≡ (rooms, err db_query_failed)
unfolding find_query find find_room_by_id find_room check_time passed authorized bound_value
update_before_opening_example =
    update_before_opening env 7 500 600 300 400 (new_times 1 300 400) rooms future_room refl refl
      refl refl (omega arith) (omega arith) (omega arith) (omega arith)

find_room_boundaries_example :
    (find_room (some open_room) opened 50 ≡ err room_closed)
    × (find_room (some open_room) opened 600 ≡ ok open_room)
find_room_boundaries_example = find_room_boundaries open_room 50 600 refl refl (omega arith)

abbrev request : CreateRequest
request = record {
  time = record { start = included 200; end = excluded 300 };
  audience = "example.org";
  backend = none;
  rtc_sharing_policy = some owned;
  reserve = none;
  tags = none;
  classroom_id = 51;
}

abbrev tables : Tables
tables = record { rooms = rooms; groups = [] }

abbrev ids : Ids
ids = record { room_id = 9; group_id = 20 }

abbrev orphan : OrphanedRoom.Object
orphan = record { id = 3; host_left_at = 20 }

abbrev progress : Progress
progress = record { rooms = rooms; closed_rooms = []; notifications = [] }
