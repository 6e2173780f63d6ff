-- ===== src/Endpoint/System.antt =====
-- src/app/endpoint/system.rs: `OrphanedRoomCloseHandler`, which closes the rooms whose host left long
-- ago. Failures that are only logged leave no trace.
pub mod Orphans
use conferences.Base.{
  ℕ, ◌+◌, ◌-◌, List, [], ◌∷◌, ◌++◌, Option, none, some, Bool, true, false, not, if◌then◌else◌,
  Result, ok, err,
}
use conferences.AppError.{ErrorKind}
use conferences.Db.OrphanedRoom
use conferences.Db.Room.{
  Bound, excluded, Time, Object, SqlError, UpdateQuery, new_update, update_query, is_closed,
}
use conferences.Endpoint.Handler.{Notification, note, room_close, room_events, audience_events}

-- What the loop carries: the rooms, the ids to be removed and the notifications, in order.
pub record Progress : Type 0 where
  pub rooms : List Object
  pub closed_rooms : List ℕ
  pub notifications : List Notification

-- The query that closes a room at a time.
unfoldable pub close_query : Object → ℕ → UpdateQuery
close_query room now = record new_update {
  time = some (record { start = room.time.start; end = excluded now });
  timed_out = some true;
}

unfoldable pub after_close : Progress → List Object × Result SqlError Object → Progress
after_close p (rooms, err e) = record p { rooms = rooms }
after_close p (rooms, ok room) = record {
  rooms = rooms;
  closed_rooms = p.closed_rooms ++ room.id ∷ [];
  notifications =
      p.notifications
      ++ note room_close (room_events room.id) room
        ∷ note room_close (audience_events room.audience) room
        ∷ [];
}

-- One round of the loop, whose clock shows `now` in the guard and `later` in the query.
unfoldable pub close_one : ℕ → ℕ → OrphanedRoom.Object × Option Object → Progress → Progress
unfolding close_query after_close
close_one now later (orphan, some room) p =
    if not (is_closed now room)
    then after_close p (update_query (close_query room later) room.id p.rooms)
    else record p { closed_rooms = p.closed_rooms ++ orphan.id ∷ [] }
close_one now later (orphan, none) p = record p { closed_rooms = p.closed_rooms ++ orphan.id ∷ [] }

-- The loop, from the `k`-th reading of the clock on.
pub close_all : (ℕ → ℕ) → ℕ → List (OrphanedRoom.Object × Option Object) → Progress → Progress
unfolding close_one
close_all clock k [] p = p
close_all clock k (x ∷ xs) p = close_all clock (k + 2) xs (close_one (clock k) (clock (k + 1)) x p)

-- The handler, after the authorization, on a clock that shows at least the timeout: the rooms, the orphans that are left and the notifications.
pub close_orphans :
    (ℕ → ℕ)
    → ℕ
    → List Object
    → List OrphanedRoom.Object
    → List Object × List OrphanedRoom.Object × List Notification
unfolding close_all OrphanedRoom.get_timed_out OrphanedRoom.remove_rooms
close_orphans clock orphaned_room_timeout rooms orphans =
    let load_till = clock 0 - orphaned_room_timeout in
    let done =
      close_all clock 1 (OrphanedRoom.get_timed_out load_till rooms orphans)
        (record { rooms = rooms; closed_rooms = []; notifications = [] }) in
    (done.rooms, OrphanedRoom.remove_rooms done.closed_rooms orphans, done.notifications)
