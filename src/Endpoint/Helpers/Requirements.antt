-- ===== src/Endpoint/Helpers/Requirements.antt =====
-- How the requirements on a room's time compare with each other and with `is_closed`.
use conferences.Base.{ℕ, ◌<◌, ◌≡◌, ◌≢◌, refl, ◌⊎◌, Option, none, some, false, ok, err, arith}
use conferences.AppError.{room_closed}
use conferences.Db.Room.{included, excluded, Object, is_closed, bound_value}
use conferences.Endpoint.Helpers.{
  RoomTimeRequirement, any_time, not_closed, not_closed_or_unbounded_open, opened, find_room,
}

-- A requirement that another one implies.
pub data Weaker : RoomTimeRequirement → RoomTimeRequirement → Type 0 where
  opened_not_closed : Weaker not_closed opened
  not_closed_open_start : Weaker not_closed_or_unbounded_open not_closed
  open_start_any : Weaker any_time not_closed_or_unbounded_open

-- `find_room` answers the room that it is given.
pub find_room_given :
    (found : Option Object) (r : RoomTimeRequirement) (now : ℕ) (room : Object)
    → find_room found r now ≡ ok room
    → found ≡ some room
unfolding find_room
find_room_given none r now room h = cc
find_room_given (some o) r now room h = elim r [
  | any_time ↦ ground arith
  | not_closed ↦ ground arith
  | not_closed_or_unbounded_open ↦ ground arith
  | opened ↦ ground arith
]

-- A room that is found under a requirement is found under every weaker one, at the same time.
find_room-Weaker :
    (found : Option Object) (q r : RoomTimeRequirement) (now : ℕ) (room : Object)
    → Weaker q r
    → find_room found r now ≡ ok room
    → find_room found q now ≡ ok room
unfolding find_room
find_room-Weaker none q r now room w h = cc
find_room-Weaker (some o) _ _ now room opened_not_closed h = ground arith
find_room-Weaker (some o) _ _ now room not_closed_open_start h = ground arith
find_room-Weaker (some o) _ _ now room open_start_any h = ground arith

-- Under each requirement but `any_time`, a room that is found has not been closed for longer than
-- this moment: it is not closed, or it closes now.
find_room-is_closed :
    (found : Option Object) (r : RoomTimeRequirement) (now : ℕ) (room : Object)
    → r ≢ any_time
    → find_room found r now ≡ ok room
    → (is_closed now room ≡ false) ⊎ (bound_value room.time.end ≡ some now)
unfolding find_room is_closed bound_value
find_room-is_closed none r now room n h = cc
find_room-is_closed (some o) any_time now room n h = absurd (n refl)
find_room-is_closed (some o) not_closed now room n h = ground arith
find_room-is_closed (some o) not_closed_or_unbounded_open now room n h = ground arith
find_room-is_closed (some o) opened now room n h = ground arith

-- The requirement `Open` is not membership in the range: a room `[opening, closing)` is refused at
-- the very moment it opens and found at the very moment it closes.
pub find_room_boundaries :
    (room : Object) (opening closing : ℕ)
    → room.time.start ≡ included opening
    → room.time.end ≡ excluded closing
    → opening < closing
    → (find_room (some room) opened opening ≡ err room_closed)
      × (find_room (some room) opened closing ≡ ok room)
unfolding find_room
find_room_boundaries room o c s e lt = ground arith
