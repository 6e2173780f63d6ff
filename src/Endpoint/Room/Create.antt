-- ===== src/Endpoint/Room/Create.antt =====
-- src/app/endpoint/room.rs: what can be read and entered after a room has been created.
use conferences.Base.{ℕ, List, Option, none, some, Bool, true, false}
use conferences.Groups
use conferences.Db.Rtc.{SharingPolicy, owned}
use conferences.Db.Room.{Object, find_query}

groups_in : Option Groups.Object → Option (List Groups.GroupItem)
groups_in none = none
groups_in (some o) = some o.groups

-- The groups of a room.
pub groups_of : ℕ → List Groups.Object → Option (List Groups.GroupItem)
unfolding groups_in
groups_of room_id rows = groups_in (Groups.find_query rows room_id)

pub is_owned : SharingPolicy → Bool
is_owned owned = true
is_owned _ = false
