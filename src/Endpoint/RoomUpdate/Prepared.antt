-- ===== src/Endpoint/RoomUpdate/Prepared.antt =====
-- What the checks of `update` and `close` have established when a room is written.
use conferences.Base.{inl, inr, ℕ, List, ◌≡◌, Option, some, false, ok, Result-cases, arith}
use conferences.Db.Room.{Object, Time, find_query}
use conferences.Endpoint.Handler.{Env, authorized, update_action, classroom}
use conferences.Endpoint.Helpers.{
  find_room_by_id, RoomTimeRequirement, not_closed_or_unbounded_open,
}
use conferences.Endpoint.Helpers.Requirements.{find_room_given}
use conferences.Endpoint.RoomUpdate.{
  UpdateRequest, prepare_update, prepare_close, new_time, time_requirement,
}

pub find_by_id_given :
    (id : ℕ) (q : RoomTimeRequirement) (now : ℕ) (rows : List Object) (room : Object)
    → find_room_by_id id q now rows ≡ ok room
    → find_query id rows ≡ some room
unfolding find_room_by_id
find_by_id_given id q now rows room h = find_room_given (find_query id rows) q now room h

-- A room that `update` goes on to write was found, and its new time was allowed.
pub prepare_update_found :
    (env : Env) (agent : ℕ) (r : UpdateRequest) (rows : List Object) (room : Object)
    (time : Option Time)
    → prepare_update env agent r rows ≡ ok (room, time)
    → (find_room_by_id r.id (time_requirement r.time) (env.clock 0) rows ≡ ok room)
      × (new_time env.clock room r.time ≡ ok time)
unfolding prepare_update
prepare_update_found env agent r rows room time h =
    elim (Result-cases (find_room_by_id r.id (time_requirement r.time) (env.clock 0) rows)) [
      | inr (e, f) ↦ ground (arith, h, f)
      | inl (o, f) ↦
          elim (Result-cases
            (authorized env agent o.audience (classroom o.classroom_id) update_action)) [
              | inr (e, a) ↦ ground (arith, h, f, a)
              | inl (u, a) ↦ elim (Result-cases (new_time env.clock o r.time)) [
                | inr (e, t) ↦ ground (arith, h, f, a, t)
                | inl (x, t) ↦ ground (arith, h, f, a, t)
              ]
            ]
    ]

-- A room that `close` goes on to write was found, and is not infinite.
pub prepare_close_found :
    (env : Env) (agent id : ℕ) (rows : List Object) (room : Object)
    → prepare_close env agent id rows ≡ ok room
    → (find_room_by_id id not_closed_or_unbounded_open (env.clock 0) rows ≡ ok room)
      × (room.infinite ≡ false)
unfolding prepare_close
prepare_close_found env agent id rows room h =
    elim (Result-cases (find_room_by_id id not_closed_or_unbounded_open (env.clock 0) rows)) [
      | inr (e, f) ↦ ground (arith, h, f)
      | inl (o, f) ↦
          elim (Result-cases
            (authorized env agent o.audience (classroom o.classroom_id) update_action)) [
              | inr (e, a) ↦ ground (arith, h, f, a)
              | inl (u, a) ↦ ground (arith, h, f, a)
            ]
    ]
