-- ===== src/Endpoint/RoomUpdate/Schedule.antt =====
-- src/app/endpoint/room.rs: what closing and rescheduling do to the time of a room.
use conferences.Base.{
  ℕ, max, ◌≤◌, ◌<◌, List, ◌≡◌, refl, sym, subst, ◌∙◌, inl, inr, Option, some, true, Result, ok, err,
  Result-cases, lt→ltb, ◌≢◌, arith,
}
use conferences.AppError.{ErrorKind, db_query_failed}
use conferences.Db.Room.{
  Object, Time, included, excluded, unbounded, SqlError, data_exception, find_query, closed,
  set_closed_by, updated, update_query, UpdateQuery, checked, check_range, is_closed, bound_value,
  lower_bound,
}
use conferences.Db.Room.Writes.{write_ok, write_refused, found_id, found_itself}
use conferences.Endpoint.Handler.{Env, Response, authorized, classroom, update_action}
use conferences.Endpoint.Helpers.{find_room_by_id, not_closed_or_unbounded_open}
use conferences.Endpoint.RoomUpdate.{
  UpdateRequest, new_time, to_query, write_update, prepare_update, prepare_close, update, close,
  time_requirement, respond_closed,
}
use conferences.Endpoint.RoomUpdate.Prepared.{
  find_by_id_given, prepare_update_found, prepare_close_found,
}

respond_closed_ok :
    (x : List Object × Result SqlError Object) (rows : List Object) (response : Response)
    → respond_closed x ≡ (rows, ok response)
    → x ≡ (rows, ok response.room)
unfolding respond_closed
respond_closed_ok (rows', ok p) rows response h = ground (arith, h)
respond_closed_ok (rows', err e) rows response h = ground (arith, h)

closed-is_closed :
    (agent at now : ℕ) (o : Object) → at ≤ now → is_closed now (closed agent at o) ≡ true
unfolding closed is_closed
closed-is_closed agent at now o le = ground (arith, le)

closed-start :
    (agent at : ℕ) (o : Object)
    → bound_value (closed agent at o).time.start ≡ bound_value o.time.start
unfolding closed lower_bound bound_value
closed-start agent at o = elim o.time.start [
  | included t ↦ ground arith
  | excluded t ↦ ground arith
  | unbounded ↦ ground arith
]

-- A range whose end is before its start is not made.
check_range_inverted :
    (t : Time) (lower upper : ℕ)
    → bound_value t.start ≡ some lower
    → bound_value t.end ≡ some upper
    → upper < lower
    → check_range t ≡ err data_exception
unfolding check_range
check_range_inverted t lower upper s e lt = rw (check_range, s, e, lt→ltb upper lower lt) refl

checked_inverted :
    (o : Object) → check_range o.time ≡ err data_exception → checked o ≡ err data_exception
unfolding checked
checked_inverted o h = rw (checked, h) refl

new_time_closed :
    (clock : ℕ → ℕ) (now : ℕ) (room : Object) (t : Time) (time : Option Time)
    → is_closed now room ≡ true
    → now ≤ clock 2
    → new_time clock room (some t) ≢ ok time
unfolding is_closed new_time
new_time_closed clock now room t time c le h = ground (arith, c, le, h)

new_time_moved :
    (clock : ℕ → ℕ) (room : Object) (opening closing o c : ℕ)
    → room.time ≡ record { start = included opening; end = excluded closing }
    → clock 2 < closing
    → o < c
    → new_time clock room (some (record { start = included o; end = excluded c }))
      ≡ ok (some (record { start = included opening; end = excluded (max c (clock 3)) }))
unfolding new_time
new_time_moved clock room opening closing o c t lc lo =
    rw (new_time, lt→ltb o c lo, t, lt→ltb (clock 2) closing lc) refl

prepare_update_given :
    (env : Env) (agent : ℕ) (r : UpdateRequest) (rows : List Object) (room : Object) (t : Time)
    (time : Option Time)
    → find_room_by_id r.id not_closed_or_unbounded_open (env.clock 0) rows ≡ ok room
    → authorized env agent room.audience (classroom room.classroom_id) update_action ≡ ok tt
    → r.time ≡ some t
    → new_time env.clock room (some t) ≡ ok time
    → prepare_update env agent r rows ≡ ok (room, time)
unfolding prepare_update time_requirement
prepare_update_given env agent r rows room t time f a e n = rw (prepare_update, e, f, a, n) refl

update_query_inverted :
    (q : UpdateQuery) (rows : List Object) (room : Object) (t : Time) (lower upper : ℕ)
    → find_query room.id rows ≡ some room
    → q.time ≡ some t
    → bound_value t.start ≡ some lower
    → bound_value t.end ≡ some upper
    → upper < lower
    → update_query q room.id rows ≡ (rows, err data_exception)
unfolding update_query updated
update_query_inverted q rows room t lower upper f e s u lt =
    write_refused room.id (updated q) rows room data_exception f (
      checked_inverted (updated q room)
        (rw (updated, e) (check_range_inverted t lower upper s u lt)))

some_inj : {o p : Object} → some o ≡ some p → o ≡ p
some_inj h = cc

-- Where `close` succeeds, the room of its response is the row that is found afterwards; it is closed
-- by the agent, at the time of the database and from then on, and starts when it did before.
pub close-is_closed :
    (env : Env) (agent id : ℕ) (rows rows' : List Object) (response : Response) (now : ℕ)
    → close env agent id rows ≡ (rows', ok response)
    → env.db_now ≤ now
    → (o : Object) × (find_query id rows ≡ some o)
      × (find_query id rows' ≡ some response.room)
      × (response.room.closed_by ≡ some agent)
      × (is_closed now response.room ≡ true)
      × (bound_value response.room.time.start ≡ bound_value o.time.start)
unfolding close
close-is_closed env agent id rows rows' response now h le =
    elim (Result-cases (prepare_close env agent id rows)) [
      | inr (e, s) ↦ ground (arith, h, s)
      | inl (room, s) ↦
          let (f, n) = prepare_close_found env agent id rows room s in
          let wrote =
            respond_closed_ok (set_closed_by room.id agent env.db_now rows) rows' response
              (sym (rw (close, s) refl) ∙ h) in
          let (o, g, same, g', c) =
            write_ok room.id (closed agent env.db_now) rows rows' response.room (λ x. refl) wrote in
          let e =
            found_id id rows room
              (find_by_id_given id not_closed_or_unbounded_open (env.clock 0) rows room f) in
          (
            o,
            subst (λ n. find_query n rows ≡ some o) e g,
            subst (λ n. find_query n rows' ≡ some response.room) e g',
            rw (same, closed) refl,
            rw (same) (closed-is_closed agent env.db_now now o le),
            rw (same) (closed-start agent env.db_now o),
          )
    ]

-- Nobody can close a room before it has opened: `close` gets past its checks, and fails on the
-- time range that it asks the database for. The rows stay.
pub close_before_opening :
    (env : Env) (agent id : ℕ) (rows : List Object) (room : Object) (opening : ℕ)
    → prepare_close env agent id rows ≡ ok room
    → bound_value room.time.start ≡ some opening
    → env.db_now < opening
    → close env agent id rows ≡ (rows, err db_query_failed)
unfolding close
close_before_opening env agent id rows room opening h s lt =
    let (f, n) = prepare_close_found env agent id rows room h in
    let found =
      found_itself id rows room
        (find_by_id_given id not_closed_or_unbounded_open (env.clock 0) rows room f) in
    let inverted = checked_inverted (closed agent env.db_now room) (
      check_range_inverted (closed agent env.db_now room).time opening env.db_now
        (closed-start agent env.db_now room ∙ s) refl lt) in
    rw
      (
        close,
        h,
        write_refused room.id (closed agent env.db_now) rows room data_exception found inverted,
      )
      refl

-- A room `[opening, closing)` that has not opened when `update` reads the clock cannot be rescheduled to a
-- range that ends before its opening: `update` accepts the new range, drops its start, and fails on the
-- range that is left. The rows stay. The room is found and the agent is authorized.
pub update_before_opening :
    (env : Env) (agent opening closing o c : ℕ) (r : UpdateRequest) (rows : List Object)
    (room : Object)
    → find_room_by_id r.id not_closed_or_unbounded_open (env.clock 0) rows ≡ ok room
    → authorized env agent room.audience (classroom room.classroom_id) update_action ≡ ok tt
    → room.time ≡ record { start = included opening; end = excluded closing }
    → r.time ≡ some (record { start = included o; end = excluded c })
    → env.clock 2 < closing
    → o < c
    → c < opening
    → env.clock 3 < opening
    → update env agent r rows ≡ (rows, err db_query_failed)
unfolding update
update_before_opening env agent opening closing o c r rows room f a t e lc lo lb lk =
    let moved : Time = record { start = included opening; end = excluded (max c (env.clock 3)) } in
    let found =
      found_itself r.id rows room
        (find_by_id_given r.id not_closed_or_unbounded_open (env.clock 0) rows room f) in
    let prepared =
      prepare_update_given env agent r rows room (record { start = included o; end = excluded c })
        (some moved) f a e (new_time_moved env.clock room opening closing o c t lc lo) in
    let refused =
      update_query_inverted (to_query r (some moved)) rows room moved opening (max c (env.clock 3))
        found refl refl refl (ground (arith, lb, lk)) in
    rw (prepared, write_update, refused) refl

-- A room that is closed when `update` reads the clock keeps its time: a request with a time fails,
-- whatever the time, and the rows stay.
pub update_closed_room :
    (env : Env) (agent : ℕ) (r : UpdateRequest) (rows : List Object) (room : Object) (t : Time)
    → find_query r.id rows ≡ some room
    → is_closed (env.clock 0) room ≡ true
    → env.clock 0 ≤ env.clock 2
    → r.time ≡ some t
    → (e : ErrorKind) × (update env agent r rows ≡ (rows, err e))
unfolding update
update_closed_room env agent r rows room t f c le e =
    elim (Result-cases (prepare_update env agent r rows)) [
      | inr (k, s) ↦ (k, rw (write_update, s) refl)
      | inl ((o, time), s) ↦
          let (g, n) = prepare_update_found env agent r rows o time s in
          absurd (
            new_time_closed env.clock (env.clock 0) room t time c le (
              subst (λ x. new_time env.clock x (some t) ≡ ok time)
                (some_inj (
                  sym (find_by_id_given r.id (time_requirement r.time) (env.clock 0) rows o g) ∙ f))
                (subst (λ x. new_time env.clock o x ≡ ok time) e n)))
    ]
