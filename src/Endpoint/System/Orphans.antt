-- ===== src/Endpoint/System/Orphans.antt =====
-- What closing an orphaned room does to it.
use conferences.Base.{ℕ, ◌<◌, ◌≡◌, refl, [], ◌∷◌, ◌++◌, some, true, false, ok, arith}
use conferences.Db.OrphanedRoom
use conferences.Db.Room.{
  Bound, included, excluded, Object, find_query, is_closed, updated, new_update, update_query,
  checked, check_backend, check_range, bound_value, both_included,
}
use conferences.Db.Room.Writes.{write_made, written_same}
use conferences.Endpoint.System.{Progress, close_one, close_query}

closing_range :
    (opening later : ℕ) (start : Bound)
    → start ≡ included opening
    → opening < later
    → check_range (record { start = start; end = excluded later }) ≡ ok tt
unfolding check_range bound_value both_included
closing_range opening later start s lt = rw (s) (ground (arith, lt))

closing_row :
    (later opening : ℕ) (room : Object)
    → room.time.start ≡ included opening
    → opening < later
    → check_backend room ≡ ok tt
    → checked (updated (close_query room later) room) ≡ ok (updated (close_query room later) room)
unfolding checked updated close_query new_update check_backend
closing_row later opening room s lt b =
    rw (checked, closing_range opening later room.time.start s lt, b) refl

closing_row_closed :
    (later : ℕ) (room : Object) → is_closed later (updated (close_query room later) room) ≡ true
unfolding is_closed updated close_query new_update
closing_row_closed later room = ground arith

-- An orphaned room that has opened and is not closed is closed by one round of the loop and marked as
-- timed out, whether or not it is infinite: the row that is found afterwards has the old opening and
-- closes at the time of the query, and the id is to be removed from the orphans.
pub close_one_closes :
    (now later opening : ℕ) (orphan : OrphanedRoom.Object) (room : Object) (p : Progress)
    → find_query room.id p.rooms ≡ some room
    → is_closed now room ≡ false
    → room.time.start ≡ included opening
    → opening < later
    → check_backend room ≡ ok tt
    → let q = close_one now later (orphan, some room) p in
      let done = updated (close_query room later) room in
      (find_query room.id q.rooms ≡ some done)
      × (q.closed_rooms ≡ p.closed_rooms ++ room.id ∷ [])
      × (done.time ≡ record { start = included opening; end = excluded later })
      × (done.timed_out ≡ true)
      × (is_closed later done ≡ true)
unfolding close_one update_query
close_one_closes now later opening orphan room p f c s lt b =
    let q = close_query room later in
    let made =
      write_made room.id (updated q) p.rooms room (updated q room) f
        (closing_row later opening room s lt b) in
    let found = written_same room.id (updated q) p.rooms room (λ x. refl) f in
    let done_closed : is_closed later (updated q room) ≡ true = closing_row_closed later room in
    rw (c, made) (found, refl, (rw (s) refl), refl, done_closed)
