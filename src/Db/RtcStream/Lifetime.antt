-- ===== src/Db/RtcStream/Lifetime.antt =====
-- A stream is active from its start to its stop.
use conferences.Base.{
  ℕ, ◌+◌, max, ◌≡◌, refl, ap, ◌∙◌, List, some, true, false, ◌==◌, ok, Bool-cases, inl, inr, All, [],
  ◌∷◌, arith,
}
use conferences.Base.Table.{find, update_where}
use conferences.Base.Table.Laws.{find_passes, find-update_where}
use conferences.Db.Room.{
  included, excluded, Time, bound_value, check_range, both_included, lower_bound,
}
use conferences.Db.Rtc
use conferences.Db.RtcStream.{
  Object, has_id, is_active, is_active_time, started, stopped, stop_time, stopped_time, start, stop,
  is_running, stop_running_streams_by_backend,
}

-- The row under an id after an update of it.
pub find-updated :
    (id : ℕ) (f : Object → Object) (rows : List Object) (o : Object)
    → ((x : Object) → (f x).id ≡ x.id)
    → find (has_id id) rows ≡ some o
    → find (has_id id) (update_where (has_id id) f rows) ≡ some (f o)
find-updated id f rows o k h =
    find-update_where (has_id id) (has_id id) f rows (λ x. ap (λ n. n == id) (k x))
    ∙ rw (h, find_passes (has_id id) rows o h) refl

-- A stream that is started is active. Stopped later, whatever the clock shows then, it is not active,
-- and its time starts where it was started, is not empty, and ends when it was stopped if that is
-- later than its start.
pub stop-start :
    (id from to : ℕ) (rows : List Object) (o : Object)
    → find (has_id id) rows ≡ some o
    → let running = started from o in
      let ended = stopped to running in
      let range : Time = record { start = included from; end = excluded (max to (from + 1)) } in
      (find (has_id id) (start id from rows).0 ≡ some running)
      × (is_active running ≡ true)
      × (find (has_id id) (stop id to (start id from rows).0).0 ≡ some ended)
      × (is_active ended ≡ false)
      × (ended.time ≡ some range)
      × (check_range range ≡ ok tt)
unfolding start stop is_active is_active_time stopped stopped_time stop_time bound_value check_range
    both_included lower_bound
stop-start id from to rows o h =
    let running = find-updated id (started from) rows o (λ x. refl) h in
    (
      running,
      refl,
      find-updated id (stopped to) _ (started from o) (λ x. refl) running,
      refl,
      refl,
      ground arith,
    )

pub stopped-is_active : (now : ℕ) (o : Object) → is_active (stopped now o) ≡ false
unfolding is_active is_active_time stopped stopped_time bound_value lower_bound
stopped-is_active now o = ground arith

not_running :
    (b now : ℕ) (rtcs : List Rtc.Object) (o : Object) → is_running b rtcs (stopped now o) ≡ false
unfolding is_running
not_running b now rtcs o = rw (is_running, stopped-is_active now o) refl

-- After `stop_running_streams_by_backend` no stream of the backend is active whose RTC is in the
-- table.
pub stop_running_streams_by_backend_stops :
    (backend_id now : ℕ) (rtcs : List Rtc.Object) (rows : List Object)
    → All
        (λ o. is_running backend_id rtcs o ≡ false)
        (stop_running_streams_by_backend backend_id now rtcs rows).0
unfolding stop_running_streams_by_backend update_where
stop_running_streams_by_backend_stops b now rtcs [] = tt
stop_running_streams_by_backend_stops b now rtcs (x ∷ xs) =
    elim (Bool-cases (is_running b rtcs x)) [
      | inl t ↦ rw t (not_running b now rtcs x, stop_running_streams_by_backend_stops b now rtcs xs)
      | inr t ↦ rw t (t, stop_running_streams_by_backend_stops b now rtcs xs)
    ]
