-- ===== src/Endpoint/RtcConnect/Backend.antt =====
-- Which backend a connection is made at.
use conferences.Base.{
  ℕ, ◌≡◌, refl, sym, ap, subst, ◌∙◌, inl, inr, some, ==→eq, Result, ok, ok_or-some, Result-cases,
  Option-cases, arith,
}
use conferences.AppError.{ErrorKind, backend_not_found}
use conferences.Base.Table.Laws.{find_passes}
use conferences.Db.JanusBackend
use conferences.Db.Room.{find_by_rtc_id_query}
use conferences.Db.Room
use conferences.Db.Room.Writes.{write_ok, found_id, found_itself}
use conferences.Db.Rtc
use conferences.Endpoint.Handler.{Env}
use conferences.Endpoint.Helpers.{opened, find_room_by_rtc_id}
use conferences.Endpoint.Helpers.Requirements.{find_room_given}
use conferences.Endpoint.Rtc.{Tables}
use conferences.Endpoint.RtcConnect.{
  ConnectIntent, write_intent, Connector, HandleId, check_room_policy, authorize_connect,
  choose_backend, take_place, make_handle, write_connection, load_tables, open_handle, connect,
  then_ok, then_pure,
}

-- The backend of a room that has one is chosen.
choose_backend_same :
    (c : Connector) (env : Env) (t : Tables) (room : Room.Object) (id : ℕ) (b : JanusBackend.Object)
    → room.backend_id ≡ some id
    → choose_backend c (load_tables env t) room ≡ ok b
    → b.id ≡ id
unfolding choose_backend load_tables JanusBackend.find_query
choose_backend_same c env t room id b e h =
    let found : JanusBackend.find_query t.backends id ≡ some b =
      ok_or-some (JanusBackend.find_query t.backends id) backend_not_found b
        (ground (arith, h, e)) in
    ==→eq b.id id (find_passes (JanusBackend.has_id id) t.backends b found)

-- A writer leaves the room with the backend.
take_place_write :
    (env : Env) (rtc_id : ℕ) (room : Room.Object) (b : JanusBackend.Object) (t u : Tables)
    (x : Unit {0})
    → Room.find_query room.id t.rooms ≡ some room
    → ((id : ℕ) → room.backend_id ≡ some id → b.id ≡ id)
    → take_place env write_intent rtc_id room b t ≡ (u, ok x)
    → (p : Room.Object) × (Room.find_query room.id u.rooms ≡ some p)
      × (p.backend_id ≡ some b.id)
      × (u.rtcs ≡ t.rtcs)
unfolding take_place Room.update_query Room.new_update
take_place_write env rtc_id room b t u x f same h = elim (Option-cases room.backend_id) [
  | inr (id, e) ↦
      let kept : u ≡ t = ground (arith, h, e) in
      (room, rw kept f, e ∙ ap some (sym (same id e)), ap Tables.rtcs kept)
  | inl n ↦
      let q : Room.UpdateQuery = record Room.new_update { backend_id = some b.id } in
      let w = Room.update_query q room.id t.rooms in
      elim (Result-cases w.1) [
        | inr (e, d) ↦ ground (arith, h, n, d)
        | inl (o, d) ↦
            let made : u ≡ record t { rooms = w.0 } = ground (arith, h, n, d) in
            let l =
              write_ok room.id (Room.updated q) t.rooms w.0 o (λ y. refl) (ap (λ y. (w.0, y)) d) in
            (o, rw made (l.3), ap Room.Object.backend_id l.2, ap Tables.rtcs made)
      ]
]

write_connection_keeps :
    (env : Env) (agent_id room_id rtc_id handle_id : ℕ) (t : Tables)
    → ((write_connection env agent_id room_id rtc_id handle_id t).0.rooms ≡ t.rooms)
      × ((write_connection env agent_id room_id rtc_id handle_id t).0.rtcs ≡ t.rtcs)
unfolding write_connection
write_connection_keeps env agent_id room_id rtc_id handle_id t = ground arith

-- The id of the connection names its backend.
last_backend :
    (env : Env) (stream_id rtc_id k : ℕ) (b : JanusBackend.Object) (w u : Tables)
    (r : HandleId × JanusBackend.Object)
    → Path
        (Tables × Result ErrorKind (HandleId × JanusBackend.Object))
        (
          w,
          ok (
            record {
              rtc_stream_id = stream_id;
              rtc_id = rtc_id;
              janus_handle_id = k;
              janus_session_id = b.session_id;
              backend_id = b.id;
            },
            b,
          ),
        )
        (u, ok r)
    → (w ≡ u) × (r.0.backend_id ≡ b.id)
last_backend env stream_id rtc_id k b w u r h = (ap (λ y. y.0) h, ground arith)

-- What `open_handle` has gone through when it succeeds.
open_handle_ok :
    (env : Env) (c : Connector) (intent : ConnectIntent) (stream_id agent_id rtc_id : ℕ)
    (room : Room.Object) (t u : Tables) (r : HandleId × JanusBackend.Object)
    → open_handle env c intent stream_id agent_id rtc_id room t ≡ (u, ok r)
    → (b : JanusBackend.Object) × (v : Tables) × (x : Unit {0}) × (choose_backend c
          (load_tables env t)
          room
        ≡ ok b)
      × (take_place env intent rtc_id room b t ≡ (v, ok x))
      × (u.rooms ≡ v.rooms)
      × (u.rtcs ≡ v.rtcs)
      × (r.0.backend_id ≡ b.id)
unfolding open_handle
open_handle_ok env c intent stream_id agent_id rtc_id room t u r h =
    let (b, e1, h1) = then_pure t (choose_backend c (load_tables env t) room) _ u r h in
    let (v, x, e2, h2) = then_ok (take_place env intent rtc_id room b t) _ u r h1 in
    let (k, e3, h3) = then_pure v (make_handle c b room.id stream_id) _ u r h2 in
    let (w, y, e4, h4) = then_ok (write_connection env agent_id room.id rtc_id k v) _ u r h3 in
    let keeps = write_connection_keeps env agent_id room.id rtc_id k v in
    let (same, backend) = last_backend env stream_id rtc_id k b w u r h4 in
    (
      b,
      v,
      x,
      e1,
      e2,
      ap Tables.rooms (sym same) ∙ ap (λ y. y.0.rooms) (sym e4) ∙ keeps.0,
      ap Tables.rtcs (sym same) ∙ ap (λ y. y.0.rtcs) (sym e4) ∙ keeps.1,
      backend,
    )

answered :
    (w u : Tables) (r : HandleId × JanusBackend.Object) (h : HandleId)
    → Path (Tables × Result ErrorKind HandleId) (w, ok r.0) (u, ok h)
    → r.0.backend_id ≡ h.backend_id
answered w u r h e = ground (arith, e)

found_by_rtc :
    (rtc_id : ℕ) (t v : Tables) (o : Rtc.Object) (p : Room.Object)
    → v.rtcs ≡ t.rtcs
    → Rtc.find_query t.rtcs rtc_id ≡ some o
    → Room.find_query o.room_id v.rooms ≡ some p
    → find_by_rtc_id_query rtc_id v.rtcs v.rooms ≡ some p
unfolding find_by_rtc_id_query Room.find_query
found_by_rtc rtc_id t v o p e f g = rw (e, find_by_rtc_id_query, f) g

same_rooms :
    (rtc_id : ℕ) (v w u : Tables) (p : Room.Object)
    → w ≡ u
    → w.rooms ≡ v.rooms
    → w.rtcs ≡ v.rtcs
    → find_by_rtc_id_query rtc_id v.rtcs v.rooms ≡ some p
    → find_by_rtc_id_query rtc_id u.rtcs u.rooms ≡ some p
same_rooms rtc_id v w u p e f g h = rw (sym e, f, g) h

-- The room of the RTC after the place is taken.
room_placed :
    (env : Env) (c : Connector) (rtc_id : ℕ) (room : Room.Object) (b : JanusBackend.Object)
    (t v : Tables) (x : Unit {0})
    → find_by_rtc_id_query rtc_id t.rtcs t.rooms ≡ some room
    → choose_backend c (load_tables env t) room ≡ ok b
    → take_place env write_intent rtc_id room b t ≡ (v, ok x)
    → (p : Room.Object) × (find_by_rtc_id_query rtc_id v.rtcs v.rooms ≡ some p)
      × (p.backend_id ≡ some b.id)
unfolding find_by_rtc_id_query Room.find_query
room_placed env c rtc_id room b t v x f chosen placed =
    elim (Option-cases (Rtc.find_query t.rtcs rtc_id)) [
      | inl n ↦ ground (arith, f, n)
      | inr (o, e) ↦
          let there : Room.find_query o.room_id t.rooms ≡ some room = ground (arith, f, e) in
          let id = found_id o.room_id t.rooms room there in
          let (p, found, at, rtcs) =
            take_place_write env rtc_id room b t v x (found_itself o.room_id t.rooms room there)
              (λ k q. choose_backend_same c env t room k b q chosen) placed in
          (
            p,
            found_by_rtc rtc_id t v o p rtcs e
                (subst (λ k. Room.find_query k v.rooms ≡ some p) id found),
            at,
          )
    ]

-- A writer who connects leaves the room of the RTC at the backend of the connection.
pub connect_write :
    (env : Env) (c : Connector) (stream_id agent_id rtc_id : ℕ) (t u : Tables) (h : HandleId)
    → connect env c write_intent stream_id agent_id rtc_id t ≡ (u, ok h)
    → (p : Room.Object) × (find_by_rtc_id_query rtc_id u.rtcs u.rooms ≡ some p)
      × (p.backend_id ≡ some h.backend_id)
unfolding connect
connect_write env c stream_id agent_id rtc_id t u h e =
    let (room, e1, h1) =
      then_pure t (find_room_by_rtc_id rtc_id opened (env.clock 0) t.rtcs t.rooms) _ u h e in
    let (x, e2, h2) =
      then_pure t (check_room_policy write_intent agent_id rtc_id t.rtcs room) _ u h h1 in
    let (y, e3, h3) =
      then_pure t (authorize_connect env write_intent agent_id rtc_id room) _ u h h2 in
    let (w, r, e4, h4) =
      then_ok (open_handle env c write_intent stream_id agent_id rtc_id room t) _ u h h3 in
    let (b, v, z, chosen, placed, rooms, rtcs, at) =
      open_handle_ok env c write_intent stream_id agent_id rtc_id room t w r e4 in
    let given =
      find_room_given (find_by_rtc_id_query rtc_id t.rtcs t.rooms) opened (env.clock 0) room e1 in
    let (p, found, backend) = room_placed env c rtc_id room b t v z given chosen placed in
    (
      p,
      same_rooms rtc_id v w u p (ap (λ q. q.0) h4) rooms rtcs found,
      backend ∙ ap some (sym at ∙ answered w u r h h4),
    )
