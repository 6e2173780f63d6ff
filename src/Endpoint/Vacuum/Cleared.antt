-- ===== src/Endpoint/Vacuum/Cleared.antt =====
-- What the vacuum leaves of the rooms that are over.
use Prim.Native.String.{String}
use conferences.Base.{
  ℕ, subst, ◌<◌, true, same_text, ◌≡◌, refl, sym, inl, inr, List, [], ◌∷◌, none, some, Bool, false,
  ◌==◌, any, map, filter, Has, ok, err, Result-cases, bind_ok, ok_eq, arith,
}
use conferences.Base.Table.{delete_where}
use conferences.AppError.{
  agent_not_entered_the_room, backend_client_creation_failed, backend_request_failed,
}
use conferences.Db.Agent
use conferences.Db.AgentConnection.{delete_agents, delete_agent_query}
use conferences.Db.AgentConnection
use conferences.Db.JanusBackend.{janus_api_version}
use conferences.Db.JanusBackend
use conferences.Db.Recording
use conferences.Db.Room.{bound_value}
use conferences.Db.Room
use conferences.Db.Rtc
use conferences.Endpoint.Handler.{
  Notification, note, room_close, room_events, system, update_action, Env, authorized, require,
}
use conferences.Endpoint.Helpers.{present, check_room_presence}
use conferences.Endpoint.Vacuum.{
  Tables, Unfinished, Uploads, upload_config, upload, vacuum_all, vacuum,
  finished_with_in_progress_recordings, is_sharing, in_group,
}
use conferences.Endpoint.Vacuum.Listed.{Has-map, Has-unfinished_of, join_found, unfinished}

-- Whether an agent has entered the room.
abbrev is_entered : ℕ → List Agent.Object → Bool
is_entered room_id = any (λ a. a.room_id == room_id)

none_left :
    (room_id : ℕ) (agents : List Agent.Object)
    → is_entered room_id (delete_where (Agent.is_deleted none (some room_id)) agents) ≡ false
unfolding delete_where Agent.is_deleted
none_left room_id [] = refl
none_left room_id (a ∷ as_) = ground (arith, none_left room_id as_)

kept_empty :
    (p : Agent.Object → Bool) (room_id : ℕ) (agents : List Agent.Object)
    → is_entered room_id agents ≡ false
    → is_entered room_id (delete_where p agents) ≡ false
unfolding delete_where
kept_empty p room_id [] h = refl
kept_empty p room_id (a ∷ as_) h = ground (arith, h, kept_empty p room_id as_)

none_listed :
    (room_id agent_id : ℕ) (agents : List Agent.Object)
    → is_entered room_id agents ≡ false
    → filter (Agent.is_listed (present room_id agent_id)) agents ≡ []
unfolding Agent.is_listed
none_listed room_id agent_id [] h = refl
none_listed room_id agent_id (a ∷ as_) h = ground (arith, h, none_listed room_id agent_id as_)

absent :
    (room : Room.Object) (agent_id : ℕ) (agents : List Agent.Object)
    → is_entered room.id agents ≡ false
    → check_room_presence room agent_id agents ≡ err agent_not_entered_the_room
unfolding check_room_presence Agent.list_query Agent.order_by_time_desc
absent room agent_id agents h =
    rw (check_room_presence, Agent.list_query, none_listed room.id agent_id agents h) refl

abbrev pub closing : Unfinished → Notification
closing u = note room_close (room_events u.room.id) u.room

upload_ok : (c : Uploads) (u : Unfinished) (n : Notification) → upload c u ≡ ok n → n ≡ closing u
unfolding upload
upload_ok c u n h =
    let (config, e1, h1) = bind_ok (upload_config c u.room) _ n h in
    let (x, e2, h2) =
      bind_ok (require (c.get_or_insert u.backend) backend_client_creation_failed) _ n h1 in
    let (y, e3, h3) =
      bind_ok
        (require
          (c.upload_stream u.backend.session_id u.backend.handle_id u.recording.rtc_id config)
          backend_request_failed)
        _ n h2 in
    sym (ok_eq h3)

-- What a round leaves of the agents.
abbrev cleared : Unfinished → AgentConnection.Tables → AgentConnection.Tables
unfolding delete_agent_query
cleared u t = (delete_agent_query none (some u.room.id) t).0

cleared_kept :
    (u : Unfinished) (t : AgentConnection.Tables) (room_id : ℕ)
    → is_entered room_id t.agents ≡ false
    → is_entered room_id (cleared u t).agents ≡ false
unfolding delete_agent_query delete_agents
cleared_kept u t room_id h = kept_empty (Agent.is_deleted none (some u.room.id)) room_id t.agents h

cleared_empty :
    (u : Unfinished) (t : AgentConnection.Tables)
    → is_entered u.room.id (cleared u t).agents ≡ false
unfolding delete_agent_query delete_agents
cleared_empty u t = none_left u.room.id t.agents

vacuum_all_ok :
    (c : Uploads) (u : Unfinished) (us : List Unfinished) (t v : AgentConnection.Tables)
    (ns : List Notification)
    → vacuum_all c (u ∷ us) t ≡ (v, ok ns)
    → (ms : List Notification) × (vacuum_all c us (cleared u t) ≡ (v, ok ms))
      × (ns ≡ closing u ∷ ms)
unfolding vacuum_all
vacuum_all_ok c u us t v ns h = elim (Result-cases (upload c u)) [
  | inr (e, p) ↦ ground (arith, h, p)
  | inl (n, p) ↦ elim (Result-cases (vacuum_all c us (cleared u t)).1) [
    | inr (e, q) ↦ ground (arith, h, p, q)
    | inl (ms, q) ↦ (ms, ground (arith, h, p, q), ground (arith, h, p, q, upload_ok c u n p))
  ]
]

vacuum_all_kept :
    (c : Uploads) (us : List Unfinished) (t v : AgentConnection.Tables) (ns : List Notification)
    (room_id : ℕ)
    → vacuum_all c us t ≡ (v, ok ns)
    → is_entered room_id t.agents ≡ false
    → is_entered room_id v.agents ≡ false
unfolding vacuum_all
vacuum_all_kept c [] t v ns room_id h e = ground (arith, h, e)
vacuum_all_kept c (u ∷ us) t v ns room_id h e =
    let (ms, rest, _) = vacuum_all_ok c u us t v ns h in
    vacuum_all_kept c us (cleared u t) v ms room_id rest (cleared_kept u t room_id e)

vacuum_all_empty :
    (c : Uploads) (us : List Unfinished) (t v : AgentConnection.Tables) (ns : List Notification)
    (u : Unfinished)
    → vacuum_all c us t ≡ (v, ok ns)
    → Has u us
    → is_entered u.room.id v.agents ≡ false
vacuum_all_empty c (x ∷ us) t v ns u h (inl e) =
    let (ms, rest, _) = vacuum_all_ok c x us t v ns h in
    rw (sym e) (vacuum_all_kept c us (cleared x t) v ms x.room.id rest (cleared_empty x t))
vacuum_all_empty c (x ∷ us) t v ns u h (inr k) =
    let (ms, rest, _) = vacuum_all_ok c x us t v ns h in
    vacuum_all_empty c us (cleared x t) v ms u rest k
vacuum_all_empty c [] t v ns u h k = elim k [ ]

vacuum_all_notes :
    (c : Uploads) (us : List Unfinished) (t v : AgentConnection.Tables) (ns : List Notification)
    → vacuum_all c us t ≡ (v, ok ns)
    → ns ≡ map closing us
unfolding vacuum_all
vacuum_all_notes c [] t v ns h = ground (arith, h)
vacuum_all_notes c (u ∷ us) t v ns h =
    let (ms, rest, e) = vacuum_all_ok c u us t v ns h in
    rw (e, vacuum_all_notes c us (cleared u t) v ms rest) refl

-- A vacuum that succeeds tells of the rooms of exactly the rows of its query. Among them is every recording in
-- progress of a room that has ended before now, whose RTCs are shared or owned and whose backend is of the
-- API version and the Janus group of the service: its room is told to be closed, and no agent is left in it.
pub vacuum_clears :
    (env : Env) (c : Uploads) (agent_id other : ℕ) (audience : String) (t : Tables)
    (v : AgentConnection.Tables) (ns : List Notification) (o : Recording.Object) (rtc : Rtc.Object)
    (room : Room.Object) (b : JanusBackend.Object) (id e : ℕ)
    → vacuum env c agent_id audience t ≡ (v, ok ns)
    → Has o t.recordings
    → o.status ≡ Recording.in_progress
    → Rtc.find_query t.rtcs o.rtc_id ≡ some rtc
    → Room.find_query rtc.room_id t.rooms ≡ some room
    → is_sharing room.rtc_sharing_policy ≡ true
    → bound_value room.time.end ≡ some e
    → e < env.db_now
    → room.backend_id ≡ some id
    → JanusBackend.find_query t.backends id ≡ some b
    → same_text b.api_version janus_api_version ≡ true
    → in_group c.janus_group b.group ≡ true
    → (ns ≡ map closing (finished_with_in_progress_recordings c.janus_group env.db_now t))
      × Has (note room_close (room_events room.id) room) ns
      × (check_room_presence room other v.agents ≡ err agent_not_entered_the_room)
unfolding vacuum finished_with_in_progress_recordings
vacuum_clears env c agent_id other audience t v ns o rtc room b id e h k st r f p n lt i g ver gr =
    elim (Result-cases (authorized env agent_id audience system update_action)) [
      | inr (x, q) ↦ ground (arith, h, q)
      | inl (x, q) ↦
          let u : Unfinished = record { room = room; recording = o; backend = b } in
          let us = finished_with_in_progress_recordings c.janus_group env.db_now t in
          let there : Has u us =
            Has-unfinished_of c.janus_group env.db_now t t.recordings o u k
              (join_found t o rtc room id b r f i g)
              (unfinished c.janus_group env.db_now e u st p n lt ver gr) in
          let run : vacuum_all c us t.agents ≡ (v, ok ns) = ground (arith, h, q) in
          let told = vacuum_all_notes c us t.agents v ns run in
          (
            told,
            subst (Has (closing u)) (sym told) (Has-map closing u us there),
            absent room other v.agents (vacuum_all_empty c us t.agents v ns u run there),
          )
    ]
