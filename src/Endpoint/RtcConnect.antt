-- ===== src/Endpoint/RtcConnect.antt =====
-- src/app/endpoint/rtc.rs: `ConnectHandler`, and what it shares with `ConnectAndSignal`.
pub mod Backend
use Prim.Native.String.{String}
use conferences.Base.{
  ℕ, ◌≡◌, refl, arith, List, [], ◌∷◌, Option, none, some, Bool, true, false, not, ◌==◌, Result, ok,
  err, ◌>>=◌, map_err, ok_or, same_text, or_else, if◌then◌else◌,
}
use conferences.AppError.{
  ErrorKind, access_denied, agent_not_entered_the_room, backend_client_creation_failed,
  backend_not_found, backend_request_failed, capacity_exceeded, db_query_failed,
  no_available_backends, not_implemented, rtc_not_found,
}
use conferences.Db.Agent
use conferences.Db.AgentConnection
use conferences.Db.JanusBackend
use conferences.Db.JanusBackend.Load.{most_loaded, least_loaded, free_capacity}
use conferences.Db.JanusBackend.Load
use conferences.Db.Room
use conferences.Db.Rtc.{none_policy, shared, owned}
use conferences.Db.Rtc
use conferences.Endpoint.Handler.{
  rtc, Action, read_action, update_action, Env, authorized, of_sql, require,
}
use conferences.Endpoint.Helpers.{opened, find_room_by_rtc_id}
use conferences.Endpoint.Rtc.{Tables}

pub data ConnectIntent : Type 0 where
  read_intent write_intent : ConnectIntent

-- What the handlers ask of Janus for a connection, and of PostgreSQL's `RANDOM()`: whether a client for a
-- backend is there, the handle that a session makes for a room and a stream, and the group of the service.
pub record Connector : Type 0 where
  pub get_or_insert : JanusBackend.Object → Bool
  pub create_handle : ℕ → ℕ → ℕ → Option ℕ
  pub random_order : List JanusBackend.Object → List JanusBackend.Object
  pub janus_group : Option String

-- `app::handle_id::HandleId`.
pub record HandleId : Type 0 where
  pub rtc_stream_id : ℕ
  pub rtc_id : ℕ
  pub janus_handle_id : ℕ
  pub janus_session_id : ℕ
  pub backend_id : ℕ

abbrev is_write : ConnectIntent → Bool
is_write write_intent = true
is_write read_intent = false

-- The check of the sharing policy: a writer has to be the creator of an RTC of an owned room.
unfoldable pub check_room_policy :
    ConnectIntent → ℕ → ℕ → List Rtc.Object → Room.Object → Result ErrorKind (Unit {0})
unfolding Rtc.find_query
check_room_policy intent agent_id rtc_id rtcs room = elim room.rtc_sharing_policy [
  | none_policy ↦ err not_implemented
  | shared ↦ ok tt
  | owned ↦ elim intent [
    | read_intent ↦ ok tt
    | write_intent ↦ elim (Rtc.find_query rtcs rtc_id) [
      | none ↦ err rtc_not_found
      | some o ↦ require (o.created_by == agent_id) access_denied
    ]
  ]
]

unfoldable pub action_of : ConnectIntent → Action
action_of read_intent = read_action
action_of write_intent = update_action

unfoldable pub authorize_connect :
    Env → ConnectIntent → ℕ → ℕ → Room.Object → Result ErrorKind (Unit {0})
unfolding authorized action_of
authorize_connect env intent agent_id rtc_id room =
    authorized env agent_id room.audience (rtc room.classroom_id rtc_id) (action_of intent)

unfoldable pub load_tables : Env → Tables → Load.Tables
load_tables env t = record {
  backends = t.backends;
  rooms = t.rooms;
  rtcs = t.rtcs;
  agents = t.agents.agents;
  connections = t.agents.connections;
  writer_configs = t.writer_configs;
  now = env.db_now;
}

abbrev is_minigroup : Option String → Bool
is_minigroup none = false
is_minigroup (some g) = same_text g "minigroup"

-- The backend that a room without one is given.
unfoldable pub available_backend : Connector → Load.Tables → ℕ → Option JanusBackend.Object
unfolding most_loaded least_loaded
available_backend c t room_id =
    let most = most_loaded c.random_order t room_id c.janus_group in
    let least = least_loaded c.random_order t room_id c.janus_group in
    if is_minigroup c.janus_group then or_else least most else or_else most least

-- The `match` on the backend of the room.
unfoldable pub choose_backend :
    Connector → Load.Tables → Room.Object → Result ErrorKind JanusBackend.Object
unfolding available_backend JanusBackend.find_query
choose_backend c t room = elim room.backend_id [
  | some id ↦ ok_or (JanusBackend.find_query t.backends id) backend_not_found
  | none ↦ ok_or (available_backend c t room.id) no_available_backends
]

-- The `match` on the intent: a reader needs a free slot, a writer gives the room its backend.
unfoldable pub take_place :
    Env
    → ConnectIntent
    → ℕ
    → Room.Object
    → JanusBackend.Object
    → Tables
    → Tables × Result ErrorKind (Unit {0})
unfolding load_tables free_capacity Room.update_query Room.new_update
take_place env read_intent rtc_id room backend t = elim (free_capacity (load_tables env t) rtc_id) [
  | err e ↦ (t, err (of_sql e))
  | ok n ↦ (t, require (not (n == 0)) capacity_exceeded)
]
take_place env write_intent rtc_id room backend t = elim room.backend_id [
  | some id ↦ (t, ok tt)
  | none ↦
      let w =
        Room.update_query (record Room.new_update { backend_id = some backend.id }) room.id
          t.rooms in
      (record t { rooms = w.0 }, elim w.1 [ err e ↦ err (of_sql e) | ok o ↦ ok tt ])
]

-- The handle that Janus makes.
unfoldable pub make_handle : Connector → JanusBackend.Object → ℕ → ℕ → Result ErrorKind ℕ
make_handle c backend room_id stream_id = do
  _ ← require (c.get_or_insert backend) backend_client_creation_failed
  ok_or (c.create_handle backend.session_id room_id stream_id) backend_request_failed

unfoldable pub ready_agents : ℕ → ℕ → List Agent.Object → List Agent.Object
unfolding Agent.list_query
ready_agents agent_id room_id = Agent.list_query (record {
  agent_id = some agent_id;
  room_id = some room_id;
  status = some Agent.ready;
  offset = none;
  limit = some 1;
})

-- The transaction that writes the connection of the agent.
unfoldable pub write_connection :
    Env → ℕ → ℕ → ℕ → ℕ → Tables → Tables × Result ErrorKind (Unit {0})
unfolding ready_agents AgentConnection.upsert_query
write_connection env agent_id room_id rtc_id handle_id t =
    elim (ready_agents agent_id room_id t.agents.agents) [
      | [] ↦ (t, err agent_not_entered_the_room)
      | a ∷ _ ↦
          let w = AgentConnection.upsert_query a.id rtc_id handle_id (env.clock 1) t.agents in
          (record t { agents = w.0 }, elim w.1 [ err e ↦ err db_query_failed | ok c ↦ ok tt ])
    ]

-- A step on the tables, and those that follow it unless it fails.
infixl 5 ◌then_do◌
abbrev pub ◌then_do◌ {ℓ κ} :
    {A : Type ℓ} {B : Type κ}
    → Tables × Result ErrorKind A
    → (Tables → A → Tables × Result ErrorKind B)
    → Tables × Result ErrorKind B
(t, ok a) then_do f = f t a
(t, err e) then_do f = (t, err e)

-- Steps succeed only through the first.
pub then_ok {ℓ κ} :
    {A : Type ℓ} {B : Type κ} (x : Tables × Result ErrorKind A)
    (f : Tables → A → Tables × Result ErrorKind B) (u : Tables) (b : B)
    → (x then_do f) ≡ (u, ok b)
    → (t : Tables) × (a : A) × (x ≡ (t, ok a)) × (f t a ≡ (u, ok b))
then_ok (t, ok a) f u b h = (t, a, refl, h)
then_ok (t, err e) f u b h = ground arith

-- The same of a step that leaves the tables alone.
pub then_pure {ℓ κ} :
    {A : Type ℓ} {B : Type κ} (t : Tables) (r : Result ErrorKind A)
    (f : Tables → A → Tables × Result ErrorKind B) (u : Tables) (b : B)
    → ((t, r) then_do f) ≡ (u, ok b)
    → (a : A) × (r ≡ ok a) × (f t a ≡ (u, ok b))
then_pure t (ok a) f u b h = (a, refl, h)
then_pure t (err e) f u b h = ground arith

-- What both handlers do once the room is found and the request allowed: the id of the connection.
unfoldable pub open_handle :
    Env
    → Connector
    → ConnectIntent
    → ℕ
    → ℕ
    → ℕ
    → Room.Object
    → Tables
    → Tables × Result ErrorKind (HandleId × JanusBackend.Object)
unfolding choose_backend take_place make_handle write_connection load_tables
open_handle env c intent stream_id agent_id rtc_id room t =
    (t, choose_backend c (load_tables env t) room) then_do λ t backend.
    take_place env intent rtc_id room backend t then_do λ t _.
    (t, make_handle c backend room.id stream_id) then_do λ t handle.
    write_connection env agent_id room.id rtc_id handle t then_do λ t _. (
      t,
      ok (
        record {
          rtc_stream_id = stream_id;
          rtc_id = rtc_id;
          janus_handle_id = handle;
          janus_session_id = backend.session_id;
          backend_id = backend.id;
        },
        backend,
      ),
    )

-- `ConnectHandler::handle`, with the random id of the stream.
unfoldable pub connect :
    Env → Connector → ConnectIntent → ℕ → ℕ → ℕ → Tables → Tables × Result ErrorKind HandleId
unfolding find_room_by_rtc_id check_room_policy authorize_connect open_handle
connect env c intent stream_id agent_id rtc_id t =
    (t, find_room_by_rtc_id rtc_id opened (env.clock 0) t.rtcs t.rooms) then_do λ t room.
    (t, check_room_policy intent agent_id rtc_id t.rtcs room) then_do λ t _.
    (t, authorize_connect env intent agent_id rtc_id room) then_do λ t _.
    open_handle env c intent stream_id agent_id rtc_id room t then_do λ t r. (t, ok r.0)
