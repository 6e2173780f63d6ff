-- ===== src/Janus/Online.antt =====
-- src/backend/janus/online_handler.rs: `handle_online`. The requests to Janus are parameters.
pub mod Registered
use Prim.Native.String.{String}
use conferences.Base.{
  ℕ, List, Option, none, some, Bool, true, false, if◌then◌else◌, Result, ok, err, ◌>>=◌, ok_or,
  get_or,
}
use conferences.Db.JanusBackend.{Object, UpsertQuery, new, find_query, upsert_query, inserted}
use conferences.Janus.Pool.{Clients, get_or_insert}
use conferences.Janus.Pool

-- `Online`.
pub record Event : Type 0 where
  pub capacity : Option ℕ
  pub balancer_capacity : Option ℕ
  pub group : Option String
  pub janus_url : String
  pub agent_id : ℕ

-- A Janus: the ids that it gives, and whether it answers a ping of a session and a handle.
pub record Janus : Type 0 where
  pub is_url : String → Bool
  pub service_ping : (session_id handle_id : ℕ) → Bool
  pub create_session : Option ℕ
  pub create_handle : (session_id : ℕ) → Option ℕ

pub record State : Type 0 where
  pub backends : List Object
  pub clients : Clients

pub data Error : Type 0 where
  invalid_url create_session_failed create_first_handle_failed ping_failed : Error
  client_failed : Pool.Error → Error

-- The query, with what the event gives.
unfoldable pub upsert_of : Event → (handle_id session_id : ℕ) → UpsertQuery
unfolding new
upsert_of e handle_id session_id = record (new e.agent_id handle_id session_id e.janus_url) {
  capacity = e.capacity;
  balancer_capacity = e.balancer_capacity;
  group = e.group;
}

abbrev pinged : Bool → Result Error (Unit {0})
pinged true = ok tt
pinged false = err ping_failed

-- The session and the handle of a new registration.
unfoldable pub register : Janus → Result Error (ℕ × ℕ)
register j = do
  session ← ok_or j.create_session create_session_failed
  handle ← ok_or (j.create_handle session) create_first_handle_failed
  _ ← pinged (j.service_ping session handle)
  ok (session, handle)

-- `clients.get_or_insert(…)?`.
unfoldable pub with_client : Janus → Object → State → State × Result Error (Unit {0})
unfolding get_or_insert
with_client j backend st =
    let (clients, r) = get_or_insert j.is_url backend st.clients in
    (record st { clients = clients }, elim r [ ok c ↦ ok tt | err e ↦ err (client_failed e) ])

-- From `create_session` on; the upsert returns its row.
unfoldable pub come_online : Janus → Event → ℕ → State → State × Result Error (Unit {0})
unfolding register upsert_of find_query upsert_query with_client
come_online j event now st = elim (register j) [
  | err e ↦ (st, err e)
  | ok (session_id, handle_id) ↦
      let q = upsert_of event handle_id session_id in
      let backends = upsert_query q now st.backends in
      let row = get_or (inserted q now) (find_query backends q.id) in
      with_client j row (record st { backends = backends })
]

-- An existing backend that answers a ping.
unfoldable pub alive : Janus → Option Object → Option Object
alive j none = none
alive j (some b) = if j.service_ping b.session_id b.handle_id then some b else none

-- `handle_online`.
unfoldable pub handle_online : Janus → Event → ℕ → State → State × Result Error (Unit {0})
unfolding alive find_query with_client come_online
handle_online j event now st =
    let new_one = come_online j event now st in
    if j.is_url event.janus_url
    then elim (alive j (find_query st.backends event.agent_id)) [
      | some backend ↦ with_client j backend st
      | none ↦ new_one
    ]
    else (st, err invalid_url)
