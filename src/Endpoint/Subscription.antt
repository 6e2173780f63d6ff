-- ===== src/Endpoint/Subscription.antt =====
-- src/app/endpoint/subscription.rs: what the broker tells about subscriptions that ended, and how an agent
-- leaves. The parser of UUIDs is a parameter; accounts and agents are their ids.
pub mod Left
use Prim.Native.String.{String}
use conferences.Base.{
  ℕ, List, [], ◌∷◌, Option, none, some, Bool, true, false, ◌&&◌, if◌then◌else◌, ◌==◌, ltb, Result,
  ok, err, ◌>>=◌, ok_or, same_text,
}
use conferences.AppError.{
  ErrorKind, access_denied, agent_not_entered_the_room, invalid_subscription_object,
}
use conferences.Db.AgentConnection.{delete_agent_query}
use conferences.Db.AgentConnection
use conferences.Db.OrphanedRoom
use conferences.Db.Room
use conferences.Endpoint.Handler.{Env, require}

pub record Tables : Type 0 where
  pub rooms : List Room.Object
  pub agents : AgentConnection.Tables
  pub orphans : List OrphanedRoom.Object

-- `RoomEnterLeaveEvent`, the body of the notification `room.leave`.
pub record RoomEnterLeaveEvent : Type 0 where
  pub id : ℕ
  pub agent_id : ℕ

-- `ensure_broker`, on the ids of the broker's account and the sender's.
unfoldable pub ensure_broker : ℕ → ℕ → Result ErrorKind (Unit {0})
ensure_broker broker_id sender = require (sender == broker_id) access_denied

-- `try_room_id`.
unfoldable pub try_room_id : (String → Option ℕ) → List String → Result ErrorKind ℕ
try_room_id parse [] = err invalid_subscription_object
try_room_id parse (a ∷ []) = err invalid_subscription_object
try_room_id parse (a ∷ b ∷ []) = err invalid_subscription_object
try_room_id parse (a ∷ b ∷ c ∷ []) =
    if same_text a "rooms" && same_text c "events"
    then ok_or (parse b) invalid_subscription_object
    else err invalid_subscription_object
try_room_id parse (a ∷ b ∷ c ∷ d ∷ ds) = err invalid_subscription_object

-- The host of a room that may be missing.
unfoldable pub host_of : Option Room.Object → Option ℕ
host_of none = none
host_of (some r) = r.host

-- `make_orphaned_if_host_left`.
unfoldable pub make_orphaned_if_host_left :
    ℕ → ℕ → ℕ → List Room.Object → List OrphanedRoom.Object → List OrphanedRoom.Object
unfolding host_of Room.find_query OrphanedRoom.upsert_room
make_orphaned_if_host_left room_id agent_left now rooms orphans =
    elim (host_of (Room.find_query room_id rooms)) [
      | none ↦ orphans
      | some h ↦ if h == agent_left then OrphanedRoom.upsert_room room_id now orphans else orphans
    ]

-- `leave_room`: the rows of the agent in all rooms are deleted, and the host of this one makes it orphaned.
unfoldable pub leave_room : Env → ℕ → ℕ → Tables → Tables × Bool
unfolding delete_agent_query make_orphaned_if_host_left
leave_room env agent_id room_id t =
    let d = delete_agent_query (some agent_id) none t.agents in
    if ltb d.1 1 then (record t { agents = d.0 }, false) else (
      record t {
        agents = d.0;
        orphans = make_orphaned_if_host_left room_id agent_id (env.clock 0) t.rooms t.orphans;
      },
      true,
    )

-- What both handlers check.
unfoldable pub room_of : (String → Option ℕ) → ℕ → ℕ → List String → Result ErrorKind ℕ
unfolding ensure_broker try_room_id
room_of parse broker_id sender object = do
  _ ← ensure_broker broker_id sender
  try_room_id parse object

-- `DeleteResponseHandler::handle`, up to the answer to the request that it belongs to.
unfoldable pub delete_response :
    Env
    → (String → Option ℕ)
    → ℕ
    → ℕ
    → ℕ
    → List String
    → Tables
    → Tables × Result ErrorKind RoomEnterLeaveEvent
unfolding room_of leave_room
delete_response env parse broker_id sender subject object t =
    elim (room_of parse broker_id sender object) [
      | err e ↦ (t, err e)
      | ok room_id ↦
          let l = leave_room env subject room_id t in
          (
            l.0,
            if l.1
                then ok (record { id = room_id; agent_id = subject })
                else err agent_not_entered_the_room,
          )
    ]

-- `DeleteEventHandler::handle`.
unfoldable pub delete_event :
    Env
    → (String → Option ℕ)
    → ℕ
    → ℕ
    → ℕ
    → List String
    → Tables
    → Tables × Result ErrorKind (Option RoomEnterLeaveEvent)
unfolding room_of leave_room
delete_event env parse broker_id sender subject object t =
    elim (room_of parse broker_id sender object) [
      | err e ↦ (t, err e)
      | ok room_id ↦
          let l = leave_room env subject room_id t in
          (l.0, ok (if l.1 then some (record { id = room_id; agent_id = subject }) else none))
    ]
