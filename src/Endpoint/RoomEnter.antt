-- ===== src/Endpoint/RoomEnter.antt =====
-- src/app/endpoint/room.rs: `EnterHandler` and `LeaveHandler`. The MQTT gateway is a parameter, and so is
-- the order in which a hash map of groups is read (`shuffle`).
pub mod Member
use conferences.Base.{
  ℕ, List, [], ◌∷◌, ◌++◌, map, length, Option, none, some, Bool, true, false, if◌then◌else◌, ◌==◌,
  ltb, Result, ok, err, ◌>>=◌, ok_or,
}
use conferences.AppError.{ErrorKind, backend_not_found, broker_request_failed, db_query_failed}
use conferences.Groups.{GroupItem, Groups, is_agent_exist, add_to_default_group}
use conferences.Groups
use conferences.Outbox.{EventId}
use conferences.Outbox
use conferences.Outbox.Pipeline.{Transactional}
use conferences.Outbox.Pipeline
use conferences.Stage.{AppStage, updated}
use conferences.Db.Agent
use conferences.Db.OrphanedRoom
use conferences.Db.Room
use conferences.Db.Rtc.{is_owned}
use conferences.Db.Rtc
use conferences.Endpoint.Group.{Ids, write_groups, run_pipeline}
use conferences.Endpoint.Group
use conferences.Endpoint.Handler.{classroom, read_action, Env, authorized, require}
use conferences.Endpoint.Helpers.{any_time, not_closed, find_room_by_id, check_room_presence}
use conferences.Endpoint.Rtc.{run_create}

-- The tables of the endpoints of groups, the agents and the orphaned rooms.
pub record Tables (J : Type 0) : Type 0 where
  pub grouped : Group.Tables J
  pub agents : List Agent.Object
  pub orphans : List OrphanedRoom.Object

-- The notifications of the response, all to the events of the room.
pub data EnterNote : Type 0 where
  rtc_create : Rtc.Object → EnterNote
  groups_changed : EnterNote
  room_enter : ℕ → EnterNote

-- The ids that the database gives, and the answer of the MQTT gateway.
pub record Given : Type 0 where
  pub agent_row : ℕ
  pub rtc_id : ℕ
  pub ids : Ids
  pub create_subscription : ℕ → ℕ → Bool

abbrev is_host : Option ℕ → ℕ → Bool
is_host none agent_id = false
is_host (some h) agent_id = h == agent_id

module _ {J : Type 0} where
  -- A row of the agent, which has entered but is not ready.
  unfoldable pub register : Env → ℕ → ℕ → ℕ → Tables J → Tables J
  unfolding Agent.insert_query
  register env row agent_id room_id t = record t {
    agents = Agent.insert_query row env.db_now agent_id room_id t.agents;
  }

  -- The agent is ready; the host's room is not orphaned any more.
  unfoldable pub make_ready : ℕ → Room.Object → Tables J → Tables J
  unfolding OrphanedRoom.remove_room Agent.update_query
  make_ready agent_id room t = record t {
    orphans =
        if is_host room.host agent_id
        then OrphanedRoom.remove_room room.id t.orphans
        else t.orphans;
    agents = (Agent.update_query agent_id room.id (some Agent.ready) t.agents).0;
  }

  -- The RTC of the agent, which is created unless there is one.
  unfoldable pub ensure_rtc :
      Env
      → ℕ
      → ℕ
      → Room.Object
      → Group.Tables J
      → Group.Tables J × Result ErrorKind (List EnterNote)
  unfolding Rtc.list_query run_create
  ensure_rtc env id agent_id room t =
      elim (Rtc.list_query
        (record Rtc.new { room_id = some room.id; created_by = some (agent_id ∷ []) }) t.rtcs) [
          | o ∷ os ↦ (t, ok [])
          | [] ↦
              let w = run_create env id agent_id room t.rooms t.rtcs in
              (record t { rtcs = w.0 }, elim w.1 [ err e ↦ err e | ok o ↦ ok (rtc_create o ∷ []) ])
        ]

module _ {J : Type 0} (penv : Pipeline.Env AppStage J)
    (shuffle : List GroupItem → List GroupItem) where
  -- The branches on whether the agent is in a group already, and on the number of groups.
  unfoldable pub join_changed :
      Env
      → Ids
      → ℕ
      → Room.Object
      → ℕ
      → Bool
      → Groups
      → Group.Tables J
      → Result ErrorKind (Group.Tables J × Option EventId)
  unfolding Groups.upsert_query write_groups
  join_changed env ids agent_id room len true changed t = ok (t, none)
  join_changed env ids agent_id room len false changed t =
      if ltb 1 len
      then (do
        backend_id ← ok_or room.backend_id backend_not_found
        w ← write_groups penv ids room backend_id (updated (env.clock 1)) changed t
        ok (w.0, some w.1))
      else ok
          (record t { groups = Groups.upsert_query ids.group_id room.id changed t.groups }, none)

  -- The transaction that adds the agent to the default group, with the event that it schedules.
  unfoldable pub join_groups :
      Env
      → Ids
      → ℕ
      → Room.Object
      → Group.Tables J
      → Result ErrorKind (Group.Tables J × Option EventId)
  unfolding Groups.find_query is_agent_exist add_to_default_group join_changed
  join_groups env ids agent_id room t = do
    g ← ok_or (Groups.find_query t.groups room.id) db_query_failed
    let changed = add_to_default_group shuffle g.groups agent_id
    join_changed env ids agent_id room (length g.groups) (is_agent_exist g.groups agent_id) changed
        t

  -- What follows the transaction: the pipeline, or a notification.
  unfoldable pub after_join :
      Transactional (List (Outbox.Object J))
      → Group.Tables J × Option EventId
      → Group.Tables J × List EnterNote
  unfolding run_pipeline
  after_join db (t, some e) = (run_pipeline penv db e t, [])
  after_join db (t, none) = (t, groups_changed ∷ [])

  -- The part for rooms with the owned policy.
  unfoldable pub enter_owned :
      Transactional (List (Outbox.Object J))
      → Env
      → Given
      → ℕ
      → Room.Object
      → Tables J
      → Tables J × Result ErrorKind (List EnterNote)
  unfolding ensure_rtc join_groups after_join
  enter_owned db env given agent_id room t =
      let r = ensure_rtc env given.rtc_id agent_id room t.grouped in
      let u = record t { grouped = r.0 } in
      elim r.1 [
        | err e ↦ (u, err e)
        | ok notes ↦ elim (join_groups env given.ids agent_id room r.0) [
          | err e ↦ (u, err e)
          | ok j ↦ let a = after_join db j in (record u { grouped = a.0 }, ok (notes ++ a.1))
        ]
      ]

  -- What `enter` does once the agent is ready.
  unfoldable pub enter_ready :
      Transactional (List (Outbox.Object J))
      → Env
      → Given
      → ℕ
      → Room.Object
      → Tables J
      → Tables J × Result ErrorKind (List EnterNote)
  unfolding enter_owned
  enter_ready db env given agent_id room t =
      if is_owned room.rtc_sharing_policy
      then (let r = enter_owned db env given agent_id room t in
          (r.0, do notes ← r.1; ok (notes ++ room_enter agent_id ∷ [])))
      else (t, ok (room_enter agent_id ∷ []))

  -- `EnterHandler::handle`.
  unfoldable pub enter :
      Transactional (List (Outbox.Object J))
      → Env
      → Given
      → ℕ
      → ℕ
      → Tables J
      → Tables J × Result ErrorKind (List EnterNote)
  unfolding find_room_by_id authorized register make_ready enter_ready
  enter db env given agent_id room_id t =
      elim (find_room_by_id room_id not_closed (env.clock 0) t.grouped.rooms) [
        | err e ↦ (t, err e)
        | ok room ↦
            elim (authorized env agent_id room.audience (classroom room.classroom_id) read_action) [
              | err e ↦ (t, err e)
              | ok _ ↦
                  let registered = register env given.agent_row agent_id room.id t in
                  if given.create_subscription agent_id room.id
                  then enter_ready db env given agent_id room (make_ready agent_id room registered)
                  else (registered, err broker_request_failed)
            ]
      ]

-- `LeaveHandler::handle`, up to the request `subscription.delete` that it sends to the broker: the agent and
-- the room that the request names.
unfoldable pub leave : Env → ℕ → ℕ → List Room.Object → List Agent.Object → Result ErrorKind (ℕ × ℕ)
unfolding find_room_by_id check_room_presence
leave env agent_id room_id rooms agents = do
  room ← find_room_by_id room_id any_time (env.clock 0) rooms
  _ ← check_room_presence room agent_id agents
  ok (agent_id, room.id)
