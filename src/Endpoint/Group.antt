-- ===== src/Endpoint/Group.antt =====
-- src/app/endpoint/group/update.rs and list.rs: the groups of a room. The pipeline of the outbox is that
-- of Outbox.Pipeline; a stage that fails is only logged here, and left to the outbox.
pub mod Listed
use Prim.Native.String.{String}
use conferences.Base.{
  ℕ, ◌+◌, List, [], ◌∷◌, map, length, Option, none, some, Bool, true, false, ◌&&◌, if◌then◌else◌,
  ◌==◌, ltb, Result, ok, err, ◌>>=◌, ok_or,
}
use conferences.AppError.{
  ErrorKind, backend_not_found, db_query_failed, invalid_payload, outbox_stage_serialization_failed,
}
use conferences.Groups.{Groups, filter_by_agent}
use conferences.Groups
use conferences.GroupReaderConfig.{Entry}
use conferences.GroupReaderConfig
use conferences.Outbox.{EventId, inserted, insert_query}
use conferences.Outbox
use conferences.Outbox.Backoff.{delivery_deadline_from_now}
use conferences.Outbox.Pipeline.{Transactional, run_single_stage}
use conferences.Outbox.Pipeline
use conferences.Stage.{
  AppStage, VideoGroupEvent, created, deleted, updated, ConfigItem, video_group_update_janus_config,
}
use conferences.Db.Room
use conferences.Db.Rtc.{is_owned}
use conferences.Db.Rtc
use conferences.Db.RtcReaderConfig
use conferences.Endpoint.Handler.{classroom, read_action, update_action, Env, authorized, require}
use conferences.Endpoint.Helpers.{not_closed, find_room_by_id}

-- The tables, with the JSON `J` of the stages in the outbox.
pub record Tables (J : Type 0) : Type 0 where
  pub rooms : List Room.Object
  pub rtcs : List Rtc.Object
  pub groups : List Groups.Object
  pub reader_configs : List RtcReaderConfig.Object
  pub outbox : List (Outbox.Object J)

-- The ids that the database gives: of a new row of groups, and of the event.
pub record Ids : Type 0 where
  pub group_id : ℕ
  pub event_id : ℕ

-- `stage::video_group`: the type of the entity and the operations.
abbrev pub entity_type : String
entity_type = "video_group"

unfoldable pub operation_of : VideoGroupEvent → String
operation_of (created t) = "created"
operation_of (deleted t) = "deleted"
operation_of (updated t) = "updated"

-- Which event a change of groups is, by the numbers of groups before and after it.
unfoldable pub event_of : ℕ → ℕ → ℕ → VideoGroupEvent
event_of existed new_len timestamp =
    if existed == 1
    then created timestamp
    else if ltb 1 existed && new_len == 1
    then deleted timestamp
    else updated timestamp

unfoldable pub config_item : Entry → ConfigItem
config_item e = record {
  reader_id = e.agent_id;
  stream_id = e.rtc_id;
  receive_video = e.receive;
  receive_audio = e.receive;
}

module _ {J : Type 0} (penv : Pipeline.Env AppStage J) where
  -- The insert of the first stage.
  unfoldable pub insert_stage :
      ℕ
      → String
      → AppStage
      → List (Outbox.Object J)
      → Result ErrorKind (List (Outbox.Object J) × EventId)
  unfolding inserted insert_query delivery_deadline_from_now
  insert_stage seq operation stage rows = do
    json ← ok_or (penv.encode stage) outbox_stage_serialization_failed
    let w =
        insert_query
          (inserted seq penv.now entity_type json
            (delivery_deadline_from_now penv.now penv.try_wake_interval) operation)
          rows
    elim w.1 [ err e ↦ err db_query_failed | ok e ↦ ok (w.0, e) ]

  -- What a change of groups writes: the groups, the reader configs and the first stage.
  unfoldable pub write_groups :
      Ids
      → Room.Object
      → ℕ
      → VideoGroupEvent
      → Groups
      → Tables J
      → Result ErrorKind (Tables J × EventId)
  unfolding Groups.upsert_query GroupReaderConfig.update config_item insert_stage operation_of
  write_groups ids room backend_id event groups t =
      let r = GroupReaderConfig.update t.rtcs t.reader_configs room.id groups in
      do
        w ←
            insert_stage ids.event_id (operation_of event)
              (video_group_update_janus_config room.id room.classroom_id event backend_id
                (map config_item r.1))
              t.outbox
        ok (
          record t {
            groups = Groups.upsert_query ids.group_id room.id groups t.groups;
            reader_configs = r.0;
            outbox = w.0;
          },
          w.1,
        )

  -- The transaction of `update`.
  unfoldable pub change_groups :
      Env → Ids → Room.Object → ℕ → Groups → Tables J → Result ErrorKind (Tables J × EventId)
  unfolding Groups.find_query event_of write_groups
  change_groups env ids room backend_id groups t = do
    g ← ok_or (Groups.find_query t.groups room.id) db_query_failed
    write_groups ids room backend_id (event_of (length g.groups) (length groups) (env.clock 1))
        groups t

  module _ (db : Transactional (List (Outbox.Object J))) where
    abbrev pub outbox_after :
        Option (List (Outbox.Object J) × Result Pipeline.Failure (Unit {0}))
        → List (Outbox.Object J)
        → List (Outbox.Object J)
    outbox_after none rows = rows
    outbox_after (some (new_rows, r)) rows = new_rows

    -- `run_single_stage` from the event on; four rounds are enough (Stage.Chain).
    unfoldable pub run_pipeline : EventId → Tables J → Tables J
    run_pipeline e t = record t {
      outbox = outbox_after (run_single_stage penv db 4 0 e t.outbox) t.outbox;
    }

  -- What comes before the transaction: the room and its backend.
  unfoldable pub prepare_update : Env → ℕ → ℕ → Tables J → Result ErrorKind (Room.Object × ℕ)
  unfolding find_room_by_id authorized
  prepare_update env agent_id room_id t = do
    room ← find_room_by_id room_id not_closed (env.clock 0) t.rooms
    _ ← authorized env agent_id room.audience (classroom room.classroom_id) update_action
    _ ← require (is_owned room.rtc_sharing_policy) invalid_payload
    backend_id ← ok_or room.backend_id backend_not_found
    ok (room, backend_id)

  -- `update::Handler::handle`.
  unfoldable pub update :
      Transactional (List (Outbox.Object J))
      → Env
      → Ids
      → ℕ
      → ℕ
      → Groups
      → Tables J
      → Tables J × Result ErrorKind (Unit {0})
  unfolding prepare_update change_groups run_pipeline
  update db env ids agent_id room_id groups t = elim (prepare_update env agent_id room_id t) [
    | err e ↦ (t, err e)
    | ok r ↦ elim (change_groups env ids r.0 r.1 groups t) [
      | err e ↦ (t, err e)
      | ok w ↦ (run_pipeline db w.1 w.0, ok tt)
    ]
  ]

  -- `list::Handler::handle`.
  unfoldable pub list : Env → ℕ → ℕ → Bool → Tables J → Result ErrorKind Groups
  unfolding find_room_by_id authorized Groups.find_query filter_by_agent
  list env agent_id room_id within_group t = do
    room ← find_room_by_id room_id not_closed (env.clock 0) t.rooms
    _ ← authorized env agent_id room.audience (classroom room.classroom_id) read_action
    _ ← require (is_owned room.rtc_sharing_policy) invalid_payload
    g ← ok_or (Groups.find_query t.groups room_id) db_query_failed
    ok (if within_group then filter_by_agent g.groups agent_id else g.groups)
