-- ===== src/Endpoint/Listing.antt =====
-- src/app/endpoint/agent.rs, the list of the agents of a room, and
-- src/app/endpoint/writer_config_snapshot.rs, the log of its writer configs; and
-- src/app/endpoint/rtc_stream.rs, the list of its streams.
use Prim.Native.String.{String}
use conferences.Base.{
  ℕ, err, min, List, Option, none, some, ◌&&◌, Result, ok, ◌>>=◌, get_or, same_text,
}
use conferences.AppError.{ErrorKind, access_denied, invalid_payload, not_implemented}
use conferences.Db.Agent
use conferences.Db.Room
use conferences.Db.Rtc.{none_policy, shared, owned, is_owned}
use conferences.Db.Rtc
use conferences.Db.RtcStream
use conferences.Db.RtcWriterConfig.{Snapshot, list_snapshots}
use conferences.Endpoint.Handler.{classroom, read_action, Env, authorized, require}
use conferences.Endpoint.Helpers.{any_time, opened, find_room_by_id}

-- `MAX_LIMIT` of agent.rs.
abbrev max_limit : ℕ
max_limit = 25

-- `agent::ListHandler::handle`, on an offset and a limit that are not negative.
unfoldable pub list_agents :
    Env
    → ℕ
    → ℕ
    → Option ℕ
    → Option ℕ
    → List Room.Object
    → List Agent.Object
    → Result ErrorKind (List Agent.Object)
unfolding find_room_by_id authorized Agent.list_query
list_agents env agent_id room_id offset limit rooms agents = do
  room ← find_room_by_id room_id opened (env.clock 0) rooms
  _ ← authorized env agent_id room.audience (classroom room.classroom_id) read_action
  ok (
      Agent.list_query
        (record {
          agent_id = none;
          room_id = some room_id;
          status = none;
          offset = some (get_or 0 offset);
          limit = some (min (get_or max_limit limit) max_limit);
        })
        agents)

-- An account, by its label and audience.
pub record AccountId : Type 0 where
  pub label : String
  pub audience : String

-- `writer_config_snapshot::ReadHandler::handle`: it is for the dispatcher of the service's audience.
unfoldable pub read_snapshots :
    Env
    → AccountId
    → String
    → ℕ
    → List Room.Object
    → List Rtc.Object
    → List Snapshot
    → Result ErrorKind (List Snapshot)
unfolding find_room_by_id list_snapshots
read_snapshots env account service_audience room_id rooms rtcs snapshots = do
  room ← find_room_by_id room_id any_time (env.clock 0) rooms
  _ ←
      require (same_text account.label "dispatcher" && same_text account.audience service_audience)
        access_denied
  _ ← require (is_owned room.rtc_sharing_policy) invalid_payload
  ok (list_snapshots room.id rtcs snapshots)

-- What `rtc_stream::ListHandler::handle` refuses: rooms without sharing.
unfoldable pub check_shared : Rtc.SharingPolicy → Result ErrorKind (Unit {0})
check_shared none_policy = err not_implemented
check_shared shared = ok tt
check_shared owned = ok tt

-- `rtc_stream::ListHandler::handle`, on an offset and a limit that are not negative.
unfoldable pub list_streams :
    Env
    → ℕ
    → ℕ
    → Option ℕ
    → Option Room.Time
    → Option ℕ
    → Option ℕ
    → List Room.Object
    → List Rtc.Object
    → List RtcStream.Object
    → Result ErrorKind (List RtcStream.Object)
unfolding find_room_by_id check_shared authorized RtcStream.list_query
list_streams env agent_id room_id rtc_id time offset limit rooms rtcs streams = do
  room ← find_room_by_id room_id opened (env.clock 0) rooms
  _ ← check_shared room.rtc_sharing_policy
  _ ← authorized env agent_id room.audience (classroom room.classroom_id) read_action
  ok (
      RtcStream.list_query rtcs
        (record {
          room_id = some room_id;
          rtc_id = rtc_id;
          time = time;
          active = none;
          offset = offset;
          limit = some (min (get_or max_limit limit) max_limit);
        })
        streams)
