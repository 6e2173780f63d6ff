-- ===== src/Endpoint/Rtc.antt =====
-- src/app/endpoint/rtc.rs: creating, reading and listing RTCs. Connecting to one is in RtcConnect.antt.
use conferences.Base.{ℕ, min, List, Option, none, some, Result, ok, err, ◌>>=◌, ok_or, get_or}
use conferences.AppError.{ErrorKind, rtc_not_found, db_query_failed}
use conferences.Db.AgentConnection
use conferences.Db.JanusBackend
use conferences.Db.Recording
use conferences.Db.Room
use conferences.Db.Rtc.{SharingPolicy}
use conferences.Db.Rtc
use conferences.Db.RtcReaderConfig
use conferences.Db.RtcStream
use conferences.Db.RtcWriterConfig
use conferences.Endpoint.Handler.{
  rtcs, rtc, create_action, read_action, list_action, Env, authorized,
}
use conferences.Endpoint.Helpers.{opened, find_room_by_id, find_room_by_rtc_id}

-- The tables of the endpoints of RTCs.
pub record Tables : Type 0 where
  pub rooms : List Room.Object
  pub rtcs : List Rtc.Object
  pub agents : AgentConnection.Tables
  pub backends : List JanusBackend.Object
  pub streams : List RtcStream.Object
  pub recordings : List Recording.Object
  pub writer_configs : List RtcWriterConfig.Object
  pub reader_configs : List RtcReaderConfig.Object

-- The policy that the trigger reads.
unfoldable pub policy_of : Option Room.Object → Option SharingPolicy
policy_of none = none
policy_of (some room) = some room.rtc_sharing_policy

unfoldable pub created_rtc :
    List Rtc.Object × Result Rtc.InsertError Rtc.Object
    → List Rtc.Object × Result ErrorKind Rtc.Object
created_rtc (rows, err e) = (rows, err db_query_failed)
created_rtc (rows, ok o) = (rows, ok o)

-- `RtcCreate::run` on a room, with the id of the new row.
unfoldable pub run_create :
    Env
    → ℕ
    → ℕ
    → Room.Object
    → List Room.Object
    → List Rtc.Object
    → List Rtc.Object × Result ErrorKind Rtc.Object
unfolding authorized policy_of created_rtc Rtc.insert_query Room.find_query
run_create env id agent_id room rooms rtc_rows =
    elim (authorized env agent_id room.audience (rtcs room.classroom_id) create_action) [
      | err e ↦ (rtc_rows, err e)
      | ok _ ↦ created_rtc (
          Rtc.insert_query (policy_of (Room.find_query room.id rooms))
            (record { id = id; room_id = room.id; created_at = env.db_now; created_by = agent_id })
            rtc_rows)
    ]

-- `CreateHandler::handle`: the RTC is the answer, and the notification `rtc.create` to the room's events.
unfoldable pub create : Env → ℕ → ℕ → ℕ → Tables → Tables × Result ErrorKind Rtc.Object
unfolding find_room_by_id run_create
create env id agent_id room_id t = elim (find_room_by_id room_id opened (env.clock 0) t.rooms) [
  | err e ↦ (t, err e)
  | ok room ↦
      let w = run_create env id agent_id room t.rooms t.rtcs in (record t { rtcs = w.0 }, w.1)
]

-- `ReadHandler::handle`.
unfoldable pub read : Env → ℕ → ℕ → Tables → Result ErrorKind Rtc.Object
unfolding find_room_by_rtc_id authorized Rtc.find_query
read env agent_id rtc_id t = do
  room ← find_room_by_rtc_id rtc_id opened (env.clock 0) t.rtcs t.rooms
  _ ← authorized env agent_id room.audience (rtc room.classroom_id rtc_id) read_action
  ok_or (Rtc.find_query t.rtcs rtc_id) rtc_not_found

-- `MAX_LIMIT`.
abbrev pub max_limit : ℕ
max_limit = 25

-- `ListHandler::handle`, on an offset and a limit that are not negative.
unfoldable pub list :
    Env → ℕ → ℕ → Option ℕ → Option ℕ → Tables → Result ErrorKind (List Rtc.Object)
unfolding find_room_by_id authorized Rtc.list_query
list env agent_id room_id offset limit t = do
  room ← find_room_by_id room_id opened (env.clock 0) t.rooms
  _ ← authorized env agent_id room.audience (rtcs room.classroom_id) list_action
  ok (
      Rtc.list_query
        (record Rtc.new {
          room_id = some room_id;
          offset = offset;
          limit = some (min (get_or max_limit limit) max_limit);
        })
        t.rtcs)
