-- ===== src/Endpoint/AgentReaderConfig.antt =====
-- src/app/endpoint/agent_reader_config.rs: what an agent of a room receives of the agents of his groups.
pub mod Own
use conferences.Base.{
  ℕ, List, [], ◌∷◌, map, length, Option, none, some, Bool, true, false, if◌then◌else◌, leb, Result,
  ok, err, ◌>>=◌, ok_or, any, ◌==◌,
}
use conferences.AppError.{
  ErrorKind, invalid_payload, db_query_failed, backend_client_creation_failed,
  backend_request_failed,
}
use conferences.Groups.{GroupItem, Groups, contains, filter_by_agent}
use conferences.Groups
use conferences.GroupReaderConfig.{agent_rtc, all_agents}
use conferences.Db.Agent
use conferences.Db.JanusBackend
use conferences.Db.Room
use conferences.Db.Rtc.{is_owned}
use conferences.Db.Rtc
use conferences.Db.RtcReaderConfig.{list_with_rtc_query, upsert_query}
use conferences.Db.RtcReaderConfig
use conferences.Endpoint.Handler.{
  classroom, read_action, update_action, Env, authorized, Janus, ReaderItem, require, maybe_backend,
}
use conferences.Endpoint.Helpers.{opened, find_room_by_id, check_room_presence}

pub record StateConfigItem : Type 0 where
  pub agent_id : ℕ
  pub receive_video : Option Bool
  pub receive_audio : Option Bool

pub record State : Type 0 where
  pub room_id : ℕ
  pub configs : List StateConfigItem

unfoldable pub state_item : RtcReaderConfig.Object × Rtc.Object → StateConfigItem
state_item (c, rtc) = record {
  agent_id = rtc.created_by;
  receive_video = some c.receive_video;
  receive_audio = some c.receive_audio;
}

-- `State::new`.
unfoldable pub new_state : ℕ → List (RtcReaderConfig.Object × Rtc.Object) → State
unfolding state_item
new_state room_id cs = record { room_id = room_id; configs = map state_item cs }

pub record Tables : Type 0 where
  pub rooms : List Room.Object
  pub agents : List Agent.Object
  pub rtcs : List Rtc.Object
  pub backends : List JanusBackend.Object
  pub groups : List Groups.Object
  pub reader_configs : List RtcReaderConfig.Object

-- `MAX_STATE_CONFIGS_LEN`.
abbrev pub max_state_configs_len : ℕ
max_state_configs_len = 20

-- The agents of the groups that the agent is in.
unfoldable pub group_agents : ℕ → ℕ → List Groups.Object → Result ErrorKind (List ℕ)
unfolding Groups.find_query filter_by_agent all_agents
group_agents room_id agent_id groups = do
  g ← ok_or (Groups.find_query groups room_id) db_query_failed
  ok (all_agents (filter_by_agent g.groups agent_id))

-- One round of the loop in the transaction; the reader is the agent who asks.
unfoldable pub update_item :
    ℕ
    → List ℕ
    → List Rtc.Object
    → StateConfigItem
    → List RtcReaderConfig.Object
    → Result ErrorKind (List RtcReaderConfig.Object)
unfolding agent_rtc contains upsert_query
update_item agent_id groups rtcs item rows = do
  rtc_id ← ok_or (agent_rtc rtcs item.agent_id) invalid_payload
  _ ← require (contains item.agent_id groups) invalid_payload
  ok (upsert_query rtc_id agent_id item.receive_video item.receive_audio rows)

unfoldable pub update_items :
    ℕ
    → List ℕ
    → List Rtc.Object
    → List StateConfigItem
    → List RtcReaderConfig.Object
    → Result ErrorKind (List RtcReaderConfig.Object)
unfolding update_item
update_items agent_id groups rtcs [] rows = ok rows
update_items agent_id groups rtcs (x ∷ xs) rows = do
  new_rows ← update_item agent_id groups rtcs x rows
  update_items agent_id groups rtcs xs new_rows

-- The RTCs of the agents that the request names.
unfoldable pub owned_rtcs : ℕ → List StateConfigItem → List Rtc.Object → List Rtc.Object
unfolding Rtc.list_query
owned_rtcs room_id configs = Rtc.list_query (record Rtc.new {
  room_id = some room_id;
  created_by = some (map StateConfigItem.agent_id configs);
})

-- The transaction: the rows that it writes.
unfoldable pub transaction :
    ℕ
    → ℕ
    → List StateConfigItem
    → List Groups.Object
    → List Rtc.Object
    → List RtcReaderConfig.Object
    → Result ErrorKind (List RtcReaderConfig.Object)
unfolding group_agents update_items owned_rtcs
transaction agent_id room_id configs groups rtcs rows = do
  members ← group_agents room_id agent_id groups
  update_items agent_id members (owned_rtcs room_id configs rtcs) configs rows

-- The room of a request of an agent who is there; the policy is looked at after the presence.
unfoldable pub find_owned_room : Env → ℕ → ℕ → Tables → Result ErrorKind Room.Object
unfolding find_room_by_id check_room_presence
find_owned_room env agent_id room_id t = do
  room ← find_room_by_id room_id opened (env.clock 0) t.rooms
  _ ← check_room_presence room agent_id t.agents
  _ ← require (is_owned room.rtc_sharing_policy) invalid_payload
  ok room

-- What comes before the transaction.
unfoldable pub prepare : Env → ℕ → ℕ → List StateConfigItem → Tables → Result ErrorKind Room.Object
unfolding find_owned_room authorized
prepare env agent_id room_id configs t = do
  _ ← require (leb (length configs) max_state_configs_len) invalid_payload
  room ← find_owned_room env agent_id room_id t
  _ ← authorized env agent_id room.audience (classroom room.classroom_id) update_action
  ok room

unfoldable pub reader_item : RtcReaderConfig.Object × Rtc.Object → ReaderItem
reader_item (c, rtc) = record {
  reader_id = c.reader_id;
  stream_id = rtc.id;
  receive_video = c.receive_video;
  receive_audio = c.receive_audio;
}

unfoldable pub send_to_janus :
    Janus
    → Option JanusBackend.Object
    → List (RtcReaderConfig.Object × Rtc.Object)
    → Result ErrorKind (Unit {0})
unfolding reader_item
send_to_janus janus none cs = ok tt
send_to_janus janus (some b) cs = do
  _ ← require (janus.get_or_insert b) backend_client_creation_failed
  require (janus.reader_update b.session_id b.handle_id (map reader_item cs)) backend_request_failed

unfoldable pub after_update : Janus → ℕ → Room.Object → Tables → Result ErrorKind State
unfolding maybe_backend list_with_rtc_query send_to_janus new_state
after_update janus agent_id room t =
    let cs = list_with_rtc_query room.id (agent_id ∷ []) t.rtcs t.reader_configs in
    do _ ← send_to_janus janus (maybe_backend room t.backends) cs; ok (new_state room.id cs)

-- `UpdateHandler::handle`.
unfoldable pub update :
    Env → Janus → ℕ → ℕ → List StateConfigItem → Tables → Tables × Result ErrorKind State
unfolding prepare transaction after_update
update env janus agent_id room_id configs t = elim (prepare env agent_id room_id configs t) [
  | err e ↦ (t, err e)
  | ok room ↦ elim (transaction agent_id room.id configs t.groups t.rtcs t.reader_configs) [
    | err e ↦ (t, err e)
    | ok rows ↦
        let u = record t { reader_configs = rows } in (u, after_update janus agent_id room u)
  ]
]

-- `ReadHandler::handle`.
unfoldable pub read : Env → ℕ → ℕ → Tables → Result ErrorKind State
unfolding find_owned_room authorized list_with_rtc_query new_state
read env agent_id room_id t = do
  room ← find_owned_room env agent_id room_id t
  _ ← authorized env agent_id room.audience (classroom room.classroom_id) read_action
  ok (new_state room.id (list_with_rtc_query room.id (agent_id ∷ []) t.rtcs t.reader_configs))
