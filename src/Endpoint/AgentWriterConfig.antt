-- ===== src/Endpoint/AgentWriterConfig.antt =====
-- src/app/endpoint/agent_writer_config.rs: what the agents of a room may send. Answers of Janus are a
-- parameter; a state without `updated_at_ns` is a state of no configs.
pub mod Safe
use conferences.Base.{
  ℕ, suc, ◌%◌, ◌^◌, max, List, [], ◌∷◌, map, length, Option, none, some, Bool, true, false, not,
  ◌||◌, if◌then◌else◌, ◌==◌, leb, Result, ok, err, ◌>>=◌, map_err, ok_or,
}
use conferences.AppError.{
  ErrorKind, invalid_payload, db_query_failed, backend_client_creation_failed,
  backend_request_failed,
}
use conferences.GroupReaderConfig.{agent_rtc}
use conferences.Db.Agent
use conferences.Db.JanusBackend
use conferences.Db.Room
use conferences.Db.Rtc.{is_owned}
use conferences.Db.Rtc
use conferences.Db.RtcWriterConfig.{
  UpsertQuery, UpsertError, Snapshot, new, upsert_query, insert_snapshot, list_with_rtc_query,
}
use conferences.Db.RtcWriterConfig
use conferences.Endpoint.Handler.{
  classroom, update_action, Env, authorized, Janus, WriterItem, require, maybe_backend,
}
use conferences.Endpoint.Helpers.{opened, find_room_by_id, check_room_presence}

pub record StateConfigItem : Type 0 where
  pub agent_id : ℕ
  pub send_video : Option Bool
  pub send_audio : Option Bool
  pub video_remb : Option ℕ
  pub send_audio_updated_by : Option ℕ

pub record State : Type 0 where
  pub room_id : ℕ
  pub configs : List StateConfigItem
  pub updated_at : Option ℕ

-- `x as u32`.
unfoldable pub as_u32 : ℕ → ℕ
as_u32 x = x % 2 ^ 32

abbrev pub remb_as_u32 : Option ℕ → Option ℕ
remb_as_u32 none = none
remb_as_u32 (some x) = some (as_u32 x)

unfoldable pub state_item : RtcWriterConfig.Object × Rtc.Object → StateConfigItem
unfolding as_u32
state_item (c, rtc) = record {
  agent_id = rtc.created_by;
  send_video = some c.send_video;
  send_audio = some c.send_audio;
  video_remb = remb_as_u32 c.video_remb;
  send_audio_updated_by = c.send_audio_updated_by;
}

abbrev later : ℕ → Option ℕ → Option ℕ
later n none = some n
later n (some m) = some (max n m)

-- `map(updated_at).max()`.
unfoldable pub last_update : List (RtcWriterConfig.Object × Rtc.Object) → Option ℕ
last_update [] = none
last_update ((c, rtc) ∷ cs) = later c.updated_at (last_update cs)

-- `State::new`.
unfoldable pub new_state : ℕ → List (RtcWriterConfig.Object × Rtc.Object) → State
unfolding state_item last_update
new_state room_id cs = record {
  room_id = room_id;
  configs = map state_item cs;
  updated_at = last_update cs;
}

pub record Tables : Type 0 where
  pub rooms : List Room.Object
  pub agents : List Agent.Object
  pub rtcs : List Rtc.Object
  pub backends : List JanusBackend.Object
  pub writer_configs : List RtcWriterConfig.Object
  pub snapshots : List Snapshot

-- `MAX_STATE_CONFIGS_LEN`.
abbrev pub max_state_configs_len : ℕ
max_state_configs_len = 20

abbrev if_some {ℓ} : {A : Type ℓ} → Option A → ℕ → Option ℕ
if_some none x = none
if_some (some a) x = some x

-- The query that the loop builds of an item.
unfoldable pub item_query : ℕ → ℕ → StateConfigItem → UpsertQuery
unfolding new
item_query agent_id rtc_id item = record (new rtc_id) {
  send_video = item.send_video;
  send_audio = item.send_audio;
  send_audio_updated_by = if_some item.send_audio agent_id;
  video_remb = item.video_remb;
}

abbrev pub is_some {ℓ} : {A : Type ℓ} → Option A → Bool
is_some none = false
is_some (some a) = true

-- The log of an item that sets video or audio.
unfoldable pub logged : ℕ → ℕ → ℕ → StateConfigItem → List Snapshot → List Snapshot
unfolding insert_snapshot
logged id now rtc_id item snapshots =
    if is_some item.send_video || is_some item.send_audio
    then insert_snapshot id now rtc_id item.send_video item.send_audio snapshots
    else snapshots

abbrev pub of_upsert : UpsertError → ErrorKind
of_upsert e = db_query_failed

-- One round of the loop in the transaction, with the id of a snapshot.
unfoldable pub update_item :
    Env → ℕ → List Rtc.Object → ℕ → StateConfigItem → Tables → Result ErrorKind Tables
unfolding agent_rtc item_query upsert_query logged
update_item env agent_id rtcs id item t = do
  rtc_id ← ok_or (agent_rtc rtcs item.agent_id) invalid_payload
  configs ←
      map_err of_upsert
        (upsert_query (item_query agent_id rtc_id item) env.db_now t.rtcs t.writer_configs)
  ok (record t {
    writer_configs = configs;
    snapshots = logged id env.db_now rtc_id item t.snapshots;
  })

-- The loop; the snapshots get the ids from the `k`-th on.
unfoldable pub update_items :
    Env
    → ℕ
    → List Rtc.Object
    → (ℕ → ℕ)
    → ℕ
    → List StateConfigItem
    → Tables
    → Result ErrorKind Tables
unfolding update_item
update_items env agent_id rtcs ids k [] t = ok t
update_items env agent_id rtcs ids k (x ∷ xs) t = do
  u ← update_item env agent_id rtcs (ids k) x t
  update_items env agent_id rtcs ids (suc k) xs u

-- The RTCs of the agents that the request names.
unfoldable pub owned_rtcs : ℕ → List StateConfigItem → List Rtc.Object → List Rtc.Object
owned_rtcs room_id configs = Rtc.list_query (record Rtc.new {
  room_id = some room_id;
  created_by = some (map StateConfigItem.agent_id configs);
})

-- `is_only_owned_config`.
unfoldable pub is_only_owned_config : ℕ → List StateConfigItem → Bool
is_only_owned_config agent_id [] = false
is_only_owned_config agent_id (x ∷ []) = x.agent_id == agent_id
is_only_owned_config agent_id (x ∷ y ∷ ys) = false

-- The room of a request of an agent who is there, and the policy that the configs need.
unfoldable pub find_owned_room : Env → ℕ → ℕ → Tables → Result ErrorKind Room.Object
unfolding find_room_by_id check_room_presence
find_owned_room env agent_id room_id t = do
  room ← find_room_by_id room_id opened (env.clock 0) t.rooms
  _ ← require (is_owned room.rtc_sharing_policy) invalid_payload
  _ ← check_room_presence room agent_id t.agents
  ok room

-- The authorization, which the agent's own config alone does not need.
unfoldable pub authorize_update :
    Env → ℕ → List StateConfigItem → Room.Object → Result ErrorKind (Unit {0})
unfolding is_only_owned_config authorized
authorize_update env agent_id configs room =
    if is_only_owned_config agent_id configs
    then ok tt
    else authorized env agent_id room.audience (classroom room.classroom_id) update_action

-- What comes before the transaction.
unfoldable pub prepare : Env → ℕ → ℕ → List StateConfigItem → Tables → Result ErrorKind Room.Object
unfolding find_owned_room authorize_update
prepare env agent_id room_id configs t = do
  _ ← require (leb (length configs) max_state_configs_len) invalid_payload
  room ← find_owned_room env agent_id room_id t
  _ ← authorize_update env agent_id configs room
  ok room

unfoldable pub writer_item : RtcWriterConfig.Object × Rtc.Object → WriterItem
unfolding as_u32
writer_item (c, rtc) = record {
  stream_id = rtc.id;
  send_video = c.send_video;
  send_audio = c.send_audio;
  video_remb = remb_as_u32 c.video_remb;
}

unfoldable pub send_to_janus :
    Janus
    → Option JanusBackend.Object
    → List (RtcWriterConfig.Object × Rtc.Object)
    → Result ErrorKind (Unit {0})
unfolding writer_item
send_to_janus janus none cs = ok tt
send_to_janus janus (some b) cs = do
  _ ← require (janus.get_or_insert b) backend_client_creation_failed
  require (janus.writer_update b.session_id b.handle_id (map writer_item cs)) backend_request_failed

-- The answer, which is also the notification `agent_writer_config.update` to the room's events.
unfoldable pub after_update : Janus → Room.Object → Tables → Result ErrorKind State
unfolding maybe_backend list_with_rtc_query send_to_janus new_state
after_update janus room t =
    let cs = list_with_rtc_query room.id t.rtcs t.writer_configs in
    do _ ← send_to_janus janus (maybe_backend room t.backends) cs; ok (new_state room.id cs)

-- `UpdateHandler::handle`: the transaction either writes all of the configs or none.
unfoldable pub update :
    Env → Janus → (ℕ → ℕ) → ℕ → ℕ → List StateConfigItem → Tables → Tables × Result ErrorKind State
unfolding prepare owned_rtcs update_items after_update
update env janus ids agent_id room_id configs t = elim (prepare env agent_id room_id configs t) [
  | err e ↦ (t, err e)
  | ok room ↦ elim (update_items env agent_id (owned_rtcs room.id configs t.rtcs) ids 0 configs t) [
    | err e ↦ (t, err e)
    | ok u ↦ (u, after_update janus room u)
  ]
]

-- `ReadHandler::handle`.
unfoldable pub read : Env → ℕ → ℕ → Tables → Result ErrorKind State
unfolding find_owned_room list_with_rtc_query new_state
read env agent_id room_id t = do
  room ← find_owned_room env agent_id room_id t
  ok (new_state room.id (list_with_rtc_query room.id t.rtcs t.writer_configs))
