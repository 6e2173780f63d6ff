-- ===== src/Examples/MediaRuns.antt =====
-- Backends, writer configs and connections, on a room with two agents and their RTCs.
use conferences.Base.{
  ℕ, ◌+◌, ◌*◌, ◌≤◌, ◌≡◌, ◌≢◌, ◌↔◌, max, ◌-◌, refl, inl, inr, List, [], ◌∷◌, Option, none, some,
  Bool, true, false, not, filter, length, Has, get_or, Result, ok, err, arith,
}
use conferences.Db.Agent
use conferences.Db.AgentConnection
use conferences.Db.JanusBackend
use conferences.Db.JanusBackend.Load
use conferences.Db.JanusBackend.Choice.{most_loaded_fits}
use conferences.Db.Room.{included, excluded, janus, find_by_rtc_id_query}
use conferences.Db.Room
use conferences.Db.Rtc.{owned}
use conferences.Db.Rtc
use conferences.Db.RtcWriterConfig.{read_config}
use conferences.Db.RtcWriterConfig
use conferences.Db.RtcWriterConfig.Written.{read_config-upsert_query}
use conferences.Endpoint.Handler.{Env, Janus, forbidden}
use conferences.Endpoint.AgentWriterConfig.{StateConfigItem}
use conferences.Endpoint.AgentWriterConfig
use conferences.Endpoint.AgentWriterConfig.Safe.{update_refused}

abbrev pub env : Env
env = record {
  authorize = λ agent audience object action. ok tt;
  clock = λ n. 100 + n;
  db_now = 110;
}

abbrev pub strict : Env
strict = record env { authorize = λ agent audience object action. err forbidden }

abbrev pub room : Room.Object
room = record {
  id = 2;
  time = record { start = included 50; end = excluded 600 };
  audience = "example.org";
  created_at = 1;
  backend = janus;
  reserve = some 2;
  tags = 0;
  backend_id = some 9;
  rtc_sharing_policy = owned;
  classroom_id = 50;
  host = none;
  timed_out = false;
  closed_by = none;
  infinite = false;
}

abbrev pub new_room : Room.Object
new_room = record room { backend_id = none }

abbrev pub backend : ℕ → ℕ → JanusBackend.Object
backend id capacity = record {
  id = id;
  handle_id = 90;
  session_id = 91;
  created_at = 1;
  capacity = some capacity;
  balancer_capacity = none;
  api_version = "v1";
  group = none;
  janus_url = "http://example.org";
}

abbrev pub backends : List JanusBackend.Object
backends = backend 9 10 ∷ backend 8 20 ∷ []

abbrev pub rtc_row : ℕ → ℕ → Rtc.Object
rtc_row id agent = record { id = id; room_id = 2; created_at = 10; created_by = agent }

abbrev pub rtcs : List Rtc.Object
rtcs = rtc_row 20 7 ∷ rtc_row 21 8 ∷ []

abbrev pub agents : List Agent.Object
agents =
    record { id = 1; agent_id = 7; room_id = 2; created_at = 3; status = Agent.ready }
    ∷ record { id = 5; agent_id = 8; room_id = 2; created_at = 4; status = Agent.ready }
    ∷ []

abbrev pub connection : AgentConnection.Object
connection = record {
  agent_id = 1;
  handle_id = 30;
  created_at = 40;
  rtc_id = 20;
  status = AgentConnection.connected;
}

abbrev load_tables : Load.Tables
load_tables = record {
  backends = backends;
  rooms = room ∷ [];
  rtcs = rtcs;
  agents = agents;
  connections = connection ∷ [];
  writer_configs = [];
  now = 110;
}

abbrev new_tables : Load.Tables
new_tables = record load_tables { rooms = new_room ∷ []; connections = [] }

most_loaded_fits_example :
    Load.load (record new_tables { rooms = room ∷ [] }) 9 ≤ Load.balancer_capacity_of (backend 9 10)
unfolding Room.find_query conferences.Base.Table.find Load.taken Load.most_loaded
    conferences.Base.Sorting.order_by Room.update_query Room.new_update
    conferences.Base.Table.update_where
most_loaded_fits_example =
    most_loaded_fits (λ xs. xs) (λ b xs h. h) new_tables 2 none (backend 9 10) new_room room
      (room ∷ []) (tt, tt) refl (omega arith) refl refl

abbrev registration : JanusBackend.UpsertQuery
registration = record {
  id = 9;
  handle_id = 190;
  session_id = 191;
  capacity = none;
  balancer_capacity = none;
  group = none;
  janus_url = "http://example.org";
}

abbrev old_config : RtcWriterConfig.Object
old_config = record {
  rtc_id = 20;
  send_video = true;
  send_audio = false;
  video_remb = some 300000;
  send_audio_updated_by = some 8;
  updated_at = 5;
}

abbrev video_off : RtcWriterConfig.UpsertQuery
video_off = record (RtcWriterConfig.new 20) { send_video = some false }

-- Turning the video off forgets the bitrate and who turned the audio off.
read_config-upsert_query_example :
    (o : RtcWriterConfig.Object) × (read_config 20
        (RtcWriterConfig.updated video_off 110 old_config ∷ [])
      ≡ some o)
    × (o.send_video ≡ false)
    × (o.send_audio ≡ false)
    × (o.video_remb ≡ none)
    × (o.send_audio_updated_by ≡ none)
    × (o.updated_at ≡ 110)
unfolding RtcWriterConfig.upsert_query RtcWriterConfig.new conferences.Base.Table.upsert read_config
    conferences.Base.Table.find
read_config-upsert_query_example =
    read_config-upsert_query video_off 110 rtcs (old_config ∷ [])
      (RtcWriterConfig.updated video_off 110 old_config ∷ []) refl

abbrev item : ℕ → StateConfigItem
item agent = record {
  agent_id = agent;
  send_video = some false;
  send_audio = none;
  video_remb = none;
  send_audio_updated_by = none;
}

abbrev pub janus_up : Janus
janus_up = record {
  get_or_insert = λ b. true;
  writer_update = λ s h items. true;
  reader_update = λ s h items. true;
}

abbrev config_tables : AgentWriterConfig.Tables
config_tables = record {
  rooms = room ∷ [];
  agents = agents;
  rtcs = rtcs;
  backends = backends;
  writer_configs = old_config ∷ [];
  snapshots = [];
}

not_six : (r : Rtc.Object) → Has r rtcs → r.room_id ≡ 2 → r.created_by ≢ 6
not_six r (inl e) q c = ground (arith, e, c)
not_six r (inr (inl e)) q c = ground (arith, e, c)
not_six r (inr (inr h)) q c = elim h [ ]

not_eight : (r : Rtc.Object) → Has r rtcs → r.id ≡ 20 → r.created_by ≢ 8
not_eight r (inl e) q c = ground (arith, e, c)
not_eight r (inr (inl e)) q c = ground (arith, e, q)
not_eight r (inr (inr h)) q c = elim h [ ]

-- Agent 8 turns off his own video, and agent 7's config stays.
update_refused_example :
    read_config 20
      (AgentWriterConfig.update strict janus_up
        (λ k. k)
        8
        2
        (item 8 ∷ [])
        config_tables).0.writer_configs
    ≡ some old_config
unfolding read_config conferences.Base.Table.find
update_refused_example =
    update_refused strict 8 (λ audience object action. (forbidden, refl)) janus_up (λ k. k) 2
      (item 8 ∷ []) config_tables 20 not_eight
