-- ===== src/Examples/EntryRuns.antt =====
-- Entering a room, changing its groups, and what an agent receives there.
use mathlib.Core.List.Perm
use conferences.Base.{
  ℕ, ◌+◌, ◌≡◌, ◌≢◌, ◌↔◌, ◌||◌, ◌==◌, refl, inl, inr, List, [], ◌∷◌, Option, none, some, Bool, true,
  false, Has, map, Result, ok, err, arith,
}
use conferences.Base.Table.{find}
use conferences.AppError.{agent_not_entered_the_room}
use conferences.Endpoint.Helpers.{check_room_presence}
use conferences.Groups.{GroupItem, Groups, is_agent_exist}
use conferences.Groups
use conferences.Outbox.Pipeline.{Transactional}
use conferences.Outbox.Pipeline
use conferences.Stage.{AppStage}
use conferences.Db.RtcReaderConfig
use conferences.Endpoint.AgentReaderConfig
use conferences.Endpoint.AgentReaderConfig.Own.{update_other}
use conferences.Endpoint.Group.{Ids, update, list}
use conferences.Endpoint.Group
use conferences.Endpoint.Group.Listed.{list-update}
use conferences.Endpoint.RoomEnter.{join_groups}
use conferences.Endpoint.RoomEnter.Member.{is_agent_exist-join_groups}
use conferences.Db.OrphanedRoom
use conferences.Endpoint.Subscription.{delete_response}
use conferences.Endpoint.Subscription
use conferences.Endpoint.Subscription.Left.{delete_response_leaves}
use conferences.Db.Recording
use conferences.Db.Room.{included, excluded}
use conferences.Db.Room
use conferences.Endpoint.Handler.{note, room_close, room_events}
use conferences.Endpoint.Vacuum.{Unfinished, Uploads, finished_with_in_progress_recordings, vacuum}
use conferences.Endpoint.Vacuum
use conferences.Endpoint.Vacuum.Cleared.{closing, vacuum_clears}
use conferences.Examples.OutboxRuns.{database}
use conferences.Examples.MediaRuns.{env, room, backend, backends, rtc_row, rtcs, agents, janus_up}

abbrev group : ℕ → List ℕ → GroupItem
group n as_ = record { number = n; agents = as_ }

abbrev group_row : Groups → Groups.Object
group_row groups = record { id = 70; room_id = 2; groups = groups }

abbrev old_groups : Groups
old_groups = group 0 (7 ∷ []) ∷ []

abbrev new_groups : Groups
new_groups = group 0 (7 ∷ []) ∷ group 1 (8 ∷ []) ∷ []

abbrev reader_tables : AgentReaderConfig.Tables
reader_tables = record {
  rooms = room ∷ [];
  agents = agents;
  rtcs = rtcs;
  backends = backends;
  groups = group_row (group 0 (7 ∷ 8 ∷ []) ∷ []) ∷ [];
  reader_configs =
      record { rtc_id = 20; reader_id = 9; receive_video = true; receive_audio = false } ∷ [];
}

abbrev item : AgentReaderConfig.StateConfigItem
item = record { agent_id = 7; receive_video = some false; receive_audio = none }

-- Agent 8 does not receive agent 7 any more; reader 9 does.
update_other_example :
    find
      (RtcReaderConfig.has_key 20 9)
      (AgentReaderConfig.update env janus_up 8 2 (item ∷ []) reader_tables).0.reader_configs
    ≡ some (record { rtc_id = 20; reader_id = 9; receive_video = true; receive_audio = false })
unfolding AgentReaderConfig.group_agents find Groups.has_agent RtcReaderConfig.has_key
update_other_example =
    update_other env janus_up 8 2 20 9 (item ∷ []) reader_tables (7 ∷ 8 ∷ []) refl
      (inl (ground arith))

-- The outbox on stages that are stored as they are; every stage fails.
abbrev pipeline : Pipeline.Env AppStage AppStage
pipeline = record {
  decode = λ j. some j;
  encode = λ j. some j;
  handle = λ k stage e. err "backend_request_failed";
  locked = λ o. false;
  acquired = λ k. true;
  next_id = λ k. 500 + k;
  now = 100;
  try_wake_interval = 60;
  max_delivery_interval = 3600;
}

abbrev group_tables : Group.Tables AppStage
group_tables = record {
  rooms = room ∷ [];
  rtcs = rtcs;
  groups = group_row old_groups ∷ [];
  reader_configs = [];
  outbox = [];
}

abbrev ids : Ids
ids = record { group_id = 71; event_id = 400 }

list-update_example :
    list pipeline env 8 2 false (update pipeline database env ids 7 2 new_groups group_tables).0
    ≡ ok new_groups
unfolding update find list
list-update_example =
    list-update pipeline database env env ids 7 8 2 new_groups old_groups group_tables
      (update pipeline database env ids 7 2 new_groups group_tables).0 tt refl refl

-- Agent 8 enters a room with one group.
is_agent_exist-join_groups_example :
    (o : Groups.Object) × (Groups.find_query
        (Groups.upsert_query 71 2 (group 0 (7 ∷ 8 ∷ []) ∷ []) group_tables.groups)
        2
      ≡ some o)
    × (is_agent_exist o.groups 7 ≡ is_agent_exist old_groups 7 || false)
unfolding Groups.find_query find join_groups Groups.has_agent conferences.Base.Table.update_where
    conferences.Base.Table.upsert
is_agent_exist-join_groups_example =
    is_agent_exist-join_groups pipeline (λ gs. gs) env ids 8 7 room (group_row old_groups)
      group_tables
      (record group_tables {
        groups = Groups.upsert_query 71 2 (group 0 (7 ∷ 8 ∷ []) ∷ []) group_tables.groups;
      })
      none Perm.refl refl (tt, tt) refl

abbrev left_tables : Subscription.Tables
left_tables = record {
  rooms = record room { host = some 7 } ∷ [];
  agents = record { agents = agents; connections = [] };
  orphans = [];
}

abbrev left : Subscription.Tables
unfolding delete_response
left = (delete_response env (λ id. some 2) 5 5 7 ("rooms" ∷ "2" ∷ "events" ∷ []) left_tables).0

-- Agent 7, the host of room 2, leaves it.
delete_response_leaves_example :
    (check_room_presence room 7 left.agents.agents ≡ err agent_not_entered_the_room)
    × (find (OrphanedRoom.has_id 2) left.orphans ≡ some (record { id = 2; host_left_at = 100 }))
unfolding find delete_response check_room_presence
delete_response_leaves_example =
    delete_response_leaves env (λ id. some 2) 5 5 7 ("rooms" ∷ "2" ∷ "events" ∷ []) left_tables left
      (record { id = 2; agent_id = 7 }) room refl

abbrev over : Room.Object
over = record room { time = record { start = included 50; end = excluded 60 } }

abbrev unfinished_recording : Recording.Object
unfinished_recording = record {
  rtc_id = 20;
  started_at = none;
  segments = none;
  status = Recording.in_progress;
  mjr_dumps_uris = none;
}

abbrev vacuum_tables : Vacuum.Tables
vacuum_tables = record {
  rooms = over ∷ [];
  rtcs = rtcs;
  recordings = unfinished_recording ∷ [];
  backends = backends;
  agents = record { agents = agents; connections = [] };
}

abbrev uploads : Uploads
uploads = record {
  janus_group = none;
  shared_configs = λ audience. none;
  owned_configs = λ audience. some (record { backend = "example"; bucket = "records" });
  get_or_insert = λ b. true;
  upload_stream = λ s h rtc_id config. true;
}

abbrev unfinished : List Unfinished
unfolding finished_with_in_progress_recordings
unfinished = finished_with_in_progress_recordings none 110 vacuum_tables

-- The agents 7 and 8 are put out of room 2.
vacuum_clears_example :
    (note room_close (room_events 2) over ∷ [] ≡ map closing unfinished)
    × Has (note room_close (room_events 2) over) (note room_close (room_events 2) over ∷ [])
    × (check_room_presence over 8 (vacuum env uploads 1 "svc.example.org" vacuum_tables).0.agents
        ≡ err agent_not_entered_the_room)
unfolding vacuum finished_with_in_progress_recordings check_room_presence find
vacuum_clears_example =
    vacuum_clears env uploads 1 8 "svc.example.org" vacuum_tables
      (vacuum env uploads 1 "svc.example.org" vacuum_tables).0
      (note room_close (room_events 2) over ∷ []) unfinished_recording (rtc_row 20 7) over
      (backend 9 10) 9 60 refl (inl refl) refl refl refl refl refl (omega arith) refl refl refl refl
