-- ===== src/Examples/TableRuns.antt =====
-- Agents and their connections.
use conferences.Base.{List, [], ◌∷◌, none, some}
use conferences.Db.Agent
use conferences.Db.AgentConnection.{Object, Tables, connected, upsert_query, delete_agents}
use conferences.Db.AgentConnection.Links.{
  start, next, agent_inserted, connection_upserted, agents_deleted, IsLinked, Reachable-IsLinked,
}
use conferences.Db.Rtc
use conferences.Db.RtcStream
use conferences.Db.Recording
use conferences.Db.Recording.Ready.{Update}

abbrev nothing : Tables
nothing = record { agents = []; connections = [] }

abbrev entered : Tables
entered = record nothing { agents = Agent.insert_query 1 10 7 3 [] }

abbrev joined : Tables
joined = (upsert_query 1 20 30 40 entered).0

abbrev left : Tables
left = (delete_agents (Agent.is_deleted (some 7) none) joined).0

Reachable-IsLinked_example : IsLinked left
Reachable-IsLinked_example = Reachable-IsLinked left (
    next
      (next (next start (agent_inserted 1 10 7 3 nothing)) (connection_upserted 1 20 30 40 entered))
      (agents_deleted (Agent.is_deleted (some 7) none) joined))

abbrev connected_row : Object
connected_row = record {
  agent_id = 1;
  handle_id = 30;
  created_at = 40;
  rtc_id = 20;
  status = connected;
}

abbrev connected_tables : Tables
connected_tables = record entered { connections = connected_row ∷ [] }

abbrev stream_row : RtcStream.Object
stream_row = record {
  id = 5;
  handle_id = 30;
  rtc_id = 20;
  backend_id = 2;
  label = "camera";
  sent_by = 7;
  time = none;
  created_at = 40;
}

abbrev rtc_row : Rtc.Object
rtc_row = record { id = 20; room_id = 3; created_at = 10; created_by = 7 }

abbrev recording_row : Recording.Object
recording_row = record {
  rtc_id = 20;
  started_at = none;
  segments = none;
  status = Recording.ready;
  mjr_dumps_uris = some (1 ∷ []);
}

abbrev late_reports : List Update
late_reports =
    record { rtc_id = 20; status = some Recording.missing; uris = none }
    ∷ record { rtc_id = 20; status = none; uris = none }
    ∷ []
