-- ===== src/Db/AgentConnection.antt =====
-- src/db/agent_connection.rs: which handle of Janus serves an agent on an RTC, and the deletes of agents
-- of src/db/agent.rs, which take the connections of the agents along.
pub mod Links
use conferences.Base.{
  ℕ, List, [], ◌∷◌, Option, none, some, Bool, true, false, ◌&&◌, if◌then◌else◌, ◌==◌, ltb, any,
  filter, length, Result, ok, err,
}
use conferences.Base.Table.{find, update_where, delete_where, upsert}
use conferences.Db.Agent
use conferences.Db.Room

pub data Status : Type 0 where
  in_progress connected : Status

pub record Object : Type 0 where
  pub agent_id : ℕ
  pub handle_id : ℕ
  pub created_at : ℕ
  pub rtc_id : ℕ
  pub status : Status

-- The two tables.
pub record Tables : Type 0 where
  pub agents : List Agent.Object
  pub connections : List Object

abbrev pub has_agent : ℕ → Agent.Object → Bool
has_agent id a = a.id == id

-- The join of `FindQuery::execute` on one connection.
unfoldable pub is_found : ℕ → ℕ → List Agent.Object → Object → Bool
unfolding Agent.has_status
is_found agent_id rtc_id agents c =
    any (λ a. a.id == c.agent_id && Agent.has_status Agent.ready a && a.agent_id == agent_id) agents
    && c.rtc_id == rtc_id

-- `FindQuery::execute`.
unfoldable pub find_query : ℕ → ℕ → Tables → Option Object
unfolding is_found
find_query agent_id rtc_id t = find (is_found agent_id rtc_id t.agents) t.connections

-- `CountQuery::execute`.
pub count_query : Tables → ℕ
count_query t = length t.connections

abbrev pub has_key : ℕ → ℕ → Object → Bool
has_key agent_id rtc_id c = c.agent_id == agent_id && c.rtc_id == rtc_id

pub data UpsertError : Type 0 where
  foreign_key_violation : UpsertError

-- The new row of `UpsertQuery::execute`, and what it makes of an old one, which keeps its status.
unfoldable pub upserted : ℕ → ℕ → ℕ → ℕ → Object
upserted agent_id rtc_id handle_id created_at = record {
  agent_id = agent_id;
  handle_id = handle_id;
  created_at = created_at;
  rtc_id = rtc_id;
  status = in_progress;
}

abbrev pub replace : Object → Object → Object
replace n c = record n { status = c.status }

abbrev pub returned : Object → Option Object → Object
returned n none = n
returned n (some c) = replace n c

-- `UpsertQuery::execute`. The reference to the RTC is left out.
unfoldable pub upsert_query : ℕ → ℕ → ℕ → ℕ → Tables → Tables × Result UpsertError Object
unfolding upserted
upsert_query agent_id rtc_id handle_id created_at t =
    let n = upserted agent_id rtc_id handle_id created_at in
    if any (has_agent agent_id) t.agents
    then (
      record t { connections = upsert (has_key agent_id rtc_id) (replace n) n t.connections },
      ok (returned n (find (has_key agent_id rtc_id) t.connections)),
    )
    else (t, err foreign_key_violation)

abbrev pub has_handle : ℕ → Object → Bool
has_handle handle_id c = c.handle_id == handle_id

abbrev pub set_status : Status → Object → Object
set_status s c = record c { status = s }

abbrev updated : Status → Option Object → Option Object
updated s none = none
updated s (some c) = some (set_status s c)

-- `UpdateQuery::execute`.
unfoldable pub update_query : ℕ → Status → Tables → Tables × Option Object
update_query handle_id status t = (
  record t { connections = update_where (has_handle handle_id) (set_status status) t.connections },
  updated status (find (has_handle handle_id) t.connections),
)

-- The deletes of connections, by their `WHERE` clauses; the rows that are affected are counted.
unfoldable pub delete_connections : (Object → Bool) → Tables → Tables × ℕ
delete_connections p t =
    (record t { connections = delete_where p t.connections }, length (filter p t.connections))

unfoldable pub is_not_connected : ℕ → Object → Bool
is_not_connected created_at c =
    ltb c.created_at created_at && elim c.status [ in_progress ↦ true | connected ↦ false ]

-- `CleanupNotConnectedQuery::execute`.
unfoldable pub cleanup_not_connected_query : ℕ → Tables → Tables × ℕ
unfolding delete_connections is_not_connected
cleanup_not_connected_query created_at = delete_connections (is_not_connected created_at)

-- `DisconnectSingleAgentQuery::execute`.
unfoldable pub disconnect_single_agent_query : ℕ → Tables → Tables × ℕ
unfolding delete_connections
disconnect_single_agent_query handle_id = delete_connections (has_handle handle_id)

-- `BulkDisconnectByRtcQuery::execute`.
unfoldable pub bulk_disconnect_by_rtc_query : ℕ → Tables → Tables × ℕ
unfolding delete_connections
bulk_disconnect_by_rtc_query rtc_id = delete_connections (λ c. c.rtc_id == rtc_id)

-- The join of `BulkDisconnectByBackendQuery::execute` on one connection.
unfoldable pub is_on_backend : ℕ → List Room.Object → List Agent.Object → Object → Bool
is_on_backend backend_id rooms agents c =
    any
      (λ a.
        a.id == c.agent_id
        && any
            (λ r.
              r.id == a.room_id && elim r.backend_id [ none ↦ false | some b ↦ b == backend_id ])
            rooms)
      agents

unfoldable pub bulk_disconnect_by_backend_query : ℕ → List Room.Object → Tables → Tables × ℕ
unfolding delete_connections is_on_backend
bulk_disconnect_by_backend_query backend_id rooms t =
    delete_connections (is_on_backend backend_id rooms t.agents) t

-- A delete of agents, with `ON DELETE CASCADE` of their connections.
unfoldable pub delete_agents : (Agent.Object → Bool) → Tables → Tables × ℕ
delete_agents p t = (
  record {
    agents = delete_where p t.agents;
    connections = delete_where (λ c. any (λ a. a.id == c.agent_id && p a) t.agents) t.connections;
  },
  length (filter p t.agents),
)

-- `agent::DeleteQuery::execute`.
unfoldable pub delete_agent_query : Option ℕ → Option ℕ → Tables → Tables × ℕ
unfolding delete_agents Agent.is_deleted
delete_agent_query agent_id room_id = delete_agents (Agent.is_deleted agent_id room_id)

-- `agent::CleanupQuery::execute`.
unfoldable pub cleanup_agents_query : ℕ → Tables → Tables × ℕ
unfolding delete_agents Agent.is_old
cleanup_agents_query created_at = delete_agents (Agent.is_old created_at)
