-- ===== src/Endpoint/Cleanup.antt =====
-- src/app/endpoint/system/agent_cleanup.rs and agent_connection_cleanup.rs: what a scheduler asks for.
-- Times are milliseconds; the clock shows more than a day.
use Prim.Native.String.{String}
use conferences.Base.{ℕ, ◌-◌, ◌*◌, Result, ok, err}
use conferences.AppError.{ErrorKind}
use conferences.Db.AgentConnection.{Tables, cleanup_agents_query, cleanup_not_connected_query}
use conferences.Endpoint.Handler.{system, update_action, Env, authorized}

-- `Duration::days(1)` and `Duration::minutes(2)`.
abbrev pub day : ℕ
day = 24 * 3600000

abbrev pub two_minutes : ℕ
two_minutes = 2 * 60000

-- `agent_cleanup::Handler::handle`, for the audience of the service.
unfoldable pub cleanup_agents : Env → ℕ → String → Tables → Tables × Result ErrorKind (Unit {0})
unfolding authorized cleanup_agents_query
cleanup_agents env agent_id audience t =
    elim (authorized env agent_id audience system update_action) [
      | err e ↦ (t, err e)
      | ok _ ↦ ((cleanup_agents_query (env.clock 0 - day) t).0, ok tt)
    ]

-- `agent_connection_cleanup::Handler::handle`.
unfoldable pub cleanup_connections :
    Env → ℕ → String → Tables → Tables × Result ErrorKind (Unit {0})
unfolding authorized cleanup_not_connected_query
cleanup_connections env agent_id audience t =
    elim (authorized env agent_id audience system update_action) [
      | err e ↦ (t, err e)
      | ok _ ↦ ((cleanup_not_connected_query (env.clock 0 - two_minutes) t).0, ok tt)
    ]
