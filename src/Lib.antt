-- ===== src/Lib.antt =====
-- Verification of the conference service: rooms, their groups and RTCs, and the outbox that
-- carries changes of groups to Janus, NATS and MQTT.
--
-- The parts and how they interact. An endpoint (src/app/endpoint) finds a room in the table `room`
-- (src/db/room.rs), asks the service of authorization, changes the tables, and answers with a room
-- and notifications. A change of groups (src/db/group_agent.rs) gives new reader configs
-- (src/app/group_reader_config.rs, src/db/rtc_reader_config.rs) and a first stage (src/app/stage)
-- in the outbox (src/outbox/db/sqlx.rs). The pipeline (src/outbox/pipeline/sqlx.rs) runs the
-- stages, each of which names the next, at once or in batches, which a task
-- (src/app/outbox_handler.rs) runs at every tick until none is left. Janus is polled by one task
-- for each client of the pool (src/backend/janus/client_pool.rs). Its events
-- (src/backend/janus/mod.rs) start and end streams, confirm uploads and answer requests; an answer
-- comes under a number, which the waitlist (src/backend/janus/waitlist.rs) leads back to the one
-- who asked, on this replica or by a call of another one (src/backend/janus/online_handler.rs).
--
-- The files, and the code that each one models:
-- - Base: lists, tests on numbers, results, texts and ORDER BY; Base.Table: SQL tables as lists of
--   rows, with find, update, delete and upsert, and their laws.
-- - AppError: src/app/error.rs. The Rust names of kinds are spelled in snake case.
-- - Waitlist: src/backend/janus/waitlist.rs. `insert`, `lookup`, `advance` are the methods of
--   `WaitListInner`; `step` is one round of the task's loop, `run` a schedule of rounds;
--   `register_handle`, `fire_event`, `wait` are `WaitList::register`, `WaitList::fire`,
--   `Handle::wait`.
-- - Outbox: src/outbox/db/sqlx.rs; Outbox.Backoff: src/outbox/util.rs; Outbox.Pipeline:
--   src/outbox/pipeline/sqlx.rs, each function under its own name, with the arms of
--   `handle_record` and the bodies of the transactions as functions of their own. Outbox.Handler:
--   what src/app/outbox_handler.rs does at a tick, as `drain`.
-- - Stage: src/app/stage. `handle_stage` has one clause for each of the three handlers.
-- - Db.Room, Db.Rtc, Db.RtcReaderConfig: the files of src/db with those names. A query is a
--   function named after its type; `on_rtc_insert` is the trigger of
--   migrations/20230616111239_initial.up.sql.
-- - Groups: src/db/group_agent.rs. GroupReaderConfig: src/app/group_reader_config.rs, with its two
--   loops as `outer_loop` and `inner_loop`.
-- - Endpoint.Helpers: `find_room` and `check_room_presence` of src/app/endpoint/helpers.rs.
--   Endpoint.Handler: what the handlers share. Endpoint.Room, Endpoint.RoomUpdate:
--   `CreateHandler`, `ReadHandler`, `UpdateHandler`, `CloseHandler` of src/app/endpoint/room.rs as
--   `create`, `read`, `update`, `close`.
-- - Db.Agent, Db.AgentConnection, Db.Recording: the files of src/db with those names;
--   Db.RtcStream: src/db/janus_rtc_stream.rs. The deletes of agents stand in Db.AgentConnection,
--   since they take connections along.
-- - Db.OrphanedRoom: src/db/orphaned_room.rs. Endpoint.System: `OrphanedRoomCloseHandler` of
--   src/app/endpoint/system.rs, with the body of its loop as `close_one`.
-- - Db.JanusBackend, Db.JanusBackend.Load: src/db/janus_backend.rs, with its common table
--   expressions as functions (`room_load` is `taken`, `active_room` a test, the sums of
--   `janus_backend_load` are `load`, `total_taken`, `total_reserve`). Loads and capacities are
--   counted in bits per second, one slot being 1000000, in place of fractions of slots.
-- - Db.RtcWriterConfig: src/db/rtc_writer_config.rs and src/db/rtc_writer_config_snapshot.rs.
-- - Endpoint.AgentWriterConfig, Endpoint.AgentReaderConfig: the handlers `update` and `read` of
--   the files of src/app/endpoint with those names. Endpoint.Group:
--   src/app/endpoint/group/update.rs and list.rs. Endpoint.Listing: src/app/endpoint/agent.rs,
--   rtc_stream.rs and writer_config_snapshot.rs. Endpoint.RoomEnter: `EnterHandler` and
--   `LeaveHandler` of src/app/endpoint/room.rs.
-- - Endpoint.Rtc, Endpoint.RtcConnect, Endpoint.ConnectAndSignal: src/app/endpoint/rtc.rs:
--   `run_create` is `RtcCreate::run`, `open_handle` what `connect` and `ConnectAndSignal::run`
--   share, from the choice of a backend to the id of the handle. Endpoint.RtcSignal:
--   src/app/endpoint/rtc_signal.rs, with `create` for `CreateHandler::handle` and `trickle` for
--   `Trickle::run`.
-- - Endpoint.Subscription: src/app/endpoint/subscription.rs, each function under its own name, and
--   the two handlers as `delete_response` and `delete_event`. Endpoint.Cleanup: agent_cleanup.rs
--   and agent_connection_cleanup.rs of src/app/endpoint/system.
-- - Endpoint.Vacuum: `VacuumHandler` and `upload_config` of src/app/endpoint/system.rs, with
--   `finished_with_in_progress_recordings` of src/db/room.rs.
-- - Janus: the events of src/backend/janus/client and what handling them sends; Janus.Answers,
--   Janus.Upload, Janus.Events: src/backend/janus/mod.rs, with the `UploadStream` branch as
--   `upload_stream_impl`, each `?` of it a step, and `upload_event` of src/app/endpoint/system.rs.
--   Db.Rtc.Recorded: `ListWithRecordingQuery` of src/db/rtc.rs.
-- - Janus.Pool, Janus.Polling, Janus.Removal: src/backend/janus/client_pool.rs: the pool of
--   clients, `start_polling` as a function of its turns, `remove_backend`, whose delete of the row
--   takes the streams along by the `ON DELETE CASCADE` of the migration, as `delete_backend`.
--   Janus.Online, Janus.InternalApi: src/backend/janus/online_handler.rs: `handle_online`, and the
--   two calls of `start_internal_api` as `register` and `callback_stream`; `stream_callback` is of
--   src/client/conference.rs.
-- - Messages: src/app/message_handler.rs and src/app/service_utils.rs; Messages.Routes: the routes
--   of src/app/endpoint/mod.rs. Endpoint.Message: src/app/endpoint/message.rs.
-- - HandleId: src/app/handle_id.rs. Serde: `ts_seconds_bound_tuple` of src/serde.rs and the
--   modules that call it.
-- - Examples: the theorems at concrete inputs, and tests.
--
-- State is passed explicitly: a function takes the rows of its tables and returns them changed,
-- beside its result. An error is a value, and what was written before it stays unless a
-- transaction takes it back. sqlx's transactions are the parameter `Transactional` with two laws:
-- a body that returns is committed, a body that fails is rolled back. The handlers of other
-- services, the service of authorization, the JSON codec, row locks and the clock are parameters;
-- every reading of the clock is its own number.
--
-- Bounds and fuel. Ids, times and JSON values are natural numbers that are only compared; times
-- are counted in one unit, and in the outbox in seconds. The counter of the waitlist wraps at
-- 2^64, the delay of the outbox leaves `i64` at 2^63, which is a panic as in a build with overflow
-- checks: it ends a batch as an error of its own, and the transaction is rolled back. The loop of
-- `run_single_stage` is on fuel, and four rounds are enough for the stages of the program. The
-- loop `drain` of a tick is on fuel, and enough is one more than the sum, over the rows of the
-- outbox, of one more than the rank of their stages. The loop of `start_polling` is recursion on
-- the list of its turns. All other loops are recursion on lists.
--
-- Not modelled: the network clients, the routes of HTTP, JSON formats, metrics, tracing and
-- configuration, which are calls of libraries; a failure to get a connection; the start of the
-- tasks in src/app/mod.rs, and the timer and the shutdown of src/app/outbox_handler.rs. The
-- requests to Janus in src/backend/janus/client are parameters of those who send them.
pub mod AppError
pub mod Base
pub mod Db
pub mod Endpoint
pub mod Examples
pub mod GroupReaderConfig
pub mod Groups
pub mod HandleId
pub mod Janus
pub mod Messages
pub mod Outbox
pub mod Serde
pub mod Stage
pub mod Waitlist
