-- ===== src/Janus/Events.antt =====
-- src/backend/janus/mod.rs: `handle_event`.
use conferences.Base.{ℕ, List, [], ◌∷◌, Option, none, some, Result, ok, err, ◌>>=◌}
use conferences.AppError.{ErrorKind}
use conferences.Db.AgentConnection.{
  update_query, connected, bulk_disconnect_by_rtc_query, disconnect_single_agent_query,
}
use conferences.Db.AgentConnection
use conferences.Db.RtcStream
use conferences.Endpoint.Helpers.{find_room_by_rtc_id, opened}
use conferences.Janus.{
  TransactionKind, OpaqueId, HandleEvent, EventResponse, IncomingEvent, web_rtc_up, media, hang_up,
  slow_link, detached, timeout, event, agent_leave, create_stream, read_stream, upload_stream,
  update_reader_config, update_writer_config, agent_speaking, service_ping, Tables, Context, Output,
  stream_update,
}
use conferences.Janus.Answers.{create_status, read_status, answer, agent_speaking_impl}
use conferences.Janus.Upload.{upload_stream_impl}

-- The event of a publisher's stream that has started, to its room if that is open.
unfoldable pub started_event :
    Context → Tables → Option RtcStream.Object → Result ErrorKind (List Output)
unfolding find_room_by_rtc_id
started_event context t none = ok []
started_event context t (some rtc_stream) = do
  room ← find_room_by_rtc_id rtc_stream.rtc_id opened context.now t.rtcs t.rooms
  ok (stream_update room.id rtc_stream ∷ [])

-- The branch `WebRtcUp`.
unfoldable pub handle_web_rtc_up :
    Context → HandleEvent → Tables → Tables × Result ErrorKind (List Output)
unfolding update_query RtcStream.start started_event
handle_web_rtc_up context inev t =
    let agents = (update_query inev.sender connected t.agents).0 in
    let (streams, maybe_rtc_stream) =
      RtcStream.start inev.opaque_id.stream_id context.db_now t.streams in
    (record t { agents = agents; streams = streams }, started_event context t maybe_rtc_stream)

-- The `match` on the stream that `stop` returns.
unfoldable pub stop_stream_evt :
    OpaqueId
    → ℕ
    → Option RtcStream.Object
    → AgentConnection.Tables
    → AgentConnection.Tables × List Output
unfolding bulk_disconnect_by_rtc_query disconnect_single_agent_query
stop_stream_evt opaque_id handle_id none agents =
    ((disconnect_single_agent_query handle_id agents).0, [])
stop_stream_evt opaque_id handle_id (some rtc_stream) agents = elim rtc_stream.time [
  | none ↦ (agents, [])
  | some time ↦ (
    (bulk_disconnect_by_rtc_query rtc_stream.rtc_id agents).0,
    stream_update opaque_id.room_id rtc_stream ∷ [],
  )
]

unfoldable pub handle_hangup_detach :
    Context → HandleEvent → Tables → Tables × Result ErrorKind (List Output)
unfolding RtcStream.stop stop_stream_evt
handle_hangup_detach context inev t =
    let (streams, stopped) = RtcStream.stop inev.opaque_id.stream_id context.db_now t.streams in
    let (agents, events) = stop_stream_evt inev.opaque_id inev.sender stopped t.agents in
    (record t { agents = agents; streams = streams }, ok events)

-- The branch `Event`, by the kind of the response's transaction.
unfoldable pub handle_transaction :
    Context
    → Option TransactionKind
    → EventResponse
    → Tables
    → Tables × Result ErrorKind (List Output)
unfolding answer create_status read_status agent_speaking_impl upload_stream_impl
handle_transaction context (some (create_stream tn)) resp t =
    (t, answer context create_status tn resp)
handle_transaction context (some (read_stream tn)) resp t = (t, answer context read_status tn resp)
handle_transaction context (some (upload_stream rtc_id)) resp t =
    upload_stream_impl context rtc_id resp t
handle_transaction context (some agent_speaking) resp t = (t, agent_speaking_impl context resp)
handle_transaction context (some agent_leave) resp t = (t, ok [])
handle_transaction context (some update_reader_config) resp t = (t, ok [])
handle_transaction context (some update_writer_config) resp t = (t, ok [])
handle_transaction context (some service_ping) resp t = (t, ok [])
handle_transaction context none resp t = (t, ok [])

unfoldable pub handle_event_impl :
    Context → IncomingEvent → Tables → Tables × Result ErrorKind (List Output)
unfolding handle_web_rtc_up handle_hangup_detach handle_transaction
handle_event_impl context (web_rtc_up inev) t = handle_web_rtc_up context inev t
handle_event_impl context (hang_up inev) t = handle_hangup_detach context inev t
handle_event_impl context (detached inev) t = handle_hangup_detach context inev t
handle_event_impl context (media inev) t = (t, ok [])
handle_event_impl context (timeout session_id) t = (t, ok [])
handle_event_impl context (slow_link inev) t = (t, ok [])
handle_event_impl context (event resp) t = handle_transaction context resp.transaction resp t

abbrev pub or_empty : Result ErrorKind (List Output) → List Output
or_empty (ok outputs) = outputs
or_empty (err e) = []

-- `handle_event`: an error sends nothing, and undoes nothing.
unfoldable pub handle_event : Context → IncomingEvent → Tables → Tables × List Output
unfolding handle_event_impl
handle_event context payload t =
    let (after, outputs) = handle_event_impl context payload t in (after, or_empty outputs)
