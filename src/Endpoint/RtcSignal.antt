-- ===== src/Endpoint/RtcSignal.antt =====
-- src/app/endpoint/rtc_signal.rs: an agent's offer, answer or candidate for a connection. The parser of
-- SDP, Janus and the waitlist are parameters. Times are milliseconds.
pub mod Owner
pub mod Trickle
use Prim.Native.String.{String}
use conferences.Base.{
  ℕ, ◌+◌, ◌*◌, List, [], ◌∷◌, Option, none, some, Bool, true, false, not, ◌&&◌, if◌then◌else◌, ◌==◌,
  Result, ok, err, ◌>>=◌, ok_or,
}
use conferences.AppError.{
  ErrorKind, access_denied, agent_not_connected, backend_client_creation_failed, backend_not_found,
  backend_request_failed, db_query_failed, invalid_handle_id, invalid_jsep_format, invalid_sdp_type,
  janus_response_timeout, message_parsing_failed, not_implemented, rtc_not_found,
}
use conferences.Db.AgentConnection
use conferences.Db.JanusBackend
use conferences.Db.Room.{Bound, excluded, unbounded}
use conferences.Db.Room
use conferences.Db.Rtc.{none_policy, is_owned}
use conferences.Db.Rtc
use conferences.Db.RtcReaderConfig
use conferences.Db.RtcStream
use conferences.Db.RtcWriterConfig
use conferences.Endpoint.Handler.{
  rtc, Action, read_action, update_action, Env, authorized, of_sql, require,
}
use conferences.Endpoint.Helpers.{opened, find_room_by_id, check_room_presence}
use conferences.Endpoint.Rtc.{Tables}
use conferences.Endpoint.RtcConnect.{HandleId, ◌then_do◌}

-- The attributes of a media section that `is_sdp_recvonly` looks for.
pub record Media : Type 0 where
  pub recvonly : Bool
  pub sendonly : Bool
  pub sendrecv : Bool

pub data Jsep : Type 0 where
  offer answer ice_candidate : ℕ → Jsep

-- `ReadStreamRequest` and `CreateStreamRequest`; the writer config stands in the latter only.
pub record StreamRequest : Type 0 where
  pub rtc_id : ℕ
  pub agent_id : ℕ
  pub writer_config : Option RtcWriterConfig.Object
  pub reader_configs : List RtcReaderConfig.Object
  pub handle_id : ℕ
  pub session_id : ℕ
  pub sdp : ℕ

-- The parser, Janus, the waitlist and the setting `max_room_duration`, in hours. `wait` is what comes
-- through the waitlist: nothing in time, or what Janus answers. A request by MQTT does not wait.
pub record Signaling : Type 0 where
  pub parse_sdp : ℕ → Option (List Media)
  pub get_or_insert : JanusBackend.Object → Bool
  pub read_stream : StreamRequest → Bool
  pub create_stream : StreamRequest → Bool
  pub trickle_request : (session_id handle_id candidate : ℕ) → Bool
  pub register : Bool
  pub wait : Option (Result ErrorKind (Option ℕ))
  pub max_room_duration : Option ℕ
  pub is_mqtt : Bool

unfoldable pub is_recvonly : List Media → Bool
is_recvonly [] = true
is_recvonly (m ∷ ms) = (m.recvonly && not m.sendonly && not m.sendrecv) && is_recvonly ms

-- `is_sdp_recvonly`.
unfoldable pub is_sdp_recvonly : Signaling → ℕ → Result ErrorKind Bool
unfolding is_recvonly
is_sdp_recvonly s sdp = do
  media ← ok_or (s.parse_sdp sdp) invalid_jsep_format
  ok (is_recvonly media)

-- One hour in milliseconds.
abbrev pub hour : ℕ
hour = 3600000

-- The end that a room without one gets from its first stream.
unfoldable pub bounded_time : Option ℕ → ℕ → Room.Object → Option Room.Time
bounded_time none now room = none
bounded_time (some hours) now room = if room.infinite then none else elim room.time.end [
  | unbounded ↦ some (record { start = room.time.start; end = excluded (now + hours * hour) })
  | _ ↦ none
]

unfoldable pub bound_room :
    Option ℕ → ℕ → Room.Object → List Room.Object → List Room.Object × Result ErrorKind (Unit {0})
unfolding bounded_time Room.update_query Room.new_update
bound_room hours now room rooms = elim (bounded_time hours now room) [
  | none ↦ (rooms, ok tt)
  | some time ↦
      let w = Room.update_query (record Room.new_update { time = some time }) room.id rooms in
      (w.0, elim w.1 [ err e ↦ err (of_sql e) | ok o ↦ ok tt ])
]

unfoldable pub new_stream : HandleId → ℕ → String → ℕ → RtcStream.Object
new_stream h agent_id label now = record {
  id = h.rtc_stream_id;
  handle_id = h.janus_handle_id;
  rtc_id = h.rtc_id;
  backend_id = h.backend_id;
  label = label;
  sent_by = agent_id;
  time = none;
  created_at = now;
}

-- `start_rtc_stream`: a transaction.
unfoldable pub start_rtc_stream :
    Env
    → Signaling
    → HandleId
    → ℕ
    → Option String
    → Room.Object
    → Tables
    → Tables × Result ErrorKind (Unit {0})
unfolding bound_room new_stream RtcStream.insert_query
start_rtc_stream env s h agent_id none room t = (t, err message_parsing_failed)
start_rtc_stream env s h agent_id (some label) room t =
    let r = bound_room s.max_room_duration (env.clock 1) room t.rooms in
    let w = RtcStream.insert_query (new_stream h agent_id label env.db_now) t.streams in
    elim r.1 [
      | err e ↦ (t, err e)
      | ok _ ↦ elim w.1 [
        | err e ↦ (t, err db_query_failed)
        | ok o ↦ (record t { rooms = r.0; streams = w.0 }, ok tt)
      ]
    ]

-- The backend that the handle id names has to be that of the room.
unfoldable pub check_backend_id : HandleId → Room.Object → Result ErrorKind (Unit {0})
check_backend_id h room = elim room.backend_id [
  | none ↦ err backend_not_found
  | some id ↦ require (h.backend_id == id) invalid_handle_id
]

-- The agent's own connection, by the handle that the handle id names.
unfoldable pub check_connection :
    HandleId → ℕ → ℕ → AgentConnection.Tables → Result ErrorKind (Unit {0})
unfolding AgentConnection.find_query
check_connection h agent_id rtc_id agents = do
  c ← ok_or (AgentConnection.find_query agent_id rtc_id agents) agent_not_connected
  require (h.janus_handle_id == c.handle_id) invalid_handle_id

-- What `CreateHandler::handle` validates: the room, the RTC and the backend.
unfoldable pub validate :
    Env → HandleId → ℕ → Tables → Result ErrorKind (Room.Object × Rtc.Object × JanusBackend.Object)
unfolding Rtc.find_query find_room_by_id check_room_presence check_backend_id
    JanusBackend.find_query check_connection
validate env h agent_id t = do
  rtc_row ← ok_or (Rtc.find_query t.rtcs h.rtc_id) rtc_not_found
  room ← find_room_by_id rtc_row.room_id opened (env.clock 0) t.rooms
  _ ← check_room_presence room agent_id t.agents.agents
  _ ← check_backend_id h room
  backend ← ok_or (JanusBackend.find_query t.backends h.backend_id) backend_not_found
  _ ← require (h.janus_session_id == backend.session_id) invalid_handle_id
  _ ← check_connection h agent_id rtc_row.id t.agents
  ok (room, rtc_row, backend)

-- `authorize`.
unfoldable pub authorize : Env → HandleId → ℕ → Action → Room.Object → Result ErrorKind (Unit {0})
unfolding authorized
authorize env h agent_id action room = elim room.rtc_sharing_policy [
  | none_policy ↦ err not_implemented
  | _ ↦ authorized env agent_id room.audience (rtc room.classroom_id h.rtc_id) action
]

-- The answer: `NO_CONTENT`, or what has come through the waitlist.
pub data Answer : Type 0 where
  no_content : Answer
  jsep_answer : Option ℕ → Answer

-- A request for a stream: by MQTT it is sent, by HTTP the answer is waited for.
unfoldable pub exchange :
    Signaling
    → JanusBackend.Object
    → (StreamRequest → Bool)
    → StreamRequest
    → Result ErrorKind Answer
exchange s backend send request =
    if s.is_mqtt
    then (do
      _ ← require (s.get_or_insert backend) backend_client_creation_failed
      _ ← require (send request) backend_request_failed
      ok no_content)
    else do
      _ ← require s.register janus_response_timeout
      _ ← require (s.get_or_insert backend) backend_client_creation_failed
      _ ← require (send request) backend_request_failed
      answered ← ok_or s.wait janus_response_timeout
      jsep ← answered
      ok (jsep_answer jsep)

unfoldable pub stream_request :
    HandleId → ℕ → ℕ → Option RtcWriterConfig.Object → List RtcReaderConfig.Object → StreamRequest
stream_request h agent_id sdp writer_config reader_configs = record {
  rtc_id = h.rtc_id;
  agent_id = agent_id;
  writer_config = writer_config;
  reader_configs = reader_configs;
  handle_id = h.janus_handle_id;
  session_id = h.janus_session_id;
  sdp = sdp;
}

-- The offer to receive.
unfoldable pub read_stream :
    Signaling → HandleId → ℕ → ℕ → JanusBackend.Object → Tables → Result ErrorKind Answer
unfolding exchange stream_request RtcReaderConfig.read_config
read_stream s h agent_id sdp backend t =
    exchange s backend s.read_stream
      (stream_request h agent_id sdp none (RtcReaderConfig.read_config h.rtc_id t.reader_configs))

-- The offer to send: the stream is written first.
unfoldable pub create_stream :
    Env
    → Signaling
    → HandleId
    → ℕ
    → Option String
    → ℕ
    → Room.Object
    → JanusBackend.Object
    → Tables
    → Tables × Result ErrorKind Answer
unfolding start_rtc_stream exchange stream_request RtcReaderConfig.read_config
    RtcWriterConfig.read_config
create_stream env s h agent_id label sdp room backend t =
    start_rtc_stream env s h agent_id label room t then_do λ t _. (
      t,
      exchange s backend s.create_stream (
          stream_request h agent_id sdp (RtcWriterConfig.read_config h.rtc_id t.writer_configs)
            (RtcReaderConfig.read_config h.rtc_id t.reader_configs)),
    )

-- Who may send to an RTC.
unfoldable pub check_owner : ℕ → Room.Object → Rtc.Object → Result ErrorKind (Unit {0})
check_owner agent_id room rtc_row =
    require (not (is_owned room.rtc_sharing_policy && not (agent_id == rtc_row.created_by)))
      access_denied

unfoldable pub signal_offer :
    Env
    → Signaling
    → HandleId
    → ℕ
    → Option String
    → ℕ
    → Room.Object × Rtc.Object × JanusBackend.Object
    → Bool
    → Tables
    → Tables × Result ErrorKind Answer
unfolding authorize read_stream check_owner create_stream
signal_offer env s h agent_id label sdp (room, rtc_row, backend) true t =
    (t, do _ ← authorize env h agent_id read_action room; read_stream s h agent_id sdp backend t)
signal_offer env s h agent_id label sdp (room, rtc_row, backend) false t =
    (t, check_owner agent_id room rtc_row) then_do λ t _.
    (t, authorize env h agent_id update_action room) then_do λ t _.
    create_stream env s h agent_id label sdp room backend t

unfoldable pub trickle_candidate :
    Env
    → Signaling
    → HandleId
    → ℕ
    → ℕ
    → Room.Object
    → JanusBackend.Object
    → Result ErrorKind (Unit {0})
unfolding authorize
trickle_candidate env s h agent_id candidate room backend = do
  _ ← authorize env h agent_id read_action room
  _ ← require (s.get_or_insert backend) backend_client_creation_failed
  require (s.trickle_request h.janus_session_id h.janus_handle_id candidate) backend_request_failed

-- `CreateHandler::handle`.
unfoldable pub create :
    Env
    → Signaling
    → HandleId
    → ℕ
    → Option String
    → Jsep
    → Tables
    → Tables × Result ErrorKind Answer
unfolding validate is_sdp_recvonly signal_offer trickle_candidate
create env s h agent_id label jsep t = (t, validate env h agent_id t) then_do λ t v. elim jsep [
  | offer sdp ↦
      (t, is_sdp_recvonly s sdp) then_do λ t recv. signal_offer env s h agent_id label sdp v recv t
  | answer sdp ↦ (t, err invalid_sdp_type)
  | ice_candidate candidate ↦
      (t, do _ ← trickle_candidate env s h agent_id candidate v.0 v.2; ok (jsep_answer none))
]

-- `Trickle::run`, which validates in another order.
unfoldable pub trickle : Env → Signaling → HandleId → ℕ → ℕ → Tables → Result ErrorKind (Unit {0})
unfolding Rtc.find_query find_room_by_id check_room_presence check_backend_id
    JanusBackend.find_query check_connection trickle_candidate
trickle env s h agent_id candidate t = do
  backend ← ok_or (JanusBackend.find_query t.backends h.backend_id) backend_not_found
  rtc_row ← ok_or (Rtc.find_query t.rtcs h.rtc_id) rtc_not_found
  _ ← check_connection h agent_id rtc_row.id t.agents
  room ← find_room_by_id rtc_row.room_id opened (env.clock 0) t.rooms
  _ ← check_room_presence room agent_id t.agents.agents
  _ ← check_backend_id h room
  _ ← require (h.janus_session_id == backend.session_id) invalid_handle_id
  trickle_candidate env s h agent_id candidate room backend
