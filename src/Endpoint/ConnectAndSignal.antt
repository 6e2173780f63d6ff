-- ===== src/Endpoint/ConnectAndSignal.antt =====
-- src/app/endpoint/rtc.rs: `ConnectAndSignal`, which connects to an RTC and signals an offer at once.
-- Its `try_join!`s only read but for the start of the stream, and are run from the first to the last.
pub mod Intent
use Prim.Native.String.{String}
use conferences.Base.{
  ℕ, List, [], ◌∷◌, Option, none, some, Bool, true, false, not, if◌then◌else◌, Result, ok, err,
  ◌>>=◌, ok_or,
}
use conferences.AppError.{
  ErrorKind, backend_client_creation_failed, backend_request_failed, db_query_failed,
  janus_response_timeout,
}
use conferences.Db.JanusBackend
use conferences.Db.Recording
use conferences.Db.Room
use conferences.Db.RtcReaderConfig
use conferences.Db.RtcWriterConfig
use conferences.Endpoint.Handler.{Env, require}
use conferences.Endpoint.Helpers.{opened, find_room_by_rtc_id}
use conferences.Endpoint.Rtc.{Tables}
use conferences.Endpoint.RtcConnect.{
  ConnectIntent, read_intent, write_intent, Connector, HandleId, check_room_policy,
  authorize_connect, open_handle, ◌then_do◌,
}
use conferences.Endpoint.RtcSignal.{
  Signaling, StreamRequest, is_sdp_recvonly, start_rtc_stream, stream_request,
}

-- A request for a stream, whose answer is waited for.
unfoldable pub await_stream :
    Connector
    → Signaling
    → JanusBackend.Object
    → (StreamRequest → Bool)
    → StreamRequest
    → Result ErrorKind (Option ℕ)
await_stream c s backend send request = do
  _ ← require s.register janus_response_timeout
  _ ← require (c.get_or_insert backend) backend_client_creation_failed
  _ ← require (send request) backend_request_failed
  answered ← ok_or s.wait janus_response_timeout
  answered

-- The two branches on the offer: to receive, or to send, for which a stream is written.
unfoldable pub signal :
    Env
    → Connector
    → Signaling
    → ℕ
    → Option String
    → ℕ
    → Room.Object
    → HandleId
    → JanusBackend.Object
    → Bool
    → Tables
    → Tables × Result ErrorKind (Option ℕ)
unfolding await_stream start_rtc_stream stream_request RtcReaderConfig.read_config
    RtcWriterConfig.read_config
signal env c s agent_id label sdp room h backend true t = (
  t,
  await_stream c s backend s.read_stream
      (stream_request h agent_id sdp none (RtcReaderConfig.read_config h.rtc_id t.reader_configs)),
)
signal env c s agent_id label sdp room h backend false t =
    start_rtc_stream env s h agent_id label room t then_do λ t _. (
      t,
      await_stream c s backend s.create_stream (
          stream_request h agent_id sdp (RtcWriterConfig.read_config h.rtc_id t.writer_configs)
            (RtcReaderConfig.read_config h.rtc_id t.reader_configs)),
    )

-- The recording that the first writer starts.
unfoldable pub create_recording : ConnectIntent → ℕ → Tables → Tables × Result ErrorKind (Unit {0})
unfolding Recording.find_query Recording.insert_query
create_recording read_intent rtc_id t = (t, ok tt)
create_recording write_intent rtc_id t = elim (Recording.find_query rtc_id t.recordings) [
  | some o ↦ (t, ok tt)
  | none ↦
      let w = Recording.insert_query rtc_id t.recordings in
      (record t { recordings = w.0 }, elim w.1 [ err e ↦ err db_query_failed | ok o ↦ ok tt ])
]

-- `ConnectAndSignal::run` after the checks.
unfoldable pub run_allowed :
    Env
    → Connector
    → Signaling
    → ConnectIntent
    → ℕ
    → ℕ
    → ℕ
    → Option String
    → ℕ
    → Room.Object
    → Tables
    → Tables × Result ErrorKind (HandleId × Option ℕ)
unfolding open_handle is_sdp_recvonly signal create_recording
run_allowed env c s intent stream_id agent_id rtc_id label sdp room t =
    open_handle env c intent stream_id agent_id rtc_id room t then_do λ t h.
    (t, is_sdp_recvonly s sdp) then_do λ t recv.
    signal env c s agent_id label sdp room h.0 h.1 recv t then_do λ t jsep.
    create_recording intent rtc_id t then_do λ t _. (t, ok (h.0, jsep))

-- `ConnectAndSignal::run`.
unfoldable pub run :
    Env
    → Connector
    → Signaling
    → ConnectIntent
    → ℕ
    → ℕ
    → ℕ
    → Option String
    → ℕ
    → Tables
    → Tables × Result ErrorKind (HandleId × Option ℕ)
unfolding find_room_by_rtc_id check_room_policy authorize_connect run_allowed
run env c s intent stream_id agent_id rtc_id label sdp t =
    (t, find_room_by_rtc_id rtc_id opened (env.clock 0) t.rtcs t.rooms) then_do λ t room.
    (t, check_room_policy intent agent_id rtc_id t.rtcs room) then_do λ t _.
    (t, authorize_connect env intent agent_id rtc_id room) then_do λ t _.
    run_allowed env c s intent stream_id agent_id rtc_id label sdp room t
