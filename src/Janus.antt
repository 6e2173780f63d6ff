-- ===== src/Janus.antt =====
-- src/backend/janus: the events that Janus sends (client/mod.rs, client/events.rs, client/transactions.rs),
-- and what handling them does (mod.rs). A JSON value is a number that the functions of `Json` read.
pub mod Answers
pub mod Complete
pub mod Ending
pub mod Events
pub mod InternalApi
pub mod Online
pub mod Polling
pub mod Pool
pub mod Removal
pub mod Told
pub mod Upload
use Prim.Native.String.{String}
use conferences.Base.{ℕ, List, Option, none, some, Bool, Result}
use conferences.AppError.{ErrorKind}
use conferences.Db.AgentConnection
use conferences.Db.Recording
use conferences.Db.Room
use conferences.Db.Rtc
use conferences.Db.RtcStream
use conferences.Endpoint.Vacuum.{Uploads}

pub record OpaqueId : Type 0 where
  pub stream_id : ℕ
  pub room_id : ℕ

-- `CreateStreamTransaction` and `ReadStreamTransaction`.
pub data StreamTransaction : Type 0 where
  mqtt : ℕ → StreamTransaction
  http : (id replica_addr : ℕ) → StreamTransaction

-- `UploadStreamTransaction` is the id of its RTC.
pub data TransactionKind : Type 0 where
  agent_leave update_reader_config update_writer_config : TransactionKind
  agent_speaking service_ping : TransactionKind
  create_stream read_stream : StreamTransaction → TransactionKind
  upload_stream : ℕ → TransactionKind

pub record EventResponse : Type 0 where
  pub transaction : Option TransactionKind
  pub session_id : ℕ
  pub opaque_id : Option OpaqueId
  pub data_ : Option ℕ
  pub jsep : Option ℕ

-- What the events on a handle share.
pub record HandleEvent : Type 0 where
  pub session_id : ℕ
  pub sender : ℕ
  pub opaque_id : OpaqueId

pub data IncomingEvent : Type 0 where
  web_rtc_up media hang_up slow_link detached : HandleEvent → IncomingEvent
  timeout : ℕ → IncomingEvent
  event : EventResponse → IncomingEvent

-- `IncomingEvent::event_kind`.
unfoldable pub event_kind : IncomingEvent → String
event_kind (web_rtc_up e) = "WebRtcUp"
event_kind (media e) = "Media"
event_kind (timeout e) = "Media"
event_kind (hang_up e) = "HangUp"
event_kind (slow_link e) = "SlowLink"
event_kind (detached e) = "Detached"
event_kind (event e) = elim e.transaction [
  | some agent_leave ↦ "AgentLeave"
  | some (create_stream t) ↦ "CreateStream"
  | some (read_stream t) ↦ "ReadStream"
  | some update_reader_config ↦ "UpdateReaderConfig"
  | some update_writer_config ↦ "UpdateWriterConfig"
  | some (upload_stream r) ↦ "UploadStream"
  | some agent_speaking ↦ "AgentSpeaking"
  | some service_ping ↦ "ServicePing"
  | none ↦ "EmptyTran"
]

-- `IncomingEvent::opaque_id`.
unfoldable pub opaque_id : IncomingEvent → Option OpaqueId
opaque_id (web_rtc_up e) = some e.opaque_id
opaque_id (media e) = some e.opaque_id
opaque_id (timeout e) = none
opaque_id (hang_up e) = some e.opaque_id
opaque_id (slow_link e) = some e.opaque_id
opaque_id (detached e) = some e.opaque_id
opaque_id (event e) = none

pub record SpeakingNotification : Type 0 where
  pub speaking : Bool
  pub agent_id : ℕ

-- serde_json: `get` and `as_str` of a value, and `from_value` at the types that the code reads.
pub record Json : Type 0 where
  pub get : ℕ → String → Option ℕ
  pub as_str : ℕ → Option String
  pub rtc_id : ℕ → Option ℕ
  pub uris : ℕ → Option (List ℕ)
  pub speaking : ℕ → Option SpeakingNotification

-- The tables that the events read and write.
pub record Tables : Type 0 where
  pub agents : AgentConnection.Tables
  pub streams : List RtcStream.Object
  pub rtcs : List Rtc.Object
  pub rooms : List Room.Object
  pub recordings : List Recording.Object

-- The clocks of the service and of the database, the address of the replica, and the configuration.
pub record Context : Type 0 where
  pub now : ℕ
  pub db_now : ℕ
  pub own_ip_addr : ℕ
  pub json : Json
  pub uploads : Uploads

-- `s3://bucket/prefix/rtc.source.webm`, the prefix being the classroom of an owned room.
pub record Uri : Type 0 where
  pub bucket : String
  pub prefix : Option ℕ
  pub rtc_id : ℕ

pub record RtcUploadEventData : Type 0 where
  pub id : ℕ
  pub status : Recording.Status
  pub uri : Option Uri
  pub created_by : ℕ
  pub mjr_dumps_uris : Option (List ℕ)

pub record RoomUploadEventData : Type 0 where
  pub id : ℕ
  pub rtcs : List RtcUploadEventData

-- What an event sends: an event to the topic of a room or an audience, a response to a request, an answer to
-- the waitlist of this replica, or to that of another one.
pub data Output : Type 0 where
  stream_update : (room_id : ℕ) → RtcStream.Object → Output
  agent_speaking_event : (room_id : ℕ) → SpeakingNotification → Output
  room_upload : (audience : String) → RoomUploadEventData → Output
  respond : (reqp : ℕ) → Result ErrorKind ℕ → Output
  fire : (id : ℕ) → Result ErrorKind ℕ → Output
  stream_callback : (id replica_addr : ℕ) → Result ErrorKind ℕ → Output
