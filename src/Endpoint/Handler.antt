-- ===== src/Endpoint/Handler.antt =====
-- What the handlers of src/app/endpoint share: authorization, the clocks, responses with notifications
-- (src/app/error.rs: the conversions; src/app/service_utils.rs: `Response`). The service of authorization is
-- a parameter; `Utc::now()` and the database's `NOW()` are read from the environment. A connection
-- of the pool is always there.
use Prim.Native.String.{String}
use conferences.Base.{ℕ, List, Option, none, some, Bool, true, false, Result, ok, err, map_err}
use conferences.AppError.{ErrorKind, access_denied, authorization_failed, db_query_failed}
use conferences.Db.Room.{Object, SqlError}
use conferences.Db.JanusBackend

-- `svc_authz::ErrorKind`, as far as `From<svc_authz::Error> for Error` tells kinds apart.
pub data AuthzErrorKind : Type 0 where
  forbidden other_kind : AuthzErrorKind

unfoldable pub of_authz : AuthzErrorKind → ErrorKind
of_authz forbidden = access_denied
of_authz other_kind = authorization_failed

-- `AuthzObject::new`, on the lists of names that the handlers give it; and the actions.
pub data AuthzObject : Type 0 where
  classrooms system : AuthzObject
  classroom rtcs : ℕ → AuthzObject
  rtc : ℕ → ℕ → AuthzObject

pub data Action : Type 0 where
  create_action read_action update_action list_action : Action

-- The answer of the service of authorization to an agent, and the clocks: what `Utc::now()` shows
-- at its nth reading in a handler, and `NOW()` of the database.
pub record Env : Type 0 where
  pub authorize : ℕ → String → AuthzObject → Action → Result AuthzErrorKind (Unit {0})
  pub clock : ℕ → ℕ
  pub db_now : ℕ

unfoldable pub authorized : Env → ℕ → String → AuthzObject → Action → Result ErrorKind (Unit {0})
unfolding of_authz
authorized env agent audience object action =
    map_err of_authz (env.authorize agent audience object action)

-- `From<sqlx::Error> for Error`.
abbrev pub of_sql : SqlError → ErrorKind
of_sql e = db_query_failed

-- `Response::add_notification`: the labels and topics that the handlers use.
pub data Label : Type 0 where
  room_create room_update room_close : Label

pub data Topic : Type 0 where
  audience_events : String → Topic
  room_events : ℕ → Topic

pub record Notification : Type 0 where
  pub label : Label
  pub topic : Topic
  pub room : Object

abbrev pub note : Label → Topic → Object → Notification
note l t o = record { label = l; topic = t; room = o }

pub record Response : Type 0 where
  pub room : Object
  pub notifications : List Notification

abbrev pub respond : Object → List Notification → Response
respond o ns = record { room = o; notifications = ns }

-- The clients of Janus: whether a client for the backend is there or can be made, and whether the
-- requests that carry the configs of a room succeed, by session, handle and items.
pub record WriterItem : Type 0 where
  pub stream_id : ℕ
  pub send_video : Bool
  pub send_audio : Bool
  pub video_remb : Option ℕ

pub record ReaderItem : Type 0 where
  pub reader_id : ℕ
  pub stream_id : ℕ
  pub receive_video : Bool
  pub receive_audio : Bool

pub record Janus : Type 0 where
  pub get_or_insert : JanusBackend.Object → Bool
  pub writer_update : ℕ → ℕ → List WriterItem → Bool
  pub reader_update : ℕ → ℕ → List ReaderItem → Bool

abbrev pub require : Bool → ErrorKind → Result ErrorKind (Unit {0})
require true e = ok tt
require false e = err e

-- The backend of a room, if it has one that is in the table.
unfoldable pub maybe_backend : Object → List JanusBackend.Object → Option JanusBackend.Object
unfolding JanusBackend.find_query
maybe_backend room backends = elim room.backend_id [
  | none ↦ none
  | some id ↦ JanusBackend.find_query backends id
]
