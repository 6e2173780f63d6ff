-- ===== src/Endpoint/Vacuum.antt =====
-- src/app/endpoint/system.rs: `VacuumHandler`, which asks Janus to upload the recordings of finished rooms,
-- with `finished_with_in_progress_recordings` of src/db/room.rs. SQL leaves the order of its rows open: here
-- it is that of the recordings.
pub mod Cleared
mod Listed
use Prim.Native.String.{String}
use conferences.Base.{
  ℕ, List, [], ◌∷◌, Option, none, some, Bool, true, false, ◌&&◌, if◌then◌else◌, ltb, Result, ok,
  err, ◌>>=◌, ok_or, same_text,
}
use conferences.AppError.{
  ErrorKind, not_implemented, config_key_missing, backend_client_creation_failed,
  backend_request_failed,
}
use conferences.Db.AgentConnection.{delete_agent_query}
use conferences.Db.AgentConnection
use conferences.Db.JanusBackend.{janus_api_version}
use conferences.Db.JanusBackend
use conferences.Db.Recording
use conferences.Db.Room.{bound_value}
use conferences.Db.Room
use conferences.Db.Rtc.{SharingPolicy, none_policy, shared, owned}
use conferences.Db.Rtc
use conferences.Endpoint.Handler.{
  Notification, note, room_close, room_events, system, update_action, Env, authorized, require,
}

pub record Tables : Type 0 where
  pub rooms : List Room.Object
  pub rtcs : List Rtc.Object
  pub recordings : List Recording.Object
  pub backends : List JanusBackend.Object
  pub agents : AgentConnection.Tables

-- A room, a recording that is in progress and the backend of the room.
pub record Unfinished : Type 0 where
  pub room : Room.Object
  pub recording : Recording.Object
  pub backend : JanusBackend.Object

abbrev pub is_sharing : SharingPolicy → Bool
is_sharing none_policy = false
is_sharing shared = true
is_sharing owned = true

abbrev pub is_in_progress : Recording.Status → Bool
is_in_progress Recording.in_progress = true
is_in_progress Recording.missing = false
is_in_progress Recording.ready = false

-- `upper(room.time) < now()`.
unfoldable pub is_over : ℕ → Room.Object → Bool
unfolding bound_value
is_over now r = elim (bound_value r.time.end) [ none ↦ false | some e ↦ ltb e now ]

-- `$2 IS NULL OR group = $2 OR group IS NULL`.
abbrev pub in_group : Option String → Option String → Bool
in_group none g = true
in_group (some w) none = true
in_group (some w) (some g) = same_text g w

-- The `WHERE` clause.
unfoldable pub is_unfinished : Option String → ℕ → Unfinished → Bool
unfolding is_over
is_unfinished group now u =
    is_sharing u.room.rtc_sharing_policy
    && same_text u.backend.api_version janus_api_version
    && is_over now u.room
    && is_in_progress u.recording.status
    && in_group group u.backend.group

-- The joins, from a recording on.
unfoldable pub join : Tables → Recording.Object → Option Unfinished
unfolding Rtc.find_query Room.find_query JanusBackend.find_query
join t o = elim (Rtc.find_query t.rtcs o.rtc_id) [
  | none ↦ none
  | some rtc ↦ elim (Room.find_query rtc.room_id t.rooms) [
    | none ↦ none
    | some room ↦ elim room.backend_id [
      | none ↦ none
      | some id ↦ elim (JanusBackend.find_query t.backends id) [
        | none ↦ none
        | some b ↦ some (record { room = room; recording = o; backend = b })
      ]
    ]
  ]
]

unfoldable pub unfinished_of : Option String → ℕ → Tables → List Recording.Object → List Unfinished
unfolding join is_unfinished
unfinished_of group now t [] = []
unfinished_of group now t (o ∷ os) =
    let rest = unfinished_of group now t os in
    elim (join t o) [ none ↦ rest | some u ↦ if is_unfinished group now u then u ∷ rest else rest ]

-- `finished_with_in_progress_recordings`.
unfoldable pub finished_with_in_progress_recordings : Option String → ℕ → Tables → List Unfinished
unfolding unfinished_of
finished_with_in_progress_recordings group now t = unfinished_of group now t t.recordings

-- Where the recordings of an audience go.
pub record UploadConfig : Type 0 where
  pub backend : String
  pub bucket : String

-- The configuration, and Janus: `upload_stream` on the recording's RTC, the backend and the bucket.
pub record Uploads : Type 0 where
  pub janus_group : Option String
  pub shared_configs : String → Option UploadConfig
  pub owned_configs : String → Option UploadConfig
  pub get_or_insert : JanusBackend.Object → Bool
  pub upload_stream : (session_id handle_id rtc_id : ℕ) → UploadConfig → Bool

-- `upload_config`.
unfoldable pub upload_config : Uploads → Room.Object → Result ErrorKind UploadConfig
upload_config c room = elim room.rtc_sharing_policy [
  | none_policy ↦ err not_implemented
  | shared ↦ ok_or (c.shared_configs room.audience) config_key_missing
  | owned ↦ ok_or (c.owned_configs room.audience) config_key_missing
]

-- One round of the loop after the delete of the agents.
unfoldable pub upload : Uploads → Unfinished → Result ErrorKind Notification
unfolding upload_config
upload c u = do
  config ← upload_config c u.room
  _ ← require (c.get_or_insert u.backend) backend_client_creation_failed
  _ ←
      require (c.upload_stream u.backend.session_id u.backend.handle_id u.recording.rtc_id config)
        backend_request_failed
  ok (note room_close (room_events u.room.id) u.room)

-- The loop: the first failure ends it, and the deletes until then stay.
unfoldable pub vacuum_all :
    Uploads
    → List Unfinished
    → AgentConnection.Tables
    → AgentConnection.Tables × Result ErrorKind (List Notification)
unfolding upload delete_agent_query
vacuum_all c [] t = (t, ok [])
vacuum_all c (u ∷ us) t =
    let deleted = (delete_agent_query none (some u.room.id) t).0 in
    let rest = vacuum_all c us deleted in
    elim (upload c u) [ err e ↦ (deleted, err e) | ok n ↦ (rest.0, do ns ← rest.1; ok (n ∷ ns)) ]

-- `VacuumHandler::handle`, for the audience of the service.
unfoldable pub vacuum :
    Env
    → Uploads
    → ℕ
    → String
    → Tables
    → AgentConnection.Tables × Result ErrorKind (List Notification)
unfolding authorized finished_with_in_progress_recordings vacuum_all
vacuum env c agent_id audience t = elim (authorized env agent_id audience system update_action) [
  | err e ↦ (t.agents, err e)
  | ok _ ↦ vacuum_all c (finished_with_in_progress_recordings c.janus_group env.db_now t) t.agents
]
