-- ===== src/Janus/Upload.antt =====
-- src/backend/janus/mod.rs: Janus confirms that a recording is uploaded; with `upload_event` of
-- src/app/endpoint/system.rs.
use conferences.Base.{
  ℕ, List, [], ◌∷◌, Option, none, some, Bool, true, false, ◌&&◌, if◌then◌else◌, Result, ok, err,
  ◌>>=◌, ok_or,
}
use conferences.AppError.{
  ErrorKind, message_parsing_failed, message_building_failed, backend_request_failed,
  backend_recording_missing, rtc_not_found, db_query_failed,
}
use conferences.Db.Recording
use conferences.Db.Room
use conferences.Db.Room.{SqlError}
use conferences.Db.Rtc.{owned, shared, none_policy, SharingPolicy}
use conferences.Db.Rtc
use conferences.Db.Rtc.Recorded.{list_with_recording}
use conferences.Endpoint.Helpers.{find_room_by_rtc_id, any_time}
use conferences.Endpoint.Vacuum.{Uploads, UploadConfig, upload_config}
use conferences.Janus.{
  EventResponse, Json, Tables, Context, Uri, RtcUploadEventData, Output, room_upload,
}
use conferences.Janus.Answers.{is_text}

abbrev pub is_ready : Recording.Status → Bool
is_ready Recording.ready = true
is_ready Recording.in_progress = false
is_ready Recording.missing = false

-- The test of one RTC in `room_done`.
abbrev pub is_done : Option Recording.Object → Bool
is_done none = true
is_done (some recording) = is_ready recording.status

unfoldable pub room_done : List (Rtc.Object × Option Recording.Object) → Bool
room_done [] = true
room_done (x ∷ xs) = is_done x.1 && room_done xs

unfoldable pub recs_with_rtcs :
    List (Rtc.Object × Option Recording.Object) → List (Recording.Object × Rtc.Object)
recs_with_rtcs [] = []
recs_with_rtcs (x ∷ xs) =
    let rest = recs_with_rtcs xs in
    elim x.1 [
      | none ↦ rest
      | some recording ↦ if is_ready recording.status then (recording, x.0) ∷ rest else rest
    ]

-- `record_name`.
abbrev pub prefix_of : SharingPolicy → ℕ → Option ℕ
prefix_of owned classroom_id = some classroom_id
prefix_of shared classroom_id = none
prefix_of none_policy classroom_id = none

unfoldable pub record_uri : UploadConfig → Recording.Object → Room.Object → Uri
record_uri config recording room = record {
  bucket = config.bucket;
  prefix = prefix_of room.rtc_sharing_policy room.classroom_id;
  rtc_id = recording.rtc_id;
}

unfoldable pub uri_of :
    Uploads → Room.Object → Recording.Object → Recording.Status → Result ErrorKind (Option Uri)
unfolding upload_config record_uri
uri_of c room recording Recording.in_progress = err message_building_failed
uri_of c room recording Recording.missing = ok none
uri_of c room recording Recording.ready = do
  config ← upload_config c room
  ok (some (record_uri config recording room))

abbrev pub entry : Recording.Object → Rtc.Object → Option Uri → RtcUploadEventData
entry recording rtc uri = record {
  id = recording.rtc_id;
  status = recording.status;
  uri = uri;
  created_by = rtc.created_by;
  mjr_dumps_uris = recording.mjr_dumps_uris;
}

-- The loop of `upload_event`.
unfoldable pub event_entries :
    Uploads
    → Room.Object
    → List (Recording.Object × Rtc.Object)
    → Result ErrorKind (List RtcUploadEventData)
unfolding uri_of
event_entries c room [] = ok []
event_entries c room ((recording, rtc) ∷ rest) = do
  uri ← uri_of c room recording recording.status
  entries ← event_entries c room rest
  ok (entry recording rtc uri ∷ entries)

-- `upload_event`.
unfoldable pub upload_event :
    Uploads → Room.Object → List (Recording.Object × Rtc.Object) → Result ErrorKind Output
unfolding event_entries
upload_event c room recordings = do
  entries ← event_entries c room recordings
  ok (room_upload room.audience (record { id = room.id; rtcs = entries }))

-- The rest after the update of the recording.
unfoldable pub announce : Context → Room.Object → Tables → Result ErrorKind (List Output)
unfolding room_done recs_with_rtcs upload_event list_with_recording
announce context room t =
    let rtcs_with_recs = list_with_recording room.id t.rtcs t.recordings in
    if room_done rtcs_with_recs
    then (do
      event ← upload_event context.uploads room (recs_with_rtcs rtcs_with_recs)
      ok (event ∷ []))
    else ok []

abbrev pub with_recordings : Tables → List Recording.Object → Tables
with_recordings t rows = record t { recordings = rows }

-- From `rtc::FindQuery` on.
unfoldable pub finish : Context → ℕ → List ℕ → Tables → Tables × Result ErrorKind (List Output)
unfolding announce find_room_by_rtc_id Recording.update_query Rtc.find_query
finish context rtc_id uris t = elim (ok_or (Rtc.find_query t.rtcs rtc_id) rtc_not_found) [
  | err e ↦ (t, err e)
  | ok rtc ↦ elim (find_room_by_rtc_id rtc.id any_time context.now t.rtcs t.rooms) [
    | err e ↦ (t, err e)
    | ok room ↦
        let (rows, updated) =
          Recording.update_query rtc_id (some Recording.ready) (some uris) t.recordings in
        elim updated [
          | err e ↦ (with_recordings t rows, err db_query_failed)
          | ok _ ↦ (with_recordings t rows, announce context room (with_recordings t rows))
        ]
  ]
]

-- `maybe_already_running`.
unfoldable pub is_already_running : Json → ℕ → Bool
unfolding is_text
is_already_running json plugin_data = elim (json.get plugin_data "state") [
  | none ↦ false
  | some v ↦ is_text json "already_running" v
]

unfoldable pub mjr_dumps_uris : Json → ℕ → Result ErrorKind (List ℕ)
mjr_dumps_uris json plugin_data = do
  dumps ← ok_or (json.get plugin_data "mjr_dumps_uris") message_parsing_failed
  ok_or (json.uris dumps) message_parsing_failed

-- What the answer says once its status is 200: nothing, or the id and the URIs of the dumps.
unfoldable pub uploaded : Json → ℕ → Result ErrorKind (Option (ℕ × List ℕ))
unfolding is_already_running mjr_dumps_uris
uploaded json plugin_data = do
  id ← ok_or (json.get plugin_data "id") message_parsing_failed
  rtc_id ← ok_or (json.rtc_id id) message_parsing_failed
  (if is_already_running json plugin_data
      then ok none
      else (mjr_dumps_uris json plugin_data >>= λ uris. ok (some (rtc_id, uris))))

-- The status 404: the recording of the transaction's RTC is missing.
unfoldable pub missing : ℕ → Tables → Tables × Result ErrorKind (List Output)
unfolding Recording.update_query
missing rtc_id t =
    let (rows, updated) =
      Recording.update_query rtc_id (some Recording.missing) none t.recordings in
    elim updated [
      | err e ↦ (with_recordings t rows, err db_query_failed)
      | ok _ ↦ (with_recordings t rows, err backend_recording_missing)
    ]

-- The `match` on the status.
unfoldable pub upload_status :
    Context → ℕ → ℕ → ℕ → Tables → Tables × Result ErrorKind (List Output)
unfolding is_text missing uploaded finish
upload_status context tn_rtc_id plugin_data status t =
    let found = missing tn_rtc_id t in
    if is_text context.json "200" status
    then elim (uploaded context.json plugin_data) [
      | err e ↦ (t, err e)
      | ok none ↦ (t, ok [])
      | ok (some (rtc_id, uris)) ↦ finish context rtc_id uris t
    ]
    else (if is_text context.json "404" status then found else (t, err backend_request_failed))

-- The branch `UploadStream`.
unfoldable pub upload_stream_impl :
    Context → ℕ → EventResponse → Tables → Tables × Result ErrorKind (List Output)
unfolding upload_status
upload_stream_impl context tn_rtc_id resp t = elim (ok_or resp.data_ message_parsing_failed) [
  | err e ↦ (t, err e)
  | ok plugin_data ↦ elim (ok_or (context.json.get plugin_data "status") message_parsing_failed) [
    | err e ↦ (t, err e)
    | ok status ↦ upload_status context tn_rtc_id plugin_data status t
  ]
]
