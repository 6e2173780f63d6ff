-- ===== src/Janus/Complete.antt =====
-- The event that the recordings of a room are uploaded tells of all of them.
use conferences.Base.{
  ℕ, ◌≡◌, refl, sym, subst, List, [], ◌∷◌, Option, none, some, true, map, All, filter, Result, ok,
  err, bind_ok, ok_eq, Result-cases, Option-cases, ==→eq, Bool-cases, inl, inr, arith, ◌==◌,
}
use conferences.Base.Table.Laws.{find_passes}
use conferences.Db.Recording
use conferences.Db.Room
use conferences.Db.Rtc
use conferences.Db.Rtc.Recorded.{split, list_with_recording}
use conferences.Endpoint.Vacuum.{Uploads, upload_config}
use conferences.AppError.{ErrorKind}
use conferences.Janus.{
  respond, fire, stream_callback, stream_update, agent_speaking_event, Tables, Context, Uri,
  RtcUploadEventData, RoomUploadEventData, Output, room_upload,
}
use conferences.Janus.Upload.{
  is_ready, is_done, room_done, record_uri, recs_with_rtcs, uri_of, event_entries, upload_event,
  announce,
}

abbrev Row : Type 0
Row = Rtc.Object × Option Recording.Object

-- The RTCs that have a recording.
abbrev pub recorded : List Row → List ℕ
recorded [] = []
recorded (x ∷ xs) = elim x.1 [ none ↦ recorded xs | some r ↦ x.0.id ∷ recorded xs ]

-- A recording in storage, under the RTC's name.
abbrev pub IsStored : RtcUploadEventData → Type 0
IsStored d = (d.status ≡ Recording.ready) × ((uri : Uri) × (d.uri ≡ some uri) × (uri.rtc_id ≡ d.id))

-- Every recording of the room is ready, and the event has all of them.
abbrev pub IsComplete : Tables → RoomUploadEventData → Type 0
IsComplete t e =
    let rows = list_with_recording e.id t.rtcs t.recordings in
    All (λ x. is_done x.1 ≡ true) rows
    × (map (λ d. d.id) e.rtcs ≡ recorded rows)
    × All IsStored e.rtcs

abbrev Belongs : Row → Type 0
Belongs (o, none) = Unit
Belongs (o, some r) = r.rtc_id ≡ o.id

split-Belongs : (recordings : List Recording.Object) (o : Rtc.Object) → Belongs (split recordings o)
unfolding split Recording.find_query
split-Belongs recordings o = elim (Option-cases (Recording.find_query o.id recordings)) [
  | inl e ↦ rw (e) tt
  | inr (r, e) ↦ rw (e) (==→eq r.rtc_id o.id (find_passes (Recording.has_rtc o.id) recordings r e))
]

rows-Belong :
    (recordings : List Recording.Object) (rtcs : List Rtc.Object)
    → All Belongs (map (split recordings) rtcs)
rows-Belong recordings [] = tt
rows-Belong recordings (o ∷ os) = (split-Belongs recordings o, rows-Belong recordings os)

room_done-All : (rows : List Row) → room_done rows ≡ true → All (λ x. is_done x.1 ≡ true) rows
unfolding room_done
room_done-All [] h = tt
room_done-All (x ∷ xs) h = ground (arith, h, room_done-All xs)

is_ready→ready : (s : Recording.Status) → is_ready s ≡ true → s ≡ Recording.ready
is_ready→ready Recording.ready h = refl
is_ready→ready Recording.in_progress h = ground (arith, h)
is_ready→ready Recording.missing h = ground (arith, h)

uri_of-ready :
    (c : Uploads) (room : Room.Object) (r : Recording.Object) (s : Recording.Status)
    (u : Option Uri)
    → is_ready s ≡ true
    → uri_of c room r s ≡ ok u
    → (uri : Uri) × (u ≡ some uri) × (uri.rtc_id ≡ r.rtc_id)
unfolding uri_of record_uri
uri_of-ready c room r Recording.ready u d h =
    let (config, e, f) = bind_ok (upload_config c room) _ u h in
    (record_uri config r room, sym (ok_eq f), refl)
uri_of-ready c room r Recording.in_progress u d h = ground (arith, d)
uri_of-ready c room r Recording.missing u d h = ground (arith, d)

entries-are_complete :
    (c : Uploads) (room : Room.Object) (rows : List Row) (entries : List RtcUploadEventData)
    → All Belongs rows
    → room_done rows ≡ true
    → event_entries c room (recs_with_rtcs rows) ≡ ok entries
    → (map (λ d. d.id) entries ≡ recorded rows) × All IsStored entries
unfolding room_done recs_with_rtcs event_entries uri_of
entries-are_complete c room [] entries b d h = ground (arith, h)
entries-are_complete c room ((o, none) ∷ rows) entries b d h =
    entries-are_complete c room rows entries b.1 d h
entries-are_complete c room ((o, some r) ∷ rows) entries b d h =
    let ready : is_ready r.status ≡ true = ground (arith, d) in
    let done : room_done rows ≡ true = ground (arith, d) in
    let run : event_entries c room ((r, o) ∷ recs_with_rtcs rows) ≡ ok entries =
      ground (arith, h, ready) in
    let (u, e, f) = bind_ok (uri_of c room r r.status) _ entries run in
    let (rest, g, k) = bind_ok (event_entries c room (recs_with_rtcs rows)) _ entries f in
    let stored = uri_of-ready c room r r.status u ready e in
    let others = entries-are_complete c room rows rest b.1 done g in
    subst (λ es. (map (λ x. x.id) es ≡ o.id ∷ recorded rows) × All IsStored es) (ok_eq k)
      (rw (b.0, others.0) refl, ((is_ready→ready r.status ready, stored), others.1))

-- An output that tells the truth about the tables: only `room.upload` says anything about them.
abbrev pub IsTrue : Tables → Output → Type 0
IsTrue t (room_upload audience e) = IsComplete t e
IsTrue t (stream_update room_id o) = Unit
IsTrue t (agent_speaking_event room_id n) = Unit
IsTrue t (respond reqp r) = Unit
IsTrue t (fire id r) = Unit
IsTrue t (stream_callback id addr r) = Unit

-- All outputs are true in the tables that they come with.
abbrev pub AllTrue : Tables × Result ErrorKind (List Output) → Type 0
AllTrue (t, ok outputs) = All (IsTrue t) outputs
AllTrue (t, err e) = Unit

upload_event-IsComplete :
    (c : Uploads) (room : Room.Object) (t : Tables) (event : Output)
    → let rows = list_with_recording room.id t.rtcs t.recordings in
      room_done rows ≡ true → upload_event c room (recs_with_rtcs rows) ≡ ok event → IsTrue t event
unfolding upload_event list_with_recording
upload_event-IsComplete c room t event d h =
    let rows = list_with_recording room.id t.rtcs t.recordings in
    let (entries, e, f) = bind_ok (event_entries c room (recs_with_rtcs rows)) _ event h in
    let belong = rows-Belong t.recordings (filter (λ o. o.room_id == room.id) t.rtcs) in
    subst (IsTrue t) (ok_eq f) (
      room_done-All rows d,
      (entries-are_complete c room rows entries belong d e).0,
      (entries-are_complete c room rows entries belong d e).1,
    )

pub announce-AllTrue :
    (context : Context) (room : Room.Object) (t : Tables) → AllTrue (t, announce context room t)
unfolding announce
announce-AllTrue context room t =
    let rows = list_with_recording room.id t.rtcs t.recordings in
    elim (Bool-cases (room_done rows)) [
      | inr d ↦ rw (d) tt
      | inl d ↦ elim (Result-cases (upload_event context.uploads room (recs_with_rtcs rows))) [
        | inr (e, h) ↦ rw (d, h) tt
        | inl (event, h) ↦ rw (d, h) (upload_event-IsComplete context.uploads room t event d h, tt)
      ]
    ]
