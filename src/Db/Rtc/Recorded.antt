-- ===== src/Db/Rtc/Recorded.antt =====
-- src/db/rtc.rs: `ListWithRecordingQuery`. An RTC has at most one recording, as `rtc_id` is its key.
use conferences.Base.{ℕ, List, Option, ◌==◌, filter, map}
use conferences.Db.Recording
use conferences.Db.Rtc.{Object}

-- `LEFT JOIN recording`, on one RTC.
unfoldable pub split : List Recording.Object → Object → Object × Option Recording.Object
unfolding Recording.find_query
split recordings o = (o, Recording.find_query o.id recordings)

-- `ListWithRecordingQuery::execute`.
unfoldable pub list_with_recording :
    ℕ → List Object → List Recording.Object → List (Object × Option Recording.Object)
unfolding split
list_with_recording room_id rtcs recordings =
    map (split recordings) (filter (λ o. o.room_id == room_id) rtcs)
