-- ===== src/Janus/Removal/Cleared.antt =====
-- After a removal nobody is connected to the backend and nothing runs on it.
use conferences.Base.{Option, none, some, Bool, false, ◌&&◌, ◌==◌}
use conferences.Db.JanusBackend.{Object, is_deleted}
use conferences.Db.Rtc
use conferences.Db.RtcStream.{with_room}
use conferences.Db.RtcStream

-- Whether the backend is still registered with the session and the handle that are removed.
abbrev pub is_registered : Object → Option Object → Bool
is_registered b none = false
is_registered b (some o) = o.session_id == b.session_id && o.handle_id == b.handle_id

abbrev deleted : Object → Object → Bool
deleted b = is_deleted b.id b.session_id b.handle_id
