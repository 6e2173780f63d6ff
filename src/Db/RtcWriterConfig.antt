-- ===== src/Db/RtcWriterConfig.antt =====
-- src/db/rtc_writer_config.rs and src/db/rtc_writer_config_snapshot.rs: what the creator of an RTC
-- sends, and the log of its changes. The primary key of a config is its RTC. The trigger `set_timestamp`
-- of migrations/20230616111239_initial.up.sql stamps an update, as the default does an insert.
pub mod Written
use conferences.Base.{
  ℕ, List, [], ◌∷◌, ◌++◌, Option, none, some, Bool, true, false, if◌then◌else◌, ◌==◌, leb, any,
  get_or, Result, ok, err,
}
use conferences.Base.Table.{find, upsert}
use conferences.Db.Rtc

pub record Object : Type 0 where
  pub rtc_id : ℕ
  pub send_video : Bool
  pub send_audio : Bool
  pub video_remb : Option ℕ
  pub send_audio_updated_by : Option ℕ
  pub updated_at : ℕ

abbrev pub has_rtc : ℕ → Object → Bool
has_rtc rtc_id o = o.rtc_id == rtc_id

-- The inner join of `ListWithRtcQuery::execute`.
unfoldable pub list_with_rtc_query : ℕ → List Rtc.Object → List Object → List (Object × Rtc.Object)
unfolding Rtc.find_query
list_with_rtc_query room_id rtcs [] = []
list_with_rtc_query room_id rtcs (o ∷ os) =
    let rest = list_with_rtc_query room_id rtcs os in
    elim (Rtc.find_query rtcs o.rtc_id) [
      | none ↦ rest
      | some rtc ↦ if rtc.room_id == room_id then (o, rtc) ∷ rest else rest
    ]

-- `read_config`.
unfoldable pub read_config : ℕ → List Object → Option Object
read_config rtc_id = find (has_rtc rtc_id)

pub record UpsertQuery : Type 0 where
  pub rtc_id : ℕ
  pub send_video : Option Bool
  pub send_audio : Option Bool
  pub video_remb : Option ℕ
  pub send_audio_updated_by : Option ℕ

-- `UpsertQuery::new`.
unfoldable pub new : ℕ → UpsertQuery
new rtc_id = record {
  rtc_id = rtc_id;
  send_video = none;
  send_audio = none;
  video_remb = none;
  send_audio_updated_by = none;
}

-- The row of the `INSERT`.
unfoldable pub inserted : UpsertQuery → ℕ → Object
inserted q now = record {
  rtc_id = q.rtc_id;
  send_video = get_or true q.send_video;
  send_audio = get_or true q.send_audio;
  video_remb = q.video_remb;
  send_audio_updated_by = q.send_audio_updated_by;
  updated_at = now;
}

-- The `SET` of the conflict, with the trigger.
unfoldable pub updated : UpsertQuery → ℕ → Object → Object
updated q now o = record o {
  video_remb = q.video_remb;
  send_audio_updated_by = q.send_audio_updated_by;
  send_video = get_or o.send_video q.send_video;
  send_audio = get_or o.send_audio q.send_audio;
  updated_at = now;
}

-- `rtc_writer_config_video_remb_check`, and the references to `rtc`.
pub data UpsertError : Type 0 where
  check_violation foreign_key_violation : UpsertError

unfoldable pub is_zero : Option ℕ → Bool
is_zero none = false
is_zero (some n) = n == 0

-- `UpsertQuery::execute`, at the time of the database.
unfoldable pub upsert_query :
    UpsertQuery → ℕ → List Rtc.Object → List Object → Result UpsertError (List Object)
unfolding inserted updated is_zero
upsert_query q now rtcs rows =
    if is_zero q.video_remb
    then err check_violation
    else if any (λ r. r.id == q.rtc_id) rtcs
    then ok (upsert (has_rtc q.rtc_id) (updated q now) (inserted q now) rows)
    else err foreign_key_violation

-- A row of the log.
pub record Snapshot : Type 0 where
  pub id : ℕ
  pub rtc_id : ℕ
  pub send_video : Option Bool
  pub send_audio : Option Bool
  pub created_at : ℕ

-- `InsertQuery::execute` of the snapshots, with the id and the time that the row gets.
unfoldable pub insert_snapshot :
    ℕ → ℕ → ℕ → Option Bool → Option Bool → List Snapshot → List Snapshot
insert_snapshot id now rtc_id send_video send_audio rows =
    rows
    ++ record {
      id = id;
      rtc_id = rtc_id;
      send_video = send_video;
      send_audio = send_audio;
      created_at = now;
    }
      ∷ []

unfoldable pub insert_by_time : Snapshot → List Snapshot → List Snapshot
insert_by_time o [] = o ∷ []
insert_by_time o (x ∷ xs) =
    let rest = insert_by_time o xs in if leb o.created_at x.created_at then o ∷ x ∷ xs else x ∷ rest

-- `ListWithRtcQuery::execute` of the snapshots, with the inner join on `rtc`, `ORDER BY created_at`.
unfoldable pub list_snapshots : ℕ → List Rtc.Object → List Snapshot → List Snapshot
unfolding insert_by_time Rtc.find_query
list_snapshots room_id rtcs [] = []
list_snapshots room_id rtcs (s ∷ ss) =
    let rest = list_snapshots room_id rtcs ss in
    elim (Rtc.find_query rtcs s.rtc_id) [
      | none ↦ rest
      | some rtc ↦ if rtc.room_id == room_id then insert_by_time s rest else rest
    ]
