-- ===== src/Db/RtcReaderConfig.antt =====
-- src/db/rtc_reader_config.rs: what each agent receives of each RTC. The primary key is the pair of
-- RTC and reader.
use conferences.Base.{
  ℕ, List, [], ◌∷◌, Option, none, some, Bool, true, ◌&&◌, if◌then◌else◌, ◌==◌, any, filter, get_or,
}
use conferences.Base.Table.{upsert}
use conferences.Db.Rtc

pub record Object : Type 0 where
  pub rtc_id : ℕ
  pub reader_id : ℕ
  pub receive_video : Bool
  pub receive_audio : Bool

unfoldable pub has_key : ℕ → ℕ → Object → Bool
has_key rtc_id reader_id o = o.rtc_id == rtc_id && o.reader_id == reader_id

-- The inner join of `ListWithRtcQuery::execute`, with the rows of `rtc` that a config refers to.
unfoldable pub list_with_rtc_query :
    ℕ → List ℕ → List Rtc.Object → List Object → List (Object × Rtc.Object)
list_with_rtc_query room_id reader_ids rtcs [] = []
list_with_rtc_query room_id reader_ids rtcs (o ∷ os) =
    let rest = list_with_rtc_query room_id reader_ids rtcs os in
    elim (Rtc.find_query rtcs o.rtc_id) [
      | none ↦ rest
      | some rtc ↦
          if rtc.room_id == room_id && any (λ r. o.reader_id == r) reader_ids
          then (o, rtc) ∷ rest
          else rest
    ]

-- `read_config`.
unfoldable pub read_config : ℕ → List Object → List Object
read_config rtc_id = filter (λ o. o.rtc_id == rtc_id)

-- `UpsertQuery::execute`: what is not given is true in a new row, and kept in an old one.
unfoldable pub upsert_query : ℕ → ℕ → Option Bool → Option Bool → List Object → List Object
unfolding has_key
upsert_query rtc_id reader_id receive_video receive_audio =
    upsert (has_key rtc_id reader_id)
      (λ o. record o {
        receive_video = get_or o.receive_video receive_video;
        receive_audio = get_or o.receive_audio receive_audio;
      })
      (record {
        rtc_id = rtc_id;
        reader_id = reader_id;
        receive_video = get_or true receive_video;
        receive_audio = get_or true receive_audio;
      })

-- `batch_insert`, over the rows that the four arrays make. They have different keys: PostgreSQL refuses a
-- statement that meets one row twice.
unfoldable pub batch_insert : List Object → List Object → List Object
unfolding has_key
batch_insert [] rows = rows
batch_insert (n ∷ ns) rows = batch_insert ns (
    upsert (has_key n.rtc_id n.reader_id)
      (λ o. record o { receive_video = n.receive_video; receive_audio = n.receive_audio }) n rows)
