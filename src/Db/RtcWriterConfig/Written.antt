-- ===== src/Db/RtcWriterConfig/Written.antt =====
-- What a config reads as after it is written.
use conferences.Base.{
  ℕ, ◌≡◌, ◌≢◌, refl, inl, inr, List, some, none, Option, Bool, true, get_or, ◌==◌, ==_refl, any, ok,
  Bool-cases, arith,
}
use conferences.Base.Table.{upsert}
use conferences.Base.Table.Laws.{row_or, find-upsert, find-upsert_other}
use conferences.Db.Rtc
use conferences.Db.RtcWriterConfig.{
  Object, UpsertQuery, has_rtc, read_config, inserted, updated, is_zero, upsert_query,
}

-- A query that succeeds has written the table.
pub upsert_query_ok :
    (q : UpsertQuery) (now : ℕ) (rtcs : List Rtc.Object) (rows rows' : List Object)
    → upsert_query q now rtcs rows ≡ ok rows'
    → rows' ≡ upsert (has_rtc q.rtc_id) (updated q now) (inserted q now) rows
unfolding upsert_query
upsert_query_ok q now rtcs rows rows' h = elim (Bool-cases (is_zero q.video_remb)) [
  | inl z ↦ ground (arith, h, z)
  | inr z ↦ elim (Bool-cases (any (λ r. r.id == q.rtc_id) rtcs)) [
    | inl t ↦ ground (arith, h, z, t)
    | inr f ↦ ground (arith, h, z, f)
  ]
]

-- Video and audio of an old row, and of a new one.
abbrev old_video : Option Object → Bool
old_video none = true
old_video (some o) = o.send_video

abbrev old_audio : Option Object → Bool
old_audio none = true
old_audio (some o) = o.send_audio

fields :
    (q : UpsertQuery) (now : ℕ) (old : Option Object)
    → let o = row_or (inserted q now) (updated q now) old in
      (o.send_video ≡ get_or (old_video old) q.send_video)
      × (o.send_audio ≡ get_or (old_audio old) q.send_audio)
      × (o.video_remb ≡ q.video_remb)
      × (o.send_audio_updated_by ≡ q.send_audio_updated_by)
      × (o.updated_at ≡ now)
unfolding inserted updated
fields q now none = (refl, refl, refl, refl, refl)
fields q now (some o) = (refl, refl, refl, refl, refl)

-- A config that is written is read back: what is set is set. What is not set of video and audio is kept
-- of an old row and true in a new one; the bitrate and the agent who set the audio are not kept.
pub read_config-upsert_query :
    (q : UpsertQuery) (now : ℕ) (rtcs : List Rtc.Object) (rows rows' : List Object)
    → upsert_query q now rtcs rows ≡ ok rows'
    → (o : Object) × (read_config q.rtc_id rows' ≡ some o)
      × (o.send_video ≡ get_or (old_video (read_config q.rtc_id rows)) q.send_video)
      × (o.send_audio ≡ get_or (old_audio (read_config q.rtc_id rows)) q.send_audio)
      × (o.video_remb ≡ q.video_remb)
      × (o.send_audio_updated_by ≡ q.send_audio_updated_by)
      × (o.updated_at ≡ now)
unfolding read_config inserted updated
read_config-upsert_query q now rtcs rows rows' h =
    let f = fields q now (read_config q.rtc_id rows) in
    (
      row_or (inserted q now) (updated q now) (read_config q.rtc_id rows),
      rw (upsert_query_ok q now rtcs rows rows' h) (
          find-upsert (has_rtc q.rtc_id) (updated q now) (inserted q now) rows (==_refl q.rtc_id)
            (λ x. refl)),
      f.0,
      f.1,
      f.2,
      f.3,
      f.4,
    )

-- The configs of other RTCs stay.
pub upsert_query_other :
    (q : UpsertQuery) (now id : ℕ) (rtcs : List Rtc.Object) (rows rows' : List Object)
    → id ≢ q.rtc_id
    → upsert_query q now rtcs rows ≡ ok rows'
    → read_config id rows' ≡ read_config id rows
unfolding read_config inserted updated
upsert_query_other q now id rtcs rows rows' n h = rw (upsert_query_ok q now rtcs rows rows' h) (
    find-upsert_other (has_rtc id) (has_rtc q.rtc_id) (updated q now) (inserted q now) rows
      (ground arith) (λ x t. (ground arith, ground arith)))
