-- ===== src/Db/RtcStream.antt =====
-- src/db/janus_rtc_stream.rs: the streams that agents send to Janus. Times are milliseconds.
pub mod Lifetime
use Prim.Native.String.{String}
use conferences.Base.{
  ℕ, ◌+◌, max, List, [], ◌∷◌, ◌++◌, Option, none, some, Bool, true, false, not, ◌&&◌, if◌then◌else◌,
  ◌==◌, leb, ltb, filter, map, any, Result, ok, err,
}
use conferences.Base.Sorting.{order_by}
use conferences.Base.Table.{find, update_where}
use conferences.Db.Rtc
use conferences.Db.Room.{Bound, included, excluded, unbounded, Time, bound_value, lower_bound}

pub record Object : Type 0 where
  pub id : ℕ
  pub handle_id : ℕ
  pub rtc_id : ℕ
  pub backend_id : ℕ
  pub label : String
  pub sent_by : ℕ
  pub time : Option Time
  pub created_at : ℕ

-- The streams that `ListQuery` calls active: a lower bound, and no upper one.
unfoldable pub is_active_time : Option Time → Bool
unfolding bound_value
is_active_time none = false
is_active_time (some t) = elim (bound_value t.start) [
  | none ↦ false
  | some s ↦ elim (bound_value t.end) [ none ↦ true | some e ↦ false ]
]

unfoldable pub is_active : Object → Bool
unfolding is_active_time
is_active o = is_active_time o.time

abbrev pub has_id : ℕ → Object → Bool
has_id id o = o.id == id

pub data InsertError : Type 0 where
  unique_violation : InsertError

-- `InsertQuery::execute`, on the row that it makes: one without a time.
unfoldable pub insert_query : Object → List Object → List Object × Result InsertError Object
insert_query o rows = elim (find (has_id o.id) rows) [
  | some other ↦ (rows, err unique_violation)
  | none ↦ let n = record o { time = none } in (rows ++ n ∷ [], ok n)
]

abbrev pub started : ℕ → Object → Object
started now o = record o { time = some (record { start = included now; end = unbounded }) }

-- `GREATEST(NOW(), LOWER("time") + '1 millisecond')`, which passes over a null.
unfoldable pub stop_time : ℕ → Bound → ℕ
unfolding bound_value
stop_time now start = elim (bound_value start) [ none ↦ now | some s ↦ max now (s + 1) ]

unfoldable pub stopped_time : ℕ → Option Time → Option Time
unfolding stop_time lower_bound
stopped_time now none = none
stopped_time now (some t) =
    some (record { start = lower_bound t.start; end = excluded (stop_time now t.start) })

unfoldable pub stopped : ℕ → Object → Object
unfolding stopped_time
stopped now o = record o { time = stopped_time now o.time }

abbrev pub changed : (Object → Object) → Option Object → Option Object
changed f none = none
changed f (some o) = some (f o)

-- `start`.
unfoldable pub start : ℕ → ℕ → List Object → List Object × Option Object
start id now rows =
    (update_where (has_id id) (started now) rows, changed (started now) (find (has_id id) rows))

-- `stop`.
unfoldable pub stop : ℕ → ℕ → List Object → List Object × Option Object
unfolding stopped
stop id now rows =
    (update_where (has_id id) (stopped now) rows, changed (stopped now) (find (has_id id) rows))

-- The streams that `stop_running_streams_by_backend` stops, on the join with `rtc`.
unfoldable pub is_running : ℕ → List Rtc.Object → Object → Bool
unfolding is_active
is_running backend_id rtcs o =
    is_active o && o.backend_id == backend_id && any (λ r. r.id == o.rtc_id) rtcs

abbrev pub with_room : List Rtc.Object → List Object → List (Object × Rtc.Object)
with_room rtcs [] = []
with_room rtcs (o ∷ os) =
    let rest = with_room rtcs os in
    elim (find (λ r. r.id == o.rtc_id) rtcs) [ none ↦ rest | some r ↦ (o, r) ∷ rest ]

-- `stop_running_streams_by_backend`: the streams that it stopped, each with its RTC.
unfoldable pub stop_running_streams_by_backend :
    ℕ → ℕ → List Rtc.Object → List Object → List Object × List (Object × Rtc.Object)
unfolding is_running stopped
stop_running_streams_by_backend backend_id now rtcs rows = (
  update_where (is_running backend_id rtcs) (stopped now) rows,
  with_room rtcs (map (stopped now) (filter (is_running backend_id rtcs) rows)),
)

-- The lower bound of a range is before the upper bound of a range: they share a moment.
unfoldable pub is_before : Bound → Bound → Bool
is_before unbounded e = true
is_before (included s) unbounded = true
is_before (excluded s) unbounded = true
is_before (included s) (included e) = leb s e
is_before (included s) (excluded e) = ltb s e
is_before (excluded s) (included e) = ltb s e
is_before (excluded s) (excluded e) = ltb s e

-- `&&` on ranges of times, which is false for an empty range.
unfoldable pub overlaps : Time → Time → Bool
unfolding is_before
overlaps a b =
    is_before a.start a.end
    && is_before b.start b.end
    && is_before a.start b.end
    && is_before b.start a.end

pub record ListQuery : Type 0 where
  pub room_id : Option ℕ
  pub rtc_id : Option ℕ
  pub time : Option Time
  pub active : Option Bool
  pub offset : Option ℕ
  pub limit : Option ℕ

unfoldable pub overlaps_or_null : Option Time → Option Time → Bool
unfolding overlaps
overlaps_or_null none t = true
overlaps_or_null (some q) none = false
overlaps_or_null (some q) (some t) = overlaps t q

abbrev pub active_or_null : Option Bool → Bool → Bool
active_or_null none b = true
active_or_null (some true) b = b
active_or_null (some false) b = not b

-- The inner join on `rtc`, and the test of its room.
abbrev pub in_room : Option ℕ → Option Rtc.Object → Bool
in_room room_id none = false
in_room none (some r) = true
in_room (some id) (some r) = r.room_id == id

-- The `WHERE` clause of `ListQuery::execute`.
unfoldable pub is_listed : List Rtc.Object → ListQuery → Object → Bool
unfolding overlaps_or_null is_active Rtc.find_query
is_listed rtcs q o =
    Rtc.null_or q.rtc_id (λ id. o.rtc_id == id)
    && overlaps_or_null q.time o.time
    && active_or_null q.active (is_active o)
    && in_room q.room_id (Rtc.find_query rtcs o.rtc_id)

-- `ListQuery::execute`: the latest first.
unfoldable pub list_query : List Rtc.Object → ListQuery → List Object → List Object
unfolding is_listed
list_query rtcs q rows = Rtc.limit_to q.limit (
    Rtc.offset_by q.offset
      (order_by (λ a b. leb b.created_at a.created_at) (filter (is_listed rtcs q) rows)))
