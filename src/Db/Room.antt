-- ===== src/Db/Room.antt =====
-- src/db/room.rs: the table `room`, with the constraints of migrations/20230616111239_initial.up.sql.
-- A time range that PostgreSQL cannot make fails the statement; an empty one violates
-- `room_time_presence`. JSON tags are numbers that are only compared.
pub mod Writes
use Prim.Native.String.{String}
use conferences.Base.{
  ℕ, List, [], ◌∷◌, ◌++◌, Option, none, some, Bool, true, false, not, ◌&&◌, ◌||◌, if◌then◌else◌,
  ◌==◌, ltb, leb, get_or, Result, ok, err, ◌>>=◌,
}
use conferences.Base.Table.{find, update_where}
use conferences.Db.Rtc.{SharingPolicy, none_policy, shared, owned}
use conferences.Db.Rtc

-- `std::ops::Bound`.
pub data Bound : Type 0 where
  included excluded : ℕ → Bound
  unbounded : Bound

pub record Time : Type 0 where
  pub start : Bound
  pub end : Bound

pub data RoomBackend : Type 0 where
  none_backend janus : RoomBackend

-- `From<RtcSharingPolicy> for RoomBackend`, and back.
unfoldable pub to_backend : SharingPolicy → RoomBackend
to_backend shared = janus
to_backend _ = none_backend

unfoldable pub to_policy : RoomBackend → SharingPolicy
to_policy none_backend = none_policy
to_policy janus = shared

pub record Object : Type 0 where
  pub id : ℕ
  pub time : Time
  pub audience : String
  pub created_at : ℕ
  pub backend : RoomBackend
  pub reserve : Option ℕ
  pub tags : ℕ
  pub backend_id : Option ℕ
  pub rtc_sharing_policy : SharingPolicy
  pub classroom_id : ℕ
  pub host : Option ℕ
  pub timed_out : Bool
  pub closed_by : Option ℕ
  pub infinite : Bool

-- `Object::is_closed`, at the time that the clock shows.
unfoldable pub is_closed_at : ℕ → Bound → Bool
is_closed_at now (included t) = ltb t now
is_closed_at now (excluded t) = leb t now
is_closed_at now unbounded = false

unfoldable pub is_closed : ℕ → Object → Bool
unfolding is_closed_at
is_closed now o = is_closed_at now o.time.end

-- What a statement fails with.
pub data SqlError : Type 0 where
  row_not_found data_exception check_violation : SqlError

-- The value of a bound, as `lower` and `upper` of PostgreSQL read it.
unfoldable pub bound_value : Bound → Option ℕ
bound_value (included t) = some t
bound_value (excluded t) = some t
bound_value unbounded = none

unfoldable pub both_included : Bound → Bound → Bool
both_included (included s) (included t) = true
both_included _ _ = false

-- The range is made, and is not empty.
unfoldable pub check_range : Time → Result SqlError (Unit {0})
unfolding bound_value both_included
check_range t = elim (bound_value t.start) [
  | none ↦ ok tt
  | some lower ↦ elim (bound_value t.end) [
    | none ↦ ok tt
    | some upper ↦
        if ltb upper lower
        then err data_exception
        else if lower == upper && not (both_included t.start t.end)
        then err check_violation
        else ok tt
  ]
]

-- `room_backend_id_check`.
unfoldable pub check_backend : Object → Result SqlError (Unit {0})
check_backend o = elim o.backend_id [
  | none ↦ ok tt
  | some b ↦ elim o.rtc_sharing_policy [ none_policy ↦ err check_violation | _ ↦ ok tt ]
]

-- A row that is to be written, if its constraints hold.
unfoldable pub checked : Object → Result SqlError Object
unfolding check_range check_backend
checked o = do _ ← check_range o.time; _ ← check_backend o; ok o

abbrev pub has_id : ℕ → Object → Bool
has_id id o = o.id == id

-- `FindQuery::execute`.
unfoldable pub find_query : ℕ → List Object → Option Object
find_query id rows = find (has_id id) rows

-- `FindByRtcIdQuery::execute`.
unfoldable pub find_by_rtc_id_query : ℕ → List Rtc.Object → List Object → Option Object
find_by_rtc_id_query rtc_id rtcs rows = elim (Rtc.find_query rtcs rtc_id) [
  | none ↦ none
  | some rtc ↦ find (has_id rtc.room_id) rows
]

-- `InsertQuery`, and the row that it makes under an id and a time of creation.
pub record InsertQuery : Type 0 where
  pub time : Time
  pub audience : String
  pub reserve : Option ℕ
  pub tags : Option ℕ
  pub backend_id : Option ℕ
  pub rtc_sharing_policy : SharingPolicy
  pub classroom_id : ℕ
  pub infinite : Bool

-- The JSON `{}`.
abbrev pub no_tags : ℕ
no_tags = 0

unfoldable pub inserted : InsertQuery → ℕ → ℕ → Object
unfolding to_backend
inserted q id now = record {
  id = id;
  time = q.time;
  audience = q.audience;
  created_at = now;
  backend = to_backend q.rtc_sharing_policy;
  reserve = q.reserve;
  tags = get_or no_tags q.tags;
  backend_id = q.backend_id;
  rtc_sharing_policy = q.rtc_sharing_policy;
  classroom_id = q.classroom_id;
  host = none;
  timed_out = false;
  closed_by = none;
  infinite = q.infinite;
}

unfoldable pub insert_query :
    InsertQuery → ℕ → ℕ → List Object → List Object × Result SqlError Object
unfolding inserted checked
insert_query q id now rows = elim (checked (inserted q id now)) [
  | ok o ↦ (rows ++ o ∷ [], ok o)
  | err e ↦ (rows, err e)
]

-- `UpdateQuery`, with `reserve` as the code flattens it.
pub record UpdateQuery : Type 0 where
  pub time : Option Time
  pub reserve : Option (Option ℕ)
  pub tags : Option ℕ
  pub backend_id : Option ℕ
  pub classroom_id : Option ℕ
  pub host : Option ℕ
  pub timed_out : Option Bool

-- `UpdateQuery::new`.
unfoldable pub new_update : UpdateQuery
new_update = record {
  time = none;
  reserve = none;
  tags = none;
  backend_id = none;
  classroom_id = none;
  host = none;
  timed_out = none;
}

abbrev pub flatten : Option (Option ℕ) → Option ℕ
flatten none = none
flatten (some o) = o

-- `COALESCE($1, column)` on a column that may be null.
abbrev pub coalesce : Option ℕ → Option ℕ → Option ℕ
coalesce none old = old
coalesce (some x) old = some x

unfoldable pub updated : UpdateQuery → Object → Object
updated q o = record o {
  backend_id = coalesce q.backend_id o.backend_id;
  time = get_or o.time q.time;
  reserve = coalesce (flatten q.reserve) o.reserve;
  tags = get_or o.tags q.tags;
  classroom_id = get_or o.classroom_id q.classroom_id;
  host = coalesce q.host o.host;
  timed_out = get_or o.timed_out q.timed_out;
}

-- The write of one row by its id, after the checks.
unfoldable pub write : ℕ → (Object → Object) → List Object → List Object × Result SqlError Object
unfolding checked find_query
write id f rows = elim (find_query id rows) [
  | none ↦ (rows, err row_not_found)
  | some o ↦ elim (checked (f o)) [
    | err e ↦ (rows, err e)
    | ok new_row ↦ (update_where (has_id id) f rows, ok new_row)
  ]
]

-- `UpdateQuery::execute`.
unfoldable pub update_query : UpdateQuery → ℕ → List Object → List Object × Result SqlError Object
unfolding updated write
update_query q id rows = write id (updated q) rows

-- The bound of a range that PostgreSQL's `tstzrange(lower, …)` starts with.
unfoldable pub lower_bound : Bound → Bound
lower_bound (included t) = included t
lower_bound (excluded t) = included t
lower_bound unbounded = unbounded

unfoldable pub closed : ℕ → ℕ → Object → Object
unfolding lower_bound
closed agent now o = record o {
  closed_by = some agent;
  time = record { start = lower_bound o.time.start; end = excluded now };
}

-- `set_closed_by`, at the time of the database.
unfoldable pub set_closed_by : ℕ → ℕ → ℕ → List Object → List Object × Result SqlError Object
unfolding closed write
set_closed_by id agent now rows = write id (closed agent now) rows
