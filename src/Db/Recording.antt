-- ===== src/Db/Recording.antt =====
-- src/db/recording.rs: the recording of an RTC and its status. Segments and URIs are numbers and lists
-- that are only passed on.
pub mod Ready
use conferences.Base.{
  ℕ, List, [], ◌∷◌, ◌++◌, Option, none, some, Bool, true, false, ◌&&◌, ◌||◌, if◌then◌else◌, ◌==◌,
  Result, ok, err,
}
use conferences.Base.Table.{find, update_where}

pub data Status : Type 0 where
  in_progress ready missing : Status

pub record Object : Type 0 where
  pub rtc_id : ℕ
  pub started_at : Option ℕ
  pub segments : Option (List ℕ)
  pub status : Status
  pub mjr_dumps_uris : Option (List ℕ)

pub data SqlError : Type 0 where
  row_not_found unique_violation not_null_violation : SqlError

abbrev pub has_rtc : ℕ → Object → Bool
has_rtc rtc_id o = o.rtc_id == rtc_id

-- `FindQuery::execute`.
unfoldable pub find_query : ℕ → List Object → Option Object
find_query rtc_id rows = find (has_rtc rtc_id) rows

-- `InsertQuery::execute`: the row with the columns' defaults.
unfoldable pub insert_query : ℕ → List Object → List Object × Result SqlError Object
insert_query rtc_id rows = elim (find (has_rtc rtc_id) rows) [
  | some other ↦ (rows, err unique_violation)
  | none ↦
      let o : Object = record {
        rtc_id = rtc_id;
        started_at = none;
        segments = none;
        status = in_progress;
        mjr_dumps_uris = none;
      } in
      (rows ++ o ∷ [], ok o)
]

-- `$1 <> 'missing' OR status = 'in_progress'`; the comparison with a null is not true.
unfoldable pub may_overwrite : Option Status → Status → Bool
may_overwrite (some in_progress) old = true
may_overwrite (some ready) old = true
may_overwrite _ in_progress = true
may_overwrite _ _ = false

abbrev pub matches : ℕ → Option Status → Object → Bool
matches rtc_id s o = o.rtc_id == rtc_id && may_overwrite s o.status

abbrev pub overwrite : Status → Option (List ℕ) → Object → Object
overwrite s uris o = record o { status = s; mjr_dumps_uris = uris }

-- `UpdateQuery::execute`.
unfoldable pub update_query :
    ℕ → Option Status → Option (List ℕ) → List Object → List Object × Result SqlError Object
unfolding may_overwrite
update_query rtc_id (some s) uris rows = elim (find (matches rtc_id (some s)) rows) [
  | none ↦ (rows, err row_not_found)
  | some o ↦
      (update_where (matches rtc_id (some s)) (overwrite s uris) rows, ok (overwrite s uris o))
]
update_query rtc_id none uris rows = elim (find (matches rtc_id none) rows) [
  | none ↦ (rows, err row_not_found)
  | some o ↦ (rows, err not_null_violation)
]
