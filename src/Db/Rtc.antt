-- ===== src/Db/Rtc.antt =====
-- src/db/rtc.rs: the table `rtc`. The trigger `on_rtc_insert` on it stands in
-- migrations/20230616111239_initial.up.sql.
pub mod Listed
pub mod Policy
pub mod Recorded
use conferences.Base.{
  ℕ, zero, suc, List, [], ◌∷◌, ◌++◌, map, Option, none, some, Bool, true, false, ◌&&◌, ◌||◌,
  if◌then◌else◌, ◌==◌, leb, any, filter, length, take, Result, ok, err,
}
use conferences.Base.Table.{find}

pub data SharingPolicy : Type 0 where
  none_policy shared owned : SharingPolicy

abbrev pub is_owned : SharingPolicy → Bool
is_owned owned = true
is_owned _ = false

pub record Object : Type 0 where
  pub id : ℕ
  pub room_id : ℕ
  pub created_at : ℕ
  pub created_by : ℕ

-- `FindQuery::execute`.
unfoldable pub find_query : List Object → ℕ → Option Object
find_query rows id = find (λ o. o.id == id) rows

-- `ListQuery`.
pub record ListQuery : Type 0 where
  pub room_id : Option ℕ
  pub created_by : Option (List ℕ)
  pub offset : Option ℕ
  pub limit : Option ℕ

-- `ListQuery::new`.
unfoldable pub new : ListQuery
new = record { room_id = none; created_by = none; offset = none; limit = none }

-- `$1 IS NULL OR test`.
abbrev pub null_or : Option ℕ → (ℕ → Bool) → Bool
null_or none test = true
null_or (some x) test = test x

-- `created_by = ANY($2)`, and no condition for the empty array, whose length is null.
unfoldable pub any_or_empty : List ℕ → ℕ → Bool
any_or_empty [] a = true
any_or_empty (x ∷ xs) a = any (λ y. a == y) (x ∷ xs)

-- `ORDER BY created_at`; rows of one time stay in the order of the scan.
unfoldable pub insert_by_time : Object → List Object → List Object
insert_by_time o [] = o ∷ []
insert_by_time o (x ∷ xs) =
    let rest = insert_by_time o xs in if leb o.created_at x.created_at then o ∷ x ∷ xs else x ∷ rest

unfoldable pub order_by_time : List Object → List Object
unfolding insert_by_time
order_by_time [] = []
order_by_time (x ∷ xs) = insert_by_time x (order_by_time xs)

abbrev pub drop {ℓ} : {A : Type ℓ} → ℕ → List A → List A
drop zero xs = xs
drop (suc n) [] = []
drop (suc n) (x ∷ xs) = drop n xs

abbrev pub offset_by {ℓ} : {A : Type ℓ} → Option ℕ → List A → List A
offset_by none xs = xs
offset_by (some n) xs = drop n xs

abbrev pub limit_to {ℓ} : {A : Type ℓ} → Option ℕ → List A → List A
limit_to none xs = xs
limit_to (some n) xs = take n xs

abbrev pub created_by_of : Option (List ℕ) → List ℕ
created_by_of none = []
created_by_of (some as_) = as_

-- `ListQuery::execute`.
unfoldable pub list_query : ListQuery → List Object → List Object
unfolding any_or_empty order_by_time
list_query q rows = limit_to q.limit (
    offset_by q.offset (
      order_by_time (
        filter
          (λ o.
            null_or q.room_id (λ r. o.room_id == r)
            && any_or_empty (created_by_of q.created_by) o.created_by)
          rows)))

-- What the trigger raises, by the policy of the room; `no_room` when it has none.
pub data InsertError : Type 0 where
  not_allowed multiple_rtcs multiple_rtcs_per_agent no_room : InsertError

-- `on_rtc_insert`.
unfoldable pub on_rtc_insert :
    Option SharingPolicy → Object → List Object → Result InsertError Object
on_rtc_insert none o rows = err no_room
on_rtc_insert (some none_policy) o rows = err not_allowed
on_rtc_insert (some shared) o rows =
    if length (filter (λ r. r.room_id == o.room_id) rows) == 0 then ok o else err multiple_rtcs
on_rtc_insert (some owned) o rows =
    if length (filter (λ r. r.room_id == o.room_id && r.created_by == o.created_by) rows) == 0
    then ok o
    else err multiple_rtcs_per_agent

-- `InsertQuery::execute`, with the id and the time that the row gets and the policy of its room.
unfoldable pub insert_query :
    Option SharingPolicy → Object → List Object → List Object × Result InsertError Object
unfolding on_rtc_insert
insert_query policy o rows = elim (on_rtc_insert policy o rows) [
  | ok new_row ↦ (rows ++ new_row ∷ [], ok new_row)
  | err e ↦ (rows, err e)
]
