-- ===== src/Serde.antt =====
-- src/serde.rs: the range of times of a room as two numbers of seconds, in `ts_seconds_bound_tuple`; the
-- variants for options and for the types of the database call it.
pub mod Ranges
use conferences.Base.{
  ℕ, zero, suc, ◌+◌, List, [], ◌∷◌, Option, none, some, Result, ok, err, ◌>>=◌, get_or,
}

-- `i64`, without its bounds: `negsuc n` is -(n + 1).
pub data ℤ : Type 0 where
  pos negsuc : ℕ → ℤ

unfoldable pub succ : ℤ → ℤ
succ (pos n) = pos (suc n)
succ (negsuc zero) = pos 0
succ (negsuc (suc n)) = negsuc n

unfoldable pub pred : ℤ → ℤ
pred (pos zero) = negsuc 0
pred (pos (suc n)) = pos n
pred (negsuc n) = negsuc (suc n)

-- `DateTime<Utc>`: whole seconds since 1970, and the rest of a second.
pub record DateTime : Type 0 where
  pub timestamp : ℤ
  pub nanos : ℕ

-- `std::ops::Bound`.
pub data Bound : Type 0 where
  included excluded : DateTime → Bound
  unbounded : Bound

pub record Time : Type 0 where
  pub lt : Bound
  pub rt : Bound

-- The elements that `serialize` writes; `none` is null.
unfoldable pub lower_element : Bound → Option ℤ
lower_element (included d) = some d.timestamp
lower_element (excluded d) = some (succ d.timestamp)
lower_element unbounded = none

unfoldable pub upper_element : Bound → Option ℤ
upper_element (included d) = some (pred d.timestamp)
upper_element (excluded d) = some d.timestamp
upper_element unbounded = none

-- `ts_seconds_bound_tuple::serialize`.
unfoldable pub serialize : Time → List (Option ℤ)
unfolding lower_element upper_element
serialize t = lower_element t.lt ∷ upper_element t.rt ∷ []

-- `de::Error::invalid_length`.
pub data DeError : Type 0 where
  invalid_length : ℕ → DeError

-- 1970-01-01 00:00:00, the default of `NaiveDateTime`.
abbrev pub epoch : DateTime
epoch = record { timestamp = pos 0; nanos = 0 }

-- The moment of a number of seconds, by chrono's `from_timestamp_opt`.
abbrev pub moment : (ℤ → Option DateTime) → ℤ → DateTime
moment from_timestamp_opt v = get_or epoch (from_timestamp_opt v)

unfoldable pub lower_bound : (ℤ → Option DateTime) → Option ℤ → Bound
lower_bound from_timestamp_opt none = unbounded
lower_bound from_timestamp_opt (some v) = included (moment from_timestamp_opt v)

unfoldable pub upper_bound : (ℤ → Option DateTime) → Option ℤ → Bound
upper_bound from_timestamp_opt none = unbounded
upper_bound from_timestamp_opt (some v) = excluded (moment from_timestamp_opt v)

-- `TupleSecondsTimestampVisitor::visit_seq`, on the elements of the sequence.
unfoldable pub visit_seq : (ℤ → Option DateTime) → List (Option ℤ) → Result DeError Time
unfolding lower_bound upper_bound
visit_seq from_timestamp_opt [] = err (invalid_length 1)
visit_seq from_timestamp_opt (l ∷ []) = err (invalid_length 2)
visit_seq from_timestamp_opt (l ∷ r ∷ rest) =
    ok (record { lt = lower_bound from_timestamp_opt l; rt = upper_bound from_timestamp_opt r })

-- `ts_seconds_option_bound_tuple_pg::serialize`, and `deserialize` of `ts_seconds_option_bound_tuple`: a null,
-- or a tuple.
unfoldable pub serialize_option : Option Time → Option (List (Option ℤ))
unfolding serialize
serialize_option none = none
serialize_option (some t) = some (serialize t)

unfoldable pub deserialize_option :
    (ℤ → Option DateTime) → Option (List (Option ℤ)) → Result DeError (Option Time)
unfolding visit_seq
deserialize_option from_timestamp_opt none = ok none
deserialize_option from_timestamp_opt (some seq) = do
  interval ← visit_seq from_timestamp_opt seq
  ok (some interval)
