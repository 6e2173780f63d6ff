-- ===== src/Serde/Ranges.antt =====
-- What is read back of a range that was written.
use conferences.Base.{◌≡◌, refl, inl, inr, Has, Option, some, ok}
use conferences.Serde.{
  ℤ, succ, pred, DateTime, Bound, included, excluded, unbounded, Time, lower_element, upper_element,
  serialize, lower_bound, upper_bound, serialize_option, deserialize_option,
}

-- The moment at the start of a second.
abbrev pub second : ℤ → DateTime
second v = record { timestamp = v; nanos = 0 }

-- What becomes of the two bounds.
abbrev pub read_lower : Bound → Bound
read_lower (included d) = included (second d.timestamp)
read_lower (excluded d) = included (second (succ d.timestamp))
read_lower unbounded = unbounded

abbrev pub read_upper : Bound → Bound
read_upper (included d) = excluded (second (pred d.timestamp))
read_upper (excluded d) = excluded (second d.timestamp)
read_upper unbounded = unbounded

module _ (from_timestamp_opt : ℤ → Option DateTime) where
  lower_bound-lower_element :
      (b : Bound)
      → ((v : ℤ) → lower_element b ≡ some v → from_timestamp_opt v ≡ some (second v))
      → lower_bound from_timestamp_opt (lower_element b) ≡ read_lower b
  unfolding lower_bound lower_element
  lower_bound-lower_element (included d) reads = rw (reads d.timestamp refl) refl
  lower_bound-lower_element (excluded d) reads = rw (reads (succ d.timestamp) refl) refl
  lower_bound-lower_element unbounded reads = refl

  upper_bound-upper_element :
      (b : Bound)
      → ((v : ℤ) → upper_element b ≡ some v → from_timestamp_opt v ≡ some (second v))
      → upper_bound from_timestamp_opt (upper_element b) ≡ read_upper b
  unfolding upper_bound upper_element
  upper_bound-upper_element (included d) reads = rw (reads (pred d.timestamp) refl) refl
  upper_bound-upper_element (excluded d) reads = rw (reads d.timestamp refl) refl
  upper_bound-upper_element unbounded reads = refl

  -- A range whose seconds chrono can represent is read back by whole seconds. An excluded start is moved to
  -- the next second; an included end becomes an excluded one, a second before its own.
  pub deserialize_option-serialize_option :
      (t : Time)
      → ((v : ℤ) → Has (some v) (serialize t) → from_timestamp_opt v ≡ some (second v))
      → deserialize_option from_timestamp_opt (serialize_option (some t))
        ≡ ok (some (record { lt = read_lower t.lt; rt = read_upper t.rt }))
  unfolding deserialize_option serialize_option serialize
  deserialize_option-serialize_option t reads =
      rw
        (
          lower_bound-lower_element t.lt (λ v e. reads v (inl e)),
          upper_bound-upper_element t.rt (λ v e. reads v (inr (inl e))),
        )
        refl
