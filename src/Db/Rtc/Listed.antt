-- ===== src/Db/Rtc/Listed.antt =====
-- What `ListQuery` finds stands in the table and passes its conditions.
use conferences.Base.{
  ℕ, ◌≡◌, inl, inr, List, [], ◌∷◌, Option, some, ==→eq, leb, Has, Bool-cases, arith,
}
use conferences.Base.Sorting.{Has-filter}
use conferences.Db.Rtc.{Object, new, list_query, insert_by_time, order_by_time}

Has-insert_by_time :
    (a b : Object) (xs : List Object) → Has a (insert_by_time b xs) → Has a (b ∷ xs)
unfolding insert_by_time
Has-insert_by_time a b [] h = h
Has-insert_by_time a b (x ∷ xs) h = elim (Bool-cases (leb b.created_at x.created_at)) [
  | inl t ↦ rw t at h
  | inr t ↦ elim (rw t at h) [
    | inl e ↦ inr (inl e)
    | inr k ↦ elim (Has-insert_by_time a b xs k) [ inl e ↦ inl e | inr m ↦ inr (inr m) ]
  ]
]

Has-order_by_time : (a : Object) (xs : List Object) → Has a (order_by_time xs) → Has a xs
unfolding order_by_time
Has-order_by_time a [] h = h
Has-order_by_time a (x ∷ xs) h = elim (Has-insert_by_time a x (order_by_time xs) h) [
  | inl e ↦ inl e
  | inr k ↦ inr (Has-order_by_time a xs k)
]

-- The RTCs of a room that are created by some agents.
pub Has-list_query :
    (room_id : ℕ) (agents : Option (List ℕ)) (a : Object) (rows : List Object)
    → Has a (list_query (record new { room_id = some room_id; created_by = agents }) rows)
    → Has a rows × (a.room_id ≡ room_id)
unfolding list_query new
Has-list_query room_id agents a rows h =
    let r = Has-filter _ a rows (Has-order_by_time a _ h) in
    (r.1, ==→eq a.room_id room_id (ground (arith, r.0)))
