-- ===== src/Db/Room/Writes.antt =====
-- What a write of a row of `room` does to the rows that are found by their id.
use conferences.Base.{
  ℕ, List, ◌≡◌, refl, sym, ap, subst, ◌∙◌, ◌⊎◌, inl, inr, none, some, false, if◌then◌else◌, ◌==◌,
  ==_refl, ==→eq, Result, ok, err, Result-cases, Option-cases, Bool-cases, arith,
}
use conferences.Base.Table.{update_where}
use conferences.Base.Table.Laws.{find_passes, find-update_where, map_row}
use conferences.Db.Room.{
  Object, SqlError, row_not_found, find_query, has_id, write, checked, check_range, check_backend,
}

-- A row that passes the checks is the row that was checked.
pub checked_same : (o p : Object) → checked o ≡ ok p → p ≡ o
unfolding checked
checked_same o p h = elim (Result-cases (check_range o.time)) [
  | inr (e, r) ↦ ground (arith, h, r)
  | inl (u, r) ↦ elim (Result-cases (check_backend o)) [
    | inr (e, b) ↦ ground (arith, h, r, b)
    | inl (v, b) ↦ ground (arith, h, r, b)
  ]
]

checked_itself : (o p : Object) → checked o ≡ ok p → checked o ≡ ok o
checked_itself o p h = h ∙ ap ok (checked_same o p h)

ok_inj : {o p : Object} → Path (Result SqlError Object) (ok o) (ok p) → o ≡ p
ok_inj h = cc

-- What a write gives for a row that is not there, a row that fails the checks and one that passes.
pub write_missing :
    (id : ℕ) (f : Object → Object) (rows : List Object)
    → find_query id rows ≡ none
    → write id f rows ≡ (rows, err row_not_found)
unfolding write
write_missing id f rows h = rw (write, h) refl

pub write_refused :
    (id : ℕ) (f : Object → Object) (rows : List Object) (o : Object) (e : SqlError)
    → find_query id rows ≡ some o
    → checked (f o) ≡ err e
    → write id f rows ≡ (rows, err e)
unfolding write
write_refused id f rows o e h c = rw (write, h, c) refl

pub write_made :
    (id : ℕ) (f : Object → Object) (rows : List Object) (o p : Object)
    → find_query id rows ≡ some o
    → checked (f o) ≡ ok p
    → write id f rows ≡ (update_where (has_id id) f rows, ok (f o))
unfolding write
write_made id f rows o p h c = rw (write, h, c, checked_same (f o) p c) refl

find-written :
    (j id : ℕ) (f : Object → Object) (rows : List Object)
    → ((x : Object) → (f x).id ≡ x.id)
    → find_query j (update_where (has_id id) f rows)
      ≡ map_row (λ x. if has_id id x then f x else x) (find_query j rows)
unfolding find_query
find-written j id f rows keep =
    find-update_where (has_id j) (has_id id) f rows (λ x. ap (λ n. n == j) (keep x))

pub found_id : (j : ℕ) (rows : List Object) (o : Object) → find_query j rows ≡ some o → o.id ≡ j
unfolding find_query
found_id j rows o h = ==→eq o.id j (find_passes (has_id j) rows o h)

pub found_itself :
    (j : ℕ) (rows : List Object) (o : Object)
    → find_query j rows ≡ some o
    → find_query o.id rows ≡ some o
found_itself j rows o h = subst (λ n. find_query n rows ≡ some o) (sym (found_id j rows o h)) h

pub written_same :
    (id : ℕ) (f : Object → Object) (rows : List Object) (o : Object)
    → ((x : Object) → (f x).id ≡ x.id)
    → find_query id rows ≡ some o
    → find_query id (update_where (has_id id) f rows) ≡ some (f o)
written_same id f rows o keep h =
    rw (find-written id id f rows keep, h, found_id id rows o h, ==_refl id) refl

written_other :
    (j id : ℕ) (f : Object → Object) (rows : List Object) (o : Object)
    → ((x : Object) → (f x).id ≡ x.id)
    → (j == id) ≡ false
    → find_query j rows ≡ some o
    → find_query j (update_where (has_id id) f rows) ≡ some o
written_other j id f rows o keep n h =
    rw (find-written j id f rows keep, h, found_id j rows o h, n) refl

made :
    (j id : ℕ) (f : Object → Object) (rows : List Object) (o x p : Object)
    → ((y : Object) → (f y).id ≡ y.id)
    → j ≡ id
    → find_query j rows ≡ some o
    → find_query id rows ≡ some x
    → checked (f x) ≡ ok p
    → (j ≡ id)
      × (find_query j ((write id f rows).0) ≡ some (f o))
      × (write id f rows ≡ (update_where (has_id id) f rows, ok (f o)))
      × (checked (f o) ≡ ok (f o))
made j id f rows o x p keep e h s c =
    let same : x ≡ o = cc in
    let passes : checked (f o) ≡ ok (f o) =
      subst (λ y. checked (f y) ≡ ok (f y)) same (checked_itself (f x) p c) in
    let found : find_query id rows ≡ some o = subst (λ n. find_query n rows ≡ some o) e h in
    let writes = write_made id f rows o (f o) found passes in
    (e, rw (e, writes) (written_same id f rows o keep found), writes, passes)

-- A write that keeps the ids leaves a row as it is, or it writes that very row.
pub write-find :
    (j id : ℕ) (f : Object → Object) (rows : List Object) (o : Object)
    → ((x : Object) → (f x).id ≡ x.id)
    → find_query j rows ≡ some o
    → (find_query j ((write id f rows).0) ≡ some o)
      ⊎ ((j ≡ id)
          × (find_query j ((write id f rows).0) ≡ some (f o))
          × (write id f rows ≡ (update_where (has_id id) f rows, ok (f o)))
          × (checked (f o) ≡ ok (f o)))
write-find j id f rows o keep h = elim (Option-cases (find_query id rows)) [
  | inl n ↦ inl (rw (write_missing id f rows n) h)
  | inr (x, s) ↦ elim (Result-cases (checked (f x))) [
    | inr (e, c) ↦ inl (rw (write_refused id f rows x e s c) h)
    | inl (p, c) ↦ elim (Bool-cases (j == id)) [
      | inl t ↦ inr (made j id f rows o x p keep (==→eq j id t) h s c)
      | inr n ↦ inl (rw (write_made id f rows x p s c) (written_other j id f rows o keep n h))
    ]
  ]
]

-- A write answers a row exactly where it has written it.
pub write_ok :
    (id : ℕ) (f : Object → Object) (rows rows' : List Object) (p : Object)
    → ((x : Object) → (f x).id ≡ x.id)
    → write id f rows ≡ (rows', ok p)
    → (o : Object) × (find_query id rows ≡ some o)
      × (p ≡ f o)
      × (find_query id rows' ≡ some p)
      × (checked p ≡ ok p)
write_ok id f rows rows' p keep h = elim (Option-cases (find_query id rows)) [
  | inl n ↦ ground (arith, h, write_missing id f rows n)
  | inr (x, s) ↦ elim (Result-cases (checked (f x))) [
    | inr (e, c) ↦ ground (arith, h, write_refused id f rows x e s c)
    | inl (q, c) ↦
        let writes : (rows', ok p) ≡ (update_where (has_id id) f rows, ok (f x)) =
          sym h ∙ write_made id f rows x q s c in
        let row : p ≡ f x = ok_inj (ap (λ r. r.1) writes) in
        (
          x,
          s,
          row,
          rw (row, ap (λ r. r.0) writes) (written_same id f rows x keep s),
          rw (row) (checked_itself (f x) q c),
        )
  ]
]

-- A write that fails changes nothing.
pub write_err :
    (id : ℕ) (f : Object → Object) (rows rows' : List Object) (e : SqlError)
    → write id f rows ≡ (rows', err e)
    → rows' ≡ rows
write_err id f rows rows' e h = elim (Option-cases (find_query id rows)) [
  | inl n ↦ ground (arith, h, write_missing id f rows n)
  | inr (x, s) ↦ elim (Result-cases (checked (f x))) [
    | inr (d, c) ↦ ground (arith, h, write_refused id f rows x d s c)
    | inl (q, c) ↦ ground (arith, h, write_made id f rows x q s c)
  ]
]

-- The table after a write that has answered a row.
pub write_rows :
    (id : ℕ) (f : Object → Object) (rows rows' : List Object) (p : Object)
    → write id f rows ≡ (rows', ok p)
    → rows' ≡ update_where (has_id id) f rows
write_rows id f rows rows' p h = elim (Option-cases (find_query id rows)) [
  | inl n ↦ ground (arith, h, write_missing id f rows n)
  | inr (x, s) ↦ elim (Result-cases (checked (f x))) [
    | inr (d, c) ↦ ground (arith, h, write_refused id f rows x d s c)
    | inl (q, c) ↦ ap (λ r. r.0) (sym h ∙ write_made id f rows x q s c)
  ]
]
