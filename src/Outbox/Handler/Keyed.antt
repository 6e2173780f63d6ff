-- ===== src/Outbox/Handler/Keyed.antt =====
-- Rows of different events, and how much work is left in them.
use conferences.Base.{
  ℕ, zero, suc, ◌+◌, ◌≤◌, ◌≡◌, refl, ap, inl, inr, List, [], ◌∷◌, ◌++◌, none, some, Bool, true,
  false, not, All, take, filter, Bool-cases, arith,
}
use conferences.Base.Table.{find, delete_where}
use conferences.Outbox.{Object, event_id, has_event}
use conferences.Outbox.Pipeline.Record.{has_event-event_id, has_event→eq}

pub All-filter :
    {A : Type 0} (P : A → Type 0) (p : A → Bool) (xs : List A) → All P xs → All P (filter p xs)
All-filter P p [] h = tt
All-filter P p (x ∷ xs) h = elim (Bool-cases (p x)) [
  | inl t ↦ rw (t) (h.0, All-filter P p xs h.1)
  | inr t ↦ rw (t) (All-filter P p xs h.1)
]

pub All-take : {A : Type 0} (P : A → Type 0) (n : ℕ) (xs : List A) → All P xs → All P (take n xs)
All-take P zero xs h = tt
All-take P (suc n) [] h = tt
All-take P (suc n) (x ∷ xs) h = (h.0, All-take P n xs h.1)

module _ {J : Type 0} where
  -- No two rows are of one event.
  abbrev pub IsKeyed : List (Object J) → Type 0
  IsKeyed [] = Unit
  IsKeyed (o ∷ os) = All (λ x. has_event (event_id o) x ≡ false) os × IsKeyed os

  -- The row is the one of its event.
  abbrev pub Holds : List (Object J) → Object J → Type 0
  Holds s o = find (has_event (event_id o)) s ≡ some o

  has_event_sym :
      (a b : Object J) → has_event (event_id a) b ≡ false → has_event (event_id b) a ≡ false
  has_event_sym a b h = elim (Bool-cases (has_event (event_id b) a)) [
    | inr f ↦ f
    | inl t ↦
        let e : event_id a ≡ event_id b = has_event→eq (event_id b) a t in
        let q : has_event (event_id a) b ≡ true = rw (e) (has_event-event_id b) in
        ground (arith, h, q)
  ]

  find-other :
      (p : Object J → Bool) (o x : Object J) (s : List (Object J))
      → p o ≡ false
      → find p s ≡ some x
      → find p (o ∷ s) ≡ some x
  unfolding find
  find-other p o x s n h = rw (n) h

  Holds-later :
      (o : Object J) (s xs : List (Object J))
      → All (λ x. has_event (event_id o) x ≡ false) xs
      → All (Holds s) xs
      → All (Holds (o ∷ s)) xs
  Holds-later o s [] n h = tt
  Holds-later o s (x ∷ xs) n h = (
    find-other (has_event (event_id x)) o x s (has_event_sym o x n.0) h.0,
    Holds-later o s xs n.1 h.1,
  )

  pub IsKeyed-Holds : (s : List (Object J)) → IsKeyed s → All (Holds s) s
  unfolding find
  IsKeyed-Holds [] h = tt
  IsKeyed-Holds (o ∷ os) h =
      (rw (has_event-event_id o) refl, Holds-later o os os h.0 (IsKeyed-Holds os h.1))

  pub filter-IsKeyed :
      (p : Object J → Bool) (s : List (Object J)) → IsKeyed s → IsKeyed (filter p s)
  filter-IsKeyed p [] h = tt
  filter-IsKeyed p (x ∷ xs) h = elim (Bool-cases (p x)) [
    | inl t ↦ rw (t) (All-filter _ p xs h.0, filter-IsKeyed p xs h.1)
    | inr t ↦ rw (t) (filter-IsKeyed p xs h.1)
  ]

  pub delete_where-IsKeyed :
      (p : Object J → Bool) (s : List (Object J)) → IsKeyed s → IsKeyed (delete_where p s)
  unfolding delete_where
  delete_where-IsKeyed p s h = filter-IsKeyed (λ x. not (p x)) s h

  pub take-IsKeyed : (n : ℕ) (s : List (Object J)) → IsKeyed s → IsKeyed (take n s)
  take-IsKeyed zero xs h = tt
  take-IsKeyed (suc n) [] h = tt
  take-IsKeyed (suc n) (x ∷ xs) h = (All-take _ n xs h.0, take-IsKeyed n xs h.1)

  All-append_one :
      (P : Object J → Type 0) (xs : List (Object J)) (o : Object J)
      → All P xs
      → P o
      → All P (xs ++ o ∷ [])
  All-append_one P [] o h p = (p, tt)
  All-append_one P (x ∷ xs) o h p = (h.0, All-append_one P xs o h.1 p)

  -- A row of a new event at the end.
  pub append-IsKeyed :
      (s : List (Object J)) (o : Object J)
      → find (has_event (event_id o)) s ≡ none
      → IsKeyed s
      → IsKeyed (s ++ o ∷ [])
  unfolding find
  append-IsKeyed [] o n h = (tt, tt)
  append-IsKeyed (x ∷ xs) o n h = elim (Bool-cases (has_event (event_id o) x)) [
    | inl t ↦ ground (arith, n, t)
    | inr f ↦ (
      All-append_one _ xs o h.0 (has_event_sym o x f),
      append-IsKeyed xs o (ground (arith, n, f)) h.1,
    )
  ]

  pub find-append_old :
      (p : Object J → Bool) (xs ys : List (Object J)) (x : Object J)
      → find p xs ≡ some x
      → find p (xs ++ ys) ≡ some x
  unfolding find
  find-append_old p [] ys x h = ground (arith, h)
  find-append_old p (y ∷ xs) ys x h = ground (arith, h, find-append_old p xs ys x)

  -- The sum of one more than the measure of each row.
  module _ (measure : Object J → ℕ) where
    abbrev pub weight : List (Object J) → ℕ
    weight [] = 0
    weight (o ∷ os) = suc (measure o) + weight os

    pub weight-append :
        (s : List (Object J)) (o : Object J) → weight (s ++ o ∷ []) ≡ weight s + suc (measure o)
    weight-append [] o = omega arith
    weight-append (x ∷ xs) o = omega (arith, weight-append xs o)

    weight-delete_where_le :
        (p : Object J → Bool) (s : List (Object J)) → weight (delete_where p s) ≤ weight s
    unfolding delete_where
    weight-delete_where_le p [] = omega arith
    weight-delete_where_le p (x ∷ xs) = ground (arith, weight-delete_where_le p xs)

    pub weight-delete_where :
        (p : Object J → Bool) (s : List (Object J)) (o : Object J)
        → find p s ≡ some o
        → weight (delete_where p s) + suc (measure o) ≤ weight s
    unfolding find delete_where
    weight-delete_where p [] o h = ground (arith, h)
    weight-delete_where p (x ∷ xs) o h = elim (Bool-cases (p x)) [
      | inl t ↦
          let e : x ≡ o = ground (arith, h, t) in
          let le = weight-delete_where_le p xs in
          let same : measure x ≡ measure o = ap measure e in rw (t) (omega (arith, le, same))
      | inr t ↦
          let ih = weight-delete_where p xs o (ground (arith, h, t)) in rw (t) (omega (arith, ih))
    ]
