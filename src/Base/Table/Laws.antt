-- ===== src/Base/Table/Laws.antt =====
-- What a query reads after a statement, and which statements keep a key unique.
use mathlib.Core.Path.{◌≡◌, refl}
use mathlib.Core.Logic.{◌≢◌, inl, inr}
use mathlib.Core.Bool.{Bool, true, false}
use mathlib.Core.Option.{Option, none, some}
use mathlib.Core.List.{List, [], ◌∷◌}
use native.Mathlib.Omega.{arith}
use conferences.Base.Tests.{if◌then◌else◌, Bool-cases}
use conferences.Base.Lists.{filter, All}
use conferences.Base.Table.{find, update_where, delete_where, upsert, Fresh, IsUnique}

module _ {ℓ} {A : Type ℓ} where
  abbrev pub map_row : (A → A) → Option A → Option A
  map_row f none = none
  map_row f (some x) = some (f x)

  -- What `find p` returns passes the test `p`.
  pub find_passes : (p : A → Bool) (xs : List A) (x : A) → find p xs ≡ some x → p x ≡ true
  unfolding find
  find_passes p [] x h = ground arith
  find_passes p (y ∷ ys) x h = ground (arith, find_passes p ys x)

  -- A delete leaves no row that the test passes.
  pub delete_where-All : (p : A → Bool) (xs : List A) → All (λ x. p x ≡ false) (delete_where p xs)
  unfolding delete_where
  delete_where-All p [] = tt
  delete_where-All p (x ∷ xs) = ground (arith, delete_where-All p xs)

  -- A row found before an update that keeps the test is found changed after it.
  pub find-update_where :
      (q p : A → Bool) (f : A → A) (xs : List A)
      → ((x : A) → q (f x) ≡ q x)
      → find q (update_where p f xs) ≡ map_row (λ x. if p x then f x else x) (find q xs)
  unfolding find update_where
  find-update_where q p f [] h = refl
  find-update_where q p f (x ∷ xs) h = ground (arith, h x, find-update_where q p f xs h)

  -- A deleted row is not found.
  pub find-delete_where :
      (q p : A → Bool) (xs : List A)
      → ((x : A) → q x ≡ true → p x ≡ true)
      → find q (delete_where p xs) ≡ none
  unfolding find delete_where
  find-delete_where q p [] h = refl
  find-delete_where q p (x ∷ xs) h = ground (arith, h x, find-delete_where q p xs h)

  -- A delete does not hide the rows that it does not match.
  pub find-delete_where_other :
      (q p : A → Bool) (xs : List A)
      → ((x : A) → q x ≡ true → p x ≡ false)
      → find q (delete_where p xs) ≡ find q xs
  unfolding find delete_where
  find-delete_where_other q p [] h = refl
  find-delete_where_other q p (x ∷ xs) h = ground (arith, h x, find-delete_where_other q p xs h)

  abbrev pub row_or : A → (A → A) → Option A → A
  row_or a f none = a
  row_or a f (some x) = f x

  -- After an upsert its key is found: the new row, or the old one changed.
  pub find-upsert :
      (p : A → Bool) (f : A → A) (a : A) (xs : List A)
      → p a ≡ true
      → ((x : A) → p (f x) ≡ p x)
      → find p (upsert p f a xs) ≡ some (row_or a f (find p xs))
  unfolding find upsert
  find-upsert p f a [] h k = ground arith
  find-upsert p f a (x ∷ xs) h k = ground (arith, k x, find-upsert p f a xs h k)

  -- An upsert leaves what another test finds.
  pub find-upsert_other :
      (q p : A → Bool) (f : A → A) (a : A) (xs : List A)
      → q a ≡ false
      → ((x : A) → p x ≡ true → (q x ≡ false) × (q (f x) ≡ false))
      → find q (upsert p f a xs) ≡ find q xs
  unfolding find upsert
  find-upsert_other q p f a [] h k = ground arith
  find-upsert_other q p f a (x ∷ xs) h k = ground (arith, k x, find-upsert_other q p f a xs h k)

  -- An upsert changes the row that it conflicts with.
  pub find-upsert_old :
      (p : A → Bool) (f : A → A) (a : A) (xs : List A) (o : A)
      → ((x : A) → p (f x) ≡ true)
      → find p xs ≡ some o
      → find p (upsert p f a xs) ≡ some (f o)
  unfolding find upsert
  find-upsert_old p f a [] o k h = ground arith
  find-upsert_old p f a (x ∷ xs) o k h = ground (arith, k x, h, find-upsert_old p f a xs o k)

  -- A delete keeps a row that it does not match first among those found.
  pub find-delete_where_kept :
      (q p : A → Bool) (xs : List A) (o : A)
      → find q xs ≡ some o
      → p o ≡ false
      → find q (delete_where p xs) ≡ some o
  unfolding find delete_where
  find-delete_where_kept q p [] o h n = ground arith
  find-delete_where_kept q p (x ∷ xs) o h n = elim (Bool-cases (q x)) [
    | inl t ↦ ground (arith, t, h, n)
    | inr t ↦ ground (arith, t, h, n, find-delete_where_kept q p xs o)
  ]

module _ {ℓ κ} {A : Type ℓ} {K : Type κ} (key : A → K) where
  Fresh-filter : (k : K) (p : A → Bool) (xs : List A) → Fresh key k xs → Fresh key k (filter p xs)
  Fresh-filter k p [] h = tt
  Fresh-filter k p (x ∷ xs) h = ground (arith, Fresh-filter k p xs)

  IsUnique-filter : (p : A → Bool) (xs : List A) → IsUnique key xs → IsUnique key (filter p xs)
  IsUnique-filter p [] h = tt
  IsUnique-filter p (x ∷ xs) h = ground (arith, IsUnique-filter p xs, Fresh-filter (key x) p xs)

  -- A delete keeps keys unique.
  pub IsUnique-delete_where :
      (p : A → Bool) (xs : List A) → IsUnique key xs → IsUnique key (delete_where p xs)
  unfolding delete_where
  IsUnique-delete_where p xs h = IsUnique-filter _ xs h

  Fresh-update_where :
      (k : K) (p : A → Bool) (f : A → A) (xs : List A)
      → ((x : A) → key (f x) ≡ key x)
      → Fresh key k xs
      → Fresh key k (update_where p f xs)
  unfolding update_where
  Fresh-update_where k p f [] e h = tt
  Fresh-update_where k p f (x ∷ xs) e h = (ground (arith, e x), Fresh-update_where k p f xs e h.1)

  -- An update that leaves the key alone keeps keys unique.
  pub IsUnique-update_where :
      (p : A → Bool) (f : A → A) (xs : List A)
      → ((x : A) → key (f x) ≡ key x)
      → IsUnique key xs
      → IsUnique key (update_where p f xs)
  unfolding update_where
  IsUnique-update_where p f [] e h = tt
  IsUnique-update_where p f (x ∷ xs) e h = elim (Bool-cases (p x)) [
    | inl t ↦
        rw (t, e x) (Fresh-update_where (key x) p f xs e h.0, IsUnique-update_where p f xs e h.1)
    | inr t ↦ rw t (Fresh-update_where (key x) p f xs e h.0, IsUnique-update_where p f xs e h.1)
  ]

  Fresh-upsert :
      (k : K) (p : A → Bool) (f : A → A) (a : A) (xs : List A)
      → ((x : A) → key (f x) ≡ key x)
      → key a ≢ k
      → Fresh key k xs
      → Fresh key k (upsert p f a xs)
  unfolding upsert
  Fresh-upsert k p f a [] e n h = (n, tt)
  Fresh-upsert k p f a (x ∷ xs) e n h = elim (Bool-cases (p x)) [
    | inl t ↦ rw (t, e x) h
    | inr t ↦ rw t (h.0, Fresh-upsert k p f a xs e n h.1)
  ]

  -- An upsert whose conflict test is on the key keeps keys unique.
  pub IsUnique-upsert :
      (p : A → Bool) (f : A → A) (a : A) (xs : List A)
      → ((x : A) → key (f x) ≡ key x)
      → ((x : A) → p x ≡ false → key a ≢ key x)
      → IsUnique key xs
      → IsUnique key (upsert p f a xs)
  unfolding upsert
  IsUnique-upsert p f a [] e n h = (tt, tt)
  IsUnique-upsert p f a (x ∷ xs) e n h = elim (Bool-cases (p x)) [
    | inl t ↦ rw (t, e x) h
    | inr t ↦ rw t (Fresh-upsert (key x) p f a xs e (n x t) h.0, IsUnique-upsert p f a xs e n h.1)
  ]
