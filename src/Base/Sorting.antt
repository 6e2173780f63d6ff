-- ===== src/Base/Sorting.antt =====
-- `ORDER BY` as an insertion sort by a test that says that the first may stand before the second, and
-- what `LIMIT` takes of the sorted rows.
use Prim.Native.Nat.{ℕ, zero, suc, ◌≤◌}
use mathlib.Core.Path.{◌≡◌, refl, subst}
use mathlib.Core.Logic.{inl, inr}
use mathlib.Core.Bool.{Bool, true, false, not}
use mathlib.Core.Option.{some}
use mathlib.Core.List.{List, [], ◌∷◌}
use native.Mathlib.Omega.{arith}
use conferences.Base.Tests.{if◌then◌else◌, Bool-cases}
use conferences.Base.Lists.{All, Has, filter, length, take, head?}

module _ {A : Type 0} (before : A → A → Bool) where
  unfoldable pub insert_sorted : A → List A → List A
  insert_sorted b [] = b ∷ []
  insert_sorted b (x ∷ xs) =
      let rest = insert_sorted b xs in if before b x then b ∷ x ∷ xs else x ∷ rest

  unfoldable pub order_by : List A → List A
  unfolding insert_sorted
  order_by [] = []
  order_by (x ∷ xs) = insert_sorted x (order_by xs)

  -- As many rows pass a test as before.
  length-filter-insert_sorted :
      (p : A → Bool) (b : A) (xs : List A)
      → length (filter p (insert_sorted b xs)) ≡ length (filter p (b ∷ xs))
  unfolding insert_sorted
  length-filter-insert_sorted p b [] = refl
  length-filter-insert_sorted p b (x ∷ xs) = ground (arith, length-filter-insert_sorted p b xs)

  pub length-filter-order_by :
      (p : A → Bool) (xs : List A) → length (filter p (order_by xs)) ≡ length (filter p xs)
  unfolding order_by
  length-filter-order_by p [] = refl
  length-filter-order_by p (x ∷ xs) =
      ground (arith, length-filter-order_by p xs, length-filter-insert_sorted p x (order_by xs))

  Has-insert_sorted : (a b : A) (xs : List A) → Has a (insert_sorted b xs) → Has a (b ∷ xs)
  unfolding insert_sorted
  Has-insert_sorted a b [] h = h
  Has-insert_sorted a b (x ∷ xs) h = elim (Bool-cases (before b x)) [
    | inl t ↦ subst (λ c. Has a (if c then b ∷ x ∷ xs else x ∷ insert_sorted b xs)) t h
    | inr t ↦ elim (subst (λ c. Has a (if c then b ∷ x ∷ xs else x ∷ insert_sorted b xs)) t h) [
      | inl e ↦ inr (inl e)
      | inr k ↦ elim (Has-insert_sorted a b xs k) [ inl e ↦ inl e | inr m ↦ inr (inr m) ]
    ]
  ]

  pub Has-order_by : (a : A) (xs : List A) → Has a (order_by xs) → Has a xs
  unfolding order_by
  Has-order_by a [] h = h
  Has-order_by a (x ∷ xs) h = elim (Has-insert_sorted a x (order_by xs) h) [
    | inl e ↦ inl e
    | inr k ↦ inr (Has-order_by a xs k)
  ]

  -- Each row may stand before all that follow it.
  pub IsSorted : List A → Type 0
  IsSorted [] = Unit
  IsSorted (x ∷ xs) = All (λ y. before x y ≡ true) xs × IsSorted xs

  module _ (total : (a b : A) → before a b ≡ false → before b a ≡ true)
      (trans : (a b c : A) → before a b ≡ true → before b c ≡ true → before a c ≡ true) where
    All-trans :
        (a b : A) (xs : List A)
        → before a b ≡ true
        → All (λ y. before b y ≡ true) xs
        → All (λ y. before a y ≡ true) xs
    All-trans a b [] e h = tt
    All-trans a b (x ∷ xs) e h = (trans a b x e h.0, All-trans a b xs e h.1)

    All-insert_sorted :
        (a b : A) (xs : List A)
        → before a b ≡ true
        → All (λ y. before a y ≡ true) xs
        → All (λ y. before a y ≡ true) (insert_sorted b xs)
    unfolding insert_sorted
    All-insert_sorted a b [] e h = (e, tt)
    All-insert_sorted a b (x ∷ xs) e h = elim (Bool-cases (before b x)) [
      | inl t ↦ rw t (e, h)
      | inr t ↦ rw t (h.0, All-insert_sorted a b xs e h.1)
    ]

    insert_sorted-IsSorted : (b : A) (xs : List A) → IsSorted xs → IsSorted (insert_sorted b xs)
    unfolding insert_sorted IsSorted
    insert_sorted-IsSorted b [] h = (tt, tt)
    insert_sorted-IsSorted b (x ∷ xs) h = elim (Bool-cases (before b x)) [
      | inl t ↦ rw t ((t, All-trans b x xs t h.0), h)
      | inr t ↦ rw t (All-insert_sorted x b xs (total b x t) h.0, insert_sorted-IsSorted b xs h.1)
    ]

    pub order_by-IsSorted : (xs : List A) → IsSorted (order_by xs)
    unfolding order_by IsSorted
    order_by-IsSorted [] = tt
    order_by-IsSorted (x ∷ xs) = insert_sorted-IsSorted x (order_by xs) (order_by-IsSorted xs)

    none_before :
        (b : A) (xs : List A)
        → All (λ y. before b y ≡ true) xs
        → length (filter (λ c. not (before b c)) xs) ≡ 0
    none_before b [] h = refl
    none_before b (x ∷ xs) h = ground (arith, none_before b xs h.1, h.0)

    -- Of the rows that must stand before one of the first `n + 1`, there are at most `n`.
    few_before :
        (reflexive : (a : A) → before a a ≡ true) (n : ℕ) (b : A) (xs : List A)
        → IsSorted xs
        → Has b (take (suc n) xs)
        → length (filter (λ c. not (before b c)) xs) ≤ n
    unfolding IsSorted
    few_before r n b [] s h = elim h [ ]
    few_before r n b (x ∷ xs) s (inl e) =
        subst (λ a. length (filter (λ c. not (before a c)) (x ∷ xs)) ≤ n) e
          (omega (arith, none_before x (x ∷ xs) (r x, s.0)))
    few_before r zero b (x ∷ xs) s (inr h) = elim h [ ]
    few_before r (suc n) b (x ∷ xs) s (inr h) = ground (arith, few_before r n b xs s.1 h)

    -- The rows that must stand before one of the first `n + 1` of a sorted list, in any order.
    pub few_before-take :
        (reflexive : (a : A) → before a a ≡ true) (n : ℕ) (b : A) (xs : List A)
        → Has b (take (suc n) (order_by xs))
        → length (filter (λ c. not (before b c)) xs) ≤ n
    few_before-take r n b xs h =
        subst (λ k. k ≤ n) (length-filter-order_by (λ c. not (before b c)) xs)
          (few_before r n b (order_by xs) (order_by-IsSorted xs) h)

module _ {A : Type 0} where
  pub Has-take : (n : ℕ) (a : A) (xs : List A) → Has a (take n xs) → Has a xs
  Has-take zero a xs h = elim h [ ]
  Has-take (suc n) a [] h = elim h [ ]
  Has-take (suc n) a (x ∷ xs) (inl e) = inl e
  Has-take (suc n) a (x ∷ xs) (inr h) = inr (Has-take n a xs h)

  pub Has-head? : (a : A) (xs : List A) → head? xs ≡ some a → Has a xs
  Has-head? a [] h = ground arith
  Has-head? a (x ∷ xs) h = inl (ground arith)

  pub Has-filter :
      (p : A → Bool) (a : A) (xs : List A) → Has a (filter p xs) → (p a ≡ true) × Has a xs
  Has-filter p a [] h = elim h [ ]
  Has-filter p a (x ∷ xs) h = elim (Bool-cases (p x)) [
    | inl t ↦ elim (subst (λ c. Has a (if c then x ∷ filter p xs else filter p xs)) t h) [
      | inl e ↦ (subst (λ y. p y ≡ true) e t, inl e)
      | inr k ↦ let r = Has-filter p a xs k in (r.0, inr r.1)
    ]
    | inr t ↦
        let r =
          Has-filter p a xs (subst (λ c. Has a (if c then x ∷ filter p xs else filter p xs)) t h) in
        (r.0, inr r.1)
  ]
