-- ===== src/Base/Table.antt =====
-- A database table as the list of its rows, with the SQL statements the queries use.
-- A `WHERE` clause is a test on the row. The order of the list is the order of a scan.
pub mod Laws
use Prim.Native.Nat.{ℕ, ◌≤◌}
use mathlib.Core.Path.{◌≡◌, refl, sym, ◌∙◌}
use mathlib.Core.Logic.{◌≢◌, ◌⊎◌, inl, inr}
use mathlib.Core.Bool.{Bool, true, false, not}
use mathlib.Core.Option.{Option, none, some}
use mathlib.Core.List.{List, [], ◌∷◌, ◌++◌}
use native.Mathlib.Omega.{arith}
use conferences.Base.Tests.{if◌then◌else◌, Bool-cases}
use conferences.Base.Lists.{filter, All}

module _ {ℓ} {A : Type ℓ} where
  -- `SELECT … WHERE p`, read with `fetch_optional`.
  unfoldable pub find : (A → Bool) → List A → Option A
  find p [] = none
  find p (x ∷ xs) = if p x then some x else find p xs

  -- `UPDATE … SET f WHERE p`.
  unfoldable pub update_where : (A → Bool) → (A → A) → List A → List A
  update_where p f [] = []
  update_where p f (x ∷ xs) = (if p x then f x else x) ∷ update_where p f xs

  -- `DELETE … WHERE p`.
  unfoldable pub delete_where : (A → Bool) → List A → List A
  delete_where p xs = filter (λ x. not (p x)) xs

  -- `INSERT … ON CONFLICT (key) DO UPDATE SET f`: `p` tests a row for the conflict.
  unfoldable pub upsert : (A → Bool) → (A → A) → A → List A → List A
  upsert p f a [] = a ∷ []
  upsert p f a (x ∷ xs) = if p x then f x ∷ xs else x ∷ upsert p f a xs

-- Keys: no row has the key `k`; no two rows share a key.
module _ {ℓ κ} {A : Type ℓ} {K : Type κ} (key : A → K) where
  abbrev pub Fresh : K → List A → Type κ
  Fresh k [] = Unit
  Fresh k (x ∷ xs) = (key x ≢ k) × Fresh k xs

  abbrev pub IsUnique : List A → Type κ
  IsUnique [] = Unit
  IsUnique (x ∷ xs) = Fresh (key x) xs × IsUnique xs
