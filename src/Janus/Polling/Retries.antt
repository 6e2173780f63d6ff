-- ===== src/Janus/Polling/Retries.antt =====
-- When polling ends, and when it takes the backend for lost.
use conferences.Base.{
  ℕ, suc, zero, ◌≤◌, ◌≡◌, ◌≢◌, refl, sym, ap, subst, ◌⊎◌, inl, inr, List, [], ◌∷◌, ◌++◌, Option,
  true, false, arith,
}
use conferences.Janus.{IncomingEvent, Json}
use conferences.Janus.Polling.{
  session_not_found, failed, events, Turn, Outcome, polling, cancelled, removed, retries, poll_loop,
  start_polling,
}

-- A turn in which polling fails, and some of them.
abbrev pub failure : Turn
failure = (false, failed)

abbrev pub failures : ℕ → List Turn → List Turn
failures zero rest = rest
failures (suc n) rest = failure ∷ failures n rest

-- Somewhere there is no session any more, or five turns in a row fail.
pub data IsBroken : List Turn → Type 0 where
  not_found : (rest : List Turn) → IsBroken ((false, session_not_found) ∷ rest)
  five_failures : (rest : List Turn) → IsBroken (failures retries rest)
  later : (t : Turn) {rest : List Turn} → IsBroken rest → IsBroken (t ∷ rest)

suc_not_le : (n : ℕ) → ¬ (suc n ≤ 0)
suc_not_le n h = omega (arith, h)

module _ (json : Json) (from_value : ℕ → Option IncomingEvent) where
  broken_or_failures :
      (n : ℕ) (ts : List Turn)
      → (poll_loop json from_value n ts).1 ≡ removed
      → IsBroken ts ⊎ ((rest : List Turn) × (ts ≡ failures n rest))
  unfolding poll_loop
  broken_or_failures zero ts h = inr (ts, refl)
  broken_or_failures (suc n) [] h = ground (arith, h)
  broken_or_failures (suc n) ((true, r) ∷ ts) h = ground (arith, h)
  broken_or_failures (suc n) ((false, session_not_found) ∷ ts) h = inl (not_found ts)
  broken_or_failures (suc n) ((false, events es) ∷ ts) h = elim (broken_or_failures retries ts h) [
    | inl b ↦ inl (later _ b)
    | inr (rest, e) ↦ inl (later _ (subst IsBroken (sym e) (five_failures rest)))
  ]
  broken_or_failures (suc n) ((false, failed) ∷ ts) h = elim (broken_or_failures n ts h) [
    | inl b ↦ inl (later _ b)
    | inr (rest, e) ↦ inr (rest, ap (λ xs. failure ∷ xs) e)
  ]

  -- Polling removes a backend only if there is no session any more in some turn, or if five turns in a
  -- row fail.
  pub start_polling-IsBroken :
      (ts : List Turn) → (start_polling json from_value ts).1 ≡ removed → IsBroken ts
  unfolding start_polling
  start_polling-IsBroken ts h = elim (broken_or_failures retries ts h) [
    | inl b ↦ b
    | inr (rest, e) ↦ subst IsBroken (sym e) (five_failures rest)
  ]

  failures_end :
      (n : ℕ) (rest : List Turn) → (poll_loop json from_value n (failures n rest)).1 ≡ removed
  unfolding poll_loop
  failures_end zero rest = refl
  failures_end (suc n) rest = failures_end n rest

  -- The loop has an end.
  abbrev IsOver : Outcome → Type 0
  IsOver polling = ⊥
  IsOver cancelled = Unit
  IsOver removed = Unit

  failures-IsOver :
      (n m : ℕ) (rest : List Turn)
      → n ≤ m
      → IsOver (poll_loop json from_value n (failures m rest)).1
  unfolding poll_loop
  failures-IsOver zero m rest h = tt
  failures-IsOver (suc n) zero rest h = elim (suc_not_le n h) [ ]
  failures-IsOver (suc n) (suc m) rest h = failures-IsOver n m rest (omega (arith, h))

  poll_loop-IsOver :
      (n : ℕ) (ts rest : List Turn)
      → n ≤ retries
      → IsOver (poll_loop json from_value n (ts ++ failures retries rest)).1
  unfolding poll_loop
  poll_loop-IsOver zero ts rest h = tt
  poll_loop-IsOver (suc n) [] rest h = failures-IsOver (suc n) retries rest h
  poll_loop-IsOver (suc n) ((true, r) ∷ ts) rest h = tt
  poll_loop-IsOver (suc n) ((false, session_not_found) ∷ ts) rest h = tt
  poll_loop-IsOver (suc n) ((false, events es) ∷ ts) rest h =
      poll_loop-IsOver retries ts rest (omega arith)
  poll_loop-IsOver (suc n) ((false, failed) ∷ ts) rest h =
      poll_loop-IsOver n ts rest (omega (arith, h))

  -- Whatever came before, polling has ended once five turns in a row have failed.
  pub start_polling-failures :
      (ts rest : List Turn)
      → (start_polling json from_value (ts ++ failures retries rest)).1 ≢ polling
  unfolding start_polling
  start_polling-failures ts rest h = subst IsOver h (poll_loop-IsOver retries ts rest (omega arith))
