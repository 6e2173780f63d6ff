-- ===== src/Waitlist/Tickets.antt =====
-- The ids that `register` hands out.
use conferences.Base.{
  ℕ, ◌+◌, ◌%◌, ◌^◌, ◌≤◌, ◌<◌, ◌≡◌, refl, List, [], ◌∷◌, length, false, Result, ok, err, arith,
}
use conferences.Base.Table.{Fresh, IsUnique}
use conferences.Waitlist.{Error, WaitList, register_handle}

module _ {S T : Type 0} where
  abbrev handed : List ℕ → WaitList S T × Result Error ℕ → List ℕ
  handed ids (w, ok id) = id ∷ ids
  handed ids (w, err e) = ids

  -- The ids of a row of registrations, in order.
  pub ids : WaitList S T → List S → List ℕ
  ids w [] = []
  ids w (s ∷ ss) = handed (ids (register_handle w s).0 ss) (register_handle w s)

  ids-Fresh :
      (c d : ℕ) (w : WaitList S T) (ss : List S)
      → w.stopped ≡ false
      → c < 2 ^ 64
      → w.counter ≡ (c + d) % 2 ^ 64
      → 0 < d
      → d + length ss ≤ 2 ^ 64
      → Fresh (λ i. i) c (ids w ss)
  unfolding ids register_handle
  ids-Fresh c d w [] r b e p h = tt
  ids-Fresh c d w (s ∷ ss) r b e p h =
      ground (arith, ids-Fresh c (d + 1) (register_handle w s).0 ss)

  -- While the task runs, up to 2^64 registrations in a row get ids that all differ.
  ids-IsUnique :
      (w : WaitList S T) (ss : List S)
      → w.stopped ≡ false
      → w.counter < 2 ^ 64
      → length ss ≤ 2 ^ 64
      → IsUnique (λ i. i) (ids w ss) × (length (ids w ss) ≡ length ss)
  unfolding ids register_handle
  ids-IsUnique w [] r b h = (tt, refl)
  ids-IsUnique w (s ∷ ss) r b h = ground (
    arith,
    ids-Fresh w.counter 1 (register_handle w s).0 ss,
    ids-IsUnique (register_handle w s).0 ss,
  )
