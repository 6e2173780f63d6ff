-- ===== src/Outbox/Handler/Loaded.antt =====
-- The records of a batch, as they are read.
use conferences.Base.{ℕ, ◌≡◌, inl, inr, List, [], ◌∷◌, some, false, All, Option-cases}
use conferences.Outbox.{Object, event_id, has_event, list_query}
use conferences.Outbox.Handler.Keyed.{
  IsKeyed, Holds, IsKeyed-Holds, filter-IsKeyed, take-IsKeyed, All-filter, All-take,
}
use conferences.Outbox.Pipeline.{Env, decode_all}

module _ {T J : Type 0} (env : Env T J) where
  -- The records of a batch: of different events, read from their rows.
  abbrev pub AreLoaded : List (Object J) → List (Object J × T) → Type 0
  AreLoaded s [] = Unit
  AreLoaded s ((o, stage) ∷ rs) =
      Holds s o
      × (env.decode o.stage ≡ some stage)
      × All (λ x. has_event (event_id o) (x.0) ≡ false) rs
      × AreLoaded s rs

  -- The rows of a batch, read in their order.
  data AreDecoded : List (Object J) → List (Object J × T) → Type 0 where
    no_rows : AreDecoded [] []
    decoded :
        {o : Object J} {stage : T} {os : List (Object J)} {rs : List (Object J × T)}
        → env.decode o.stage ≡ some stage
        → AreDecoded os rs
        → AreDecoded (o ∷ os) ((o, stage) ∷ rs)

  decode_all-AreDecoded :
      (os : List (Object J)) (rs : List (Object J × T))
      → decode_all env os ≡ some rs
      → AreDecoded os rs
  unfolding decode_all
  decode_all-AreDecoded [] rs h = let e : rs ≡ [] = cc in rw e no_rows
  decode_all-AreDecoded (o ∷ os) rs h = elim (Option-cases (env.decode o.stage)) [
    | inl n ↦ let h' = rw (decode_all, n) at h in cc
    | inr (stage, n) ↦ elim (Option-cases (decode_all env os)) [
      | inl m ↦ let h' = rw (decode_all, n, m) at h in cc
      | inr (rest, m) ↦
          let h' = rw (decode_all, n, m) at h in
          let e : rs ≡ (o, stage) ∷ rest = cc in rw e (decoded n (decode_all-AreDecoded os rest m))
    ]
  ]

  AreDecoded-distinct :
      (o : Object J) (os : List (Object J)) (rs : List (Object J × T))
      → AreDecoded os rs
      → All (λ x. has_event (event_id o) x ≡ false) os
      → All (λ x. has_event (event_id o) (x.0) ≡ false) rs
  AreDecoded-distinct o _ _ no_rows n = tt
  AreDecoded-distinct o _ _ (decoded e rest) n = (n.0, AreDecoded-distinct o _ _ rest n.1)

  AreDecoded-AreLoaded :
      (s os : List (Object J)) (rs : List (Object J × T))
      → AreDecoded os rs
      → IsKeyed os
      → All (Holds s) os
      → AreLoaded s rs
  AreDecoded-AreLoaded s _ _ no_rows keyed holds = tt
  AreDecoded-AreLoaded s _ _ (decoded {o = o} e rest) keyed holds = (
    holds.0,
    e,
    AreDecoded-distinct o _ _ rest keyed.0,
    AreDecoded-AreLoaded s _ _ rest keyed.1 holds.1,
  )

  pub list_query-AreLoaded :
      (n : ℕ) (s : List (Object J)) (rs : List (Object J × T))
      → IsKeyed s
      → decode_all env (list_query env.locked env.now n s) ≡ some rs
      → AreLoaded s rs
  unfolding list_query
  list_query-AreLoaded n s rs keyed h =
      AreDecoded-AreLoaded s _ rs (decode_all-AreDecoded _ rs h)
        (take-IsKeyed n _ (filter-IsKeyed _ s keyed))
        (All-take (Holds s) n _ (All-filter (Holds s) _ s (IsKeyed-Holds s keyed)))
