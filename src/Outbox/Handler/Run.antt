-- ===== src/Outbox/Handler/Run.antt =====
-- What the handling of one record does to the rows.
use Prim.Native.String.{String}
use conferences.Base.{
  ℕ, suc, ◌≤◌, ◌<◌, ◌≡◌, ◌≢◌, refl, sym, ap, ◌∙◌, inl, inr, List, [], ◌∷◌, ◌++◌, Option, none, some,
  false, Result, ok, err, Option-cases, arith,
}
use conferences.Base.Table.{find, delete_where}
use conferences.Base.Table.Laws.{find-delete_where_kept}
use conferences.Outbox.{EventId, Object, event_id, has_event, inserted, insert_query, delete_query}
use conferences.Outbox.Handler.Keyed.{
  IsKeyed, Holds, append-IsKeyed, find-append_old, weight, weight-append, weight-delete_where,
  delete_where-IsKeyed,
}
use conferences.Outbox.Pipeline.{
  Env, store_next, encode_next, next_stage_arm, last_stage_arm, failed_arm, outcome_arm,
  handle_record, no_stage,
}

module _ {T J : Type 0} (env : Env T J) (rank : T → ℕ) where
  abbrev pub row_rank : Object J → ℕ
  row_rank o = elim (env.decode o.stage) [ none ↦ 0 | some t ↦ rank t ]

  -- The rows without those of an event.
  abbrev pub without : Object J → List (Object J) → List (Object J)
  without o s = delete_where (has_event (event_id o)) s

  -- What a run with success makes of the rows: the row is gone, and perhaps a row of lower rank is new.
  pub data IsRun (o : Object J) (s : List (Object J)) : List (Object J) → Type 0 where
    last : IsRun o s (without o s)
    next_row :
        (row : Object J)
        → find (has_event (event_id row)) (without o s) ≡ none
        → row_rank row < row_rank o
        → IsRun o s (without o s ++ row ∷ [])

  pub IsRun-lowers :
      (o : Object J) (s s' : List (Object J))
      → Holds s o
      → IsRun o s s'
      → suc (weight row_rank s') ≤ weight row_rank s
  IsRun-lowers o s _ h last =
      omega (arith, weight-delete_where row_rank (has_event (event_id o)) s o h)
  IsRun-lowers o s _ h (next_row row f l) = omega (
    arith,
    weight-delete_where row_rank (has_event (event_id o)) s o h,
    weight-append row_rank (without o s) row,
    l,
  )

  pub IsRun-IsKeyed :
      (o : Object J) (s s' : List (Object J)) → IsKeyed s → IsRun o s s' → IsKeyed s'
  IsRun-IsKeyed o s _ k last = delete_where-IsKeyed (has_event (event_id o)) s k
  IsRun-IsKeyed o s _ k (next_row row f l) =
      append-IsKeyed (without o s) row f (delete_where-IsKeyed (has_event (event_id o)) s k)

  pub IsRun-Holds :
      (o x : Object J) (s s' : List (Object J))
      → has_event (event_id o) x ≡ false
      → Holds s x
      → IsRun o s s'
      → Holds s' x
  IsRun-Holds o x s _ n h last =
      find-delete_where_kept (has_event (event_id x)) (has_event (event_id o)) s x h n
  IsRun-Holds o x s _ n h (next_row row f l) =
      find-append_old (has_event (event_id x)) (without o s) (row ∷ []) x
        (find-delete_where_kept (has_event (event_id x)) (has_event (event_id o)) s x h n)

  last_stage_arm-found :
      (o : Object J) (s : List (Object J))
      → Holds s o
      → last_stage_arm env o s ≡ (without o s, ok none)
  unfolding last_stage_arm no_stage delete_query
  last_stage_arm-found o s h = rw (delete_query, h) refl

  next_stage_arm-found :
      (k : ℕ) (o : Object J) (next : T) (s : List (Object J))
      → Holds s o
      → next_stage_arm env k o next s ≡ encode_next env k next o (without o s)
  unfolding next_stage_arm delete_query
  next_stage_arm-found k o next s h = rw (delete_query, h) refl

  failed_arm-fails :
      (o : Object J) (kind : String) (s s' : List (Object J)) (r : Option EventId)
      → failed_arm env o kind s ≢ (s', ok r)
  unfolding failed_arm
  failed_arm-fails o kind s s' r = ground arith

  abbrev row_of : ℕ → Object J → J → Object J
  row_of k o json =
      inserted (env.next_id k) env.now o.entity_type json o.delivery_deadline_at o.operation

  store_next-adds :
      (k : ℕ) (o : Object J) (json : J) (s s' : List (Object J)) (r : Option EventId)
      → store_next env k o json s ≡ (s', ok r)
      → (s' ≡ s ++ row_of k o json ∷ []) × (find (has_event (event_id (row_of k o json))) s ≡ none)
  unfolding store_next insert_query
  store_next-adds k o json s s' r h = ground arith

-- A measure of stages that the handler lowers, and a JSON form that is read back.
module _ {T J : Type 0} (env : Env T J) (rank : T → ℕ)
    (lowers : (k : ℕ) (stage next : T) (e : EventId)
      → env.handle k stage e ≡ ok (some next)
      → rank next < rank stage)
    (reads_back : (stage : T) (json : J)
      → env.encode stage ≡ some json
      → env.decode json ≡ some stage) where
  row_rank-row_of :
      (k : ℕ) (o : Object J) (next : T) (json : J)
      → env.encode next ≡ some json
      → row_rank env rank (row_of env rank k o json) ≡ rank next
  unfolding inserted
  row_rank-row_of k o next json h = rw (row_rank, reads_back next json h) refl

  encode_next-IsRun :
      (k : ℕ) (o : Object J) (next : T) (s s' : List (Object J)) (r : Option EventId)
      → rank next < row_rank env rank o
      → encode_next env k next o (without env rank o s) ≡ (s', ok r)
      → IsRun env rank o s s'
  unfolding encode_next
  encode_next-IsRun k o next s s' r l h = elim (Option-cases (env.encode next)) [
    | inl n ↦ let h' = rw (n, encode_next) at h in cc
    | inr (json, n) ↦
        let (rows, absent) =
          store_next-adds env rank k o json (without env rank o s) s' r
            (rw (n, encode_next) at h) in
        rw rows
          (next_row (row_of env rank k o json) absent (rw (row_rank-row_of k o next json n) l))
  ]

  pub handle_record-IsRun :
      (k : ℕ) (o : Object J) (stage : T) (s s' : List (Object J)) (r : Option EventId)
      → Holds s o
      → env.decode o.stage ≡ some stage
      → handle_record env k o stage s ≡ (s', ok r)
      → IsRun env rank o s s'
  unfolding handle_record outcome_arm
  handle_record-IsRun k o stage s s' r holds decoded h =
      outcome (env.handle k stage (event_id o)) refl h
    where
      outcome :
          (q : Result String (Option T))
          → env.handle k stage (event_id o) ≡ q
          → outcome_arm env k o q s ≡ (s', ok r)
          → IsRun env rank o s s'
      outcome (ok (some next)) e h =
          let below : rank next < row_rank env rank o =
            rw (row_rank, decoded) (lowers k stage next (event_id o) e) in
          encode_next-IsRun k o next s s' r below
            (rw (next_stage_arm-found env rank k o next s holds) at h)
      outcome (ok none) e h =
          let same = ap (λ p. p.0) (sym (last_stage_arm-found env rank o s holds) ∙ h) in
          rw (sym same) last
      outcome (err kind) e h = absurd (failed_arm-fails env rank o kind s s' r h)
