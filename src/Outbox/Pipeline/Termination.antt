-- ===== src/Outbox/Pipeline/Termination.antt =====
-- The loop of `run_single_stage` ends after as many rounds as the stage has stages after it.
use Prim.Native.String.{String}
use conferences.Base.{
  ℕ, zero, suc, ◌+◌, ◌<◌, ◌≡◌, ◌≢◌, refl, inl, inr, List, [], ◌∷◌, ◌++◌, Option, none, some, Result,
  ok, err, Option-cases, Bool-cases, arith,
}
use conferences.Base.Table.{find}
use conferences.Outbox.{
  EventId, Object, event_id, has_event, find_query, inserted, insert_query, delete_query,
}
use conferences.Outbox.Pipeline.Rollback.{settled, transaction-settled}
use conferences.Outbox.Pipeline.{
  Env, Transactional, Failure, delete_stage_failed, query, M, resume, single_body, run_single_stage,
  after_stage, store_next, encode_next, next_stage_arm, no_stage, last_stage_arm, failed_arm,
  outcome_arm, handle_record, handle_loaded, load_single_record,
}

module _ {T J : Type 0} (env : Env T J) where
  abbrev row_of : ℕ → Object J → J → Object J
  row_of k o json =
      inserted (env.next_id k) env.now o.entity_type json o.delivery_deadline_at o.operation

  store_next_inv :
      (k : ℕ) (o : Object J) (json : J) (s s' : List (Object J)) (e : EventId)
      → store_next env k o json s ≡ (s', ok (some e))
      → (s' ≡ s ++ row_of k o json ∷ [])
        × (e ≡ event_id (row_of k o json))
        × (find (has_event e) s ≡ none)
  unfolding store_next insert_query
  store_next_inv k o json s s' e h = ground arith

  -- What a run that names a next event has written.
  record Written (next : T) (s' : List (Object J)) (e : EventId) : Type 0 where
    row : Object J
    gone : List (Object J)
    encoded : env.encode next ≡ some row.stage
    rows : s' ≡ gone ++ row ∷ []
    absent : find (has_event e) gone ≡ none

  -- A run that returned a value went on from one.
  resume_inv :
      {A B : Type 0} (f : A → M J B) (p : List (Object J) × Result Failure A) (s' : List (Object J))
      (b : B)
      → resume f p ≡ (s', ok b)
      → (t : List (Object J)) × (a : A) × (p ≡ (t, ok a)) × (f a t ≡ (s', ok b))
  resume_inv f (s, ok a) s' b h = (s, a, refl, h)
  resume_inv f (s, err x) s' b h = cc

  encode_next_inv :
      (k : ℕ) (next : T) (o : Object J) (s s' : List (Object J)) (e : EventId)
      → encode_next env k next o s ≡ (s', ok (some e))
      → Written next s' e
  unfolding encode_next inserted
  encode_next_inv k next o s s' e h = elim (Option-cases (env.encode next)) [
    | inl n ↦ let h' = rw (n, encode_next) at h in cc
    | inr (json, n) ↦
        let stored = store_next_inv k o json s s' e (rw (n, encode_next) at h) in
        record { row = row_of k o json; gone = s; encoded = n; rows = stored.0; absent = stored.2 }
  ]

  abbrev deleting : Object J → M J (Object J)
  deleting o = query (delete_query (event_id o)) delete_stage_failed

  next_stage_arm_inv :
      (k : ℕ) (o : Object J) (next : T) (s s' : List (Object J)) (e : EventId)
      → next_stage_arm env k o next s ≡ (s', ok (some e))
      → Written next s' e
  unfolding next_stage_arm
  next_stage_arm_inv k o next s s' e h =
      let (t, deleted, _, q) = resume_inv (encode_next env k next) (deleting o s) s' (some e) h in
      encode_next_inv k next deleted t s' e q

  last_stage_arm_inv :
      (o : Object J) (s s' : List (Object J)) (e : EventId)
      → last_stage_arm env o s ≢ (s', ok (some e))
  unfolding last_stage_arm no_stage
  last_stage_arm_inv o s s' e h =
      let (t, deleted, _, q) = resume_inv (no_stage env) (deleting o s) s' (some e) h in cc q

  failed_arm_inv :
      (o : Object J) (kind : String) (s s' : List (Object J)) (e : EventId)
      → failed_arm env o kind s ≢ (s', ok (some e))
  unfolding failed_arm
  failed_arm_inv o kind s s' e = ground arith

  outcome_arm_inv :
      (k : ℕ) (o : Object J) (r : Result String (Option T)) (s s' : List (Object J)) (e : EventId)
      → outcome_arm env k o r s ≡ (s', ok (some e))
      → (next : T) × (r ≡ ok (some next)) × Written next s' e
  unfolding outcome_arm
  outcome_arm_inv k o (ok (some next)) s s' e h = (next, refl, next_stage_arm_inv k o next s s' e h)
  outcome_arm_inv k o (ok none) s s' e h = absurd (last_stage_arm_inv o s s' e h)
  outcome_arm_inv k o (err kind) s s' e h = absurd (failed_arm_inv o kind s s' e h)

  load_inv :
      (e : EventId) (s t : List (Object J)) (o : Object J) (stage : T)
      → load_single_record env e s ≡ (t, ok (o, stage))
      → (find_query env.locked e s ≡ ok o) × (env.decode o.stage ≡ some stage)
  unfolding load_single_record
  load_inv e s t o stage h = ground arith

after_stage_ends :
    {J : Type 0}
    (again : EventId → List (Object J) → Option (List (Object J) × Result Failure (Unit {0})))
    (s : List (Object J)) (p : List (Object J) × Result Failure (Option EventId))
    → ((e : EventId) (t : List (Object J)) → p ≡ (t, ok (some e)) → again e t ≢ none)
    → after_stage again (settled s p) ≢ none
after_stage_ends again s (t, err x) h q = cc
after_stage_ends again s (t, ok none) h q = cc
after_stage_ends again s (t, ok (some e)) h q = h e t refl q

-- A measure of stages that the handler lowers, and a JSON form that is read back.
module _ {T J : Type 0} (env : Env T J) (rank : T → ℕ)
    (lowers : (k : ℕ) (stage next : T) (e : EventId)
      → env.handle k stage e ≡ ok (some next)
      → rank next < rank stage)
    (reads_back : (stage : T) (json : J)
      → env.encode stage ≡ some json
      → env.decode json ≡ some stage) where
  -- The stage that stands under an event has a rank below `n`.
  abbrev IsRanked : ℕ → EventId → List (Object J) → Type 0
  IsRanked n e s =
      (o : Object J) (stage : T)
      → find_query env.locked e s ≡ ok o
      → env.decode o.stage ≡ some stage
      → rank stage < n

  find_query_written :
      (e : EventId) (gone : List (Object J)) (row o : Object J)
      → find (has_event e) gone ≡ none
      → find_query env.locked e (gone ++ row ∷ []) ≡ ok o
      → o ≡ row
  unfolding find_query find
  find_query_written e [] row o n h = ground arith
  find_query_written e (x ∷ xs) row o n h = ground (arith, find_query_written e xs row o)

  single_body-IsRanked :
      (n k : ℕ) (e e' : EventId) (s s' : List (Object J))
      → IsRanked (suc n) e s
      → single_body env k e s ≡ (s', ok (some e'))
      → IsRanked n e' s'
  unfolding single_body handle_loaded handle_record
  single_body-IsRanked n k e e' s s' ranked h o' stage' found' decoded' =
      let (t, loaded, l, q) =
        resume_inv env (handle_loaded env k) (load_single_record env e s) s' (some e') h in
      let (found, decoded) = load_inv env e s t loaded.0 loaded.1 l in
      let (next, handled, written) =
        outcome_arm_inv env k loaded.0 (env.handle k loaded.1 (event_id loaded.0)) t s' e' q in
      let below = ranked loaded.0 loaded.1 found decoded in
      let lower = lowers k loaded.1 next (event_id loaded.0) handled in
      let same =
        find_query_written e' written.gone written.row o' written.absent
          (rw written.rows at found') in
      let same_stage : stage' ≡ next =
        cc (same, decoded', reads_back next written.row.stage written.encoded) in
      rw same_stage (omega arith)

  single_body-not_ranked :
      (k : ℕ) (e e' : EventId) (s s' : List (Object J))
      → IsRanked 0 e s
      → single_body env k e s ≢ (s', ok (some e'))
  unfolding single_body
  single_body-not_ranked k e e' s s' ranked h =
      let (t, loaded, l, q) =
        resume_inv env (handle_loaded env k) (load_single_record env e s) s' (some e') h in
      let (found, decoded) = load_inv env e s t loaded.0 loaded.1 l in
      absurd (elim (ranked loaded.0 loaded.1 found decoded) [ ])

  -- The loop ends: if the stage under the event has rank below `n`, then `n` rounds of the loop of
  -- `run_single_stage` are enough, whatever fails in them.
  pub run_single_stage_ends :
      (n k : ℕ) (e : EventId) (s : List (Object J)) (db : Transactional (List (Object J)))
      → IsRanked n e s
      → run_single_stage env db (suc n) k e s ≢ none
  unfolding run_single_stage
  run_single_stage_ends zero k e s db ranked = elim (Bool-cases (env.acquired k)) [
    | inl a ↦
        rw
          (
            a,
            run_single_stage,
            transaction-settled db Failure (Option EventId) (single_body env k e) s,
          )
          (after_stage_ends (run_single_stage env db zero (k + 1)) s (single_body env k e s)
            (λ e' s' h. absurd (single_body-not_ranked k e e' s s' ranked h)))
    | inr a ↦ rw (a, run_single_stage) (λ h. cc)
  ]
  run_single_stage_ends (suc n) k e s db ranked = elim (Bool-cases (env.acquired k)) [
    | inl a ↦
        rw
          (
            a,
            run_single_stage,
            transaction-settled db Failure (Option EventId) (single_body env k e) s,
          )
          (after_stage_ends (run_single_stage env db (suc n) (k + 1)) s (single_body env k e s)
            (λ e' s' h.
              run_single_stage_ends n (k + 1) e' s' db
                (single_body-IsRanked n k e e' s s' ranked h)))
    | inr a ↦ rw (a, run_single_stage) (λ h. cc)
  ]
