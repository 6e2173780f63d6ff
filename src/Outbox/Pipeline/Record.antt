-- ===== src/Outbox/Pipeline/Record.antt =====
-- What one run of a record does to the table, in each of its three outcomes.
use Prim.Native.String.{String}
use text.Mathlib.TextEquality.{eq_iff}
use text.Mathlib.TextPositions.{eq_refl}
use conferences.Base.{
  ℕ, ◌≡◌, ◌≢◌, refl, sym, ◌∙◌, inl, inr, Bool-cases, List, [], ◌∷◌, ◌++◌, Option, none, some, Bool,
  true, false, ok, err, if◌then◌else◌, ==_refl, arith,
}
use conferences.Base.Table.{find, delete_where, update_where}
use conferences.Base.Table.Laws.{
  find-delete_where, find-delete_where_other, find-update_where, find_passes, map_row,
}
use conferences.Outbox.{
  EventId, Object, event_id, has_event, inserted, insert_query, delete_query, update_query, retried,
}
use conferences.Outbox.Backoff.{next_delivery_deadline_at}
use conferences.Outbox.Pipeline.{Env, error, stage_error, handle_record, outcome_arm, failed_arm}

module _ {J : Type 0} where
  pub has_event-event_id : (o : Object J) → has_event (event_id o) o ≡ true
  unfolding has_event event_id
  has_event-event_id o = simp (==_refl, eq_refl)

  find-append :
      (p : Object J → Bool) (xs ys : List (Object J))
      → find p xs ≡ none
      → find p (xs ++ ys) ≡ find p ys
  unfolding find
  find-append p [] ys h = refl
  find-append p (x ∷ xs) ys h = ground (arith, find-append p xs ys)

  -- The three columns name one event.
  pub has_event→eq : (e : EventId) (o : Object J) → has_event e o ≡ true → event_id o ≡ e
  unfolding has_event event_id
  has_event→eq e o h =
      ground (arith, eq_iff o.entity_type e.entity_type, eq_iff o.operation e.operation)

  -- A row of one event is no row of another.
  has_event_other :
      (e f : EventId) (o : Object J) → e ≢ f → has_event e o ≡ true → has_event f o ≡ false
  has_event_other e f o n h = elim (Bool-cases (has_event f o)) [
    | inl t ↦ absurd (n (sym (has_event→eq e o h) ∙ has_event→eq f o t))
    | inr t ↦ t
  ]

  find_only : (p : Object J → Bool) (o : Object J) → p o ≡ true → find p (o ∷ []) ≡ some o
  unfolding find
  find_only p o h = rw h

  -- A new deadline leaves the event of a row.
  has_event-retried :
      (e : EventId) (d : ℕ) (kind : String) (o : Object J)
      → has_event e (retried d kind o) ≡ has_event e o
  unfolding has_event
  has_event-retried e d kind o = refl

  -- The update of one event, seen by another.
  find-update_other :
      (e f : EventId) (d : ℕ) (kind : String) (s : List (Object J))
      → e ≢ f
      → find (has_event e) (update_where (has_event f) (retried d kind) s) ≡ find (has_event e) s
  find-update_other e f d kind s n =
      find-update_where (has_event e) (has_event f) (retried d kind) s (has_event-retried e d kind)
      ∙ kept (find (has_event e) s) refl
    where
      kept :
          (r : Option (Object J))
          → find (has_event e) s ≡ r
          → map_row (λ x. if has_event f x then retried d kind x else x) r ≡ r
      kept none q = refl
      kept (some x) q = rw (has_event_other e f x n (find_passes _ s x q)) refl

  find-append_other :
      (p : Object J → Bool) (xs : List (Object J)) (o : Object J)
      → p o ≡ false
      → find p (xs ++ o ∷ []) ≡ find p xs
  unfolding find
  find-append_other p [] o h = rw h
  find-append_other p (x ∷ xs) o h = ground (arith, find-append_other p xs o)

  not_has_event : (e : EventId) (o : Object J) → event_id o ≢ e → has_event e o ≡ false
  not_has_event e o n = elim (Bool-cases (has_event e o)) [
    | inl t ↦ absurd (n (has_event→eq e o t))
    | inr t ↦ t
  ]

-- The row that the next stage of a record stands in: the deadline and the kind of event are the
-- old row's, and no try is recorded.
abbrev pub next_row : {T J : Type 0} → Env T J → ℕ → Object J → J → Object J
next_row env k o json =
    inserted (env.next_id k) env.now o.entity_type json o.delivery_deadline_at o.operation

module _ {T J : Type 0} (env : Env T J) (k : ℕ) (o : Object J) (stage : T)
    (s : List (Object J)) where
  abbrev row : J → Object J
  row json = next_row env k o json

  handle_record_next :
      (next : T) (json : J)
      → find (has_event (event_id o)) s ≡ some o
      → env.handle k stage (event_id o) ≡ ok (some next)
      → env.encode next ≡ some json
      → find (has_event (event_id (row json))) (delete_where (has_event (event_id o)) s) ≡ none
      → handle_record env k o stage s ≡ (
        delete_where (has_event (event_id o)) s ++ row json ∷ [],
        ok (some (event_id (row json))),
      )
  unfolding handle_record delete_query insert_query
  handle_record_next next json found h enc fresh =
      rw (h, found, delete_query, enc, insert_query, fresh) refl

  -- A record whose handler names a next stage, and whose new event is not in the table, makes place
  -- for it: the run returns the new event, under it the table has the row of the next stage with
  -- the old deadline and no try recorded, the old event is gone, and every third event has the row
  -- that it had.
  pub handle_record_advances :
      (next : T) (json : J) (other : EventId)
      → find (has_event (event_id o)) s ≡ some o
      → env.handle k stage (event_id o) ≡ ok (some next)
      → env.encode next ≡ some json
      → find (has_event (event_id (row json))) s ≡ none
      → event_id (row json) ≢ event_id o
      → other ≢ event_id o
      → other ≢ event_id (row json)
      → let (s', r) = handle_record env k o stage s in
        (r ≡ ok (some (event_id (row json))))
        × (find (has_event (event_id (row json))) s' ≡ some (row json))
        × (find (has_event (event_id o)) s' ≡ none)
        × (find (has_event other) s' ≡ find (has_event other) s)
  handle_record_advances next json other found h enc fresh differ n m =
      let old = has_event (event_id o) in
      let new = has_event (event_id (row json)) in
      let gone = delete_where old s in
      let others = λ (e : EventId) (n : e ≢ event_id o).
        find-delete_where_other (has_event e) old s (λ x. has_event_other e (event_id o) x n) in
      let absent = others (event_id (row json)) differ ∙ fresh in
      rw (handle_record_next next json found h enc absent) (
        refl,
        find-append new gone (row json ∷ []) absent
            ∙ find_only new (row json) (has_event-event_id (row json)),
        find-append_other old gone (row json) (not_has_event (event_id o) (row json) differ)
            ∙ find-delete_where old old s (λ x t. t),
        find-append_other (has_event other) gone (row json)
              (not_has_event other (row json) (λ q. m (sym q)))
            ∙ others other n,
      )

  -- A record whose handler ends is removed, and every other event has the row that it had.
  handle_record_ends :
      (other : EventId)
      → find (has_event (event_id o)) s ≡ some o
      → env.handle k stage (event_id o) ≡ ok none
      → other ≢ event_id o
      → let (s', r) = handle_record env k o stage s in
        (r ≡ ok none)
        × (find (has_event (event_id o)) s' ≡ none)
        × (find (has_event other) s' ≡ find (has_event other) s)
  unfolding handle_record delete_query
  handle_record_ends other found h n =
      rw (h, found, delete_query)
        (
          refl,
          find-delete_where _ _ s (λ x t. t),
          find-delete_where_other _ _ s (λ x. has_event_other other (event_id o) x n),
        )

  -- A record whose handler fails, with a deadline to be had, stays in the table with that deadline,
  -- one more try and the error's kind; the run fails with that kind, and every other event has the
  -- row that it had.
  handle_record_fails :
      (kind : String) (deadline : ℕ) (other : EventId)
      → find (has_event (event_id o)) s ≡ some o
      → env.handle k stage (event_id o) ≡ err kind
      → next_delivery_deadline_at o.retry_count o.delivery_deadline_at env.try_wake_interval
          env.max_delivery_interval
        ≡ some deadline
      → other ≢ event_id o
      → let (s', r) = handle_record env k o stage s in
        (r ≡ err (error (stage_error kind)))
        × (find (has_event (event_id o)) s' ≡ some (retried deadline kind o))
        × (find (has_event other) s' ≡ find (has_event other) s)
  unfolding handle_record update_query
  handle_record_fails kind deadline other found h due n =
      rw (h, outcome_arm, due, failed_arm, found, update_query)
        (
          refl,
          find-update_where _ _ _ s (has_event-retried (event_id o) deadline kind)
              ∙ rw (found, has_event-event_id o) refl,
          find-update_other other (event_id o) deadline kind s n,
        )
