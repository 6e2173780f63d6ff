-- ===== src/Endpoint/RoomUpdate/Endless.antt =====
-- src/app/endpoint/room.rs: a room that is marked infinite and has no closing time keeps none.
use conferences.Base.{
  ℕ, List, [], ◌∷◌, ◌≡◌, refl, sym, ap, subst, ◌∙◌, inl, inr, Option, none, some, Bool, true, false,
  ◌&&◌, Result, ok, err, get_or, Bool-cases, Result-cases, arith,
}
use conferences.Db.Room.{
  Object, Time, SqlError, find_query, closed, set_closed_by, updated, update_query, UpdateQuery,
  write,
}
use conferences.Db.Room.Writes.{write-find, found_id, found_itself, write_ok}
use conferences.Endpoint.Handler.{Env, Response, respond}
use conferences.Endpoint.Helpers.{is_unbounded, not_closed_or_unbounded_open}
use conferences.Endpoint.RoomUpdate.{
  UpdateRequest, new_time, to_query, closes, after_close, after_update, write_update,
  prepare_update, prepare_close, update, close, respond_closed, update_note,
}
use conferences.Endpoint.RoomUpdate.Prepared.{
  find_by_id_given, prepare_update_found, prepare_close_found,
}

-- A room that is marked infinite and whose time has no upper bound.
unfoldable pub is_endless : Object → Bool
unfolding is_unbounded
is_endless o = o.infinite && is_unbounded o.time.end

-- The row that is found under an id is endless.
unfoldable pub HasEndless : ℕ → List Object → Type 0
HasEndless id rows = (o : Object) × (find_query id rows ≡ some o) × (is_endless o ≡ true)

new_time-is_endless :
    (clock : ℕ → ℕ) (o : Object) (t : Option Time) (time : Option Time)
    → is_endless o ≡ true
    → new_time clock o t ≡ ok time
    → is_unbounded (get_or o.time time).end ≡ true
unfolding is_endless new_time is_unbounded
new_time-is_endless clock o none time e h = ground arith
new_time-is_endless clock o (some t) time e h = ground arith

after_close_rooms :
    (response : Response) (x : List Object × Result SqlError Object)
    → (after_close response x).0 ≡ x.0
unfolding after_close
after_close_rooms response (rows, ok p) = refl
after_close_rooms response (rows, err e) = refl

respond_closed_rooms : (x : List Object × Result SqlError Object) → (respond_closed x).0 ≡ x.0
unfolding respond_closed
respond_closed_rooms (rows, ok p) = refl
respond_closed_rooms (rows, err e) = refl

some_inj : {o p : Object} → some o ≡ some p → o ≡ p
some_inj h = cc

-- Closing a row that is not endless keeps the endless ones.
set_closed_by-HasEndless :
    (id agent now j : ℕ) (rows : List Object) (p : Object)
    → find_query id rows ≡ some p
    → is_endless p ≡ false
    → HasEndless j rows
    → HasEndless j (set_closed_by id agent now rows).0
unfolding HasEndless set_closed_by
set_closed_by-HasEndless id agent now j rows p f n (o, h, e) =
    elim (write-find j id (closed agent now) rows o (λ x. refl) h) [
      | inl s ↦ (o, s, e)
      | inr (i, s, w, c) ↦
          let same : some o ≡ some p = sym h ∙ subst (λ n. find_query n rows ≡ some p) (sym i) f in
          let endless : is_endless p ≡ true = subst (λ x. is_endless x ≡ true) (some_inj same) e in
          cc
    ]

infinite-is_endless : (o : Object) → o.infinite ≡ false → is_endless o ≡ false
unfolding is_endless
infinite-is_endless o h = ground (arith, h)

closes-is_endless :
    (clock : ℕ → ℕ) (was_open : Bool) (p : Object)
    → closes clock was_open p.time.end ≡ true
    → is_endless p ≡ false
unfolding closes is_endless is_unbounded
closes-is_endless clock was_open p h = ground arith

after_update-HasEndless :
    (env : Env) (agent : ℕ) (was_open : Bool) (rows : List Object) (res : Result SqlError Object)
    (j : ℕ)
    → ((p : Object) → res ≡ ok p → find_query p.id rows ≡ some p)
    → HasEndless j rows
    → HasEndless j (after_update env agent was_open (rows, res)).0
unfolding after_update
after_update-HasEndless env agent was_open rows (err e) j found h = h
after_update-HasEndless env agent was_open rows (ok p) j found h =
    elim (Bool-cases (closes env.clock was_open p.time.end)) [
      | inl c ↦
          rw
            (
              c,
              after_close_rooms (respond p (update_note p ∷ []))
                  (set_closed_by p.id agent env.db_now rows),
            )
            (set_closed_by-HasEndless p.id agent env.db_now j rows p (found p refl)
              (closes-is_endless env.clock was_open p c) h)
      | inr c ↦ rw (c) h
    ]

updated-is_endless :
    (q : UpdateQuery) (o : Object)
    → is_endless o ≡ true
    → is_unbounded (get_or o.time q.time).end ≡ true
    → is_endless (updated q o) ≡ true
unfolding is_endless updated
updated-is_endless q o e h = ground (arith, e, h)

-- The room that is updated, and that is endless before, is endless after; the others are left.
update_query-HasEndless :
    (env : Env) (agent j : ℕ) (r : UpdateRequest) (rows : List Object) (room : Object)
    (time : Option Time)
    → find_query r.id rows ≡ some room
    → new_time env.clock room r.time ≡ ok time
    → HasEndless j rows
    → HasEndless j (update_query (to_query r time) room.id rows).0
unfolding HasEndless update_query to_query
update_query-HasEndless env agent j r rows room time f t (o, h, e) =
    elim (write-find j room.id (updated (to_query r time)) rows o (λ x. refl) h) [
      | inl s ↦ (o, s, e)
      | inr (i, s, w, c) ↦
          let same : o ≡ room = some_inj (
            sym h
            ∙ subst (λ n. find_query n rows ≡ some room) (sym (i ∙ found_id r.id rows room f)) f) in
          (
            _,
            s,
            updated-is_endless (to_query r time) o e (
                subst (λ x. is_unbounded (get_or x.time time).end ≡ true) (sym same)
                  (new_time-is_endless env.clock room r.time time
                    (subst (λ x. is_endless x ≡ true) same e) t)),
          )
    ]

update_query_found :
    (q : UpdateQuery) (id : ℕ) (rows : List Object) (p : Object)
    → (update_query q id rows).1 ≡ ok p
    → find_query p.id (update_query q id rows).0 ≡ some p
unfolding update_query
update_query_found q id rows p h =
    let (o, f, same, found, c) =
      write_ok id (updated q) rows (write id (updated q) rows).0 p (λ x. refl)
        (ap (λ x. ((write id (updated q) rows).0, x)) h) in
    subst (λ n. find_query n (update_query q id rows).0 ≡ some p) (sym (found_id id _ p found))
      found

-- Whatever the request, the agent and the clocks: `update` leaves a room that is marked infinite and
-- has no closing time marked infinite and without a closing time, whichever room it updates.
pub update-HasEndless :
    (env : Env) (agent : ℕ) (r : UpdateRequest) (rows : List Object) (id : ℕ)
    → HasEndless id rows
    → HasEndless id (update env agent r rows).0
unfolding update
update-HasEndless env agent r rows id h = elim (Result-cases (prepare_update env agent r rows)) [
  | inr (e, s) ↦ rw (write_update, s) h
  | inl ((room, time), s) ↦
      let (f, t) = prepare_update_found env agent r rows room time s in
      let q = to_query r time in
      rw (s) (
        after_update-HasEndless env agent _ _ (update_query q room.id rows).1 id
          (update_query_found q room.id rows)
          (update_query-HasEndless env agent id r rows room time
            (find_by_id_given _ _ _ rows room f) t h))
]

-- Whatever the room that is to be closed, the agent and the clocks: `close` leaves a room that is
-- marked infinite and has no closing time marked infinite and without a closing time.
close-HasEndless :
    (env : Env) (agent target : ℕ) (rows : List Object) (id : ℕ)
    → HasEndless id rows
    → HasEndless id (close env agent target rows).0
unfolding close
close-HasEndless env agent target rows id h =
    elim (Result-cases (prepare_close env agent target rows)) [
      | inr (e, s) ↦ rw (close, s) h
      | inl (room, s) ↦
          let (f, n) = prepare_close_found env agent target rows room s in
          rw (close, s, respond_closed_rooms (set_closed_by room.id agent env.db_now rows))
            (set_closed_by-HasEndless room.id agent env.db_now id rows room
              (found_itself target rows room
                (find_by_id_given target not_closed_or_unbounded_open (env.clock 0) rows room f))
              (infinite-is_endless room n) h)
    ]
