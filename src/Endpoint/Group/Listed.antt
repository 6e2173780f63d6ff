-- ===== src/Endpoint/Group/Listed.antt =====
-- The groups that are listed after a change of the groups.
use conferences.Base.{
  ℕ, ◌≡◌, refl, sym, subst, ap, ◌∙◌, inl, inr, List, length, some, Bool, false, ◌==◌, ==_refl, ok,
  ok_or, bind_ok, ok_eq, Result-cases, Option-cases, arith,
}
use conferences.Base.Table.{find}
use conferences.Base.Table.Laws.{row_or, find-upsert}
use conferences.AppError.{backend_not_found, db_query_failed, invalid_payload}
use conferences.Groups.{Groups}
use conferences.Groups
use conferences.Outbox.{EventId}
use conferences.Outbox
use conferences.Outbox.Pipeline.{Transactional}
use conferences.Outbox.Pipeline
use conferences.Stage.{AppStage, VideoGroupEvent}
use conferences.Db.Room
use conferences.Db.Room.Writes.{found_id}
use conferences.Db.Rtc.{is_owned}
use conferences.Endpoint.Handler.{classroom, read_action, update_action, Env, authorized, require}
use conferences.Endpoint.Helpers.{not_closed, find_room_by_id}
use conferences.Endpoint.Helpers.Requirements.{find_room_given}
use conferences.Endpoint.Group.{
  Tables, Ids, event_of, insert_stage, write_groups, change_groups, run_pipeline, prepare_update,
  update, list,
}

-- The groups that are written are found.
pub upserted_groups :
    (id room_id : ℕ) (groups : Groups) (rows : List Groups.Object)
    → (o : Groups.Object) × (Groups.find_query (Groups.upsert_query id room_id groups rows) room_id
        ≡ some o)
      × (o.groups ≡ groups)
unfolding Groups.find_query Groups.upsert_query
upserted_groups id room_id groups rows =
    let f : Groups.Object → Groups.Object = λ o. record o { groups = groups } in
    let n : Groups.Object = record { id = id; room_id = room_id; groups = groups } in
    let p : Groups.Object → Bool = λ o. o.room_id == room_id in
    (
      row_or n f (find p rows),
      find-upsert p f n rows (==_refl room_id) (λ x. refl),
      elim (Option-cases (find p rows)) [ inl e ↦ rw e refl | inr (o, e) ↦ rw e refl ],
    )

module _ {J : Type 0} (penv : Pipeline.Env AppStage J) where
  pub write_groups_ok :
      (ids : Ids) (room : Room.Object) (backend_id : ℕ) (event : VideoGroupEvent) (groups : Groups)
      (t : Tables J) (w : Tables J × EventId)
      → write_groups penv ids room backend_id event groups t ≡ ok w
      → (w.0.rooms ≡ t.rooms)
        × (w.0.groups ≡ Groups.upsert_query ids.group_id room.id groups t.groups)
  unfolding write_groups
  write_groups_ok ids room backend_id event groups t w h =
      let (a, e, h1) = bind_ok (insert_stage penv ids.event_id _ _ t.outbox) _ w h in
      let same = sym (ok_eq h1) in (ap (λ y. y.0.rooms) same, ap (λ y. y.0.groups) same)

  change_groups_ok :
      (env : Env) (ids : Ids) (room : Room.Object) (backend_id : ℕ) (groups : Groups) (t : Tables J)
      (w : Tables J × EventId)
      → change_groups penv env ids room backend_id groups t ≡ ok w
      → (w.0.rooms ≡ t.rooms)
        × (w.0.groups ≡ Groups.upsert_query ids.group_id room.id groups t.groups)
  unfolding change_groups
  change_groups_ok env ids room backend_id groups t w h =
      let (g, e, h1) = bind_ok (ok_or (Groups.find_query t.groups room.id) db_query_failed) _ w h in
      write_groups_ok ids room backend_id (event_of (length g.groups) (length groups) (env.clock 1))
        groups t w h1

  prepare_update_id :
      (env : Env) (agent_id room_id : ℕ) (t : Tables J) (r : Room.Object × ℕ)
      → prepare_update penv env agent_id room_id t ≡ ok r
      → r.0.id ≡ room_id
  unfolding prepare_update
  prepare_update_id env agent_id room_id t r h =
      let (q, e1, h1) = bind_ok (find_room_by_id room_id not_closed (env.clock 0) t.rooms) _ r h in
      let (u2, e2, h2) =
        bind_ok (authorized env agent_id q.audience (classroom q.classroom_id) update_action) _ r
          h1 in
      let (u3, e3, h3) = bind_ok (require (is_owned q.rtc_sharing_policy) invalid_payload) _ r h2 in
      let (b, e4, h4) = bind_ok (ok_or q.backend_id backend_not_found) _ r h3 in
      let found = find_room_given (Room.find_query room_id t.rooms) not_closed (env.clock 0) q e1 in
      ap (λ y. y.0.id) (sym (ok_eq h4)) ∙ found_id room_id t.rooms q found

  list_ok :
      (env : Env) (agent_id room_id : ℕ) (t u : Tables J) (o : Groups.Object) (old : Groups)
      → u.rooms ≡ t.rooms
      → Groups.find_query u.groups room_id ≡ some o
      → list penv env agent_id room_id false t ≡ ok old
      → list penv env agent_id room_id false u ≡ ok o.groups
  unfolding list
  list_ok env agent_id room_id t u o old same found h =
      let (q, e1, h1) =
        bind_ok (find_room_by_id room_id not_closed (env.clock 0) t.rooms) _ old h in
      let (u2, e2, h2) =
        bind_ok (authorized env agent_id q.audience (classroom q.classroom_id) read_action) _ old
          h1 in
      let (u3, e3, h3) =
        bind_ok (require (is_owned q.rtc_sharing_policy) invalid_payload) _ old h2 in
      rw (list, same, e1, e2, e3, found) refl

  listed_after :
      (db : Transactional (List (Outbox.Object J))) (later : Env) (ids : Ids) (other room_id : ℕ)
      (groups old : Groups) (t u : Tables J) (room : Room.Object) (w : Tables J × EventId)
      → room.id ≡ room_id
      → (w.0.rooms ≡ t.rooms)
        × (w.0.groups ≡ Groups.upsert_query ids.group_id room.id groups t.groups)
      → run_pipeline penv db w.1 w.0 ≡ u
      → list penv later other room_id false t ≡ ok old
      → list penv later other room_id false u ≡ ok groups
  unfolding run_pipeline
  listed_after db later ids other room_id groups old t u room w id (rooms, rows) made l =
      let (o, found, same) = upserted_groups ids.group_id room_id groups t.groups in
      let written : w.0.groups ≡ Groups.upsert_query ids.group_id room_id groups t.groups =
        subst (λ n. w.0.groups ≡ Groups.upsert_query ids.group_id n groups t.groups) id rows in
      let stored : u.groups ≡ Groups.upsert_query ids.group_id room_id groups t.groups =
        ap Tables.groups (sym made) ∙ written in
      list_ok later other room_id t u o old (ap Tables.rooms (sym made) ∙ rooms)
        (subst (λ g. Groups.find_query g room_id ≡ some o) (sym stored) found) l
      ∙ ap ok same

  -- Once the groups of a room are changed, whoever could list them before gets the new ones.
  pub list-update :
      (db : Transactional (List (Outbox.Object J))) (env later : Env) (ids : Ids)
      (agent_id other room_id : ℕ) (groups old : Groups) (t u : Tables J) (x : Unit {0})
      → update penv db env ids agent_id room_id groups t ≡ (u, ok x)
      → list penv later other room_id false t ≡ ok old
      → list penv later other room_id false u ≡ ok groups
  unfolding update
  list-update db env later ids agent_id other room_id groups old t u x h l =
      elim (Result-cases (prepare_update penv env agent_id room_id t)) [
        | inr (e, p) ↦ ground (arith, h, p)
        | inl (r, p) ↦ elim (Result-cases (change_groups penv env ids r.0 r.1 groups t)) [
          | inr (e, c) ↦ ground (arith, h, p, c)
          | inl (w, c) ↦
              let made : run_pipeline penv db w.1 w.0 ≡ u = ground (arith, h, p, c) in
              listed_after db later ids other room_id groups old t u r.0 w
                (prepare_update_id env agent_id room_id t r p)
                (change_groups_ok env ids r.0 r.1 groups t w c) made l
        ]
      ]
