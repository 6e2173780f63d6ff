-- ===== src/Endpoint/RoomEnter/Member.antt =====
-- Who is in the groups of a room after an agent has entered it.
use mathlib.Core.List.{Perm}
use conferences.Base.{
  ℕ, ◌≡◌, refl, sym, subst, ap, ◌∙◌, inl, inr, List, length, Option, some, Bool, true, false, ◌||◌,
  ◌&&◌, ◌==◌, ==→eq, ltb, ok, ◌>>=◌, ok_or, ok_or-some, bind_ok, ok_eq, Bool-cases, arith,
}
use conferences.Base.Table.{find}
use conferences.AppError.{backend_not_found, db_query_failed}
use conferences.Groups.{GroupItem, Groups, is_agent_exist, add_to_default_group}
use conferences.Groups
use conferences.Groups.Default.{HasUniqueNumbers, is_some, add_to_default_group-exists}
use conferences.Outbox.{EventId}
use conferences.Outbox.Pipeline
use conferences.Stage.{AppStage, updated}
use conferences.Db.Room
use conferences.Endpoint.Group.{Ids, write_groups}
use conferences.Endpoint.Group.Listed.{upserted_groups, write_groups_ok}
use conferences.Endpoint.Group
use conferences.Endpoint.Handler.{Env}
use conferences.Endpoint.RoomEnter.{join_changed, join_groups}

or_false : (x y : Bool) → y ≡ false → x ≡ (x || y)
or_false true y h = refl
or_false false y h = sym h

exists_already :
    (groups : Groups) (a b : ℕ) (d : Bool)
    → is_agent_exist groups a ≡ true
    → is_agent_exist groups b ≡ is_agent_exist groups b || (a == b && d)
exists_already groups a b d h = elim (Bool-cases (a == b)) [
  | inl t ↦
      let e : is_agent_exist groups b ≡ true =
        subst (λ c. is_agent_exist groups c ≡ true) (==→eq a b t) h in
      rw (e) refl
  | inr t ↦ or_false (is_agent_exist groups b) (a == b && d) (rw t refl)
]

module _ {J : Type 0} (penv : Pipeline.Env AppStage J)
    (shuffle : List GroupItem → List GroupItem) where
  -- The changed groups are stored, with an event or without one.
  changed_stored :
      (env : Env) (ids : Ids) (agent_id : ℕ) (room : Room.Object) (len : ℕ) (changed : Groups)
      (t u : Group.Tables J) (e : Option EventId)
      → join_changed penv shuffle env ids agent_id room len false changed t ≡ ok (u, e)
      → u.groups ≡ Groups.upsert_query ids.group_id room.id changed t.groups
  unfolding join_changed
  changed_stored env ids agent_id room len changed t u e h = elim (Bool-cases (ltb 1 len)) [
    | inr f ↦ ground (arith, h, f)
    | inl f ↦
        let k : (ok_or room.backend_id backend_not_found >>= λ backend_id.
        write_groups penv ids room backend_id (updated (env.clock 1)) changed t >>= λ w.
        ok (w.0, some w.1))
            ≡ ok (u, e) =
          rw f at h in
        let (b, e1, h1) = bind_ok (ok_or room.backend_id backend_not_found) _ (u, e) k in
        let (w, e2, h2) =
          bind_ok (write_groups penv ids room b (updated (env.clock 1)) changed t) _ (u, e) h1 in
        ap (λ y. y.0.groups) (sym (ok_eq h2))
        ∙ (write_groups_ok penv ids room b (updated (env.clock 1)) changed t w e2).1
  ]

  -- The transaction on the groups that it finds.
  joined :
      (env : Env) (ids : Ids) (agent_id : ℕ) (room : Room.Object) (g : Groups.Object)
      (t u : Group.Tables J) (e : Option EventId)
      → Groups.find_query t.groups room.id ≡ some g
      → join_groups penv shuffle env ids agent_id room t ≡ ok (u, e)
      → join_changed penv shuffle env ids agent_id room
          (length g.groups)
          (is_agent_exist g.groups agent_id)
          (add_to_default_group shuffle g.groups agent_id)
          t
        ≡ ok (u, e)
  unfolding join_groups
  joined env ids agent_id room g t u e f h =
      let (k, e1, h1) =
        bind_ok (ok_or (Groups.find_query t.groups room.id) db_query_failed) _ (u, e) h in
      let same : k ≡ g =
        ground (arith, ok_or-some (Groups.find_query t.groups room.id) db_query_failed k e1, f) in
      subst
        (λ y.
          join_changed penv shuffle env ids agent_id room (length y.groups)
            (is_agent_exist y.groups agent_id) (add_to_default_group shuffle y.groups agent_id) t
          ≡ ok (u, e))
        same h1

  kept :
      (env : Env) (ids : Ids) (agent_id : ℕ) (room : Room.Object) (len : ℕ) (changed : Groups)
      (t u : Group.Tables J) (e : Option EventId)
      → join_changed penv shuffle env ids agent_id room len true changed t ≡ ok (u, e)
      → u.groups ≡ t.groups
  unfolding join_changed
  kept env ids agent_id room len changed t u e h = ap (λ y. y.0.groups) (sym (ok_eq h))

  -- Entering takes nobody out of the groups, and adds the agent if there is a default group: after the
  -- transaction exactly those are in a group who were in one, and the agent if there is a group 0. If there
  -- is none, an agent who was in no group is in none afterwards. The groups have different numbers, and are
  -- read in any order.
  pub is_agent_exist-join_groups :
      (env : Env) (ids : Ids) (agent_id b : ℕ) (room : Room.Object) (g : Groups.Object)
      (t u : Group.Tables J) (e : Option EventId)
      → ((xs : Groups) → Perm (shuffle xs) xs)
      → Groups.find_query t.groups room.id ≡ some g
      → HasUniqueNumbers g.groups
      → join_groups penv shuffle env ids agent_id room t ≡ ok (u, e)
      → (o : Groups.Object) × (Groups.find_query u.groups room.id ≡ some o)
        × (is_agent_exist o.groups b
            ≡ is_agent_exist g.groups b
              || (agent_id == b && is_some (find (λ i. i.number == 0) g.groups)))
  is_agent_exist-join_groups env ids agent_id b room g t u e p f q h =
      let changed = add_to_default_group shuffle g.groups agent_id in
      let made = joined env ids agent_id room g t u e f h in
      elim (Bool-cases (is_agent_exist g.groups agent_id)) [
        | inl x ↦
            let same = kept env ids agent_id room (length g.groups) changed t u e (rw x at made) in
            (
              g,
              rw same f,
              exists_already g.groups agent_id b (is_some (find (λ i. i.number == 0) g.groups)) x,
            )
        | inr x ↦
            let stored =
              changed_stored env ids agent_id room (length g.groups) changed t u e (rw x at made) in
            let (o, found, same) = upserted_groups ids.group_id room.id changed t.groups in
            (
              o,
              rw stored found,
              ap (λ gs. is_agent_exist gs b) same
                  ∙ add_to_default_group-exists shuffle g.groups agent_id b p q,
            )
      ]
