-- ===== src/Db/Rtc/Policy.antt =====
-- The trigger keeps to the sharing policy: one RTC in a shared room, one for an agent in an owned
-- one, none in a room that shares nothing.
use conferences.Base.{
  ℕ, ◌+◌, ◌≤◌, ◌≡◌, refl, sym, ap, subst, ◌∙◌, inl, inr, ==→eq, List, [], ◌∷◌, ◌++◌, Option, none,
  some, Bool, false, ◌&&◌, if◌then◌else◌, ◌==◌, filter, length, Bool-cases, arith,
}
use conferences.Db.Rtc.{
  SharingPolicy, none_policy, shared, owned, Object, on_rtc_insert, insert_query,
}

abbrev pub in_room : ℕ → Object → Bool
in_room room o = o.room_id == room

abbrev pub by_agent : ℕ → ℕ → Object → Bool
by_agent room agent o = o.room_id == room && o.created_by == agent

-- The rows of a room follow its policy.
abbrev pub Follows : SharingPolicy → ℕ → List Object → Type 0
Follows none_policy room rows = length (filter (in_room room) rows) ≡ 0
Follows shared room rows = length (filter (in_room room) rows) ≤ 1
Follows owned room rows = (agent : ℕ) → length (filter (by_agent room agent) rows) ≤ 1

length-filter-last :
    (p : Object → Bool) (xs : List Object) (o : Object)
    → length (filter p (xs ++ o ∷ [])) ≡ length (filter p xs) + (if p o then 1 else 0)
length-filter-last p [] o = ground arith
length-filter-last p (x ∷ xs) o = ground (arith, length-filter-last p xs o)

-- A row that a test does not pass is not counted by it.
count_other :
    (policy : Option SharingPolicy) (p : Object → Bool) (o : Object) (rows : List Object)
    → p o ≡ false
    → length (filter p (insert_query policy o rows).0) ≡ length (filter p rows)
unfolding insert_query on_rtc_insert
count_other none p o rows h = refl
count_other (some none_policy) p o rows h = refl
count_other (some shared) p o rows h = ground (arith, length-filter-last p rows o)
count_other (some owned) p o rows h = ground (arith, length-filter-last p rows o)

-- The room of the new row.
insert_query_same :
    (p : SharingPolicy) (o : Object) (rows : List Object)
    → Follows p o.room_id rows
    → Follows p o.room_id (insert_query (some p) o rows).0
unfolding insert_query on_rtc_insert
insert_query_same none_policy o rows f = f
insert_query_same shared o rows f = ground (arith, length-filter-last (in_room o.room_id) rows o)
insert_query_same owned o rows f = λ agent. elim (Bool-cases (o.created_by == agent)) [
  | inl t ↦
      subst (λ a. length (filter (by_agent o.room_id a) (insert_query (some owned) o rows).0) ≤ 1)
        (==→eq o.created_by agent t)
        (ground
          (arith, f o.created_by, length-filter-last (by_agent o.room_id o.created_by) rows o))
  | inr t ↦
      let same = count_other (some owned) (by_agent o.room_id agent) o rows (ground arith) in
      rw same (f agent)
]

-- Any other room.
insert_query_other :
    (policy : Option SharingPolicy) (p : SharingPolicy) (o : Object) (rows : List Object) (room : ℕ)
    → (o.room_id == room) ≡ false
    → Follows p room rows
    → Follows p room (insert_query policy o rows).0
insert_query_other policy none_policy o rows room n f =
    rw (count_other policy (in_room room) o rows n) f
insert_query_other policy shared o rows room n f = rw (count_other policy (in_room room) o rows n) f
insert_query_other policy owned o rows room n f =
    λ agent. rw (count_other policy (by_agent room agent) o rows (ground arith)) (f agent)

-- `insert_query`, under the policies that the rooms have, keeps the rows of every room to the
-- policy of that room: at most one row in a shared room, at most one for each agent in an owned
-- room, none in a room without sharing.
pub insert_query-Follows :
    (policy : ℕ → Option SharingPolicy) (o : Object) (rows : List Object) (room : ℕ)
    (p : SharingPolicy)
    → policy room ≡ some p
    → Follows p room rows
    → Follows p room (insert_query (policy o.room_id) o rows).0
insert_query-Follows policy o rows room p e f = elim (Bool-cases (o.room_id == room)) [
  | inl t ↦
      let q = ==→eq o.room_id room t in
      rw (ap policy q ∙ e) (
        subst (λ r. Follows p r (insert_query (some p) o rows).0) q
          (insert_query_same p o rows (subst (λ r. Follows p r rows) (sym q) f)))
  | inr t ↦ insert_query_other (policy o.room_id) p o rows room t f
]
