-- ===== src/Endpoint/Subscription/Left.antt =====
-- Where an agent is after the broker has told that his subscription ended.
use Prim.Native.String.{String}
use conferences.Base.{
  ℕ, ◌≡◌, refl, sym, ap, ◌∙◌, Bool, false, ◌==◌, if◌then◌else◌, inl, inr, List, [], ◌∷◌, Option,
  none, some, true, filter, ok, err, Result-cases, Bool-cases, Option-cases, ==_refl, ==→eq, arith,
}
use conferences.Base.Table.{find, delete_where}
use conferences.Base.Table.Laws.{find-upsert, find_passes}
use conferences.AppError.{agent_not_entered_the_room}
use conferences.Db.Agent
use conferences.Db.AgentConnection.{delete_agents, delete_agent_query}
use conferences.Db.OrphanedRoom
use conferences.Db.Room
use conferences.Endpoint.Handler.{Env}
use conferences.Endpoint.Helpers.{present, check_room_presence}
use conferences.Endpoint.Subscription.{
  Tables, RoomEnterLeaveEvent, host_of, make_orphaned_if_host_left, leave_room, room_of,
  delete_response,
}

-- Nothing is left of the rows that a test deletes, by a narrower one.
filter-delete_where :
    {A : Type 0} (q p : A → Bool) (xs : List A)
    → ((x : A) → q x ≡ true → p x ≡ true)
    → filter q (delete_where p xs) ≡ []
unfolding delete_where
filter-delete_where q p [] h = refl
filter-delete_where q p (x ∷ xs) h = ground (arith, h x, filter-delete_where q p xs h)

-- A row that a list of a room shows is one of the agent.
listed_deleted :
    (room_id agent_id : ℕ) (o : Agent.Object)
    → Agent.is_listed (present room_id agent_id) o ≡ true
    → Agent.is_deleted (some agent_id) none o ≡ true
unfolding Agent.is_listed Agent.is_deleted
listed_deleted room_id agent_id o h = ground (arith, h)

none_listed :
    (room_id agent_id : ℕ) (agents : List Agent.Object)
    → Agent.list_query
        (present room_id agent_id)
        (delete_where (Agent.is_deleted (some agent_id) none) agents)
      ≡ []
unfolding Agent.list_query Agent.order_by_time_desc
none_listed room_id agent_id agents =
    let left =
      filter-delete_where (Agent.is_listed (present room_id agent_id))
        (Agent.is_deleted (some agent_id) none) agents (listed_deleted room_id agent_id) in
    rw (Agent.list_query, left) refl

-- Without his rows an agent is in no room.
absent :
    (room : Room.Object) (agent_id : ℕ) (agents : List Agent.Object)
    → check_room_presence room agent_id
        (delete_where (Agent.is_deleted (some agent_id) none) agents)
      ≡ err agent_not_entered_the_room
unfolding check_room_presence
absent room agent_id agents = rw (check_room_presence, none_listed room.id agent_id agents) refl

-- Whether or not he had rows, they are gone.
leave_room_agents :
    (env : Env) (agent_id room_id : ℕ) (t : Tables)
    → (leave_room env agent_id room_id t).0.agents.agents
      ≡ delete_where (Agent.is_deleted (some agent_id) none) t.agents.agents
unfolding leave_room delete_agent_query delete_agents
leave_room_agents env agent_id room_id t = ground arith

-- Whether an agent is the host of a room that may be missing.
abbrev pub is_host : Option Room.Object → ℕ → Bool
unfolding host_of
is_host r agent_id = elim (host_of r) [ none ↦ false | some h ↦ h == agent_id ]

orphaned-is_host :
    (room_id agent_left now : ℕ) (rooms : List Room.Object) (orphans : List OrphanedRoom.Object)
    → make_orphaned_if_host_left room_id agent_left now rooms orphans ≡ (
        if is_host (Room.find_query room_id rooms) agent_left
        then OrphanedRoom.upsert_room room_id now orphans
        else orphans)
unfolding make_orphaned_if_host_left
orphaned-is_host room_id agent_left now rooms orphans =
    elim (Option-cases (host_of (Room.find_query room_id rooms))) [
      | inl n ↦ rw (make_orphaned_if_host_left, is_host, n) refl
      | inr (h, s) ↦ rw (make_orphaned_if_host_left, is_host, s) refl
    ]

-- The room of the host who had rows becomes orphaned, and no other.
leave_room_orphans :
    (env : Env) (agent_id room_id : ℕ) (t : Tables)
    → (leave_room env agent_id room_id t).1 ≡ true
    → (leave_room env agent_id room_id t).0.orphans ≡ (
        if is_host (Room.find_query room_id t.rooms) agent_id
        then OrphanedRoom.upsert_room room_id (env.clock 0) t.orphans
        else t.orphans)
unfolding leave_room
leave_room_orphans env agent_id room_id t left =
    ground (arith, left, orphaned-is_host room_id agent_id (env.clock 0) t.rooms t.orphans)

-- A response that is accepted is that of an agent who had rows.
delete_response_ok :
    (env : Env) (parse : String → Option ℕ) (broker_id sender subject : ℕ) (object : List String)
    (t u : Tables) (e : RoomEnterLeaveEvent)
    → delete_response env parse broker_id sender subject object t ≡ (u, ok e)
    → ((leave_room env subject e.id t).0 ≡ u) × ((leave_room env subject e.id t).1 ≡ true)
unfolding delete_response
delete_response_ok env parse broker_id sender subject object t u e h =
    elim (Result-cases (room_of parse broker_id sender object)) [
      | inr (x, p) ↦ ground (arith, h, p)
      | inl (room_id, p) ↦ elim (Bool-cases (leave_room env subject room_id t).1) [
        | inl y ↦ ground (arith, h, p, y)
        | inr n ↦ ground (arith, h, p, n)
      ]
    ]

-- An upsert is read back, with the new time.
find-upsert_room :
    (id now : ℕ) (rows : List OrphanedRoom.Object)
    → find (OrphanedRoom.has_id id) (OrphanedRoom.upsert_room id now rows)
      ≡ some (record { id = id; host_left_at = now })
unfolding OrphanedRoom.upsert_room
find-upsert_room id now rows =
    let written =
      find-upsert (OrphanedRoom.has_id id) (λ o. record o { host_left_at = now })
        (record { id = id; host_left_at = now }) rows (==_refl id) (λ x. refl) in
    elim (Option-cases (find (OrphanedRoom.has_id id) rows)) [
      | inl n ↦ rw (written, n) refl
      | inr (o, k) ↦
          let same = ==→eq o.id id (find_passes (OrphanedRoom.has_id id) rows o k) in
          rw (written, k, same) refl
    ]

find_if :
    (p : OrphanedRoom.Object → Bool) (b : Bool) (xs ys : List OrphanedRoom.Object)
    (o : OrphanedRoom.Object)
    → find p xs ≡ some o
    → find p (if b then xs else ys) ≡ (if b then some o else find p ys)
find_if p true xs ys o h = h
find_if p false xs ys o h = refl

-- Once an agent has left a room he is in no room at all, whoever is its host. The room is orphaned from now
-- on if he is its host, and otherwise stays as it was, orphaned or not.
pub delete_response_leaves :
    (env : Env) (parse : String → Option ℕ) (broker_id sender subject : ℕ) (object : List String)
    (t u : Tables) (e : RoomEnterLeaveEvent) (any_room : Room.Object)
    → delete_response env parse broker_id sender subject object t ≡ (u, ok e)
    → (check_room_presence any_room subject u.agents.agents ≡ err agent_not_entered_the_room)
      × (find (OrphanedRoom.has_id e.id) u.orphans ≡ (
          if is_host (Room.find_query e.id t.rooms) subject
          then some (record { id = e.id; host_left_at = env.clock 0 })
          else find (OrphanedRoom.has_id e.id) t.orphans))
delete_response_leaves env parse broker_id sender subject object t u e any_room h =
    let (same, left) = delete_response_ok env parse broker_id sender subject object t u e h in
    let agents : u.agents.agents
        ≡ delete_where (Agent.is_deleted (some subject) none) t.agents.agents =
      rw (sym same) (leave_room_agents env subject e.id t) in
    let orphans =
      ap (λ (x : Tables). x.orphans) (sym same) ∙ leave_room_orphans env subject e.id t left in
    (
      rw agents (absent any_room subject t.agents.agents),
      rw orphans (
          find_if (OrphanedRoom.has_id e.id) (is_host (Room.find_query e.id t.rooms) subject) _
            t.orphans _ (find-upsert_room e.id (env.clock 0) t.orphans)),
    )
