-- ===== src/Db/AgentConnection/Links.antt =====
-- Every connection belongs to an agent of the table, whatever is done to the two tables; and what
-- the repeated entering and connecting of an agent does to its rows.
use conferences.Base.{
  ℕ, ◌≡◌, inl, inr, List, [], ◌∷◌, Option, none, some, Bool, true, false, ◌&&◌, ◌==◌, any, All,
  Bool-cases, arith,
}
use conferences.Base.Table.{find, update_where, delete_where, upsert}
use conferences.Base.Table.Laws.{find-upsert_old, find-delete_where_kept}
use conferences.Db.Agent
use conferences.Db.AgentConnection.{
  Object, Tables, Status, connected, has_agent, has_key, has_handle, replace, upserted, set_status,
  upsert_query, update_query, delete_connections, delete_agents, cleanup_not_connected_query,
  is_not_connected,
}

-- One statement on the tables: the queries of agents and of connections.
pub data Step : Tables → Tables → Type 0 where
  agent_inserted :
      (id now agent_id room_id : ℕ) (t : Tables)
      → Step t (record t { agents = Agent.insert_query id now agent_id room_id t.agents })
  agent_updated :
      (agent_id room_id : ℕ) (s : Option Agent.Status) (t : Tables)
      → Step t (record t { agents = (Agent.update_query agent_id room_id s t.agents).0 })
  agents_deleted : (p : Agent.Object → Bool) (t : Tables) → Step t (delete_agents p t).0
  connection_upserted :
      (agent_id rtc_id handle_id created_at : ℕ) (t : Tables)
      → Step t (upsert_query agent_id rtc_id handle_id created_at t).0
  connection_updated :
      (handle_id : ℕ) (s : Status) (t : Tables) → Step t (update_query handle_id s t).0
  connections_deleted : (p : Object → Bool) (t : Tables) → Step t (delete_connections p t).0

-- Any number of statements, from empty tables on.
pub data Reachable : Tables → Type 0 where
  start : Reachable (record { agents = []; connections = [] })
  next : {t u : Tables} → Reachable t → Step t u → Reachable u

abbrev pub HasAgent : List Agent.Object → Object → Type 0
HasAgent agents c = any (has_agent c.agent_id) agents ≡ true

-- The agent of every connection is in the table.
pub IsLinked : Tables → Type 0
IsLinked t = All (HasAgent t.agents) t.connections

All-map :
    (P Q : Object → Type 0) (xs : List Object) → ((c : Object) → P c → Q c) → All P xs → All Q xs
All-map P Q [] f h = tt
All-map P Q (x ∷ xs) f h = (f x h.0, All-map P Q xs f h.1)

All-delete_where :
    (P Q : Object → Type 0) (p : Object → Bool) (xs : List Object)
    → ((c : Object) → P c → p c ≡ false → Q c)
    → All P xs
    → All Q (delete_where p xs)
unfolding delete_where
All-delete_where P Q p [] f h = tt
All-delete_where P Q p (x ∷ xs) f h = elim (Bool-cases (p x)) [
  | inl t ↦ rw t (All-delete_where P Q p xs f h.1)
  | inr t ↦ rw t (f x h.0 t, All-delete_where P Q p xs f h.1)
]

All-update_where :
    (P : Object → Type 0) (p : Object → Bool) (f : Object → Object) (xs : List Object)
    → ((c : Object) → P c → P (f c))
    → All P xs
    → All P (update_where p f xs)
unfolding update_where
All-update_where P p f [] k h = tt
All-update_where P p f (x ∷ xs) k h = elim (Bool-cases (p x)) [
  | inl t ↦ rw t (k x h.0, All-update_where P p f xs k h.1)
  | inr t ↦ rw t (h.0, All-update_where P p f xs k h.1)
]

All-upsert :
    (P : Object → Type 0) (p : Object → Bool) (f : Object → Object) (a : Object) (xs : List Object)
    → P a
    → ((c : Object) → P c → P (f c))
    → All P xs
    → All P (upsert p f a xs)
unfolding upsert
All-upsert P p f a [] ha k h = (ha, tt)
All-upsert P p f a (x ∷ xs) ha k h = elim (Bool-cases (p x)) [
  | inl t ↦ rw t (k x h.0, h.1)
  | inr t ↦ rw t (h.0, All-upsert P p f a xs ha k h.1)
]

-- An agent's id is there after the statements on agents that keep the ids.
any-insert_query :
    (i id now agent_id room_id : ℕ) (rows : List Agent.Object)
    → any (has_agent i) rows ≡ true
    → any (has_agent i) (Agent.insert_query id now agent_id room_id rows) ≡ true
unfolding Agent.insert_query upsert
any-insert_query i id now agent_id room_id [] h = cc
any-insert_query i id now agent_id room_id (x ∷ xs) h =
    ground (arith, h, any-insert_query i id now agent_id room_id xs)

any-update_where :
    (i : ℕ) (p : Agent.Object → Bool) (s : Agent.Status) (rows : List Agent.Object)
    → any (has_agent i) rows ≡ true
    → any (has_agent i) (update_where p (Agent.set_status s) rows) ≡ true
unfolding update_where
any-update_where i p s [] h = h
any-update_where i p s (x ∷ xs) h = ground (arith, h, any-update_where i p s xs)

any-update_query :
    (i agent_id room_id : ℕ) (s : Option Agent.Status) (rows : List Agent.Object)
    → any (has_agent i) rows ≡ true
    → any (has_agent i) (Agent.update_query agent_id room_id s rows).0 ≡ true
unfolding Agent.update_query
any-update_query i agent_id room_id none rows h = ground (arith, h)
any-update_query i agent_id room_id (some s) rows h =
    any-update_where i (Agent.has_key agent_id room_id) s rows h

any-delete_where :
    (i : ℕ) (p : Agent.Object → Bool) (rows : List Agent.Object)
    → any (has_agent i) rows ≡ true
    → any (λ a. a.id == i && p a) rows ≡ false
    → any (has_agent i) (delete_where p rows) ≡ true
unfolding delete_where
any-delete_where i p [] h n = h
any-delete_where i p (x ∷ xs) h n = ground (arith, h, n, any-delete_where i p xs)

-- Each statement keeps every connection linked.
Step-IsLinked : (t u : Tables) → Step t u → IsLinked t → IsLinked u
unfolding IsLinked delete_agents upsert_query upserted update_query delete_connections
Step-IsLinked _ _ (agent_inserted id now a r t) h =
    All-map _ _ t.connections (λ c. any-insert_query c.agent_id id now a r t.agents) h
Step-IsLinked _ _ (agent_updated a r s t) h =
    All-map _ _ t.connections (λ c. any-update_query c.agent_id a r s t.agents) h
Step-IsLinked _ _ (agents_deleted p t) h =
    All-delete_where (HasAgent t.agents) (HasAgent (delete_where p t.agents)) _ t.connections
      (λ c. any-delete_where c.agent_id p t.agents) h
Step-IsLinked _ _ (connection_upserted a r n at t) h =
    elim (Bool-cases (any (has_agent a) t.agents)) [
      | inl e ↦ rw e (
          All-upsert (HasAgent t.agents) _ (replace (upserted a r n at)) (upserted a r n at)
            t.connections e (λ c k. e) h)
      | inr e ↦ rw e h
    ]
Step-IsLinked _ _ (connection_updated n s t) h =
    All-update_where (HasAgent t.agents) (has_handle n) (set_status s) t.connections (λ c k. k) h
Step-IsLinked _ _ (connections_deleted p t) h =
    All-delete_where (HasAgent t.agents) (HasAgent t.agents) p t.connections (λ c k e. k) h

-- Whatever statements are run, in whatever order, from empty tables on: the agent of every connection
-- is in the table of agents.
pub Reachable-IsLinked : (t : Tables) → Reachable t → IsLinked t
unfolding IsLinked
Reachable-IsLinked _ start = tt
Reachable-IsLinked _ (next r s) = Step-IsLinked _ _ s (Reachable-IsLinked _ r)

key_itself :
    (agent_id rtc_id handle_id created_at : ℕ) (c : Object)
    → has_key agent_id rtc_id (replace (upserted agent_id rtc_id handle_id created_at) c) ≡ true
unfolding upserted
key_itself agent_id rtc_id handle_id created_at c = ground arith

-- Connecting again over a connected row gives it the new handle and keeps it connected: a cleanup of
-- connections that never connected leaves it, whatever its time, though the new handle has not
-- connected yet.
upsert_query_connected :
    (agent_id rtc_id handle_id created_at before : ℕ) (t : Tables) (old : Object)
    → any (has_agent agent_id) t.agents ≡ true
    → find (has_key agent_id rtc_id) t.connections ≡ some old
    → old.status ≡ connected
    → let c = replace (upserted agent_id rtc_id handle_id created_at) old in
      let u = (upsert_query agent_id rtc_id handle_id created_at t).0 in
      (find (has_key agent_id rtc_id) u.connections ≡ some c)
      × (find (has_key agent_id rtc_id) (cleanup_not_connected_query before u).0.connections
          ≡ some c)
unfolding upsert_query cleanup_not_connected_query delete_connections is_not_connected
upsert_query_connected agent_id rtc_id handle_id created_at before t old present f s =
    let n = upserted agent_id rtc_id handle_id created_at in
    let key = has_key agent_id rtc_id in
    let found : find key (upsert key (replace n) n t.connections) ≡ some (replace n old) =
      find-upsert_old key (replace n) n t.connections old
        (λ x. key_itself agent_id rtc_id handle_id created_at x) f in
    rw present (
      found,
      find-delete_where_kept key (is_not_connected before) _ (replace n old) found
          (ground (arith, s)),
    )
