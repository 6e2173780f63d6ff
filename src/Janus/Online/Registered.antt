-- ===== src/Janus/Online/Registered.antt =====
-- A backend that is online has a row and a client.
use Prim.Native.String.{String}
use conferences.Base.{
  ℕ, ◌≡◌, refl, sym, ap, subst, ◌∙◌, List, Option, none, some, Bool, true, ◌==◌, Bool-cases,
  Option-cases, Result-cases, inl, inr, ok, same_text, same_text_refl, ==_refl, get_or, arith,
}
use conferences.Base.Table.{find}
use conferences.Base.Table.Laws.{find-upsert}
use conferences.Db.JanusBackend.{
  Object, UpsertQuery, has_id, find_query, upsert_query, updated, inserted,
}
use conferences.Janus.Online.{
  Event, Janus, State, upsert_of, register, with_client, come_online, alive, handle_online,
}
use conferences.Janus.Pool.{
  Clients, same_backend, same_option, has_backend, get_client, put_client, get_or_insert,
}

same_option_refl :
    {A : Type 0} (same : A → A → Bool) (o : Option A)
    → ((a : A) → same a a ≡ true)
    → same_option same o o ≡ true
same_option_refl same none r = refl
same_option_refl same (some a) r = r a

same_backend_refl : (b : Object) → same_backend b b ≡ true
unfolding same_backend
same_backend_refl b =
    rw
      (
        ==_refl b.id,
        ==_refl b.handle_id,
        ==_refl b.session_id,
        ==_refl b.created_at,
        same_option_refl (λ m n. m == n) b.capacity ==_refl,
        same_option_refl (λ m n. m == n) b.balancer_capacity ==_refl,
        same_text_refl b.api_version,
        same_option_refl same_text b.group same_text_refl,
        same_text_refl b.janus_url,
      )
      refl

-- The pool has a client for the backend.
abbrev pub HasClient : Object → Clients → Type 0
HasClient b c = (client : String) × (get_client b c ≡ some client)

get_or_insert-HasClient :
    (is_url : String → Bool) (b : Object) (c : Clients) (client : String)
    → (get_or_insert is_url b c).1 ≡ ok client
    → HasClient b (get_or_insert is_url b c).0
unfolding get_or_insert put_client get_client has_backend find
get_or_insert-HasClient is_url b c client h =
    elim (Bool-cases (same_option same_text b.group c.group)) [
      | inr g ↦ ground (arith, h, g)
      | inl g ↦ elim (Option-cases (find (has_backend b) c.clients)) [
        | inr (e, f) ↦ rw (get_or_insert, g, f) (e.handle.client, rw (f) refl)
        | inl f ↦ elim (Bool-cases (is_url b.janus_url)) [
          | inr u ↦ ground (arith, h, g, f, u)
          | inl u ↦
              rw (get_or_insert, g, f, put_client, f, u)
                (b.janus_url, rw (get_client, same_backend_refl b) refl)
        ]
      ]
    ]

with_client-HasClient :
    (j : Janus) (b : Object) (st : State)
    → (with_client j b st).1 ≡ ok tt
    → HasClient b (with_client j b st).0.clients
unfolding with_client
with_client-HasClient j b st h = elim (Result-cases (get_or_insert j.is_url b st.clients).1) [
  | inl (client, r) ↦ get_or_insert-HasClient j.is_url b st.clients client r
  | inr (e, r) ↦ ground (arith, h, r)
]

-- The row that an upsert returns is the one in the table, with the session and the handle of the query.
upserted_row :
    (q : UpsertQuery) (now : ℕ) (rows : List Object)
    → let row = get_or (inserted q now) (find_query (upsert_query q now rows) q.id) in
      (find_query (upsert_query q now rows) q.id ≡ some row)
      × (row.session_id ≡ q.session_id)
      × (row.handle_id ≡ q.handle_id)
unfolding find_query upsert_query updated inserted
upserted_row q now rows =
    let found =
      find-upsert (has_id q.id) (updated q) (inserted q now) rows (==_refl q.id) (λ x. refl) in
    elim (Option-cases (find (has_id q.id) rows)) [
      | inl h ↦ rw (found, h) (refl, refl, refl)
      | inr (o, h) ↦ rw (found, h) (refl, refl, refl)
    ]

register-pings :
    (j : Janus) (session_id handle_id : ℕ)
    → register j ≡ ok (session_id, handle_id)
    → j.service_ping session_id handle_id ≡ true
unfolding register
register-pings j session_id handle_id h = ground (arith, h)

alive-some :
    (j : Janus) (o : Option Object) (b : Object)
    → alive j o ≡ some b
    → (o ≡ some b) × (j.service_ping b.session_id b.handle_id ≡ true)
unfolding alive
alive-some j none b h = ground (arith, h)
alive-some j (some x) b h = elim (Bool-cases (j.service_ping x.session_id x.handle_id)) [
  | inr p ↦ ground (arith, h, p)
  | inl p ↦
      let e : x ≡ b = ground (arith, h, p) in
      (ap (λ y. some y) e, subst (λ y. j.service_ping y.session_id y.handle_id ≡ true) e p)
]

-- The row of a new registration.
abbrev row_of : Event → ℕ → ℕ → ℕ → List Object → Object
row_of event now session_id handle_id rows =
    let q = upsert_of event handle_id session_id in
    get_or (inserted q now) (find_query (upsert_query q now rows) event.agent_id)

-- If the handling of a backend that is online succeeds, its row is in the table, with a session and a handle
-- that answered a ping, and the pool has a client for that row.
pub handle_online_registers :
    (j : Janus) (event : Event) (now : ℕ) (st : State)
    → (handle_online j event now st).1 ≡ ok tt
    → let after = (handle_online j event now st).0 in
      (b : Object) × (find_query after.backends event.agent_id ≡ some b)
      × (j.service_ping b.session_id b.handle_id ≡ true)
      × HasClient b after.clients
unfolding handle_online come_online with_client upsert_of
handle_online_registers j event now st h = elim (Bool-cases (j.is_url event.janus_url)) [
  | inr u ↦ ground (arith, h, u)
  | inl u ↦ elim (Option-cases (alive j (find_query st.backends event.agent_id))) [
    | inr (b, a) ↦
        let run : handle_online j event now st ≡ with_client j b st =
          rw (handle_online, u, a) refl in
        let (found, pings) = alive-some j (find_query st.backends event.agent_id) b a in
        let client = with_client-HasClient j b st (ap (λ r. r.1) (sym run) ∙ h) in
        rw (run) (b, found, pings, client)
    | inl a ↦ elim (Result-cases (register j)) [
      | inr (e, r) ↦ ground (arith, h, u, a, r)
      | inl ((s, n), r) ↦
          let q = upsert_of event n s in
          let b = row_of event now s n st.backends in
          let after : State = record st { backends = upsert_query q now st.backends } in
          let run : handle_online j event now st ≡ with_client j b after =
            rw (handle_online, u, a, come_online, r) refl in
          let (found, session, handle) = upserted_row q now st.backends in
          let client = with_client-HasClient j b after (ap (λ r. r.1) (sym run) ∙ h) in
          rw (run) (b, found, rw (session, handle) (register-pings j s n r), client)
    ]
  ]
]
