-- ===== src/Janus/Pool.antt =====
-- src/backend/janus/client_pool.rs: the clients of Janus. A hash map is the list of its entries. The flags
-- `is_cancelled`, which the map shares with the tasks that poll, are numbered; a flag is set if it stands in
-- the list `cancelled`.
pub mod Kept
use Prim.Native.String.{String}
use conferences.Base.{
  ℕ, ◌+◌, List, [], ◌∷◌, ◌++◌, Option, none, some, Bool, true, false, ◌&&◌, if◌then◌else◌, ◌==◌,
  any, map, Result, ok, err, same_text,
}
use conferences.Base.Table.{find}
use conferences.Db.JanusBackend.{Object}

-- `PartialEq` of the rows of backends, and of the optional fields in them.
abbrev pub same_option {ℓ} : {A : Type ℓ} → (A → A → Bool) → Option A → Option A → Bool
same_option same none none = true
same_option same (some a) (some b) = same a b
same_option same none (some b) = false
same_option same (some a) none = false

unfoldable pub same_backend : Object → Object → Bool
same_backend a b =
    a.id == b.id
    && a.handle_id == b.handle_id
    && a.session_id == b.session_id
    && a.created_at == b.created_at
    && same_option (λ m n. m == n) a.capacity b.capacity
    && same_option (λ m n. m == n) a.balancer_capacity b.balancer_capacity
    && same_text a.api_version b.api_version
    && same_option same_text a.group b.group
    && same_text a.janus_url b.janus_url

-- `JanusClient` is its URL.
pub record ClientHandle : Type 0 where
  pub client : String
  pub is_cancelled : ℕ

pub record Entry : Type 0 where
  pub backend : Object
  pub handle : ClientHandle

-- A task of `start_polling` that was spawned, with its flag.
pub record Poller : Type 0 where
  pub backend : Object
  pub is_cancelled : ℕ

pub record Clients : Type 0 where
  pub clients : List Entry
  pub group : Option String
  pub pollers : List Poller
  pub cancelled : List ℕ
  pub next_flag : ℕ

pub data Error : Type 0 where
  wrong_backend_group invalid_url : Error

-- `Clients::new`.
unfoldable pub new : Option String → Clients
new group = record { clients = []; group = group; pollers = []; cancelled = []; next_flag = 0 }

unfoldable pub has_backend : Object → Entry → Bool
unfolding same_backend
has_backend b e = same_backend b e.backend

unfoldable pub is_set : ℕ → Clients → Bool
is_set flag c = any (λ f. f == flag) c.cancelled

unfoldable pub get_client : Object → Clients → Option String
unfolding has_backend
get_client b c = elim (find (has_backend b) c.clients) [
  | none ↦ none
  | some e ↦ some e.handle.client
]

-- The branch `Entry::Vacant`: a client with a flag of its own, and the task that polls.
abbrev pub inserted : Object → Clients → Clients
inserted b c = record c {
  clients =
      record { backend = b; handle = record { client = b.janus_url; is_cancelled = c.next_flag } }
      ∷ c.clients;
  pollers = record { backend = b; is_cancelled = c.next_flag } ∷ c.pollers;
  next_flag = c.next_flag + 1;
}

-- `put_client`, by what the parser of URLs takes.
unfoldable pub put_client : (String → Bool) → Object → Clients → Clients × Result Error String
unfolding get_client
put_client is_url b c = elim (get_client b c) [
  | some client ↦ (c, ok client)
  | none ↦ if is_url b.janus_url then (inserted b c, ok b.janus_url) else (c, err invalid_url)
]

unfoldable pub get_or_insert : (String → Bool) → Object → Clients → Clients × Result Error String
unfolding get_client put_client
get_or_insert is_url b c =
    if same_option same_text b.group c.group
    then elim (get_client b c) [ some client ↦ (c, ok client) | none ↦ put_client is_url b c ]
    else (c, err wrong_backend_group)

abbrev pub kept : Entry → List Entry × Option ClientHandle → List Entry × Option ClientHandle
kept e (es, h) = (e ∷ es, h)

-- `HashMap::remove`.
unfoldable pub remove : Object → List Entry → List Entry × Option ClientHandle
unfolding has_backend
remove b [] = ([], none)
remove b (e ∷ es) = if has_backend b e then (es, some e.handle) else kept e (remove b es)

-- The store into the flag of the entry, if there was one.
abbrev pub cancel : Option ClientHandle → List ℕ → List ℕ
cancel none flags = flags
cancel (some h) flags = h.is_cancelled ∷ flags

unfoldable pub remove_client : Object → Clients → Clients
unfolding remove
remove_client b c =
    let (clients, removed) = remove b c.clients in
    record c { clients = clients; cancelled = cancel removed c.cancelled }

unfoldable pub stop_polling : Clients → Clients
stop_polling c = record c { cancelled = map (λ e. e.handle.is_cancelled) c.clients ++ c.cancelled }
