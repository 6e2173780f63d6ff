-- ===== src/Db/JanusBackend/Load.antt =====
-- src/db/janus_backend.rs: the load of the backends, and the queries that read it. Loads are counted in
-- bits per second, that is in millionths of a slot, so that the decimals of the code are exact; a sum over
-- no rows, which every reader makes 0, is 0 here. `DISTINCT ON(backend_id, room_id)` drops no row,
-- since the id of a room is its primary key. `RANDOM()` is a reordering, which is a parameter.
use Prim.Native.String.{String}
use conferences.Base.{
  ℕ, ◌+◌, ◌-◌, ◌*◌, ◌/◌, min, max, List, [], ◌∷◌, map, Option, none, some, Bool, true, false, ◌&&◌,
  if◌then◌else◌, ◌==◌, ltb, leb, filter, take, head?, get_or, or_else, same_text, Result, ok, err,
}
use conferences.Base.Sorting.{order_by}
use conferences.Base.Table.{find}
use conferences.Db.Agent
use conferences.Db.AgentConnection
use conferences.Db.Rtc
use conferences.Db.RtcWriterConfig
use conferences.Db.Room.{Bound, included, excluded, unbounded, Time, SqlError, row_not_found}
use conferences.Db.Room
use conferences.Db.JanusBackend.{Object, janus_api_version, has_id}

-- The tables that the queries join, and `NOW()`.
pub record Tables : Type 0 where
  pub backends : List Object
  pub rooms : List Room.Object
  pub rtcs : List Rtc.Object
  pub agents : List Agent.Object
  pub connections : List AgentConnection.Object
  pub writer_configs : List RtcWriterConfig.Object
  pub now : ℕ

-- One slot in bits per second.
abbrev pub slot : ℕ
slot = 1000000

-- `COALESCE(…, 2147483647)`.
abbrev pub no_capacity : ℕ
no_capacity = 2147483647

unfoldable pub video_remb_of : Option RtcWriterConfig.Object → ℕ
video_remb_of none = slot
video_remb_of (some c) = get_or slot c.video_remb

-- The connections of one agent in `room_load`.
unfoldable pub agent_taken : ℕ → List AgentConnection.Object → List RtcWriterConfig.Object → ℕ
unfolding video_remb_of RtcWriterConfig.read_config
agent_taken agent_id [] configs = 0
agent_taken agent_id (c ∷ cs) configs =
    let rest = agent_taken agent_id cs configs in
    if c.agent_id == agent_id
    then video_remb_of (RtcWriterConfig.read_config c.rtc_id configs) + rest
    else rest

-- `taken` of a room in `room_load`.
unfoldable pub room_taken :
    ℕ → List Agent.Object → List AgentConnection.Object → List RtcWriterConfig.Object → ℕ
unfolding agent_taken
room_taken room_id [] cs configs = 0
room_taken room_id (a ∷ as_) cs configs =
    let rest = room_taken room_id as_ cs configs in
    if a.room_id == room_id then agent_taken a.id cs configs + rest else rest

unfoldable pub taken : Tables → ℕ → ℕ
unfolding room_taken
taken t room_id = room_taken room_id t.agents t.connections t.writer_configs

unfoldable pub starts_by : ℕ → Bound → Bool
starts_by now (included s) = leb s now
starts_by now (excluded s) = ltb s now
starts_by now unbounded = true

unfoldable pub ends_after : ℕ → Bound → Bool
ends_after now (included e) = leb now e
ends_after now (excluded e) = ltb now e
ends_after now unbounded = true

-- `time @> NOW()`.
unfoldable pub contains_time : ℕ → Time → Bool
unfolding starts_by ends_after
contains_time now t = starts_by now t.start && ends_after now t.end

-- A row of `active_room` on a backend.
unfoldable pub is_active_on : ℕ → ℕ → Room.Object → Bool
unfolding contains_time
is_active_on now backend_id r =
    elim r.backend_id [ none ↦ false | some b ↦ b == backend_id ] && contains_time now r.time

-- The reserve of a room, in bits per second.
abbrev pub reserve_of : Room.Object → ℕ
reserve_of r = get_or 0 r.reserve * slot

-- A sum over the active rooms of a backend.
unfoldable pub sum_active : ℕ → ℕ → (Room.Object → ℕ) → List Room.Object → ℕ
unfolding is_active_on
sum_active now backend_id f [] = 0
sum_active now backend_id f (r ∷ rs) =
    let rest = sum_active now backend_id f rs in
    if is_active_on now backend_id r then f r + rest else rest

-- `janus_backend_load`: its three sums.
unfoldable pub total_taken : Tables → ℕ → ℕ
unfolding sum_active taken
total_taken t backend_id = sum_active t.now backend_id (λ r. taken t r.id) t.rooms

unfoldable pub total_reserve : Tables → ℕ → ℕ
unfolding sum_active
total_reserve t backend_id = sum_active t.now backend_id reserve_of t.rooms

unfoldable pub load : Tables → ℕ → ℕ
unfolding sum_active taken
load t backend_id = sum_active t.now backend_id (λ r. max (taken t r.id) (reserve_of r)) t.rooms

-- The capacities, in bits per second.
unfoldable pub balancer_capacity_of : Object → ℕ
balancer_capacity_of b = get_or no_capacity (or_else b.balancer_capacity b.capacity) * slot

unfoldable pub capacity_of : Option Object → ℕ
capacity_of none = no_capacity * slot
capacity_of (some b) = get_or no_capacity b.capacity * slot

-- `api_version = $2 AND ($3 IS NULL OR group = $3)`.
abbrev pub same_group : Option String → Option String → Bool
same_group none g = true
same_group (some w) none = false
same_group (some w) (some g) = same_text g w

unfoldable pub is_compatible : Option String → Object → Bool
is_compatible group b = same_text b.api_version janus_api_version && same_group group b.group

-- `COALESCE(r2.reserve, 1)` of the room that is to be hosted.
abbrev pub wanted : Room.Object → ℕ
wanted r = get_or 1 r.reserve * slot

-- The `WHERE` clause of `most_loaded`; a difference that is negative is not enough.
unfoldable pub can_host : Tables → Option String → Room.Object → Object → Bool
unfolding load balancer_capacity_of is_compatible
can_host t group r b =
    leb (load t b.id + wanted r) (balancer_capacity_of b) && is_compatible group b

-- `most_loaded`: rows of one load stand in the order that `RANDOM()` gives.
unfoldable pub most_loaded :
    (List Object → List Object) → Tables → ℕ → Option String → Option Object
unfolding can_host Room.find_query
most_loaded random_order t room_id group = elim (Room.find_query room_id t.rooms) [
  | none ↦ none
  | some r ↦ head? (
      order_by (λ a b. leb (load t b.id) (load t a.id))
        (random_order (filter (can_host t group r) t.backends)))
]

-- The first has no less free capacity than the second: `capacity - load`, which may be negative. The load
-- of `least_loaded` leaves the reserves out.
unfoldable pub is_freer : Tables → Object → Object → Bool
unfolding total_taken balancer_capacity_of
is_freer t a b =
    leb (balancer_capacity_of b + total_taken t a.id) (balancer_capacity_of a + total_taken t b.id)

-- `least_loaded`: one of the three freest.
unfoldable pub least_loaded :
    (List Object → List Object) → Tables → ℕ → Option String → Option Object
unfolding is_compatible is_freer Room.find_query
least_loaded random_order t room_id group = elim (Room.find_query room_id t.rooms) [
  | none ↦ none
  | some r ↦
      head?
        (random_order (take 3 (order_by (is_freer t) (filter (is_compatible group) t.backends))))
]

-- `::INT`: to the nearest, and a half upwards.
unfoldable pub to_int : ℕ → ℕ
to_int n = (n + 500000) / slot

-- The `CASE` of `free_capacity`, in bits per second: capacity, load, taken and reserve.
unfoldable pub free_of : ℕ → ℕ → ℕ → ℕ → ℕ → ℕ
free_of capacity all_taken all_load in_room reserve =
    if leb capacity all_taken
    then 0
    else max
        (if ltb in_room reserve
          then min (reserve - in_room) (capacity - all_taken)
          else capacity - all_load)
        slot

-- `active_room` by its id.
unfoldable pub active_room : Tables → ℕ → Option Room.Object
unfolding contains_time
active_room t id =
    find
      (λ r. r.id == id && elim r.backend_id [ none ↦ false | some b ↦ contains_time t.now r.time ])
      t.rooms

-- The row of the joins: the capacity, the sums of the backend and the reserve of the room.
unfoldable pub free_for : Tables → ℕ → Option Room.Object → ℕ
unfolding free_of to_int capacity_of total_taken load taken
free_for t room_id none = to_int (free_of (capacity_of none) 0 0 (taken t room_id) 0)
free_for t room_id (some r) = elim r.backend_id [
  | none ↦ to_int (free_of (capacity_of none) 0 0 (taken t room_id) (reserve_of r))
  | some b ↦ elim (find (has_id b) t.backends) [
    | none ↦ to_int (free_of (capacity_of none) 0 0 (taken t room_id) (reserve_of r))
    | some backend ↦ to_int (
        free_of (capacity_of (some backend)) (total_taken t b) (load t b) (taken t room_id)
          (reserve_of r))
  ]
]

-- `free_capacity`.
unfoldable pub free_capacity : Tables → ℕ → Result SqlError ℕ
unfolding free_for active_room Rtc.find_query
free_capacity t rtc_id = elim (Rtc.find_query t.rtcs rtc_id) [
  | none ↦ err row_not_found
  | some rtc ↦ ok (free_for t rtc.room_id (active_room t rtc.room_id))
]

pub record ReserveLoad : Type 0 where
  pub backend_id : ℕ
  pub load : ℕ
  pub taken : ℕ

-- `reserve_load_for_each_backend`; `::BIGINT` rounds as `::INT` does.
unfoldable pub reserve_load_for_each_backend : Tables → List ReserveLoad
unfolding total_reserve total_taken to_int
reserve_load_for_each_backend t =
    map
      (λ b. record {
        backend_id = b.id;
        load = to_int (total_reserve t b.id);
        taken = to_int (total_taken t b.id);
      })
      t.backends
