-- ===== src/GroupReaderConfig.antt =====
-- src/app/group_reader_config.rs: which agents of a room receive each other, from the groups.
-- A hash map is the list of its entries; where the code reads its entries, their order is that of
-- this list, and nothing but the order depends on it.
pub mod Exact
pub mod Owner
pub mod Sound
use conferences.Base.{
  ℕ, List, [], ◌∷◌, ◌++◌, map, Option, none, some, Bool, true, false, not, ◌&&◌, ◌||◌,
  if◌then◌else◌, ◌==◌,
}
use conferences.Base.Table.{find, upsert}
use conferences.Groups.{GroupItem, Groups, contains}
use conferences.Db.Rtc
use conferences.Db.RtcReaderConfig

-- A key of `configs`: an RTC and the agent who receives it; and its value.
pub record Entry : Type 0 where
  pub rtc_id : ℕ
  pub agent_id : ℕ
  pub receive : Bool

unfoldable pub has_key : ℕ → ℕ → Entry → Bool
has_key rtc_id agent_id e = e.rtc_id == rtc_id && e.agent_id == agent_id

-- `configs.entry(key).or_insert(value)`.
unfoldable pub or_insert : Entry → List Entry → List Entry
unfolding has_key
or_insert e = upsert (has_key e.rtc_id e.agent_id) (λ x. x) e

-- `flat_map` over the groups' agents.
unfoldable pub all_agents : Groups → List ℕ
all_agents [] = []
all_agents (g ∷ gs) = g.agents ++ all_agents gs

unfoldable pub numbered : ℕ → List ℕ → List (ℕ × ℕ)
numbered n [] = []
numbered n (a ∷ as_) = (n, a) ∷ numbered n as_

-- `group_agents`.
unfoldable pub group_agents : Groups → List (ℕ × ℕ)
unfolding numbered
group_agents [] = []
group_agents (g ∷ gs) = numbered g.number g.agents ++ group_agents gs

-- `agent_rtcs.get(agent)`: of two RTCs of one agent the later stands in the map.
unfoldable pub agent_rtc : List Rtc.Object → ℕ → Option ℕ
agent_rtc [] a = none
agent_rtc (r ∷ rs) a = elim (agent_rtc rs a) [
  | some id ↦ some id
  | none ↦ if r.created_by == a then some r.id else none
]

-- `agents_by_groups.get(group)`.
unfoldable pub agents_by_group : Groups → ℕ → Option (List ℕ)
agents_by_group [] n = none
agents_by_group (g ∷ gs) n = elim (agents_by_group gs n) [
  | some as_ ↦ some as_
  | none ↦ if g.number == n then some g.agents else none
]

-- The `match` on the two agents of different groups: exactly one of them is in the other's group.
unfoldable pub is_shared : Groups → ℕ → ℕ → ℕ → ℕ → Bool
is_shared groups group1 agent1 group2 agent2 = elim (agents_by_group groups group1) [
  | none ↦ false
  | some g1 ↦ elim (agents_by_group groups group2) [
    | none ↦ false
    | some g2 ↦
        let a = contains agent2 g1 in let b = contains agent1 g2 in (a && not b) || (not a && b)
  ]
]

-- The entry that the body of the two loops comes to, and `none` where it says `continue`.
unfoldable pub entry_of : Groups → List Rtc.Object → ℕ × ℕ → ℕ × ℕ → Option Entry
unfolding is_shared
entry_of groups rtcs (group1, agent1) (group2, agent2) =
    if agent1 == agent2 then none else elim (agent_rtc rtcs agent2) [
      | none ↦ none
      | some rtc_id ↦
          if not (group1 == group2) && is_shared groups group1 agent1 group2 agent2
          then none
          else some (record { rtc_id = rtc_id; agent_id = agent1; receive = group1 == group2 })
    ]

unfoldable pub insert_entry : Option Entry → List Entry → List Entry
unfolding or_insert
insert_entry none configs = configs
insert_entry (some e) configs = or_insert e configs

unfoldable pub inner_loop :
    Groups → List Rtc.Object → ℕ × ℕ → List (ℕ × ℕ) → List Entry → List Entry
unfolding insert_entry
inner_loop groups rtcs x [] configs = configs
inner_loop groups rtcs x (y ∷ ys) configs =
    inner_loop groups rtcs x ys (insert_entry (entry_of groups rtcs x y) configs)

unfoldable pub outer_loop :
    Groups → List Rtc.Object → List (ℕ × ℕ) → List (ℕ × ℕ) → List Entry → List Entry
unfolding inner_loop
outer_loop groups rtcs [] ys configs = configs
outer_loop groups rtcs (x ∷ xs) ys configs =
    outer_loop groups rtcs xs ys (inner_loop groups rtcs x ys configs)

-- The map `configs` after the loops.
unfoldable pub configs : Groups → List Rtc.Object → List Entry
unfolding group_agents outer_loop
configs groups rtcs = outer_loop groups rtcs (group_agents groups) (group_agents groups) []

-- The rows of the four vectors.
unfoldable pub to_row : Entry → RtcReaderConfig.Object
to_row e = record {
  rtc_id = e.rtc_id;
  reader_id = e.agent_id;
  receive_video = e.receive;
  receive_audio = e.receive;
}

-- `update`: the new rows of `rtc_reader_config`, and the map.
unfoldable pub update :
    List Rtc.Object
    → List RtcReaderConfig.Object
    → ℕ
    → Groups
    → List RtcReaderConfig.Object × List Entry
unfolding all_agents configs to_row
update rtc_rows config_rows room_id groups =
    let agent_ids = all_agents groups in
    let rtcs =
      Rtc.list_query (record Rtc.new { room_id = some room_id; created_by = some agent_ids })
        rtc_rows in
    let entries = configs groups rtcs in
    (RtcReaderConfig.batch_insert (map to_row entries) config_rows, entries)
