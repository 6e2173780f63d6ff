-- ===== src/Groups.antt =====
-- src/db/group_agent.rs: the groups of a room's agents.
-- A group's number is an `i32`, an agent id a number that is only compared.
pub mod Default
use conferences.Base.{
  ℕ, List, [], ◌∷◌, ◌++◌, map, Option, none, some, Bool, true, false, ◌||◌, if◌then◌else◌, ◌==◌,
  any, filter, length,
}
use conferences.Base.Table.{find, update_where, upsert}

pub record GroupItem : Type 0 where
  pub number : ℕ
  pub agents : List ℕ

-- `Vec::contains`.
unfoldable pub contains : ℕ → List ℕ → Bool
contains a [] = false
contains a (x ∷ xs) = x == a || contains a xs

unfoldable pub has_agent : ℕ → GroupItem → Bool
unfolding contains
has_agent a i = contains a i.agents

abbrev pub Groups : Type 0
Groups = List GroupItem

unfoldable pub filter_by_agent : Groups → ℕ → Groups
filter_by_agent groups agent_id = filter (has_agent agent_id) groups

unfoldable pub is_agent_exist : Groups → ℕ → Bool
is_agent_exist [] agent_id = false
is_agent_exist (item ∷ items) agent_id =
    if has_agent agent_id item then true else is_agent_exist items agent_id

-- `collect::<HashMap<_, _>>` of the pairs of number and agents: a later pair of a number replaces
-- an earlier one. The map is the list of its entries.
unfoldable pub collect_from : List GroupItem → List GroupItem → List GroupItem
collect_from acc [] = acc
collect_from acc (i ∷ is) = collect_from (upsert (λ g. g.number == i.number) (λ g. i) i acc) is

abbrev pub push_agent : ℕ → GroupItem → GroupItem
push_agent a i = record i { agents = i.agents ++ a ∷ [] }

-- `add_to_default_group`: the order in which the map's entries are read back is `shuffle`.
unfoldable pub add_to_default_group : (List GroupItem → List GroupItem) → Groups → ℕ → Groups
unfolding collect_from
add_to_default_group shuffle groups agent_id =
    shuffle (update_where (λ g. g.number == 0) (push_agent agent_id) (collect_from [] groups))

-- The rows of `group_agent`, one for each room.
pub record Object : Type 0 where
  pub id : ℕ
  pub room_id : ℕ
  pub groups : Groups

-- `UpsertQuery::execute`, with the id that a new row gets.
unfoldable pub upsert_query : ℕ → ℕ → Groups → List Object → List Object
upsert_query id room_id groups =
    upsert (λ o. o.room_id == room_id) (λ o. record o { groups = groups })
      (record { id = id; room_id = room_id; groups = groups })

-- `FindQuery::execute`; `none` is the error of `fetch_one` on no row.
unfoldable pub find_query : List Object → ℕ → Option Object
find_query rows room_id = find (λ o. o.room_id == room_id) rows
