-- ===== src/Examples/GroupRuns.antt =====
-- Groups, the configs that they give, and the RTCs of a room.

use conferences.Base.{ℕ, ◌≡◌, refl, inl, inr, List, [], ◌∷◌, some, false, arith}
use conferences.Base.Table.{find, upsert}
use conferences.Groups.{contains, GroupItem, Groups}
use conferences.Db.Rtc
use conferences.Db.Rtc.{SharingPolicy, owned, shared, insert_query}
use conferences.Db.Rtc.Policy.{Follows, insert_query-Follows}
use conferences.GroupReaderConfig.{
  has_key, configs, group_agents, numbered, agent_rtc, outer_loop, inner_loop, insert_entry,
  or_insert, entry_of, is_shared, agents_by_group,
}
use conferences.GroupReaderConfig.Exact.{configs_exact, IsInjective}

abbrev group : ℕ → List ℕ → GroupItem
group n as_ = record { number = n; agents = as_ }

abbrev two_groups : Groups
two_groups = group 0 (1 ∷ 2 ∷ []) ∷ group 1 (3 ∷ []) ∷ []

abbrev rtc_row : ℕ → ℕ → ℕ → Rtc.Object
rtc_row id room agent = record { id = id; room_id = room; created_at = 0; created_by = agent }

abbrev rtc_rows : List Rtc.Object
rtc_rows = rtc_row 102 9 2 ∷ rtc_row 103 9 3 ∷ []

rtc_rows-IsInjective : IsInjective rtc_rows
unfolding agent_rtc
rtc_rows-IsInjective a b r h k = ground (arith, h, k)

-- Agent 1 receives the RTC of agent 2, who shares its group, and not that of agent 3.
configs_exact_example :
    find (has_key 103 1) (configs two_groups rtc_rows)
    ≡ some (record { rtc_id = 103; agent_id = 1; receive = false })
unfolding group_agents numbered agent_rtc
configs_exact_example =
    configs_exact two_groups rtc_rows
      ((omega arith, (omega arith, tt)), ((omega arith, tt), (tt, tt))) rtc_rows-IsInjective 0 1 1 3
      103 (inl refl) (inr (inr (inl refl))) (omega arith) refl

insert_query-Follows_example :
    Follows owned 9 (insert_query (some owned) (rtc_row 104 9 1) rtc_rows).0
insert_query-Follows_example =
    insert_query-Follows (λ room. some owned) (rtc_row 104 9 1) rtc_rows 9 owned refl
      (λ agent. ground arith)

-- Two agents who share group 3, and stand in other groups too.
abbrev overlapping : Groups
overlapping = group 1 (2 ∷ []) ∷ group 2 (1 ∷ []) ∷ group 3 (1 ∷ 2 ∷ []) ∷ []

-- The pair of groups that is visited first decides: they do not receive each other.
overlapping-configs :
    find (has_key 102 1) (configs overlapping rtc_rows)
    ≡ some (record { rtc_id = 102; agent_id = 1; receive = false })
unfolding configs outer_loop inner_loop insert_entry or_insert entry_of is_shared agents_by_group
    group_agents numbered agent_rtc find upsert has_key contains
overlapping-configs = refl
