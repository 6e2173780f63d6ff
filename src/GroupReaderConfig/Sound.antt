-- ===== src/GroupReaderConfig/Sound.antt =====
-- Every config has a reason: it is between two agents of the groups, and tells whether they stand
-- in the group that the loops paired them in.
use conferences.Base.{
  ℕ, ◌≡◌, ◌≢◌, refl, sym, ◌∙◌, inl, inr, List, [], ◌∷◌, Option, none, some, ◌==◌, Bool-cases, All,
  Has, arith,
}
use conferences.Base.Table.{upsert}
use conferences.Groups.{Groups}
use conferences.Db.Rtc
use conferences.GroupReaderConfig.{
  Entry, has_key, or_insert, group_agents, agent_rtc, entry_of, insert_entry, inner_loop,
  outer_loop, configs,
}

module _ (groups : Groups) (rtcs : List Rtc.Object) where
  -- Why an entry stands in the map.
  pub record IsJustified (e : Entry) : Type 0 where
    pub group1 : ℕ
    pub group2 : ℕ
    pub agent2 : ℕ
    pub reads : Has (group1, e.agent_id) (group_agents groups)
    pub writes : Has (group2, agent2) (group_agents groups)
    pub differ : e.agent_id ≢ agent2
    pub rtc : agent_rtc rtcs agent2 ≡ some e.rtc_id
    pub value : e.receive ≡ (group1 == group2)

  or_insert-All :
      (e : Entry) (es : List Entry)
      → IsJustified e
      → All IsJustified es
      → All IsJustified (or_insert e es)
  unfolding or_insert upsert
  or_insert-All e [] j h = (j, tt)
  or_insert-All e (x ∷ xs) j h = elim (Bool-cases (has_key e.rtc_id e.agent_id x)) [
    | inl t ↦ rw t h
    | inr t ↦ rw t (h.0, or_insert-All e xs j h.1)
  ]

  entry_of-IsJustified :
      (x y : ℕ × ℕ) (e : Entry)
      → Has x (group_agents groups)
      → Has y (group_agents groups)
      → entry_of groups rtcs x y ≡ some e
      → IsJustified e
  unfolding entry_of
  entry_of-IsJustified (g1, a1) (g2, a2) e hx hy h =
      let facts : (e.agent_id ≡ a1)
          × (a1 ≢ a2)
          × (agent_rtc rtcs a2 ≡ some e.rtc_id)
          × (e.receive ≡ (g1 == g2)) =
        ground arith in
      record {
        group1 = g1;
        group2 = g2;
        agent2 = a2;
        reads = rw facts.0 hx;
        writes = hy;
        differ = λ q. facts.1 (sym facts.0 ∙ q);
        rtc = facts.2;
        value = facts.3;
      }

  insert_entry-All :
      (o : Option Entry) (es : List Entry)
      → ((e : Entry) → o ≡ some e → IsJustified e)
      → All IsJustified es
      → All IsJustified (insert_entry o es)
  unfolding insert_entry
  insert_entry-All none es j h = h
  insert_entry-All (some e) es j h = or_insert-All e es (j e refl) h

  inner_loop-All :
      (x : ℕ × ℕ) (ys : List (ℕ × ℕ)) (es : List Entry)
      → Has x (group_agents groups)
      → ((y : ℕ × ℕ) → Has y ys → Has y (group_agents groups))
      → All IsJustified es
      → All IsJustified (inner_loop groups rtcs x ys es)
  unfolding inner_loop
  inner_loop-All x [] es hx sub h = h
  inner_loop-All x (y ∷ ys) es hx sub h =
      inner_loop-All x ys (insert_entry (entry_of groups rtcs x y) es) hx (λ z i. sub z (inr i))
        (insert_entry-All (entry_of groups rtcs x y) es
          (λ e. entry_of-IsJustified x y e hx (sub y (inl refl))) h)

  outer_loop-All :
      (xs : List (ℕ × ℕ)) (es : List Entry)
      → ((x : ℕ × ℕ) → Has x xs → Has x (group_agents groups))
      → All IsJustified es
      → All IsJustified (outer_loop groups rtcs xs (group_agents groups) es)
  unfolding outer_loop
  outer_loop-All [] es sub h = h
  outer_loop-All (x ∷ xs) es sub h =
      outer_loop-All xs (inner_loop groups rtcs x (group_agents groups) es) (λ z i. sub z (inr i))
        (inner_loop-All x (group_agents groups) es (sub x (inl refl)) (λ y i. i) h)

  -- Every entry of `configs` lets an agent of the groups receive the RTC of another agent of the
  -- groups, and its value tells whether the two stand under one group's number in the pairing that
  -- made it.
  pub configs-IsJustified : All IsJustified (configs groups rtcs)
  unfolding configs
  configs-IsJustified = outer_loop-All (group_agents groups) [] (λ x i. i) tt
