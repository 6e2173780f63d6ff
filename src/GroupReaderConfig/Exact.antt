-- ===== src/GroupReaderConfig/Exact.antt =====
-- Where every agent stands in one group only, the configs say exactly who shares a group.
use conferences.Base.{
  ℕ, ◌≡◌, ◌≢◌, refl, ap, ◌∙◌, inl, inr, List, [], ◌∷◌, Option, none, some, true, false, not, ◌&&◌,
  ◌||◌, if◌then◌else◌, ◌==◌, ==→eq, Bool-cases, Option-cases, Has, Has-append_left,
  Has-append_right, arith,
}
use conferences.Base.Table.{find, upsert, Fresh, IsUnique}
use conferences.Base.Table.Laws.{row_or}
use conferences.Groups.{Groups, contains}
use conferences.Db.Rtc
use conferences.GroupReaderConfig.{
  Entry, has_key, or_insert, numbered, group_agents, agent_rtc, agents_by_group, is_shared,
  entry_of, insert_entry, inner_loop, outer_loop, configs,
}

-- No agent stands twice in the groups.
abbrev pub IsDisjoint : Groups → Type 0
IsDisjoint groups = IsUnique (λ (p : ℕ × ℕ). p.1) (group_agents groups)

-- No RTC stands under two agents.
abbrev pub IsInjective : List Rtc.Object → Type 0
IsInjective rtcs = (a b r : ℕ) → agent_rtc rtcs a ≡ some r → agent_rtc rtcs b ≡ some r → a ≡ b

Fresh-Has : (a g : ℕ) (ps : List (ℕ × ℕ)) → Fresh (λ (p : ℕ × ℕ). p.1) a ps → ¬ Has (g, a) ps
Fresh-Has a g [] f h = h
Fresh-Has a g (p ∷ ps) f (inl e) = f.0 (ap (λ (q : ℕ × ℕ). q.1) e)
Fresh-Has a g (p ∷ ps) f (inr h) = Fresh-Has a g ps f.1 h

-- An agent's group is determined.
Has-unique :
    (g h a : ℕ) (ps : List (ℕ × ℕ))
    → IsUnique (λ (p : ℕ × ℕ). p.1) ps
    → Has (g, a) ps
    → Has (h, a) ps
    → g ≡ h
Has-unique g h a [] u i j = elim i [ ]
Has-unique g h a (p ∷ ps) u (inl e) (inl f) = cc
Has-unique g h a (p ∷ ps) u (inl e) (inr j) =
    absurd (Fresh-Has a h ps (rw (ap (λ (q : ℕ × ℕ). q.1) e) at u.0) j)
Has-unique g h a (p ∷ ps) u (inr i) (inl f) =
    absurd (Fresh-Has a g ps (rw (ap (λ (q : ℕ × ℕ). q.1) f) at u.0) i)
Has-unique g h a (p ∷ ps) u (inr i) (inr j) = Has-unique g h a ps u.1 i j

Has-numbered : (n a : ℕ) (as_ : List ℕ) → contains a as_ ≡ true → Has (n, a) (numbered n as_)
unfolding contains numbered
Has-numbered n a [] h = cc
Has-numbered n a (x ∷ xs) h = elim (Bool-cases (x == a)) [
  | inl t ↦ inl (ap (λ (y : ℕ). (n, y)) (==→eq x a t))
  | inr t ↦ inr (Has-numbered n a xs (ground arith))
]

-- Who stands in a group of the map stands in the groups under its number.
Has-group_agents :
    (groups : Groups) (n a : ℕ) (as_ : List ℕ)
    → agents_by_group groups n ≡ some as_
    → contains a as_ ≡ true
    → Has (n, a) (group_agents groups)
unfolding agents_by_group group_agents
Has-group_agents [] n a as_ e h = cc
Has-group_agents (g ∷ gs) n a as_ e h = elim (Option-cases (agents_by_group gs n)) [
  | inl q ↦
      let own : (g.number ≡ n) × (g.agents ≡ as_) = ground arith in
      let here : Has (n, a) (numbered g.number g.agents) =
        rw (own.0, own.1) (Has-numbered n a as_ h) in
      Has-append_left (n, a) (numbered g.number g.agents) (group_agents gs) here
  | inr (bs, q) ↦ Has-append_right _ _ _ (Has-group_agents gs n a bs q (ground arith))
]

-- `find` after `or_insert`: an entry that is there stays.
find-or_insert :
    (r a : ℕ) (e : Entry) (es : List Entry)
    → find (has_key r a) (or_insert e es) ≡ (
        if has_key r a e
        then some (row_or e (λ x. x) (find (has_key r a) es))
        else find (has_key r a) es)
unfolding or_insert find upsert has_key
find-or_insert r a e [] = ground arith
find-or_insert r a e (x ∷ xs) = ground (arith, find-or_insert r a e xs)

module _ (groups : Groups) (rtcs : List Rtc.Object) (disjoint : IsDisjoint groups)
    (injective : IsInjective rtcs) where
  not_shared :
      (g1 a1 g2 a2 : ℕ)
      → g1 ≢ g2
      → Has (g1, a1) (group_agents groups)
      → Has (g2, a2) (group_agents groups)
      → is_shared groups g1 a1 g2 a2 ≡ false
  unfolding is_shared
  not_shared g1 a1 g2 a2 n h1 h2 = elim (Option-cases (agents_by_group groups g1)) [
    | inl q ↦ rw (q, is_shared) refl
    | inr (as1, q1) ↦ elim (Option-cases (agents_by_group groups g2)) [
      | inl q ↦ rw (q1, is_shared) (rw (q, is_shared) refl)
      | inr (as2, q2) ↦ rw (q1, q2, is_shared) (apart as1 as2 q1 q2)
    ]
  ]
    where
      apart :
          (as1 as2 : List ℕ)
          → agents_by_group groups g1 ≡ some as1
          → agents_by_group groups g2 ≡ some as2
          → ((contains a2 as1 && not (contains a1 as2))
              || (not (contains a2 as1) && contains a1 as2))
            ≡ false
      apart as1 as2 q1 q2 = elim (Bool-cases (contains a2 as1)) [
        | inl t ↦
            absurd (n (Has-unique g1 g2 a2 _ disjoint (Has-group_agents groups g1 a2 as1 q1 t) h2))
        | inr t ↦ elim (Bool-cases (contains a1 as2)) [
          | inl u ↦
              absurd
                (n (Has-unique g1 g2 a1 _ disjoint h1 (Has-group_agents groups g2 a1 as2 q2 u)))
          | inr u ↦ rw (t, u) refl
        ]
      ]

  -- Two agents of the groups, and the RTC of the second.
  module _ (g1 a1 g2 a2 r : ℕ) (h1 : Has (g1, a1) (group_agents groups))
      (h2 : Has (g2, a2) (group_agents groups)) (differ : a1 ≢ a2)
      (rtc : agent_rtc rtcs a2 ≡ some r) where
    abbrev target : Entry
    target = record { rtc_id = r; agent_id = a1; receive = g1 == g2 }

    entry_of-target : entry_of groups rtcs (g1, a1) (g2, a2) ≡ some target
    unfolding entry_of
    entry_of-target = ground (arith, rtc, differ, not_shared g1 a1 g2 a2)

    entry_of_other :
        (x y : ℕ × ℕ) (e : Entry)
        → entry_of groups rtcs x y ≡ some e
        → has_key r a1 e ≡ true
        → (x.1 ≡ a1) × (y.1 ≡ a2)
    unfolding entry_of has_key
    entry_of_other (g, a) (h, b) e q k = ground (arith, injective b a2 r, rtc)

    abbrev seek : List Entry → Option Entry
    seek = find (has_key r a1)

    keep :
        (o : Option Entry) (es : List Entry)
        → seek es ≡ some target
        → seek (insert_entry o es) ≡ some target
    unfolding insert_entry
    keep none es h = h
    keep (some e) es h = ground (arith, find-or_insert r a1 e es)

    miss :
        (o : Option Entry) (es : List Entry)
        → ((e : Entry) → o ≡ some e → has_key r a1 e ≢ true)
        → seek (insert_entry o es) ≡ seek es
    unfolding insert_entry
    miss none es n = refl
    miss (some e) es n = ground (arith, find-or_insert r a1 e es, n e refl)

    hit : (es : List Entry) → seek es ≡ none → seek (insert_entry (some target) es) ≡ some target
    unfolding insert_entry has_key
    hit es h = ground (arith, find-or_insert r a1 target es)

    inner_keep :
        (x : ℕ × ℕ) (ys : List (ℕ × ℕ)) (es : List Entry)
        → seek es ≡ some target
        → seek (inner_loop groups rtcs x ys es) ≡ some target
    unfolding inner_loop
    inner_keep x [] es h = h
    inner_keep x (y ∷ ys) es h = inner_keep x ys _ (keep (entry_of groups rtcs x y) es h)

    inner_miss :
        (x : ℕ × ℕ) (ys : List (ℕ × ℕ)) (es : List Entry)
        → x.1 ≢ a1
        → seek (inner_loop groups rtcs x ys es) ≡ seek es
    unfolding inner_loop
    inner_miss x [] es n = refl
    inner_miss x (y ∷ ys) es n =
        inner_miss x ys _ n
        ∙ miss (entry_of groups rtcs x y) es (λ e q k. n (entry_of_other x y e q k).0)

    inner_hit :
        (ys : List (ℕ × ℕ)) (es : List Entry)
        → Has (g2, a2) ys
        → IsUnique (λ (p : ℕ × ℕ). p.1) ys
        → seek es ≡ none
        → seek (inner_loop groups rtcs (g1, a1) ys es) ≡ some target
    unfolding inner_loop
    inner_hit [] es i u h = elim i [ ]
    inner_hit (y ∷ ys) es (inl e) u h =
        rw e (inner_keep (g1, a1) ys _ (rw entry_of-target (hit es h)))
    inner_hit (y ∷ ys) es (inr i) u h = inner_hit ys _ i u.1 (
        miss (entry_of groups rtcs (g1, a1) y) es
          (λ e q k. Fresh-Has a2 g2 ys (rw (entry_of_other (g1, a1) y e q k).1 at u.0) i)
        ∙ h)

    outer_keep :
        (xs ys : List (ℕ × ℕ)) (es : List Entry)
        → seek es ≡ some target
        → seek (outer_loop groups rtcs xs ys es) ≡ some target
    unfolding outer_loop
    outer_keep [] ys es h = h
    outer_keep (x ∷ xs) ys es h = outer_keep xs ys _ (inner_keep x ys es h)

    outer_hit :
        (xs : List (ℕ × ℕ)) (es : List Entry)
        → Has (g1, a1) xs
        → IsUnique (λ (p : ℕ × ℕ). p.1) xs
        → seek es ≡ none
        → seek (outer_loop groups rtcs xs (group_agents groups) es) ≡ some target
    unfolding outer_loop
    outer_hit [] es i u h = elim i [ ]
    outer_hit (x ∷ xs) es (inl e) u h =
        rw e (outer_keep xs _ _ (inner_hit (group_agents groups) es h2 disjoint h))
    outer_hit (x ∷ xs) es (inr i) u h =
        outer_hit xs _ i u.1
          (inner_miss x (group_agents groups) es (λ q. Fresh-Has a1 g1 xs (rw q at u.0) i) ∙ h)

    -- Where no agent stands twice in the groups, and no RTC under two agents, the config of an
    -- agent for another agent's RTC is in the map, and is true exactly if the two are in one group.
    pub configs_exact : find (has_key r a1) (configs groups rtcs) ≡ some target
    unfolding configs find
    configs_exact = outer_hit (group_agents groups) [] h1 disjoint refl
