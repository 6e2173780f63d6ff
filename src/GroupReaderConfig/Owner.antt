-- ===== src/GroupReaderConfig/Owner.antt =====
-- Whose RTC the map from agents to RTCs gives.
use conferences.Base.{
  ℕ, ◌≡◌, ◌≢◌, inl, inr, List, [], ◌∷◌, none, some, ◌==◌, ==→eq, Has, Bool-cases, Option-cases,
  arith,
}
use conferences.Db.Rtc.{Object}
use conferences.GroupReaderConfig.{agent_rtc}

-- It is one of the list that the agent has created.
pub agent_rtc-Has :
    (rtcs : List Object) (a id : ℕ)
    → agent_rtc rtcs a ≡ some id
    → (r : Object) × Has r rtcs × (r.id ≡ id) × (r.created_by ≡ a)
unfolding agent_rtc
agent_rtc-Has [] a id h = ground arith
agent_rtc-Has (r ∷ rs) a id h = elim (Option-cases (agent_rtc rs a)) [
  | inr (i, e) ↦
      let found = agent_rtc-Has rs a id (ground (arith, h, e)) in
      (found.0, inr found.1, found.2, found.3)
  | inl n ↦ elim (Bool-cases (r.created_by == a)) [
    | inl t ↦ (r, inl (ground arith), ground (arith, h, n, t), ==→eq r.created_by a t)
    | inr f ↦ ground (arith, h, n, f)
  ]
]

-- An agent who has created none of the list has none.
pub agent_rtc-none :
    (rtcs : List Object) (a : ℕ)
    → ((r : Object) → Has r rtcs → r.created_by ≢ a)
    → agent_rtc rtcs a ≡ none
agent_rtc-none rtcs a h = elim (Option-cases (agent_rtc rtcs a)) [
  | inl n ↦ n
  | inr (id, e) ↦ let found = agent_rtc-Has rtcs a id e in elim (h found.0 found.1 found.3) [ ]
]
