-- ===== src/Waitlist/Phases.antt =====
-- The life of one id in the two epochs: waiting in the current epoch, in the previous one, or gone.
use conferences.Base.{
  ℕ, ◌<◌, ◌≡◌, refl, ◌⊎◌, List, [], ◌∷◌, Option, none, some, if◌then◌else◌, ◌==◌, arith,
}
use conferences.Base.Table.{find, delete_where, upsert}
use conferences.Waitlist.{
  register, fire, WaitListInner, has_id, Wake, received, ticked, put, insert, lookup, advance, step,
}

-- The specification of one id.
pub data Phase (S : Type 0) : Type 0 where
  current : S → Phase S
  previous : S → Phase S
  gone : Phase S

module _ {S : Type 0} where
  abbrev pub value : Option (ℕ × S) → Option S
  value none = none
  value (some e) = some e.1

  -- What a hash map holds for an id.
  unfoldable pub get : ℕ → List (ℕ × S) → Option S
  get id m = value (find (has_id id) m)

  get-put :
      (id j : ℕ) (s : S) (m : List (ℕ × S))
      → get id (put j s m) ≡ (if j == id then some s else get id m)
  unfolding get put find upsert
  get-put id j s [] = ground arith
  get-put id j s (e ∷ m) = ground (arith, get-put id j s m)

  get-delete_where :
      (id j : ℕ) (m : List (ℕ × S))
      → get id (delete_where (has_id j) m) ≡ (if j == id then none else get id m)
  unfolding get find delete_where
  get-delete_where id j [] = ground arith
  get-delete_where id j (e ∷ m) = ground (arith, get-delete_where id j m)

  pub get-[] : (id : ℕ) → get id [] ≡ none
  unfolding get find
  get-[] id = refl

  -- `lookup` in terms of `get`.
  lookup-get :
      (st : WaitListInner S) (id : ℕ)
      → lookup st id ≡ elim (get id st.epoch0) [
        | some s ↦ (record st { epoch0 = delete_where (has_id id) st.epoch0 }, some s)
        | none ↦ elim (get id st.epoch1) [
          | some s ↦ (record st { epoch1 = delete_where (has_id id) st.epoch1 }, some s)
          | none ↦ (st, none)
        ]
      ]
  unfolding lookup get
  lookup-get st id = ground arith

  abbrev pick : Option S → Option S → Phase S
  pick (some s) _ = current s
  pick none (some s) = previous s
  pick none none = gone

  -- The phase of an id in a state of the task.
  unfoldable pub phase : ℕ → WaitListInner S → Phase S
  phase id st =
      if st.current_epoch == 0
      then pick (get id st.epoch0) (get id st.epoch1)
      else pick (get id st.epoch1) (get id st.epoch0)

  -- The index is one of the two, and the id waits in one epoch at most.
  pub record IsValid (id : ℕ) (st : WaitListInner S) : Type 0 where
    pub index : st.current_epoch < 2
    pub single : (get id st.epoch0 ≡ none) ⊎ (get id st.epoch1 ≡ none)

  abbrev pub aged : Phase S → Phase S
  aged (current s) = previous s
  aged (previous s) = gone
  aged gone = gone

  abbrev pub holder : Phase S → Option S
  holder (current s) = some s
  holder (previous s) = some s
  holder gone = none

module _ {S T : Type 0} where
  -- The specified step of the id.
  unfoldable pub phase_step : ℕ → Phase S → Wake S T → Phase S
  phase_step id p (received (register j s)) = if j == id then current s else p
  phase_step id p (received (fire j evt)) = if j == id then gone else p
  phase_step id p ticked = aged p

  -- Only an id that is gone may be registered.
  abbrev pub Admits : ℕ → Phase S → Wake S T → Type 0
  Admits id p (received (register j s)) = j ≡ id → p ≡ gone
  Admits id p (received (fire j evt)) = Unit
  Admits id p ticked = Unit

  -- In a valid state, and where an id that is registered is gone, a round of the task changes the
  -- phase of every id as specified, and leaves the state valid.
  pub phase-step :
      (id : ℕ) (st : WaitListInner S) (w : Wake S T)
      → IsValid id st
      → Admits id (phase id st) w
      → (phase id (step st w).0 ≡ phase_step id (phase id st) w) × IsValid id (step st w).0
  unfolding phase step phase_step insert
  phase-step id st (received (register j s)) v a = (
    ground (arith, get-put id j s st.epoch0, get-put id j s st.epoch1),
    ground (arith, get-put id j s st.epoch0, get-put id j s st.epoch1),
  )
  phase-step id st (received (fire j evt)) v a =
      rw (lookup-get st j)
        (ground (arith, get-delete_where id j st.epoch0, get-delete_where id j st.epoch1))
  phase-step id st ticked v a = unfold advance in ground (arith, get-[] {S = S} id)

  -- An answer goes to the holder of its id, if there is one, with the event.
  pub fire-holder :
      (st : WaitListInner S) (id : ℕ) (evt : T)
      → IsValid id st
      → (step st (received (fire id evt))).1
        ≡ elim (holder (phase id st)) [ some s ↦ some (s, evt) | none ↦ none ]
  unfolding phase step
  fire-holder st id evt v = rw (lookup-get st id) (ground arith)
