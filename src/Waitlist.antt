-- ===== src/Waitlist.antt =====
-- src/backend/janus/waitlist.rs: waiting for an answer that comes back under a numeric id.
-- A hash map is the list of its entries. `S` is the sending half of a one-shot channel and `T` the
-- event. The task of `WaitList::new` is `step`, fed with the commands and the ticks of its timer.
pub mod Delivery
pub mod Phases
pub mod Tickets
use conferences.Base.{
  ℕ, ◌+◌, ◌%◌, ◌^◌, List, [], ◌∷◌, ◌++◌, Option, none, some, Bool, true, false, if◌then◌else◌, ◌==◌,
  Result, ok, err,
}
use conferences.Base.Table.{find, delete_where, upsert}

pub data Error : Type 0 where
  other_side_dropped internal_task_stopped timeout : Error

-- `Cmd`.
pub data Cmd (S : Type 0) (T : Type 0) : Type 0 where
  register : ℕ → S → Cmd S T
  fire : ℕ → T → Cmd S T

-- `WaitListInner`: the two hash maps of `epochs`, and the index of the current one.
pub record WaitListInner (S : Type 0) : Type 0 where
  pub epoch0 : List (ℕ × S)
  pub epoch1 : List (ℕ × S)
  pub current_epoch : ℕ

abbrev pub has_id : {S : Type 0} → ℕ → ℕ × S → Bool
has_id id e = e.0 == id

-- An event of the task's loop.
pub data Wake (S : Type 0) (T : Type 0) : Type 0 where
  received : Cmd S T → Wake S T
  ticked : Wake S T

module _ {S : Type 0} where
  pub new_inner : WaitListInner S
  new_inner = record { epoch0 = []; epoch1 = []; current_epoch = 0 }

  -- `HashMap::insert`: the value of a key that is there is replaced.
  pub put : ℕ → S → List (ℕ × S) → List (ℕ × S)
  put id s = upsert (has_id id) (λ e. (e.0, s)) (id, s)

  pub insert : WaitListInner S → ℕ → S → WaitListInner S
  insert st id s =
      if st.current_epoch == 0
      then record st { epoch0 = put id s st.epoch0 }
      else record st { epoch1 = put id s st.epoch1 }

  -- The loop over `epochs` of `lookup`, which returns at the first entry that it removes.
  pub lookup : WaitListInner S → ℕ → WaitListInner S × Option S
  lookup st id = elim (find (has_id id) st.epoch0) [
    | some e ↦ (record st { epoch0 = delete_where (has_id id) st.epoch0 }, some e.1)
    | none ↦ elim (find (has_id id) st.epoch1) [
      | some e ↦ (record st { epoch1 = delete_where (has_id id) st.epoch1 }, some e.1)
      | none ↦ (st, none)
    ]
  ]

  pub advance : WaitListInner S → WaitListInner S
  advance st =
      let next = (st.current_epoch + 1) % 2 in
      if next == 0
      then record st { epoch0 = []; current_epoch = next }
      else record st { epoch1 = []; current_epoch = next }

module _ {S T : Type 0} where
  -- What an answer does: the sender it is sent to, with the event.
  abbrev pub sent : T → WaitListInner S × Option S → WaitListInner S × Option (S × T)
  sent evt (st, some s) = (st, some (s, evt))
  sent evt (st, none) = (st, none)

  -- One round of the task's `select!`.
  pub step : WaitListInner S → Wake S T → WaitListInner S × Option (S × T)
  step st (received (register id s)) = (insert st id s, none)
  step st (received (fire id evt)) = sent evt (lookup st id)
  step st ticked = (advance st, none)

  pub run : WaitListInner S → List (Wake S T) → WaitListInner S
  run st [] = st
  run st (w ∷ ws) = run (step st w).0 ws

-- `WaitList`: the counter (a `usize`), and the commands that the task has not received yet.
pub record WaitList (S : Type 0) (T : Type 0) : Type 0 where
  pub counter : ℕ
  pub queue : List (Cmd S T)
  pub stopped : Bool

module _ {S T : Type 0} where
  -- `register` with the sender of a new one-shot channel: the id of the handle.
  pub register_handle : WaitList S T → S → WaitList S T × Result Error ℕ
  register_handle w s =
      let id = w.counter in
      let w' = record w { counter = (w.counter + 1) % 2 ^ 64 } in
      if w.stopped
      then (w', err internal_task_stopped)
      else (record w' { queue = w.queue ++ register id s ∷ [] }, ok id)

  -- `fire`.
  pub fire_event : WaitList S T → ℕ → T → WaitList S T × Result Error (Unit {0})
  fire_event w id evt =
      if w.stopped
      then (w, err internal_task_stopped)
      else (record w { queue = w.queue ++ fire id evt ∷ [] }, ok tt)

-- What the handle's `wait` returns: the receiver's answer, or none within the time.
pub wait : {T : Type 0} → Option (Option T) → Result Error T
wait none = err timeout
wait (some none) = err other_side_dropped
wait (some (some evt)) = ok evt
