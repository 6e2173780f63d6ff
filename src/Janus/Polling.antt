-- ===== src/Janus/Polling.antt =====
-- src/backend/janus/client_pool.rs: `start_polling`, as a function of what its turns meet.
pub mod Retries
use Prim.Native.String.{String}
use conferences.Base.{
  ℕ, suc, zero, List, [], ◌∷◌, ◌++◌, Option, none, some, Bool, true, false, if◌then◌else◌,
  same_text,
}
use conferences.Janus.{IncomingEvent, Json}
use conferences.Janus.Answers.{is_text}

-- What `poll` returns; an event is a JSON value.
pub data PollResult : Type 0 where
  session_not_found failed : PollResult
  events : List ℕ → PollResult

-- A turn of the loop: whether the flag is set, and what polling returns.
abbrev pub Turn : Type 0
Turn = Bool × PollResult

-- How the loop ends, if it has: `removed` means that it calls `remove_backend`.
pub data Outcome : Type 0 where
  polling cancelled removed : Outcome

-- An event that is only a sign of life.
unfoldable pub is_keepalive : Json → List ℕ → Bool
unfolding is_text
is_keepalive json (e ∷ []) = elim (json.get e "janus") [
  | none ↦ false
  | some v ↦ is_text json "keepalive" v
]
is_keepalive json [] = false
is_keepalive json (e ∷ f ∷ es) = false

-- The loop over events; an unknown one is left out.
unfoldable pub sent : (ℕ → Option IncomingEvent) → List ℕ → List IncomingEvent
sent from_value [] = []
sent from_value (e ∷ es) =
    let rest = sent from_value es in
    elim (from_value e) [ none ↦ rest | some payload ↦ payload ∷ rest ]

abbrev pub retries : ℕ
retries = 5

module _ (json : Json) (from_value : ℕ → Option IncomingEvent) where
  -- What a poll with events sends.
  unfoldable pub delivered : List ℕ → List IncomingEvent
  unfolding is_keepalive sent
  delivered es = if is_keepalive json es then [] else sent from_value es

  -- The loop, on `fail_retries_count` and the turns ahead: the events that it sends, and its end. No turn
  -- is left when it would poll on.
  unfoldable pub poll_loop : ℕ → List Turn → List IncomingEvent × Outcome
  unfolding delivered
  poll_loop zero ts = ([], removed)
  poll_loop (suc n) [] = ([], polling)
  poll_loop (suc n) ((is_cancelled, poll_result) ∷ ts) =
      let again = poll_loop retries ts in
      let failing = poll_loop n ts in
      if is_cancelled then ([], cancelled) else elim poll_result [
        | session_not_found ↦ ([], removed)
        | events es ↦ (delivered es ++ again.0, again.1)
        | failed ↦ failing
      ]

  -- `start_polling`.
  unfoldable pub start_polling : List Turn → List IncomingEvent × Outcome
  unfolding poll_loop
  start_polling ts = poll_loop retries ts
