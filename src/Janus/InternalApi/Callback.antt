-- ===== src/Janus/InternalApi/Callback.antt =====
-- Who may call, and what a call between replicas does.
use conferences.Base.{
  ℕ, ◌≡◌, refl, List, [], ◌∷◌, map, some, false, ◌==◌, Result, same_text, ==→eq, Bool-cases, inl,
  inr, ◌⊎◌,
}
use conferences.AppError.{ErrorKind}
use conferences.Janus.{StreamTransaction, http, Context, Output, fire}
use conferences.Janus
use conferences.Janus.Answers.{deliver}
use conferences.Janus.InternalApi.{
  Request, StreamCallback, Config, unauthorized, not_found, is_token, register, token_of,
  is_conference, callback_stream, call, stream_callback,
}
use conferences.Janus.Online.{State}

-- A call without the token of backends and without a token of the service itself changes nothing and fires
-- nothing, whatever its path and its body.
call_refused :
    {B : Type 0} (c : Config B) (req : Request B) (st : State)
    → is_token c.token req.authorization ≡ false
    → is_conference (c.account_label (token_of req.authorization)) ≡ false
    → ((call c req st).state ≡ st)
      × ((call c req st).fired ≡ [])
      × (((call c req st).status ≡ unauthorized) ⊎ ((call c req st).status ≡ not_found))
unfolding call register callback_stream
call_refused c req st h k = elim (Bool-cases (same_text req.path "/")) [
  | inl p ↦ rw (call, p, register, h) (refl, refl, inl refl)
  | inr p ↦ elim (Bool-cases (same_text req.path "/callbacks/stream")) [
    | inl q ↦ rw (call, p, q, callback_stream, k) (refl, refl, inl refl)
    | inr q ↦ rw (call, p, q) (refl, refl, inr refl)
  ]
]

call-stream_callback :
    {B : Type 0} (c : Config B) (token : List ℕ) (st : State) (id : ℕ) (r : Result ErrorKind ℕ)
    → c.account_label token ≡ some "conference"
    → ((b : StreamCallback) → c.parse_callback (c.callback_body b) ≡ some b)
    → (call c (stream_callback c token r id) st).fired ≡ record { response = r; id = id } ∷ []
unfolding call callback_stream token_of stream_callback
call-stream_callback c token st id r h back =
    rw (callback_stream, h, back (record { response = r; id = id })) refl

-- What an output fires, and at which address: its own waitlist, or the call of another replica.
abbrev pub fired_at :
    {B : Type 0} → Config B → List ℕ → State → Context → Output → List (ℕ × StreamCallback)
fired_at c token st context (fire id r) =
    (context.own_ip_addr, record { response = r; id = id }) ∷ []
fired_at c token st context (Janus.stream_callback id addr r) =
    map (λ f. (addr, f)) (call c (stream_callback c token r id) st).fired
fired_at c token st context (Janus.stream_update room o) = []
fired_at c token st context (Janus.agent_speaking_event room n) = []
fired_at c token st context (Janus.room_upload audience e) = []
fired_at c token st context (Janus.respond reqp r) = []

-- Whichever replica handles the answer of Janus to a request, it is fired once, unchanged, under its id,
-- and at the replica that asked; provided that the token that the replicas use is one of the service, and
-- that a callback can be read back.
pub fired_at-deliver :
    {B : Type 0} (c : Config B) (token : List ℕ) (st : State) (context : Context)
    (id replica_addr : ℕ) (r : Result ErrorKind ℕ)
    → c.account_label token ≡ some "conference"
    → ((b : StreamCallback) → c.parse_callback (c.callback_body b) ≡ some b)
    → fired_at c token st context (deliver context (http id replica_addr) r)
      ≡ (replica_addr, record { response = r; id = id }) ∷ []
unfolding deliver
fired_at-deliver c token st context id addr r h back =
    elim (Bool-cases (context.own_ip_addr == addr)) [
      | inl e ↦ rw (e, ==→eq context.own_ip_addr addr e) refl
      | inr n ↦ rw (n, call-stream_callback c token st id r h back) refl
    ]
