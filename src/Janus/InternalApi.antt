-- ===== src/Janus/InternalApi.antt =====
-- src/backend/janus/online_handler.rs: `start_internal_api`, which backends and other replicas call, with the
-- call of src/client/conference.rs. Headers are lists of bytes; serde_json and the decoding of tokens are
-- parameters.
pub mod Callback
use Prim.Native.String.{String}
use conferences.Base.{
  ℕ, zero, suc, List, [], ◌∷◌, ◌++◌, Option, none, some, Bool, true, false, ◌&&◌, if◌then◌else◌,
  ◌==◌, Result, ok, err, ◌>>=◌, ok_or, get_or, same_text,
}
use conferences.AppError.{ErrorKind}
use conferences.Db.Rtc.{drop}
use conferences.Janus.Online.{Event, State, handle_online}
use conferences.Janus.Online

-- A request of HTTP with bodies in `B`, by its path, its header `Authorization` as text, and its body.
pub record Request (B : Type 0) : Type 0 where
  pub path : String
  pub authorization : Option (List ℕ)
  pub body : B

-- The answer that a callback carries to the waitlist. `ErrorRepr` is the kind of an error.
pub record StreamCallback : Type 0 where
  pub response : Result ErrorKind ℕ
  pub id : ℕ

-- The token of backends, the label of the account of a token, and how bodies are read and written.
pub record Config (B : Type 0) : Type 0 where
  pub token : List ℕ
  pub account_label : List ℕ → Option String
  pub parse_online : B → Option Event
  pub parse_callback : B → Option StreamCallback
  pub callback_body : StreamCallback → B
  pub janus : Online.Janus
  pub db_now : ℕ

pub data Status : Type 0 where
  status_ok unauthorized not_found internal_server_error : Status

-- What a call does: the state after it, what it fires into the waitlist, and its status.
pub record Called : Type 0 where
  pub state : State
  pub fired : List StreamCallback
  pub status : Status

abbrev pub called : State → List StreamCallback → Status → Called
called st fired status = record { state = st; fired = fired; status = status }

unfoldable pub same_bytes : List ℕ → List ℕ → Bool
same_bytes [] [] = true
same_bytes (a ∷ as_) (b ∷ bs) = a == b && same_bytes as_ bs
same_bytes [] (b ∷ bs) = false
same_bytes (a ∷ as_) [] = false

abbrev pub is_token : List ℕ → Option (List ℕ) → Bool
is_token token none = false
is_token token (some h) = same_bytes h token

-- The branch `/`.
unfoldable pub register : {B : Type 0} → Config B → Request B → State → Called
unfolding same_bytes handle_online
register c req st =
    if is_token c.token req.authorization
    then elim (c.parse_online req.body) [
      | none ↦ called st [] internal_server_error
      | some online ↦
          let (after, r) = handle_online c.janus online c.db_now st in
          called after [] (elim r [ ok _ ↦ status_ok | err e ↦ internal_server_error ])
    ]
    else called st [] unauthorized

abbrev pub bearer : List ℕ
bearer = b'B' ∷ b'e' ∷ b'a' ∷ b'r' ∷ b'e' ∷ b'r' ∷ b' ' ∷ []

-- `x.get("Bearer ".len()..)`, and the empty text where there is none.
unfoldable pub token_of : Option (List ℕ) → List ℕ
token_of none = []
token_of (some h) = drop 7 h

abbrev pub is_conference : Option String → Bool
is_conference none = false
is_conference (some label) = same_text label "conference"

-- The branch `/callbacks/stream`.
unfoldable pub callback_stream : {B : Type 0} → Config B → Request B → State → Called
unfolding token_of
callback_stream c req st =
    if is_conference (c.account_label (token_of req.authorization))
    then elim (c.parse_callback req.body) [
      | none ↦ called st [] internal_server_error
      | some callback ↦ called st (callback ∷ []) status_ok
    ]
    else called st [] unauthorized

-- The `match` on the path.
unfoldable pub call : {B : Type 0} → Config B → Request B → State → Called
unfolding register callback_stream
call c req st =
    let online = register c req st in
    let callback = callback_stream c req st in
    if same_text req.path "/"
    then online
    else (if same_text req.path "/callbacks/stream" then callback else called st [] not_found)

-- `ConferenceHttpClient::stream_callback`: the request that it posts, with its token.
unfoldable pub stream_callback :
    {B : Type 0} → Config B → List ℕ → Result ErrorKind ℕ → ℕ → Request B
stream_callback c token response id = record {
  path = "/callbacks/stream";
  authorization = some (bearer ++ token);
  body = c.callback_body (record { response = response; id = id });
}
