-- ===== src/Janus/Answers.antt =====
-- src/backend/janus/mod.rs: the answers of Janus to the requests of streams, and the notices of speaking.
use Prim.Native.String.{String}
use conferences.Base.{
  ℕ, List, [], ◌∷◌, Option, none, some, Bool, false, if◌then◌else◌, ◌==◌, Result, ok, err, ◌>>=◌,
  ok_or, same_text,
}
use conferences.AppError.{
  ErrorKind, message_parsing_failed, backend_request_failed, capacity_exceeded,
}
use conferences.Janus.{
  StreamTransaction, mqtt, http, EventResponse, Json, Context, Output, respond, fire,
  stream_callback, agent_speaking_event,
}

-- `value == text`.
unfoldable pub is_text : Json → String → ℕ → Bool
is_text json text v = elim (json.as_str v) [ none ↦ false | some s ↦ same_text s text ]

unfoldable pub create_status : Json → ℕ → Result ErrorKind (Unit {0})
unfolding is_text
create_status json v = if is_text json "200" v then ok tt else err backend_request_failed

unfoldable pub read_status : Json → ℕ → Result ErrorKind (Unit {0})
unfolding is_text
read_status json v =
    if is_text json "200" v
    then ok tt
    else (if is_text json "503" v then err capacity_exceeded else err backend_request_failed)

-- `response_data`, once there is `data`: the answer in JSEP.
unfoldable pub response_data :
    Json → (ℕ → Result ErrorKind (Unit {0})) → Option ℕ → ℕ → Result ErrorKind ℕ
response_data json check jsep plugin_data = do
  status ← ok_or (json.get plugin_data "status") message_parsing_failed
  _ ← check status
  ok_or jsep message_parsing_failed

-- The `match` on the transaction.
unfoldable pub deliver : Context → StreamTransaction → Result ErrorKind ℕ → Output
deliver context (mqtt reqp) response = respond reqp response
deliver context (http id replica_addr) response =
    if context.own_ip_addr == replica_addr
    then fire id response
    else stream_callback id replica_addr response

-- The handling of an answer: without `data` nobody gets one.
unfoldable pub answer :
    Context
    → (Json → ℕ → Result ErrorKind (Unit {0}))
    → StreamTransaction
    → EventResponse
    → Result ErrorKind (List Output)
unfolding response_data deliver
answer context check tn resp = do
  plugin_data ← ok_or resp.data_ message_parsing_failed
  ok (
      deliver context tn (response_data context.json (check context.json) resp.jsep plugin_data)
      ∷ [])

unfoldable pub agent_speaking_impl : Context → EventResponse → Result ErrorKind (List Output)
agent_speaking_impl context resp = do
  plugin_data ← ok_or resp.data_ message_parsing_failed
  notification ← ok_or (context.json.speaking plugin_data) message_parsing_failed
  opaque_id ← ok_or resp.opaque_id message_parsing_failed
  ok (agent_speaking_event opaque_id.room_id notification ∷ [])
