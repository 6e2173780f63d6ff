-- ===== src/Messages.antt =====
-- src/app/message_handler.rs and src/app/service_utils.rs: how a request becomes messages. Messages keep what
-- the code gives to svc_agent: payloads and correlation data are numbers, timings are left out.
pub mod Answered
pub mod Routes
use Prim.Native.String.{String}
use conferences.Base.{
  ℕ, List, [], ◌∷◌, ◌++◌, Option, none, some, Bool, true, false, if◌then◌else◌, Result, ok, err,
  ◌>>=◌, ok_or,
}
use conferences.AppError.{
  ErrorKind, ErrorKindProperties, properties, access_denied, invalid_payload, ResponseStatus,
  no_content, bad_request, method_not_allowed,
}
use conferences.AppError

-- `IncomingRequestProperties` and `IncomingResponseProperties`, as far as they are read.
pub record RequestProperties : Type 0 where
  pub agent_id : ℕ
  pub method : String
  pub correlation_data : ℕ

pub record ResponseProperties : Type 0 where
  pub status : ResponseStatus
  pub correlation_data : ℕ

-- An event to a topic, an answer to a request, an answer with an error, a request to an agent, and a response
-- that is passed on to the agent of an earlier request.
pub data Message : Type 0 where
  broadcast : (label path : String) (room_id payload : ℕ) → Message
  response : RequestProperties → ResponseStatus → (payload : ℕ) → Message
  error_response : RequestProperties → ResponseStatus → (kind title : String) → Message
  unicast_request :
      (agent_id : ℕ) (method : String) (response_topic correlation_data payload : ℕ) → Message
  unicast_response : (to : RequestProperties) → ResponseProperties → (payload : ℕ) → Message

-- `Response`. A payload that cannot be serialized is `none`.
pub record Response : Type 0 where
  pub notifications : List Message
  pub status : ResponseStatus
  pub payload : Option ℕ

-- `Response::new`.
unfoldable pub new : ResponseStatus → Option ℕ → Response
new status payload = record { notifications = []; status = status; payload = payload }

-- `Response::add_notification` and `Response::add_message`.
unfoldable pub add_message : Message → Response → Response
add_message m r = record r { notifications = r.notifications ++ m ∷ [] }

abbrev pub is_no_content : ResponseStatus → Bool
is_no_content no_content = true
is_no_content _ = false

-- `Response::into_mqtt_messages`.
unfoldable pub into_mqtt_messages : Response → RequestProperties → Result ErrorKind (List Message)
into_mqtt_messages r reqp = if is_no_content r.status then ok r.notifications else (do
  payload ← ok_or r.payload invalid_payload
  ok (r.notifications ++ response reqp r.status payload ∷ []))

pub data RequestParams : Type 0 where
  http : (agent_id : ℕ) → RequestParams
  mqtt_params : RequestProperties → RequestParams

-- `RequestParams::as_mqtt_params` and `as_agent_id`.
unfoldable pub as_mqtt_params : RequestParams → Result ErrorKind RequestProperties
as_mqtt_params (http agent_id) = err access_denied
as_mqtt_params (mqtt_params reqp) = ok reqp

unfoldable pub as_agent_id : RequestParams → ℕ
as_agent_id (http agent_id) = agent_id
as_agent_id (mqtt_params reqp) = reqp.agent_id

-- The answer with the properties of an error.
unfoldable pub error_of : RequestProperties → ErrorKind → Message
unfolding properties
error_of reqp e = let p = properties e in error_response reqp p.status p.kind p.title

-- A `RequestHandler`: its title of errors, and its handling of a payload in a state.
pub record RequestHandler (S P : Type 0) : Type 0 where
  pub error_title : String
  pub handle : S → P → RequestParams → S × Result ErrorKind Response

abbrev pub or_error : RequestProperties → Result ErrorKind (List Message) → List Message
or_error reqp (ok ms) = ms
or_error reqp (err e) = error_of reqp e ∷ []

-- `handle_envelope` of a request, on the payload that is read of it.
unfoldable pub handle_envelope :
    {S P : Type 0} → RequestHandler S P → Option P → RequestProperties → S → S × List Message
unfolding into_mqtt_messages error_of
handle_envelope h none reqp s = (s, error_response reqp bad_request reqp.method h.error_title ∷ [])
handle_envelope h (some payload) reqp s =
    let (after, app_result) = h.handle s payload (mqtt_params reqp) in
    (after, or_error reqp (do r ← app_result; into_mqtt_messages r reqp))

-- `handle_envelope` of a response and of an event: an error sends nothing.
unfoldable pub handle_or_drop :
    {S P : Type 0} → (S → P → S × Result ErrorKind (List Message)) → Option P → S → S × List Message
handle_or_drop handle none s = (s, [])
handle_or_drop handle (some payload) s =
    let (after, result) = handle s payload in (after, elim result [ ok ms ↦ ms | err e ↦ [] ])

-- `MessageHandler::handle_request`, by what the routes have for the method.
unfoldable pub handle_request :
    {S : Type 0} → Option (S → S × List Message) → RequestProperties → S → S × List Message
handle_request none reqp s =
    (s, error_response reqp method_not_allowed "about:blank" "Unknown method" ∷ [])
handle_request (some route) reqp s = route s
