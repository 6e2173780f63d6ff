-- ===== src/Endpoint/Message.antt =====
-- src/app/endpoint/message.rs: messages from agent to agent and to a whole room, with `route_response` of
-- src/app/endpoint/mod.rs for the answers. serde_json and the topics of svc_agent are parameters.
pub mod Returned
use Prim.Native.String.{String}
use conferences.Base.{ℕ, List, [], ◌∷◌, Option, none, some, Result, ok, err, ◌>>=◌, ok_or}
use conferences.AppError.{ErrorKind, message_building_failed}
use conferences.AppError
use conferences.Db.Agent
use conferences.Db.Room
use conferences.Endpoint.Helpers.{find_room_by_id, check_room_presence, opened}
use conferences.Messages.{
  RequestProperties, ResponseProperties, Message, broadcast, unicast_request, unicast_response,
  Response, new, add_message, RequestParams, as_mqtt_params, as_agent_id,
}

-- `CorrelationData`. That of a subscription is a number.
pub data CorrelationData : Type 0 where
  subscription_delete : ℕ → CorrelationData
  message_unicast : RequestProperties → CorrelationData

-- `dump` and `parse` of correlation data, the topic for responses of an agent, and the value of `json!({})`.
pub record Codec : Type 0 where
  pub dump : CorrelationData → Option ℕ
  pub parse : ℕ → Option CorrelationData
  pub response_topic : ℕ → Option ℕ
  pub empty_object : ℕ

pub record UnicastRequest : Type 0 where
  pub agent_id : ℕ
  pub room_id : ℕ
  pub data_ : ℕ

-- The rooms and the agents.
pub record Tables : Type 0 where
  pub rooms : List Room.Object
  pub agents : List Agent.Object

-- `UnicastHandler::handle`, at the time of the clock.
unfoldable pub unicast :
    Codec → ℕ → Tables → UnicastRequest → RequestParams → Result ErrorKind Response
unfolding as_mqtt_params as_agent_id find_room_by_id check_room_presence new add_message
unicast c now t payload reqp = do
  mqtt_params ← as_mqtt_params reqp
  room ← find_room_by_id payload.room_id opened now t.rooms
  _ ← check_room_presence room (as_agent_id reqp) t.agents
  _ ← check_room_presence room payload.agent_id t.agents
  response_topic ← ok_or (c.response_topic payload.agent_id) message_building_failed
  corr_data ← ok_or (c.dump (message_unicast mqtt_params)) message_building_failed
  let message : Message =
      unicast_request payload.agent_id mqtt_params.method response_topic corr_data payload.data_
  ok (add_message message (new AppError.ok (some c.empty_object)))

pub record BroadcastRequest : Type 0 where
  pub room_id : ℕ
  pub data_ : ℕ
  pub label : Option String

-- `BroadcastHandler::handle`.
unfoldable pub broadcast_to_room :
    Codec → ℕ → Tables → BroadcastRequest → RequestParams → Result ErrorKind Response
unfolding as_agent_id find_room_by_id check_room_presence new add_message
broadcast_to_room c now t payload reqp = do
  room ← find_room_by_id payload.room_id opened now t.rooms
  _ ← check_room_presence room (as_agent_id reqp) t.agents
  let message : Message = broadcast "message.broadcast" "rooms/{}/events" room.id payload.data_
  ok (add_message message (new AppError.ok (some c.empty_object)))

-- `UnicastResponseHandler::handle`: the response goes to the agent of the first request, under the
-- correlation data of that request.
unfoldable pub unicast_response_to :
    (payload : ℕ) → ResponseProperties → RequestProperties → List Message
unicast_response_to payload respp reqp =
    unicast_response reqp (record respp { correlation_data = reqp.correlation_data }) payload ∷ []

-- `route_response`, by the handlers of the two kinds of correlation data.
unfoldable pub route_response :
    Codec
    → (ResponseProperties → ℕ → List Message)
    → (ResponseProperties → RequestProperties → List Message)
    → ResponseProperties
    → List Message
route_response c on_subscription on_unicast respp = elim (c.parse respp.correlation_data) [
  | none ↦ []
  | some (subscription_delete cd) ↦ on_subscription respp cd
  | some (message_unicast reqp) ↦ on_unicast respp reqp
]
