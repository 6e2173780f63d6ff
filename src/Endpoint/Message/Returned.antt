-- ===== src/Endpoint/Message/Returned.antt =====
-- A message goes to agents who share a room, and its answer comes back.
use conferences.Base.{
  ℕ, ◌≡◌, refl, sym, ap, List, [], ◌∷◌, some, ok, ok_or, ok_or-some, bind_ok, ok_eq,
}
use conferences.AppError.{message_building_failed}
use conferences.Db.Room
use conferences.Endpoint.Helpers.{find_room_by_id, check_room_presence, opened}
use conferences.Messages.{
  RequestProperties, ResponseProperties, Message, unicast_request, unicast_response, Response, new,
  add_message, mqtt_params, as_mqtt_params, as_agent_id,
}
use conferences.Endpoint.Message.{
  CorrelationData, message_unicast, Codec, UnicastRequest, Tables, unicast, unicast_response_to,
  route_response,
}

-- A response whose correlation data are those of a unicast.
route_response-parsed :
    (c : Codec) (on_subscription : ResponseProperties → ℕ → List Message)
    (on_unicast : ResponseProperties → RequestProperties → List Message)
    (respp : ResponseProperties) (reqp : RequestProperties)
    → c.parse respp.correlation_data ≡ some (message_unicast reqp)
    → route_response c on_subscription on_unicast respp ≡ on_unicast respp reqp
unfolding route_response
route_response-parsed c on_subscription on_unicast respp reqp h = rw (route_response, h) refl

-- If a unicast succeeds, the room is open, and the sender and the receiver are both in it; one request is
-- sent, to the receiver. Whatever the receiver responds with the correlation data of that request is sent
-- to the sender, with the status of the response and the correlation data of the sender's own request;
-- provided that correlation data can be read back.
pub route_response-unicast :
    (c : Codec) (now : ℕ) (t : Tables) (payload : UnicastRequest) (reqp : RequestProperties)
    (r : Response) (on_subscription : ResponseProperties → ℕ → List Message)
    (respp : ResponseProperties) (answer : ℕ)
    → ((d : CorrelationData) (n : ℕ) → c.dump d ≡ some n → c.parse n ≡ some d)
    → unicast c now t payload (mqtt_params reqp) ≡ ok r
    → (room : Room.Object) × (find_room_by_id payload.room_id opened now t.rooms ≡ ok room)
      × (check_room_presence room reqp.agent_id t.agents ≡ ok tt)
      × (check_room_presence room payload.agent_id t.agents ≡ ok tt)
      × (topic : ℕ) × (corr : ℕ) × (r.notifications
          ≡ unicast_request payload.agent_id reqp.method topic corr payload.data_ ∷ [])
      × (route_response c on_subscription
            (unicast_response_to answer)
            (record respp { correlation_data = corr })
          ≡ unicast_response reqp
              (record { status = respp.status; correlation_data = reqp.correlation_data })
              answer
            ∷ [])
unfolding unicast as_mqtt_params as_agent_id route_response unicast_response_to new add_message
route_response-unicast c now t payload reqp r on_subscription respp answer back h =
    let (room, found, k1) = bind_ok (find_room_by_id payload.room_id opened now t.rooms) _ r h in
    let (_, sender, k2) = bind_ok (check_room_presence room reqp.agent_id t.agents) _ r k1 in
    let (_, receiver, k3) = bind_ok (check_room_presence room payload.agent_id t.agents) _ r k2 in
    let (topic, _, k4) =
      bind_ok (ok_or (c.response_topic payload.agent_id) message_building_failed) _ r k3 in
    let (corr, dumped, k5) =
      bind_ok (ok_or (c.dump (message_unicast reqp)) message_building_failed) _ r k4 in
    let parsed =
      back (message_unicast reqp) corr (ok_or-some _ message_building_failed corr dumped) in
    (
      room,
      found,
      sender,
      receiver,
      topic,
      corr,
      ap (λ x. x.notifications) (sym (ok_eq k5)),
      route_response-parsed c on_subscription (unicast_response_to answer) _ reqp parsed,
    )
