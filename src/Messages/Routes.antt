-- ===== src/Messages/Routes.antt =====
-- src/app/endpoint/mod.rs: which method, response or event is handled by which handler.
use Prim.Native.String.{String}
use conferences.Base.{
  ◌≡◌, refl, ap, ◌∙◌, ◌↔◌, All, List, [], ◌∷◌, Option, none, some, if◌then◌else◌, same_text,
  same_text→eq, Bool-cases, inl, inr, arith,
}

pub data Route : Type 0 where
  agent_list reader_config_read reader_config_update writer_config_read writer_config_update : Route
  message_broadcast message_unicast room_close room_create room_leave room_read room_update : Route
  rtc_connect rtc_create rtc_list rtc_read rtc_signal_create rtc_stream_list : Route
  system_vacuum system_agent_cleanup system_agent_connection_cleanup : Route
  writer_config_snapshot_read : Route

-- The arms of `request_routes!`, in their order.
abbrev pub request_routes : List (String × Route)
request_routes =
    ("agent.list", agent_list)
    ∷ ("agent_reader_config.read", reader_config_read)
    ∷ ("agent_reader_config.update", reader_config_update)
    ∷ ("agent_writer_config.read", writer_config_read)
    ∷ ("agent_writer_config.update", writer_config_update)
    ∷ ("message.broadcast", message_broadcast)
    ∷ ("message.unicast", message_unicast)
    ∷ ("room.close", room_close)
    ∷ ("room.create", room_create)
    ∷ ("room.leave", room_leave)
    ∷ ("room.read", room_read)
    ∷ ("room.update", room_update)
    ∷ ("rtc.connect", rtc_connect)
    ∷ ("rtc.create", rtc_create)
    ∷ ("rtc.list", rtc_list)
    ∷ ("rtc.read", rtc_read)
    ∷ ("rtc_signal.create", rtc_signal_create)
    ∷ ("rtc_stream.list", rtc_stream_list)
    ∷ ("system.vacuum", system_vacuum)
    ∷ ("system.agent_cleanup", system_agent_cleanup)
    ∷ ("system.agent_connection_cleanup", system_agent_connection_cleanup)
    ∷ ("writer_config_snapshot.read", writer_config_snapshot_read)
    ∷ []

-- The first arm with the text.
unfoldable pub arm : {A : Type 0} → String → List (String × A) → Option A
arm text [] = none
arm text ((label, a) ∷ rest) =
    let found = arm text rest in if same_text text label then some a else found

-- The `match` of `route_request`.
unfoldable pub route_request : String → Option Route
unfolding arm
route_request method = arm method request_routes

pub data EventRoute : Type 0 where
  subscription_delete close_orphaned_rooms : EventRoute

abbrev pub event_routes : List (String × EventRoute)
event_routes =
    ("subscription.delete", subscription_delete)
    ∷ ("system.close_orphaned_rooms", close_orphaned_rooms)
    ∷ []

-- The `match` of `route_event`; an event need not have a label.
unfoldable pub route_event : Option String → Option EventRoute
unfolding arm
route_event none = none
route_event (some label) = arm label event_routes

-- The method of a route.
abbrev pub method_of : Route → String
method_of agent_list = "agent.list"
method_of reader_config_read = "agent_reader_config.read"
method_of reader_config_update = "agent_reader_config.update"
method_of writer_config_read = "agent_writer_config.read"
method_of writer_config_update = "agent_writer_config.update"
method_of message_broadcast = "message.broadcast"
method_of message_unicast = "message.unicast"
method_of room_close = "room.close"
method_of room_create = "room.create"
method_of room_leave = "room.leave"
method_of room_read = "room.read"
method_of room_update = "room.update"
method_of rtc_connect = "rtc.connect"
method_of rtc_create = "rtc.create"
method_of rtc_list = "rtc.list"
method_of rtc_read = "rtc.read"
method_of rtc_signal_create = "rtc_signal.create"
method_of rtc_stream_list = "rtc_stream.list"
method_of system_vacuum = "system.vacuum"
method_of system_agent_cleanup = "system.agent_cleanup"
method_of system_agent_connection_cleanup = "system.agent_connection_cleanup"
method_of writer_config_snapshot_read = "writer_config_snapshot.read"

route_request-method_of : (r : Route) → route_request (method_of r) ≡ some r
unfolding route_request arm
route_request-method_of agent_list = refl
route_request-method_of reader_config_read = refl
route_request-method_of reader_config_update = refl
route_request-method_of writer_config_read = refl
route_request-method_of writer_config_update = refl
route_request-method_of message_broadcast = refl
route_request-method_of message_unicast = refl
route_request-method_of room_close = refl
route_request-method_of room_create = refl
route_request-method_of room_leave = refl
route_request-method_of room_read = refl
route_request-method_of room_update = refl
route_request-method_of rtc_connect = refl
route_request-method_of rtc_create = refl
route_request-method_of rtc_list = refl
route_request-method_of rtc_read = refl
route_request-method_of rtc_signal_create = refl
route_request-method_of rtc_stream_list = refl
route_request-method_of system_vacuum = refl
route_request-method_of system_agent_cleanup = refl
route_request-method_of system_agent_connection_cleanup = refl
route_request-method_of writer_config_snapshot_read = refl

arm-keeps :
    {A : Type 0} (label_of : A → String) (text : String) (arms : List (String × A)) (a : A)
    → All (λ x. x.0 ≡ label_of x.1) arms
    → arm text arms ≡ some a
    → text ≡ label_of a
unfolding arm
arm-keeps label_of text [] a w h = ground (arith, h)
arm-keeps label_of text ((label, b) ∷ rest) a w h = elim (Bool-cases (same_text text label)) [
  | inr n ↦ arm-keeps label_of text rest a w.1 (ground (arith, h, n))
  | inl y ↦ let e : b ≡ a = ground (arith, h, y) in same_text→eq text label y ∙ w.0 ∙ ap label_of e
]

routes_fit : All (λ x. x.0 ≡ method_of x.1) request_routes
routes_fit = (
  refl,
  (
    refl,
    (
      refl,
      (
        refl,
        (
          refl,
          (
            refl,
            (
              refl,
              (
                refl,
                (
                  refl,
                  (
                    refl,
                    (
                      refl,
                      (
                        refl,
                        (
                          refl,
                          (
                            refl,
                            (refl, (refl, (refl, (refl, (refl, (refl, (refl, (refl, tt)))))))),
                          ),
                        ),
                      ),
                    ),
                  ),
                ),
              ),
            ),
          ),
        ),
      ),
    ),
  ),
)

-- A method has a route exactly if it is the method of that route: no arm is hidden by another, and
-- `room.enter` has none.
pub route_request_exact :
    (method : String) (r : Route)
    → (route_request (method_of r) ≡ some r)
      × ((route_request method ≡ some r) ↔ (method ≡ method_of r))
      × (route_request "room.enter" ≡ none)
unfolding route_request arm
route_request_exact method r = (
  route_request-method_of r,
  (
    arm-keeps method_of method request_routes r routes_fit,
    λ e. ap route_request e ∙ route_request-method_of r,
  ),
  refl,
)
