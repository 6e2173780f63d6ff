-- ===== src/AppError.antt =====
-- src/app/error.rs: the kinds of application errors and what each of them answers.
-- An `Error` is its kind; its source, which is only printed and sent to Sentry, is left out.
pub mod Kinds
use Prim.Native.String.{String}
use conferences.Base.{Bool, true, false}

-- The statuses of `ResponseStatus` that the code answers with.
pub data ResponseStatus : Type 0 where
  ok no_content forbidden unprocessable_entity not_found unauthorized failed_dependency :
      ResponseStatus
  service_unavailable bad_request internal_server_error method_not_allowed : ResponseStatus

pub data ErrorKind : Type 0 where
  access_denied agent_not_connected agent_not_entered_the_room authorization_failed : ErrorKind
  authentication_failed backend_recording_missing backend_request_failed : ErrorKind
  backend_client_creation_failed backend_request_timed_out backend_not_found : ErrorKind
  broker_request_failed capacity_exceeded config_key_missing db_conn_acquisition_failed : ErrorKind
  db_query_failed invalid_handle_id invalid_jsep_format invalid_room_time invalid_sdp_type :
      ErrorKind
  invalid_subscription_object invalid_payload message_building_failed : ErrorKind
  message_handling_failed message_receiving_failed message_parsing_failed : ErrorKind
  no_available_backends not_implemented publish_failed resubscription_failed room_closed : ErrorKind
  room_not_found room_time_changing_forbidden rtc_not_found method_not_supported : ErrorKind
  janus_response_timeout outbox_stage_serialization_failed mqtt_publish_failed : ErrorKind
  nats_publish_failed nats_client_not_found outbox_pipeline_error : ErrorKind

pub record ErrorKindProperties : Type 0 where
  pub status : ResponseStatus
  pub kind : String
  pub title : String
  pub is_notify_sentry : Bool

abbrev answers : ResponseStatus → String → String → Bool → ErrorKindProperties
answers s k t n = record { status = s; kind = k; title = t; is_notify_sentry = n }

-- `From<ErrorKind> for ErrorKindProperties`.
unfoldable pub properties : ErrorKind → ErrorKindProperties
properties access_denied = answers forbidden "access_denied" "Access denied" false
properties agent_not_connected =
    answers unprocessable_entity "agent_not_connected" "Agent not connected to the RTC" false
properties agent_not_entered_the_room =
    answers not_found "agent_not_entered_the_room" "Agent not entered the room" false
properties authorization_failed =
    answers unprocessable_entity "authorization_failed" "Authorization failed" false
properties authentication_failed =
    answers unauthorized "authentication_failed" "Authentication failed" true
properties backend_recording_missing =
    answers unprocessable_entity "backend_recording_missing" "Janus recording missing" true
properties backend_request_failed =
    answers failed_dependency "backend_request_failed" "Janus request failed" true
properties backend_client_creation_failed =
    answers failed_dependency "backend_client_creation_failed" "Janus create client failed" true
properties backend_request_timed_out =
    answers failed_dependency "backend_request_timed_out" "Janus request timed out" true
properties backend_not_found = answers not_found "backend_not_found" "Backend not found" true
properties broker_request_failed =
    answers unprocessable_entity "broker_request_failed" "Broker request failed" true
properties capacity_exceeded =
    answers service_unavailable "capacity_exceeded" "Capacity exceeded" true
properties config_key_missing =
    answers unprocessable_entity "config_key_missing" "Config key missing" true
properties db_conn_acquisition_failed =
    answers unprocessable_entity "database_connection_acquisition_failed"
      "Database connection acquisition failed" true
properties db_query_failed =
    answers unprocessable_entity "database_query_failed" "Database query failed" true
properties invalid_handle_id = answers bad_request "invalid_handle_id" "Invalid handle ID" false
properties invalid_jsep_format =
    answers bad_request "invalid_jsep_format" "Invalid JSEP format" false
properties invalid_room_time = answers bad_request "invalid_room_time" "Invalid room time" true
properties invalid_sdp_type = answers bad_request "invalid_sdp_type" "Invalid SDP type" false
properties invalid_subscription_object =
    answers bad_request "invalid_subscription_object" "Invalid subscription object" true
properties invalid_payload = answers bad_request "invalid_payload" "Invalid payload" false
properties message_building_failed =
    answers unprocessable_entity "message_building_failed" "Message building failed" true
properties message_handling_failed =
    answers unprocessable_entity "message_handling_failed" "Message handling failed" true
properties message_receiving_failed =
    answers internal_server_error "message_receiving_failed" "Message receiving failed" true
properties message_parsing_failed =
    answers bad_request "message_parsing_failed" "Message parsing failed" true
properties no_available_backends =
    answers service_unavailable "no_available_backends" "No available backends" true
properties not_implemented = answers internal_server_error "not_implemented" "Not implemented" true
properties publish_failed = answers unprocessable_entity "publish_failed" "Publish failed" true
properties resubscription_failed =
    answers internal_server_error "resubscription_failed" "Resubscription failed" true
properties room_closed = answers not_found "room_closed" "Room closed" false
properties room_not_found = answers not_found "room_not_found" "Room not found" false
properties room_time_changing_forbidden =
    answers unprocessable_entity "room_time_changing_forbidden" "Room time changing forbidden" false
properties rtc_not_found = answers not_found "rtc_not_found" "RTC not found" false
properties method_not_supported =
    answers method_not_allowed "method_not_supported" "Method not supported" true
properties janus_response_timeout =
    answers failed_dependency "janus_response_timeout" "Janus response timeout" true
properties outbox_stage_serialization_failed =
    answers unprocessable_entity "outbox_stage_serialization_failed"
      "Outbox stage serialization failed" true
properties mqtt_publish_failed =
    answers unprocessable_entity "mqtt_publish_failed" "Mqtt publish failed" true
properties nats_publish_failed =
    answers unprocessable_entity "nats_publish_failed" "Nats publish failed" true
properties nats_client_not_found =
    answers failed_dependency "nats_client_not_found" "Nats client not found" true
properties outbox_pipeline_error =
    answers failed_dependency "outbox pipeline error" "Outbox pipeline error" true

pub status : ErrorKind → ResponseStatus
unfolding properties
status k = (properties k).status

unfoldable pub kind : ErrorKind → String
unfolding properties
kind k = (properties k).kind
