-- ===== src/AppError/Kinds.antt =====
-- The kind strings of src/app/error.rs tell the error kinds apart.
use text.Mathlib.Text.{◌==◌ as str_eq}
use Prim.Native.String.{String}
use conferences.Base.{◌≡◌, refl, ap, ◌∙◌, sym, List, [], ◌∷◌, Option, some}
use conferences.Base.Table.{find}
use conferences.AppError.{
  ErrorKind, kind, access_denied, agent_not_connected, agent_not_entered_the_room,
  authorization_failed, authentication_failed, backend_recording_missing, backend_request_failed,
  backend_client_creation_failed, backend_request_timed_out, backend_not_found,
  broker_request_failed, capacity_exceeded, config_key_missing, db_conn_acquisition_failed,
  db_query_failed, invalid_handle_id, invalid_jsep_format, invalid_room_time, invalid_sdp_type,
  invalid_subscription_object, invalid_payload, message_building_failed, message_handling_failed,
  message_receiving_failed, message_parsing_failed, no_available_backends, not_implemented,
  publish_failed, resubscription_failed, room_closed, room_not_found, room_time_changing_forbidden,
  rtc_not_found, method_not_supported, janus_response_timeout, outbox_stage_serialization_failed,
  mqtt_publish_failed, nats_publish_failed, nats_client_not_found, outbox_pipeline_error,
}

-- Every kind, in the order of the declaration (`IntoEnumIterator`).
pub all_kinds : List ErrorKind
all_kinds =
    access_denied ∷ agent_not_connected ∷ agent_not_entered_the_room ∷ authorization_failed
    ∷ authentication_failed ∷ backend_recording_missing ∷ backend_request_failed
    ∷ backend_client_creation_failed ∷ backend_request_timed_out ∷ backend_not_found
    ∷ broker_request_failed ∷ capacity_exceeded ∷ config_key_missing ∷ db_conn_acquisition_failed
    ∷ db_query_failed ∷ invalid_handle_id ∷ invalid_jsep_format ∷ invalid_room_time
    ∷ invalid_sdp_type ∷ invalid_subscription_object ∷ invalid_payload ∷ message_building_failed
    ∷ message_handling_failed ∷ message_receiving_failed ∷ message_parsing_failed
    ∷ no_available_backends ∷ not_implemented ∷ publish_failed ∷ resubscription_failed ∷ room_closed
    ∷ room_not_found ∷ room_time_changing_forbidden ∷ rtc_not_found ∷ method_not_supported
    ∷ janus_response_timeout ∷ outbox_stage_serialization_failed ∷ mqtt_publish_failed
    ∷ nats_publish_failed ∷ nats_client_not_found ∷ outbox_pipeline_error ∷ []

-- The error kind that a kind string stands for.
pub of_kind : String → Option ErrorKind
unfolding all_kinds
of_kind s = find (λ k. str_eq (kind k) s) all_kinds

-- Every error kind is read back from its kind string.
pub of_kind-kind : (k : ErrorKind) → of_kind (kind k) ≡ some k
unfolding of_kind kind find
of_kind-kind access_denied = refl
of_kind-kind agent_not_connected = refl
of_kind-kind agent_not_entered_the_room = refl
of_kind-kind authorization_failed = refl
of_kind-kind authentication_failed = refl
of_kind-kind backend_recording_missing = refl
of_kind-kind backend_request_failed = refl
of_kind-kind backend_client_creation_failed = refl
of_kind-kind backend_request_timed_out = refl
of_kind-kind backend_not_found = refl
of_kind-kind broker_request_failed = refl
of_kind-kind capacity_exceeded = refl
of_kind-kind config_key_missing = refl
of_kind-kind db_conn_acquisition_failed = refl
of_kind-kind db_query_failed = refl
of_kind-kind invalid_handle_id = refl
of_kind-kind invalid_jsep_format = refl
of_kind-kind invalid_room_time = refl
of_kind-kind invalid_sdp_type = refl
of_kind-kind invalid_subscription_object = refl
of_kind-kind invalid_payload = refl
of_kind-kind message_building_failed = refl
of_kind-kind message_handling_failed = refl
of_kind-kind message_receiving_failed = refl
of_kind-kind message_parsing_failed = refl
of_kind-kind no_available_backends = refl
of_kind-kind not_implemented = refl
of_kind-kind publish_failed = refl
of_kind-kind resubscription_failed = refl
of_kind-kind room_closed = refl
of_kind-kind room_not_found = refl
of_kind-kind room_time_changing_forbidden = refl
of_kind-kind rtc_not_found = refl
of_kind-kind method_not_supported = refl
of_kind-kind janus_response_timeout = refl
of_kind-kind outbox_stage_serialization_failed = refl
of_kind-kind mqtt_publish_failed = refl
of_kind-kind nats_publish_failed = refl
of_kind-kind nats_client_not_found = refl
of_kind-kind outbox_pipeline_error = refl

some_inj : {j k : ErrorKind} → some j ≡ some k → j ≡ k
some_inj h = cc

-- Two error kinds that answer with the same kind string are the same.
kind-injective : (j k : ErrorKind) → kind j ≡ kind k → j ≡ k
kind-injective j k h = some_inj (sym (of_kind-kind j) ∙ ap of_kind h ∙ of_kind-kind k)
