-- ===== src/Stage.antt =====
-- src/app/stage: the three stages of a change of video groups, each with the one that follows it.
-- `Services` stands for what the handlers call: the database, Janus, NATS and the MQTT broker.
-- Agent ids, uuids and JSON payloads are numbers that are only compared.
pub mod Chain
use Prim.Native.String.{String}
use conferences.Base.{
  ℕ, List, [], ◌∷◌, Option, none, some, Bool, true, false, Result, ok, err, ◌>>=◌, map_err, ok_or,
}
use conferences.AppError.{
  ErrorKind, kind, db_conn_acquisition_failed, db_query_failed, backend_not_found,
  backend_client_creation_failed, backend_request_failed, invalid_payload, nats_client_not_found,
  nats_publish_failed, mqtt_publish_failed,
}
use conferences.Db.JanusBackend

-- svc_events' `VideoGroupEventV1`, each with its time of creation.
pub data VideoGroupEvent : Type 0 where
  created deleted updated : ℕ → VideoGroupEvent

-- `UpdateReaderConfigRequestBodyConfigItem`.
pub record ConfigItem : Type 0 where
  pub reader_id : ℕ
  pub stream_id : ℕ
  pub receive_video : Bool
  pub receive_audio : Bool

pub data AppStage : Type 0 where
  video_group_update_janus_config :
      (room_id classroom_id : ℕ) (event : VideoGroupEvent) (backend_id : ℕ)
      (configs : List ConfigItem)
      → AppStage
  video_group_send_nats_notification :
      (room_id classroom_id : ℕ) (event : VideoGroupEvent) → AppStage
  video_group_send_mqtt_notification : (room_id : ℕ) → AppStage

pub record Services : Type 0 where
  pub conn : Bool
  pub query : Bool
  pub backends : List JanusBackend.Object
  pub get_or_insert : JanusBackend.Object → Bool
  pub reader_update : (session_id handle_id : ℕ) → List ConfigItem → Bool
  pub to_vec : VideoGroupEvent → Option ℕ
  pub nats_client : Bool
  pub nats_publish : (classroom_id : ℕ) (payload : ℕ) → Bool
  pub mqtt_publish : (room_id : ℕ) → Bool

abbrev ensure : Bool → ErrorKind → Result ErrorKind (Unit {0})
ensure true k = ok tt
ensure false k = err k

-- The `handle` of the three stages.
pub handle_stage : Services → AppStage → Result ErrorKind (Option AppStage)
handle_stage s (video_group_update_janus_config room_id classroom_id event backend_id configs) = do
  _ ← ensure s.conn db_conn_acquisition_failed
  _ ← ensure s.query db_query_failed
  backend ← ok_or (JanusBackend.find_query s.backends backend_id) backend_not_found
  _ ← ensure (s.get_or_insert backend) backend_client_creation_failed
  _ ← ensure (s.reader_update backend.session_id backend.handle_id configs) backend_request_failed
  ok (some (video_group_send_nats_notification room_id classroom_id event))
handle_stage s (video_group_send_nats_notification room_id classroom_id event) = do
  payload ← ok_or (s.to_vec event) invalid_payload
  _ ← ensure s.nats_client nats_client_not_found
  _ ← ensure (s.nats_publish classroom_id payload) nats_publish_failed
  ok (some (video_group_send_mqtt_notification room_id))
handle_stage s (video_group_send_mqtt_notification room_id) = do
  _ ← ensure (s.mqtt_publish room_id) mqtt_publish_failed
  ok none

-- `AppStage::handle`, with the error as a `StageError`.
pub handle : Services → AppStage → Result String (Option AppStage)
unfolding handle_stage
handle s stage = map_err kind (handle_stage s stage)
