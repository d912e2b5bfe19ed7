-- ===== src/Event/Tables.antt =====
-- src/models/chirpstack_event.py, src/models/location.py and the messages of
-- src/integrations/chirpstack/schemas.py: what the event service reads and writes.
use tlrs.Prelude.{ℕ, Bool, Option, List, String, Result}
use tlrs.Model.Device.{Device}
use tlrs.Model.Time.{DateTime}
use tlrs.Model.Command.{DeviceCommandStatus, DeviceCommandAckStatus}
use tlrs.Wire.Uplink.{UpEvent, PayloadError, Fixed, Coordinate}
use tlrs.Command.Ack.{AckFailure}
use tlrs.Geofence.Tables.{GeofenceStore, EvaluationError, Evaluator, SpatialResult}
use tlrs.Assignment.{Asset}

-- `ChirpStackTxAckEvent`; `status` is the code points of its text.
pub record ChirpStackTxAckEvent : Type 0 where
  pub queue_item_id : Option String
  pub time : Option DateTime
  pub status : Option (List ℕ)

-- `ChirpStackNetworkAckEvent`
pub record ChirpStackNetworkAckEvent : Type 0 where
  pub queue_item_id : Option String
  pub acknowledged : Option Bool
  pub time : Option DateTime

-- `ChirpStackCommandAckUpEvent`, with the fields of its `ChirpStackCommandAckObject`
pub record ChirpStackCommandAckUpEvent : Type 0 where
  pub dev_eui : String
  pub command_id : String
  pub status : DeviceCommandAckStatus
  pub executed_at : Option DateTime
  pub error_message : Option String

-- The JSON object of an event, as pydantic reads it: what each `model_validate` makes of it, and the
-- text of its `ValidationError` where it refuses. `command_ack_event` is read from the up event.
pub record Payload : Type 0 where
  pub deduplication_id : Option String
  pub up_event : Result String UpEvent
  pub command_ack_event : Result String ChirpStackCommandAckUpEvent
  pub txack_event : Result String ChirpStackTxAckEvent
  pub ack_event : Result String ChirpStackNetworkAckEvent

-- The exceptions that `handle_event` catches; `multiple_results` comes from a query.
pub data EventError : Type 0 where
  invalid_payload : String → EventError
  dev_eui_mismatch multiple_results : EventError
  decoding : PayloadError → EventError
  evaluation : EvaluationError → EventError

-- An `error_message` of an event, or a `failure_reason`. `raised` has the text of an exception;
-- `invalid_ack` stands for the text of its exception.
pub data Reason : Type 0 where
  device_not_found device_application_id_missing application_id_mismatch : Reason
  unsupported_event_type : List ℕ → Reason
  unsupported_f_port : Option ℕ → Reason
  txack_queue_item_id_missing txack_queue_item_not_found : Reason
  lorawan_ack_queue_item_id_missing lorawan_ack_queue_item_not_found : Reason
  lorawan_ack_acknowledged_flag_missing : Reason
  tx_status_was : List ℕ → Reason
  ack_failure : AckFailure → Reason
  invalid_ack : EventError → Reason
  raised : List ℕ → Reason

-- A row of `chirpstack_events`; texts of the topic are code points.
pub record ChirpStackEvent : Type 0 where
  pub id : ℕ
  pub device_id : Option ℕ
  pub event_type : List ℕ
  pub application_id : List ℕ
  pub dev_eui : List ℕ
  pub deduplication_id : Option String
  pub topic : List ℕ
  pub payload : Payload
  pub processed : Bool
  pub error_message : Option Reason

-- A row of `locations`; `point` holds the coordinates again, and `geometry` is null.
pub record Location : Type 0 where
  pub id_location : ℕ
  pub device_id : ℕ
  pub latitude : Coordinate
  pub longitude : Coordinate
  pub altitude : Option Fixed
  pub accuracy : Option Fixed
  pub device_timestamp : Option ℕ
  pub received_at : ℕ

-- `RealtimeLocationData`
pub record RealtimeLocationData : Type 0 where
  pub location_id : ℕ
  pub client_id : ℕ
  pub device_id : ℕ
  pub device_serial : String
  pub latitude : Coordinate
  pub longitude : Coordinate
  pub altitude : Option Fixed
  pub accuracy : Option Fixed
  pub recorded_at : ℕ

-- `processed_kind`
pub data Kind : Type 0 where
  duplicate up location status command_ack join log txack ack unsupported error : Kind

-- `ChirpStackHandleResult`, but for its event
pub record ChirpStackHandleResult : Type 0 where
  pub success : Bool
  pub processed_kind : Kind
  pub device_id : Option ℕ
  pub location_id : Option ℕ
  pub command_uuid : Option String
  pub command_status : Option DeviceCommandStatus
  pub command_status_changed : Bool
  pub failure_reason : Option Reason
  pub realtime_location_data : Option RealtimeLocationData

-- The tables of the event service. A transaction's commands are written at the latest by the commit.
pub record EventStore : Type 0 where
  pub devices : List Device
  pub assets : List Asset
  pub locations : List Location
  pub next_location_id : ℕ
  pub geofence : GeofenceStore
  pub events : List ChirpStackEvent
  pub next_event_id : ℕ

-- What the service takes from outside: the clock, which a handler reads anew for each use; PostGIS;
-- whether another transaction has inserted the event since its id was looked for; and `str` of an
-- exception.
pub record EventContext : Type 0 where
  pub utcnow : ℕ → ℕ
  pub evaluator : Evaluator
  pub spatial : Location → ℕ → List SpatialResult
  pub inserted_meanwhile : Bool
  pub describe : EventError → List ℕ

-- What a handler leaves: its result, the event's columns, and the other tables.
pub record Handled : Type 0 where
  pub result : ChirpStackHandleResult
  pub event : ChirpStackEvent
  pub store : EventStore
