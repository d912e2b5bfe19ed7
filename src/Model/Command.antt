-- ===== src/Model/Command.antt =====
-- src/models/device_command.py and src/schemas/device_command_ack.py: a command for a device, its
-- life cycle, and what a device reports of it. JSON payloads and text are carried and never parsed.
use text.Mathlib.Text.{◌==◌ as str_eq}
use tlrs.Prelude.{ℕ, Option, none, some, Bool, String, List, if◌then◌else◌}
use tlrs.Model.Time.{DateTime}

pub data DeviceCommandType : Type 0 where
  set_report_interval warning_sound vibration stop_correction : DeviceCommandType
  emergency_disable request_status : DeviceCommandType

pub data DeviceCommandStatus : Type 0 where
  pending sent acked failed expired : DeviceCommandStatus

pub data DeviceCommandAckStatus : Type 0 where
  executed duplicate expired rejected failed : DeviceCommandAckStatus

-- An `error_message`: a text, `UNKNOWN_DEVICE_ERROR_CODE_<code>_<status>`, or
-- `LoRaWAN downlink transmission status was <status>`.
pub data Message : Type 0 where
  message : String → Message
  device_error : ℕ → DeviceCommandAckStatus → Message
  transmission_status : List ℕ → Message

-- The JSON object of a downlink, as `ChirpStackDownlinkClient.build_payload` writes it; `data` is
-- the code points of its base64 text.
pub record DownlinkPayload : Type 0 where
  pub dev_eui : String
  pub confirmed : Bool
  pub f_port : ℕ
  pub text : List ℕ
  pub command_id : String
  pub command_seq : ℕ

-- A row of `device_commands`; times are UTC-naive microseconds.
pub record DeviceCommand : Type 0 where
  pub id_command : ℕ
  pub command_uuid : String
  pub chirpstack_queue_item_id : Option String
  pub command_seq : Option ℕ
  pub device_id : ℕ
  pub asset_id : Option ℕ
  pub geofence_event_id : Option ℕ
  pub command_type : DeviceCommandType
  pub status : DeviceCommandStatus
  pub topic : String
  pub payload : DownlinkPayload
  pub qos : ℕ
  pub retain : Bool
  pub created_at : ℕ
  pub sent_at : Option ℕ
  pub tx_acked_at : Option ℕ
  pub lorawan_ack_at : Option ℕ
  pub ack_at : Option ℕ
  pub failed_at : Option ℕ
  pub expires_at : Option ℕ
  pub error_message : Option Message

pub record DeviceCommandAckPayload : Type 0 where
  pub command_id : Option String
  pub command_seq : Option ℕ
  pub status : DeviceCommandAckStatus
  pub executed_at : Option DateTime
  pub error_message : Option Message

-- `status in TERMINAL_STATUSES`
abbrev pub is_terminal : DeviceCommandStatus → Bool
is_terminal DeviceCommandStatus.acked = Bool.true
is_terminal DeviceCommandStatus.failed = Bool.true
is_terminal DeviceCommandStatus.expired = Bool.true
is_terminal _ = Bool.false

abbrev pub is_pending : DeviceCommandStatus → Bool
is_pending DeviceCommandStatus.pending = Bool.true
is_pending _ = Bool.false

-- `message or default`: `None` and the empty text give way.
abbrev pub message_or : Option Message → Message → Message
message_or none default = default
message_or (some (message s)) default = if str_eq s "" then default else message s
message_or (some (device_error code status)) default = device_error code status
message_or (some (transmission_status status)) default = transmission_status status

abbrev pub same_type : DeviceCommandType → DeviceCommandType → Bool
same_type DeviceCommandType.set_report_interval DeviceCommandType.set_report_interval = Bool.true
same_type DeviceCommandType.warning_sound DeviceCommandType.warning_sound = Bool.true
same_type DeviceCommandType.vibration DeviceCommandType.vibration = Bool.true
same_type DeviceCommandType.stop_correction DeviceCommandType.stop_correction = Bool.true
same_type DeviceCommandType.emergency_disable DeviceCommandType.emergency_disable = Bool.true
same_type DeviceCommandType.request_status DeviceCommandType.request_status = Bool.true
same_type _ _ = Bool.false
