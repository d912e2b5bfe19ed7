-- ===== src/Event/Uplink.antt =====
-- src/integrations/chirpstack/service.py: the event `up`, with a location, a status report or the ACK
-- of a command.
use tlrs.Prelude.{
  ℕ, Bool, false, not, Option, none, some, List, opt_is, String, Result, ok, err, ◌>>=◌, ◌>>◌,
  raise_if, if◌then◌else◌, is_some,
}
use text.Mathlib.Text.{◌==◌ as str_eq}
use tlrs.Model.Text.{codes, same_text}
use tlrs.Model.Device.{Device}
use tlrs.Model.Command.{DeviceCommand, DeviceCommandAckPayload, message, Message}
use tlrs.Wire.Contract.{location_uplink_fport, status_uplink_fport, command_ack_fport}
use tlrs.Wire.Uplink.{UpEvent}
use tlrs.Wire.Uplink.Ack.{decode_command_ack_payload_v1}
use tlrs.Wire.Uplink.Status.{decode_status_payload_v1}
use tlrs.Wire.Uplink.Location.{decode_up_event}
use tlrs.Command.Ack.{
  QueryError, AckResult, failed, applied, process_ack, process_ack_by_command_seq,
}
use tlrs.Command.Create.{wrap}
use tlrs.Event.Tables.{
  ChirpStackCommandAckUpEvent, Payload, EventError, dev_eui_mismatch, multiple_results, decoding,
  unsupported_f_port, ack_failure, invalid_ack, ChirpStackEvent, ChirpStackHandleResult, Kind,
  EventStore, EventContext, Handled, Location, RealtimeLocationData,
}
use tlrs.Event.Guard.{
  get_device, mark_processed, mark_reason, of_device, refuse, succeeded, failed_for, Handler,
  for_device, validated,
}
use tlrs.Event.Network.{commands_of, status_changed}
use tlrs.Event.Location.{save_device, seen_at, persist_location, build_realtime_location_data}

-- `_validate_up_event`
unfoldable pub validate_up_event : Payload → List ℕ → Result EventError UpEvent
validate_up_event payload dev_eui = do
  up ← validated payload.up_event
  raise_if (not (same_text (codes up.dev_eui) dev_eui)) dev_eui_mismatch
  ok up

abbrev is_eui : Option String → String → Bool
is_eui none s = false
is_eui (some eui) s = str_eq eui s

abbrev opt_message : Option String → Option Message
opt_message none = none
opt_message (some s) = some (message s)

-- The branch of `_build_command_ack_payload` for a decoded object
abbrev ack_of_object :
    Device → ChirpStackCommandAckUpEvent → Result EventError DeviceCommandAckPayload
ack_of_object device ack =
    raise_if (not (is_eui device.chirpstack_dev_eui ack.dev_eui)) dev_eui_mismatch
    >> ok (record {
      command_id = some ack.command_id;
      command_seq = none;
      status = ack.status;
      executed_at = ack.executed_at;
      error_message = opt_message ack.error_message;
    })

-- `_build_command_ack_payload`; each of its errors is a ValueError
unfoldable pub build_command_ack_payload :
    Device → Payload → UpEvent → Result EventError DeviceCommandAckPayload
unfolding decode_command_ack_payload_v1
build_command_ack_payload device payload up =
    if is_some up.decoded
    then validated payload.command_ack_event >>= ack_of_object device
    else wrap decoding (decode_command_ack_payload_v1 up)

abbrev query_error : QueryError → EventError
query_error _ = multiple_results

-- The call of the acknowledgement service
unfoldable pub acknowledge :
    ℕ
    → Device
    → DeviceCommandAckPayload
    → List DeviceCommand
    → Result EventError (AckResult × List DeviceCommand)
unfolding process_ack process_ack_by_command_seq
acknowledge now device p rows = wrap query_error (
    if is_some p.command_id
    then process_ack now p rows
    else process_ack_by_command_seq now device.id_device p rows)

abbrev put_commands : List DeviceCommand → EventStore → EventStore
put_commands rows db = record db {
  geofence = record (db.geofence) { commands = record (db.geofence.commands) { rows = rows } };
}

-- The end of `_process_application_ack_up_event`
unfoldable pub finish_application_ack :
    ℕ
    → Option String
    → Device
    → AckResult × List DeviceCommand
    → ChirpStackEvent
    → EventStore
    → Handled
finish_application_ack now command_id device (failed reason, rows) event db = record {
  result = record (failed_for Kind.command_ack (some device.id_device) (ack_failure reason)) {
    command_uuid = command_id;
  };
  event = mark_reason (ack_failure reason) event;
  store = put_commands rows db;
}
finish_application_ack now command_id device (applied c previous, rows) event db = record {
  result = record (succeeded Kind.command_ack (some device.id_device)) {
    command_uuid = some c.command_uuid;
    command_status = some c.status;
    command_status_changed = status_changed previous c.status;
  };
  event = mark_processed event;
  store = save_device (seen_at now device) (put_commands rows db);
}

-- `_process_application_ack_up_event`
unfoldable pub process_application_ack : EventContext → Payload → UpEvent → Handler
unfolding build_command_ack_payload acknowledge finish_application_ack
process_application_ack ctx payload up device event db =
    elim (build_command_ack_payload device payload up) [
      | err e ↦ ok (refuse Kind.command_ack (some device.id_device) (invalid_ack e) event db)
      | ok p ↦ acknowledge (ctx.utcnow 0) device p (commands_of db) >>= λ acked.
          ok (finish_application_ack (ctx.utcnow 1) p.command_id device acked event db)
    ]

-- `_process_status_up_event`
unfoldable pub process_status : EventContext → UpEvent → Handler
unfolding decode_status_payload_v1
process_status ctx up device event db = do
  _ ← wrap decoding (decode_status_payload_v1 up)
  ok (record {
    result = succeeded Kind.status (some device.id_device);
    event = mark_processed event;
    store = save_device (seen_at (ctx.utcnow 0) device) db;
  })

abbrev location_result : Device → Location → Option RealtimeLocationData → ChirpStackHandleResult
location_result device l realtime = record (succeeded Kind.location (some device.id_device)) {
  location_id = some l.id_location;
  realtime_location_data = realtime;
}

-- The end of `_process_up_event`, for a location
unfoldable pub process_location : EventContext → UpEvent → Handler
unfolding decode_up_event persist_location build_realtime_location_data
process_location ctx up device event db = do
  t ← wrap decoding (decode_up_event up)
  stored ← persist_location ctx device t (ctx.utcnow 0) db
  realtime ← build_realtime_location_data device stored.0 db.assets
  ok (record {
    result = location_result device stored.0 realtime;
    event = mark_processed event;
    store = stored.1;
  })

-- `if device.chirpstack_device_profile_id is None: …`
abbrev pub with_profile : Option String → Device → Device
with_profile profile d =
    if is_some d.chirpstack_device_profile_id
    then d
    else (record d { chirpstack_device_profile_id = profile })

-- The choice by the port
unfoldable pub process_port : EventContext → Payload → UpEvent → Handler
unfolding process_application_ack process_status process_location
process_port ctx payload up device event db =
    if opt_is up.f_port command_ack_fport
    then process_application_ack ctx payload up device event db
    else if opt_is up.f_port status_uplink_fport
    then process_status ctx up device event db
    else if opt_is up.f_port location_uplink_fport
    then process_location ctx up device event db
    else ok (refuse Kind.up (some device.id_device) (unsupported_f_port up.f_port) event db)

-- `_process_up_event` behind the checks of the device; its lock makes it one step
unfoldable pub process_up : EventContext → Payload → List ℕ → Handler
unfolding validate_up_event process_port
process_up ctx payload dev_eui device event db = do
  up ← validate_up_event payload dev_eui
  let device' = with_profile up.device_profile_id device
  process_port ctx payload up device' (of_device device event) (save_device device' db)

-- `_process_up_event`
unfoldable pub process_up_event :
    EventContext
    → List ℕ
    → List ℕ
    → Payload
    → ChirpStackEvent
    → EventStore
    → Result EventError Handled
unfolding get_device for_device process_up
process_up_event ctx application_id dev_eui payload event db =
    get_device dev_eui db.devices >>= λ device.
    for_device Kind.location Kind.up application_id (process_up ctx payload dev_eui) device event db
