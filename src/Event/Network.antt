-- ===== src/Event/Network.antt =====
-- src/integrations/chirpstack/service.py: the events `txack` and `ack`, by which the network reports
-- of a downlink.
use text.Mathlib.Text.{◌==◌ as str_eq}
use tlrs.Prelude.{
  ℕ, Bool, true, false, ◌||◌, not, Option, none, some, List, [], ◌==◌, map, select, String, Result,
  ok, ◌>>=◌, if◌then◌else◌, or_else,
}
use tlrs.Model.Text.{codes, same_text, is_empty, strip, to_upper}
use tlrs.Model.Time.{to_utc_naive}
use tlrs.Model.Query.{scalar_one_or_none}
use tlrs.Model.Table.{save}
use tlrs.Model.Device.{Device}
use tlrs.Model.Command.{
  DeviceCommand, DeviceCommandStatus, message, transmission_status, is_terminal,
}
use tlrs.Event.Tables.{
  ChirpStackTxAckEvent, ChirpStackNetworkAckEvent, Payload, EventError, multiple_results, Reason,
  txack_queue_item_id_missing, txack_queue_item_not_found, lorawan_ack_queue_item_id_missing,
  lorawan_ack_queue_item_not_found, lorawan_ack_acknowledged_flag_missing, tx_status_was,
  ChirpStackEvent, ChirpStackHandleResult, Kind, EventStore, EventContext, Handled,
}
use tlrs.Event.Guard.{
  get_device, mark_processed, mark_reason, of_device, refuse, Handler, for_device, validated,
}

abbrev command_key : DeviceCommand → ℕ
command_key c = c.id_command

-- The table of commands in a store, and the store with another one.
abbrev pub commands_of : EventStore → List DeviceCommand
commands_of db = db.geofence.commands.rows

abbrev save_command : DeviceCommand → EventStore → EventStore
save_command c db = record db {
  geofence = record (db.geofence) {
    commands = record (db.geofence.commands) { rows = save command_key c (commands_of db) };
  };
}

abbrev same_item : Option String → String → Bool
same_item none item = false
same_item (some s) item = str_eq s item

-- The query of `_get_command_by_queue_item_id`, as a test
abbrev pub by_queue_item_id : String → DeviceCommand → Bool
by_queue_item_id item c = same_item c.chirpstack_queue_item_id item

-- The command that a network event is about, or the reason why there is none.
pub data Resolution : Type 0 where
  unresolved : Reason → Resolution
  resolved : DeviceCommand → Resolution

-- `_resolve_command_for_network_event` behind its query
abbrev pub check_device : ℕ → Reason → Option DeviceCommand → Resolution
check_device device_id not_found none = unresolved not_found
check_device device_id not_found (some c) =
    if c.device_id == device_id then resolved c else unresolved not_found

-- `_resolve_command_for_network_event`
unfoldable pub resolve_command :
    ℕ → Option String → Reason → Reason → List DeviceCommand → Result EventError Resolution
unfolding scalar_one_or_none
resolve_command device_id none missing not_found rows = ok (unresolved missing)
resolve_command device_id (some item) missing not_found rows =
    if str_eq item ""
    then ok (unresolved missing)
    else scalar_one_or_none multiple_results (select (by_queue_item_id item) rows) >>= λ found.
        ok (check_device device_id not_found found)

-- `if command.chirpstack_queue_item_id is None: …`
abbrev keep_item : Option String → Option String → Option String
keep_item none item = item
keep_item (some s) item = some s

-- The two statements on a command that is not in a terminal status
abbrev fail_unsettled : ℕ → DeviceCommand → DeviceCommand
fail_unsettled now c =
    if is_terminal c.status
    then c
    else (record c { status = DeviceCommandStatus.failed; failed_at = some now })

-- `(status or "").strip().upper()`
unfoldable pub normalize_tx_status : Option (List ℕ) → List ℕ
unfolding strip
normalize_tx_status none = []
normalize_tx_status (some s) = map to_upper (strip s)

abbrev is_transmitted : List ℕ → Bool
is_transmitted tx_status = is_empty tx_status || same_text tx_status (codes "OK")

-- What `_process_txack_event` does to the command
unfoldable pub apply_txack : (ℕ → ℕ) → ChirpStackTxAckEvent → DeviceCommand → DeviceCommand
unfolding normalize_tx_status
apply_txack utcnow e c =
    let item = keep_item c.chirpstack_queue_item_id e.queue_item_id in
    let tx_status = normalize_tx_status e.status in
    if is_transmitted tx_status
    then (record c {
      chirpstack_queue_item_id = item;
      tx_acked_at = some (or_else c.tx_acked_at (or_else (to_utc_naive e.time) (utcnow 0)));
      error_message = none;
    })
    else (record (fail_unsettled (utcnow 1) c) {
      chirpstack_queue_item_id = item;
      error_message = some (transmission_status tx_status);
    })

-- What it does to the event
abbrev pub txack_event_after : List ℕ → ChirpStackEvent → ChirpStackEvent
txack_event_after tx_status event =
    if is_transmitted tx_status
    then mark_processed event
    else mark_reason (tx_status_was tx_status) (mark_processed event)

-- What `_process_network_ack_event` does to the command
unfoldable pub apply_network_ack :
    (ℕ → ℕ) → ChirpStackNetworkAckEvent → DeviceCommand → DeviceCommand
apply_network_ack utcnow e c =
    let item = keep_item c.chirpstack_queue_item_id e.queue_item_id in
    elim e.acknowledged [
      | none ↦ record c { chirpstack_queue_item_id = item }
      | some true ↦ record c {
        chirpstack_queue_item_id = item;
        lorawan_ack_at = some (or_else (to_utc_naive e.time) (utcnow 0));
        error_message = none;
      }
      | some false ↦ record (fail_unsettled (utcnow 0) c) {
        chirpstack_queue_item_id = item;
        error_message = some (message "LoRaWAN downlink was not acknowledged");
      }
    ]

abbrev pub network_ack_event_after : Option Bool → ChirpStackEvent → ChirpStackEvent
network_ack_event_after none event = record event {
  processed = false;
  error_message = some lorawan_ack_acknowledged_flag_missing;
}
network_ack_event_after (some _) event = mark_processed event

-- `previous_status != command.status`
abbrev same_status : DeviceCommandStatus → DeviceCommandStatus → Bool
same_status DeviceCommandStatus.pending DeviceCommandStatus.pending = true
same_status DeviceCommandStatus.sent DeviceCommandStatus.sent = true
same_status DeviceCommandStatus.acked DeviceCommandStatus.acked = true
same_status DeviceCommandStatus.failed DeviceCommandStatus.failed = true
same_status DeviceCommandStatus.expired DeviceCommandStatus.expired = true
same_status _ _ = false

abbrev pub status_changed : DeviceCommandStatus → DeviceCommandStatus → Bool
status_changed previous status = not (same_status previous status)

-- The result of both handlers, on the command before and after, and the event after
abbrev network_result :
    Kind → Device → DeviceCommand → DeviceCommand → ChirpStackEvent → ChirpStackHandleResult
network_result kind device c c' event = record {
  success = event.processed;
  processed_kind = kind;
  device_id = some device.id_device;
  location_id = none;
  command_uuid = some c'.command_uuid;
  command_status = some c'.status;
  command_status_changed = status_changed c.status c'.status;
  failure_reason = event.error_message;
  realtime_location_data = none;
}

-- The end of both handlers, on the command that was found
unfoldable pub finish_network :
    Kind
    → (DeviceCommand → DeviceCommand)
    → (ChirpStackEvent → ChirpStackEvent)
    → Device
    → Resolution
    → ChirpStackEvent
    → EventStore
    → Handled
finish_network kind change after device (unresolved reason) event db =
    refuse kind (some device.id_device) reason event db
finish_network kind change after device (resolved c) event db =
    let event' = after (of_device device event) in
    record {
      result = network_result kind device c (change c) event';
      event = event';
      store = save_command (change c) db;
    }

-- `_process_txack_event` behind the checks of the device
unfoldable pub process_txack : EventContext → Payload → Handler
unfolding resolve_command finish_network apply_txack
process_txack ctx payload device event db = do
  e ← validated payload.txack_event
  found ←
      resolve_command device.id_device e.queue_item_id txack_queue_item_id_missing
        txack_queue_item_not_found (commands_of db)
  ok (
      finish_network Kind.txack (apply_txack ctx.utcnow e)
        (txack_event_after (normalize_tx_status e.status)) device found event db)

-- `_process_network_ack_event` behind the checks of the device
unfoldable pub process_network_ack : EventContext → Payload → Handler
unfolding resolve_command finish_network apply_network_ack
process_network_ack ctx payload device event db = do
  e ← validated payload.ack_event
  found ←
      resolve_command device.id_device e.queue_item_id lorawan_ack_queue_item_id_missing
        lorawan_ack_queue_item_not_found (commands_of db)
  ok (
      finish_network Kind.ack (apply_network_ack ctx.utcnow e)
        (network_ack_event_after e.acknowledged) device found event db)

-- `_process_txack_event`
unfoldable pub process_txack_event :
    EventContext
    → List ℕ
    → List ℕ
    → Payload
    → ChirpStackEvent
    → EventStore
    → Result EventError Handled
unfolding get_device for_device process_txack
process_txack_event ctx application_id dev_eui payload event db =
    get_device dev_eui db.devices >>= λ device.
    for_device Kind.txack Kind.txack application_id (process_txack ctx payload) device event db

-- `_process_network_ack_event`
unfoldable pub process_network_ack_event :
    EventContext
    → List ℕ
    → List ℕ
    → Payload
    → ChirpStackEvent
    → EventStore
    → Result EventError Handled
unfolding get_device for_device process_network_ack
process_network_ack_event ctx application_id dev_eui payload event db =
    get_device dev_eui db.devices >>= λ device.
    for_device Kind.ack Kind.ack application_id (process_network_ack ctx payload) device event db
