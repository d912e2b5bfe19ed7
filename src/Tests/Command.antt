-- ===== src/Tests/Command.antt =====
-- Commands at concrete inputs: a device reachable through ChirpStack, with one command sent to it
-- and one that another cycle sends.
use tlrs.Prelude.{
  ℕ, ◌+◌, ◌≤◌, ◌≡◌, ◌≢◌, ◌⊎◌, refl, true, false, Option, none, some, List, [], ◌∷◌, ok, err, select,
  arith, All, length,
}
use tlrs.Prelude.Int.{pos}
use tlrs.Model.Device.{Device, DeviceState, DeviceCommunicationProtocol}
use tlrs.Model.Table.{UniqueKeys}
use tlrs.Model.Update.{All₂}
use tlrs.Model.Time.{naive}
use tlrs.Model.Command.{
  DeviceCommand, set_report_interval, warning_sound, DeviceCommandStatus, DeviceCommandAckStatus,
  DeviceCommandAckPayload,
}
use tlrs.Wire.Base64.{b64decode}
use tlrs.Wire.Downlink.{
  encode_command_downlink, normalize_interval_seconds, num, PayloadFields, command_length,
  DecodedChirpStackCommandDownlink, decode_command_downlink_payload_v1,
}
use tlrs.Wire.Downlink.RoundTrip.{intended, downlink_of}
use tlrs.Command.Sequence.{
  prefer_pending, CommandStore, max_command_seq, allocate_next_command_seq,
  no_command_seq_available, last_command_seq,
}
use tlrs.Command.Sequence.Fresh.{IsBelow, Uses, allocate_is_fresh, allocate_exhausted}
use tlrs.Command.Ack.{applied, apply_ack_to_command, by_device_and_seq, process_ack_by_command_seq}
use tlrs.Command.Ack.Applied.{process_ack_applied}
use tlrs.Command.Create.{
  Context, create_pending_command, near_limit, command_specs_for_event_type,
  create_commands_for_geofence_event, new_command, build_topic, build_payload,
}
use tlrs.Command.Create.Keeps.{create_is_sound}
use tlrs.Command.Create.Events.{AllAsk, asked_of, IsReachable, IsNewEvent, create_commands_complete}
use tlrs.Command.Sequence.Room.{HasRoom, last_used}
use tlrs.Command.Dispatcher.{Environment, id_of, expired_commands, process_once}
use tlrs.Command.Dispatcher.Moves.{Moves, process_once-Moves}
use tlrs.Command.Dispatcher.Limits.{process_once_within_limit}

abbrev pub tracker : Device
tracker = record {
  id_device = 7;
  serial = "tracker";
  client_id = some 1;
  asset_id = some 3;
  active = true;
  deleted = false;
  state = DeviceState.on;
  last_seen_at = none;
  communication_protocol = DeviceCommunicationProtocol.chirpstack;
  chirpstack_application_id = some "app";
  chirpstack_dev_eui = some "0102030405060708";
  chirpstack_device_profile_id = none;
}

-- A command with the given key, number and status.
abbrev command_of : ℕ → ℕ → DeviceCommandStatus → Option ℕ → DeviceCommand
command_of id seq status sent_at = record {
  id_command = id;
  command_uuid = "uuid";
  chirpstack_queue_item_id = none;
  command_seq = some seq;
  device_id = 7;
  asset_id = some 3;
  geofence_event_id = none;
  command_type = warning_sound;
  status = status;
  topic = "topic";
  payload = record {
    dev_eui = "0102030405060708";
    confirmed = true;
    f_port = 10;
    text = [];
    command_id = "uuid";
    command_seq = seq;
  };
  qos = 1;
  retain = false;
  created_at = id;
  sent_at = sent_at;
  tx_acked_at = none;
  lorawan_ack_at = none;
  ack_at = none;
  failed_at = none;
  expires_at = some 1_000;
  error_message = none;
}

abbrev sent_one : DeviceCommand
sent_one = command_of 1 41 DeviceCommandStatus.sent (some 5)

abbrev pending_one : DeviceCommand
pending_one = command_of 2 42 DeviceCommandStatus.pending none

abbrev pub two_commands : List DeviceCommand
two_commands = sent_one ∷ pending_one ∷ []

abbrev pub store : CommandStore
store = record { rows = two_commands; pending = [] }

allocates_43 : allocate_next_command_seq 7 store ≡ ok 43
unfolding allocate_next_command_seq
allocates_43 = refl

allocate_is_fresh_example :
    (1 ≤ 43) × (43 ≤ max_command_seq) × All (IsBelow 7 43) two_commands × All (IsBelow 7 43) []
allocate_is_fresh_example = allocate_is_fresh 7 store allocates_43

abbrev full_store : CommandStore
full_store = record {
  rows = command_of 1 65535 DeviceCommandStatus.acked (some 5) ∷ [];
  pending = [];
}

allocates_none : allocate_next_command_seq 7 full_store ≡ err no_command_seq_available
unfolding allocate_next_command_seq
allocates_none = refl

allocate_exhausted_example :
    (m : ℕ) × (max_command_seq ≤ m) × (Uses 7 m full_store.rows ⊎ Uses 7 m [])
allocate_exhausted_example = allocate_exhausted 7 full_store no_command_seq_available allocates_none

abbrev ack_41 : DeviceCommandAckPayload
ack_41 = record {
  command_id = none;
  command_seq = some 41;
  status = DeviceCommandAckStatus.executed;
  executed_at = some (naive 9);
  error_message = none;
}

two_commands_unique : UniqueKeys id_of two_commands
two_commands_unique = omega arith

process_ack_applied_example :
    (rows' : List DeviceCommand) × (process_ack_by_command_seq 10 7 ack_41 two_commands
      ≡ ok (applied (apply_ack_to_command 10 ack_41 sent_one) DeviceCommandStatus.sent, rows'))
    × (select (by_device_and_seq 7 41) rows' ≡ apply_ack_to_command 10 ack_41 sent_one ∷ [])
    × ((d s : ℕ)
        → (d ≢ 7) ⊎ (s ≢ 41)
        → select (by_device_and_seq d s) rows' ≡ select (by_device_and_seq d s) two_commands)
process_ack_applied_example =
    process_ack_applied 10 7 41 ack_41 two_commands two_commands_unique refl refl

-- A transport that takes every command.
abbrev pub environment : Environment
environment = record {
  batch_limit = 50;
  now = 20;
  pending_now = λ _. 21;
  enqueue_now = λ _. 22;
  expired_locked = λ _. false;
  pending_locked = λ _ _. false;
  transport = λ _ _. some (record {
    sent = true;
    queue_item_id = some "item";
    error_message = none;
    retryable = false;
  });
}

process_once-Moves_example : All₂ Moves two_commands (process_once environment two_commands).rows
process_once-Moves_example = process_once-Moves environment two_commands two_commands_unique

process_once_within_limit_example :
    length (expired_commands environment two_commands)
      + length (process_once environment two_commands).attempts
    ≤ 50
process_once_within_limit_example = process_once_within_limit environment two_commands

abbrev pub context : Context
context = record { now = 20; new_uuid = λ _. "uuid"; default_expires_seconds = 300 }

abbrev pub every_minute : PayloadFields
every_minute = record {
  flags = none;
  interval_seconds = some (num (pos 60));
  duration_seconds = none;
  duration_ms = none;
}

abbrev every_minute_bytes : List ℕ
every_minute_bytes = 1 ∷ 1 ∷ 0 ∷ 43 ∷ 0 ∷ 0 ∷ 60 ∷ []

abbrev pub created : DeviceCommand
created = new_command context 3 tracker (some 43) set_report_interval (some 3) none none (
  build_topic "app" "0102030405060708",
  build_payload "0102030405060708" (downlink_of "uuid" 43 set_report_interval every_minute_bytes),
)

abbrev store_after : CommandStore
store_after = record { rows = two_commands; pending = created ∷ [] }

pub creates :
    create_pending_command context 3 tracker set_report_interval
      (some 3)
      none
      none
      (some every_minute)
      store
    ≡ ok (created, store_after)
unfolding create_pending_command allocate_next_command_seq encode_command_downlink
    normalize_interval_seconds
creates = refl

create_is_sound_example :
    (n : ℕ) × (created.command_seq ≡ some n)
    × (1 ≤ n)
    × (n ≤ max_command_seq)
    × All (IsBelow 7 n) two_commands
    × All (IsBelow 7 n) []
    × (created.status ≡ DeviceCommandStatus.pending)
    × (store_after ≡ store_after)
    × (bytes : List ℕ) × (d : DecodedChirpStackCommandDownlink) × (b64decode command_length
          created.payload.text
        ≡ ok bytes)
    × (intended n set_report_interval every_minute ≡ ok d)
    × (decode_command_downlink_payload_v1 bytes ≡ ok d)
create_is_sound_example =
    create_is_sound context 3 tracker set_report_interval (some 3) none none (some every_minute)
      store creates

tracker-IsReachable : IsReachable tracker
tracker-IsReachable = record { chirpstack = refl; application = refl; eui = refl }

store-HasRoom : HasRoom 2 (last_used 7 store)
unfolding last_used last_command_seq prefer_pending
store-HasRoom = omega arith

event_is_new : IsNewEvent 9 two_commands (command_specs_for_event_type near_limit)
unfolding command_specs_for_event_type
event_is_new = (refl, (refl, tt))

create_commands_complete_example :
    (cs : List DeviceCommand) × (create_commands_for_geofence_event context 3 9 near_limit
        (some 3)
        tracker
        store
      ≡ ok (cs, record { rows = two_commands; pending = cs }))
    × AllAsk 9 7 (asked_of near_limit) cs
create_commands_complete_example =
    create_commands_complete context 3 9 near_limit (some 3) tracker store tracker-IsReachable
      store-HasRoom event_is_new
