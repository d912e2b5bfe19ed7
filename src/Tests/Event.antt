-- ===== src/Tests/Event.antt =====
-- Events at concrete inputs: a command that was sent to a device, and the network's report of its
-- transmission.
use tlrs.Prelude.{ℕ, ◌≡◌, refl, true, false, none, some, List, [], ◌∷◌, Result, ok, String, arith}
use tlrs.Model.Text.{codes, strip, compact}
use tlrs.Model.Device.{Device, DeviceState, DeviceCommunicationProtocol}
use tlrs.Model.Update.{All₂}
use tlrs.Model.Command.{DeviceCommand, DeviceCommandType, DeviceCommandStatus, DownlinkPayload}
use tlrs.Wire.Topic.{
  ChirpStackTopicInfo, parse_chirpstack_event_topic, parse_chirpstack_downlink_topic,
}
use tlrs.Wire.Topic.Built.{parse-build_topic}
use tlrs.Command.Create.{Context, new_command, build_topic}
use tlrs.Command.Dispatcher.{Environment, DownlinkEnqueueResult, enqueue_command, process_once}
use tlrs.Command.Invariant.{IsConsistent}
use tlrs.Geofence.Status.{Thresholds}
use tlrs.Event.Tables.{
  ChirpStackTxAckEvent, Payload, EventStore, EventContext, ChirpStackHandleResult,
}
use tlrs.Event.Network.{apply_txack}
use tlrs.Event.Lifecycle.{
  Reach, here, next, enqueued, transmitted, Refines, Reach-Refines, created-IsConsistent,
}
use tlrs.Event.Evolves.{process_once-Reach}
use tlrs.Event.Service.{handle_event, is_duplicate}
use tlrs.Event.Once.{IsHandled, handle_event_once}

parse-build_topic_example :
    parse_chirpstack_downlink_topic (codes (build_topic "app" "0102030405060708"))
    ≡ ok (record { application_id = codes "app"; dev_eui = codes "0102030405060708" })
unfolding strip compact
parse-build_topic_example =
    parse-build_topic "app" "0102030405060708" (omega arith) (omega arith) refl refl

abbrev tracker : Device
tracker = record {
  id_device = 7;
  serial = "tracker";
  client_id = some 1;
  asset_id = some 3;
  active = true;
  deleted = false;
  state = DeviceState.on;
  last_seen_at = none;
  communication_protocol = DeviceCommunicationProtocol.chirpstack;
  chirpstack_application_id = some "app";
  chirpstack_dev_eui = some "0102030405060708";
  chirpstack_device_profile_id = none;
}

abbrev context : Context
context = record { now = 20; new_uuid = λ _. "uuid"; default_expires_seconds = 300 }

abbrev transport : String × DownlinkPayload
transport = (
  "topic",
  record {
    dev_eui = "0102030405060708";
    confirmed = true;
    f_port = 10;
    text = [];
    command_id = "uuid";
    command_seq = 41;
  },
)

abbrev created : DeviceCommand
created =
    new_command context 1 tracker (some 41) DeviceCommandType.warning_sound none none none transport

abbrev enqueued_item : DownlinkEnqueueResult
enqueued_item = record {
  sent = true;
  queue_item_id = some "item";
  error_message = none;
  retryable = false;
}

abbrev sent_command : DeviceCommand
sent_command = enqueue_command 25 enqueued_item created

abbrev too_long : ChirpStackTxAckEvent
too_long = record { queue_item_id = some "item"; time = none; status = some (codes " too_late") }

abbrev lost : DeviceCommand
lost = apply_txack (λ _. 30) too_long sent_command

lost_from_created : Reach created lost
lost_from_created =
    next (next here (enqueued 25 enqueued_item created refl))
      (transmitted (λ _. 30) too_long sent_command)

Reach-Refines_example : Refines created lost
Reach-Refines_example = Reach-Refines lost_from_created

created-IsConsistent_example : IsConsistent lost
created-IsConsistent_example =
    created-IsConsistent context 1 tracker (some 41) DeviceCommandType.warning_sound none none none
      transport lost_from_created

lost_has_failed : lost.status ≡ DeviceCommandStatus.failed
unfolding apply_txack enqueue_command
lost_has_failed = refl

-- A transport that takes every command.
abbrev environment : Environment
environment = record {
  batch_limit = 50;
  now = 20;
  pending_now = λ _. 21;
  enqueue_now = λ _. 22;
  expired_locked = λ _. false;
  pending_locked = λ _ _. false;
  transport = λ _ _. some enqueued_item;
}

process_once-Reach_example :
    All₂ Reach (created ∷ []) (process_once environment (created ∷ [])).rows
process_once-Reach_example = process_once-Reach environment (created ∷ []) (tt, tt)

abbrev limits : Thresholds
limits = record { near_limit_threshold_meters = 10; gps_uncertain_accuracy_meters = 50 }

abbrev event_context : EventContext
event_context = record {
  utcnow = λ _. 30;
  evaluator = record {
    limits = limits;
    insert_now = λ _. 30;
    update_now = λ _. 30;
    commands = context;
  };
  spatial = λ _ _. [];
  inserted_meanwhile = false;
  describe = λ _. [];
}

abbrev txack_payload : Payload
txack_payload = record {
  deduplication_id = some "event";
  up_event = Result.err "no up event";
  command_ack_event = Result.err "no up event";
  txack_event = ok too_long;
  ack_event = Result.err "no ack";
}

abbrev database : EventStore
database = record {
  devices = tracker ∷ [];
  assets = [];
  locations = [];
  next_location_id = 1;
  geofence = record {
    states = [];
    next_state_id = 1;
    events = [];
    next_event_id = 1;
    commands = record { rows = sent_command ∷ []; pending = [] };
    next_command_id = 2;
  };
  events = [];
  next_event_id = 1;
}

abbrev txack_topic : List ℕ
txack_topic = codes "application/app/device/0102030405060708/event/txack"

handles :
    (v : ChirpStackHandleResult × EventStore) × (handle_event event_context txack_topic
        txack_payload database
      ≡ ok v)
unfolding handle_event enqueue_command
handles = (_, refl)

-- The same event, on the topic of another type.
abbrev ack_topic : List ℕ
ack_topic = codes "application/app/device/0102030405060708/event/ack"

ack_topic_parses : (info : ChirpStackTopicInfo) × (parse_chirpstack_event_topic ack_topic ≡ ok info)
unfolding parse_chirpstack_event_topic
ack_topic_parses = (_, refl)

handle_event_once_example :
    IsHandled "event" handles.0.1.events
    × (handle_event event_context ack_topic txack_payload handles.0.1
        ≡ ok (is_duplicate, handles.0.1))
handle_event_once_example =
    handle_event_once event_context event_context txack_topic ack_topic txack_payload txack_payload
      database "event" refl refl refl (omega arith) (tt, tt) tt handles.1 ack_topic_parses.1
