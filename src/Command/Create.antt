-- ===== src/Command/Create.antt =====
-- src/service/device_command_service.py: the creation of commands, also for a geofence event
-- (build_topic and build_payload of src/integrations/chirpstack/downlink_client.py with it).
pub mod Keeps
pub mod Events
use Prim.Native.String
use text.Mathlib.Text.{◌==◌ as str_eq}
use tlrs.Prelude.{
  ℕ, ◌+◌, ◌*◌, Bool, true, false, ◌&&◌, ◌||◌, not, Option, none, some, List, [], ◌∷◌, ◌++◌, ◌==◌,
  opt_is, or_else, if◌then◌else◌, select, String, Result, ok, err, ◌>>=◌, ◌>>◌, raise_if, is_some,
}
use tlrs.Prelude.Int.{pos}
use tlrs.Model.Query.{scalar_one_or_none}
use tlrs.Model.Device.{Device, is_chirpstack}
use tlrs.Model.Command.{
  DeviceCommand, DeviceCommandType, set_report_interval, warning_sound, stop_correction,
  DeviceCommandStatus, DownlinkPayload, same_type,
}
use tlrs.Wire.Base64.{b64encode}
use tlrs.Wire.Downlink.{
  Value, num, PayloadFields, EncodeError, none_as_int, struct_error, EncodedChirpStackDownlink,
  encode_command_downlink,
}
use tlrs.Command.Sequence.{CommandStore, SequenceError, allocate_next_command_seq}

-- What the creation may raise; `multiple_results` comes from a query. `is_value_error` says which
-- of them `except ValueError` catches.
pub data CreateError : Type 0 where
  no_chirpstack_downlinks unable_to_resolve_transport requires_command_seq : CreateError
  sequence : SequenceError → CreateError
  encoding : EncodeError → CreateError
  multiple_results : CreateError

abbrev is_encode_value_error : EncodeError → Bool
is_encode_value_error none_as_int = false
is_encode_value_error struct_error = false
is_encode_value_error _ = true

abbrev pub is_value_error : CreateError → Bool
is_value_error (encoding e) = is_encode_value_error e
is_value_error multiple_results = false
is_value_error _ = true

-- An error of a part, passed on as one of the whole.
abbrev pub wrap : {E F A : Type 0} → (E → F) → Result E A → Result F A
wrap f (ok a) = ok a
wrap f (err e) = err (f e)

-- What the service takes from outside: the clock in microseconds, a new uuid, the settings'
-- `command_default_expires_seconds`, and the ids that the database gives.
pub record Context : Type 0 where
  pub now : ℕ
  pub new_uuid : ℕ → String
  pub default_expires_seconds : ℕ

-- `ChirpStackDownlinkClient.build_topic`
unfoldable pub build_topic : String → String → String
build_topic application_id dev_eui =
    String.◌++◌ "application/"
      (String.◌++◌ application_id (String.◌++◌ "/device/" (String.◌++◌ dev_eui "/command/down")))

-- `ChirpStackDownlinkClient.build_payload` with `confirmed=True`
unfoldable pub build_payload : String → EncodedChirpStackDownlink → DownlinkPayload
build_payload dev_eui e = record {
  dev_eui = dev_eui;
  confirmed = e.confirmed;
  f_port = e.f_port;
  text = b64encode e.bytes;
  command_id = e.command_id;
  command_seq = e.command_seq;
}

-- `not value` for an optional text
abbrev pub is_missing : Option String → Bool
is_missing none = true
is_missing (some s) = str_eq s ""

-- `_allocate_command_seq`
unfoldable pub allocate_command_seq : Device → CommandStore → Result CreateError (Option ℕ)
allocate_command_seq device db =
    if is_chirpstack device.communication_protocol
    then (wrap sequence (allocate_next_command_seq device.id_device db) >>= λ n. ok (some n))
    else ok none

-- `_resolve_command_transport` past its first two tests
unfoldable pub resolve_encoded :
    Device
    → String
    → Option ℕ
    → DeviceCommandType
    → Option PayloadFields
    → Result CreateError (String × DownlinkPayload)
unfolding build_topic build_payload
resolve_encoded device uuid none kind fields = err requires_command_seq
resolve_encoded device uuid (some seq) kind fields = do
  encoded ← wrap encoding (encode_command_downlink uuid seq kind fields)
  let dev_eui = or_else device.chirpstack_dev_eui ""
  ok (
    build_topic (or_else device.chirpstack_application_id "") dev_eui,
    build_payload dev_eui encoded,
  )

-- `_resolve_command_transport`, and the test behind it in `create_pending_command`: its
-- `None, None` is refused at once
unfoldable pub resolve_command_transport :
    Device
    → String
    → Option ℕ
    → DeviceCommandType
    → Option PayloadFields
    → Result CreateError (String × DownlinkPayload)
unfolding resolve_encoded
resolve_command_transport device uuid seq kind fields = do
  raise_if (not (is_chirpstack device.communication_protocol)) no_chirpstack_downlinks
  raise_if (is_missing device.chirpstack_application_id || is_missing device.chirpstack_dev_eui)
      unable_to_resolve_transport
  resolve_encoded device uuid seq kind fields

-- The row that `create_pending_command` adds. `id` stands for the key that the flush assigns.
abbrev pub new_command :
    Context
    → ℕ
    → Device
    → Option ℕ
    → DeviceCommandType
    → Option ℕ
    → Option ℕ
    → Option ℕ
    → String × DownlinkPayload
    → DeviceCommand
new_command ctx id device seq kind asset event expires (topic, payload) = record {
  id_command = id;
  command_uuid = ctx.new_uuid id;
  chirpstack_queue_item_id = none;
  command_seq = seq;
  device_id = device.id_device;
  asset_id = asset;
  geofence_event_id = event;
  command_type = kind;
  status = DeviceCommandStatus.pending;
  topic = topic;
  payload = payload;
  qos = 1;
  retain = false;
  created_at = ctx.now;
  sent_at = none;
  tx_acked_at = none;
  lorawan_ack_at = none;
  ack_at = none;
  failed_at = none;
  expires_at = some (or_else expires (ctx.now + ctx.default_expires_seconds * 1_000_000));
  error_message = none;
}

-- `create_pending_command`: the new command, and the store with it among the pending ones
unfoldable pub create_pending_command :
    Context
    → ℕ
    → Device
    → DeviceCommandType
    → Option ℕ
    → Option ℕ
    → Option ℕ
    → Option PayloadFields
    → CommandStore
    → Result CreateError (DeviceCommand × CommandStore)
unfolding allocate_command_seq resolve_command_transport
create_pending_command ctx id device kind asset event expires fields db = do
  seq ← allocate_command_seq device db
  transport ← resolve_command_transport device (ctx.new_uuid id) seq kind fields
  let c = new_command ctx id device seq kind asset event expires transport
  ok (c, record db { pending = db.pending ++ (c ∷ []) })

pub data FenceEventType : Type 0 where
  near_limit exited entered returned gps_uncertain : FenceEventType

abbrev interval_of : ℕ → PayloadFields
interval_of n = record {
  flags = none;
  interval_seconds = some (num (pos n));
  duration_seconds = none;
  duration_ms = none;
}

abbrev duration_of : ℕ → PayloadFields
duration_of ms = record {
  flags = none;
  interval_seconds = none;
  duration_seconds = none;
  duration_ms = some (num (pos ms));
}

abbrev no_fields : PayloadFields
no_fields = record {
  flags = none;
  interval_seconds = none;
  duration_seconds = none;
  duration_ms = none;
}

-- `_command_specs_for_event_type`; the encoder does not read the key `intensity`
unfoldable pub command_specs_for_event_type :
    FenceEventType → List (DeviceCommandType × PayloadFields)
command_specs_for_event_type near_limit =
    (set_report_interval, interval_of 15) ∷ (warning_sound, duration_of 1500) ∷ []
command_specs_for_event_type exited =
    (set_report_interval, interval_of 5) ∷ (warning_sound, duration_of 2000) ∷ []
command_specs_for_event_type returned =
    (stop_correction, no_fields) ∷ (set_report_interval, interval_of 600) ∷ []
command_specs_for_event_type gps_uncertain = (set_report_interval, interval_of 30) ∷ []
command_specs_for_event_type entered = []

-- `_has_geofence_command`, as a query
abbrev pub by_event_and_type : ℕ → DeviceCommandType → DeviceCommand → Bool
by_event_and_type event kind c = opt_is c.geofence_event_id event && same_type c.command_type kind

unfoldable pub has_geofence_command :
    ℕ → DeviceCommandType → List DeviceCommand → Result CreateError Bool
unfolding scalar_one_or_none
has_geofence_command event kind rows =
    scalar_one_or_none multiple_results (select (by_event_and_type event kind) rows) >>= λ found.
    ok (is_some found)

-- `try … except ValueError: continue` round one creation
abbrev pub attempt :
    Result CreateError (DeviceCommand × CommandStore)
    → CommandStore
    → Result CreateError (List DeviceCommand × CommandStore)
attempt (ok (c, db')) db = ok (c ∷ [], db')
attempt (err e) db = if is_value_error e then ok ([], db) else err e

-- The loop of `create_commands_for_geofence_event`; the k-th command created gets the id `id + k`
unfoldable pub create_from_specs :
    Context
    → ℕ
    → ℕ
    → Option ℕ
    → Device
    → List (DeviceCommandType × PayloadFields)
    → CommandStore
    → Result CreateError (List DeviceCommand × CommandStore)
unfolding has_geofence_command create_pending_command
create_from_specs ctx id event asset device [] db = ok ([], db)
create_from_specs ctx id event asset device ((kind, fields) ∷ specs) db = do
  exists ← has_geofence_command event kind db.rows
  step ←
      if exists
      then ok ([], db)
      else attempt
          (create_pending_command ctx id device kind asset (some event) none (some fields) db) db
  rest ← create_from_specs ctx (id + 1) event asset device specs step.1
  ok (step.0 ++ rest.0, rest.1)

-- `create_commands_for_geofence_event`
unfoldable pub create_commands_for_geofence_event :
    Context
    → ℕ
    → ℕ
    → FenceEventType
    → Option ℕ
    → Device
    → CommandStore
    → Result CreateError (List DeviceCommand × CommandStore)
unfolding create_from_specs command_specs_for_event_type
create_commands_for_geofence_event ctx id event kind asset device db =
    create_from_specs ctx id event asset device (command_specs_for_event_type kind) db
