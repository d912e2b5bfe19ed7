-- ===== src/Tests/Transport.antt =====
-- The transport at concrete inputs: a command that was created, over a service that is down.
use tlrs.Prelude.{ℕ, ◌≡◌, refl, true, false, none, some, List, [], ok, String, arith}
use tlrs.Model.Text.{codes, strip, compact}
use tlrs.Model.Command.{set_report_interval}
use tlrs.Wire.Downlink.{DecodedChirpStackCommandDownlink, decode_command_downlink_payload_v1}
use tlrs.Wire.Downlink.RoundTrip.{intended}
use tlrs.Wire.Topic.{normalize_eui, is_chirpstack_downlink_topic}
use tlrs.Wire.Base64.{b64encode, digit_char, char_digit}
use tlrs.Command.Create.{build_topic, build_payload}
use tlrs.Command.Dispatcher.{Environment}
use tlrs.Command.Transport.{enqueue, decode_data}
use tlrs.Command.Transport.Retries.{is_retried, enqueue_retries}
use tlrs.Command.Transport.Delivers.{
  IsAddressable, IsConfigured, result_of, item_for, enqueue_delivers,
}
use tlrs.Api.Errors.{ApiError, escaped, rpc_error, unavailable, response}
use tlrs.Api.{
  QueueItem, ChirpStackApiClient, is_hex_of_length, finish_enqueue, validate_configuration,
  valid_eui,
}
use tlrs.Api.Retry.{is_transient}
use tlrs.Api.Device.{
  DeviceMessage, DeviceArguments, DeviceService, create_device, get_device, normalize_required_text,
}
use tlrs.Api.Created.{get_device-create_device, message_for}
use tlrs.Tests.Command.{tracker, store, context, every_minute, created, environment, creates}

abbrev describe : ApiError → String
describe _ = "error"

-- A client whose calls find the service down.
abbrev client : ChirpStackApiClient
client = record {
  host = codes "chirpstack";
  port = 8080;
  token = codes "token";
  has_dependencies = true;
  enqueue = λ _. rpc_error unavailable;
}

client-IsConfigured : IsConfigured client
client-IsConfigured = record { dependencies = refl; host = refl; port = omega arith; token = refl }

asks_again : is_retried (enqueue describe client created) ≡ true
unfolding enqueue build_topic build_payload b64encode digit_char char_digit
asks_again = refl

enqueue_retries_example :
    (is_chirpstack_downlink_topic (codes created.topic) ≡ true)
    × (item : QueueItem) × (is_hex_of_length 16 item.dev_eui ≡ true)
    × (item.f_port ≡ created.payload.f_port)
    × (decode_data created.payload.text ≡ ok item.bytes)
    × (item.confirmed ≡ created.payload.confirmed)
    × (item.expires_at ≡ created.expires_at)
    × (is_transient (client.enqueue item) ≡ true)
enqueue_retries_example = enqueue_retries describe client created asks_again

tracker-IsAddressable : IsAddressable tracker
unfolding strip compact
tracker-IsAddressable = record {
  application_segment = omega arith;
  eui_segment = omega arith;
  application_given = refl;
  eui_hex = refl;
}

enqueue_delivers_example :
    (n : ℕ) × (bytes : List ℕ) × (d : DecodedChirpStackCommandDownlink) × (created.command_seq
      ≡ some n)
    × (intended n set_report_interval every_minute ≡ ok d)
    × (decode_command_downlink_payload_v1 bytes ≡ ok d)
    × (enqueue describe client created
        ≡ result_of describe (finish_enqueue (client.enqueue (item_for tracker bytes created))))
enqueue_delivers_example =
    enqueue_delivers describe client context 3 tracker set_report_interval (some 3) none none
      (some every_minute) store tracker-IsAddressable client-IsConfigured creates

-- A client whose channel cannot be built, and a cycle over it.
abbrev broken_client : ChirpStackApiClient
broken_client = record client { enqueue = λ _. escaped }

abbrev over_client : Environment
over_client = record environment { transport = λ k c. enqueue describe broken_client c }

abbrev arguments : DeviceArguments
arguments = record {
  dev_eui = codes "01 02 03 04 05 06 07 0A";
  name = codes " tracker ";
  application_id = codes "app";
  device_profile_id = codes "profile";
  join_eui = codes "0000000000000000";
  description = none;
  is_disabled = false;
  tags = none;
}

-- A service that holds one message.
abbrev service : DeviceMessage → DeviceService
service m = record {
  get = λ _. response m;
  create = λ _. response tt;
  update = λ _. response tt;
  get_keys = λ _. rpc_error unavailable;
  create_keys = λ _. rpc_error unavailable;
  update_keys = λ _. rpc_error unavailable;
}

creates_device : create_device client (service (message_for arguments)) arguments ≡ ok tt
unfolding create_device validate_configuration valid_eui normalize_required_text strip compact
creates_device = refl

abbrev reading : DeviceService
reading = service (message_for arguments)

get_device-create_device_example :
    get_device client reading arguments.dev_eui
    ≡ ok (record {
      dev_eui = normalize_eui arguments.dev_eui;
      name = strip arguments.name;
      application_id = strip arguments.application_id;
      device_profile_id = strip arguments.device_profile_id;
      description = none;
      join_eui = some (normalize_eui arguments.join_eui);
      is_disabled = false;
      tags = [];
    })
unfolding compact
get_device-create_device_example =
    get_device-create_device client reading reading arguments creates_device (λ _. refl)
