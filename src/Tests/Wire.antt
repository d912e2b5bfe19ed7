-- ===== src/Tests/Wire.antt =====
-- Bytes at concrete inputs: a downlink that sets a report interval of 15 seconds, an ACK, a status
-- report and a location on the southern and western half of the globe.
use tlrs.Prelude.{ℕ, ◌≡◌, refl, none, some, List, [], ◌∷◌, ok, ◌>>=◌, arith}
use tlrs.Prelude.Int.{pos, negsuc}
use tlrs.Model.Time.{naive, to_utc_naive}
use tlrs.Model.Command.{set_report_interval, DeviceCommandAckStatus}
use tlrs.Wire.Base64.{b64encode}
use tlrs.Wire.Downlink.{
  num, PayloadFields, interval_field, EncodedChirpStackDownlink, DecodedChirpStackCommandDownlink,
  encode_command_downlink, decode_command_downlink_payload_v1, normalize_interval_seconds,
  normalize_flags,
}
use tlrs.Wire.Downlink.RoundTrip.{decode-encode, intended, downlink_of}
use tlrs.Wire.Downlink.Total.{encode_total}
use tlrs.Wire.Downlink.Inverse.{encode-decode, given_of}
use tlrs.Wire.Uplink.{nan, degrees_of, UpEvent, decode_gps_fix_type}
use tlrs.Wire.Uplink.Location.{
  NormalizedTelemetry, decode_location_payload_v1, decode_up_event, IsOnGlobe, validate_coordinates,
}
use tlrs.Wire.Uplink.Location.Layout.{
  location_bytes, telemetry_of, decode-location_bytes, decode_up_event-IsOnGlobe,
}
use tlrs.Wire.Uplink.Ack.{
  decode_command_ack_payload_v1, decode_ack_error, ack_bytes, decode-ack_bytes,
}
use tlrs.Wire.Uplink.Status.{
  decode_status_payload_v1, decode_status_device_state, decode_status_error_flags, status_bytes,
  decode-status_bytes,
}

abbrev fifteen : PayloadFields
fifteen = record {
  flags = none;
  interval_seconds = some (num (pos 15));
  duration_seconds = none;
  duration_ms = none;
}

abbrev downlink_bytes : List ℕ
downlink_bytes = 1 ∷ 1 ∷ 1 ∷ 2 ∷ 0 ∷ 0 ∷ 15 ∷ []

abbrev downlink : EncodedChirpStackDownlink
downlink = downlink_of "uuid" 258 set_report_interval downlink_bytes

abbrev decoded : DecodedChirpStackCommandDownlink
decoded = record {
  protocol_version = 1;
  command_type = set_report_interval;
  command_seq = 258;
  flags = 0;
  payload_fields = interval_field 15;
}

downlink_encodes :
    encode_command_downlink "uuid" 258 set_report_interval (some fifteen) ≡ ok downlink
unfolding encode_command_downlink normalize_interval_seconds
downlink_encodes = refl

downlink_decodes : decode_command_downlink_payload_v1 downlink_bytes ≡ ok decoded
unfolding decode_command_downlink_payload_v1
downlink_decodes = refl

fifteen-intended : intended 258 set_report_interval fifteen ≡ ok decoded
unfolding normalize_flags normalize_interval_seconds
fifteen-intended = refl

decode-encode_example :
    (d : DecodedChirpStackCommandDownlink) × (intended 258 set_report_interval fifteen ≡ ok d)
    × (decode_command_downlink_payload_v1 downlink_bytes ≡ ok d)
decode-encode_example = decode-encode "uuid" 258 set_report_interval (some fifteen) downlink_encodes

encode_total_example :
    (e : EncodedChirpStackDownlink) × (encode_command_downlink "uuid" 258 set_report_interval
        (some fifteen)
      ≡ ok e)
    × (decode_command_downlink_payload_v1 e.bytes ≡ ok decoded)
encode_total_example =
    encode_total "uuid" 258 set_report_interval (some fifteen) (omega arith) (omega arith)
      fifteen-intended

encode-decode_example :
    encode_command_downlink "uuid" 258 set_report_interval (some (given_of 0 (interval_field 15)))
    ≡ ok (downlink_of "uuid" 258 set_report_interval downlink_bytes)
encode-decode_example =
    encode-decode "uuid" downlink_bytes (omega arith) downlink_decodes (omega arith)

-- An event on no port, with a text.
abbrev event_of : List ℕ → UpEvent
event_of text = record {
  time = some (naive 1_000_000);
  dev_eui = "0102030405060708";
  device_name = none;
  device_profile_id = none;
  serial = none;
  f_port = none;
  decoded = none;
  text = some text;
  gateway_ids = [];
}

abbrev ack_event : UpEvent
ack_event = event_of (b64encode (ack_bytes 258 DeviceCommandAckStatus.rejected 3))

decode-ack_bytes_example :
    decode_command_ack_payload_v1 ack_event
    ≡ ok (record {
      command_id = none;
      command_seq = some 258;
      status = DeviceCommandAckStatus.rejected;
      executed_at = some (naive 1_000_000);
      error_message = decode_ack_error 3 DeviceCommandAckStatus.rejected;
    })
decode-ack_bytes_example =
    decode-ack_bytes ack_event 258 3 DeviceCommandAckStatus.rejected (omega arith) (omega arith)
      (omega arith) refl

abbrev status_event : UpEvent
status_event = event_of (b64encode (status_bytes 80 3700 1 1 5))

decode-status_bytes_example : decode_status_payload_v1 status_event ≡ (do
  state_label ← decode_status_device_state 1
  gps_label ← decode_gps_fix_type 1
  ok (record {
    battery_percent = 80;
    battery_mv = 3700;
    device_state_code = 1;
    device_state = state_label;
    gps_fix_type_code = 1;
    gps_fix_type = gps_label;
    error_flags = 5;
    active_error_flags = decode_status_error_flags 5;
  }))
decode-status_bytes_example =
    decode-status_bytes status_event 80 3700 1 1 5 (omega arith) (omega arith) (omega arith)
      (omega arith) (omega arith) refl

abbrev location_event : UpEvent
location_event =
    event_of
      (b64encode (location_bytes (negsuc 346_037_221) (negsuc 583_815_590) (negsuc 1) 9 77 1))

decode-location_bytes_example : decode_location_payload_v1 location_event ≡ (
    decode_gps_fix_type 1 >>= λ fix_label. ok (
      telemetry_of location_event
        (negsuc 346_037_221)
        (negsuc 583_815_590)
        (negsuc 1)
        9
        77
        1
        fix_label))
decode-location_bytes_example =
    decode-location_bytes location_event (negsuc 346_037_221) (negsuc 583_815_590) (negsuc 1) 9 77 1
      (omega arith) (omega arith) (omega arith) (omega arith) refl

-- An event whose object holds the decoded coordinates.
abbrev object_event : UpEvent
object_event = record (event_of []) {
  decoded = some (record {
    lat = some (degrees_of (negsuc 346_037_221));
    lng = some (degrees_of (negsuc 583_815_590));
    altitude = none;
    accuracy = none;
    battery = none;
  });
}

abbrev object_telemetry : NormalizedTelemetry
object_telemetry = record {
  device_timestamp = some 1_000_000;
  latitude = degrees_of (negsuc 346_037_221);
  longitude = degrees_of (negsuc 583_815_590);
  altitude = none;
  accuracy = none;
  extra = record {
    battery = none;
    f_port = none;
    gateway_ids = [];
    device_name = none;
    serial = none;
    payload_format = "chirpstack_object";
    message_type = none;
    gps_fix_type = none;
    gps_fix_label = none;
  };
}

object_decodes : decode_up_event object_event ≡ ok object_telemetry
unfolding decode_up_event to_utc_naive
object_decodes = refl

decode_up_event-IsOnGlobe_example : IsOnGlobe object_telemetry
decode_up_event-IsOnGlobe_example = decode_up_event-IsOnGlobe object_event object_decodes

-- The tests of the bounds let NaN through.
nan_passes : validate_coordinates nan (degrees_of (negsuc 583_815_590)) ≡ ok tt
nan_passes = refl
