-- ===== src/Wire/Uplink/Location.antt =====
-- payload_codec.py and decoder.py: locations, from the binary payload or from a decoded object.
-- Coordinates, altitude, accuracy and battery are in units of 10 ^ -7. The quotient of an int32 by
-- 10 ^ 7 compares with a bound as the int32 does with the bound times 10 ^ 7.
pub mod Layout
use tlrs.Prelude.{
  ℕ, suc, ◌+◌, ◌-◌, ◌*◌, ◌/◌, ◌%◌, ◌≤◌, ◌<◌, ◌≡◌, refl, Bool, true, false, ◌||◌, not, Option, none,
  some, List, [], ◌∷◌, length, max, String, Result, ok, err, ◌>>=◌, ◌>>◌, raise_if, ◌==◌,
  if◌then◌else◌, arith,
}
use tlrs.Prelude.Int.{ℤ, pos, negsuc, ltb_ℤ, ◌≤ℤ◌}
use tlrs.Model.Time.{to_utc_naive}
use tlrs.Wire.Contract.{protocol_version_v1, location_message_type, gps_fix_no_fix}
use tlrs.Wire.Bytes.{i16, i32}
use tlrs.Wire.Uplink.{
  UpEvent, UpObject, Fixed, Coordinate, nan, degrees_of, one, PayloadError, location_length,
  unsupported_version, unsupported_message_type, latitude_range, longitude_range,
  decode_base64_data, decode_gps_fix_type,
}

-- The `extra` of a telemetry; the last three keys are absent from that of a decoded object.
pub record TelemetryExtra : Type 0 where
  pub battery : Option Fixed
  pub f_port : Option ℕ
  pub gateway_ids : List String
  pub device_name : Option String
  pub serial : Option String
  pub payload_format : String
  pub message_type : Option ℕ
  pub gps_fix_type : Option ℕ
  pub gps_fix_label : Option String

-- `NormalizedTelemetry`
pub record NormalizedTelemetry : Type 0 where
  pub device_timestamp : Option ℕ
  pub latitude : Coordinate
  pub longitude : Coordinate
  pub altitude : Option Fixed
  pub accuracy : Option Fixed
  pub extra : TelemetryExtra

-- An integer as a float.
abbrev pub to_fixed : ℤ → Fixed
to_fixed (pos n) = pos (n * one)
to_fixed (negsuc n) = negsuc (suc n * one - 1)

-- The degrees of a bound, and their opposite.
abbrev pub degrees : ℕ → Fixed
degrees n = pos (n * one)

abbrev pub minus_degrees : ℕ → Fixed
minus_degrees n = negsuc (n * one - 1)

-- `value < low or value > high`; both comparisons are false of NaN.
abbrev pub is_outside : Fixed → Fixed → Coordinate → Bool
is_outside low high nan = false
is_outside low high (degrees_of n) = ltb_ℤ n low || ltb_ℤ high n

-- `_validate_coordinates`, and the same tests in `_decode_from_object`
abbrev pub validate_coordinates : Coordinate → Coordinate → Result PayloadError (Unit {0})
validate_coordinates lat lng = do
  raise_if (is_outside (minus_degrees 90) (degrees 90) lat) latitude_range
  raise_if (is_outside (minus_degrees 180) (degrees 180) lng) longitude_range

-- The accuracy in metres: a payload without a fix is made clearly unreliable.
abbrev pub accuracy_of : ℕ → ℕ → ℕ
accuracy_of fix metres = if fix == gps_fix_no_fix then max metres 255 else metres

-- `struct.unpack(">BBiihBBB", payload)` and what follows it in `decode_location_payload_v1`
unfoldable pub decode_location_bytes : UpEvent → List ℕ → Result PayloadError NormalizedTelemetry
decode_location_bytes event
      (version ∷ kind ∷ a3 ∷ a2 ∷ a1 ∷ a0 ∷ o3 ∷ o2 ∷ o1 ∷ o0 ∷ h1 ∷ h0 ∷ accuracy ∷ battery ∷ fix
        ∷ []) =
    do
      raise_if (not (version == protocol_version_v1)) (unsupported_version version)
      raise_if (not (kind == location_message_type)) (unsupported_message_type kind)
      validate_coordinates (degrees_of (i32 a3 a2 a1 a0)) (degrees_of (i32 o3 o2 o1 o0))
      fix_label ← decode_gps_fix_type fix
      ok (record {
        device_timestamp = to_utc_naive event.time;
        latitude = degrees_of (i32 a3 a2 a1 a0);
        longitude = degrees_of (i32 o3 o2 o1 o0);
        altitude = some (to_fixed (i16 h1 h0));
        accuracy = some (pos (accuracy_of fix accuracy * one));
        extra = record {
          battery = some (pos (battery * one));
          f_port = event.f_port;
          gateway_ids = event.gateway_ids;
          device_name = event.device_name;
          serial = event.serial;
          payload_format = "chirpstack_binary_v1";
          message_type = some kind;
          gps_fix_type = some fix;
          gps_fix_label = some fix_label;
        };
      })
decode_location_bytes event bytes = err (location_length (length bytes))

-- `decode_location_payload_v1`
unfoldable pub decode_location_payload_v1 : UpEvent → Result PayloadError NormalizedTelemetry
unfolding decode_location_bytes
decode_location_payload_v1 event = do
  bytes ← decode_base64_data event.text
  decode_location_bytes event bytes

-- `_decode_from_object`, for an object that has both coordinates
unfoldable pub decode_from_object :
    UpEvent → UpObject → Coordinate → Coordinate → Result PayloadError NormalizedTelemetry
decode_from_object event o lat lng = do
  validate_coordinates lat lng
  ok (record {
    device_timestamp = to_utc_naive event.time;
    latitude = lat;
    longitude = lng;
    altitude = o.altitude;
    accuracy = o.accuracy;
    extra = record {
      battery = o.battery;
      f_port = event.f_port;
      gateway_ids = event.gateway_ids;
      device_name = event.device_name;
      serial = event.serial;
      payload_format = "chirpstack_object";
      message_type = none;
      gps_fix_type = none;
      gps_fix_label = none;
    };
  })

-- The test at the head of `decode_up_event`, on the object's coordinates
choose_decoder :
    UpEvent
    → UpObject
    → Option Coordinate
    → Option Coordinate
    → Result PayloadError NormalizedTelemetry
unfolding decode_from_object decode_location_payload_v1
choose_decoder event o (some lat) (some lng) = decode_from_object event o lat lng
choose_decoder event o (some lat) none = decode_location_payload_v1 event
choose_decoder event o none lng = decode_location_payload_v1 event

-- `decode_up_event`; the error is passed on as a `ChirpStackDecodeError` with the same text
unfoldable pub decode_up_event : UpEvent → Result PayloadError NormalizedTelemetry
unfolding choose_decoder decode_location_payload_v1
decode_up_event event = elim event.decoded [
  | none ↦ decode_location_payload_v1 event
  | some o ↦ choose_decoder event o o.lat o.lng
]

-- A number from one bound to another, or NaN
abbrev pub Within : Fixed → Fixed → Coordinate → Type 0
Within low high nan = Unit
Within low high (degrees_of n) = (low ≤ℤ n) × (n ≤ℤ high)

-- A position on the globe, where its coordinates are numbers.
pub record IsOnGlobe (t : NormalizedTelemetry) : Type 0 where
  pub latitude : Within (minus_degrees 90) (degrees 90) t.latitude
  pub longitude : Within (minus_degrees 180) (degrees 180) t.longitude
