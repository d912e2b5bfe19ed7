-- ===== src/Wire/Uplink.antt =====
-- payload_codec.py: what the decoders of the three uplinks share, and the event that they read
-- (src/integrations/chirpstack/schemas.py). Floats are integers in units of 10 ^ -7.
pub mod Text
pub mod Location
pub mod Status
pub mod Ack
use tlrs.Prelude.{
  ℕ, ◌*◌, Option, none, some, List, [], ◌∷◌, String, Result, ok, err, ◌==◌, if◌then◌else◌,
}
use tlrs.Prelude.Int.{ℤ}
use tlrs.Model.Time.{DateTime}
use tlrs.Wire.Base64.{b64decode}

-- A float as an integer in units of 10 ^ -7. An infinity is out of range as a large number is.
abbrev pub Fixed : Type 0
Fixed = ℤ

abbrev pub one : ℕ
one = 10_000_000

-- A coordinate, which may be the float NaN.
pub data Coordinate : Type 0 where
  nan : Coordinate
  degrees_of : Fixed → Coordinate

-- `ChirpStackUpObject`
pub record UpObject : Type 0 where
  pub lat : Option Coordinate
  pub lng : Option Coordinate
  pub altitude : Option Fixed
  pub accuracy : Option Fixed
  pub battery : Option Fixed

-- `ChirpStackUpEvent`, validated: `dev_eui` is normalised, a text of `data` is its code points, and
-- `gateway_ids` are the non-empty ones of `rxInfo`.
pub record UpEvent : Type 0 where
  pub time : Option DateTime
  pub dev_eui : String
  pub device_name : Option String
  pub device_profile_id : Option String
  pub serial : Option String
  pub f_port : Option ℕ
  pub decoded : Option UpObject
  pub text : Option (List ℕ)
  pub gateway_ids : List String

-- The reasons of `ChirpStackPayloadDecodeError`, and those of `ChirpStackDecodeError`.
pub data PayloadError : Type 0 where
  missing_data invalid_base64 latitude_range longitude_range : PayloadError
  location_length status_length ack_length : ℕ → PayloadError
  unsupported_version unsupported_message_type unsupported_gps_fix : ℕ → PayloadError
  unsupported_device_state : ℕ → PayloadError
  ack_unsupported_version ack_invalid_command_seq ack_unknown_status : PayloadError

-- `_decode_base64_data`: `None` and the empty text are both missing.
unfoldable pub decode_base64_data : Option (List ℕ) → Result PayloadError (List ℕ)
decode_base64_data none = err missing_data
decode_base64_data (some []) = err missing_data
decode_base64_data (some (c ∷ text)) = b64decode invalid_base64 (c ∷ text)

-- `_decode_gps_fix_type`
unfoldable pub decode_gps_fix_type : ℕ → Result PayloadError String
decode_gps_fix_type code =
    if code == 0x00
    then ok "NO_FIX"
    else if code == 0x01
    then ok "GPS_FIX"
    else if code == 0x02
    then ok "DGPS_FIX"
    else if code == 0x03
    then ok "ESTIMATED"
    else err (unsupported_gps_fix code)
