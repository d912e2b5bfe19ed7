-- ===== src/Wire/Uplink/Status.antt =====
-- payload_codec.py: `decode_status_payload_v1`.
use tlrs.Prelude.{
  ℕ, ◌+◌, ◌/◌, ◌%◌, ◌<◌, ◌≡◌, Bool, true, false, not, some, List, [], ◌∷◌, ◌++◌, length, String,
  Result, ok, err, ◌>>=◌, ◌>>◌, raise_if, ◌==◌, if◌then◌else◌, arith,
}
use tlrs.Wire.Contract.{protocol_version_v1, status_message_type}
use tlrs.Wire.Bytes.{u16, u16-split, IsBytes}
use tlrs.Wire.Base64.{b64encode}
use tlrs.Wire.Uplink.Text.{decode_base64_data-b64encode}
use tlrs.Wire.Uplink.{
  UpEvent, PayloadError, status_length, unsupported_version, unsupported_message_type,
  unsupported_device_state, decode_base64_data, decode_gps_fix_type,
}

-- The labels of the error flags, by bit position.
pub data ErrorFlag : Type 0 where
  gps_error low_battery sensor_error command_error : ErrorFlag

pub record DecodedChirpStackStatusPayload : Type 0 where
  pub battery_percent : ℕ
  pub battery_mv : ℕ
  pub device_state_code : ℕ
  pub device_state : String
  pub gps_fix_type_code : ℕ
  pub gps_fix_type : String
  pub error_flags : ℕ
  pub active_error_flags : List ErrorFlag

-- `_decode_status_device_state`
unfoldable pub decode_status_device_state : ℕ → Result PayloadError String
decode_status_device_state code =
    if code == 0x00
    then ok "UNKNOWN"
    else if code == 0x01
    then ok "SAFE"
    else if code == 0x02
    then ok "NEAR_LIMIT"
    else if code == 0x03
    then ok "OUTSIDE"
    else if code == 0x04
    then ok "GPS_UNCERTAIN"
    else if code == 0x05
    then ok "LOW_BATTERY"
    else err (unsupported_device_state code)

-- `error_flags & (1 << bit)`, as a test
abbrev has_bit : ℕ → ℕ → Bool
has_bit flags power = flags / power % 2 == 1

-- One round of the loop of `_decode_status_error_flags`
abbrev append_if : Bool → ErrorFlag → List ErrorFlag → List ErrorFlag
append_if active flag active_flags = if active then active_flags ++ (flag ∷ []) else active_flags

-- `_decode_status_error_flags`: the loop over the four items of its mapping
unfoldable pub decode_status_error_flags : ℕ → List ErrorFlag
decode_status_error_flags flags = append_if (has_bit flags 8) command_error (
    append_if (has_bit flags 4) sensor_error
      (append_if (has_bit flags 2) low_battery (append_if (has_bit flags 1) gps_error [])))

-- `struct.unpack(">BBBHBBB", payload)` and the checks behind it
unfoldable decode_status_bytes : List ℕ → Result PayloadError DecodedChirpStackStatusPayload
decode_status_bytes (version ∷ kind ∷ battery ∷ mv_hi ∷ mv_lo ∷ state ∷ gps ∷ flags ∷ []) = do
  raise_if (not (version == protocol_version_v1)) (unsupported_version version)
  raise_if (not (kind == status_message_type)) (unsupported_message_type kind)
  state_label ← decode_status_device_state state
  gps_label ← decode_gps_fix_type gps
  ok (record {
    battery_percent = battery;
    battery_mv = u16 mv_hi mv_lo;
    device_state_code = state;
    device_state = state_label;
    gps_fix_type_code = gps;
    gps_fix_type = gps_label;
    error_flags = flags;
    active_error_flags = decode_status_error_flags flags;
  })
decode_status_bytes bytes = err (status_length (length bytes))

-- `decode_status_payload_v1`
unfoldable pub decode_status_payload_v1 :
    UpEvent → Result PayloadError DecodedChirpStackStatusPayload
unfolding decode_status_bytes
decode_status_payload_v1 event = do bytes ← decode_base64_data event.text; decode_status_bytes bytes

abbrev bit_power : ErrorFlag → ℕ
bit_power gps_error = 1
bit_power low_battery = 2
bit_power sensor_error = 4
bit_power command_error = 8

-- How often a flag is listed.
abbrev same_flag : ErrorFlag → ErrorFlag → Bool
same_flag gps_error gps_error = true
same_flag low_battery low_battery = true
same_flag sensor_error sensor_error = true
same_flag command_error command_error = true
same_flag _ _ = false

abbrev pub count : ErrorFlag → List ErrorFlag → ℕ
count f [] = 0
count f (x ∷ xs) = (if same_flag f x then 1 else 0) + count f xs

abbrev bit : Bool → ℕ
bit b = if b then 1 else 0

count-append :
    (f g : ErrorFlag) (xs : List ErrorFlag)
    → count f (xs ++ (g ∷ [])) ≡ count f xs + bit (same_flag f g)
count-append f g [] = omega arith
count-append f g (x ∷ xs) = omega (arith, count-append f g xs)

count-append_if :
    (f g : ErrorFlag) (active : Bool) (xs : List ErrorFlag)
    → count f (append_if active g xs) ≡ count f xs + (if same_flag f g then bit active else 0)
count-append_if f g true xs = count-append f g xs
count-append_if f g false xs = ground arith

bit_value : (n : ℕ) → bit (n % 2 == 1) ≡ n % 2
bit_value n = ground arith

-- A label is listed once if its bit is set in the flags, and not at all if it is not.
count-decode_status_error_flags :
    (f : ErrorFlag) (flags : ℕ)
    → count f (decode_status_error_flags flags) ≡ flags / bit_power f % 2
unfolding decode_status_error_flags
count-decode_status_error_flags gps_error flags =
    simp count-append_if (omega (arith, bit_value (flags / 1)))
count-decode_status_error_flags low_battery flags =
    simp count-append_if (omega (arith, bit_value (flags / 2)))
count-decode_status_error_flags sensor_error flags =
    simp count-append_if (omega (arith, bit_value (flags / 4)))
count-decode_status_error_flags command_error flags =
    simp count-append_if (omega (arith, bit_value (flags / 8)))

-- The eight bytes that the contract lays down for a status report.
abbrev pub status_bytes : ℕ → ℕ → ℕ → ℕ → ℕ → List ℕ
status_bytes battery mv state gps flags =
    protocol_version_v1
    ∷ status_message_type
    ∷ battery
    ∷ mv / 256
    ∷ mv % 256
    ∷ state
    ∷ gps
    ∷ flags
    ∷ []

status_bytes-decode :
    (battery mv state gps flags : ℕ)
    → decode_status_bytes (status_bytes battery mv state gps flags) ≡ (do
      state_label ← decode_status_device_state state
      gps_label ← decode_gps_fix_type gps
      ok (record {
        battery_percent = battery;
        battery_mv = mv;
        device_state_code = state;
        device_state = state_label;
        gps_fix_type_code = gps;
        gps_fix_type = gps_label;
        error_flags = flags;
        active_error_flags = decode_status_error_flags flags;
      }))
unfolding decode_status_bytes
status_bytes-decode battery mv state gps flags = rw (u16-split mv)

status_bytes-IsBytes :
    (battery mv state gps flags : ℕ)
    → battery < 256
    → mv < 65536
    → state < 256
    → gps < 256
    → flags < 256
    → IsBytes (status_bytes battery mv state gps flags)
status_bytes-IsBytes battery mv state gps flags hb hm hs hg hf = ground arith

-- A status report of the contract's layout, in base64, with fields that fit their bytes, decodes
-- to the fields that it was laid out from, with the labels of its device state and its fix type;
-- it is refused exactly when one of those two codes has no label.
pub decode-status_bytes :
    (event : UpEvent) (battery mv state gps flags : ℕ)
    → battery < 256
    → mv < 65536
    → state < 256
    → gps < 256
    → flags < 256
    → event.text ≡ some (b64encode (status_bytes battery mv state gps flags))
    → decode_status_payload_v1 event ≡ (do
      state_label ← decode_status_device_state state
      gps_label ← decode_gps_fix_type gps
      ok (record {
        battery_percent = battery;
        battery_mv = mv;
        device_state_code = state;
        device_state = state_label;
        gps_fix_type_code = gps;
        gps_fix_type = gps_label;
        error_flags = flags;
        active_error_flags = decode_status_error_flags flags;
      }))
unfolding decode_status_payload_v1
decode-status_bytes event battery mv state gps flags hb hm hs hg hf sent = rw sent (
    rw
      (decode_base64_data-b64encode _ _
        (status_bytes-IsBytes battery mv state gps flags hb hm hs hg hf))
      (status_bytes-decode battery mv state gps flags))
