-- ===== src/Wire/Downlink.antt =====
-- src/integrations/chirpstack/downlink_encoder.py: commands as bytes, and back.
pub mod RoundTrip
pub mod Total
pub mod Inverse
use tlrs.Prelude.{
  ℕ, ◌+◌, ◌/◌, Bool, true, ◌||◌, not, Option, none, some, List, [], ◌∷◌, ◌++◌, ltb, ◌==◌,
  if◌then◌else◌, max, String, Result, ok, err, ◌>>=◌, ◌>>◌, raise_if, or_else,
}
use tlrs.Prelude.Int.{ℤ, pos, negsuc}
use tlrs.Model.Command.{
  DeviceCommandType, set_report_interval, warning_sound, vibration, stop_correction,
  emergency_disable, request_status,
}
use tlrs.Wire.Contract.{protocol_version_v1, command_fport}
use tlrs.Wire.Bytes.{pack_u8, pack_u16, u16}

-- A value of `dict[str, Any]` as the encoder reads it: `None`, an integer, or another object `x`,
-- kept as what `int(x)` gives (`none` where it raises `ValueError`, as for the text "LOW").
pub data Value : Type 0 where
  null : Value
  num : ℤ → Value
  object : Option ℤ → Value

-- The keys of `payload_fields` that the encoder reads; `none` is a key that is not there.
pub record PayloadFields : Type 0 where
  pub flags : Option Value
  pub interval_seconds : Option Value
  pub duration_seconds : Option Value
  pub duration_ms : Option Value

-- `none_as_int` is the `TypeError` of `int(None)`, `struct_error` that of `struct.pack`; all
-- others are `ValueError`.
pub data EncodeError : Type 0 where
  command_seq_range flags_range interval_missing interval_range : EncodeError
  duration_missing duration_range invalid_int none_as_int struct_error : EncodeError
  unsupported_type : DeviceCommandType → EncodeError

pub data DecodeError : Type 0 where
  command_length set_report_interval_length warning_sound_length : DecodeError
  stop_correction_length request_status_length command_seq_range : DecodeError
  unsupported_version unsupported_code : ℕ → DecodeError

-- The dictionary of a decoded command, which has one key or none.
pub data DecodedFields : Type 0 where
  no_fields : DecodedFields
  interval_field duration_field : ℕ → DecodedFields

pub record EncodedChirpStackDownlink : Type 0 where
  pub command_id : String
  pub command_seq : ℕ
  pub command_type : DeviceCommandType
  pub f_port : ℕ
  pub bytes : List ℕ
  pub confirmed : Bool

pub record DecodedChirpStackCommandDownlink : Type 0 where
  pub protocol_version : ℕ
  pub command_type : DeviceCommandType
  pub command_seq : ℕ
  pub flags : ℕ
  pub payload_fields : DecodedFields

-- Python's `int(x)`
unfoldable to_int : Value → Result EncodeError ℤ
to_int null = err none_as_int
to_int (num n) = ok n
to_int (object none) = err invalid_int
to_int (object (some n)) = ok n

-- An integer in the range from `lo` to `hi`, both natural numbers.
abbrev in_range : ℕ → ℕ → EncodeError → ℤ → Result EncodeError ℕ
in_range lo hi e (negsuc n) = err e
in_range lo hi e (pos n) = if ltb n lo || ltb hi n then err e else ok n

-- A missing key and `None` read alike under `get`.
abbrev get : Option Value → Option Value
get none = none
get (some null) = none
get (some (num n)) = some (num n)
get (some (object o)) = some (object o)

-- `_normalize_interval_seconds`
unfoldable pub normalize_interval_seconds : PayloadFields → Result EncodeError ℕ
unfolding to_int
normalize_interval_seconds fields = elim (get fields.interval_seconds) [
  | none ↦ err interval_missing
  | some v ↦ to_int v >>= in_range 1 65535 interval_range
]

-- `max(1, math.ceil(ms / 1000))`. The quotient is a float; it is exact up to the range test.
abbrev ceil_seconds : ℤ → ℕ
ceil_seconds (pos ms) = max 1 ((ms + 999) / 1000)
ceil_seconds (negsuc ms) = 1

-- `duration_seconds` after the first `if` of `_normalize_duration_seconds`
unfoldable duration_value : PayloadFields → Result EncodeError (Option Value)
unfolding to_int
duration_value fields = elim (get fields.duration_seconds) [
  | some v ↦ ok (some v)
  | none ↦ elim fields.duration_ms [
    | none ↦ ok none
    | some ms ↦ to_int ms >>= λ n. ok (some (num (pos (ceil_seconds n))))
  ]
]

-- `_normalize_duration_seconds`
unfoldable pub normalize_duration_seconds : PayloadFields → Result EncodeError ℕ
unfolding duration_value to_int
normalize_duration_seconds fields = duration_value fields >>= λ value. elim value [
  | none ↦ err duration_missing
  | some v ↦ to_int v >>= in_range 1 255 duration_range
]

-- `_normalize_flags(payload_fields.get("flags", 0))`
unfoldable pub normalize_flags : Option Value → Result EncodeError ℕ
unfolding to_int
normalize_flags none = ok 0
normalize_flags (some v) = to_int v >>= in_range 0 255 flags_range

-- `_validate_command_seq`, with the error that the caller's exception type carries
abbrev pub validate_command_seq : {E : Type 0} → E → ℕ → Result E (Unit {0})
validate_command_seq e seq = raise_if (ltb seq 1 || ltb 65535 seq) e

-- `_command_type_to_code`
unfoldable pub command_type_to_code : DeviceCommandType → Result EncodeError ℕ
command_type_to_code set_report_interval = ok 0x01
command_type_to_code warning_sound = ok 0x02
command_type_to_code stop_correction = ok 0x03
command_type_to_code request_status = ok 0x04
command_type_to_code vibration = err (unsupported_type vibration)
command_type_to_code emergency_disable = err (unsupported_type emergency_disable)

-- `_command_type_from_code`
unfoldable pub command_type_from_code : ℕ → Result DecodeError DeviceCommandType
command_type_from_code code =
    if code == 0x01
    then ok set_report_interval
    else if code == 0x02
    then ok warning_sound
    else if code == 0x03
    then ok stop_correction
    else if code == 0x04
    then ok request_status
    else err (unsupported_code code)

-- `struct.pack(">BBHB", version, code, seq, flags)`
unfoldable pub pack_header : ℕ → ℕ → ℕ → Result EncodeError (List ℕ)
unfolding pack_u8 pack_u16
pack_header code seq flags = do
  version ← pack_u8 struct_error protocol_version_v1
  kind ← pack_u8 struct_error code
  number ← pack_u16 struct_error seq
  flag ← pack_u8 struct_error flags
  ok (version ++ (kind ++ (number ++ flag)))

-- The branches of `_encode_command_payload`, on the type whose code is already known
unfoldable encode_fields :
    DeviceCommandType → ℕ → ℕ → ℕ → PayloadFields → Result EncodeError (List ℕ)
unfolding pack_header pack_u8 pack_u16
encode_fields set_report_interval code seq flags fields = do
  interval ← normalize_interval_seconds fields
  header ← pack_header code seq flags
  tail ← pack_u16 struct_error interval
  ok (header ++ tail)
encode_fields warning_sound code seq flags fields = do
  duration ← normalize_duration_seconds fields
  header ← pack_header code seq flags
  tail ← pack_u8 struct_error duration
  ok (header ++ tail)
encode_fields stop_correction code seq flags fields = pack_header code seq flags
encode_fields request_status code seq flags fields = pack_header code seq flags
encode_fields other code seq flags fields = err (unsupported_type other)

-- `_encode_command_payload`
unfoldable pub encode_command_payload :
    DeviceCommandType → ℕ → ℕ → PayloadFields → Result EncodeError (List ℕ)
unfolding command_type_to_code encode_fields
encode_command_payload kind seq flags fields = do
  code ← command_type_to_code kind
  encode_fields kind code seq flags fields

abbrev pub no_payload_fields : PayloadFields
no_payload_fields = record {
  flags = none;
  interval_seconds = none;
  duration_seconds = none;
  duration_ms = none;
}

-- `encode_command_downlink`; the sequence number is a natural number, and 0 stands for all
-- numbers below 1.
unfoldable pub encode_command_downlink :
    String
    → ℕ
    → DeviceCommandType
    → Option PayloadFields
    → Result EncodeError EncodedChirpStackDownlink
unfolding encode_command_payload normalize_flags
encode_command_downlink uuid seq kind given = do
  let fields = or_else given no_payload_fields
  validate_command_seq command_seq_range seq
  flags ← normalize_flags fields.flags
  bytes ← encode_command_payload kind seq flags fields
  ok (record {
    command_id = uuid;
    command_seq = seq;
    command_type = kind;
    f_port = command_fport;
    bytes = bytes;
    confirmed = true;
  })

-- `_decode_command_specific_payload`. `command_type_from_code` never gives the last two types.
unfoldable pub decode_command_specific_payload :
    DeviceCommandType → List ℕ → Result DecodeError DecodedFields
decode_command_specific_payload set_report_interval (hi ∷ lo ∷ []) = ok (interval_field (u16 hi lo))
decode_command_specific_payload set_report_interval _ = err set_report_interval_length
decode_command_specific_payload warning_sound (b ∷ []) = ok (duration_field b)
decode_command_specific_payload warning_sound _ = err warning_sound_length
decode_command_specific_payload stop_correction [] = ok no_fields
decode_command_specific_payload stop_correction _ = err stop_correction_length
decode_command_specific_payload request_status [] = ok no_fields
decode_command_specific_payload request_status _ = err request_status_length
decode_command_specific_payload vibration _ = err (unsupported_code 0)
decode_command_specific_payload emergency_disable _ = err (unsupported_code 0)

-- `decode_command_downlink_payload_v1`
unfoldable pub decode_command_downlink_payload_v1 :
    List ℕ → Result DecodeError DecodedChirpStackCommandDownlink
unfolding command_type_from_code decode_command_specific_payload
decode_command_downlink_payload_v1 (version ∷ code ∷ hi ∷ lo ∷ flags ∷ payload) = do
  raise_if (not (version == protocol_version_v1)) (unsupported_version version)
  let seq = u16 hi lo
  validate_command_seq DecodeError.command_seq_range seq
  kind ← command_type_from_code code
  fields ← decode_command_specific_payload kind payload
  ok (record {
    protocol_version = version;
    command_type = kind;
    command_seq = seq;
    flags = flags;
    payload_fields = fields;
  })
decode_command_downlink_payload_v1 _ = err command_length
