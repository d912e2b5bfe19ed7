-- ===== src/Wire/Downlink/RoundTrip.antt =====
-- downlink_encoder.py: encoding and decoding undo one another.
use tlrs.Prelude.{
  ℕ, ◌/◌, ◌%◌, ◌≤◌, ◌<◌, ◌≡◌, refl, true, Option, List, [], ◌∷◌, ◌++◌, String, Result, ok, err,
  ◌>>=◌, or_else, arith, >>=-eq-ok, ap,
}
use tlrs.Prelude.Int.{ℤ, pos, negsuc}
use tlrs.Model.Command.{
  DeviceCommandType, set_report_interval, warning_sound, vibration, stop_correction,
  emergency_disable, request_status,
}
use tlrs.Wire.Contract.{protocol_version_v1, command_fport}
use tlrs.Wire.Bytes.{pack_u8, pack_u16, u16-split}
use tlrs.Wire.Downlink.{
  Value, PayloadFields, EncodeError, DecodedFields, no_fields, interval_field, duration_field,
  EncodedChirpStackDownlink, DecodedChirpStackCommandDownlink, in_range, normalize_interval_seconds,
  normalize_duration_seconds, normalize_flags, validate_command_seq, command_type_from_code,
  pack_header, encode_command_payload, no_payload_fields, encode_command_downlink,
  decode_command_specific_payload, decode_command_downlink_payload_v1,
}

in_range_bounds :
    (lo hi : ℕ) (e : EncodeError) (v : ℤ) {n : ℕ} → in_range lo hi e v ≡ ok n → (lo ≤ n) × (n ≤ hi)
in_range_bounds lo hi e (negsuc m) h = cc
in_range_bounds lo hi e (pos m) h = ground arith

pub normalize_interval_seconds_bounds :
    (fields : PayloadFields) {n : ℕ}
    → normalize_interval_seconds fields ≡ ok n
    → (1 ≤ n) × (n ≤ 65535)
unfolding normalize_interval_seconds
normalize_interval_seconds_bounds fields h = ground arith

pub normalize_duration_seconds_bounds :
    (fields : PayloadFields) {n : ℕ}
    → normalize_duration_seconds fields ≡ ok n
    → (1 ≤ n) × (n ≤ 255)
unfolding normalize_duration_seconds
normalize_duration_seconds_bounds fields h = ground arith

pub normalize_flags_bounds : (flags : Option Value) {n : ℕ} → normalize_flags flags ≡ ok n → n ≤ 255
unfolding normalize_flags
normalize_flags_bounds flags h = ground arith

pub pack_header_lem :
    (code seq flags : ℕ)
    → code < 256
    → seq < 65536
    → flags < 256
    → pack_header code seq flags
      ≡ ok (protocol_version_v1 ∷ code ∷ seq / 256 ∷ seq % 256 ∷ flags ∷ [])
unfolding pack_header
pack_header_lem code seq flags hc hs hf = ground arith

-- What the dictionary of a command of each type comes to, when it is well formed.
abbrev pub normalized_fields : DeviceCommandType → PayloadFields → Result EncodeError DecodedFields
normalized_fields set_report_interval fields =
    normalize_interval_seconds fields >>= λ n. ok (interval_field n)
normalized_fields warning_sound fields =
    normalize_duration_seconds fields >>= λ n. ok (duration_field n)
normalized_fields stop_correction fields = ok no_fields
normalized_fields request_status fields = ok no_fields
normalized_fields other fields = err (EncodeError.unsupported_type other)

-- The command that a device should read out of a downlink.
abbrev pub intended :
    ℕ → DeviceCommandType → PayloadFields → Result EncodeError DecodedChirpStackCommandDownlink
intended seq kind fields = do
  flags ← normalize_flags fields.flags
  payload ← normalized_fields kind fields
  ok (record {
    protocol_version = protocol_version_v1;
    command_type = kind;
    command_seq = seq;
    flags = flags;
    payload_fields = payload;
  })

-- The bytes of a header and a payload, for the four types that have a code.
decode_header :
    (code seq flags : ℕ) (payload : List ℕ) (kind : DeviceCommandType)
    → 1 ≤ seq
    → seq ≤ 65535
    → command_type_from_code code ≡ ok kind
    → decode_command_downlink_payload_v1
        (protocol_version_v1 ∷ code ∷ seq / 256 ∷ seq % 256 ∷ flags ∷ payload)
      ≡ (decode_command_specific_payload kind payload >>= λ fields. ok (record {
        protocol_version = protocol_version_v1;
        command_type = kind;
        command_seq = seq;
        flags = flags;
        payload_fields = fields;
      }))
unfolding decode_command_downlink_payload_v1
decode_header code seq flags payload kind lo hi e = rw (u16-split seq) (ground arith)

abbrev pub command_of : ℕ → DeviceCommandType → ℕ → DecodedFields → DecodedChirpStackCommandDownlink
command_of seq kind flags fields = record {
  protocol_version = protocol_version_v1;
  command_type = kind;
  command_seq = seq;
  flags = flags;
  payload_fields = fields;
}

module _ (seq flags : ℕ) (fields : PayloadFields) (lo : 1 ≤ seq) (hi : seq ≤ 65535)
    (hf : flags ≤ 255) where
  -- Every branch of the encoder gives bytes that decode to the normalised fields.
  abbrev pub Decodes : DeviceCommandType → Type 0
  Decodes kind =
      (bytes : List ℕ)
      → encode_command_payload kind seq flags fields ≡ ok bytes
      → (payload : DecodedFields) × (normalized_fields kind fields ≡ ok payload)
        × (decode_command_downlink_payload_v1 bytes ≡ ok (command_of seq kind flags payload))

  interval_bytes :
      (n : ℕ) (bytes : List ℕ)
      → n ≤ 65535
      → (do
        header ← pack_header 1 seq flags
        tail ← pack_u16 EncodeError.struct_error n
        ok (header ++ tail))
        ≡ ok bytes
      → decode_command_downlink_payload_v1 bytes
        ≡ ok (command_of seq set_report_interval flags (interval_field n))
  unfolding decode_command_downlink_payload_v1 pack_u16
  interval_bytes n bytes hn h =
      ground (arith, pack_header_lem 1 seq flags, u16-split seq, u16-split n)

  duration_bytes :
      (n : ℕ) (bytes : List ℕ)
      → n ≤ 255
      → (do
        header ← pack_header 2 seq flags
        tail ← pack_u8 EncodeError.struct_error n
        ok (header ++ tail))
        ≡ ok bytes
      → decode_command_downlink_payload_v1 bytes
        ≡ ok (command_of seq warning_sound flags (duration_field n))
  unfolding decode_command_downlink_payload_v1 pack_u8
  duration_bytes n bytes hn h = ground (arith, pack_header_lem 2 seq flags, u16-split seq)

  interval_Decodes : Decodes set_report_interval
  unfolding encode_command_payload
  interval_Decodes bytes h =
      let (n, en, h') = >>=-eq-ok (normalize_interval_seconds fields) _ h in
      (
        interval_field n,
        ap (λ r. r >>= λ k. ok (interval_field k)) en,
        interval_bytes n bytes (normalize_interval_seconds_bounds fields en).1 h',
      )

  duration_Decodes : Decodes warning_sound
  unfolding encode_command_payload
  duration_Decodes bytes h =
      let (n, en, h') = >>=-eq-ok (normalize_duration_seconds fields) _ h in
      (
        duration_field n,
        ap (λ r. r >>= λ k. ok (duration_field k)) en,
        duration_bytes n bytes (normalize_duration_seconds_bounds fields en).1 h',
      )

  stop_Decodes : Decodes stop_correction
  unfolding encode_command_payload decode_command_downlink_payload_v1
  stop_Decodes bytes h =
      (no_fields, refl, ground (arith, pack_header_lem 3 seq flags, u16-split seq))

  status_Decodes : Decodes request_status
  unfolding encode_command_payload decode_command_downlink_payload_v1
  status_Decodes bytes h =
      (no_fields, refl, ground (arith, pack_header_lem 4 seq flags, u16-split seq))

  pub all_Decode : (kind : DeviceCommandType) → Decodes kind
  unfolding encode_command_payload
  all_Decode set_report_interval = interval_Decodes
  all_Decode warning_sound = duration_Decodes
  all_Decode stop_correction = stop_Decodes
  all_Decode request_status = status_Decodes
  all_Decode vibration = λ bytes h. cc
  all_Decode emergency_disable = λ bytes h. cc

pub validate_command_seq_bounds :
    {E : Type 0} (e : E) (seq : ℕ) {u : Unit {0}}
    → validate_command_seq e seq ≡ ok u
    → (1 ≤ seq) × (seq ≤ 65535)
validate_command_seq_bounds e seq h = ground arith

abbrev pub downlink_of : String → ℕ → DeviceCommandType → List ℕ → EncodedChirpStackDownlink
downlink_of uuid seq kind bytes = record {
  command_id = uuid;
  command_seq = seq;
  command_type = kind;
  f_port = command_fport;
  bytes = bytes;
  confirmed = true;
}

pub encode_of_parts :
    (uuid : String) (seq : ℕ) (kind : DeviceCommandType) (given : Option PayloadFields) {flags : ℕ}
    {bytes : List ℕ}
    → 1 ≤ seq
    → seq ≤ 65535
    → normalize_flags (or_else given no_payload_fields).flags ≡ ok flags
    → encode_command_payload kind seq flags (or_else given no_payload_fields) ≡ ok bytes
    → encode_command_downlink uuid seq kind given ≡ ok (downlink_of uuid seq kind bytes)
unfolding encode_command_downlink
encode_of_parts uuid seq kind given lo hi eflags ebytes = ground arith

-- What a downlink that the encoder returned was made of.
pub encode_parts :
    (uuid : String) (seq : ℕ) (kind : DeviceCommandType) (given : Option PayloadFields)
    {e : EncodedChirpStackDownlink}
    → encode_command_downlink uuid seq kind given ≡ ok e
    → let fields = or_else given no_payload_fields in
      (flags : ℕ) × (bytes : List ℕ) × (1 ≤ seq)
      × (seq ≤ 65535)
      × (normalize_flags fields.flags ≡ ok flags)
      × (encode_command_payload kind seq flags fields ≡ ok bytes)
      × (downlink_of uuid seq kind bytes ≡ e)
unfolding encode_command_downlink
encode_parts uuid seq kind given h =
    let fields = or_else given no_payload_fields in
    let (_, valid, h₁) = >>=-eq-ok (validate_command_seq EncodeError.command_seq_range seq) _ h in
    let (flags, eflags, h₂) = >>=-eq-ok (normalize_flags fields.flags) _ h₁ in
    let (bytes, ebytes, h₃) = >>=-eq-ok (encode_command_payload kind seq flags fields) _ h₂ in
    let (lo, hi) = validate_command_seq_bounds EncodeError.command_seq_range seq valid in
    (flags, bytes, lo, hi, eflags, ebytes, cc)

-- Every downlink that the encoder produces decodes, and to the intended command: the sequence
-- number, the type, the normalised flags and the normalised field of that type.
pub decode-encode :
    (uuid : String) (seq : ℕ) (kind : DeviceCommandType) (given : Option PayloadFields)
    {e : EncodedChirpStackDownlink}
    → encode_command_downlink uuid seq kind given ≡ ok e
    → (d : DecodedChirpStackCommandDownlink) × (intended seq kind (or_else given no_payload_fields)
        ≡ ok d)
      × (decode_command_downlink_payload_v1 e.bytes ≡ ok d)
decode-encode uuid seq kind given {e} h =
    let fields = or_else given no_payload_fields in
    let (flags, bytes, lo, hi, eflags, ebytes, made) = encode_parts uuid seq kind given h in
    let hf : flags ≤ 255 = normalize_flags_bounds fields.flags eflags in
    let (payload, norm, decoded) = all_Decode seq flags fields lo hi hf kind bytes ebytes in
    (command_of seq kind flags payload, rw (eflags, norm), rw (← made) decoded)
