-- ===== src/Wire/Downlink/Inverse.antt =====
-- downlink_encoder.py: a payload that decodes is the payload of the command that it decodes to.
use tlrs.Prelude.{
  ℕ, ◌/◌, ◌%◌, ◌≤◌, ◌<◌, ◌≡◌, not, none, some, List, [], ◌∷◌, ◌==◌, String, ok, raise_if, arith,
  >>=-eq-ok, ok-injective, subst,
}
use tlrs.Prelude.Int.{pos}
use tlrs.Model.Command.{
  DeviceCommandType, set_report_interval, warning_sound, stop_correction, request_status,
}
use tlrs.Wire.Contract.{protocol_version_v1}
use tlrs.Wire.Bytes.{pack_u8, pack_u16, u16, IsBytes}
use tlrs.Wire.Downlink.{
  num, PayloadFields, DecodeError, unsupported_version, DecodedFields, no_fields, interval_field,
  duration_field, DecodedChirpStackCommandDownlink, normalize_interval_seconds,
  normalize_duration_seconds, normalize_flags, validate_command_seq, command_type_to_code,
  command_type_from_code, encode_command_payload, encode_command_downlink,
  decode_command_specific_payload, decode_command_downlink_payload_v1,
}
use tlrs.Wire.Downlink.RoundTrip.{
  downlink_of, command_of, pack_header_lem, encode_of_parts, validate_command_seq_bounds,
}

-- A decoded dictionary, and the flags, as the dictionary that the encoder takes.
abbrev pub given_of : ℕ → DecodedFields → PayloadFields
given_of flags no_fields = record {
  flags = some (num (pos flags));
  interval_seconds = none;
  duration_seconds = none;
  duration_ms = none;
}
given_of flags (interval_field n) = record {
  flags = some (num (pos flags));
  interval_seconds = some (num (pos n));
  duration_seconds = none;
  duration_ms = none;
}
given_of flags (duration_field n) = record {
  flags = some (num (pos flags));
  interval_seconds = none;
  duration_seconds = some (num (pos n));
  duration_ms = none;
}

-- The interval or duration is not 0, which the decoder lets through and the encoder does not.
abbrev IsPositive : DecodedFields → Type 0
IsPositive no_fields = Unit
IsPositive (interval_field n) = 1 ≤ n
IsPositive (duration_field n) = 1 ≤ n

to_code-from_code :
    (code : ℕ) {kind : DeviceCommandType}
    → command_type_from_code code ≡ ok kind
    → (command_type_to_code kind ≡ ok code) × (code < 256)
unfolding command_type_from_code command_type_to_code
to_code-from_code code h = ground arith

-- What a payload that decodes is made of.
decode_parts :
    (version code hi lo flags : ℕ) (payload : List ℕ) {d : DecodedChirpStackCommandDownlink}
    → decode_command_downlink_payload_v1 (version ∷ code ∷ hi ∷ lo ∷ flags ∷ payload) ≡ ok d
    → (kind : DeviceCommandType) × (df : DecodedFields) × (version ≡ protocol_version_v1)
      × (1 ≤ u16 hi lo)
      × (command_type_from_code code ≡ ok kind)
      × (decode_command_specific_payload kind payload ≡ ok df)
      × (command_of (u16 hi lo) kind flags df ≡ d)
unfolding decode_command_downlink_payload_v1
decode_parts version code hi lo flags payload {d} h =
    let (_, ev, h₁) =
      >>=-eq-ok (raise_if (not (version == protocol_version_v1)) (unsupported_version version)) _
        h in
    let (_, es, h₂) =
      >>=-eq-ok (validate_command_seq DecodeError.command_seq_range (u16 hi lo)) _ h₁ in
    let (kind, ek, h₃) = >>=-eq-ok (command_type_from_code code) _ h₂ in
    let (df, ef, h₄) = >>=-eq-ok (decode_command_specific_payload kind payload) _ h₃ in
    let bounds = validate_command_seq_bounds DecodeError.command_seq_range (u16 hi lo) es in
    let v1 : version ≡ protocol_version_v1 = ground (arith, ev) in
    (kind, df, v1, bounds.0, ek, ef, subst (λ v. command v kind df ≡ d) v1 (ok-injective h₄))
  where
    command : ℕ → DeviceCommandType → DecodedFields → DecodedChirpStackCommandDownlink
    command v kind df = record {
      protocol_version = v;
      command_type = kind;
      command_seq = u16 hi lo;
      flags = flags;
      payload_fields = df;
    }

u16_fields :
    (hi lo : ℕ)
    → hi < 256
    → lo < 256
    → (u16 hi lo < 65536) × (u16 hi lo / 256 ≡ hi) × (u16 hi lo % 256 ≡ lo)
u16_fields hi lo h l = omega arith

-- The encoder, given back what the decoder read of the bytes behind the header.
payload-specific :
    (kind : DeviceCommandType) (code hi lo flags : ℕ) (payload : List ℕ) (df : DecodedFields)
    → command_type_to_code kind ≡ ok code
    → code < 256
    → hi < 256
    → lo < 256
    → flags < 256
    → IsBytes payload
    → IsPositive df
    → decode_command_specific_payload kind payload ≡ ok df
    → encode_command_payload kind (u16 hi lo) flags (given_of flags df)
      ≡ ok (protocol_version_v1 ∷ code ∷ hi ∷ lo ∷ flags ∷ payload)
unfolding encode_command_payload decode_command_specific_payload normalize_interval_seconds
    normalize_duration_seconds pack_u8 pack_u16
payload-specific set_report_interval code hi lo flags (b1 ∷ b0 ∷ []) df ec hc hh hl hf bs p h =
    ground (arith, h, u16_fields hi lo, u16_fields b1 b0, pack_header_lem code (u16 hi lo) flags)
payload-specific warning_sound code hi lo flags (b ∷ []) df ec hc hh hl hf bs p h =
    ground (arith, h, u16_fields hi lo, pack_header_lem code (u16 hi lo) flags)
payload-specific stop_correction code hi lo flags [] df ec hc hh hl hf bs p h =
    ground (arith, h, u16_fields hi lo, pack_header_lem code (u16 hi lo) flags)
payload-specific request_status code hi lo flags [] df ec hc hh hl hf bs p h =
    ground (arith, h, u16_fields hi lo, pack_header_lem code (u16 hi lo) flags)
payload-specific kind code hi lo flags payload df ec hc hh hl hf bs p h = cc

IsBytes-parts :
    (version code hi lo flags : ℕ) (payload : List ℕ)
    → IsBytes (version ∷ code ∷ hi ∷ lo ∷ flags ∷ payload)
    → (version < 256) × (code < 256) × (hi < 256) × (lo < 256) × (flags < 256) × IsBytes payload
IsBytes-parts version code hi lo flags payload bs =
    (bs.0, bs.1.0, bs.1.1.0, bs.1.1.1.0, bs.1.1.1.1.0, bs.1.1.1.1.1)

flags_norm :
    (df : DecodedFields) (flags : ℕ)
    → flags ≤ 255
    → normalize_flags (given_of flags df).flags ≡ ok flags
unfolding normalize_flags
flags_norm no_fields flags h = ground arith
flags_norm (interval_field n) flags h = ground arith
flags_norm (duration_field n) flags h = ground arith

-- A payload of bytes that decodes, with an interval or duration other than 0, is exactly what the
-- encoder makes of the decoded command.
pub encode-decode :
    (uuid : String) (bytes : List ℕ) {d : DecodedChirpStackCommandDownlink}
    → IsBytes bytes
    → decode_command_downlink_payload_v1 bytes ≡ ok d
    → IsPositive d.payload_fields
    → encode_command_downlink uuid d.command_seq d.command_type
        (some (given_of d.flags d.payload_fields))
      ≡ ok (downlink_of uuid d.command_seq d.command_type bytes)
encode-decode uuid (version ∷ code ∷ hi ∷ lo ∷ flags ∷ payload) {d} bs h p =
    let (kind, df, v1, lo1, ek, ef, made) = decode_parts version code hi lo flags payload h in
    let (back, hc) = to_code-from_code code ek in
    let (bv, bc, bhi, blo, bf, bp) = IsBytes-parts version code hi lo flags payload bs in
    let positive : IsPositive df = rw (← made) at p in
    let encoded =
      payload-specific kind code hi lo flags payload df back hc bhi blo bf bp positive ef in
    rw (← made, v1)
      (encode_of_parts uuid (u16 hi lo) kind (some (given_of flags df)) lo1 (omega arith)
        (flags_norm df flags (omega arith)) encoded)
encode-decode uuid [] {d} bs h p = unfold decode_command_downlink_payload_v1 in cc
encode-decode uuid (version ∷ []) bs h p = unfold decode_command_downlink_payload_v1 in cc
encode-decode uuid (version ∷ code ∷ []) bs h p = unfold decode_command_downlink_payload_v1 in cc
encode-decode uuid (version ∷ code ∷ hi ∷ []) bs h p =
    unfold decode_command_downlink_payload_v1 in cc
encode-decode uuid (version ∷ code ∷ hi ∷ lo ∷ []) bs h p =
    unfold decode_command_downlink_payload_v1 in cc
