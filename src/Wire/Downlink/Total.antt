-- ===== src/Wire/Downlink/Total.antt =====
-- downlink_encoder.py: the encoder returns bytes, and returns them whenever its input is well formed.
use tlrs.Prelude.{
  ℕ, ◌/◌, ◌%◌, ◌≤◌, ◌≡◌, Option, List, [], ◌∷◌, String, ok, or_else, arith, >>=-eq-ok, ap,
  ok-injective, subst, sym, ◌∙◌,
}
use tlrs.Model.Command.{
  DeviceCommandType, set_report_interval, warning_sound, vibration, stop_correction,
  emergency_disable, request_status,
}
use tlrs.Wire.Bytes.{pack_u8, pack_u16, IsBytes}
use tlrs.Wire.Downlink.{
  PayloadFields, DecodedFields, EncodedChirpStackDownlink, DecodedChirpStackCommandDownlink,
  normalize_interval_seconds, normalize_duration_seconds, normalize_flags, encode_command_payload,
  no_payload_fields, encode_command_downlink, decode_command_downlink_payload_v1,
}
use tlrs.Wire.Downlink.RoundTrip.{
  normalized_fields, intended, downlink_of, encode_of_parts, encode_parts, all_Decode,
  decode-encode, pack_header_lem, normalize_interval_seconds_bounds,
  normalize_duration_seconds_bounds, normalize_flags_bounds,
}

module _ (seq flags : ℕ) (fields : PayloadFields) (hi : seq ≤ 65535) (hf : flags ≤ 255) where
  abbrev Encodes : DeviceCommandType → Type 0
  Encodes kind =
      (payload : DecodedFields)
      → normalized_fields kind fields ≡ ok payload
      → (bytes : List ℕ) × (encode_command_payload kind seq flags fields ≡ ok bytes) × IsBytes bytes

  all_Encode : (kind : DeviceCommandType) → Encodes kind
  unfolding encode_command_payload pack_u8 pack_u16
  all_Encode set_report_interval payload h =
      let (n, en, _) = >>=-eq-ok (normalize_interval_seconds fields) _ h in
      let bounds : n ≤ 65535 = (normalize_interval_seconds_bounds fields en).1 in
      (
        1 ∷ 1 ∷ seq / 256 ∷ seq % 256 ∷ flags ∷ n / 256 ∷ n % 256 ∷ [],
        ground (arith, en, pack_header_lem 1 seq flags),
        omega arith,
      )
  all_Encode warning_sound payload h =
      let (n, en, _) = >>=-eq-ok (normalize_duration_seconds fields) _ h in
      let bounds : n ≤ 255 = (normalize_duration_seconds_bounds fields en).1 in
      (
        1 ∷ 2 ∷ seq / 256 ∷ seq % 256 ∷ flags ∷ n ∷ [],
        ground (arith, en, pack_header_lem 2 seq flags),
        omega arith,
      )
  all_Encode stop_correction payload h = (
    1 ∷ 3 ∷ seq / 256 ∷ seq % 256 ∷ flags ∷ [],
    ground (arith, pack_header_lem 3 seq flags),
    omega arith,
  )
  all_Encode request_status payload h = (
    1 ∷ 4 ∷ seq / 256 ∷ seq % 256 ∷ flags ∷ [],
    ground (arith, pack_header_lem 4 seq flags),
    omega arith,
  )
  all_Encode vibration payload h = cc
  all_Encode emergency_disable payload h = cc

-- Whatever the encoder returns is a list of bytes.
pub encode-IsBytes :
    (uuid : String) (seq : ℕ) (kind : DeviceCommandType) (given : Option PayloadFields)
    {e : EncodedChirpStackDownlink}
    → encode_command_downlink uuid seq kind given ≡ ok e
    → IsBytes e.bytes
encode-IsBytes uuid seq kind given {e} h =
    let fields = or_else given no_payload_fields in
    let (flags, bytes, lo, hi, eflags, ebytes, made) = encode_parts uuid seq kind given h in
    let hf : flags ≤ 255 = normalize_flags_bounds fields.flags eflags in
    let (payload, norm, _) = all_Decode seq flags fields lo hi hf kind bytes ebytes in
    let (bytes', ebytes', octets) = all_Encode seq flags fields hi hf kind payload norm in
    subst IsBytes
      (ok-injective (sym ebytes' ∙ ebytes) ∙ ap (λ (d : EncodedChirpStackDownlink). d.bytes) made)
      octets

-- The encoder is total on what it accepts: with a sequence number from 1 to 65535, and flags and
-- a field that normalise, it returns a downlink, so that `struct.pack` does not raise.
pub encode_total :
    (uuid : String) (seq : ℕ) (kind : DeviceCommandType) (given : Option PayloadFields)
    {d : DecodedChirpStackCommandDownlink}
    → 1 ≤ seq
    → seq ≤ 65535
    → intended seq kind (or_else given no_payload_fields) ≡ ok d
    → (e : EncodedChirpStackDownlink) × (encode_command_downlink uuid seq kind given ≡ ok e)
      × (decode_command_downlink_payload_v1 e.bytes ≡ ok d)
encode_total uuid seq kind given {d} lo hi h =
    let fields = or_else given no_payload_fields in
    let (flags, eflags, h₁) = >>=-eq-ok (normalize_flags fields.flags) _ h in
    let (payload, norm, h₂) = >>=-eq-ok (normalized_fields kind fields) _ h₁ in
    let hf : flags ≤ 255 = normalize_flags_bounds fields.flags eflags in
    let (bytes, ebytes, _) = all_Encode seq flags fields hi hf kind payload norm in
    let e = downlink_of uuid seq kind bytes in
    let made : encode_command_downlink uuid seq kind given ≡ ok e =
      encode_of_parts uuid seq kind given lo hi eflags ebytes in
    let (d', same, decoded) = decode-encode uuid seq kind given made in (e, made, cc)
