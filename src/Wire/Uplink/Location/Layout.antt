-- ===== src/Wire/Uplink/Location/Layout.antt =====
-- Locations: what the decoders let through, and the layout of the binary payload.
use tlrs.Prelude.{
  false, Bool-cases, ℕ, ◌+◌, ◌-◌, ◌*◌, ◌/◌, ◌%◌, ◌<◌, ◌≡◌, not, Option, none, some, List, [], ◌∷◌,
  String, ok, ◌>>=◌, raise_if, ◌==◌, arith, >>=-eq-ok, ok-injective, subst, inl, inr, Option-cases,
}
use tlrs.Prelude.Int.{ℤ, pos, negsuc, ◌≤ℤ◌}
use tlrs.Model.Time.{to_utc_naive}
use tlrs.Wire.Contract.{protocol_version_v1, location_message_type}
use tlrs.Wire.Bytes.{i16, i32, IsBytes}
use tlrs.Wire.Base64.{b64encode}
use tlrs.Wire.Uplink.Text.{decode_base64_data-b64encode}
use tlrs.Wire.Uplink.{
  UpEvent, UpObject, Fixed, Coordinate, nan, degrees_of, one, unsupported_version,
  unsupported_message_type, decode_base64_data, decode_gps_fix_type,
}
use tlrs.Wire.Uplink.Location.{
  NormalizedTelemetry, to_fixed, degrees, minus_degrees, validate_coordinates, accuracy_of,
  decode_location_bytes, decode_location_payload_v1, decode_from_object, choose_decoder,
  decode_up_event, is_outside, Within, IsOnGlobe,
}

Within-is_outside :
    (low high : Fixed) (c : Coordinate) → is_outside low high c ≡ false → Within low high c
Within-is_outside low high nan h = tt
Within-is_outside low high (degrees_of n) h = ground arith

validate_coordinates_bounds :
    (lat lng : Coordinate) {u : Unit {0}}
    → validate_coordinates lat lng ≡ ok u
    → Within (minus_degrees 90) (degrees 90) lat × Within (minus_degrees 180) (degrees 180) lng
validate_coordinates_bounds lat lng h =
    elim (Bool-cases (is_outside (minus_degrees 90) (degrees 90) lat)) [
      | inl e ↦ cc (rw e at h)
      | inr e ↦ elim (Bool-cases (is_outside (minus_degrees 180) (degrees 180) lng)) [
        | inl f ↦ cc (rw (e, f) at h)
        | inr f ↦ (
          Within-is_outside (minus_degrees 90) (degrees 90) lat e,
          Within-is_outside (minus_degrees 180) (degrees 180) lng f,
        )
      ]
    ]

decode_from_object-IsOnGlobe :
    (event : UpEvent) (o : UpObject) (lat lng : Coordinate) {t : NormalizedTelemetry}
    → decode_from_object event o lat lng ≡ ok t
    → IsOnGlobe t
unfolding decode_from_object
decode_from_object-IsOnGlobe event o lat lng h =
    let (_, valid, h₁) = >>=-eq-ok (validate_coordinates lat lng) _ h in
    let bounds = validate_coordinates_bounds lat lng valid in
    subst IsOnGlobe (ok-injective h₁) (record { latitude = bounds.0; longitude = bounds.1 })

decode_location_bytes-IsOnGlobe :
    (event : UpEvent) (bytes : List ℕ) {t : NormalizedTelemetry}
    → decode_location_bytes event bytes ≡ ok t
    → IsOnGlobe t
unfolding decode_location_bytes
decode_location_bytes-IsOnGlobe event
      (version ∷ kind ∷ a3 ∷ a2 ∷ a1 ∷ a0 ∷ o3 ∷ o2 ∷ o1 ∷ o0 ∷ h1 ∷ h0 ∷ accuracy ∷ battery ∷ fix
        ∷ [])
      h =
    let (_, _, h₁) =
      >>=-eq-ok (raise_if (not (version == protocol_version_v1)) (unsupported_version version)) _
        h in
    let (_, _, h₂) =
      >>=-eq-ok (raise_if (not (kind == location_message_type)) (unsupported_message_type kind)) _
        h₁ in
    let (_, valid, h₃) =
      >>=-eq-ok (validate_coordinates (degrees_of (i32 a3 a2 a1 a0)) (degrees_of (i32 o3 o2 o1 o0)))
        _ h₂ in
    let (label, _, h₄) = >>=-eq-ok (decode_gps_fix_type fix) _ h₃ in
    let bounds =
      validate_coordinates_bounds (degrees_of (i32 a3 a2 a1 a0)) (degrees_of (i32 o3 o2 o1 o0))
        valid in
    subst IsOnGlobe (ok-injective h₄) (record { latitude = bounds.0; longitude = bounds.1 })
decode_location_bytes-IsOnGlobe event _ h = cc

decode_location_payload_v1-IsOnGlobe :
    (event : UpEvent) {t : NormalizedTelemetry}
    → decode_location_payload_v1 event ≡ ok t
    → IsOnGlobe t
unfolding decode_location_payload_v1
decode_location_payload_v1-IsOnGlobe event h =
    let (bytes, _, h₁) = >>=-eq-ok (decode_base64_data event.text) _ h in
    decode_location_bytes-IsOnGlobe event bytes h₁

choose_decoder-IsOnGlobe :
    (event : UpEvent) (o : UpObject) (lat lng : Option Coordinate) {t : NormalizedTelemetry}
    → choose_decoder event o lat lng ≡ ok t
    → IsOnGlobe t
unfolding choose_decoder
choose_decoder-IsOnGlobe event o (some lat) (some lng) h =
    decode_from_object-IsOnGlobe event o lat lng h
choose_decoder-IsOnGlobe event o (some lat) none h = decode_location_payload_v1-IsOnGlobe event h
choose_decoder-IsOnGlobe event o none lng h = decode_location_payload_v1-IsOnGlobe event h

-- Whatever the payload and the object of an event hold, a telemetry that the decoder returns has
-- its latitude from -90 to 90 degrees and its longitude from -180 to 180, each unless it is NaN.
pub decode_up_event-IsOnGlobe :
    (event : UpEvent) {t : NormalizedTelemetry} → decode_up_event event ≡ ok t → IsOnGlobe t
unfolding decode_up_event
decode_up_event-IsOnGlobe event h = elim (Option-cases event.decoded) [
  | inl e ↦ decode_location_payload_v1-IsOnGlobe event (rw e at h)
  | inr (o, e) ↦ choose_decoder-IsOnGlobe event o o.lat o.lng (rw e at h)
]

-- The two's complement of a number, at a modulus.
abbrev pub complement : ℕ → ℤ → ℕ
complement m (pos n) = n
complement m (negsuc n) = m - 1 - n

-- The four bytes of a number, and the two.
abbrev be32 : ℕ → List ℕ → List ℕ
be32 n rest = n / 16777216 ∷ n / 65536 % 256 ∷ n / 256 % 256 ∷ n % 256 ∷ rest

abbrev be16 : ℕ → List ℕ → List ℕ
be16 n rest = n / 256 ∷ n % 256 ∷ rest

-- The fifteen bytes that the contract lays down for a location.
abbrev pub location_bytes : ℤ → ℤ → ℤ → ℕ → ℕ → ℕ → List ℕ
location_bytes lat lng altitude accuracy battery fix =
    protocol_version_v1
    ∷ location_message_type
    ∷ be32 (complement 4294967296 lat) (
        be32 (complement 4294967296 lng)
          (be16 (complement 65536 altitude) (accuracy ∷ battery ∷ fix ∷ [])))

abbrev quads : ℕ → ℕ
quads n = ((n / 16777216 * 256 + n / 65536 % 256) * 256 + n / 256 % 256) * 256 + n % 256

quads_lem : (n : ℕ) → quads n ≡ n
quads_lem n = omega arith

i32-complement :
    (z : ℤ)
    → minus_degrees 180 ≤ℤ z
    → z ≤ℤ degrees 180
    → let n = complement 4294967296 z in
      i32 (n / 16777216) (n / 65536 % 256) (n / 256 % 256) (n % 256) ≡ z
i32-complement (pos k) lo hi = ground (arith, quads_lem k)
i32-complement (negsuc k) lo hi = ground (arith, quads_lem (4294967295 - k))

i16-complement :
    (z : ℤ)
    → negsuc 32767 ≤ℤ z
    → z ≤ℤ pos 32767
    → let n = complement 65536 z in i16 (n / 256) (n % 256) ≡ z
i16-complement (pos k) lo hi = ground arith
i16-complement (negsuc k) lo hi = ground arith

-- The telemetry of the fields of a binary payload, with the label of its fix type.
abbrev pub telemetry_of : UpEvent → ℤ → ℤ → ℤ → ℕ → ℕ → ℕ → String → NormalizedTelemetry
telemetry_of event lat lng altitude accuracy battery fix fix_label = record {
  device_timestamp = to_utc_naive event.time;
  latitude = degrees_of lat;
  longitude = degrees_of lng;
  altitude = some (to_fixed altitude);
  accuracy = some (pos (accuracy_of fix accuracy * one));
  extra = record {
    battery = some (pos (battery * one));
    f_port = event.f_port;
    gateway_ids = event.gateway_ids;
    device_name = event.device_name;
    serial = event.serial;
    payload_format = "chirpstack_binary_v1";
    message_type = some location_message_type;
    gps_fix_type = some fix;
    gps_fix_label = some fix_label;
  };
}

abbrev IsInRange : ℤ → ℤ → ℤ → Type 0
IsInRange lat lng altitude =
    (minus_degrees 90 ≤ℤ lat)
    × (lat ≤ℤ degrees 90)
    × (minus_degrees 180 ≤ℤ lng)
    × (lng ≤ℤ degrees 180)
    × (negsuc 32767 ≤ℤ altitude)
    × (altitude ≤ℤ pos 32767)

validate_coordinates_in_range :
    (lat lng altitude : ℤ)
    → IsInRange lat lng altitude
    → validate_coordinates (degrees_of lat) (degrees_of lng) ≡ ok tt
validate_coordinates_in_range lat lng altitude h = ground arith

location_bytes-decode :
    (event : UpEvent) (lat lng altitude : ℤ) (accuracy battery fix : ℕ)
    → IsInRange lat lng altitude
    → decode_location_bytes event (location_bytes lat lng altitude accuracy battery fix) ≡ (
        decode_gps_fix_type fix >>= λ fix_label.
        ok (telemetry_of event lat lng altitude accuracy battery fix fix_label))
unfolding decode_location_bytes
location_bytes-decode event lat lng altitude accuracy battery fix h = rw (
  i32-complement lat (omega arith) (omega arith),
  i32-complement lng (omega arith) (omega arith),
  i16-complement altitude (omega arith) (omega arith),
  validate_coordinates_in_range lat lng altitude h,
)

complement-lt :
    (lat lng altitude : ℤ)
    → IsInRange lat lng altitude
    → (complement 4294967296 lat < 4294967296)
      × (complement 4294967296 lng < 4294967296)
      × (complement 65536 altitude < 65536)
complement-lt lat lng altitude h = ground arith

location_bytes-IsBytes :
    (lat lng altitude : ℤ) (accuracy battery fix : ℕ)
    → IsInRange lat lng altitude
    → accuracy < 256
    → battery < 256
    → fix < 256
    → IsBytes (location_bytes lat lng altitude accuracy battery fix)
location_bytes-IsBytes lat lng altitude accuracy battery fix h ha hb hf =
    omega (arith, complement-lt lat lng altitude h)

-- A location of the contract's layout, in base64, with coordinates on the globe, an altitude of
-- 16 bits and accuracy, battery and fix type of a byte each, decodes to the fields that it was
-- laid out from, two's complement included; it is refused exactly when its fix type has no
-- label.
pub decode-location_bytes :
    (event : UpEvent) (lat lng altitude : ℤ) (accuracy battery fix : ℕ)
    → IsInRange lat lng altitude
    → accuracy < 256
    → battery < 256
    → fix < 256
    → event.text ≡ some (b64encode (location_bytes lat lng altitude accuracy battery fix))
    → decode_location_payload_v1 event ≡ (
        decode_gps_fix_type fix >>= λ fix_label.
        ok (telemetry_of event lat lng altitude accuracy battery fix fix_label))
unfolding decode_location_payload_v1
decode-location_bytes event lat lng altitude accuracy battery fix h ha hb hf sent = rw sent (
    rw
      (decode_base64_data-b64encode _ _
        (location_bytes-IsBytes lat lng altitude accuracy battery fix h ha hb hf))
      (location_bytes-decode event lat lng altitude accuracy battery fix h))
