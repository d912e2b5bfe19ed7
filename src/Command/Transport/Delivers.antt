-- ===== src/Command/Transport/Delivers.antt =====
-- What the transport sends of a command that was created.
use tlrs.Prelude.{
  ℕ, ◌≡◌, ◌≢◌, refl, sym, ap, ◌∙◌, Bool, true, false, Option, some, List, [], ◌∷◌, or_else, String,
  Result, ok, >>=-eq-ok, ok-injective, arith,
}
use tlrs.Model.Text.{codes, is_empty, strip}
use tlrs.Model.Device.{Device}
use tlrs.Model.Command.{DeviceCommand, DeviceCommandType, DownlinkPayload}
use tlrs.Wire.Contract.{command_fport}
use tlrs.Wire.Bytes.{IsBytes}
use tlrs.Wire.Base64.{b64decode}
use tlrs.Wire.Base64.RoundTrip.{b64decode-b64encode}
use tlrs.Wire.Downlink.{
  PayloadFields, DecodedChirpStackCommandDownlink, EncodedChirpStackDownlink,
  encode_command_downlink, decode_command_downlink_payload_v1, no_payload_fields,
}
use tlrs.Wire.Downlink.RoundTrip.{intended, decode-encode, encode_parts}
use tlrs.Wire.Downlink.Total.{encode-IsBytes}
use tlrs.Wire.Topic.{normalize_eui, is_chirpstack_downlink_topic}
use tlrs.Wire.Topic.Built.{IsSegment, is_downlink-build_topic}
use tlrs.Command.Sequence.{CommandStore}
use tlrs.Command.Create.{
  Context, encoding, wrap, build_topic, build_payload, resolve_encoded, create_pending_command,
}
use tlrs.Command.Create.Keeps.{create_parts, wrap-eq-ok}
use tlrs.Command.Dispatcher.{DownlinkEnqueueResult}
use tlrs.Api.Errors.{ApiError}
use tlrs.Api.{
  QueueItem, ChirpStackApiClient, validate_configuration, is_hex_of_length, valid_eui,
  finish_enqueue, enqueue_downlink,
}
use tlrs.Command.Transport.{
  TransportError, api, validate_payload, decode_data, try_enqueue, enqueue_result, enqueue,
}

-- The device of a command can be addressed: its ids are segments of a topic and not blank, and its
-- EUI has sixteen hexadecimal digits.
pub record IsAddressable (device : Device) : Type 0 where
  pub application_segment : IsSegment (codes (or_else device.chirpstack_application_id ""))
  pub eui_segment : IsSegment (codes (or_else device.chirpstack_dev_eui ""))
  pub application_given :
      is_empty (strip (codes (or_else device.chirpstack_application_id ""))) ≡ false
  pub eui_hex :
      is_hex_of_length 16 (normalize_eui (codes (or_else device.chirpstack_dev_eui ""))) ≡ true

-- The client is configured.
pub record IsConfigured (client : ChirpStackApiClient) : Type 0 where
  pub dependencies : client.has_dependencies ≡ true
  pub host : is_empty client.host ≡ false
  pub port : client.port ≢ 0
  pub token : is_empty client.token ≡ false

decoded_is_full :
    (bytes : List ℕ) {d : DecodedChirpStackCommandDownlink}
    → decode_command_downlink_payload_v1 bytes ≡ ok d
    → is_empty bytes ≡ false
decoded_is_full [] h = unfold decode_command_downlink_payload_v1 in (cc h)
decoded_is_full (b ∷ bytes) h = refl

-- What the parts of a downlink are.
encode_sends :
    (uuid : String) (n : ℕ) (kind : DeviceCommandType) (fields : Option PayloadFields)
    {e : EncodedChirpStackDownlink}
    → encode_command_downlink uuid n kind fields ≡ ok e
    → (e.f_port ≡ command_fport) × (e.confirmed ≡ true) × (is_empty e.bytes ≡ false)
encode_sends uuid n kind fields {e} h =
    let (flags, bytes, lo, hi, eflags, ebytes, made) = encode_parts uuid n kind fields h in
    let (d, _, decoded) = decode-encode uuid n kind fields h in
    (
      ap (λ (x : EncodedChirpStackDownlink). x.f_port) (sym made),
      ap (λ (x : EncodedChirpStackDownlink). x.confirmed) (sym made),
      decoded_is_full e.bytes decoded,
    )

resolve_parts :
    (device : Device) (uuid : String) (n : ℕ) (kind : DeviceCommandType)
    (fields : Option PayloadFields) {t : String × DownlinkPayload}
    → resolve_encoded device uuid (some n) kind fields ≡ ok t
    → (e : EncodedChirpStackDownlink) × (encode_command_downlink uuid n kind fields ≡ ok e)
      × (t ≡ (
        build_topic
            (or_else device.chirpstack_application_id "")
            (or_else device.chirpstack_dev_eui ""),
        build_payload (or_else device.chirpstack_dev_eui "") e,
      ))
unfolding resolve_encoded
resolve_parts device uuid n kind fields h =
    let (e, he, h₁) = >>=-eq-ok (wrap encoding (encode_command_downlink uuid n kind fields)) _ h in
    (e, wrap-eq-ok encoding (encode_command_downlink uuid n kind fields) he, sym (ok-injective h₁))

-- A call with valid arguments is made.
enqueue_downlink_calls :
    (client : ChirpStackApiClient) (dev_eui bytes : List ℕ) (f_port : ℕ) (confirmed : Bool)
    (expires_at : Option ℕ)
    → IsConfigured client
    → is_hex_of_length 16 (normalize_eui dev_eui) ≡ true
    → f_port ≢ 0
    → is_empty bytes ≡ false
    → enqueue_downlink client dev_eui f_port bytes confirmed expires_at
      ≡ finish_enqueue (
          client.enqueue (record {
            dev_eui = normalize_eui dev_eui;
            confirmed = confirmed;
            f_port = f_port;
            bytes = bytes;
            expires_at = expires_at;
          }))
unfolding enqueue_downlink validate_configuration valid_eui
enqueue_downlink_calls client dev_eui bytes f_port confirmed expires_at k hex port full =
    ground (arith, k.dependencies, k.host, k.port, k.token, hex, port, full)

-- The result of a call, in the words of the dispatcher.
abbrev pub result_of : (ApiError → String) → Result ApiError String → Option DownlinkEnqueueResult
result_of describe m = enqueue_result describe (wrap api m)

-- A valid EUI is not blank.
hex_is_full : (s : List ℕ) → is_hex_of_length 16 s ≡ true → is_empty s ≡ false
hex_is_full [] h = ground arith
hex_is_full (c ∷ s) h = refl

-- The item of a command: its expiry, on the normalised EUI of its device.
abbrev pub item_for : Device → List ℕ → DeviceCommand → QueueItem
item_for device bytes c = record {
  dev_eui = normalize_eui (codes (or_else device.chirpstack_dev_eui ""));
  confirmed = true;
  f_port = command_fport;
  bytes = bytes;
  expires_at = c.expires_at;
}

try_made :
    (client : ChirpStackApiClient) (device : Device) (e : EncodedChirpStackDownlink)
    (c : DeviceCommand)
    → IsAddressable device
    → IsConfigured client
    → c.topic
      ≡ build_topic
          (or_else device.chirpstack_application_id "")
          (or_else device.chirpstack_dev_eui "")
    → c.payload ≡ build_payload (or_else device.chirpstack_dev_eui "") e
    → (e.f_port ≡ command_fport) × (e.confirmed ≡ true) × (is_empty e.bytes ≡ false)
    → IsBytes e.bytes
    → try_enqueue client c ≡ wrap api (finish_enqueue (client.enqueue (item_for device e.bytes c)))
unfolding try_enqueue validate_payload decode_data build_payload
try_made client device e c address configured topic payload (port, confirmed, full) octets =
    let eui = or_else device.chirpstack_dev_eui "" in
    let app = or_else device.chirpstack_application_id "" in
    let valid : is_chirpstack_downlink_topic (codes c.topic) ≡ true =
      ap (λ t. is_chirpstack_downlink_topic (codes t)) topic
      ∙ is_downlink-build_topic app eui address.application_segment address.eui_segment
          address.application_given (hex_is_full (normalize_eui (codes eui)) address.eui_hex) in
    let own = TransportError.invalid "data must be valid base64" in
    let decoded : b64decode own c.payload.text ≡ ok e.bytes =
      ap (λ (p : DownlinkPayload). b64decode own p.text) payload
      ∙ b64decode-b64encode own e.bytes octets in
    let call = λ (dev_eui : String) (f_port : ℕ) (sure : Bool).
      wrap api (enqueue_downlink client (codes dev_eui) f_port e.bytes sure c.expires_at) in
    let first : try_enqueue client c ≡ call c.payload.dev_eui c.payload.f_port c.payload.confirmed =
      rw (valid, decoded) refl in
    first
    ∙ ap (λ (p : DownlinkPayload). call p.dev_eui p.f_port p.confirmed) payload
    ∙ ap (λ p. call eui p e.confirmed) port
    ∙ ap (λ b. call eui command_fport b) confirmed
    ∙ ap (wrap api) (
        enqueue_downlink_calls client (codes eui) e.bytes command_fport true c.expires_at configured
          address.eui_hex (omega arith) full)

-- For a device that can be addressed and a client that is configured, the transport hands a command
-- that was created to ChirpStack: it enqueues, on the device's normalised EUI, the port of
-- commands and the command's expiry, confirmed, bytes that decode to the command asked for; and
-- it returns what the call gives.
pub enqueue_delivers :
    (describe : ApiError → String) (client : ChirpStackApiClient) (ctx : Context) (id : ℕ)
    (device : Device) (kind : DeviceCommandType) (asset event expires : Option ℕ)
    (fields : Option PayloadFields) (db : CommandStore) {c : DeviceCommand} {db' : CommandStore}
    → IsAddressable device
    → IsConfigured client
    → create_pending_command ctx id device kind asset event expires fields db ≡ ok (c, db')
    → (n : ℕ) × (bytes : List ℕ) × (d : DecodedChirpStackCommandDownlink) × (c.command_seq ≡ some n)
      × (intended n kind (or_else fields no_payload_fields) ≡ ok d)
      × (decode_command_downlink_payload_v1 bytes ≡ ok d)
      × (enqueue describe client c
          ≡ result_of describe (finish_enqueue (client.enqueue (item_for device bytes c))))
unfolding enqueue
enqueue_delivers describe client ctx id device kind asset event expires fields db {c = c} address
      configured h =
    let (n, t, _, resolved, made, _) =
      create_parts ctx id device kind asset event expires fields db h in
    let (e, encoded, parts) = resolve_parts device (ctx.new_uuid id) n kind fields resolved in
    let (d, asked, decoded) = decode-encode (ctx.new_uuid id) n kind fields encoded in
    (
      n,
      e.bytes,
      d,
      ap (λ (x : DeviceCommand). x.command_seq) made,
      asked,
      decoded,
      ap (enqueue_result describe) (
          try_made client device e c address configured
            (ap (λ (x : DeviceCommand). x.topic) made
              ∙ ap (λ (v : String × DownlinkPayload). v.0) parts)
            (ap (λ (x : DeviceCommand). x.payload) made
              ∙ ap (λ (v : String × DownlinkPayload). v.1) parts)
            (encode_sends (ctx.new_uuid id) n kind fields encoded)
            (encode-IsBytes (ctx.new_uuid id) n kind fields encoded)),
    )
