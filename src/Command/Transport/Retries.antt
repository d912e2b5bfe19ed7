-- ===== src/Command/Transport/Retries.antt =====
-- When the transport asks for another try.
use tlrs.Prelude.{
  Option, none, some, Bool, false, ℕ, ◌≡◌, ◌≢◌, refl, sym, ap, ◌∙◌, true, List, String, Result, ok,
  err, ◌>>=◌, arith,
}
use tlrs.Model.Text.{codes}
use tlrs.Model.Command.{DeviceCommand}
use tlrs.Wire.Base64.{b64decode}
use tlrs.Wire.Base64.Errors.{Only-err, b64decode-Only}
use tlrs.Wire.Topic.{is_chirpstack_downlink_topic}
use tlrs.Command.Create.{wrap}
use tlrs.Api.Errors.{ApiError}
use tlrs.Api.{QueueItem, ChirpStackApiClient, is_hex_of_length, enqueue_downlink}
use tlrs.Api.Retry.{is_transient, again, again-enqueue_downlink}
use tlrs.Command.Dispatcher.{DownlinkEnqueueResult}
use tlrs.Command.Transport.{
  TransportError, api, validate_payload, decode_data, enqueue_result, enqueue,
}

-- Whether there is a result that asks for another try.
abbrev pub is_retried : Option DownlinkEnqueueResult → Bool
is_retried none = false
is_retried (some r) = r.retryable

-- An error of the API is passed on as it is.
again-wrap :
    (describe : ApiError → String) (m : Result ApiError String)
    → is_retried (enqueue_result describe (wrap api m)) ≡ again m
again-wrap describe (ok id) = refl
again-wrap describe (err e) = ground arith

-- What `enqueue` does not retry: its own checks.
tried->>= :
    {A : Type 0} (describe : ApiError → String) (m : Result TransportError A)
    (k : A → Result TransportError String)
    → ((e : ApiError) → m ≢ err (api e))
    → is_retried (enqueue_result describe (m >>= k)) ≡ true
    → (a : A) × (m ≡ ok a) × (is_retried (enqueue_result describe (k a)) ≡ true)
tried->>= describe (err (api e)) k own h = absurd (own e refl)
tried->>= describe (err (TransportError.invalid text)) k own h = cc
tried->>= describe (ok a) k own h = (a, refl, h)

pub validate_payload_error : (c : DeviceCommand) (e : ApiError) → validate_payload c ≢ err (api e)
unfolding validate_payload
validate_payload_error c e = ground arith

validate_payload_topic :
    (c : DeviceCommand) {u : Unit {0}}
    → validate_payload c ≡ ok u
    → is_chirpstack_downlink_topic (codes c.topic) ≡ true
unfolding validate_payload
validate_payload_topic c h = ground arith

pub decode_data_error : (text : List ℕ) (e : ApiError) → decode_data text ≢ err (api e)
unfolding decode_data
decode_data_error text e h =
    let own = TransportError.invalid "data must be valid base64" in
    let same : api e ≡ own = Only-err (b64decode own text) own (b64decode-Only own text) h in cc

-- The transport asks for another try only when the call was made, for a command with a valid topic
-- and base64 text, on sixteen hexadecimal digits, the command's port and expiry and the decoded
-- bytes, and its outcome was transient: no answer in time, no connection, or one of the seven
-- status codes of a service that is busy or broken.
pub enqueue_retries :
    (describe : ApiError → String) (client : ChirpStackApiClient) (c : DeviceCommand)
    → is_retried (enqueue describe client c) ≡ true
    → (is_chirpstack_downlink_topic (codes c.topic) ≡ true)
      × (item : QueueItem) × (is_hex_of_length 16 item.dev_eui ≡ true)
      × (item.f_port ≡ c.payload.f_port)
      × (decode_data c.payload.text ≡ ok item.bytes)
      × (item.confirmed ≡ c.payload.confirmed)
      × (item.expires_at ≡ c.expires_at)
      × (is_transient (client.enqueue item) ≡ true)
unfolding enqueue
enqueue_retries describe client c h =
    let (_, valid, h₁) = tried->>= describe (validate_payload c) _ (validate_payload_error c) h in
    let (bytes, decoded, h₂) =
      tried->>= describe (decode_data c.payload.text) _ (decode_data_error c.payload.text) h₁ in
    let call =
      enqueue_downlink client (codes c.payload.dev_eui) c.payload.f_port bytes c.payload.confirmed
        c.expires_at in
    let (item, hex, port, same, confirmed, expiry, transient) =
      again-enqueue_downlink client (codes c.payload.dev_eui) c.payload.f_port bytes
        c.payload.confirmed c.expires_at (sym (again-wrap describe call) ∙ h₂) in
    (
      validate_payload_topic c valid,
      item,
      hex,
      port,
      decoded ∙ ap ok (sym same),
      confirmed,
      expiry,
      transient,
    )
