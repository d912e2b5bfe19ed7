-- ===== src/Command/Transport.antt =====
-- src/infrastructure/downlink/transports.py: a command becomes a call of ChirpStack's API.
pub mod Retries
pub mod Delivers
pub mod Total
use Prim.Native.String
use tlrs.Prelude.{
  ℕ, Bool, true, false, not, Option, none, some, List, String, Result, ok, err, ◌>>=◌, ◌>>◌,
  raise_if,
}
use tlrs.Model.Text.{codes}
use tlrs.Model.Command.{DeviceCommand}
use tlrs.Wire.Base64.{b64decode}
use tlrs.Wire.Topic.{is_chirpstack_downlink_topic}
use tlrs.Api.Errors.{ApiError, uncaught, retryable}
use tlrs.Api.{ChirpStackApiClient, enqueue_downlink}
use tlrs.Command.Create.{wrap}
use tlrs.Command.Dispatcher.{DownlinkEnqueueResult}

-- What ends the `try` of `enqueue`: an exception of the client, or a ValueError with its text.
pub data TransportError : Type 0 where
  api : ApiError → TransportError
  invalid : String → TransportError

-- `_validate_payload`; a stored payload is an object that has the three fields
unfoldable pub validate_payload : DeviceCommand → Result TransportError (Unit {0})
unfolding is_chirpstack_downlink_topic
validate_payload c =
    raise_if (not (is_chirpstack_downlink_topic (codes c.topic)))
      (invalid (String.◌++◌ "Unsupported ChirpStack downlink topic: " c.topic))

-- `_decode_data`
unfoldable pub decode_data : List ℕ → Result TransportError (List ℕ)
unfolding b64decode
decode_data text = b64decode (invalid "data must be valid base64") text

-- The `try` of `enqueue`
unfoldable pub try_enqueue : ChirpStackApiClient → DeviceCommand → Result TransportError String
unfolding validate_payload decode_data enqueue_downlink
try_enqueue client c = do
  validate_payload c
  bytes ← decode_data c.payload.text
  wrap api (
      enqueue_downlink client (codes c.payload.dev_eui) c.payload.f_port bytes c.payload.confirmed
        c.expires_at)

abbrev pub refused : Option String → Bool → DownlinkEnqueueResult
refused text again = record {
  sent = false;
  queue_item_id = none;
  error_message = text;
  retryable = again;
}

-- What `enqueue` makes of an API error; another exception leaves it, without a result.
abbrev pub api_result : (ApiError → String) → ApiError → Option DownlinkEnqueueResult
api_result describe uncaught = none
api_result describe e = some (refused (some (describe e)) (retryable e))

-- The result that `enqueue` returns; `describe` gives the text of an API error.
abbrev pub enqueue_result :
    (ApiError → String) → Result TransportError String → Option DownlinkEnqueueResult
enqueue_result describe (ok id) =
    some (record { sent = true; queue_item_id = some id; error_message = none; retryable = false })
enqueue_result describe (err (api e)) = api_result describe e
enqueue_result describe (err (invalid text)) =
    some (refused (some (String.◌++◌ "Invalid ChirpStack downlink payload: " text)) false)

-- `ChirpStackGrpcDownlinkTransport.enqueue`; `none` is an exception that leaves it.
unfoldable pub enqueue :
    (ApiError → String) → ChirpStackApiClient → DeviceCommand → Option DownlinkEnqueueResult
unfolding try_enqueue
enqueue describe client c = enqueue_result describe (try_enqueue client c)
