-- ===== src/Api.antt =====
-- src/integrations/chirpstack/api_client.py: the client of ChirpStack's gRPC service for devices.
-- Texts that it normalises are code points.
pub mod Errors
pub mod Device
pub mod Retry
pub mod Created
use tlrs.Prelude.{
  ℕ, Bool, true, false, ◌&&◌, ◌||◌, not, Option, none, some, List, [], ◌∷◌, map, length, leb, ◌==◌,
  String, Result, ok, err, ◌>>=◌, ◌>>◌, raise_if, if◌then◌else◌,
}
use text.Mathlib.Text.{◌==◌ as str_eq}
use tlrs.Model.Text.{is_empty, strip}
use tlrs.Wire.Topic.{normalize_eui}
use tlrs.Api.Errors.{
  Outcome, ApiError, configuration, request_error, host_required, port_required, token_required,
  invalid_eui, invalid_f_port, empty_data, missing_dependencies, call_device_service,
}

-- `queue_item` of the request of `Enqueue`
pub record QueueItem : Type 0 where
  pub dev_eui : List ℕ
  pub confirmed : Bool
  pub f_port : ℕ
  pub bytes : List ℕ
  pub expires_at : Option ℕ

-- `ChirpStackApiClient`: its configuration, stripped; whether its dependencies can be imported; and
-- what a call of `Enqueue` gives.
pub record ChirpStackApiClient : Type 0 where
  pub host : List ℕ
  pub port : ℕ
  pub token : List ℕ
  pub has_dependencies : Bool
  pub enqueue : QueueItem → Outcome String

-- `_load_grpc_dependencies` and `_validate_configuration`
unfoldable pub validate_configuration : ChirpStackApiClient → Result ApiError (Unit {0})
validate_configuration client = do
  raise_if (not client.has_dependencies) (configuration missing_dependencies)
  raise_if (is_empty client.host) (configuration host_required)
  raise_if (client.port == 0) (configuration port_required)
  raise_if (is_empty client.token) (configuration token_required)

-- `char in "0123456789abcdef"`
abbrev is_hex : ℕ → Bool
is_hex c = (leb 48 c && leb c 57) || (leb 97 c && leb c 102)

abbrev all_hex : List ℕ → Bool
all_hex [] = true
all_hex (c ∷ s) = is_hex c && all_hex s

abbrev pub is_hex_of_length : ℕ → List ℕ → Bool
is_hex_of_length n s = (length s == n) && all_hex s

-- `_normalize_eui`
unfoldable pub valid_eui : List ℕ → Result ApiError (List ℕ)
valid_eui value =
    let normalized = normalize_eui value in
    if is_hex_of_length 16 normalized then ok normalized else err (configuration invalid_eui)

-- `if not response.id: …`
abbrev pub queue_item_id : String → Result ApiError String
queue_item_id id = if str_eq id "" then err (request_error false) else ok id

-- What `enqueue_downlink` makes of the call
abbrev pub finish_enqueue : Outcome String → Result ApiError String
finish_enqueue outcome = call_device_service outcome >>= queue_item_id

-- `enqueue_downlink`
unfoldable pub enqueue_downlink :
    ChirpStackApiClient → List ℕ → ℕ → List ℕ → Bool → Option ℕ → Result ApiError String
unfolding validate_configuration valid_eui
enqueue_downlink client dev_eui f_port bytes confirmed expires_at = do
  validate_configuration client
  eui ← valid_eui dev_eui
  raise_if (f_port == 0) (configuration invalid_f_port)
  raise_if (is_empty bytes) (configuration empty_data)
  finish_enqueue (
      client.enqueue (record {
        dev_eui = eui;
        confirmed = confirmed;
        f_port = f_port;
        bytes = bytes;
        expires_at = expires_at;
      }))
