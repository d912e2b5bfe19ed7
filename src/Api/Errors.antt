-- ===== src/Api/Errors.antt =====
-- src/integrations/chirpstack/api_client.py: its exceptions, and what becomes of a call that fails.
use tlrs.Prelude.{Bool, true, false, Result, ok, err}

-- `grpc.StatusCode`
pub data StatusCode : Type 0 where
  ok_status cancelled unknown invalid_argument deadline_exceeded not_found already_exists :
      StatusCode
  permission_denied unauthenticated resource_exhausted failed_precondition aborted : StatusCode
  out_of_range unimplemented internal unavailable data_loss : StatusCode

-- What a call of the stub gives: a response, one of gRPC's two exceptions, or another one; or an
-- exception outside of the `try`, as when the channel is built or closed.
pub data Outcome (A : Type 0) : Type 0 where
  response : A → Outcome A
  future_timeout other_exception escaped : Outcome A
  rpc_error : StatusCode → Outcome A

-- The messages of `ChirpStackApiConfigurationError`
pub data Configuration : Type 0 where
  missing_dependencies host_required port_required token_required invalid_eui : Configuration
  invalid_f_port empty_data text_required invalid_app_key : Configuration

-- `ChirpStackApiError`, with its subclasses. `request_error` carries whether it is retryable.
-- `uncaught` is any other exception, but for TypeError and ValueError.
pub data ApiError : Type 0 where
  configuration : Configuration → ApiError
  authentication_error permission_denied_error timeout_error connection_error : ApiError
  not_found_error already_exists_error validation_error : ApiError
  request_error : Bool → ApiError
  uncaught : ApiError

-- The attribute `retryable`
abbrev pub retryable : ApiError → Bool
retryable timeout_error = true
retryable connection_error = true
retryable (request_error b) = b
retryable _ = false

-- `_map_rpc_error`
abbrev map_rpc_error : StatusCode → ApiError
map_rpc_error unauthenticated = authentication_error
map_rpc_error permission_denied = permission_denied_error
map_rpc_error not_found = not_found_error
map_rpc_error already_exists = already_exists_error
map_rpc_error invalid_argument = validation_error
map_rpc_error deadline_exceeded = timeout_error
map_rpc_error unavailable = connection_error
map_rpc_error cancelled = connection_error
map_rpc_error resource_exhausted = connection_error
map_rpc_error internal = connection_error
map_rpc_error unknown = connection_error
map_rpc_error aborted = connection_error
map_rpc_error _ = request_error false

-- `_call_device_service`
abbrev pub call_device_service : {A : Type 0} → Outcome A → Result ApiError A
call_device_service (response a) = ok a
call_device_service future_timeout = err timeout_error
call_device_service (rpc_error code) = err (map_rpc_error code)
call_device_service other_exception = err connection_error
call_device_service escaped = err uncaught
