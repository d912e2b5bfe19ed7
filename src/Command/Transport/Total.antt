-- ===== src/Command/Transport/Total.antt =====
-- A cycle of the dispatcher over the transport, and the exceptions that leave it.
use tlrs.Prelude.{ℕ, ◌≡◌, String}
use tlrs.Model.Command.{DeviceCommand}
use tlrs.Command.Dispatcher.{Environment}
use tlrs.Command.Transport.{enqueue}
use tlrs.Api.Errors.{ApiError}
use tlrs.Api.{ChirpStackApiClient}

-- The transport of a cycle is the one over a client, whatever that client answers each time.
abbrev IsOver : (ApiError → String) → (ℕ → ChirpStackApiClient) → Environment → Type 0
IsOver describe client env =
    (k : ℕ) (c : DeviceCommand) → env.transport k c ≡ enqueue describe (client k) c
