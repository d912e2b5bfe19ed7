-- ===== src/Lib.antt =====
-- The backend of TLRS, which tracks assets by devices that report over ChirpStack (LoRaWAN), checks
-- their positions against geofences, and sends commands back to the devices.
--
-- An event of ChirpStack arrives over MQTT (Wire.Topic) and is handled once (Event). An uplink holds
-- bytes in base64, which are decoded to a telemetry, a status report or an ACK (Wire.Uplink). A
-- location is stored and evaluated against the fences of the asset that the device is on
-- (Geofence); which asset that is, now and in history, is the business of Assignment. A change of
-- status creates an event of the geofence, and that creates commands for the device, each with a
-- number of its own and a downlink as bytes (Command.Create, Command.Sequence, Wire.Downlink). The
-- dispatcher hands pending commands to ChirpStack and expires old ones (Command.Dispatcher) over the
-- transport (Command.Transport), which calls ChirpStack's API (Api). The network reports of a
-- downlink by two events (Event.Network), and an ACK from the device closes a command (Command.Ack).
-- Event.Lifecycle has the steps of a command over all of these writers, and the specification of
-- its life. A location that was stored is published to the sockets of its client (Realtime).
-- Analytics reads stored times of observation.
--
-- The files, and what they model:
--   Prelude           shared names, Boolean tests, lists, integers, and results for exceptions
--   Model             src/models/device.py, src/models/device_command.py,
--                     src/schemas/device_command_ack.py; tables as lists of rows, queries as
--                     selections (Query, Table, Keys, Update), text (Text) and division (Division)
--   Wire.Contract     src/integrations/chirpstack/binary_contract.py
--   Wire.Bytes        the formats of `struct` that the contract uses
--   Wire.Base64       base64 as src/integrations/chirpstack/downlink_client.py writes it and
--                     src/integrations/chirpstack/payload_codec.py reads it
--   Wire.Downlink     src/integrations/chirpstack/downlink_encoder.py
--   Wire.Uplink       src/integrations/chirpstack/payload_codec.py and decoder.py beside it
--   Wire.Topic        src/integrations/chirpstack/mqtt_topics.py
--   Api               src/integrations/chirpstack/api_client.py: the errors (Errors), the
--                     operations on devices and keys (Device), the queue of downlinks
--   Command.Sequence  src/service/device_command_sequence_service.py
--   Command.Create    src/service/device_command_service.py
--   Command.Ack       src/service/device_command_ack_service.py
--   Command.Dispatcher  command_dispatcher_worker/main.py: `process_once`, `_enqueue_command`
--   Command.Transport src/infrastructure/downlink/transports.py
--   Event.Tables      src/models/chirpstack_event.py, and src/integrations/chirpstack/schemas.py
--   Event.Guard, Event.Network, Event.Uplink, Event.Service
--                     src/integrations/chirpstack/service.py: `ChirpStackEventService`
--   Event.Location    src/service/location_ingestion_service.py, src/schemas/realtime_location.py
--   Geofence          src/service/geofence_evaluation_service.py: `evaluate_location`
--   Geofence.Membership  src/service/geofence_membership_service.py
--   Assignment        src/service/device_assignment_service.py: `assign_asset`, `release_asset`
--   Analytics         src/application/analytics: temporal_continuity.py (Continuity),
--                     observed_time.py (Observed), temporal_bucketing.py (Bucketing),
--                     temporal_sampling.py (Sampling)
--   Realtime          src/realtime/connection_manager.py, src/realtime/locations_suscriber.py
--   Tests             the theorems at concrete inputs
-- The other files hold proofs about the file that they are under.
--
-- Conventions. A function that may raise returns a Result, and an error stands for the rollback: the
-- caller keeps the tables that it had. A function that writes takes the tables and returns them. A
-- row lock or an advisory lock makes what it guards one step. Times are microseconds. Floats of the
-- uplinks are integers in units of 10 ^ -7, and a coordinate may be NaN; lengths of the geofences are
-- natural numbers of a fine unit; the rounding of floats is left out. The constraints of the table of
-- assignments are tests at the commit. The clock, new uuids, what pydantic reads from the JSON of an
-- event, the outcomes of calls over gRPC and the exceptions that escape them, the texts of
-- exceptions, row locks of other transactions and what PostGIS computes are arguments.
--
-- The loops run over lists, or over the number of rounds that the source writes in its `range`. One
-- loop takes fuel, the distribution of a span over buckets (Analytics.Bucketing): as many rounds as
-- the span has microseconds in the window. Each round moves the start of the rest by at least one,
-- so that this is enough (`distribute-IsDistributed`).
--
-- Not modelled: the administration of groups and geofences, the handshake of realtime sockets, users
-- and roles, provisioning, HTTP routers, pydantic's validation, migrations and settings.
pub mod Prelude
pub mod Model
pub mod Wire
pub mod Api
pub mod Command
pub mod Geofence
pub mod Assignment
pub mod Event
pub mod Analytics
pub mod Realtime
pub mod Tests
