-- ===== src/Event/Location.antt =====
-- src/service/location_ingestion_service.py: a telemetry becomes a location, which is evaluated; and
-- what the event service publishes of it.
use tlrs.Prelude.{
  ℕ, ◌+◌, Bool, ◌&&◌, not, Option, none, some, List, [], ◌∷◌, ◌++◌, ◌==◌, select, Result, ok, ◌>>=◌,
  or_else,
}
use tlrs.Prelude.Int.{pos_part}
use tlrs.Model.Query.{scalar_one_or_none}
use tlrs.Model.Table.{save}
use tlrs.Model.Device.{Device, DeviceState}
use tlrs.Command.Create.{wrap}
use tlrs.Wire.Uplink.{Fixed}
use tlrs.Wire.Uplink.Location.{NormalizedTelemetry}
use tlrs.Geofence.Tables
use tlrs.Geofence.Evaluation.{evaluate_location}
use tlrs.Assignment.{Asset}
use tlrs.Event.Tables.{
  EventError, multiple_results, evaluation, Location, RealtimeLocationData, EventStore,
  EventContext,
}

abbrev pub device_key : Device → ℕ
device_key d = d.id_device

abbrev pub save_device : Device → EventStore → EventStore
save_device d db = record db { devices = save device_key d db.devices }

-- An accuracy as a length, in units of 10 ^ -7 metres. One below zero counts as zero: no threshold
-- above zero tells them apart.
abbrev length_of : Option Fixed → Option ℕ
length_of none = none
length_of (some x) = some (pos_part x)

-- What the evaluation reads of a location
abbrev pub evaluated : Location → Tables.Location
evaluated l = record { id_location = l.id_location; accuracy = length_of l.accuracy }

abbrev pub new_location : Device → NormalizedTelemetry → ℕ → ℕ → Location
new_location device t received_at id = record {
  id_location = id;
  device_id = device.id_device;
  latitude = t.latitude;
  longitude = t.longitude;
  altitude = t.altitude;
  accuracy = t.accuracy;
  device_timestamp = t.device_timestamp;
  received_at = received_at;
}

-- `device.state = DeviceState.ON; device.last_seen_at = now`
abbrev pub seen_at : ℕ → Device → Device
seen_at now d = record d { state = DeviceState.on; last_seen_at = some now }

-- `persist_location`; the queries of `evaluate_location` find the rows that were just flushed
unfoldable pub persist_location :
    EventContext
    → Device
    → NormalizedTelemetry
    → ℕ
    → EventStore
    → Result EventError (Location × EventStore)
unfolding evaluate_location
persist_location ctx device t received_at db = do
  let location = new_location device t received_at db.next_location_id
  let seen = seen_at received_at device
  let spatial = λ (asset : ℕ) (_ : Tables.Location). ctx.spatial location asset
  evaluated ←
      wrap evaluation (
        evaluate_location ctx.evaluator spatial (some seen) (some (evaluated location)) db.geofence)
  ok (
    location,
    record (save_device seen db) {
      locations = db.locations ++ (location ∷ []);
      next_location_id = db.next_location_id + 1;
      geofence = evaluated.1;
    },
  )

abbrev by_asset : ℕ → Asset → Bool
by_asset id a = (a.id_asset == id) && not a.deleted

abbrev client_of : Option Asset → Option ℕ
client_of none = none
client_of (some a) = some a.client_id

-- `_resolve_device_client_id` for a device without a client
abbrev client_of_asset : Option ℕ → List Asset → Result EventError (Option ℕ)
client_of_asset none assets = ok none
client_of_asset (some id) assets =
    scalar_one_or_none multiple_results (select (by_asset id) assets) >>= λ a. ok (client_of a)

-- `_resolve_device_client_id`
unfoldable resolve_device_client_id : Device → List Asset → Result EventError (Option ℕ)
unfolding scalar_one_or_none
resolve_device_client_id device assets = elim device.client_id [
  | some client ↦ ok (some client)
  | none ↦ client_of_asset device.asset_id assets
]

-- `_build_realtime_location_data`, on the client
abbrev realtime_data : Device → Location → Option ℕ → Option RealtimeLocationData
realtime_data device l none = none
realtime_data device l (some client) = some (record {
  location_id = l.id_location;
  client_id = client;
  device_id = device.id_device;
  device_serial = device.serial;
  latitude = l.latitude;
  longitude = l.longitude;
  altitude = l.altitude;
  accuracy = l.accuracy;
  recorded_at = or_else l.device_timestamp l.received_at;
})

-- `_build_realtime_location_data`
unfoldable pub build_realtime_location_data :
    Device → Location → List Asset → Result EventError (Option RealtimeLocationData)
unfolding resolve_device_client_id
build_realtime_location_data device l assets = do
  client ← resolve_device_client_id device assets
  ok (realtime_data device l client)
