-- ===== src/Geofence/Evaluation.antt =====
-- src/service/geofence_evaluation_service.py: the evaluation of a location against the fences of
-- the asset that the device is on (the tables are in src/models/geofence.py). The rows to
-- evaluate come from Geofence.Membership.
pub mod State
pub mod Effect
pub mod Settle
pub mod Again
pub mod Created
use tlrs.Prelude.{
  ℕ, ◌+◌, Bool, true, false, ◌&&◌, Option, none, some, List, [], ◌∷◌, ◌++◌, ◌==◌, select, length,
  Result, ok, err, ◌>>=◌, is_some,
}
use tlrs.Model.Device.{Device}
use tlrs.Model.Table.{save}
use tlrs.Model.Query.{scalar_one_or_none}
use tlrs.Model.Command.{DeviceCommand}
use tlrs.Command.Sequence.{CommandStore}
use tlrs.Command.Create.{
  CreateError, Context, wrap, FenceEventType, create_commands_for_geofence_event,
}
use tlrs.Geofence.Status.{GeoFenceStatus, Thresholds, resolve_status, resolve_event_type}
use tlrs.Geofence.Tables.{
  GeoFenceAssetState, GeoFenceEvent, Location, SpatialResult, GeofenceEvaluationResult,
  GeofenceStore, Evaluator, EvaluationError, no_result, multiple_results, creation,
}

abbrev pub by_fence_and_asset : ℕ → ℕ → GeoFenceAssetState → Bool
by_fence_and_asset fence asset s = (s.fence_id == fence) && (s.asset_id == asset)

abbrev pub id_of : GeoFenceAssetState → ℕ
id_of s = s.id_state

-- `scalar_one`
unfoldable pub scalar_one : List GeoFenceAssetState → Result EvaluationError GeoFenceAssetState
scalar_one [] = err no_result
scalar_one (s ∷ []) = ok s
scalar_one (s ∷ s' ∷ states) = err multiple_results

-- The INSERT … ON CONFLICT DO NOTHING … RETURNING: whether it inserted, and the table
unfoldable pub insert_state :
    GeoFenceAssetState → List GeoFenceAssetState → Bool × List GeoFenceAssetState
insert_state new states = elim (select (by_fence_and_asset new.fence_id new.asset_id) states) [
  | [] ↦ (true, states ++ (new ∷ []))
  | s ∷ found ↦ (false, states)
]

-- The end of `_get_or_create_asset_state`
abbrev previous_status : Bool → GeoFenceAssetState → Option GeoFenceStatus
previous_status true s = none
previous_status false s = some s.current_status

-- `_get_or_create_asset_state`: the state, the status before, and the table
unfoldable pub get_or_create_asset_state :
    GeoFenceAssetState
    → List GeoFenceAssetState
    → Result EvaluationError (GeoFenceAssetState × Option GeoFenceStatus × List GeoFenceAssetState)
unfolding insert_state scalar_one
get_or_create_asset_state new states =
    let inserted = insert_state new states in
    scalar_one (select (by_fence_and_asset new.fence_id new.asset_id) inserted.1) >>= λ s.
    ok (s, previous_status inserted.0 s, inserted.1)

-- `_create_event`
abbrev pub new_event : Device → ℕ → Location → SpatialResult → FenceEventType → ℕ → GeoFenceEvent
new_event device asset location row kind id = record {
  id_event = id;
  fence_id = row.fence_id;
  device_id = device.id_device;
  asset_id = asset;
  location_id = location.id_location;
  event_type = kind;
  distance_to_boundary_meters = row.distance_to_boundary_meters;
  accuracy = location.accuracy;
}

-- `flush`: the pending commands are written.
abbrev pub flush : CommandStore → CommandStore
flush db = record { rows = db.rows ++ db.pending; pending = [] }

-- The flush, and `create_commands_for_geofence_event`
abbrev pub event_commands :
    Evaluator
    → Device
    → ℕ
    → FenceEventType
    → GeofenceStore
    → Result EvaluationError (List DeviceCommand × CommandStore)
event_commands env device asset kind store = wrap creation (
    create_commands_for_geofence_event env.commands store.next_command_id store.next_event_id kind
      (some asset) device (flush store.commands))

-- What `evaluate_location` does if there is an event: the event, a flush, and its commands
unfoldable pub create_event :
    Evaluator
    → Device
    → ℕ
    → Location
    → SpatialResult
    → Option FenceEventType
    → GeofenceStore
    → Result EvaluationError GeofenceStore
create_event env device asset location row none store = ok store
create_event env device asset location row (some kind) store = do
  let event = new_event device asset location row kind store.next_event_id
  made ← event_commands env device asset kind store
  ok (record store {
    events = store.events ++ (event ∷ []);
    next_event_id = store.next_event_id + 1;
    commands = made.1;
    next_command_id = store.next_command_id + length made.0;
  })

-- The state that the INSERT proposes
abbrev pub new_state :
    Evaluator → Device → ℕ → Location → SpatialResult → GeoFenceStatus → ℕ → GeoFenceAssetState
new_state env device asset location row status id = record {
  id_state = id;
  fence_id = row.fence_id;
  asset_id = asset;
  device_id = device.id_device;
  current_status = status;
  last_location_id = location.id_location;
  last_distance_to_boundary_meters = row.distance_to_boundary_meters;
  last_accuracy = location.accuracy;
  first_detected_at = env.insert_now row.fence_id;
  last_evaluated_at = env.insert_now row.fence_id;
  created_at = env.insert_now row.fence_id;
  updated_at = env.insert_now row.fence_id;
}

-- `_update_asset_state`
abbrev pub update_asset_state :
    Evaluator
    → Device
    → Location
    → SpatialResult
    → GeoFenceStatus
    → GeoFenceAssetState
    → GeoFenceAssetState
update_asset_state env device location row status s = record s {
  current_status = status;
  device_id = device.id_device;
  last_location_id = location.id_location;
  last_distance_to_boundary_meters = row.distance_to_boundary_meters;
  last_accuracy = location.accuracy;
  last_evaluated_at = env.update_now row.fence_id;
  updated_at = env.update_now row.fence_id;
}

abbrev pub status_of : Evaluator → Location → SpatialResult → GeoFenceStatus
status_of env location row =
    resolve_status env.limits row.inside row.distance_to_boundary_meters location.accuracy

-- The store with the state updated, which leaves the commit to write it
abbrev pub save_state :
    Evaluator
    → Device
    → Location
    → SpatialResult
    → GeoFenceAssetState
    → List GeoFenceAssetState
    → GeofenceStore
    → GeofenceStore
save_state env device location row s states store = record store {
  states =
      save id_of (update_asset_state env device location row (status_of env location row) s) states;
  next_state_id = store.next_state_id + 1;
}

abbrev pub result_of :
    Evaluator → Location → SpatialResult → Option FenceEventType → GeofenceEvaluationResult
result_of env location row event_type = record {
  fence_id = row.fence_id;
  level = status_of env location row;
  distance_to_boundary_meters = row.distance_to_boundary_meters;
  accuracy = location.accuracy;
  event_created = is_some event_type;
}

-- The body of the loop of `evaluate_location`, behind `_get_or_create_asset_state`
unfoldable pub finish_row :
    Evaluator
    → Device
    → ℕ
    → Location
    → SpatialResult
    → GeofenceStore
    → GeoFenceAssetState × Option GeoFenceStatus × List GeoFenceAssetState
    → Result EvaluationError (GeofenceEvaluationResult × GeofenceStore)
unfolding create_event
finish_row env device asset location row store (s, previous, states) =
    let event_type = resolve_event_type previous (status_of env location row) in
    create_event env device asset location row event_type
      (save_state env device location row s states store)
    >>= λ store'. ok (result_of env location row event_type, store')

-- The body of the loop of `evaluate_location`
unfoldable pub evaluate_row :
    Evaluator
    → Device
    → ℕ
    → Location
    → SpatialResult
    → GeofenceStore
    → Result EvaluationError (GeofenceEvaluationResult × GeofenceStore)
unfolding get_or_create_asset_state finish_row
evaluate_row env device asset location row store =
    get_or_create_asset_state
      (new_state env device asset location row (status_of env location row) store.next_state_id)
      store.states
    >>= finish_row env device asset location row store

-- The loop of `evaluate_location`
unfoldable pub evaluate_rows :
    Evaluator
    → Device
    → ℕ
    → Location
    → List SpatialResult
    → GeofenceStore
    → Result EvaluationError (List GeofenceEvaluationResult × GeofenceStore)
unfolding evaluate_row
evaluate_rows env device asset location [] store = ok ([], store)
evaluate_rows env device asset location (row ∷ rows) store = do
  one ← evaluate_row env device asset location row store
  rest ← evaluate_rows env device asset location rows one.1
  ok (one.0 ∷ rest.0, rest.1)

-- `evaluate_location` behind its first query, on the device's asset and what the second query found
unfoldable pub evaluate_for :
    Evaluator
    → (ℕ → Location → List SpatialResult)
    → Device
    → Option ℕ
    → Option Location
    → GeofenceStore
    → Result EvaluationError (List GeofenceEvaluationResult × GeofenceStore)
unfolding evaluate_rows
evaluate_for env spatial device none location store = ok ([], store)
evaluate_for env spatial device (some asset) none store = ok ([], store)
evaluate_for env spatial device (some asset) (some location) store =
    evaluate_rows env device asset location (spatial asset location) store

-- `evaluate_location`, on what its two queries by key found; `spatial` gives the rows of an asset's
-- fences against a location, as `get_assigned_geofence_spatial_results` of Geofence.Membership
unfoldable pub evaluate_location :
    Evaluator
    → (ℕ → Location → List SpatialResult)
    → Option Device
    → Option Location
    → GeofenceStore
    → Result EvaluationError (List GeofenceEvaluationResult × GeofenceStore)
unfolding evaluate_for
evaluate_location env spatial none location store = ok ([], store)
evaluate_location env spatial (some device) location store =
    evaluate_for env spatial device device.asset_id location store
