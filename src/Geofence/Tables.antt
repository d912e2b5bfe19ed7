-- ===== src/Geofence/Tables.antt =====
-- src/models/geofence.py: the states and events of the geofences; and what an evaluation of
-- src/service/geofence_evaluation_service.py takes and gives.
use tlrs.Prelude.{ℕ, Bool, Option, List}
use tlrs.Command.Sequence.{CommandStore}
use tlrs.Command.Create.{CreateError, Context, FenceEventType}
use tlrs.Geofence.Status.{GeoFenceStatus, Thresholds}

pub record GeoFenceAssetState : Type 0 where
  pub id_state : ℕ
  pub fence_id : ℕ
  pub asset_id : ℕ
  pub device_id : ℕ
  pub current_status : GeoFenceStatus
  pub last_location_id : ℕ
  pub last_distance_to_boundary_meters : Option ℕ
  pub last_accuracy : Option ℕ
  pub first_detected_at : ℕ
  pub last_evaluated_at : ℕ
  pub created_at : ℕ
  pub updated_at : ℕ

pub record GeoFenceEvent : Type 0 where
  pub id_event : ℕ
  pub fence_id : ℕ
  pub device_id : ℕ
  pub asset_id : ℕ
  pub location_id : ℕ
  pub event_type : FenceEventType
  pub distance_to_boundary_meters : Option ℕ
  pub accuracy : Option ℕ

-- A location, as far as it is read here.
pub record Location : Type 0 where
  pub id_location : ℕ
  pub accuracy : Option ℕ

-- A row of `_get_assigned_geofence_spatial_results`
pub record SpatialResult : Type 0 where
  pub fence_id : ℕ
  pub inside : Bool
  pub distance_to_boundary_meters : Option ℕ

pub record GeofenceEvaluationResult : Type 0 where
  pub fence_id : ℕ
  pub level : GeoFenceStatus
  pub distance_to_boundary_meters : Option ℕ
  pub accuracy : Option ℕ
  pub event_created : Bool

-- The tables that an evaluation writes, with the next number of each one's sequence of keys.
pub record GeofenceStore : Type 0 where
  pub states : List GeoFenceAssetState
  pub next_state_id : ℕ
  pub events : List GeoFenceEvent
  pub next_event_id : ℕ
  pub commands : CommandStore
  pub next_command_id : ℕ

-- What an evaluation takes from outside; the clocks are read for each fence anew.
pub record Evaluator : Type 0 where
  pub limits : Thresholds
  pub insert_now : ℕ → ℕ
  pub update_now : ℕ → ℕ
  pub commands : Context

-- `no_result` and `multiple_results` come from `scalar_one`, the others from the commands.
pub data EvaluationError : Type 0 where
  no_result multiple_results : EvaluationError
  creation : CreateError → EvaluationError
