-- ===== src/Tests/Geofence.antt =====
-- Geofences at concrete inputs: an asset that is new to one fence and outside it, on a device
-- without downlinks.
use tlrs.Prelude.{
  ◌↔◌, Bool, Option, arith, ℕ, ◌≤◌, ◌≡◌, ◌⊎◌, refl, true, false, none, some, List, [], ◌∷◌, ◌++◌,
  ok, suc,
}
use tlrs.Model.Device.{Device, DeviceState, DeviceCommunicationProtocol}
use tlrs.Model.Table.{UniqueKeys}
use tlrs.Command.Create.{exited, create_commands_for_geofence_event}
use tlrs.Geofence.Status.{
  GeoFenceStatus, safe, near_limit, outside, gps_uncertain, resolve_status, resolve_event_type,
}
use tlrs.Geofence.Status.Runs.{
  events_of, exits, returns, repeat, returns_le_exits, return_lost_in_gap,
}
use tlrs.Geofence.Evaluation.{
  update_asset_state, new_state, new_event, evaluate_rows, evaluate_location,
}
use tlrs.Geofence.Tables.{
  Location, SpatialResult, GeofenceEvaluationResult, GeofenceStore, Evaluator,
}
use tlrs.Model.Update.{elem}
use tlrs.Geofence.Membership.{
  MembershipTables, get_effective_geofence_ids_for_asset, get_assigned_geofence_spatial_results,
}
use tlrs.Model.Query.{scalar_one_or_none}
use tlrs.Geofence.Membership.Deleted.{IsDeleted, delete_state_if_unassigned-IsDeleted}
use tlrs.Geofence.Membership.Watches.{Watches, effective_geofence_ids-Watches}
use tlrs.Geofence.Membership.Evaluated.{AreRows, spatial_results-AreRows}
use tlrs.Geofence.Membership.{delete_state_if_unassigned}
use tlrs.Geofence.Membership.Effective.{id_of_fence}
use tlrs.Geofence.Evaluation.State.{IsKeyed}
use tlrs.Geofence.Evaluation.Again.{IsQuiet, evaluate_again-IsQuiet}
use tlrs.Geofence.Evaluation.Settle.{RowsDone, fence_of, evaluate_rows-RowsDone}

abbrev out_and_back : List GeoFenceStatus
out_and_back = near_limit ∷ outside ∷ safe ∷ outside ∷ gps_uncertain ∷ outside ∷ []

returns_le_exits_example :
    returns (events_of none out_and_back) ≤ exits (events_of none out_and_back)
returns_le_exits_example = returns_le_exits out_and_back

return_lost_in_gap_example :
    returns (events_of (some outside) (repeat (suc 2) gps_uncertain ++ (safe ∷ []))) ≡ 0
return_lost_in_gap_example = return_lost_in_gap 2

abbrev tag : Device
tag = record {
  id_device = 7;
  serial = "tracker";
  client_id = some 1;
  asset_id = some 3;
  active = true;
  deleted = false;
  state = DeviceState.on;
  last_seen_at = none;
  communication_protocol = DeviceCommunicationProtocol.http;
  chirpstack_application_id = none;
  chirpstack_dev_eui = none;
  chirpstack_device_profile_id = none;
}

abbrev evaluator : ℕ → Evaluator
evaluator now = record {
  limits = record {
    near_limit_threshold_meters = 50_000_000;
    gps_uncertain_accuracy_meters = 30_000_000;
  };
  insert_now = λ _. now;
  update_now = λ _. now;
  commands = record { now = now; new_uuid = λ _. "uuid"; default_expires_seconds = 300 };
}

abbrev fix : Location
fix = record { id_location = 11; accuracy = some 5_000_000 }

abbrev row : SpatialResult
row = record { fence_id = 4; inside = false; distance_to_boundary_meters = some 80_000_000 }

abbrev spatial : ℕ → Location → List SpatialResult
spatial asset location = row ∷ []

abbrev empty_store : GeofenceStore
empty_store = record {
  states = [];
  next_state_id = 1;
  events = [];
  next_event_id = 1;
  commands = record { rows = []; pending = [] };
  next_command_id = 1;
}

abbrev after : GeofenceStore
after = record {
  states =
      update_asset_state (evaluator 20) tag fix row outside
        (new_state (evaluator 20) tag 3 fix row outside 1)
      ∷ [];
  next_state_id = 2;
  events = new_event tag 3 fix row exited 1 ∷ [];
  next_event_id = 2;
  commands = record { rows = []; pending = [] };
  next_command_id = 1;
}

abbrev results : List GeofenceEvaluationResult
results =
    record {
      fence_id = 4;
      level = outside;
      distance_to_boundary_meters = some 80_000_000;
      accuracy = some 5_000_000;
      event_created = true;
    }
    ∷ []

evaluates_rows : evaluate_rows (evaluator 20) tag 3 fix (row ∷ []) empty_store ≡ ok (results, after)
unfolding evaluate_rows resolve_event_type resolve_status create_commands_for_geofence_event
evaluates_rows = refl

evaluates :
    evaluate_location (evaluator 20) spatial (some tag) (some fix) empty_store ≡ ok (results, after)
unfolding evaluate_location resolve_event_type resolve_status create_commands_for_geofence_event
evaluates = refl

empty_store-IsKeyed : IsKeyed [] 1
empty_store-IsKeyed = record { unique = tt; below = tt }

one_row_unique : UniqueKeys fence_of (row ∷ [])
one_row_unique = (tt, tt)

evaluate_rows-RowsDone_example : RowsDone (evaluator 20) 3 fix (row ∷ []) empty_store results after
evaluate_rows-RowsDone_example =
    evaluate_rows-RowsDone (evaluator 20) tag 3 fix (row ∷ []) empty_store one_row_unique
      empty_store-IsKeyed evaluates_rows

evaluate_again-IsQuiet_example :
    (results' : List GeofenceEvaluationResult) × (store'' : GeofenceStore) × (evaluate_location
        (evaluator 30)
        spatial
        (some tag)
        (some fix)
        after
      ≡ ok (results', store''))
    × IsQuiet (evaluator 30) fix (row ∷ []) after results' store''
evaluate_again-IsQuiet_example =
    evaluate_again-IsQuiet (evaluator 20) (evaluator 30) spatial tag 3 fix empty_store refl refl
      one_row_unique empty_store-IsKeyed evaluates

-- A fence that watches an asset through a group, and one that does so directly.
abbrev tables : MembershipTables
tables = record {
  fences =
      record { id_geofence = 4; active = true; deleted = false }
      ∷ record { id_geofence = 5; active = true; deleted = false }
      ∷ [];
  assets = record { id_asset = 3; client_id = 1; is_active = true; deleted = false } ∷ [];
  assignments = record { fence_id = 5; asset_id = 3; active = true; deleted = false } ∷ [];
  groups = record { id_asset_group = 9; active = true; deleted = false } ∷ [];
  members = record { asset_group_id = 9; asset_id = 3; deleted = false } ∷ [];
  fence_groups =
      record { geofence_id = 4; asset_group_id = 9; active = true; deleted = false } ∷ [];
}

effective_geofence_ids-Watches_example :
    (elem 4 (get_effective_geofence_ids_for_asset tables 3) ≡ true) ↔ Watches tables 4 3
effective_geofence_ids-Watches_example = effective_geofence_ids-Watches tables 4 3

abbrev nothing_covers : ℕ → Location → Bool
nothing_covers fence location = false

abbrev no_distance : ℕ → Location → Option ℕ
no_distance fence location = none

two_fences_unique : UniqueKeys id_of_fence tables.fences
two_fences_unique = omega arith

spatial_results-AreRows_example :
    AreRows nothing_covers no_distance tables 3 fix
      (get_assigned_geofence_spatial_results nothing_covers no_distance tables 3 fix)
spatial_results-AreRows_example =
    spatial_results-AreRows nothing_covers no_distance tables 3 fix two_fences_unique

abbrev unlinked : MembershipTables
unlinked = record tables { fence_groups = [] }

deletes : delete_state_if_unassigned unlinked 4 3 after.states ≡ ok (true, [])
unfolding delete_state_if_unassigned scalar_one_or_none
deletes = refl

delete_state_if_unassigned-IsDeleted_example :
    (Watches unlinked 4 3 × (true ≡ false) × ([] ≡ after.states))
    ⊎ ((¬ Watches unlinked 4 3) × IsDeleted 4 3 after.states true [])
delete_state_if_unassigned-IsDeleted_example =
    delete_state_if_unassigned-IsDeleted unlinked 4 3 after.states (tt, tt) deletes
