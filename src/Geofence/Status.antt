-- ===== src/Geofence/Status.antt =====
-- src/service/geofence_evaluation_service.py: the status of a position, and the events of its
-- changes. Lengths are natural numbers of a unit finer than any in use, as micrometres.
pub mod Runs
use tlrs.Prelude.{ℕ, Bool, true, false, not, Option, none, some, List, [], ◌∷◌, leb, if◌then◌else◌}
use tlrs.Command.Create.{FenceEventType}

pub data GeoFenceStatus : Type 0 where
  safe near_limit outside gps_uncertain : GeoFenceStatus

abbrev pub same_status : GeoFenceStatus → GeoFenceStatus → Bool
same_status safe safe = true
same_status near_limit near_limit = true
same_status outside outside = true
same_status gps_uncertain gps_uncertain = true
same_status _ _ = false

-- `value is not None and value >= bound`
abbrev is_at_least : ℕ → Option ℕ → Bool
is_at_least bound none = false
is_at_least bound (some value) = leb bound value

-- `value is not None and value <= bound`
abbrev is_at_most : ℕ → Option ℕ → Bool
is_at_most bound none = false
is_at_most bound (some value) = leb value bound

-- The two limits that the service is created with.
pub record Thresholds : Type 0 where
  pub near_limit_threshold_meters : ℕ
  pub gps_uncertain_accuracy_meters : ℕ

-- `_resolve_status`
unfoldable pub resolve_status : Thresholds → Bool → Option ℕ → Option ℕ → GeoFenceStatus
resolve_status limits inside distance accuracy =
    if is_at_least limits.gps_uncertain_accuracy_meters accuracy
    then gps_uncertain
    else if not inside
    then outside
    else if is_at_most limits.near_limit_threshold_meters distance
    then near_limit
    else safe

-- `GEOFENCE_TRANSITION_EVENTS.get`
unfoldable transition_event : Option GeoFenceStatus → GeoFenceStatus → Option FenceEventType
transition_event none near_limit = some FenceEventType.near_limit
transition_event none outside = some FenceEventType.exited
transition_event none gps_uncertain = some FenceEventType.gps_uncertain
transition_event (some safe) near_limit = some FenceEventType.near_limit
transition_event (some safe) outside = some FenceEventType.exited
transition_event (some safe) gps_uncertain = some FenceEventType.gps_uncertain
transition_event (some near_limit) outside = some FenceEventType.exited
transition_event (some near_limit) gps_uncertain = some FenceEventType.gps_uncertain
transition_event (some outside) safe = some FenceEventType.returned
transition_event (some outside) near_limit = some FenceEventType.returned
transition_event (some outside) gps_uncertain = some FenceEventType.gps_uncertain
transition_event (some gps_uncertain) near_limit = some FenceEventType.near_limit
transition_event (some gps_uncertain) outside = some FenceEventType.exited
transition_event _ _ = none

-- `previous_status == new_status`
abbrev is_unchanged : Option GeoFenceStatus → GeoFenceStatus → Bool
is_unchanged none new = false
is_unchanged (some old) new = same_status old new

-- `_resolve_event_type_from_transition`
unfoldable pub resolve_event_type : Option GeoFenceStatus → GeoFenceStatus → Option FenceEventType
unfolding transition_event
resolve_event_type previous new =
    if is_unchanged previous new then none else transition_event previous new
