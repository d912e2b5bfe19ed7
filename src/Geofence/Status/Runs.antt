-- ===== src/Geofence/Status/Runs.antt =====
-- The events of a run of evaluations of one asset against one fence.
use tlrs.Prelude.{ℕ, zero, suc, ◌+◌, ◌≤◌, ◌≡◌, refl, Option, none, some, List, [], ◌∷◌, ◌++◌, arith}
use tlrs.Command.Create.{FenceEventType, exited, returned}
use tlrs.Geofence.Status.{GeoFenceStatus, safe, outside, gps_uncertain, resolve_event_type}

-- The events of a run of statuses, from the status before it.
abbrev with_event : Option FenceEventType → List FenceEventType → List FenceEventType
with_event none events = events
with_event (some e) events = e ∷ events

unfoldable pub events_of : Option GeoFenceStatus → List GeoFenceStatus → List FenceEventType
unfolding resolve_event_type
events_of previous [] = []
events_of previous (new ∷ run) =
    with_event (resolve_event_type previous new) (events_of (some new) run)

abbrev one_if_exited : FenceEventType → ℕ
one_if_exited exited = 1
one_if_exited _ = 0

abbrev one_if_returned : FenceEventType → ℕ
one_if_returned returned = 1
one_if_returned _ = 0

abbrev pub exits : List FenceEventType → ℕ
exits [] = 0
exits (e ∷ events) = one_if_exited e + exits events

abbrev pub returns : List FenceEventType → ℕ
returns [] = 0
returns (e ∷ events) = one_if_returned e + returns events

abbrev is_out : Option GeoFenceStatus → ℕ
is_out (some outside) = 1
is_out _ = 0

returns_le_exits_from :
    (previous : Option GeoFenceStatus) (run : List GeoFenceStatus)
    → returns (events_of previous run) ≤ exits (events_of previous run) + is_out previous
unfolding events_of
returns_le_exits_from previous [] = omega arith
returns_le_exits_from previous (new ∷ run) = ground (arith, returns_le_exits_from (some new) run)

-- In the events of any run of an asset that is new to a fence, no return comes without an exit:
-- there are at most as many returns as exits, in every run and so in every beginning of one.
pub returns_le_exits :
    (run : List GeoFenceStatus) → returns (events_of none run) ≤ exits (events_of none run)
returns_le_exits run = omega (arith, returns_le_exits_from none run)

abbrev pub repeat : ℕ → GeoFenceStatus → List GeoFenceStatus
repeat zero s = []
repeat (suc n) s = s ∷ repeat n s

gap_from_uncertain :
    (n : ℕ) → returns (events_of (some gps_uncertain) (repeat n gps_uncertain ++ (safe ∷ []))) ≡ 0
unfolding events_of
gap_from_uncertain zero = refl
gap_from_uncertain (suc n) = gap_from_uncertain n

-- An asset outside whose accuracy is too low for one or more evaluations, and which is then safe
-- inside, has no return among its events.
pub return_lost_in_gap :
    (n : ℕ) → returns (events_of (some outside) (repeat (suc n) gps_uncertain ++ (safe ∷ []))) ≡ 0
unfolding events_of
return_lost_in_gap n = omega (arith, gap_from_uncertain n)
