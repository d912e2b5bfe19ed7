-- ===== src/Assignment.antt =====
-- src/service/device_assignment_service.py: which device is on which asset, now and in history
-- (src/models/device_asset_assignment.py). Row locks serialise the transactions of a device, and an
-- exception rolls back, so that an error leaves the tables as they were.
pub mod Close
pub mod Agreement
pub mod Release
pub mod Succeeds
use tlrs.Prelude.{
  ℕ, ◌+◌, Bool, true, false, ◌&&◌, not, Option, none, some, List, [], ◌∷◌, ◌++◌, ◌==◌, opt_is, ltb,
  is_none, is_some, if◌then◌else◌, select, Result, ok, err, ◌>>=◌, ◌>>◌, raise_if,
}
use tlrs.Model.Device.{Device, DeviceState, off}
use tlrs.Model.Table.{save}
use tlrs.Model.Query.{scalar_one_or_none}

-- `unassigned_at` is `none` in the active assignment.
pub record DeviceAssetAssignment : Type 0 where
  pub id_device_asset_assignment : ℕ
  pub device_id : ℕ
  pub asset_id : ℕ
  pub assigned_at : ℕ
  pub unassigned_at : Option ℕ

-- `is_active` is `status == AssetStatus.ACTIVE`, and `deleted` is true for the column's "Y".
pub record Asset : Type 0 where
  pub id_asset : ℕ
  pub client_id : ℕ
  pub is_active : Bool
  pub deleted : Bool

-- The three tables, and the next key of the assignments.
pub record AssignmentStore : Type 0 where
  pub devices : List Device
  pub assets : List Asset
  pub assignments : List DeviceAssetAssignment
  pub next_assignment_id : ℕ

-- `DeviceAssignmentError`, its subclass for a broken invariant, what a query may raise, and the
-- `IntegrityError` of the three constraints of the table of assignments
pub data AssignmentError : Type 0 where
  device_without_client asset_not_found asset_inactive asset_taken : AssignmentError
  no_active_history history_mismatch history_without_asset : AssignmentError
  multiple_results : AssignmentError
  interval_reversed device_index asset_index : AssignmentError

abbrev pub device_key : Device → ℕ
device_key d = d.id_device

abbrev pub assignment_key : DeviceAssetAssignment → ℕ
assignment_key a = a.id_device_asset_assignment

-- The query of `_get_device_for_update`
abbrev pub is_live_device : ℕ → Device → Bool
is_live_device id d = (d.id_device == id) && not d.deleted

-- The query of `_get_active_assignment_for_update`
abbrev pub is_active_of : ℕ → DeviceAssetAssignment → Bool
is_active_of device a = (a.device_id == device) && is_none a.unassigned_at

-- The query of `_get_assignable_asset`
abbrev pub is_asset_of : ℕ → ℕ → Asset → Bool
is_asset_of asset client a = (a.id_asset == asset) && ((a.client_id == client) && not a.deleted)

-- The query of `_ensure_asset_is_available`, with a device to leave out
abbrev pub holds_asset : ℕ → ℕ → Device → Bool
holds_asset asset device d =
    opt_is d.asset_id asset && (not d.deleted && not (d.id_device == device))

-- The end of `_get_assignable_asset`
abbrev pub check_asset : Option Asset → Result AssignmentError Asset
check_asset none = err asset_not_found
check_asset (some a) = if a.is_active then ok a else err asset_inactive

-- `_get_assignable_asset`
unfoldable pub get_assignable_asset : Option ℕ → ℕ → List Asset → Result AssignmentError Asset
get_assignable_asset none asset assets = err device_without_client
get_assignable_asset (some client) asset assets =
    scalar_one_or_none multiple_results (select (is_asset_of asset client) assets) >>= check_asset

-- `_get_active_assignment_for_update`
unfoldable pub get_active_assignment :
    ℕ → List DeviceAssetAssignment → Result AssignmentError (Option DeviceAssetAssignment)
get_active_assignment device assignments =
    scalar_one_or_none multiple_results (select (is_active_of device) assignments)

-- `_validate_current_assignment`, on the device's asset
unfoldable pub validate_current_assignment :
    Option ℕ → Option DeviceAssetAssignment → Result AssignmentError (Unit {0})
validate_current_assignment none none = ok tt
validate_current_assignment none (some a) = err history_without_asset
validate_current_assignment (some asset) none = err no_active_history
validate_current_assignment (some asset) (some a) =
    raise_if (not (a.asset_id == asset)) history_mismatch

-- `_ensure_asset_is_available`
unfoldable pub ensure_asset_is_available : ℕ → ℕ → List Device → Result AssignmentError (Unit {0})
ensure_asset_is_available asset device devices =
    scalar_one_or_none multiple_results (select (holds_asset asset device) devices) >>= λ holder.
    raise_if (is_some holder) asset_taken

-- `if not device.active: …`
abbrev pub activate : Device → Device
activate d = if d.active then d else record d { active = true; state = off }

-- The branch of `assign_asset` for the asset that the device is on
unfoldable pub keep_asset :
    Device
    → ℕ
    → Option DeviceAssetAssignment
    → AssignmentStore
    → Result AssignmentError (Option Device × AssignmentStore)
keep_asset device asset none store = err no_active_history
keep_asset device asset (some a) store = do
  raise_if (not (a.asset_id == asset)) history_mismatch
  ok (
    some (activate device),
    if device.active
        then store
        else record store { devices = save device_key (activate device) store.devices },
  )

-- `ck_device_asset_assignments_valid_interval`, for an assignment that is to end
abbrev pub ends_before_start : ℕ → Option DeviceAssetAssignment → Bool
ends_before_start now none = false
ends_before_start now (some a) = ltb now a.assigned_at

abbrev pub is_active_on : ℕ → DeviceAssetAssignment → Bool
is_active_on asset a = (a.asset_id == asset) && is_none a.unassigned_at

abbrev pub is_empty_list : {A : Type 0} → List A → Bool
is_empty_list [] = true
is_empty_list (x ∷ xs) = false

-- The unique indexes on the active assignments of a device and of an asset, when one is inserted
unfoldable pub check_indexes :
    ℕ → ℕ → List DeviceAssetAssignment → Result AssignmentError (Unit {0})
check_indexes device asset assignments = do
  raise_if (not (is_empty_list (select (is_active_of device) assignments))) device_index
  raise_if (not (is_empty_list (select (is_active_on asset) assignments))) asset_index

-- `if active_assignment is not None: …`
abbrev pub close_assignment :
    ℕ → Option DeviceAssetAssignment → List DeviceAssetAssignment → List DeviceAssetAssignment
close_assignment now none assignments = assignments
close_assignment now (some a) assignments =
    save assignment_key (record a { unassigned_at = some now }) assignments

abbrev pub new_assignment : ℕ → ℕ → ℕ → ℕ → DeviceAssetAssignment
new_assignment id device asset now = record {
  id_device_asset_assignment = id;
  device_id = device;
  asset_id = asset;
  assigned_at = now;
  unassigned_at = none;
}

abbrev pub put_on : ℕ → Device → Device
put_on asset device = activate (record device { asset_id = some asset })

-- The end of `assign_asset`
unfoldable pub move_to_asset :
    ℕ
    → Device
    → ℕ
    → Option DeviceAssetAssignment
    → AssignmentStore
    → Result AssignmentError (Option Device × AssignmentStore)
unfolding validate_current_assignment ensure_asset_is_available check_indexes
move_to_asset now device asset active store = do
  validate_current_assignment device.asset_id active
  ensure_asset_is_available asset device.id_device store.devices
  raise_if (ends_before_start now active) interval_reversed
  check_indexes device.id_device asset (close_assignment now active store.assignments)
  ok (
    some (put_on asset device),
    record store {
      devices = save device_key (put_on asset device) store.devices;
      assignments =
          close_assignment now active store.assignments
          ++ (new_assignment store.next_assignment_id device.id_device asset now ∷ []);
      next_assignment_id = store.next_assignment_id + 1;
    },
  )

-- `assign_asset`, on the device that was found
unfoldable pub assign_to :
    ℕ
    → ℕ
    → AssignmentStore
    → Option Device
    → Result AssignmentError (Option Device × AssignmentStore)
unfolding get_assignable_asset get_active_assignment keep_asset move_to_asset
assign_to now asset_id store none = ok (none, store)
assign_to now asset_id store (some device) = do
  asset ← get_assignable_asset device.client_id asset_id store.assets
  active ← get_active_assignment device.id_device store.assignments
  if opt_is device.asset_id asset.id_asset
      then keep_asset device asset.id_asset active store
      else move_to_asset now device asset.id_asset active store

-- `assign_asset`
unfoldable pub assign_asset :
    ℕ → ℕ → ℕ → AssignmentStore → Result AssignmentError (Option Device × AssignmentStore)
unfolding assign_to
assign_asset now device_id asset_id store =
    scalar_one_or_none multiple_results (select (is_live_device device_id) store.devices)
    >>= assign_to now asset_id store

abbrev pub take_off : Device → Device
take_off device = record device { asset_id = none; active = false; state = off }

-- `release_asset`, on the device that was found, its asset and its active assignment
unfoldable pub release_from :
    ℕ
    → AssignmentStore
    → Device
    → Option ℕ
    → Option DeviceAssetAssignment
    → Result AssignmentError (Option Device × AssignmentStore)
unfolding validate_current_assignment
release_from now store device none none = ok (some device, store)
release_from now store device none (some a) = err history_without_asset
release_from now store device (some asset) active = do
  validate_current_assignment (some asset) active
  raise_if (ends_before_start now active) interval_reversed
  ok (
    some (take_off device),
    record store {
      devices = save device_key (take_off device) store.devices;
      assignments = close_assignment now active store.assignments;
    },
  )

unfoldable pub release_found :
    ℕ → AssignmentStore → Option Device → Result AssignmentError (Option Device × AssignmentStore)
unfolding get_active_assignment release_from
release_found now store none = ok (none, store)
release_found now store (some device) =
    get_active_assignment device.id_device store.assignments
    >>= release_from now store device device.asset_id

-- `release_asset`
unfoldable pub release_asset :
    ℕ → ℕ → AssignmentStore → Result AssignmentError (Option Device × AssignmentStore)
unfolding release_found
release_asset now device_id store =
    scalar_one_or_none multiple_results (select (is_live_device device_id) store.devices)
    >>= release_found now store
