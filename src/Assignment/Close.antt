-- ===== src/Assignment/Close.antt =====
-- What the queries of an assignment find, and what closing the active one leaves.
use tlrs.Prelude.{
  ℕ, ◌≡◌, ◌≢◌, refl, ap, ◌∙◌, true, false, Option, none, some, List, [], ◌∷◌, select, ok, >>=-eq-ok,
  arith,
}
use tlrs.Model.Device.{Device}
use tlrs.Model.Query.{scalar_one_or_none}
use tlrs.Model.Table.{
  save, select-save_self, UniqueKeys, select-save_gone, select-save_ne, select_one_mem,
}
use tlrs.Model.Keys.{to_list, scalar_one_or_none-to_list}
use tlrs.Assignment.{
  DeviceAssetAssignment, Asset, AssignmentError, assignment_key, device_key, is_live_device,
  is_active_of, is_asset_of, check_asset, get_assignable_asset, get_active_assignment,
  close_assignment,
}

pub get_active_assignment-to_list :
    (device : ℕ) (assignments : List DeviceAssetAssignment) {o : Option DeviceAssetAssignment}
    → get_active_assignment device assignments ≡ ok o
    → select (is_active_of device) assignments ≡ to_list o
unfolding get_active_assignment
get_active_assignment-to_list device assignments h =
    scalar_one_or_none-to_list AssignmentError.multiple_results
      (select (is_active_of device) assignments) h

abbrev ended : ℕ → DeviceAssetAssignment → DeviceAssetAssignment
ended now a = record a { unassigned_at = some now }

-- Closing the active assignment of a device leaves it none.
pub close_assignment_none :
    (now device : ℕ) (assignments : List DeviceAssetAssignment)
    (active : Option DeviceAssetAssignment)
    → UniqueKeys assignment_key assignments
    → select (is_active_of device) assignments ≡ to_list active
    → select (is_active_of device) (close_assignment now active assignments) ≡ []
close_assignment_none now device assignments none u h = h
close_assignment_none now device assignments (some a) u h =
    select-save_gone assignment_key (is_active_of device) a (ended now a) assignments u h refl
      (ground arith)

not_of_other :
    (device e : ℕ) (a : DeviceAssetAssignment)
    → e ≢ device
    → is_active_of device a ≡ true
    → is_active_of e a ≡ false
not_of_other device e a ne h = ground arith

pub close_assignment_others :
    (now device e : ℕ) (assignments : List DeviceAssetAssignment)
    (active : Option DeviceAssetAssignment)
    → UniqueKeys assignment_key assignments
    → select (is_active_of device) assignments ≡ to_list active
    → e ≢ device
    → select (is_active_of e) (close_assignment now active assignments)
      ≡ select (is_active_of e) assignments
close_assignment_others now device e assignments none u h ne = refl
close_assignment_others now device e assignments (some a) u h ne =
    let (m, mine) = select_one_mem assignment_key (is_active_of device) a assignments h in
    select-save_ne assignment_key (is_active_of e) a (ended now a) assignments u m refl
      (not_of_other device e a ne mine) (ground arith)

-- The device and the asset that the queries find.
pub live_device_found :
    (id : ℕ) (devices : List Device) {d : Device}
    → scalar_one_or_none AssignmentError.multiple_results (select (is_live_device id) devices)
      ≡ ok (some d)
    → d.id_device ≡ id
live_device_found id devices {d} h =
    let one =
      scalar_one_or_none-to_list AssignmentError.multiple_results
        (select (is_live_device id) devices) h in
    let (_, live) = select_one_mem device_key (is_live_device id) d devices one in ground arith

asset_key : Asset → ℕ
asset_key a = a.id_asset

check_asset_same : (o : Option Asset) {a : Asset} → check_asset o ≡ ok a → o ≡ some a
check_asset_same none h = cc
check_asset_same (some b) h = ground arith

pub assignable_asset_id :
    (client : Option ℕ) (asset_id : ℕ) (assets : List Asset) {a : Asset}
    → get_assignable_asset client asset_id assets ≡ ok a
    → a.id_asset ≡ asset_id
unfolding get_assignable_asset
assignable_asset_id none asset_id assets h = cc
assignable_asset_id (some client) asset_id assets {a} h =
    let rows = select (is_asset_of asset_id client) assets in
    let (o, ho, hc) =
      >>=-eq-ok (scalar_one_or_none AssignmentError.multiple_results rows) check_asset h in
    let one : rows ≡ a ∷ [] =
      scalar_one_or_none-to_list AssignmentError.multiple_results rows ho
      ∙ ap to_list (check_asset_same o hc) in
    let (_, mine) = select_one_mem asset_key (is_asset_of asset_id client) a assets one in
    ground arith

-- What saving the device that was found leaves: that device, and the other ones as they were.
pub save_device_lem :
    (id : ℕ) (old new : Device) (devices : List Device)
    → UniqueKeys device_key devices
    → select (is_live_device id) devices ≡ old ∷ []
    → new.id_device ≡ old.id_device
    → new.deleted ≡ old.deleted
    → (select (is_live_device id) (save device_key new devices) ≡ new ∷ [])
      × ((e : ℕ)
          → e ≢ id
          → select (is_live_device e) (save device_key new devices)
            ≡ select (is_live_device e) devices)
save_device_lem id old new devices u one same kept =
    let (m, live) = select_one_mem device_key (is_live_device id) old devices one in
    (
      select-save_self device_key (is_live_device id) old new devices u one same (ground arith),
      λ e ne.
          select-save_ne device_key (is_live_device e) old new devices u m same (ground arith)
            (ground arith),
    )
