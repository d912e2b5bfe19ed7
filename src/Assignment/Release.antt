-- ===== src/Assignment/Release.antt =====
-- What releasing a device from its asset leaves.
use tlrs.Prelude.{
  ◌∷◌, raise_if, ℕ, ◌≡◌, ◌≢◌, refl, sym, subst, ap, ◌∙◌, Option, none, some, [], select, ok,
  >>=-eq-ok, ok-injective,
}
use tlrs.Model.Device.{Device}
use tlrs.Model.Query.{scalar_one_or_none}
use tlrs.Model.Table.{save, UniqueKeys}
use tlrs.Model.Keys.{scalar_one_or_none-to_list, to_list}
use tlrs.Assignment.{
  DeviceAssetAssignment, AssignmentStore, AssignmentError, assignment_key, device_key,
  ends_before_start, interval_reversed, is_live_device, is_active_of, get_active_assignment,
  validate_current_assignment, close_assignment, take_off, release_from, release_found,
  release_asset,
}
use tlrs.Assignment.Agreement.{some_injective}
use tlrs.Assignment.Close.{
  get_active_assignment-to_list, close_assignment_none, close_assignment_others, save_device_lem,
  live_device_found,
}

-- What a release leaves: the device on no asset, and so stored, with no active assignment; and the
-- other devices and their active assignments as they were.
pub record IsReleased (device_id : ℕ) (store : AssignmentStore) (d : Device)
    (store' : AssignmentStore) : Type 0 where
  pub same_device : d.id_device ≡ device_id
  pub on_none : d.asset_id ≡ none
  pub stored : select (is_live_device device_id) store'.devices ≡ d ∷ []
  pub other_devices :
      (e : ℕ)
      → e ≢ device_id
      → select (is_live_device e) store'.devices ≡ select (is_live_device e) store.devices
  pub no_active : select (is_active_of device_id) store'.assignments ≡ []
  pub others :
      (e : ℕ)
      → e ≢ device_id
      → select (is_active_of e) store'.assignments ≡ select (is_active_of e) store.assignments

release_from-IsReleased :
    (now : ℕ) (store : AssignmentStore) (device : Device) (asset : Option ℕ)
    (active : Option DeviceAssetAssignment) {d : Device} {store' : AssignmentStore}
    → UniqueKeys assignment_key store.assignments
    → UniqueKeys device_key store.devices
    → select (is_live_device device.id_device) store.devices ≡ device ∷ []
    → device.asset_id ≡ asset
    → select (is_active_of device.id_device) store.assignments ≡ to_list active
    → release_from now store device asset active ≡ ok (some d, store')
    → IsReleased device.id_device store d store'
unfolding release_from
release_from-IsReleased now store device none none {d} {store'} u ud live on one h =
    let same = ok-injective h in
    let placed : device ≡ d =
      some_injective (ap (λ (x : Option Device × AssignmentStore). x.0) same) in
    let table : store'.assignments ≡ store.assignments =
      sym (ap (λ (x : Option Device × AssignmentStore). x.1.assignments) same) in
    let devices : store'.devices ≡ store.devices =
      sym (ap (λ (x : Option Device × AssignmentStore). x.1.devices) same) in
    record {
      same_device = ap (λ (x : Device). x.id_device) (sym placed);
      on_none = ap (λ (x : Device). x.asset_id) (sym placed) ∙ on;
      stored =
          ap (select (is_live_device device.id_device)) devices ∙ live ∙ ap (λ x. x ∷ []) placed;
      other_devices = λ e ne. ap (select (is_live_device e)) devices;
      no_active = ap (select (is_active_of device.id_device)) table ∙ one;
      others = λ e ne. ap (select (is_active_of e)) table;
    }
release_from-IsReleased now store device none (some a) u ud live on one h = cc
release_from-IsReleased now store device (some asset) active {d} {store'} u ud live on one h =
    let (_, _, h₁) = >>=-eq-ok (validate_current_assignment (some asset) active) _ h in
    let (_, _, h₂) = >>=-eq-ok (raise_if (ends_before_start now active) interval_reversed) _ h₁ in
    let same = ok-injective h₂ in
    let placed : take_off device ≡ d =
      some_injective (ap (λ (x : Option Device × AssignmentStore). x.0) same) in
    let table : store'.assignments ≡ close_assignment now active store.assignments =
      sym (ap (λ (x : Option Device × AssignmentStore). x.1.assignments) same) in
    let devices : store'.devices ≡ save device_key (take_off device) store.devices =
      sym (ap (λ (x : Option Device × AssignmentStore). x.1.devices) same) in
    let (here, there) =
      save_device_lem device.id_device device (take_off device) store.devices ud live refl refl in
    record {
      same_device = ap (λ (x : Device). x.id_device) (sym placed);
      on_none = ap (λ (x : Device). x.asset_id) (sym placed);
      stored =
          ap (select (is_live_device device.id_device)) devices ∙ here ∙ ap (λ x. x ∷ []) placed;
      other_devices = λ e ne. ap (select (is_live_device e)) devices ∙ there e ne;
      no_active =
          ap (select (is_active_of device.id_device)) table
          ∙ close_assignment_none now device.id_device store.assignments active u one;
      others = λ e ne.
          ap (select (is_active_of e)) table
          ∙ close_assignment_others now device.id_device e store.assignments active u one ne;
    }

-- With distinct keys of assignments and of devices: when a device is released without an error,
-- the table of devices holds the device asked for on no asset, and it has no active assignment; all
-- other devices that are not deleted, and their active assignments, are as they were.
pub release_asset-IsReleased :
    (now device_id : ℕ) (store : AssignmentStore) {d : Device} {store' : AssignmentStore}
    → UniqueKeys assignment_key store.assignments
    → UniqueKeys device_key store.devices
    → release_asset now device_id store ≡ ok (some d, store')
    → IsReleased device_id store d store'
unfolding release_asset release_found
release_asset-IsReleased now device_id store {d} {store'} u ud h =
    let rows = select (is_live_device device_id) store.devices in
    let (found, hf, h₁) =
      >>=-eq-ok (scalar_one_or_none AssignmentError.multiple_results rows) (release_found now store)
        h in
    on_found found hf h₁
  where
    on_found :
        (found : Option Device)
        → scalar_one_or_none AssignmentError.multiple_results
            (select (is_live_device device_id) store.devices)
          ≡ ok found
        → release_found now store found ≡ ok (some d, store')
        → IsReleased device_id store d store'
    on_found none hf h = cc
    on_found (some device) hf h =
        let (active, hb, h₂) =
          >>=-eq-ok (get_active_assignment device.id_device store.assignments)
            (release_from now store device device.asset_id) h in
        let one = get_active_assignment-to_list device.id_device store.assignments hb in
        let found = live_device_found device_id store.devices hf in
        let only =
          scalar_one_or_none-to_list AssignmentError.multiple_results
            (select (is_live_device device_id) store.devices) hf in
        let live =
          subst (λ k. select (is_live_device k) store.devices ≡ device ∷ []) (sym found) only in
        subst (λ k. IsReleased k store d store') found
          (release_from-IsReleased now store device device.asset_id active u ud live refl one h₂)
