-- ===== src/Assignment/Agreement.antt =====
-- The asset of a device agrees with its active assignment: what assigning and releasing leave.

use tlrs.Prelude.{
  ℕ, ◌≡◌, ◌≢◌, inl, inr, refl, sym, subst, ap, ◌∙◌, Bool, true, false, Option, none, some, List, [],
  ◌∷◌, ◌++◌, ◌==◌, opt_is, select, ok, >>=-eq-ok, ok-injective, arith, Bool-cases, raise_if, not,
  if◌then◌else◌,
}
use tlrs.Model.Device.{Device, off}
use tlrs.Model.Query.{scalar_one_or_none}
use tlrs.Model.Table.{save, UniqueKeys}
use tlrs.Model.Keys.{scalar_one_or_none-to_list, to_list, select-insert}
use tlrs.Assignment.{
  DeviceAssetAssignment, AssignmentStore, AssignmentError, assignment_key, device_key,
  is_live_device, is_active_of, get_assignable_asset, get_active_assignment,
  validate_current_assignment, ensure_asset_is_available, activate, keep_asset, close_assignment,
  ends_before_start, interval_reversed, check_indexes, new_assignment, put_on, move_to_asset,
  assign_to, assign_asset,
}
use tlrs.Assignment.Close.{
  get_active_assignment-to_list, close_assignment_none, close_assignment_others, live_device_found,
  assignable_asset_id, save_device_lem,
}

-- The one active assignment of a device on an asset, and none of a device on no asset.
abbrev pub Agrees : Option ℕ → ℕ → List DeviceAssetAssignment → Type 0
Agrees none device assignments = select (is_active_of device) assignments ≡ []
Agrees (some asset) device assignments =
    (x : DeviceAssetAssignment) × (select (is_active_of device) assignments ≡ x ∷ [])
    × (x.asset_id ≡ asset)

-- What an assignment leaves: the device on the asset, active, and so stored, with one active
-- assignment, to that asset; and the other devices and their active assignments as they were.
pub record IsAssigned (device_id asset_id : ℕ) (store : AssignmentStore) (d : Device)
    (store' : AssignmentStore) : Type 0 where
  pub same_device : d.id_device ≡ device_id
  pub on_asset : d.asset_id ≡ some asset_id
  pub active : d.active ≡ true
  pub stored : select (is_live_device device_id) store'.devices ≡ d ∷ []
  pub other_devices :
      (e : ℕ)
      → e ≢ device_id
      → select (is_live_device e) store'.devices ≡ select (is_live_device e) store.devices
  pub agrees : Agrees (some asset_id) device_id store'.assignments
  pub others :
      (e : ℕ)
      → e ≢ device_id
      → select (is_active_of e) store'.assignments ≡ select (is_active_of e) store.assignments

if_is_true : {A : Type 0} (b : Bool) (x y : A) → b ≡ true → (if b then x else y) ≡ x
if_is_true b x y e = rw e refl

if_is_false : {A : Type 0} (b : Bool) (x y : A) → b ≡ false → (if b then x else y) ≡ y
if_is_false b x y e = rw e refl

activate_keeps :
    (d : Device)
    → ((activate d).id_device ≡ d.id_device)
      × ((activate d).asset_id ≡ d.asset_id)
      × ((activate d).active ≡ true)
      × ((activate d).deleted ≡ d.deleted)
activate_keeps d = elim (Bool-cases d.active) [
  | inl e ↦ rw e (refl, refl, refl, refl)
  | inr e ↦ rw e (refl, refl, refl, refl)
]

pub some_injective : {A : Type 0} {x y : A} → some x ≡ some y → x ≡ y
some_injective h = cc

keep_asset-IsAssigned :
    (device : Device) (asset : ℕ) (active : Option DeviceAssetAssignment) (store : AssignmentStore)
    {d : Device} {store' : AssignmentStore}
    → UniqueKeys device_key store.devices
    → select (is_live_device device.id_device) store.devices ≡ device ∷ []
    → device.asset_id ≡ some asset
    → select (is_active_of device.id_device) store.assignments ≡ to_list active
    → keep_asset device asset active store ≡ ok (some d, store')
    → IsAssigned device.id_device asset store d store'
unfolding keep_asset
keep_asset-IsAssigned device asset none store ud live on one h = cc
keep_asset-IsAssigned device asset (some a) store {d} {store'} ud live on one h =
    let (_, checked, h₁) =
      >>=-eq-ok (raise_if (not (a.asset_id == asset)) AssignmentError.history_mismatch) _ h in
    let fits : a.asset_id ≡ asset = ground arith in
    let same = ok-injective h₁ in
    let placed : activate device ≡ d =
      some_injective (ap (λ (x : Option Device × AssignmentStore). x.0) same) in
    let kept = activate_keeps device in
    let table : store'.assignments ≡ store.assignments =
      sym (ap (λ (x : Option Device × AssignmentStore). x.1.assignments) same)
      ∙ kept_table device.active store (save device_key (activate device) store.devices) in
    let devices = sym (ap (λ (x : Option Device × AssignmentStore). x.1.devices) same) in
    let (here, there) = kept_devices device store.devices store ud live refl in
    record {
      stored =
          ap (select (is_live_device device.id_device)) devices ∙ here ∙ ap (λ x. x ∷ []) placed;
      other_devices = λ e ne. ap (select (is_live_device e)) devices ∙ there e ne;
      same_device = ap (λ (x : Device). x.id_device) (sym placed) ∙ kept.0;
      on_asset = ap (λ (x : Device). x.asset_id) (sym placed) ∙ kept.1 ∙ on;
      active = ap (λ (x : Device). x.active) (sym placed) ∙ kept.2;
      agrees = (a, ap (select (is_active_of device.id_device)) table ∙ one, fits);
      others = λ e ne. ap (select (is_active_of e)) table;
    }
  where
    kept_table :
        (b : Bool) (s : AssignmentStore) (devices : List Device)
        → (if b then s else record s { devices = devices }).assignments ≡ s.assignments
    kept_table true s devices = refl
    kept_table false s devices = refl

    kept_devices :
        (x : Device) (devices : List Device) (s : AssignmentStore)
        → UniqueKeys device_key devices
        → select (is_live_device x.id_device) devices ≡ x ∷ []
        → s.devices ≡ devices
        → let saved = record s { devices = save device_key (activate x) devices } in
          let after = (if x.active then s else saved).devices in
          (select (is_live_device x.id_device) after ≡ activate x ∷ [])
          × ((e : ℕ)
              → e ≢ x.id_device
              → select (is_live_device e) after ≡ select (is_live_device e) devices)
    kept_devices x devices s u one same =
        let saved = record s { devices = save device_key (activate x) devices } in
        let left = record x { active = true; state = off } in
        elim (Bool-cases x.active) [
          | inl e ↦
              let after =
                ap (λ (t : AssignmentStore). t.devices) (if_is_true x.active s saved e) ∙ same in
              let as_it_was = if_is_true x.active x left e in
              (
                ap (select (is_live_device x.id_device)) after
                    ∙ one
                    ∙ ap (λ y. y ∷ []) (sym as_it_was),
                λ k ne. ap (select (is_live_device k)) after,
              )
          | inr e ↦
              let after =
                ap (λ (t : AssignmentStore). t.devices) (if_is_false x.active s saved e) in
              let kept = activate_keeps x in
              let (here, there) =
                save_device_lem x.id_device x (activate x) devices u one kept.0 kept.3 in
              (
                ap (select (is_live_device x.id_device)) after ∙ here,
                λ k ne. ap (select (is_live_device k)) after ∙ there k ne,
              )
        ]

append_nil : {A : Type 0} (xs : List A) → xs ++ [] ≡ xs
append_nil [] = refl
append_nil (x ∷ xs) = ap (λ ys. x ∷ ys) (append_nil xs)

-- The active assignments once the old one is closed and a new one is added.
module _ (now device asset id : ℕ) (assignments : List DeviceAssetAssignment)
    (active : Option DeviceAssetAssignment) (u : UniqueKeys assignment_key assignments)
    (one : select (is_active_of device) assignments ≡ to_list active) where
  abbrev moved : List DeviceAssetAssignment
  moved = close_assignment now active assignments ++ (new_assignment id device asset now ∷ [])

  moved_one : select (is_active_of device) moved ≡ new_assignment id device asset now ∷ []
  moved_one =
      let new = new_assignment id device asset now in
      let mine : is_active_of device new ≡ true = ground arith in
      select-insert assignment_key (is_active_of device) (close_assignment now active assignments)
        (new ∷ [])
      ∙ rw (close_assignment_none now device assignments active u one, mine) refl

  moved_others :
      (e : ℕ) → e ≢ device → select (is_active_of e) moved ≡ select (is_active_of e) assignments
  moved_others e ne =
      let new = new_assignment id device asset now in
      let apart : is_active_of e new ≡ false = ground arith in
      select-insert assignment_key (is_active_of e) (close_assignment now active assignments)
        (new ∷ [])
      ∙ rw apart (append_nil (select (is_active_of e) (close_assignment now active assignments)))
      ∙ close_assignment_others now device e assignments active u one ne

move_to_asset-IsAssigned :
    (now : ℕ) (device : Device) (asset : ℕ) (active : Option DeviceAssetAssignment)
    (store : AssignmentStore) {d : Device} {store' : AssignmentStore}
    → UniqueKeys assignment_key store.assignments
    → UniqueKeys device_key store.devices
    → select (is_live_device device.id_device) store.devices ≡ device ∷ []
    → select (is_active_of device.id_device) store.assignments ≡ to_list active
    → move_to_asset now device asset active store ≡ ok (some d, store')
    → IsAssigned device.id_device asset store d store'
unfolding move_to_asset
move_to_asset-IsAssigned now device asset active store {d} {store'} u ud live one h =
    let (_, _, h₁) = >>=-eq-ok (validate_current_assignment device.asset_id active) _ h in
    let (_, _, h₂) =
      >>=-eq-ok (ensure_asset_is_available asset device.id_device store.devices) _ h₁ in
    let id = store.next_assignment_id in
    let dev = device.id_device in
    let (_, _, h₃) = >>=-eq-ok (raise_if (ends_before_start now active) interval_reversed) _ h₂ in
    let (_, _, h₄) =
      >>=-eq-ok (check_indexes dev asset (close_assignment now active store.assignments)) _ h₃ in
    let same = ok-injective h₄ in
    let table : moved now dev asset id store.assignments active u one ≡ store'.assignments =
      ap (λ (x : Option Device × AssignmentStore). x.1.assignments) same in
    let placed : put_on asset device ≡ d =
      some_injective (ap (λ (x : Option Device × AssignmentStore). x.0) same) in
    let kept = activate_keeps (record device { asset_id = some asset }) in
    let devices : save device_key (put_on asset device) store.devices ≡ store'.devices =
      ap (λ (x : Option Device × AssignmentStore). x.1.devices) same in
    let (here, there) =
      save_device_lem dev device (put_on asset device) store.devices ud live kept.0 kept.3 in
    record {
      stored = ap (select (is_live_device dev)) (sym devices) ∙ here ∙ ap (λ x. x ∷ []) placed;
      other_devices = λ e ne. ap (select (is_live_device e)) (sym devices) ∙ there e ne;
      same_device = ap (λ (x : Device). x.id_device) (sym placed) ∙ kept.0;
      on_asset = ap (λ (x : Device). x.asset_id) (sym placed) ∙ kept.1;
      active = ap (λ (x : Device). x.active) (sym placed) ∙ kept.2;
      agrees = (
        new_assignment id dev asset now,
        ap (select (is_active_of dev)) (sym table)
            ∙ moved_one now dev asset id store.assignments active u one,
        refl,
      );
      others = λ e ne.
          ap (select (is_active_of e)) (sym table)
          ∙ moved_others now dev asset id store.assignments active u one e ne;
    }

assign_to-IsAssigned :
    (now asset_id : ℕ) (store : AssignmentStore) (device : Device) {d : Device}
    {store' : AssignmentStore}
    → UniqueKeys assignment_key store.assignments
    → UniqueKeys device_key store.devices
    → select (is_live_device device.id_device) store.devices ≡ device ∷ []
    → assign_to now asset_id store (some device) ≡ ok (some d, store')
    → IsAssigned device.id_device asset_id store d store'
unfolding assign_to
assign_to-IsAssigned now asset_id store device {d} {store'} u ud live h =
    let (asset, ha, h₁) =
      >>=-eq-ok (get_assignable_asset device.client_id asset_id store.assets) _ h in
    let (active, hb, h₂) =
      >>=-eq-ok (get_active_assignment device.id_device store.assignments) _ h₁ in
    let one = get_active_assignment-to_list device.id_device store.assignments hb in
    let is_asked = assignable_asset_id device.client_id asset_id store.assets ha in
    subst (λ k. IsAssigned device.id_device k store d store') is_asked
      (elim (Bool-cases (opt_is device.asset_id asset.id_asset)) [
        | inl e ↦
            keep_asset-IsAssigned device asset.id_asset active store ud live
              (opt_is_some device.asset_id asset.id_asset e) one (rw e at h₂)
        | inr e ↦
            move_to_asset-IsAssigned now device asset.id_asset active store u ud live one
              (rw e at h₂)
      ])
  where
    opt_is_some : (o : Option ℕ) (k : ℕ) → opt_is o k ≡ true → o ≡ some k
    opt_is_some o k h = ground arith

-- With distinct keys of assignments and of devices: when a device is assigned to an asset without
-- an error, the table of devices holds the device asked for, active and on that asset, and it has
-- one active assignment, to that asset; all other devices that are not deleted, and their active
-- assignments, are as they were.
pub assign_asset-IsAssigned :
    (now device_id asset_id : ℕ) (store : AssignmentStore) {d : Device} {store' : AssignmentStore}
    → UniqueKeys assignment_key store.assignments
    → UniqueKeys device_key store.devices
    → assign_asset now device_id asset_id store ≡ ok (some d, store')
    → IsAssigned device_id asset_id store d store'
unfolding assign_asset assign_to
assign_asset-IsAssigned now device_id asset_id store {d} {store'} u ud h =
    let rows = select (is_live_device device_id) store.devices in
    let (found, hf, h₁) =
      >>=-eq-ok (scalar_one_or_none AssignmentError.multiple_results rows)
        (assign_to now asset_id store) h in
    on_found found hf h₁
  where
    on_found :
        (found : Option Device)
        → scalar_one_or_none AssignmentError.multiple_results
            (select (is_live_device device_id) store.devices)
          ≡ ok found
        → assign_to now asset_id store found ≡ ok (some d, store')
        → IsAssigned device_id asset_id store d store'
    on_found none hf h = cc
    on_found (some device) hf h =
        let found = live_device_found device_id store.devices hf in
        let one =
          scalar_one_or_none-to_list AssignmentError.multiple_results
            (select (is_live_device device_id) store.devices) hf in
        let live =
          subst (λ k. select (is_live_device k) store.devices ≡ device ∷ []) (sym found) one in
        subst (λ k. IsAssigned k asset_id store d store') found
          (assign_to-IsAssigned now asset_id store device u ud live h)
