-- ===== src/Assignment/Succeeds.antt =====
-- When an assignment goes through.
use tlrs.Prelude.{
  All, ◌≤◌, subst, ℕ, ◌≡◌, refl, ap, ◌∙◌, Bool, true, false, Option, none, some, List, [], ◌∷◌,
  ◌==◌, opt_is, select, ok, arith, Bool-cases, inl, inr,
}
use tlrs.Model.Device.{Device}
use tlrs.Model.Query.{scalar_one_or_none}
use tlrs.Model.Table.{save, UniqueKeys}
use tlrs.Model.Keys.{to_list}
use tlrs.Model.Update.{All-select}
use tlrs.Assignment.Close.{close_assignment_none}
use tlrs.Assignment.{
  DeviceAssetAssignment, Asset, AssignmentStore, is_live_device, is_asset_of, holds_asset,
  get_assignable_asset, get_active_assignment, validate_current_assignment,
  ensure_asset_is_available, keep_asset, is_active_of, is_active_on, assignment_key, check_indexes,
  close_assignment, ends_before_start, move_to_asset, assign_to, assign_asset,
}
use tlrs.Assignment.Agreement.{Agrees}

-- What the code finds for a device whose asset and history agree.
abbrev Finds : Option ℕ → ℕ → List DeviceAssetAssignment → Type 0
Finds asset device assignments =
    (active : Option DeviceAssetAssignment) × (get_active_assignment device assignments ≡ ok active)
    × (validate_current_assignment asset active ≡ ok tt)
    × (select (is_active_of device) assignments ≡ to_list active)
    × ((k : ℕ)
        → opt_is asset k ≡ true
        → (x : DeviceAssetAssignment) × (active ≡ some x) × ((x.asset_id == k) ≡ true))

Agrees-Finds :
    (asset : Option ℕ) (device : ℕ) (assignments : List DeviceAssetAssignment)
    → Agrees asset device assignments
    → Finds asset device assignments
unfolding get_active_assignment validate_current_assignment scalar_one_or_none
Agrees-Finds none device assignments h = (none, rw h refl, refl, h, λ k e. absurd (not_true e))
  where
    not_true : ◌≡◌ {A = Bool} false true → ⊥
    not_true e = cc
Agrees-Finds (some asset) device assignments (x, one, fits) =
    (some x, rw one refl, ground arith, one, λ k e. (x, refl, same_key k e))
  where
    same_key : (k : ℕ) → opt_is (some asset) k ≡ true → (x.asset_id == k) ≡ true
    same_key k e = ground arith

asset_is_assignable :
    (client : Option ℕ) (asset_id : ℕ) (assets : List Asset) {c : ℕ} {asset : Asset}
    → client ≡ some c
    → select (is_asset_of asset_id c) assets ≡ asset ∷ []
    → asset.is_active ≡ true
    → get_assignable_asset client asset_id assets ≡ ok asset
unfolding get_assignable_asset scalar_one_or_none
asset_is_assignable client asset_id assets {c} {asset} hc one active =
    ap (λ o. get_assignable_asset o asset_id assets) hc ∙ rw one (rw active refl)

keep_asset_ok :
    (device : Device) (asset : ℕ) (active : Option DeviceAssetAssignment) (store : AssignmentStore)
    {x : DeviceAssetAssignment}
    → active ≡ some x
    → (x.asset_id == asset) ≡ true
    → (d : Device) × (store' : AssignmentStore) × (keep_asset device asset active store
        ≡ ok (some d, store'))
unfolding keep_asset
keep_asset_ok device asset none store e fits = cc
keep_asset_ok device asset (some a) store {x} e fits =
    let fits' : (a.asset_id == asset) ≡ true = cc in rw fits' (_, _, refl)

select-save_none :
    (p : DeviceAssetAssignment → Bool) (a : DeviceAssetAssignment)
    (assignments : List DeviceAssetAssignment)
    → p a ≡ false
    → select p assignments ≡ []
    → select p (save assignment_key a assignments) ≡ []
select-save_none p a [] out h = refl
select-save_none p a (x ∷ assignments) out h = elim (Bool-cases (p x)) [
  | inl e ↦ cc (rw e at h)
  | inr e ↦ elim (Bool-cases (assignment_key x == assignment_key a)) [
    | inl f ↦ rw (f, out) (select-save_none p a assignments out (rw e at h))
    | inr f ↦ rw (f, e) (select-save_none p a assignments out (rw e at h))
  ]
]

-- The constraints let the new assignment in.
constraints_hold :
    (now device asset : ℕ) (active : Option DeviceAssetAssignment)
    (assignments : List DeviceAssetAssignment)
    → UniqueKeys assignment_key assignments
    → select (is_active_of device) assignments ≡ to_list active
    → select (is_active_on asset) assignments ≡ []
    → check_indexes device asset (close_assignment now active assignments) ≡ ok tt
unfolding check_indexes
constraints_hold now device asset none assignments u one free = rw (one, free) refl
constraints_hold now device asset (some a) assignments u one free =
    let ended : DeviceAssetAssignment = record a { unassigned_at = some now } in
    let gone = close_assignment_none now device assignments (some a) u one in
    rw (gone, select-save_none (is_active_on asset) ended assignments (ground arith) free) refl

-- The assignments that the query finds began before now.
not_reversed :
    (now device : ℕ) (active : Option DeviceAssetAssignment)
    (assignments : List DeviceAssetAssignment)
    → select (is_active_of device) assignments ≡ to_list active
    → All (λ a. a.assigned_at ≤ now) assignments
    → ends_before_start now active ≡ false
not_reversed now device none assignments one began = refl
not_reversed now device (some a) assignments one began =
    let seen : DeviceAssetAssignment → Type 0 =
      λ x. (x.assigned_at ≤ now) × (is_active_of device x ≡ true) in
    let all = All-select (λ x. x.assigned_at ≤ now) (is_active_of device) assignments began in
    let it = subst (All seen) one all in
    let first : a.assigned_at ≤ now = it.0.0 in ground (arith, first)

move_to_asset_ok :
    (now : ℕ) (device : Device) (asset : ℕ) (active : Option DeviceAssetAssignment)
    (store : AssignmentStore)
    → validate_current_assignment device.asset_id active ≡ ok tt
    → ends_before_start now active ≡ false
    → check_indexes device.id_device asset (close_assignment now active store.assignments) ≡ ok tt
    → select (holds_asset asset device.id_device) store.devices ≡ []
    → (d : Device) × (store' : AssignmentStore) × (move_to_asset now device asset active store
        ≡ ok (some d, store'))
unfolding move_to_asset ensure_asset_is_available scalar_one_or_none
move_to_asset_ok now device asset active store valid order indexes free =
    rw (valid, free, order, indexes) (_, _, refl)

-- An assignment goes through: if the device is live and its asset agrees with its history, all
-- assignments have distinct keys and began before now, and the asset asked for is one of the
-- device's client, active, held by no other live device and, unless the device is on it, in no
-- active assignment of any device, deleted ones included, then the device is assigned without an
-- error.
pub assign_asset_succeeds :
    (now device_id asset_id : ℕ) (store : AssignmentStore) (device : Device) (client : ℕ)
    (asset : Asset)
    → select (is_live_device device_id) store.devices ≡ device ∷ []
    → device.client_id ≡ some client
    → Agrees device.asset_id device.id_device store.assignments
    → select (is_asset_of asset_id client) store.assets ≡ asset ∷ []
    → asset.is_active ≡ true
    → select (holds_asset asset.id_asset device.id_device) store.devices ≡ []
    → UniqueKeys assignment_key store.assignments
    → All (λ a. a.assigned_at ≤ now) store.assignments
    → (opt_is device.asset_id asset.id_asset ≡ false
        → select (is_active_on asset.id_asset) store.assignments ≡ [])
    → (d : Device) × (store' : AssignmentStore) × (assign_asset now device_id asset_id store
        ≡ ok (some d, store'))
unfolding assign_asset assign_to scalar_one_or_none
assign_asset_succeeds now device_id asset_id store device client asset live owned agrees known
      usable free u began unassigned =
    let (active, found, valid, one, history) =
      Agrees-Finds device.asset_id device.id_device store.assignments agrees in
    let assignable =
      asset_is_assignable device.client_id asset_id store.assets owned known usable in
    elim (Bool-cases (opt_is device.asset_id asset.id_asset)) [
      | inl same ↦
          let (x, is_active, fits) = history asset.id_asset same in
          rw (live, assignable, found, same)
            (keep_asset_ok device asset.id_asset active store is_active fits)
      | inr other ↦
          rw (live, assignable, found, other)
            (move_to_asset_ok now device asset.id_asset active store valid
              (not_reversed now device.id_device active store.assignments one began)
              (constraints_hold now device.id_device asset.id_asset active store.assignments u one
                (unassigned other))
              free)
    ]
