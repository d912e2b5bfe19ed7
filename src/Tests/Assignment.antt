-- ===== src/Tests/Assignment.antt =====
-- Assignments at concrete inputs: a device that moves from one asset to another, and is released.
use tlrs.Prelude.{◌≡◌, refl, true, false, none, some, [], ◌∷◌, ok, err, arith}
use tlrs.Model.Device.{Device, DeviceState, DeviceCommunicationProtocol}
use tlrs.Model.Query.{scalar_one_or_none}
use tlrs.Assignment.{
  asset_index, Asset, AssignmentStore, new_assignment, put_on, take_off, assign_asset,
  release_asset,
}
use tlrs.Assignment.Agreement.{IsAssigned, assign_asset-IsAssigned}
use tlrs.Assignment.Succeeds.{assign_asset_succeeds}
use tlrs.Assignment.Release.{IsReleased, release_asset-IsReleased}

abbrev on_three : Device
on_three = record {
  id_device = 7;
  serial = "tracker";
  client_id = some 1;
  asset_id = some 3;
  active = true;
  deleted = false;
  state = DeviceState.on;
  last_seen_at = none;
  communication_protocol = DeviceCommunicationProtocol.http;
  chirpstack_application_id = none;
  chirpstack_dev_eui = none;
  chirpstack_device_profile_id = none;
}

abbrev asset_four : Asset
asset_four = record { id_asset = 4; client_id = 1; is_active = true; deleted = false }

abbrev before : AssignmentStore
before = record {
  devices = on_three ∷ [];
  assets = asset_four ∷ [];
  assignments = new_assignment 1 7 3 10 ∷ [];
  next_assignment_id = 2;
}

abbrev moved_store : AssignmentStore
moved_store = record {
  devices = put_on 4 on_three ∷ [];
  assets = asset_four ∷ [];
  assignments =
      record (new_assignment 1 7 3 10) { unassigned_at = some 20 } ∷ new_assignment 2 7 4 20 ∷ [];
  next_assignment_id = 3;
}

assigns : assign_asset 20 7 4 before ≡ ok (some (put_on 4 on_three), moved_store)
unfolding assign_asset scalar_one_or_none
assigns = refl

assign_asset-IsAssigned_example : IsAssigned 7 4 before (put_on 4 on_three) moved_store
assign_asset-IsAssigned_example = assign_asset-IsAssigned 20 7 4 before (tt, tt) (tt, tt) assigns

abbrev released_store : AssignmentStore
released_store = record before {
  devices = take_off on_three ∷ [];
  assignments = record (new_assignment 1 7 3 10) { unassigned_at = some 20 } ∷ [];
}

releases : release_asset 20 7 before ≡ ok (some (take_off on_three), released_store)
unfolding release_asset scalar_one_or_none
releases = refl

release_asset-IsReleased_example : IsReleased 7 before (take_off on_three) released_store
release_asset-IsReleased_example = release_asset-IsReleased 20 7 before (tt, tt) (tt, tt) releases

assign_asset_succeeds_example :
    (d : Device) × (store' : AssignmentStore) × (assign_asset 20 7 4 before ≡ ok (some d, store'))
assign_asset_succeeds_example =
    assign_asset_succeeds 20 7 4 before on_three 1 asset_four refl refl
      (new_assignment 1 7 3 10, refl, refl) refl refl refl (tt, tt) (omega arith, tt) (λ e. refl)

-- A deleted device that still has the asset is in the way of the unique index.
abbrev in_the_way : AssignmentStore
in_the_way = record before { assignments = new_assignment 1 7 3 10 ∷ new_assignment 2 8 4 10 ∷ [] }

is_refused : assign_asset 20 7 4 in_the_way ≡ err asset_index
unfolding assign_asset scalar_one_or_none
is_refused = refl
