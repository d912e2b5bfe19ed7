-- ===== src/Geofence/Membership.antt =====
-- src/service/geofence_membership_service.py: which assets a fence watches, directly or through a
-- group (the tables are in src/models/geofence.py and src/models/asset_group.py). A join that only
-- filters is an existence test on the other table, since UNION removes duplicates.
pub mod Effective
pub mod Deleted
pub mod Watches
pub mod Evaluated
use tlrs.Prelude.{
  ℕ, Bool, true, false, ◌&&◌, ◌||◌, not, Option, none, some, List, [], ◌∷◌, ◌++◌, ◌==◌,
  if◌then◌else◌, select, map, Result, ok, err, ◌>>=◌,
}
use tlrs.Model.Query.{scalar_one_or_none}
use tlrs.Model.Update.{elem, sort_by}
use tlrs.Assignment.{Asset}
use tlrs.Geofence.Evaluation.{by_fence_and_asset, id_of}
use tlrs.Geofence.Tables.{GeoFenceAssetState, Location, SpatialResult, EvaluationError}

-- `deleted` is true for the columns' "Y".
pub record GeoFence : Type 0 where
  pub id_geofence : ℕ
  pub active : Bool
  pub deleted : Bool

pub record GeoFenceAssignment : Type 0 where
  pub fence_id : ℕ
  pub asset_id : ℕ
  pub active : Bool
  pub deleted : Bool

pub record AssetGroup : Type 0 where
  pub id_asset_group : ℕ
  pub active : Bool
  pub deleted : Bool

pub record AssetGroupMember : Type 0 where
  pub asset_group_id : ℕ
  pub asset_id : ℕ
  pub deleted : Bool

pub record GeoFenceAssetGroup : Type 0 where
  pub geofence_id : ℕ
  pub asset_group_id : ℕ
  pub active : Bool
  pub deleted : Bool

pub record MembershipTables : Type 0 where
  pub fences : List GeoFence
  pub assets : List Asset
  pub assignments : List GeoFenceAssignment
  pub groups : List AssetGroup
  pub members : List AssetGroupMember
  pub fence_groups : List GeoFenceAssetGroup

-- A row of `effective_memberships_subquery`
pub record Membership : Type 0 where
  pub fence_id : ℕ
  pub asset_id : ℕ

abbrev pub any {ℓ} : {A : Type ℓ} → (A → Bool) → List A → Bool
any p [] = false
any p (x ∷ xs) = p x || any p xs

-- The join with a fence that is active and not deleted, and those with an asset and a group
abbrev pub live_fence : MembershipTables → ℕ → Bool
live_fence t k =
    any (λ (f : GeoFence). (f.id_geofence == k) && (f.active && not f.deleted)) t.fences

abbrev pub live_asset : MembershipTables → ℕ → Bool
live_asset t k = any (λ (a : Asset). (a.id_asset == k) && not a.deleted) t.assets

abbrev pub live_group : MembershipTables → ℕ → Bool
live_group t k =
    any (λ (g : AssetGroup). (g.id_asset_group == k) && (g.active && not g.deleted)) t.groups

-- The rows of `direct_assignments`, as a test
abbrev pub is_direct : MembershipTables → GeoFenceAssignment → Bool
is_direct t a = (a.active && not a.deleted) && (live_fence t a.fence_id && live_asset t a.asset_id)

-- The rows of `group_assignments`, as a test on the link of a fence and a group, and on a member
abbrev pub is_linked : MembershipTables → GeoFenceAssetGroup → Bool
is_linked t g =
    (g.active && not g.deleted) && (live_fence t g.geofence_id && live_group t g.asset_group_id)

abbrev pub is_member : MembershipTables → ℕ → AssetGroupMember → Bool
is_member t group m = (m.asset_group_id == group) && (not m.deleted && live_asset t m.asset_id)

unfoldable pub direct_assignments : MembershipTables → List GeoFenceAssignment → List Membership
direct_assignments t [] = []
direct_assignments t (a ∷ rows) =
    let rest = direct_assignments t rows in
    if is_direct t a then record { fence_id = a.fence_id; asset_id = a.asset_id } ∷ rest else rest

unfoldable pub group_members :
    MembershipTables → GeoFenceAssetGroup → List AssetGroupMember → List Membership
group_members t g [] = []
group_members t g (m ∷ rows) =
    let rest = group_members t g rows in
    if is_member t g.asset_group_id m
    then record { fence_id = g.geofence_id; asset_id = m.asset_id } ∷ rest
    else rest

unfoldable pub group_assignments : MembershipTables → List GeoFenceAssetGroup → List Membership
unfolding group_members
group_assignments t [] = []
group_assignments t (g ∷ rows) =
    let rest = group_assignments t rows in
    if is_linked t g then group_members t g t.members ++ rest else rest

abbrev pub is_pair : ℕ → ℕ → Membership → Bool
is_pair fence asset m = (m.fence_id == fence) && (m.asset_id == asset)

-- The removal of duplicates by UNION
unfoldable pub distinct : List Membership → List Membership
distinct [] = []
distinct (m ∷ rows) =
    let rest = distinct rows in if any (is_pair m.fence_id m.asset_id) rows then rest else m ∷ rest

-- `effective_memberships_subquery`
unfoldable pub effective_memberships : MembershipTables → List Membership
unfolding distinct direct_assignments group_assignments
effective_memberships t =
    distinct (direct_assignments t t.assignments ++ group_assignments t t.fence_groups)

-- `SELECT fence_id … WHERE asset_id = …`
unfoldable pub fences_of : ℕ → List Membership → List ℕ
fences_of asset [] = []
fences_of asset (m ∷ rows) =
    let rest = fences_of asset rows in if m.asset_id == asset then m.fence_id ∷ rest else rest

abbrev same : ℕ → ℕ
same n = n

-- `get_effective_geofence_ids_for_asset`
unfoldable pub get_effective_geofence_ids_for_asset : MembershipTables → ℕ → List ℕ
unfolding effective_memberships fences_of
get_effective_geofence_ids_for_asset t asset =
    sort_by same (fences_of asset (effective_memberships t))

-- `has_effective_assignment`
unfoldable pub has_effective_assignment : MembershipTables → ℕ → ℕ → Bool
unfolding effective_memberships
has_effective_assignment t fence asset = any (is_pair fence asset) (effective_memberships t)

-- `_get_assigned_geofence_spatial_results`, with what PostGIS computes as arguments; a NULL of
-- `inside` is false, as `not` takes it
unfoldable pub get_assigned_geofence_spatial_results :
    (ℕ → Location → Bool)
    → (ℕ → Location → Option ℕ)
    → MembershipTables
    → ℕ
    → Location
    → List SpatialResult
unfolding get_effective_geofence_ids_for_asset
get_assigned_geofence_spatial_results covers distance t asset location =
    map
      (λ (f : GeoFence). record {
        fence_id = f.id_geofence;
        inside = covers f.id_geofence location;
        distance_to_boundary_meters = distance f.id_geofence location;
      })
      (select
        (λ (f : GeoFence).
          elem f.id_geofence (get_effective_geofence_ids_for_asset t asset)
          && (f.active && not f.deleted))
        t.fences)

-- `SELECT asset_id … WHERE fence_id = …`
unfoldable pub assets_of : ℕ → List Membership → List ℕ
assets_of fence [] = []
assets_of fence (m ∷ rows) =
    let rest = assets_of fence rows in if m.fence_id == fence then m.asset_id ∷ rest else rest

-- `get_effective_asset_ids_for_geofence`
unfoldable pub get_effective_asset_ids_for_geofence : MembershipTables → ℕ → List ℕ
unfolding effective_memberships assets_of
get_effective_asset_ids_for_geofence t fence =
    sort_by same (assets_of fence (effective_memberships t))

-- `db.delete(state)`
unfoldable pub remove : GeoFenceAssetState → List GeoFenceAssetState → List GeoFenceAssetState
remove s [] = []
remove s (x ∷ states) = let rest = remove s states in if id_of x == id_of s then rest else x ∷ rest

abbrev pub delete_found :
    List GeoFenceAssetState → Option GeoFenceAssetState → Bool × List GeoFenceAssetState
delete_found states none = (false, states)
delete_found states (some s) = (true, remove s states)

-- `delete_state_if_unassigned`: whether it deleted, and the table
unfoldable pub delete_state_if_unassigned :
    MembershipTables
    → ℕ
    → ℕ
    → List GeoFenceAssetState
    → Result EvaluationError (Bool × List GeoFenceAssetState)
unfolding has_effective_assignment remove
delete_state_if_unassigned t fence asset states =
    if has_effective_assignment t fence asset
    then ok (false, states)
    else scalar_one_or_none EvaluationError.multiple_results
        (select (by_fence_and_asset fence asset) states)
      >>= λ found. ok (delete_found states found)
