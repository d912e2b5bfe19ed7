-- ===== src/Geofence/Membership/Effective.antt =====
-- Which fences are effective for an asset.
use tlrs.Prelude.{
  ℕ, ◌≡◌, ◌≢◌, refl, sym, ap, ◌∙◌, inl, inr, Bool, true, ◌&&◌, ◌||◌, Option, List, [], ◌∷◌, ◌++◌,
  ◌==◌, select, map, All, Bool-cases, arith,
}
use tlrs.Model.Table.{UniqueKeys}
use tlrs.Model.Update.{elem, sort_by, insert_by}
use tlrs.Geofence.Tables.{Location, SpatialResult}
use tlrs.Geofence.Evaluation.Settle.{fence_of}
use tlrs.Geofence.Membership.{
  GeoFence, GeoFenceAssignment, AssetGroupMember, GeoFenceAssetGroup, MembershipTables, Membership,
  any, is_direct, is_linked, is_member, direct_assignments, group_members, group_assignments,
  is_pair, distinct, effective_memberships, fences_of, same, get_effective_geofence_ids_for_asset,
  has_effective_assignment,
}

any-append : {A : Type 0} (p : A → Bool) (xs ys : List A) → any p (xs ++ ys) ≡ any p xs || any p ys
any-append p [] ys = refl
any-append p (x ∷ xs) ys = ground (arith, any-append p xs ys)

is_pair_self :
    (m : Membership) (fence asset : ℕ)
    → is_pair fence asset m ≡ true
    → (n : Membership) → is_pair fence asset n ≡ is_pair m.fence_id m.asset_id n
is_pair_self m fence asset h n = ground arith

any-is_pair_same :
    (m : Membership) (fence asset : ℕ) (rows : List Membership)
    → is_pair fence asset m ≡ true
    → any (is_pair fence asset) rows ≡ any (is_pair m.fence_id m.asset_id) rows
any-is_pair_same m fence asset [] h = refl
any-is_pair_same m fence asset (n ∷ rows) h =
    rw (is_pair_self m fence asset h n, any-is_pair_same m fence asset rows h) refl

any-distinct :
    (fence asset : ℕ) (rows : List Membership)
    → any (is_pair fence asset) (distinct rows) ≡ any (is_pair fence asset) rows
unfolding distinct
any-distinct fence asset [] = refl
any-distinct fence asset (m ∷ rows) = elim (Bool-cases (any (is_pair m.fence_id m.asset_id) rows)) [
  | inl e ↦ elim (Bool-cases (is_pair fence asset m)) [
    | inl mine ↦
        let there = any-is_pair_same m fence asset rows mine ∙ e in
        rw (e, mine) (any-distinct fence asset rows ∙ there)
    | inr other ↦ rw (e, other) (any-distinct fence asset rows)
  ]
  | inr e ↦ rw (e, any-distinct fence asset rows) refl
]

elem-fences_of :
    (fence asset : ℕ) (rows : List Membership)
    → elem fence (fences_of asset rows) ≡ any (is_pair fence asset) rows
unfolding fences_of
elem-fences_of fence asset [] = refl
elem-fences_of fence asset (m ∷ rows) = ground (arith, elem-fences_of fence asset rows)

elem-insert_by : (k n : ℕ) (ns : List ℕ) → elem k (insert_by same n ns) ≡ (n == k) || elem k ns
elem-insert_by k n [] = refl
elem-insert_by k n (j ∷ ns) = ground (arith, elem-insert_by k n ns)

pub elem-sort_by : (k : ℕ) (ns : List ℕ) → elem k (sort_by same ns) ≡ elem k ns
unfolding sort_by
elem-sort_by k [] = refl
elem-sort_by k (n ∷ ns) =
    elem-insert_by k n (sort_by same ns) ∙ ap (λ b. (n == k) || b) (elem-sort_by k ns)

-- An assignment of a fence to an asset that counts.
abbrev pub counts_directly : MembershipTables → ℕ → ℕ → GeoFenceAssignment → Bool
counts_directly t fence asset a = ((a.fence_id == fence) && (a.asset_id == asset)) && is_direct t a

-- A link of a fence to a group, with a member that counts.
abbrev pub counts_as_member : MembershipTables → ℕ → ℕ → AssetGroupMember → Bool
counts_as_member t group asset m = (m.asset_id == asset) && is_member t group m

abbrev pub counts_by_group : MembershipTables → ℕ → ℕ → GeoFenceAssetGroup → Bool
counts_by_group t fence asset g =
    (g.geofence_id == fence)
    && (is_linked t g && any (counts_as_member t g.asset_group_id asset) t.members)

any-direct_assignments :
    (t : MembershipTables) (fence asset : ℕ) (rows : List GeoFenceAssignment)
    → any (is_pair fence asset) (direct_assignments t rows)
      ≡ any (counts_directly t fence asset) rows
unfolding direct_assignments
any-direct_assignments t fence asset [] = refl
any-direct_assignments t fence asset (a ∷ rows) = elim (Bool-cases (is_direct t a)) [
  | inl e ↦ rw (e, any-direct_assignments t fence asset rows) (ground arith)
  | inr e ↦ rw (e, any-direct_assignments t fence asset rows) (ground arith)
]

any-group_members :
    (t : MembershipTables) (fence asset : ℕ) (g : GeoFenceAssetGroup) (rows : List AssetGroupMember)
    → any (is_pair fence asset) (group_members t g rows)
      ≡ (g.geofence_id == fence) && any (counts_as_member t g.asset_group_id asset) rows
unfolding group_members
any-group_members t fence asset g [] = ground arith
any-group_members t fence asset g (m ∷ rows) = elim (Bool-cases (is_member t g.asset_group_id m)) [
  | inl e ↦ rw (e, any-group_members t fence asset g rows) (ground arith)
  | inr e ↦ rw (e, any-group_members t fence asset g rows) (ground arith)
]

any-group_assignments :
    (t : MembershipTables) (fence asset : ℕ) (rows : List GeoFenceAssetGroup)
    → any (is_pair fence asset) (group_assignments t rows)
      ≡ any (counts_by_group t fence asset) rows
unfolding group_assignments
any-group_assignments t fence asset [] = refl
any-group_assignments t fence asset (g ∷ rows) = elim (Bool-cases (is_linked t g)) [
  | inl e ↦ rw e (
      any-append (is_pair fence asset) (group_members t g t.members) (group_assignments t rows)
      ∙ rw (any-group_members t fence asset g t.members, any-group_assignments t fence asset rows)
          refl)
  | inr e ↦ rw (e, any-group_assignments t fence asset rows) (ground arith)
]

any-effective_memberships :
    (t : MembershipTables) (fence asset : ℕ)
    → any (is_pair fence asset) (effective_memberships t)
      ≡ any (counts_directly t fence asset) t.assignments
        || any (counts_by_group t fence asset) t.fence_groups
unfolding effective_memberships
any-effective_memberships t fence asset =
    let direct = direct_assignments t t.assignments in
    let grouped = group_assignments t t.fence_groups in
    any-distinct fence asset (direct ++ grouped)
    ∙ any-append (is_pair fence asset) direct grouped
    ∙ rw
        (
          any-direct_assignments t fence asset t.assignments,
          any-group_assignments t fence asset t.fence_groups,
        )
        refl

pub effective_geofence_ids_count :
    (t : MembershipTables) (fence asset : ℕ)
    → elem fence (get_effective_geofence_ids_for_asset t asset)
      ≡ any (counts_directly t fence asset) t.assignments
        || any (counts_by_group t fence asset) t.fence_groups
unfolding get_effective_geofence_ids_for_asset
effective_geofence_ids_count t fence asset =
    elem-sort_by fence (fences_of asset (effective_memberships t))
    ∙ elem-fences_of fence asset (effective_memberships t)
    ∙ any-effective_memberships t fence asset

abbrev pub id_of_fence : GeoFence → ℕ
id_of_fence f = f.id_geofence

module _ (covers : ℕ → Location → Bool) (distance : ℕ → Location → Option ℕ)
    (location : Location) where
  abbrev pub row_of : GeoFence → SpatialResult
  row_of f = record {
    fence_id = f.id_geofence;
    inside = covers f.id_geofence location;
    distance_to_boundary_meters = distance f.id_geofence location;
  }

  All-rows_apart :
      (p : GeoFence → Bool) (k : ℕ) (fences : List GeoFence)
      → All (λ f. id_of_fence f ≢ k) fences
      → All (λ r. fence_of r ≢ k) (map row_of (select p fences))
  All-rows_apart p k [] h = tt
  All-rows_apart p k (f ∷ fences) h = elim (Bool-cases (p f)) [
    | inl e ↦ rw e (h.0, All-rows_apart p k fences h.1)
    | inr e ↦ rw e (All-rows_apart p k fences h.1)
  ]

  pub UniqueKeys-rows :
      (p : GeoFence → Bool) (fences : List GeoFence)
      → UniqueKeys id_of_fence fences
      → UniqueKeys fence_of (map row_of (select p fences))
  UniqueKeys-rows p [] u = tt
  UniqueKeys-rows p (f ∷ fences) u = elim (Bool-cases (p f)) [
    | inl e ↦ rw e (All-rows_apart p f.id_geofence fences u.0, UniqueKeys-rows p fences u.1)
    | inr e ↦ rw e (UniqueKeys-rows p fences u.1)
  ]

-- `has_effective_assignment` holds of a fence and an asset exactly if the list of fences for the
-- asset holds the fence.
pub has_effective_assignment_lem :
    (t : MembershipTables) (fence asset : ℕ)
    → has_effective_assignment t fence asset
      ≡ elem fence (get_effective_geofence_ids_for_asset t asset)
unfolding has_effective_assignment
has_effective_assignment_lem t fence asset =
    any-effective_memberships t fence asset ∙ sym (effective_geofence_ids_count t fence asset)
