-- ===== src/Geofence/Membership/Watches.antt =====
-- Which fences watch an asset, in terms of the rows of the tables.
use mathlib.Core.List.{Memᴰ}
use tlrs.Prelude.{
  ℕ, ◌≡◌, ◌⊎◌, ◌↔◌, refl, sym, ◌∙◌, subst, inl, inr, Bool, true, false, ◌&&◌, ◌||◌, not, List, [],
  ◌∷◌, ◌==◌, Bool-cases, arith,
}
use tlrs.Model.Update.{elem}
use tlrs.Assignment.{Asset}
use tlrs.Geofence.Membership.{
  GeoFence, GeoFenceAssignment, AssetGroup, AssetGroupMember, GeoFenceAssetGroup, MembershipTables,
  any, live_fence, live_asset, live_group, is_linked, is_member,
  get_effective_geofence_ids_for_asset,
}
use tlrs.Geofence.Membership.Effective.{
  counts_directly, counts_by_group, counts_as_member, effective_geofence_ids_count,
}

module _ {A : Type 0} (p : A → Bool) where
  pub any-found : (xs : List A) → any p xs ≡ true → (x : A) × Memᴰ x xs × (p x ≡ true)
  any-found [] h = cc
  any-found (x ∷ xs) h = elim (Bool-cases (p x)) [
    | inl e ↦ (x, Memᴰ.head refl, e)
    | inr e ↦ let (y, m, f) = any-found xs (rw e at h) in (y, Memᴰ.tail m, f)
  ]

  pub found-any : (x : A) (xs : List A) → Memᴰ x xs → p x ≡ true → any p xs ≡ true
  found-any x [] m e = elim m [ ]
  found-any x (y ∷ xs) (Memᴰ.head same) e = rw (← same, e) refl
  found-any x (y ∷ xs) (Memᴰ.tail m) e = ground (arith, found-any x xs m e)

-- A row of a fence that is active and not deleted, and such rows of assets and groups
pub record IsLiveFence (t : MembershipTables) (fence : ℕ) : Type 0 where
  pub row : GeoFence
  pub member : Memᴰ row t.fences
  pub same : row.id_geofence ≡ fence
  pub active : row.active ≡ true
  pub undeleted : row.deleted ≡ false

pub record IsLiveAsset (t : MembershipTables) (asset : ℕ) : Type 0 where
  pub row : Asset
  pub member : Memᴰ row t.assets
  pub same : row.id_asset ≡ asset
  pub undeleted : row.deleted ≡ false

pub record IsLiveGroup (t : MembershipTables) (group : ℕ) : Type 0 where
  pub row : AssetGroup
  pub member : Memᴰ row t.groups
  pub same : row.id_asset_group ≡ group
  pub active : row.active ≡ true
  pub undeleted : row.deleted ≡ false

-- An assignment of the fence to the asset
pub record WatchesDirectly (t : MembershipTables) (fence asset : ℕ) : Type 0 where
  pub row : GeoFenceAssignment
  pub member : Memᴰ row t.assignments
  pub of_fence : row.fence_id ≡ fence
  pub of_asset : row.asset_id ≡ asset
  pub active : row.active ≡ true
  pub undeleted : row.deleted ≡ false
  pub fence_is_live : IsLiveFence t fence
  pub asset_is_live : IsLiveAsset t asset

-- A link of the fence to a group of which the asset is a member
pub record WatchesByGroup (t : MembershipTables) (fence asset : ℕ) : Type 0 where
  pub link : GeoFenceAssetGroup
  pub linked : Memᴰ link t.fence_groups
  pub of_fence : link.geofence_id ≡ fence
  pub active : link.active ≡ true
  pub undeleted : link.deleted ≡ false
  pub row : AssetGroupMember
  pub member : Memᴰ row t.members
  pub of_group : row.asset_group_id ≡ link.asset_group_id
  pub of_asset : row.asset_id ≡ asset
  pub row_undeleted : row.deleted ≡ false
  pub fence_is_live : IsLiveFence t fence
  pub group_is_live : IsLiveGroup t link.asset_group_id
  pub asset_is_live : IsLiveAsset t asset

abbrev pub Watches : MembershipTables → ℕ → ℕ → Type 0
Watches t fence asset = WatchesDirectly t fence asset ⊎ WatchesByGroup t fence asset

live_fence_iff : (t : MembershipTables) (k : ℕ) → (live_fence t k ≡ true) ↔ IsLiveFence t k
live_fence_iff t k = (
  λ h.
      let (f, m, e) = any-found _ t.fences h in
      record {
        row = f;
        member = m;
        same = ground (arith, e);
        active = ground (arith, e);
        undeleted = ground (arith, e);
      },
  λ w. found-any _ w.row t.fences w.member (ground (arith, w.same, w.active, w.undeleted)),
)

live_asset_iff : (t : MembershipTables) (k : ℕ) → (live_asset t k ≡ true) ↔ IsLiveAsset t k
live_asset_iff t k = (
  λ h.
      let (a, m, e) = any-found _ t.assets h in
      record { row = a; member = m; same = ground (arith, e); undeleted = ground (arith, e) },
  λ w. found-any _ w.row t.assets w.member (ground (arith, w.same, w.undeleted)),
)

live_group_iff : (t : MembershipTables) (k : ℕ) → (live_group t k ≡ true) ↔ IsLiveGroup t k
live_group_iff t k = (
  λ h.
      let (g, m, e) = any-found _ t.groups h in
      record {
        row = g;
        member = m;
        same = ground (arith, e);
        active = ground (arith, e);
        undeleted = ground (arith, e);
      },
  λ w. found-any _ w.row t.groups w.member (ground (arith, w.same, w.active, w.undeleted)),
)

pub and_true : (a b : Bool) → a && b ≡ true → (a ≡ true) × (b ≡ true)
and_true a b h = ground arith

directly_iff :
    (t : MembershipTables) (fence asset : ℕ)
    → (any (counts_directly t fence asset) t.assignments ≡ true) ↔ WatchesDirectly t fence asset
directly_iff t fence asset = (to, from)
  where
    to : any (counts_directly t fence asset) t.assignments ≡ true → WatchesDirectly t fence asset
    to h =
        let (a, m, e) = any-found _ t.assignments h in
        let (pair, direct) = and_true ((a.fence_id == fence) && (a.asset_id == asset)) _ e in
        let (kept, live) = and_true (a.active && not a.deleted) _ direct in
        let (f, l) = and_true (live_fence t a.fence_id) (live_asset t a.asset_id) live in
        let at_fence : a.fence_id ≡ fence = ground (arith, pair) in
        let at_asset : a.asset_id ≡ asset = ground (arith, pair) in
        record {
          row = a;
          member = m;
          of_fence = at_fence;
          of_asset = at_asset;
          active = ground (arith, kept);
          undeleted = ground (arith, kept);
          fence_is_live = subst (IsLiveFence t) at_fence ((live_fence_iff t a.fence_id).0 f);
          asset_is_live = subst (IsLiveAsset t) at_asset ((live_asset_iff t a.asset_id).0 l);
        }

    from : WatchesDirectly t fence asset → any (counts_directly t fence asset) t.assignments ≡ true
    from w =
        let a = w.row in
        let f =
          (live_fence_iff t a.fence_id).1
            (subst (IsLiveFence t) (sym w.of_fence) w.fence_is_live) in
        let l =
          (live_asset_iff t a.asset_id).1
            (subst (IsLiveAsset t) (sym w.of_asset) w.asset_is_live) in
        found-any _ a t.assignments w.member
          (directly_counts a f l w.of_fence w.of_asset w.active w.undeleted)
      where
        directly_counts :
            (a : GeoFenceAssignment)
            → live_fence t a.fence_id ≡ true
            → live_asset t a.asset_id ≡ true
            → a.fence_id ≡ fence
            → a.asset_id ≡ asset
            → a.active ≡ true
            → a.deleted ≡ false
            → counts_directly t fence asset a ≡ true
        directly_counts a f l of_fence of_asset active undeleted =
            rw (f, l, active, undeleted) (ground (arith, of_fence, of_asset))

-- A member of a group that is not deleted, as a row
record IsMember (t : MembershipTables) (group asset : ℕ) : Type 0 where
  row : AssetGroupMember
  member : Memᴰ row t.members
  of_group : row.asset_group_id ≡ group
  of_asset : row.asset_id ≡ asset
  undeleted : row.deleted ≡ false
  asset_is_live : IsLiveAsset t asset

any-IsMember :
    (t : MembershipTables) (group asset : ℕ)
    → (any (counts_as_member t group asset) t.members ≡ true) ↔ IsMember t group asset
any-IsMember t group asset = (to, from)
  where
    to : any (counts_as_member t group asset) t.members ≡ true → IsMember t group asset
    to h =
        let (m, mem, e) = any-found _ t.members h in
        let (mine, counts) = and_true (m.asset_id == asset) (is_member t group m) e in
        let (of, rest) = and_true (m.asset_group_id == group) _ counts in
        let (kept, l) = and_true (not m.deleted) (live_asset t m.asset_id) rest in
        let at_asset : m.asset_id ≡ asset = ground (arith, mine) in
        record {
          row = m;
          member = mem;
          of_group = ground (arith, of);
          of_asset = at_asset;
          undeleted = ground (arith, kept);
          asset_is_live = subst (IsLiveAsset t) at_asset ((live_asset_iff t m.asset_id).0 l);
        }

    counts :
        (m : AssetGroupMember)
        → live_asset t m.asset_id ≡ true
        → m.asset_group_id ≡ group
        → m.asset_id ≡ asset
        → m.deleted ≡ false
        → counts_as_member t group asset m ≡ true
    counts m l of_group of_asset undeleted = rw (l, undeleted) (ground (arith, of_group, of_asset))

    from : IsMember t group asset → any (counts_as_member t group asset) t.members ≡ true
    from w =
        let m = w.row in
        let l =
          (live_asset_iff t m.asset_id).1
            (subst (IsLiveAsset t) (sym w.of_asset) w.asset_is_live) in
        found-any _ m t.members w.member (counts m l w.of_group w.of_asset w.undeleted)

by_group_iff :
    (t : MembershipTables) (fence asset : ℕ)
    → (any (counts_by_group t fence asset) t.fence_groups ≡ true) ↔ WatchesByGroup t fence asset
by_group_iff t fence asset = (to, from)
  where
    to : any (counts_by_group t fence asset) t.fence_groups ≡ true → WatchesByGroup t fence asset
    to h =
        let (g, m, e) = any-found _ t.fence_groups h in
        let members = any (counts_as_member t g.asset_group_id asset) t.members in
        let (mine, rest) = and_true (g.geofence_id == fence) (is_linked t g && members) e in
        let (linked, some_member) = and_true (is_linked t g) members rest in
        let (kept, live) = and_true (g.active && not g.deleted) _ linked in
        let (f, l) = and_true (live_fence t g.geofence_id) (live_group t g.asset_group_id) live in
        let it = (any-IsMember t g.asset_group_id asset).0 some_member in
        let at_fence : g.geofence_id ≡ fence = ground (arith, mine) in
        record {
          link = g;
          linked = m;
          of_fence = at_fence;
          active = ground (arith, kept);
          undeleted = ground (arith, kept);
          row = it.row;
          member = it.member;
          of_group = it.of_group;
          of_asset = it.of_asset;
          row_undeleted = it.undeleted;
          fence_is_live = subst (IsLiveFence t) at_fence ((live_fence_iff t g.geofence_id).0 f);
          group_is_live = (live_group_iff t g.asset_group_id).0 l;
          asset_is_live = it.asset_is_live;
        }

    counts :
        (g : GeoFenceAssetGroup)
        → live_fence t g.geofence_id ≡ true
        → live_group t g.asset_group_id ≡ true
        → any (counts_as_member t g.asset_group_id asset) t.members ≡ true
        → g.geofence_id ≡ fence
        → g.active ≡ true
        → g.deleted ≡ false
        → counts_by_group t fence asset g ≡ true
    counts g f l m of_fence active undeleted =
        rw (f, l, m, active, undeleted) (ground (arith, of_fence))

    from : WatchesByGroup t fence asset → any (counts_by_group t fence asset) t.fence_groups ≡ true
    from w =
        let g = w.link in
        let f =
          (live_fence_iff t g.geofence_id).1
            (subst (IsLiveFence t) (sym w.of_fence) w.fence_is_live) in
        let l = (live_group_iff t g.asset_group_id).1 w.group_is_live in
        let m = (any-IsMember t g.asset_group_id asset).1 (record {
          row = w.row;
          member = w.member;
          of_group = w.of_group;
          of_asset = w.of_asset;
          undeleted = w.row_undeleted;
          asset_is_live = w.asset_is_live;
        }) in
        found-any _ g t.fence_groups w.linked (counts g f l m w.of_fence w.active w.undeleted)

or_true : (a b : Bool) → a || b ≡ true → (a ≡ true) ⊎ (b ≡ true)
or_true a b h = ground arith

-- The list of the fences that are effective for an asset holds a fence exactly if the fence watches
-- the asset: by an assignment of the one to the other, or by a link of the fence to a group that
-- has the asset as a member, where the assignment or the link, the fence and the group are active,
-- and none of these, the member or the asset is deleted.
pub effective_geofence_ids-Watches :
    (t : MembershipTables) (fence asset : ℕ)
    → (elem fence (get_effective_geofence_ids_for_asset t asset) ≡ true) ↔ Watches t fence asset
effective_geofence_ids-Watches t fence asset = (to, from)
  where
    to : elem fence (get_effective_geofence_ids_for_asset t asset) ≡ true → Watches t fence asset
    to h = elim (or_true _ _ (sym (effective_geofence_ids_count t fence asset) ∙ h)) [
      | inl e ↦ inl ((directly_iff t fence asset).0 e)
      | inr e ↦ inr ((by_group_iff t fence asset).0 e)
    ]

    from : Watches t fence asset → elem fence (get_effective_geofence_ids_for_asset t asset) ≡ true
    from (inl w) =
        let e = (directly_iff t fence asset).1 w in
        effective_geofence_ids_count t fence asset ∙ rw e refl
    from (inr w) =
        let e = (by_group_iff t fence asset).1 w in
        effective_geofence_ids_count t fence asset ∙ rw e (ground arith)
