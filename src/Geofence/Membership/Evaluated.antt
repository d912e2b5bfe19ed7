-- ===== src/Geofence/Membership/Evaluated.antt =====
-- The rows of fences against which a location is evaluated.
use tlrs.Prelude.{
  ℕ, ◌≡◌, ◌↔◌, refl, sym, ap, ◌∙◌, subst, inl, inr, Bool, true, false, ◌&&◌, not, Option, List, [],
  ◌∷◌, ◌==◌, select, map, All, Bool-cases, arith, ==_iff,
}
use tlrs.Model.Table.{UniqueKeys}
use tlrs.Model.Update.{elem}
use tlrs.Geofence.Tables.{Location, SpatialResult}
use tlrs.Geofence.Evaluation.Settle.{fence_of}
use tlrs.Geofence.Membership.{
  GeoFence, MembershipTables, any, get_effective_geofence_ids_for_asset,
  get_assigned_geofence_spatial_results,
}
use tlrs.Geofence.Membership.Effective.{id_of_fence, row_of, UniqueKeys-rows}
use tlrs.Geofence.Membership.Watches.{
  Watches, IsLiveFence, any-found, found-any, and_true, effective_geofence_ids-Watches,
}

-- Each fence that watches the asset has one row, with what PostGIS says of it and the location; and
-- no other fence has one.
pub record AreRows (covers : ℕ → Location → Bool) (distance : ℕ → Location → Option ℕ)
    (t : MembershipTables) (asset : ℕ) (location : Location) (rows : List SpatialResult)
    : Type 0 where
  pub unique : UniqueKeys fence_of rows
  pub complete : (fence : ℕ) → (elem fence (map fence_of rows) ≡ true) ↔ Watches t fence asset
  pub measured :
      All
        (λ r.
          (r.inside ≡ covers r.fence_id location)
          × (r.distance_to_boundary_meters ≡ distance r.fence_id location))
        rows

IsLiveFence-Watches :
    (t : MembershipTables) (fence asset : ℕ) → Watches t fence asset → IsLiveFence t fence
IsLiveFence-Watches t fence asset (inl w) = w.fence_is_live
IsLiveFence-Watches t fence asset (inr w) = w.fence_is_live

module _ (covers : ℕ → Location → Bool) (distance : ℕ → Location → Option ℕ) (location : Location)
    (p : GeoFence → Bool) where
  abbrev is_asked : ℕ → GeoFence → Bool
  is_asked k f = (f.id_geofence == k) && p f

  elem-rows :
      (k : ℕ) (fences : List GeoFence)
      → elem k (map fence_of (map (row_of covers distance location) (select p fences)))
        ≡ any (is_asked k) fences
  elem-rows k [] = refl
  elem-rows k (f ∷ fences) = elim (Bool-cases (p f)) [
    | inl e ↦ rw e (ground (arith, elem-rows k fences))
    | inr e ↦ rw e (ground (arith, elem-rows k fences))
  ]

  rows_are_measured :
      (fences : List GeoFence)
      → All
          (λ r.
            (r.inside ≡ covers r.fence_id location)
            × (r.distance_to_boundary_meters ≡ distance r.fence_id location))
          (map (row_of covers distance location) fences)
  rows_are_measured [] = tt
  rows_are_measured (f ∷ fences) = ((refl, refl), rows_are_measured fences)

-- With distinct keys of the fences, the rows to evaluate for an asset and a location have each fence
-- that watches the asset once, with what PostGIS says of the fence and the location, and no other
-- fence.
pub spatial_results-AreRows :
    (covers : ℕ → Location → Bool) (distance : ℕ → Location → Option ℕ) (t : MembershipTables)
    (asset : ℕ) (location : Location)
    → UniqueKeys id_of_fence t.fences
    → AreRows covers distance t asset location
        (get_assigned_geofence_spatial_results covers distance t asset location)
unfolding get_assigned_geofence_spatial_results
spatial_results-AreRows covers distance t asset location u = record {
  unique = UniqueKeys-rows covers distance location is_due t.fences u;
  complete = λ fence. (
    λ h.
        let (f, _, e) =
          any-found (is_asked covers distance location is_due fence) t.fences
            (sym (elem-rows covers distance location is_due fence t.fences) ∙ h) in
        let (same, due) = and_true (f.id_geofence == fence) (is_due f) e in
        let (effective, _) =
          and_true (elem f.id_geofence (get_effective_geofence_ids_for_asset t asset)) _ due in
        subst (λ k. Watches t k asset) ((==_iff f.id_geofence fence).0 same)
          ((effective_geofence_ids-Watches t f.id_geofence asset).0 effective),
    λ w.
        let live = IsLiveFence-Watches t fence asset w in
        elem-rows covers distance location is_due fence t.fences
        ∙ found-any (is_asked covers distance location is_due fence) live.row t.fences live.member (
            asked fence live.row live.same live.active live.undeleted
              ((effective_geofence_ids-Watches t fence asset).1 w)),
  );
  measured = rows_are_measured covers distance location is_due (select is_due t.fences);
}
  where
    is_due : GeoFence → Bool
    is_due f =
        elem f.id_geofence (get_effective_geofence_ids_for_asset t asset)
        && (f.active && not f.deleted)

    asked :
        (fence : ℕ) (f : GeoFence)
        → f.id_geofence ≡ fence
        → f.active ≡ true
        → f.deleted ≡ false
        → elem fence (get_effective_geofence_ids_for_asset t asset) ≡ true
        → is_asked covers distance location is_due fence f ≡ true
    asked fence f same active undeleted effective =
        let here =
          ap (λ k. elem k (get_effective_geofence_ids_for_asset t asset)) same ∙ effective in
        rw (here, active, undeleted, (==_iff f.id_geofence fence).1 same) refl
