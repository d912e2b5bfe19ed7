-- ===== src/Geofence/Membership/Deleted.antt =====
-- The states of fences that watch an asset no longer.
use tlrs.Prelude.{
  not, All, ==_iff, ℕ, ◌≡◌, refl, sym, ap, ◌∙◌, ◌⊎◌, inl, inr, Bool, true, false, Option, none,
  some, List, [], ◌∷◌, ◌==◌, select, ok, >>=-eq-ok, ok-injective, Bool-cases, arith,
}
use tlrs.Model.Query.{scalar_one_or_none}
use tlrs.Model.Keys.{to_list, scalar_one_or_none-to_list}
use tlrs.Model.Update.{elem}
use tlrs.Geofence.Tables.{GeoFenceAssetState, EvaluationError}
use tlrs.Geofence.Evaluation.{by_fence_and_asset, id_of}
use tlrs.Geofence.Membership.{
  MembershipTables, Membership, any, is_pair, effective_memberships, assets_of,
  has_effective_assignment, remove, delete_found, get_effective_asset_ids_for_geofence,
  delete_state_if_unassigned,
}
use tlrs.Geofence.Membership.Effective.{elem-sort_by, has_effective_assignment_lem}
use tlrs.Geofence.Membership.Watches.{Watches, found-any, effective_geofence_ids-Watches}
use tlrs.Model.Table.{UniqueKeys, select_one_mem, unique_rows}

select-remove_none :
    (p : GeoFenceAssetState → Bool) (s : GeoFenceAssetState) (states : List GeoFenceAssetState)
    → select p states ≡ []
    → select p (remove s states) ≡ []
unfolding remove
select-remove_none p s [] h = refl
select-remove_none p s (x ∷ states) h = elim (Bool-cases (p x)) [
  | inl e ↦ cc (rw e at h)
  | inr e ↦ elim (Bool-cases (id_of x == id_of s)) [
    | inl d ↦ rw d (select-remove_none p s states (rw e at h))
    | inr d ↦ rw (d, e) (select-remove_none p s states (rw e at h))
  ]
]

same_key : (s x : GeoFenceAssetState) → x ≡ s → (id_of x == id_of s) ≡ true
same_key s x h = ground arith

select-remove_one :
    (p : GeoFenceAssetState → Bool) (s : GeoFenceAssetState) (states : List GeoFenceAssetState)
    → select p states ≡ s ∷ []
    → select p (remove s states) ≡ []
unfolding remove
select-remove_one p s [] h = refl
select-remove_one p s (x ∷ states) h = elim (Bool-cases (p x)) [
  | inl e ↦
      let it : x ≡ s = cc (rw e at h) in
      let rest : select p states ≡ [] = cc (rw e at h) in
      rw (same_key s x it) (select-remove_none p s states rest)
  | inr e ↦ elim (Bool-cases (id_of x == id_of s)) [
    | inl d ↦ rw d (select-remove_one p s states (rw e at h))
    | inr d ↦ rw (d, e) (select-remove_one p s states (rw e at h))
  ]
]

select-delete_found :
    (p : GeoFenceAssetState → Bool) (states : List GeoFenceAssetState)
    (found : Option GeoFenceAssetState)
    → select p states ≡ to_list found
    → select p (delete_found states found).1 ≡ []
select-delete_found p states none h = h
select-delete_found p states (some s) h = select-remove_one p s states h

-- Of the rows that a query leaves out, no one is deleted but the one it finds.
select-remove_other :
    (q : GeoFenceAssetState → Bool) (s : GeoFenceAssetState) (states : List GeoFenceAssetState)
    → All (λ y. id_of y ≡ id_of s → q y ≡ false) states
    → select q (remove s states) ≡ select q states
unfolding remove
select-remove_other q s [] h = refl
select-remove_other q s (x ∷ states) h = elim (Bool-cases (id_of x == id_of s)) [
  | inl e ↦
      let out = h.0 ((==_iff (id_of x) (id_of s)).0 e) in
      rw (e, out) (select-remove_other q s states h.1)
  | inr e ↦ elim (Bool-cases (q x)) [
    | inl f ↦ rw (e, f) (ap (λ rest. x ∷ rest) (select-remove_other q s states h.1))
    | inr f ↦ rw (e, f) (select-remove_other q s states h.1)
  ]
]

-- Every state but those of the fence and the asset
abbrev pub is_other : ℕ → ℕ → GeoFenceAssetState → Bool
is_other fence asset s = not (by_fence_and_asset fence asset s)

select-delete_other :
    (fence asset : ℕ) (states : List GeoFenceAssetState) (found : Option GeoFenceAssetState)
    → UniqueKeys id_of states
    → select (by_fence_and_asset fence asset) states ≡ to_list found
    → select (is_other fence asset) (delete_found states found).1
      ≡ select (is_other fence asset) states
select-delete_other fence asset states none u h = refl
select-delete_other fence asset states (some s) u h =
    let (m, mine) = select_one_mem id_of (by_fence_and_asset fence asset) s states h in
    select-remove_other (is_other fence asset) s states
      (unique_rows id_of (is_other fence asset) s s states u m refl (rw mine refl))

-- What the deletion leaves of a fence that does not watch the asset: the states of all other fences
-- and assets, in order, and no state of these two; and whether it says that it deleted one.
pub record IsDeleted (fence asset : ℕ) (states : List GeoFenceAssetState) (deleted : Bool)
    (states' : List GeoFenceAssetState) : Type 0 where
  pub none_left : select (by_fence_and_asset fence asset) states' ≡ []
  pub others : select (is_other fence asset) states' ≡ select (is_other fence asset) states
  pub told : deleted ≡ any (by_fence_and_asset fence asset) states

any-to_list :
    (p : GeoFenceAssetState → Bool) (states : List GeoFenceAssetState)
    (found : Option GeoFenceAssetState)
    → select p states ≡ to_list found
    → (delete_found states found).0 ≡ any p states
any-to_list p states none h = sym (unseen states h)
  where
    unseen : (rows : List GeoFenceAssetState) → select p rows ≡ [] → any p rows ≡ false
    unseen [] e = refl
    unseen (x ∷ rows) e = elim (Bool-cases (p x)) [
      | inl f ↦ cc (rw f at e)
      | inr f ↦ rw f (unseen rows (rw f at e))
    ]
any-to_list p states (some s) h =
    let (m, mine) = select_one_mem id_of p s states h in sym (found-any p s states m mine)

-- With distinct keys of the states: when `delete_state_if_unassigned` ends without an error, then
-- either the fence watches the asset, and nothing was deleted; or it does not, and no state of the
-- asset at the fence is left, all other states are as they were, and the answer is whether there
-- was one to delete.
pub delete_state_if_unassigned-IsDeleted :
    (t : MembershipTables) (fence asset : ℕ) (states : List GeoFenceAssetState) {deleted : Bool}
    {states' : List GeoFenceAssetState}
    → UniqueKeys id_of states
    → delete_state_if_unassigned t fence asset states ≡ ok (deleted, states')
    → (Watches t fence asset × (deleted ≡ false) × (states' ≡ states))
      ⊎ ((¬ Watches t fence asset) × IsDeleted fence asset states deleted states')
unfolding delete_state_if_unassigned
delete_state_if_unassigned-IsDeleted t fence asset states {deleted} {states'} u h =
    let rows = select (by_fence_and_asset fence asset) states in
    let watched = effective_geofence_ids-Watches t fence asset in
    let agrees = has_effective_assignment_lem t fence asset in
    elim (Bool-cases (has_effective_assignment t fence asset)) [
      | inl e ↦ let done = rw e at h in inl (watched.0 (sym agrees ∙ e), cc, cc)
      | inr e ↦
          let (found, hf, h₁) =
            >>=-eq-ok (scalar_one_or_none EvaluationError.multiple_results rows)
              (λ found. ok (delete_found states found)) (rw e at h) in
          let one = scalar_one_or_none-to_list EvaluationError.multiple_results rows hf in
          let pair = ok-injective h₁ in
          let table : (delete_found states found).1 ≡ states' =
            ap (λ (x : Bool × List GeoFenceAssetState). x.1) pair in
          let answer : (delete_found states found).0 ≡ deleted =
            ap (λ (x : Bool × List GeoFenceAssetState). x.0) pair in
          inr (
            λ w. true_not_false (sym (agrees ∙ watched.1 w) ∙ e),
            record {
              none_left =
                  ap (select (by_fence_and_asset fence asset)) (sym table)
                  ∙ select-delete_found (by_fence_and_asset fence asset) states found one;
              others =
                  ap (select (is_other fence asset)) (sym table)
                  ∙ select-delete_other fence asset states found u one;
              told = sym answer ∙ any-to_list (by_fence_and_asset fence asset) states found one;
            },
          )
    ]
  where
    true_not_false : ◌≡◌ {A = Bool} true false → ⊥
    true_not_false e = cc

elem-assets_of :
    (fence asset : ℕ) (rows : List Membership)
    → elem asset (assets_of fence rows) ≡ any (is_pair fence asset) rows
unfolding assets_of
elem-assets_of fence asset [] = refl
elem-assets_of fence asset (m ∷ rows) = ground (arith, elem-assets_of fence asset rows)

-- The list of the assets of a fence holds an asset exactly if `has_effective_assignment` holds of
-- the two.
effective_asset_ids_lem :
    (t : MembershipTables) (fence asset : ℕ)
    → elem asset (get_effective_asset_ids_for_geofence t fence)
      ≡ has_effective_assignment t fence asset
unfolding get_effective_asset_ids_for_geofence has_effective_assignment
effective_asset_ids_lem t fence asset =
    elem-sort_by asset (assets_of fence (effective_memberships t))
    ∙ elem-assets_of fence asset (effective_memberships t)
