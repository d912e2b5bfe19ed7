-- ===== src/Geofence/Evaluation/Effect.antt =====
-- What the evaluation of one fence does to the states of all.
use mathlib.Core.List.{Memᴰ}
use tlrs.Prelude.{
  ℕ, ◌+◌, ◌<◌, ◌≡◌, ◌≢◌, inl, inr, refl, sym, subst, ap, ◌∙◌, Bool, true, false, Option, List, [],
  ◌∷◌, ◌++◌, select, arith, All,
}
use tlrs.Model.Device.{Device}
use tlrs.Model.Table.{
  select-save_self, select-save_ne, select_one_mem, All-save_keys, UniqueKeys-save,
}
use tlrs.Geofence.Status.{GeoFenceStatus}
use tlrs.Geofence.Evaluation.{by_fence_and_asset, id_of, new_state, update_asset_state, status_of}
use tlrs.Geofence.Tables.{
  GeoFenceAssetState, Location, SpatialResult, GeofenceEvaluationResult, GeofenceStore, Evaluator,
}
use tlrs.Geofence.Evaluation.State.{
  IsKeyed, Settled, FoundState, RowDone, select-append, UniqueKeys-append, select_inserted,
}

All-below_suc :
    (n : ℕ) (states : List GeoFenceAssetState)
    → All (λ s. id_of s < n) states
    → All (λ s. id_of s < n + 1) states
All-below_suc n [] h = tt
All-below_suc n (s ∷ states) h = (omega (arith, h.0), All-below_suc n states h.1)

-- The table in which the state was found.
FoundState-IsKeyed :
    (new : GeoFenceAssetState) (states : List GeoFenceAssetState) (s : GeoFenceAssetState)
    (previous : Option GeoFenceStatus) (table : List GeoFenceAssetState)
    → IsKeyed states (id_of new)
    → FoundState new states s previous table
    → IsKeyed table (id_of new + 1)
unfolding FoundState
FoundState-IsKeyed new states s previous table keyed (inl (found, _, same)) =
    subst (λ t. IsKeyed t (id_of new + 1)) (sym same)
      (record { unique = keyed.unique; below = All-below_suc (id_of new) states keyed.below })
FoundState-IsKeyed new states s previous table keyed (inr (found, _, _, same)) =
    subst (λ t. IsKeyed t (id_of new + 1)) (sym same) (UniqueKeys-append new states keyed)

FoundState-select :
    (new : GeoFenceAssetState) (states : List GeoFenceAssetState) (s : GeoFenceAssetState)
    (previous : Option GeoFenceStatus) (table : List GeoFenceAssetState)
    → FoundState new states s previous table
    → select (by_fence_and_asset new.fence_id new.asset_id) table ≡ s ∷ []
unfolding FoundState
FoundState-select new states s previous table (inl (found, _, same)) = rw same found
FoundState-select new states s previous table (inr (found, is_new, _, same)) =
    rw (same, is_new) (select_inserted new states found)

not_by_other :
    (f a fence asset : ℕ) (s : GeoFenceAssetState)
    → f ≢ fence
    → by_fence_and_asset fence asset s ≡ true
    → by_fence_and_asset f a s ≡ false
not_by_other f a fence asset s ne h = ground arith

FoundState-select_other :
    (new : GeoFenceAssetState) (states : List GeoFenceAssetState) (s : GeoFenceAssetState)
    (previous : Option GeoFenceStatus) (table : List GeoFenceAssetState) (f a : ℕ)
    → f ≢ new.fence_id
    → FoundState new states s previous table
    → select (by_fence_and_asset f a) table ≡ select (by_fence_and_asset f a) states
unfolding FoundState
FoundState-select_other new states s previous table f a ne (inl (_, _, same)) = rw same refl
FoundState-select_other new states s previous table f a ne (inr (_, _, _, same)) =
    let p = by_fence_and_asset f a in
    let unseen : p new ≡ false = ground arith in
    rw (same, select-append p states (new ∷ []), unseen) (append_nil (select p states))
  where
    append_nil : (xs : List GeoFenceAssetState) → xs ++ [] ≡ xs
    append_nil [] = refl
    append_nil (x ∷ xs) = ap (λ ys. x ∷ ys) (append_nil xs)

module _ (env : Evaluator) (device : Device) (asset : ℕ) (location : Location) (row : SpatialResult)
    (store : GeofenceStore) {result : GeofenceEvaluationResult} {store' : GeofenceStore}
    (keyed : IsKeyed store.states store.next_state_id)
    (done : RowDone env device asset location row store result store') where
  abbrev proposed : GeoFenceAssetState
  proposed =
      new_state env device asset location row (status_of env location row) store.next_state_id

  abbrev updated : GeoFenceAssetState
  updated = update_asset_state env device location row (status_of env location row) done.found

  abbrev mine : GeoFenceAssetState → Bool
  mine = by_fence_and_asset row.fence_id asset

  table-IsKeyed : IsKeyed done.table (store.next_state_id + 1)
  table-IsKeyed =
      FoundState-IsKeyed proposed store.states done.found done.previous done.table keyed
        done.was_found

  selected : select mine done.table ≡ done.found ∷ []
  selected =
      FoundState-select proposed store.states done.found done.previous done.table done.was_found

  found_is_mine : Memᴰ done.found done.table × (mine done.found ≡ true)
  found_is_mine = select_one_mem id_of mine done.found done.table selected

  pub row-IsKeyed : IsKeyed store'.states store'.next_state_id
  row-IsKeyed =
      subst (λ n. IsKeyed store'.states n) (sym done.next)
        (subst (λ t. IsKeyed t (store.next_state_id + 1)) (sym done.saved)
          (record {
            unique = UniqueKeys-save id_of updated done.table table-IsKeyed.unique;
            below =
                All-save_keys id_of (λ k. k < store.next_state_id + 1) updated done.table
                  table-IsKeyed.below;
          }))

  pub row-Settled : Settled row.fence_id asset (status_of env location row) store'.states
  row-Settled = (
    updated,
    rw done.saved (
        select-save_self id_of mine done.found updated done.table table-IsKeyed.unique selected refl
          found_is_mine.1),
    refl,
  )

  pub row_others :
      (f a : ℕ)
      → f ≢ row.fence_id
      → select (by_fence_and_asset f a) store'.states ≡ select (by_fence_and_asset f a) store.states
  row_others f a ne =
      let p = by_fence_and_asset f a in
      let unseen = not_by_other f a row.fence_id asset done.found ne found_is_mine.1 in
      rw done.saved (
        select-save_ne id_of p done.found updated done.table table-IsKeyed.unique found_is_mine.0
          refl unseen unseen
        ∙ FoundState-select_other proposed store.states done.found done.previous done.table f a ne
            done.was_found)
