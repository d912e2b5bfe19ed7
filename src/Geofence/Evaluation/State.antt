-- ===== src/Geofence/Evaluation/State.antt =====
-- What an evaluation leaves in the table of states.

use tlrs.Prelude.{
  ℕ, ◌+◌, ◌<◌, ◌≡◌, ◌≢◌, ◌⊎◌, inl, inr, refl, sym, ap, ◌∙◌, Bool, true, false, Option, none, some,
  List, [], ◌∷◌, ◌++◌, select, Result, ok, err, >>=-eq-ok, arith, All, All-append, ok-injective,
}
use tlrs.Model.Device.{Device}
use tlrs.Model.Table.{save, UniqueKeys}
use tlrs.Command.Create.{FenceEventType}
use tlrs.Geofence.Status.{GeoFenceStatus, resolve_event_type}
use tlrs.Geofence.Evaluation.{
  save_state, result_of, finish_row, event_commands, by_fence_and_asset, id_of, scalar_one,
  insert_state, get_or_create_asset_state, create_event, new_state, update_asset_state, status_of,
  evaluate_row,
}
use tlrs.Geofence.Tables.{
  GeoFenceAssetState, Location, SpatialResult, GeofenceEvaluationResult, GeofenceStore, Evaluator,
  EvaluationError,
}

-- The primary keys: distinct, and below the next one of the sequence.
pub record IsKeyed (states : List GeoFenceAssetState) (next : ℕ) : Type 0 where
  pub unique : UniqueKeys id_of states
  pub below : All (λ s. id_of s < next) states

-- The one state of an asset at a fence, and its status.
abbrev pub Settled : ℕ → ℕ → GeoFenceStatus → List GeoFenceAssetState → Type 0
Settled fence asset status states =
    (s : GeoFenceAssetState) × (select (by_fence_and_asset fence asset) states ≡ s ∷ [])
    × (s.current_status ≡ status)

pub select-append :
    (p : GeoFenceAssetState → Bool) (xs ys : List GeoFenceAssetState)
    → select p (xs ++ ys) ≡ select p xs ++ select p ys
select-append p [] ys = refl
select-append p (x ∷ xs) ys = ground (arith, select-append p xs ys)

pub UniqueKeys-append :
    (new : GeoFenceAssetState) (states : List GeoFenceAssetState)
    → IsKeyed states (id_of new)
    → IsKeyed (states ++ (new ∷ [])) (id_of new + 1)
UniqueKeys-append new [] keyed = record { unique = (tt, tt); below = omega arith }
UniqueKeys-append new (s ∷ states) keyed =
    let rest =
      UniqueKeys-append new states (record { unique = keyed.unique.1; below = keyed.below.1 }) in
    record {
      unique = (
        All-append (λ y. id_of y ≢ id_of s) states (new ∷ []) keyed.unique.0
            (omega (arith, keyed.below.0)),
        rest.unique,
      );
      below = (omega (arith, keyed.below.0), rest.below);
    }

-- The two ways in which the state is found.
unfoldable pub FoundState :
    GeoFenceAssetState
    → List GeoFenceAssetState
    → GeoFenceAssetState
    → Option GeoFenceStatus
    → List GeoFenceAssetState
    → Type 0
FoundState new states s previous states' =
    let found = select (by_fence_and_asset new.fence_id new.asset_id) states in
    ((found ≡ s ∷ []) × (previous ≡ some s.current_status) × (states' ≡ states))
    ⊎ ((found ≡ []) × (s ≡ new) × (previous ≡ none) × (states' ≡ states ++ (new ∷ [])))

by_fence_and_asset_self :
    (s : GeoFenceAssetState) → by_fence_and_asset s.fence_id s.asset_id s ≡ true
by_fence_and_asset_self s = ground arith

-- The states of an asset at a fence: none, one, or several.
one_or_not :
    (found : List GeoFenceAssetState)
    → (found ≡ [])
      ⊎ ((s : GeoFenceAssetState) × (found ≡ s ∷ []))
      ⊎ ((s : GeoFenceAssetState) × (s' : GeoFenceAssetState) × (rest : List GeoFenceAssetState)
          × (found ≡ s ∷ s' ∷ rest))
one_or_not [] = inl refl
one_or_not (s ∷ []) = inr (inl (s, refl))
one_or_not (s ∷ s' ∷ found) = inr (inr (s, s', found, refl))

pub select_inserted :
    (new : GeoFenceAssetState) (states : List GeoFenceAssetState)
    → select (by_fence_and_asset new.fence_id new.asset_id) states ≡ []
    → select (by_fence_and_asset new.fence_id new.asset_id) (states ++ (new ∷ [])) ≡ new ∷ []
select_inserted new states e =
    let p = by_fence_and_asset new.fence_id new.asset_id in
    rw (select-append p states (new ∷ []), e, by_fence_and_asset_self new)

insert_state_some :
    (new : GeoFenceAssetState) (states : List GeoFenceAssetState) {s : GeoFenceAssetState}
    {found : List GeoFenceAssetState}
    → select (by_fence_and_asset new.fence_id new.asset_id) states ≡ s ∷ found
    → insert_state new states ≡ (false, states)
unfolding insert_state
insert_state_some new states e = rw (e, insert_state)

insert_state_none :
    (new : GeoFenceAssetState) (states : List GeoFenceAssetState)
    → select (by_fence_and_asset new.fence_id new.asset_id) states ≡ []
    → insert_state new states ≡ (true, states ++ (new ∷ []))
unfolding insert_state
insert_state_none new states e = rw (e, insert_state)

pub get_or_create_some :
    (new : GeoFenceAssetState) (states : List GeoFenceAssetState) {s : GeoFenceAssetState}
    → select (by_fence_and_asset new.fence_id new.asset_id) states ≡ s ∷ []
    → get_or_create_asset_state new states ≡ ok (s, some s.current_status, states)
unfolding get_or_create_asset_state scalar_one
get_or_create_some new states e = rw (insert_state_some new states e, e, get_or_create_asset_state)

get_or_create_none :
    (new : GeoFenceAssetState) (states : List GeoFenceAssetState)
    → select (by_fence_and_asset new.fence_id new.asset_id) states ≡ []
    → get_or_create_asset_state new states ≡ ok (new, none, states ++ (new ∷ []))
unfolding get_or_create_asset_state scalar_one
get_or_create_none new states e =
    rw (insert_state_none new states e, select_inserted new states e, get_or_create_asset_state)

get_or_create_many :
    (new : GeoFenceAssetState) (states : List GeoFenceAssetState) {s s' : GeoFenceAssetState}
    {found : List GeoFenceAssetState}
    → select (by_fence_and_asset new.fence_id new.asset_id) states ≡ s ∷ s' ∷ found
    → get_or_create_asset_state new states ≡ err EvaluationError.multiple_results
unfolding get_or_create_asset_state scalar_one
get_or_create_many new states e = rw (insert_state_some new states e, e, get_or_create_asset_state)

refused_not_ok :
    {A : Type 0} {e : EvaluationError} {a : A} → ◌≢◌ {A = Result EvaluationError A} (err e) (ok a)
refused_not_ok h = cc

get_or_create-FoundState :
    (new : GeoFenceAssetState) (states : List GeoFenceAssetState) {s : GeoFenceAssetState}
    {previous : Option GeoFenceStatus} {states' : List GeoFenceAssetState}
    → get_or_create_asset_state new states ≡ ok (s, previous, states')
    → FoundState new states s previous states'
unfolding FoundState
get_or_create-FoundState new states {s} {previous} {states'} h =
    let found = select (by_fence_and_asset new.fence_id new.asset_id) states in
    elim (one_or_not found) [
      | inl e ↦
          let same = ok-injective (sym (get_or_create_none new states e) ∙ h) in inr (e, cc, cc, cc)
      | inr (inl (s', e)) ↦
          let same = ok-injective (sym (get_or_create_some new states e) ∙ h) in
          inl (e ∙ cc, cc, cc)
      | inr (inr (s₁, s₂, rest, e)) ↦
          let refused : err EvaluationError.multiple_results ≡ ok (s, previous, states') =
            sym (get_or_create_many new states e) ∙ h in
          absurd (refused_not_ok refused)
    ]

create_event_states :
    (env : Evaluator) (device : Device) (asset : ℕ) (location : Location) (row : SpatialResult)
    (kind : Option FenceEventType) (store : GeofenceStore) {store' : GeofenceStore}
    → create_event env device asset location row kind store ≡ ok store'
    → (store'.states ≡ store.states) × (store'.next_state_id ≡ store.next_state_id)
unfolding create_event
create_event_states env device asset location row none store h = (cc, cc)
create_event_states env device asset location row (some kind) store h =
    let (made, _, same) = >>=-eq-ok (event_commands env device asset kind store) _ h in
    (
      sym (ap (λ (d : GeofenceStore). d.states) (ok-injective same)),
      sym (ap (λ (d : GeofenceStore). d.next_state_id) (ok-injective same)),
    )

-- What a successful evaluation of one fence did: it found a state, and saved it updated.
pub record RowDone (env : Evaluator) (device : Device) (asset : ℕ) (location : Location)
    (row : SpatialResult) (store : GeofenceStore) (result : GeofenceEvaluationResult)
    (store' : GeofenceStore) : Type 0 where
  pub found : GeoFenceAssetState
  pub previous : Option GeoFenceStatus
  pub table : List GeoFenceAssetState
  pub was_found :
      FoundState
        (new_state env device asset location row (status_of env location row) store.next_state_id)
        store.states
        found
        previous
        table
  pub saved :
      store'.states
      ≡ save id_of
          (update_asset_state env device location row (status_of env location row) found)
          table
  pub next : store'.next_state_id ≡ store.next_state_id + 1
  pub level : result.level ≡ status_of env location row

abbrev Outcome : Type 0
Outcome = GeofenceEvaluationResult × GeofenceStore

pub evaluate_row-RowDone :
    (env : Evaluator) (device : Device) (asset : ℕ) (location : Location) (row : SpatialResult)
    (store : GeofenceStore) {result : GeofenceEvaluationResult} {store' : GeofenceStore}
    → evaluate_row env device asset location row store ≡ ok (result, store')
    → RowDone env device asset location row store result store'
unfolding evaluate_row finish_row
evaluate_row-RowDone env device asset location row store h =
    let status = status_of env location row in
    let new = new_state env device asset location row status store.next_state_id in
    let ((s, previous, table), hs, h₁) =
      >>=-eq-ok (get_or_create_asset_state new store.states)
        (finish_row env device asset location row store) h in
    let kind = resolve_event_type previous status in
    let with_state = save_state env device location row s table store in
    let (after, he, h₂) =
      >>=-eq-ok (create_event env device asset location row kind with_state)
        (λ store'. ok (result_of env location row kind, store')) h₁ in
    let kept = create_event_states env device asset location row kind with_state he in
    let same = ok-injective h₂ in
    record {
      found = s;
      previous = previous;
      table = table;
      was_found = get_or_create-FoundState new store.states hs;
      saved = sym (ap (λ (x : Outcome). x.1.states) same) ∙ kept.0;
      next = sym (ap (λ (x : Outcome). x.1.next_state_id) same) ∙ kept.1;
      level = sym (ap (λ (x : Outcome). x.0.level) same);
    }
