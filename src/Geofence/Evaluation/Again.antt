-- ===== src/Geofence/Evaluation/Again.antt =====
-- What an evaluation leaves settles the fences, so that the next one of the same location is quiet.
use tlrs.Prelude.{
  ℕ, ◌≡◌, ◌≢◌, refl, sym, ap, ◌∙◌, false, none, some, List, [], ◌∷◌, ok, arith, All, map,
}
use tlrs.Model.Device.{Device}
use tlrs.Model.Table.{UniqueKeys}
use tlrs.Geofence.Status.{GeoFenceStatus, resolve_event_type}
use tlrs.Geofence.Evaluation.{
  create_event, new_state, save_state, result_of, status_of, finish_row, evaluate_row,
  evaluate_rows, evaluate_for, evaluate_location,
}
use tlrs.Geofence.Tables.{
  GeoFenceAssetState, Location, SpatialResult, GeofenceEvaluationResult, GeofenceStore, Evaluator,
}
use tlrs.Geofence.Evaluation.State.{IsKeyed, Settled, evaluate_row-RowDone, get_or_create_some}
use tlrs.Geofence.Evaluation.Effect.{row-IsKeyed, row_others}
use tlrs.Geofence.Evaluation.Settle.{fence_of, level_of, Settled-same, evaluate_rows-RowsDone}

unchanged_is_quiet : (s : GeoFenceStatus) → resolve_event_type (some s) s ≡ none
unfolding resolve_event_type
unchanged_is_quiet s = ground arith

-- A settled fence.
evaluate_row_quiet :
    (env : Evaluator) (device : Device) (asset : ℕ) (location : Location) (row : SpatialResult)
    (store : GeofenceStore)
    → Settled row.fence_id asset (status_of env location row) store.states
    → (s : GeoFenceAssetState) × (evaluate_row env device asset location row store
        ≡ ok (
          result_of env location row none,
          save_state env device location row s store.states store,
        ))
unfolding evaluate_row finish_row create_event
evaluate_row_quiet env device asset location row store (s, one, same) =
    let new =
      new_state env device asset location row (status_of env location row) store.next_state_id in
    (
      s,
      rw (
        get_or_create_some new store.states one,
        same,
        unchanged_is_quiet (status_of env location row),
      ),
    )

-- What a quiet evaluation gives: nothing but the levels.
pub record IsQuiet (env : Evaluator) (location : Location) (rows : List SpatialResult)
    (store : GeofenceStore) (results : List GeofenceEvaluationResult) (store' : GeofenceStore)
    : Type 0 where
  pub levels : map level_of results ≡ map (status_of env location) rows
  pub no_event : All (λ (r : GeofenceEvaluationResult). r.event_created ≡ false) results
  pub same_events : store'.events ≡ store.events
  pub same_commands : store'.commands ≡ store.commands

evaluate_rows-IsQuiet :
    (env : Evaluator) (device : Device) (asset : ℕ) (location : Location)
    (rows : List SpatialResult) (store : GeofenceStore)
    → UniqueKeys fence_of rows
    → IsKeyed store.states store.next_state_id
    → All (λ row. Settled row.fence_id asset (status_of env location row) store.states) rows
    → (results : List GeofenceEvaluationResult) × (store' : GeofenceStore) × (evaluate_rows env
          device asset location rows store
        ≡ ok (results, store'))
      × IsQuiet env location rows store results store'
unfolding evaluate_rows
evaluate_rows-IsQuiet env device asset location [] store u keyed settled = (
  [],
  store,
  refl,
  record { levels = refl; no_event = tt; same_events = refl; same_commands = refl },
)
evaluate_rows-IsQuiet env device asset location (row ∷ rows) store u keyed settled =
    let (s, h) = evaluate_row_quiet env device asset location row store settled.0 in
    let r = result_of env location row none in
    let s₁ = save_state env device location row s store.states store in
    let done = evaluate_row-RowDone env device asset location row store h in
    let keyed₁ = row-IsKeyed env device asset location row store keyed done in
    let still = settled_still device asset rows store h keyed u.0 settled.1 in
    let (rs, s₂, h₁, quiet) =
      evaluate_rows-IsQuiet env device asset location rows s₁ u.1 keyed₁ still in
    (
      r ∷ rs,
      s₂,
      rw (h, h₁) refl,
      record {
        levels = ap (λ ls. status_of env location row ∷ ls) quiet.levels;
        no_event = (refl, quiet.no_event);
        same_events = quiet.same_events;
        same_commands = quiet.same_commands;
      },
    )
  where
    settled_still :
        (device : Device) (asset : ℕ) (others : List SpatialResult) (store : GeofenceStore)
        {r : GeofenceEvaluationResult} {s₁ : GeofenceStore}
        → evaluate_row env device asset location row store ≡ ok (r, s₁)
        → IsKeyed store.states store.next_state_id
        → All (λ y. fence_of y ≢ row.fence_id) others
        → All (λ y. Settled y.fence_id asset (status_of env location y) store.states) others
        → All (λ y. Settled y.fence_id asset (status_of env location y) s₁.states) others
    settled_still device asset [] store h keyed apart settled = tt
    settled_still device asset (y ∷ ys) store {r} {s₁} h keyed apart settled =
        let done = evaluate_row-RowDone env device asset location row store h in
        (
          Settled-same y.fence_id asset (status_of env location y) store.states s₁.states
              (row_others env device asset location row store keyed done y.fence_id asset apart.0)
              settled.0,
          settled_still device asset ys store h keyed apart.1 settled.1,
        )

evaluate_location_rows :
    (env : Evaluator) (spatial : ℕ → Location → List SpatialResult) (device : Device)
    (location : Location) (store : GeofenceStore) {asset : ℕ}
    → device.asset_id ≡ some asset
    → evaluate_location env spatial (some device) (some location) store
      ≡ evaluate_rows env device asset location (spatial asset location) store
unfolding evaluate_location evaluate_for
evaluate_location_rows env spatial device location store on =
    ap (λ a. evaluate_for env spatial device a (some location) store) on

same_limits :
    (env env' : Evaluator) (asset : ℕ) (location : Location) (rows : List SpatialResult)
    (states : List GeoFenceAssetState)
    → env'.limits ≡ env.limits
    → All (λ row. Settled row.fence_id asset (status_of env location row) states) rows
    → All (λ row. Settled row.fence_id asset (status_of env' location row) states) rows
same_limits env env' asset location rows states same h = rw same h

-- For a device on an asset, with distinct keys of states below the next one: after a successful
-- evaluation, evaluating the same location again, at any later time but with the same limits and
-- the same fences, each once, succeeds, reports the levels of the position, and brings no event
-- and no command.
pub evaluate_again-IsQuiet :
    (env env' : Evaluator) (spatial : ℕ → Location → List SpatialResult) (device : Device)
    (asset : ℕ) (location : Location) (store : GeofenceStore)
    {results : List GeofenceEvaluationResult} {store' : GeofenceStore}
    → env'.limits ≡ env.limits
    → device.asset_id ≡ some asset
    → UniqueKeys fence_of (spatial asset location)
    → IsKeyed store.states store.next_state_id
    → evaluate_location env spatial (some device) (some location) store ≡ ok (results, store')
    → (results' : List GeofenceEvaluationResult) × (store'' : GeofenceStore) × (evaluate_location
          env' spatial
          (some device)
          (some location)
          store'
        ≡ ok (results', store''))
      × IsQuiet env' location (spatial asset location) store' results' store''
evaluate_again-IsQuiet env env' spatial device asset location store {results} {store'} same on u
      keyed h =
    let rows = spatial asset location in
    let first = sym (evaluate_location_rows env spatial device location store on) ∙ h in
    let done = evaluate_rows-RowsDone env device asset location rows store u keyed first in
    let (results', store'', again, quiet) =
      evaluate_rows-IsQuiet env' device asset location rows store' u done.keyed
        (same_limits env env' asset location rows store'.states same done.settled) in
    (
      results',
      store'',
      evaluate_location_rows env' spatial device location store' on ∙ again,
      quiet,
    )
