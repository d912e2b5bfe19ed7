-- ===== src/Geofence/Evaluation/Settle.antt =====
-- What an evaluation of several fences leaves in the table of states.
use tlrs.Prelude.{
  ℕ, ◌≡◌, ◌≢◌, sym, subst, ap, ◌∙◌, List, [], ◌∷◌, select, ok, ◌>>=◌, >>=-eq-ok, ok-injective, All,
  map,
}
use tlrs.Model.Device.{Device}
use tlrs.Model.Table.{UniqueKeys}
use tlrs.Geofence.Status.{GeoFenceStatus}
use tlrs.Geofence.Evaluation.{by_fence_and_asset, status_of, evaluate_row, evaluate_rows}
use tlrs.Geofence.Tables.{
  GeoFenceAssetState, Location, SpatialResult, GeofenceEvaluationResult, GeofenceStore, Evaluator,
}
use tlrs.Geofence.Evaluation.State.{IsKeyed, Settled, evaluate_row-RowDone}
use tlrs.Geofence.Evaluation.Effect.{row-IsKeyed, row-Settled, row_others}

abbrev pub fence_of : SpatialResult → ℕ
fence_of row = row.fence_id

abbrev pub level_of : GeofenceEvaluationResult → GeoFenceStatus
level_of r = r.level

-- What the evaluation of several fences did to the states.
pub record RowsDone (env : Evaluator) (asset : ℕ) (location : Location) (rows : List SpatialResult)
    (store : GeofenceStore) (results : List GeofenceEvaluationResult) (store' : GeofenceStore)
    : Type 0 where
  pub keyed : IsKeyed store'.states store'.next_state_id
  pub settled :
      All (λ row. Settled row.fence_id asset (status_of env location row) store'.states) rows
  pub levels : map level_of results ≡ map (status_of env location) rows
  pub others :
      (f a : ℕ)
      → All (λ row. fence_of row ≢ f) rows
      → select (by_fence_and_asset f a) store'.states ≡ select (by_fence_and_asset f a) store.states

pub Settled-same :
    (fence asset : ℕ) (status : GeoFenceStatus) (xs ys : List GeoFenceAssetState)
    → select (by_fence_and_asset fence asset) ys ≡ select (by_fence_and_asset fence asset) xs
    → Settled fence asset status xs
    → Settled fence asset status ys
Settled-same fence asset status xs ys same (s, one, e) = (s, same ∙ one, e)

-- With distinct keys of states below the next one, and each fence once, a successful evaluation
-- leaves for every fence that it evaluated one state of the asset, with the level of the
-- position; it reports these levels in order, changes no state at any other fence, and keeps the
-- keys distinct and below the next one.
pub evaluate_rows-RowsDone :
    (env : Evaluator) (device : Device) (asset : ℕ) (location : Location)
    (rows : List SpatialResult) (store : GeofenceStore) {results : List GeofenceEvaluationResult}
    {store' : GeofenceStore}
    → UniqueKeys fence_of rows
    → IsKeyed store.states store.next_state_id
    → evaluate_rows env device asset location rows store ≡ ok (results, store')
    → RowsDone env asset location rows store results store'
unfolding evaluate_rows
evaluate_rows-RowsDone env device asset location [] store {results} {store'} u keyed h =
    let same : store ≡ store' =
      ap (λ (x : List GeofenceEvaluationResult × GeofenceStore). x.1) (ok-injective h) in
    let empty : [] ≡ results =
      ap (λ (x : List GeofenceEvaluationResult × GeofenceStore). x.0) (ok-injective h) in
    record {
      keyed = subst (λ (s : GeofenceStore). IsKeyed s.states s.next_state_id) same keyed;
      settled = tt;
      levels = ap (map level_of) (sym empty);
      others =
          λ f a _. ap (λ (s : GeofenceStore). select (by_fence_and_asset f a) s.states) (sym same);
    }
evaluate_rows-RowsDone env device asset location (row ∷ rows) store {results} {store'} u keyed h =
    let ((r, s₁), h₁, h₂) =
      >>=-eq-ok (evaluate_row env device asset location row store)
        (λ one. evaluate_rows env device asset location rows one.1 >>= λ rest.
          ok (one.0 ∷ rest.0, rest.1))
        h in
    let ((rs, s₂), h₃, h₄) =
      >>=-eq-ok (evaluate_rows env device asset location rows s₁) (λ rest. ok (r ∷ rest.0, rest.1))
        h₂ in
    let done = evaluate_row-RowDone env device asset location row store h₁ in
    let keyed₁ = row-IsKeyed env device asset location row store keyed done in
    let rest = evaluate_rows-RowsDone env device asset location rows s₁ u.1 keyed₁ h₃ in
    let same : s₂ ≡ store' =
      ap (λ (x : List GeofenceEvaluationResult × GeofenceStore). x.1) (ok-injective h₄) in
    let split : r ∷ rs ≡ results =
      ap (λ (x : List GeofenceEvaluationResult × GeofenceStore). x.0) (ok-injective h₄) in
    subst (λ (s : GeofenceStore). RowsDone env asset location (row ∷ rows) store results s) same
      (record {
        keyed = rest.keyed;
        settled = (
          Settled-same row.fence_id asset (status_of env location row) s₁.states s₂.states
              (rest.others row.fence_id asset u.0)
              (row-Settled env device asset location row store keyed done),
          rest.settled,
        );
        levels = ap (map level_of) (sym split) ∙ cc;
        others = λ f a apart.
            rest.others f a apart.1
            ∙ row_others env device asset location row store keyed done f a (λ e. apart.0 (sym e));
      })
