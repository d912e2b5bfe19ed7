-- ===== src/Geofence/Evaluation/Created.antt =====
-- The commands that an evaluation adds.
use mathlib.Core.List.{append_assoc, append-nil}
use tlrs.Prelude.{
  ℕ, ◌+◌, ◌≡◌, refl, sym, ap, ◌∙◌, subst, inl, inr, Bool, true, false, Option, none, some, List, [],
  ◌∷◌, ◌++◌, String, Result, ok, err, ◌>>=◌, if◌then◌else◌, >>=-eq-ok, ok-injective, All,
  All-append, Bool-cases,
}
use tlrs.Model.Device.{Device}
use tlrs.Model.Command.{DeviceCommand, DeviceCommandType, DownlinkPayload}
use tlrs.Wire.Downlink.{PayloadFields}
use tlrs.Command.Sequence.{CommandStore}
use tlrs.Command.Create.{
  CreateError, Context, FenceEventType, is_value_error, new_command, attempt,
  create_pending_command, has_geofence_command, create_from_specs, command_specs_for_event_type,
  create_commands_for_geofence_event,
}
use tlrs.Command.Create.Keeps.{create_parts, wrap-eq-ok}
use tlrs.Geofence.Status.{GeoFenceStatus, resolve_event_type}
use tlrs.Geofence.Tables.{
  GeoFenceAssetState, Location, SpatialResult, GeofenceEvaluationResult, GeofenceStore, Evaluator,
  creation,
}
use tlrs.Geofence.Evaluation.{
  flush, event_commands, create_event, get_or_create_asset_state, new_state, status_of, save_state,
  finish_row, evaluate_row, evaluate_rows, evaluate_for, evaluate_location,
}

-- A command as `create_pending_command` makes it.
pub data IsCreated : DeviceCommand → Type 0 where
  made :
      (ctx : Context) (id : ℕ) (device : Device) (seq : Option ℕ) (kind : DeviceCommandType)
      (asset event expires : Option ℕ) (transport : String × DownlinkPayload)
      → IsCreated (new_command ctx id device seq kind asset event expires transport)

-- The store with more pending commands.
abbrev Adds : CommandStore → List DeviceCommand → CommandStore → Type 0
Adds db cs db' = (db' ≡ record { rows = db.rows; pending = db.pending ++ cs }) × All IsCreated cs

Adds-none : (db : CommandStore) → Adds db [] db
Adds-none db =
    (ap (λ ps. record { rows = db.rows; pending = ps }) (sym (append-nil db.pending)), tt)

Adds-both :
    (db : CommandStore) (cs ds : List DeviceCommand) (db' db'' : CommandStore)
    → Adds db cs db'
    → Adds db' ds db''
    → Adds db (cs ++ ds) db''
Adds-both db cs ds db' db'' (e, h) (f, k) = (
  f
      ∙ ap (λ (s : CommandStore). record { rows = s.rows; pending = s.pending ++ ds }) e
      ∙ ap (λ ps. record { rows = db.rows; pending = ps }) (append_assoc db.pending cs ds),
  All-append IsCreated cs ds h k,
)

create-Adds :
    (ctx : Context) (id : ℕ) (device : Device) (kind : DeviceCommandType)
    (asset event expires : Option ℕ) (fields : Option PayloadFields) (db : CommandStore)
    {c : DeviceCommand} {db' : CommandStore}
    → create_pending_command ctx id device kind asset event expires fields db ≡ ok (c, db')
    → Adds db (c ∷ []) db'
create-Adds ctx id device kind asset event expires fields db h =
    let (n, t, _, _, it, stored) =
      create_parts ctx id device kind asset event expires fields db h in
    (
      stored,
      (subst IsCreated (sym it) (made ctx id device (some n) kind asset event expires t), tt),
    )

attempt-Adds :
    (m : Result CreateError (DeviceCommand × CommandStore)) (db : CommandStore)
    {v : List DeviceCommand × CommandStore}
    → ((c : DeviceCommand) (db' : CommandStore) → m ≡ ok (c, db') → Adds db (c ∷ []) db')
    → attempt m db ≡ ok v
    → Adds db v.0 v.1
attempt-Adds (ok (c, db')) db {v} adds h =
    subst (λ (w : List DeviceCommand × CommandStore). Adds db w.0 w.1) (ok-injective h)
      (adds c db' refl)
attempt-Adds (err e) db {v} adds h = elim (Bool-cases (is_value_error e)) [
  | inl b ↦
      let same : ([], db) ≡ v = ok-injective (rw b at h) in
      subst (λ (w : List DeviceCommand × CommandStore). Adds db w.0 w.1) same (Adds-none db)
  | inr b ↦ cc (rw b at h)
]

create_from_specs-Adds :
    (ctx : Context) (id event : ℕ) (asset : Option ℕ) (device : Device)
    (specs : List (DeviceCommandType × PayloadFields)) (db : CommandStore)
    {v : List DeviceCommand × CommandStore}
    → create_from_specs ctx id event asset device specs db ≡ ok v
    → Adds db v.0 v.1
unfolding create_from_specs
create_from_specs-Adds ctx id event asset device [] db h =
    subst (λ (w : List DeviceCommand × CommandStore). Adds db w.0 w.1) (ok-injective h)
      (Adds-none db)
create_from_specs-Adds ctx id event asset device ((kind, fields) ∷ specs) db h =
    let create =
      create_pending_command ctx id device kind asset (some event) none (some fields) db in
    let (exists, _, h₁) = >>=-eq-ok (has_geofence_command event kind db.rows) _ h in
    let (one, e₁, h₂) =
      >>=-eq-ok (if exists then ok ([], db) else attempt create db)
        (λ (step : List DeviceCommand × CommandStore).
          create_from_specs ctx (id + 1) event asset device specs step.1 >>= λ rest.
          ok (step.0 ++ rest.0, rest.1))
        h₁ in
    let (rest, e₂, h₃) =
      >>=-eq-ok (create_from_specs ctx (id + 1) event asset device specs one.1)
        (λ rest. ok (one.0 ++ rest.0, rest.1)) h₂ in
    subst (λ (w : List DeviceCommand × CommandStore). Adds db w.0 w.1) (ok-injective h₃)
      (Adds-both db one.0 rest.0 one.1 rest.1 (first_step exists e₁)
        (create_from_specs-Adds ctx (id + 1) event asset device specs one.1 e₂))
  where
    first_step :
        (exists : Bool) {v : List DeviceCommand × CommandStore}
        → (if exists
            then ok ([], db)
            else attempt
                (create_pending_command ctx id device kind asset (some event) none (some fields) db)
                db)
          ≡ ok v
        → Adds db v.0 v.1
    first_step true e =
        subst (λ (w : List DeviceCommand × CommandStore). Adds db w.0 w.1) (ok-injective e)
          (Adds-none db)
    first_step false e =
        attempt-Adds _ db
          (λ c db' f. create-Adds ctx id device kind asset (some event) none (some fields) db f) e

-- All commands that a commit of the store would leave.
abbrev pub flushed : GeofenceStore → List DeviceCommand
flushed store = (flush store.commands).rows

-- A store with more commands than another one.
abbrev pub Grows : GeofenceStore → GeofenceStore → Type 0
Grows store store' =
    (cs : List DeviceCommand) × (flushed store' ≡ flushed store ++ cs) × All IsCreated cs

Grows-same : (store store' : GeofenceStore) → flushed store' ≡ flushed store → Grows store store'
Grows-same store store' e = ([], e ∙ sym (append-nil (flushed store)), tt)

Grows-trans : (a b c : GeofenceStore) → Grows a b → Grows b c → Grows a c
Grows-trans a b c (cs, e, h) (ds, f, k) = (
  cs ++ ds,
  f ∙ ap (λ xs. xs ++ ds) e ∙ append_assoc (flushed a) cs ds,
  All-append IsCreated cs ds h k,
)

event_commands-Adds :
    (env : Evaluator) (device : Device) (asset : ℕ) (kind : FenceEventType) (store : GeofenceStore)
    {v : List DeviceCommand × CommandStore}
    → event_commands env device asset kind store ≡ ok v
    → Adds (flush store.commands) v.0 v.1
unfolding create_commands_for_geofence_event
event_commands-Adds env device asset kind store h =
    create_from_specs-Adds env.commands store.next_command_id store.next_event_id (some asset)
      device (command_specs_for_event_type kind) (flush store.commands) (wrap-eq-ok creation _ h)

create_event-Grows :
    (env : Evaluator) (device : Device) (asset : ℕ) (location : Location) (row : SpatialResult)
    (kind : Option FenceEventType) (store : GeofenceStore) {store' : GeofenceStore}
    → create_event env device asset location row kind store ≡ ok store'
    → Grows store store'
unfolding create_event
create_event-Grows env device asset location row none store {store'} h =
    Grows-same store store' (ap flushed (sym (ok-injective h)))
create_event-Grows env device asset location row (some kind) store {store'} h =
    let (v, e, h₁) = >>=-eq-ok (event_commands env device asset kind store) _ h in
    let (stored, created) = event_commands-Adds env device asset kind store e in
    (
      v.0,
      ap flushed (sym (ok-injective h₁)) ∙ ap (λ (db : CommandStore). (flush db).rows) stored,
      created,
    )

finish_row-Grows :
    (env : Evaluator) (device : Device) (asset : ℕ) (location : Location) (row : SpatialResult)
    (store : GeofenceStore)
    (found : GeoFenceAssetState × Option GeoFenceStatus × List GeoFenceAssetState)
    {v : GeofenceEvaluationResult × GeofenceStore}
    → finish_row env device asset location row store found ≡ ok v
    → Grows store v.1
unfolding finish_row
finish_row-Grows env device asset location row store (s, previous, states) {v} h =
    let event_type = resolve_event_type previous (status_of env location row) in
    let saved = save_state env device location row s states store in
    let (store', e, h₁) =
      >>=-eq-ok (create_event env device asset location row event_type saved) _ h in
    subst (λ (w : GeofenceEvaluationResult × GeofenceStore). Grows store w.1) (ok-injective h₁)
      (create_event-Grows env device asset location row event_type saved e)

evaluate_rows-Grows :
    (env : Evaluator) (device : Device) (asset : ℕ) (location : Location)
    (rows : List SpatialResult) (store : GeofenceStore)
    {v : List GeofenceEvaluationResult × GeofenceStore}
    → evaluate_rows env device asset location rows store ≡ ok v
    → Grows store v.1
unfolding evaluate_rows evaluate_row
evaluate_rows-Grows env device asset location [] store {v} h =
    Grows-same store v.1 (
      ap (λ (w : List GeofenceEvaluationResult × GeofenceStore). flushed w.1)
        (sym (ok-injective h)))
evaluate_rows-Grows env device asset location (row ∷ rows) store {v} h =
    let (one, e₁, h₁) =
      >>=-eq-ok (evaluate_row env device asset location row store)
        (λ one. evaluate_rows env device asset location rows one.1 >>= λ rest.
          ok (one.0 ∷ rest.0, rest.1))
        h in
    let (rest, e₂, h₂) =
      >>=-eq-ok (evaluate_rows env device asset location rows one.1)
        (λ rest. ok (one.0 ∷ rest.0, rest.1)) h₁ in
    let new =
      new_state env device asset location row (status_of env location row) store.next_state_id in
    let (found, _, e₃) = >>=-eq-ok (get_or_create_asset_state new store.states) _ e₁ in
    subst (λ (w : List GeofenceEvaluationResult × GeofenceStore). Grows store w.1) (ok-injective h₂)
      (Grows-trans store one.1 rest.1
        (finish_row-Grows env device asset location row store found e₃)
        (evaluate_rows-Grows env device asset location rows one.1 e₂))

-- An evaluation only adds commands, and each one as `create_pending_command` makes it.
pub evaluate_location-Grows :
    (env : Evaluator) (spatial : ℕ → Location → List SpatialResult) (device : Device)
    (location : Location) (store : GeofenceStore)
    {v : List GeofenceEvaluationResult × GeofenceStore}
    → evaluate_location env spatial (some device) (some location) store ≡ ok v
    → Grows store v.1
unfolding evaluate_location
evaluate_location-Grows env spatial device location store h = for_asset device.asset_id h
  where
    for_asset :
        (asset : Option ℕ) {v : List GeofenceEvaluationResult × GeofenceStore}
        → evaluate_for env spatial device asset (some location) store ≡ ok v
        → Grows store v.1
    for_asset none {v} e = Grows-same store v.1 (
        ap (λ (w : List GeofenceEvaluationResult × GeofenceStore). flushed w.1)
          (sym (ok-injective (unfold evaluate_for in e))))
    for_asset (some asset) e =
        evaluate_rows-Grows env device asset location (spatial asset location) store
          (unfold evaluate_for in e)
