-- ===== src/Event/Frame/Uplink.antt =====
-- The handlers of an up event keep to the frame.
use tlrs.Prelude.{
  ℕ, ◌≡◌, refl, sym, ap, subst, Bool, true, false, Option, some, List, String, Result, ok, err,
  ◌>>=◌, if◌then◌else◌, >>=-eq-ok, ok-injective, Bool-cases, inl, inr, is_some, opt_is,
}
use tlrs.Model.Table.{UniqueKeys}
use tlrs.Model.Update.{All₂}
use tlrs.Model.Device.{Device}
use tlrs.Model.Command.{DeviceCommand, DeviceCommandAckPayload}
use tlrs.Wire.Contract.{location_uplink_fport, status_uplink_fport, command_ack_fport}
use tlrs.Wire.Uplink.{UpEvent}
use tlrs.Wire.Uplink.Location.{NormalizedTelemetry, decode_up_event}
use tlrs.Wire.Uplink.Status.{decode_status_payload_v1}
use tlrs.Command.Create.{wrap}
use tlrs.Command.Create.Keeps.{wrap-eq-ok}
use tlrs.Command.Ack.{AckResult, failed, applied, process_ack, process_ack_by_command_seq}
use tlrs.Geofence.Tables
use tlrs.Geofence.Evaluation.{evaluate_location}
use tlrs.Geofence.Evaluation.Created.{flushed, Grows, evaluate_location-Grows}
use tlrs.Event.Tables.{
  Payload, EventError, Reason, ChirpStackEvent, Kind, EventStore, EventContext, Handled, Location,
}
use tlrs.Event.Guard.{refuse, of_device}
use tlrs.Event.Network.{commands_of}
use tlrs.Event.Location.{
  save_device, seen_at, evaluated, new_location, persist_location, build_realtime_location_data,
}
use tlrs.Event.Uplink.{
  with_profile, build_command_ack_payload, acknowledge, finish_application_ack,
  process_application_ack, process_status, process_location, process_port, process_up,
  validate_up_event,
}
use tlrs.Event.Lifecycle.{Reach}
use tlrs.Event.Evolves.{
  key, Evolves-same, Evolves-new, Evolves-rows, process_ack-Reach, process_ack_by_command_seq-Reach,
}
use tlrs.Event.Frame.{Fine, Post, IsFine, Post->>=, Fine-refuse}

acknowledge-Reach :
    (now : ℕ) (device : Device) (p : DeviceCommandAckPayload) (rows : List DeviceCommand)
    {v : AckResult × List DeviceCommand}
    → UniqueKeys key rows
    → acknowledge now device p rows ≡ ok v
    → All₂ Reach rows v.1
unfolding acknowledge
acknowledge-Reach now device p rows u h = elim (Bool-cases (is_some p.command_id)) [
  | inl e ↦ process_ack-Reach now p rows u (wrap-eq-ok _ (process_ack now p rows) (rw e at h))
  | inr e ↦
      process_ack_by_command_seq-Reach now device.id_device p rows u
        (wrap-eq-ok _ (process_ack_by_command_seq now device.id_device p rows) (rw e at h))
]

finish_application_ack-Fine :
    (now : ℕ) (command_id : Option String) (device : Device)
    (acked : AckResult × List DeviceCommand) (event : ChirpStackEvent) (db : EventStore)
    → event.processed ≡ false
    → All₂ Reach (commands_of db) acked.1
    → Fine event db (finish_application_ack now command_id device acked event db)
unfolding finish_application_ack
finish_application_ack-Fine now command_id device (failed reason, rows) event db new h = (
  refl,
  refl,
  sym new,
  refl,
  refl,
  refl,
  Evolves-rows (commands_of db) rows db.geofence.commands.pending h,
)
finish_application_ack-Fine now command_id device (applied c previous, rows) event db new h = (
  refl,
  refl,
  refl,
  refl,
  refl,
  refl,
  Evolves-rows (commands_of db) rows db.geofence.commands.pending h,
)

process_application_ack-IsFine :
    (ctx : EventContext) (payload : Payload) (up : UpEvent)
    → IsFine (process_application_ack ctx payload up)
unfolding process_application_ack
process_application_ack-IsFine ctx payload up device event db new u =
    on_payload (build_command_ack_payload device payload up)
  where
    on_payload :
        (m : Result EventError DeviceCommandAckPayload)
        → Post event db (elim m [
          | err e ↦
              ok (refuse Kind.command_ack (some device.id_device) (Reason.invalid_ack e) event db)
          | ok p ↦ acknowledge (ctx.utcnow 0) device p (commands_of db) >>= λ acked.
              ok (finish_application_ack (ctx.utcnow 1) p.command_id device acked event db)
        ])
    on_payload (err e) =
        Fine-refuse Kind.command_ack (some device.id_device) (Reason.invalid_ack e) event db new
    on_payload (ok p) =
        Post->>= event db (acknowledge (ctx.utcnow 0) device p (commands_of db)) _ λ acked h.
          finish_application_ack-Fine (ctx.utcnow 1) p.command_id device acked event db new
            (acknowledge-Reach (ctx.utcnow 0) device p (commands_of db) u h)

process_status-IsFine : (ctx : EventContext) (up : UpEvent) → IsFine (process_status ctx up)
unfolding process_status
process_status-IsFine ctx up device event db new u =
    Post->>= event db (wrap EventError.decoding (decode_status_payload_v1 up)) _
      λ _ _. (refl, refl, refl, refl, refl, refl, Evolves-same (flushed db.geofence) _ refl)

-- What storing a location does to the other tables.
persist_location-Grows :
    (ctx : EventContext) (device : Device) (t : NormalizedTelemetry) (received_at : ℕ)
    (db : EventStore) {v : Location × EventStore}
    → persist_location ctx device t received_at db ≡ ok v
    → (v.1.events ≡ db.events)
      × (v.1.next_event_id ≡ db.next_event_id)
      × Grows db.geofence v.1.geofence
unfolding persist_location
persist_location-Grows ctx device t received_at db {v} h =
    let location = new_location device t received_at db.next_location_id in
    let seen = seen_at received_at device in
    let spatial = λ (asset : ℕ) (_ : Tables.Location). ctx.spatial location asset in
    let (r, e, h₁) =
      >>=-eq-ok
        (wrap EventError.evaluation (
          evaluate_location ctx.evaluator spatial (some seen) (some (evaluated location))
            db.geofence))
        _ h in
    let grown =
      evaluate_location-Grows ctx.evaluator spatial seen (evaluated location) db.geofence
        (wrap-eq-ok EventError.evaluation _ e) in
    let it = sym (ok-injective h₁) in
    (
      ap (λ (w : Location × EventStore). w.1.events) it,
      ap (λ (w : Location × EventStore). w.1.next_event_id) it,
      subst (λ (w : Location × EventStore). Grows db.geofence w.1.geofence) (sym it) grown,
    )

process_location-IsFine : (ctx : EventContext) (up : UpEvent) → IsFine (process_location ctx up)
unfolding process_location
process_location-IsFine ctx up device event db new u =
    Post->>= event db (wrap EventError.decoding (decode_up_event up)) _ λ t _.
      Post->>= event db (persist_location ctx device t (ctx.utcnow 0) db) _ λ stored h.
        Post->>= event db (build_realtime_location_data device stored.0 db.assets) _ λ realtime _.
          let (same_events, same_next, (cs, e, created)) =
            persist_location-Grows ctx device t (ctx.utcnow 0) db h in
          (
            refl,
            refl,
            refl,
            refl,
            same_events,
            same_next,
            Evolves-new (flushed db.geofence) (flushed stored.1.geofence) cs e created,
          )

-- A choice by a test.
pub Post-if :
    (event : ChirpStackEvent) (db : EventStore) (b : Bool) (x y : Result EventError Handled)
    → Post event db x
    → Post event db y
    → Post event db (if b then x else y)
Post-if event db true x y h k = h
Post-if event db false x y h k = k

process_port-IsFine :
    (ctx : EventContext) (payload : Payload) (up : UpEvent) → IsFine (process_port ctx payload up)
unfolding process_port
process_port-IsFine ctx payload up device event db new u =
    Post-if event db (opt_is up.f_port command_ack_fport) _ _
      (process_application_ack-IsFine ctx payload up device event db new u)
      (Post-if event db (opt_is up.f_port status_uplink_fport) _ _
        (process_status-IsFine ctx up device event db new u)
        (Post-if event db (opt_is up.f_port location_uplink_fport) _ _
          (process_location-IsFine ctx up device event db new u)
          (Fine-refuse Kind.up (some device.id_device) (Reason.unsupported_f_port up.f_port) event
            db new)))

pub process_up-IsFine :
    (ctx : EventContext) (payload : Payload) (dev_eui : List ℕ)
    → IsFine (process_up ctx payload dev_eui)
unfolding process_up
process_up-IsFine ctx payload dev_eui device event db new u =
    Post->>= event db (validate_up_event payload dev_eui) _ λ up _.
      let device' = with_profile up.device_profile_id device in
      process_port-IsFine ctx payload up device' (of_device device event) (save_device device' db)
        new u
