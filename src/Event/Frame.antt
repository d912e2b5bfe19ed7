-- ===== src/Event/Frame.antt =====
-- What every handler of an event keeps to.
pub mod Network
pub mod Uplink
use tlrs.Prelude.{
  ℕ, ◌≡◌, refl, sym, ap, ◌∙◌, subst, Bool, true, false, Option, none, some, List, [], ◌∷◌, ◌++◌,
  select, String, Result, ok, err, ◌>>=◌, if◌then◌else◌, >>=-eq-ok, ok-injective, All, Bool-cases,
  Option-cases, arith, inl, inr, is_some, opt_is,
}
use text.Mathlib.Text.{◌==◌ as str_eq}
use tlrs.Model.Text.{codes, same_text}
use tlrs.Model.Query.{scalar_one_or_none}
use tlrs.Model.Keys.{to_list, scalar_one_or_none-to_list}
use tlrs.Model.Table.{UniqueKeys}
use tlrs.Model.Device.{Device}
use tlrs.Model.Command.{DeviceCommand}
use tlrs.Wire.Topic.{ChirpStackTopicInfo}
use tlrs.Geofence.Evaluation.{flush}
use tlrs.Geofence.Evaluation.Created.{flushed}
use tlrs.Event.Tables.{
  Payload, EventError, Reason, ChirpStackEvent, ChirpStackHandleResult, Kind, EventStore,
  EventContext, Handled,
}
use tlrs.Event.Guard.{
  get_device, refuse, Handler, validate_device_application_id, for_application, for_device,
  of_device,
}
use tlrs.Event.Network.{
  Resolution, commands_of, by_queue_item_id, check_device, resolve_command, finish_network,
}
use tlrs.Event.Lifecycle.{Reach}
use tlrs.Event.Evolves.{key, Evolves, Evolves-same, Evolves-rows, saved-Reach}

-- What a handler may do: the event keeps what identifies it, and the result says what the event
-- records; no other event changes; and the commands evolve.
abbrev pub Fine : ChirpStackEvent → EventStore → Handled → Type 0
Fine event db h =
    (h.event.id ≡ event.id)
    × (h.event.deduplication_id ≡ event.deduplication_id)
    × (h.result.success ≡ h.event.processed)
    × (h.result.failure_reason ≡ h.event.error_message)
    × (h.store.events ≡ db.events)
    × (h.store.next_event_id ≡ db.next_event_id)
    × Evolves (flushed db.geofence) (flushed h.store.geofence)

-- If a handler ends without an error, it is fine.
abbrev pub Post : ChirpStackEvent → EventStore → Result EventError Handled → Type 0
Post event db (err e) = Unit
Post event db (ok h) = Fine event db h

-- A handler is fine on a new event, and on commands with distinct keys.
abbrev pub IsFine : Handler → Type 0
IsFine handler =
    (device : Device) (event : ChirpStackEvent) (db : EventStore)
    → event.processed ≡ false
    → UniqueKeys key (commands_of db)
    → Post event db (handler device event db)

pub Post->>= :
    {A : Type 0} (event : ChirpStackEvent) (db : EventStore) (m : Result EventError A)
    (k : A → Result EventError Handled)
    → ((a : A) → m ≡ ok a → Post event db (k a))
    → Post event db (m >>= k)
Post->>= event db (err e) k h = tt
Post->>= event db (ok a) k h = h a refl

pub Fine-refuse :
    (kind : Kind) (device_id : Option ℕ) (reason : Reason) (event : ChirpStackEvent)
    (db : EventStore)
    → event.processed ≡ false
    → Fine event db (refuse kind device_id reason event db)
Fine-refuse kind device_id reason event db new = (
  refl,
  refl,
  sym new,
  refl,
  refl,
  refl,
  Evolves-same (flushed db.geofence) (flushed db.geofence) refl,
)

pub Post-for_application :
    (kind : Kind) (application_id : List ℕ) (handler : Handler)
    → IsFine handler
    → IsFine (for_application kind application_id handler)
unfolding for_application
Post-for_application kind application_id handler fine device event db new u =
    elim (Option-cases (validate_device_application_id device application_id)) [
      | inl e ↦ rw (e, Post) (fine device event db new u)
      | inr (reason, e) ↦
          rw (e, Post)
            (Fine-refuse kind (some device.id_device) reason (of_device device event) db new)
    ]

pub Post-for_device :
    (missing kind : Kind) (application_id : List ℕ) (handler : Handler)
    → IsFine handler
    → (device : Option Device) (event : ChirpStackEvent) (db : EventStore) → event.processed ≡ false
    → UniqueKeys key (commands_of db)
    → Post event db (for_device missing kind application_id handler device event db)
unfolding for_device
Post-for_device missing kind application_id handler fine none event db new u =
    Fine-refuse missing none Reason.device_not_found event db new
Post-for_device missing kind application_id handler fine (some device) event db new u =
    Post-for_application kind application_id handler fine device event db new u

-- The command that an event of the network is about.
check_device_found :
    (device_id : ℕ) (not_found : Reason) (found : Option DeviceCommand) {c : DeviceCommand}
    → check_device device_id not_found found ≡ Resolution.resolved c
    → to_list found ≡ c ∷ []
check_device_found device_id not_found none h = cc
check_device_found device_id not_found (some d) h = ground arith

pub resolve_found :
    (device_id : ℕ) (item : Option String) (missing not_found : Reason) (rows : List DeviceCommand)
    {c : DeviceCommand}
    → resolve_command device_id item missing not_found rows ≡ ok (Resolution.resolved c)
    → (q : DeviceCommand → Bool) × (select q rows ≡ c ∷ [])
unfolding resolve_command
resolve_found device_id none missing not_found rows h = cc
resolve_found device_id (some item) missing not_found rows {c} h =
    elim (Bool-cases (str_eq item "")) [
      | inl b ↦ cc (rw b at h)
      | inr b ↦
          let many = EventError.multiple_results in
          let q = by_queue_item_id item in
          let (found, e, h₁) =
            >>=-eq-ok (scalar_one_or_none many (select q rows))
              (λ found. ok (check_device device_id not_found found)) (rw b at h) in
          (
            q,
            scalar_one_or_none-to_list many (select q rows) e
                ∙ check_device_found device_id not_found found (ok-injective h₁),
          )
    ]
