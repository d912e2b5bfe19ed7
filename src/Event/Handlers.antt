-- ===== src/Event/Handlers.antt =====
-- Every handler of an event keeps to the frame.
use tlrs.Prelude.{ℕ, ◌≡◌, refl, false, Option, none, some, List}
use tlrs.Model.Text.{codes, same_text}
use tlrs.Model.Table.{UniqueKeys}
use tlrs.Model.Device.{Device}
use tlrs.Wire.Topic.{ChirpStackTopicInfo}
use tlrs.Geofence.Evaluation.Created.{flushed}
use tlrs.Event.Tables.{Payload, Reason, ChirpStackEvent, Kind, EventStore, EventContext}
use tlrs.Event.Guard.{Handler, get_device}
use tlrs.Event.Network.{
  commands_of, process_txack, process_network_ack, process_txack_event, process_network_ack_event,
}
use tlrs.Event.Uplink.{process_up, process_up_event}
use tlrs.Event.Service.{
  join_device, log_device, if_device, process_join_event, process_log_event, process_event,
}
use tlrs.Event.Evolves.{key, Evolves-same}
use tlrs.Event.Frame.{Post, IsFine, Post->>=, Fine-refuse, Post-for_application, Post-for_device}
use tlrs.Event.Frame.Network.{process_txack-IsFine, process_network_ack-IsFine}
use tlrs.Event.Frame.Uplink.{Post-if, process_up-IsFine}

join_device-IsFine : (ctx : EventContext) → IsFine (join_device ctx)
unfolding join_device
join_device-IsFine ctx device event db new u =
    (refl, refl, refl, refl, refl, refl, Evolves-same (flushed db.geofence) _ refl)

log_device-IsFine : IsFine log_device
unfolding log_device
log_device-IsFine device event db new u =
    (refl, refl, refl, refl, refl, refl, Evolves-same (flushed db.geofence) _ refl)

Post-if_device :
    (kind : Kind) (application_id : List ℕ) (handler : Handler)
    → IsFine handler
    → (event : ChirpStackEvent) (db : EventStore) (device : Option Device) → event.processed ≡ false
    → UniqueKeys key (commands_of db)
    → Post event db (if_device kind application_id handler event db device)
Post-if_device kind application_id handler fine event db none new u =
    (refl, refl, refl, refl, refl, refl, Evolves-same (flushed db.geofence) _ refl)
Post-if_device kind application_id handler fine event db (some device) new u =
    Post-for_application kind application_id handler fine device event db new u

-- Whatever the event is.
pub process_event-Post :
    (ctx : EventContext) (info : ChirpStackTopicInfo) (payload : Payload) (event : ChirpStackEvent)
    (db : EventStore)
    → event.processed ≡ false
    → UniqueKeys key (commands_of db)
    → Post event db (process_event ctx info payload event db)
unfolding process_event process_up_event process_join_event process_log_event process_txack_event
    process_network_ack_event
process_event-Post ctx info payload event db new u =
    let kind = info.event_type in
    let app = info.application_id in
    let device = get_device info.dev_eui db.devices in
    Post-if event db (same_text kind (codes "up")) _ _
      (Post->>= event db device _ λ d _.
        Post-for_device Kind.location Kind.up app (process_up ctx payload info.dev_eui)
          (process_up-IsFine ctx payload info.dev_eui) d event db new u)
      (Post-if event db (same_text kind (codes "join")) _ _
        (Post->>= event db device _ λ d _.
          Post-if_device Kind.join app (join_device ctx) (join_device-IsFine ctx) event db d new u)
        (Post-if event db (same_text kind (codes "log")) _ _
          (Post->>= event db device _
            λ d _. Post-if_device Kind.log app log_device log_device-IsFine event db d new u)
          (Post-if event db (same_text kind (codes "txack")) _ _
            (Post->>= event db device _ λ d _.
              Post-for_device Kind.txack Kind.txack app (process_txack ctx payload)
                (process_txack-IsFine ctx payload) d event db new u)
            (Post-if event db (same_text kind (codes "ack")) _ _
              (Post->>= event db device _ λ d _.
                Post-for_device Kind.ack Kind.ack app (process_network_ack ctx payload)
                  (process_network_ack-IsFine ctx payload) d event db new u)
              (Fine-refuse Kind.unsupported none (Reason.unsupported_event_type kind) event db
                new)))))
