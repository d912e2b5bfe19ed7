-- ===== src/Event/Frame/Network.antt =====
-- The handlers of the events `txack` and `ack` keep to the frame.
use tlrs.Prelude.{ℕ, ◌≡◌, refl, Bool, false, Option, none, some, List, String, ok, arith}
use tlrs.Model.Table.{UniqueKeys}
use tlrs.Model.Device.{Device}
use tlrs.Model.Command.{DeviceCommand}
use tlrs.Event.Tables.{Payload, Reason, ChirpStackEvent, Kind, EventStore, EventContext}
use tlrs.Event.Guard.{validated, of_device}
use tlrs.Event.Network.{
  Resolution, unresolved, resolved, commands_of, resolve_command, finish_network, apply_txack,
  apply_network_ack, txack_event_after, network_ack_event_after, normalize_tx_status, process_txack,
  process_network_ack,
}
use tlrs.Event.Lifecycle.{Reach, here, next, transmitted, received}
use tlrs.Event.Evolves.{key, Evolves-rows, saved-Reach}
use tlrs.Event.Frame.{Fine, IsFine, Post->>=, Fine-refuse, resolve_found}

-- A change of an event that keeps what identifies it.
abbrev pub Keeps : (ChirpStackEvent → ChirpStackEvent) → Type 0
Keeps after =
    (e : ChirpStackEvent)
    → ((after e).id ≡ e.id) × ((after e).deduplication_id ≡ e.deduplication_id)

finish_network-Fine :
    (kind : Kind) (change : DeviceCommand → DeviceCommand)
    (after : ChirpStackEvent → ChirpStackEvent) (device : Device) (item : Option String)
    (missing not_found : Reason) (found : Resolution) (event : ChirpStackEvent) (db : EventStore)
    → ((c : DeviceCommand) → Reach c (change c))
    → Keeps after
    → event.processed ≡ false
    → UniqueKeys key (commands_of db)
    → resolve_command device.id_device item missing not_found (commands_of db) ≡ ok found
    → Fine event db (finish_network kind change after device found event db)
unfolding finish_network
finish_network-Fine kind change after device item missing not_found (unresolved reason) event db
      steps keeps new u e =
    Fine-refuse kind (some device.id_device) reason event db new
finish_network-Fine kind change after device item missing not_found (resolved c) event db steps
      keeps new u e =
    let (q, one) = resolve_found device.id_device item missing not_found (commands_of db) e in
    let (same_id, same_dedup) = keeps (of_device device event) in
    (
      same_id,
      same_dedup,
      refl,
      refl,
      refl,
      refl,
      Evolves-rows (commands_of db) _ db.geofence.commands.pending
          (saved-Reach q c (change c) (commands_of db) u one (steps c)),
    )

txack-Keeps : (tx_status : List ℕ) → Keeps (txack_event_after tx_status)
txack-Keeps tx_status e = ground arith

network_ack-Keeps : (acknowledged : Option Bool) → Keeps (network_ack_event_after acknowledged)
network_ack-Keeps none e = (refl, refl)
network_ack-Keeps (some b) e = (refl, refl)

pub process_txack-IsFine :
    (ctx : EventContext) (payload : Payload) → IsFine (process_txack ctx payload)
unfolding process_txack
process_txack-IsFine ctx payload device event db new u =
    Post->>= event db (validated payload.txack_event) _ λ e _.
      Post->>= event db
        (resolve_command device.id_device e.queue_item_id Reason.txack_queue_item_id_missing
          Reason.txack_queue_item_not_found (commands_of db))
        _
        λ found h.
          finish_network-Fine Kind.txack (apply_txack ctx.utcnow e)
            (txack_event_after (normalize_tx_status e.status)) device e.queue_item_id
            Reason.txack_queue_item_id_missing Reason.txack_queue_item_not_found found event db
            (λ c. next here (transmitted ctx.utcnow e c))
            (txack-Keeps (normalize_tx_status e.status)) new u h

pub process_network_ack-IsFine :
    (ctx : EventContext) (payload : Payload) → IsFine (process_network_ack ctx payload)
unfolding process_network_ack
process_network_ack-IsFine ctx payload device event db new u =
    Post->>= event db (validated payload.ack_event) _ λ e _.
      Post->>= event db
        (resolve_command device.id_device e.queue_item_id Reason.lorawan_ack_queue_item_id_missing
          Reason.lorawan_ack_queue_item_not_found (commands_of db))
        _
        λ found h.
          finish_network-Fine Kind.ack (apply_network_ack ctx.utcnow e)
            (network_ack_event_after e.acknowledged) device e.queue_item_id
            Reason.lorawan_ack_queue_item_id_missing Reason.lorawan_ack_queue_item_not_found found
            event db (λ c. next here (received ctx.utcnow e c)) (network_ack-Keeps e.acknowledged)
            new u h
