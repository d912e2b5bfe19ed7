-- ===== src/Event/Lifecycle.antt =====
-- The life of a command, over all that write to it: the dispatcher, the ACKs of its device, and the
-- events `txack` and `ack` of the network.
use tlrs.Prelude.{ℕ, ◌≡◌, ◌⊎◌, inl, inr, refl, sym, ◌∙◌, subst, true, false, Option, String, arith}
use tlrs.Model.Command.{
  DeviceCommand, DeviceCommandType, DeviceCommandStatus, pending, sent, DeviceCommandAckPayload,
  DownlinkPayload, is_terminal, is_pending,
}
use tlrs.Model.Device.{Device}
use tlrs.Command.Ack.{apply_ack_to_command}
use tlrs.Command.Create.{Context, new_command}
use tlrs.Command.Invariant.{IsConsistent}
use tlrs.Command.Dispatcher.{DownlinkEnqueueResult, enqueue_command, expire}
use tlrs.Event.Tables.{ChirpStackTxAckEvent, ChirpStackNetworkAckEvent}
use tlrs.Event.Network.{apply_txack, apply_network_ack}

-- What may happen to a command.
pub data Step : DeviceCommand → DeviceCommand → Type 0 where
  enqueued :
      (now : ℕ) (r : DownlinkEnqueueResult) (c : DeviceCommand)
      → is_pending c.status ≡ true
      → Step c (enqueue_command now r c)
  timed_out : (now : ℕ) (c : DeviceCommand) → is_terminal c.status ≡ false → Step c (expire now c)
  acknowledged :
      (now : ℕ) (p : DeviceCommandAckPayload) (c : DeviceCommand)
      → Step c (apply_ack_to_command now p c)
  transmitted :
      (utcnow : ℕ → ℕ) (e : ChirpStackTxAckEvent) (c : DeviceCommand)
      → Step c (apply_txack utcnow e c)
  received :
      (utcnow : ℕ → ℕ) (e : ChirpStackNetworkAckEvent) (c : DeviceCommand)
      → Step c (apply_network_ack utcnow e c)

pub data Reach (c : DeviceCommand) : DeviceCommand → Type 0 where
  here : Reach c c
  next : {d e : DeviceCommand} → Reach c d → Step d e → Reach c e

pub Reach-trans : {c d e : DeviceCommand} → Reach c d → Reach d e → Reach c e
Reach-trans r here = r
Reach-trans r (next s t) = next (Reach-trans r s) t

-- The specification: a command is dispatched at most once, and then is settled; a settled command
-- may be settled otherwise, but takes part in nothing else.
pub data Life : DeviceCommandStatus → DeviceCommandStatus → Type 0 where
  stay : (s : DeviceCommandStatus) → Life s s
  dispatch : Life pending sent
  settle : (s t : DeviceCommandStatus) → is_terminal t ≡ true → Life s t

Life-trans : {s t u : DeviceCommandStatus} → Life s t → Life t u → Life s u
Life-trans l (stay s) = l
Life-trans (stay s) dispatch = dispatch
Life-trans (settle s t h) dispatch = cc
Life-trans {s} l (settle t u h) = settle s u h

-- What a command is made of stays, and its status follows the specification.
pub record Refines (c d : DeviceCommand) : Type 0 where
  pub same_id : d.id_command ≡ c.id_command
  pub same_uuid : d.command_uuid ≡ c.command_uuid
  pub same_seq : d.command_seq ≡ c.command_seq
  pub same_device : d.device_id ≡ c.device_id
  pub same_topic : d.topic ≡ c.topic
  pub same_payload : d.payload ≡ c.payload
  pub same_expiry : d.expires_at ≡ c.expires_at
  pub life : Life c.status d.status

-- The three ways, on statuses that are computed.
abbrev Follows : DeviceCommandStatus → DeviceCommandStatus → Type 0
Follows s t = (t ≡ s) ⊎ (((s ≡ pending) × (t ≡ sent)) ⊎ (is_terminal t ≡ true))

Life-Follows : (s t : DeviceCommandStatus) → Follows s t → Life s t
Life-Follows s t (inl e) = subst (λ u. Life s u) (sym e) (stay s)
Life-Follows s t (inr (inl (e, f))) =
    subst (λ u. Life u t) (sym e) (subst (λ u. Life pending u) (sym f) dispatch)
Life-Follows s t (inr (inr h)) = settle s t h

Step-Follows : {c d : DeviceCommand} → Step c d → Follows c.status d.status
unfolding enqueue_command apply_ack_to_command apply_txack apply_network_ack
Step-Follows (enqueued now r c h) = ground arith
Step-Follows (timed_out now c h) = ground arith
Step-Follows (acknowledged now p c) = ground arith
Step-Follows (transmitted utcnow e c) = ground arith
Step-Follows (received utcnow e c) = ground arith

Step-Refines : {c d : DeviceCommand} → Step c d → Refines c d
unfolding enqueue_command apply_ack_to_command apply_txack apply_network_ack
Step-Refines {c} {d} (enqueued now r x h) =
    let l = Life-Follows c.status d.status (Step-Follows (enqueued now r x h)) in ground (arith, l)
Step-Refines {c} {d} (timed_out now x h) =
    let l = Life-Follows c.status d.status (Step-Follows (timed_out now x h)) in ground (arith, l)
Step-Refines {c} {d} (acknowledged now p x) =
    let l = Life-Follows c.status d.status (Step-Follows (acknowledged now p x)) in
    ground (arith, l)
Step-Refines {c} {d} (transmitted utcnow e x) =
    let l = Life-Follows c.status d.status (Step-Follows (transmitted utcnow e x)) in
    ground (arith, l)
Step-Refines {c} {d} (received utcnow e x) =
    let l = Life-Follows c.status d.status (Step-Follows (received utcnow e x)) in ground (arith, l)

Step-IsConsistent : {c d : DeviceCommand} → Step c d → IsConsistent c → IsConsistent d
unfolding enqueue_command apply_ack_to_command apply_txack apply_network_ack
Step-IsConsistent (enqueued now r c h) k = ground arith
Step-IsConsistent (timed_out now c h) k = ground arith
Step-IsConsistent (acknowledged now p c) k = ground arith
Step-IsConsistent (transmitted utcnow e c) k = ground arith
Step-IsConsistent (received utcnow e c) k = ground arith

Refines-trans : {c d e : DeviceCommand} → Refines c d → Refines d e → Refines c e
Refines-trans h k = record {
  same_id = k.same_id ∙ h.same_id;
  same_uuid = k.same_uuid ∙ h.same_uuid;
  same_seq = k.same_seq ∙ h.same_seq;
  same_device = k.same_device ∙ h.same_device;
  same_topic = k.same_topic ∙ h.same_topic;
  same_payload = k.same_payload ∙ h.same_payload;
  same_expiry = k.same_expiry ∙ h.same_expiry;
  life = Life-trans h.life k.life;
}

Refines-refl : (c : DeviceCommand) → Refines c c
Refines-refl c = record {
  same_id = refl;
  same_uuid = refl;
  same_seq = refl;
  same_device = refl;
  same_topic = refl;
  same_payload = refl;
  same_expiry = refl;
  life = stay c.status;
}

-- However a command is dispatched, timed out, acknowledged by its device, and reported transmitted
-- or received by the network, in any order: its key, uuid, number, device, topic, payload and
-- expiry stay, and its status is the one before, or sent where it was pending, or settled.
pub Reach-Refines : {c d : DeviceCommand} → Reach c d → Refines c d
Reach-Refines {c} here = Refines-refl c
Reach-Refines (next r s) = Refines-trans (Reach-Refines r) (Step-Refines s)

Reach-IsConsistent : {c d : DeviceCommand} → Reach c d → IsConsistent c → IsConsistent d
Reach-IsConsistent here h = h
Reach-IsConsistent (next r s) h = Step-IsConsistent s (Reach-IsConsistent r h)

-- The times of a command agree with its status in every state that it can reach from its creation.
pub created-IsConsistent :
    (ctx : Context) (id : ℕ) (device : Device) (seq : Option ℕ) (kind : DeviceCommandType)
    (asset event expires : Option ℕ) (transport : String × DownlinkPayload) {d : DeviceCommand}
    → Reach (new_command ctx id device seq kind asset event expires transport) d
    → IsConsistent d
created-IsConsistent ctx id device seq kind asset event expires transport r =
    Reach-IsConsistent r (ground arith)
