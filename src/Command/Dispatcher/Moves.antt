-- ===== src/Command/Dispatcher/Moves.antt =====
-- What a cycle of the dispatcher does to each row.

use tlrs.Prelude.{ℕ, ◌≡◌, sym, subst, ◌∙◌, Bool, true, false, List, arith}
use tlrs.Model.Update.{All₂}
use tlrs.Model.Table.{UniqueKeys}
use tlrs.Model.Command.{
  DeviceCommand, DeviceCommandStatus, pending, sent, acked, is_terminal, is_pending,
}
use tlrs.Command.Invariant.{IsConsistent}
use tlrs.Command.Dispatcher.Rows.{process_once_rows}
use tlrs.Command.Dispatcher.{
  DownlinkEnqueueResult, Environment, id_of, enqueue_command, expire, process_once,
}

-- The status changes that the dispatcher may make.
abbrev may_become : DeviceCommandStatus → DeviceCommandStatus → Bool
may_become pending pending = true
may_become pending sent = true
may_become pending DeviceCommandStatus.failed = true
may_become pending DeviceCommandStatus.expired = true
may_become sent sent = true
may_become sent DeviceCommandStatus.expired = true
may_become acked acked = true
may_become DeviceCommandStatus.failed DeviceCommandStatus.failed = true
may_become DeviceCommandStatus.expired DeviceCommandStatus.expired = true
may_become _ _ = false

-- A row before and after: the same command for the same device, unchanged once it is terminal.
pub record Moves (c c' : DeviceCommand) : Type 0 where
  pub same_id : c'.id_command ≡ c.id_command
  pub same_device : c'.device_id ≡ c.device_id
  pub same_seq : c'.command_seq ≡ c.command_seq
  pub final : is_terminal c.status ≡ true → c' ≡ c
  pub allowed : may_become c.status c'.status ≡ true
  pub consistent : IsConsistent c → IsConsistent c'

Moves-refl : (c : DeviceCommand) → Moves c c
Moves-refl c = ground arith

may_become_trans :
    (a b c : DeviceCommandStatus)
    → may_become a b ≡ true
    → may_become b c ≡ true
    → may_become a c ≡ true
may_become_trans a b c h k = ground arith

final_trans : (x y z : DeviceCommand) → Moves x y → Moves y z → is_terminal x.status ≡ true → z ≡ x
final_trans x y z h k t =
    let same = h.final t in
    k.final (subst (λ (v : DeviceCommand). is_terminal v.status ≡ true) (sym same) t) ∙ same

Moves-trans : (x y z : DeviceCommand) → Moves x y → Moves y z → Moves x z
Moves-trans x y z h k = record {
  same_id = k.same_id ∙ h.same_id;
  same_device = k.same_device ∙ h.same_device;
  same_seq = k.same_seq ∙ h.same_seq;
  final = final_trans x y z h k;
  allowed = may_become_trans x.status y.status z.status h.allowed k.allowed;
  consistent = λ c. k.consistent (h.consistent c);
}

expire-Moves : (now : ℕ) (c : DeviceCommand) → is_terminal c.status ≡ false → Moves c (expire now c)
expire-Moves now c h = ground arith

enqueue_command-Moves :
    (now : ℕ) (r : DownlinkEnqueueResult) (c : DeviceCommand)
    → is_pending c.status ≡ true
    → Moves c (enqueue_command now r c)
unfolding enqueue_command
enqueue_command-Moves now r c h = ground arith

-- On commands with distinct keys, a cycle keeps the table's commands in their places, changes no
-- terminal one, moves the status of the others only from pending to sent, failed or expired and
-- from sent to expired, and keeps the times of each in agreement with its status.
pub process_once-Moves :
    (env : Environment) (rows : List DeviceCommand)
    → UniqueKeys id_of rows
    → All₂ Moves rows (process_once env rows).rows
process_once-Moves env rows u =
    process_once_rows Moves Moves-refl Moves-trans (λ x y h. h.same_id) expire-Moves
      enqueue_command-Moves env rows u
