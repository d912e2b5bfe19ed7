-- ===== src/Command/Ack/Applied.antt =====
-- An acknowledgement reaches one command, and that one only.

use tlrs.Prelude.{ℕ, ◌≡◌, ◌≢◌, ◌⊎◌, refl, false, some, List, [], ◌∷◌, select, ok, arith}
use tlrs.Model.Table.{save, UniqueKeys, select-save_self, select-save_ne, select_one_mem}
use tlrs.Model.Command.{DeviceCommand, DeviceCommandAckStatus, DeviceCommandAckPayload}
use tlrs.Command.Ack.{
  applied, apply_status, apply_ack_to_command, by_device_and_seq, process_ack_by_command_seq,
}

abbrev pub id_of : DeviceCommand → ℕ
id_of c = c.id_command

-- An ACK keeps what identifies a command.
apply_status_identity :
    (s : DeviceCommandAckStatus) (now : ℕ) (p : DeviceCommandAckPayload) (c : DeviceCommand)
    → let c' = apply_status s now p c in
      (c'.id_command ≡ c.id_command)
      × (c'.device_id ≡ c.device_id)
      × (c'.command_seq ≡ c.command_seq)
apply_status_identity DeviceCommandAckStatus.executed now p c = (refl, refl, refl)
apply_status_identity DeviceCommandAckStatus.duplicate now p c = (refl, refl, refl)
apply_status_identity DeviceCommandAckStatus.expired now p c = (refl, refl, refl)
apply_status_identity DeviceCommandAckStatus.rejected now p c = (refl, refl, refl)
apply_status_identity DeviceCommandAckStatus.failed now p c = (refl, refl, refl)

apply_ack_identity :
    (now : ℕ) (p : DeviceCommandAckPayload) (c : DeviceCommand)
    → let c' = apply_ack_to_command now p c in
      (c'.id_command ≡ c.id_command)
      × (c'.device_id ≡ c.device_id)
      × (c'.command_seq ≡ c.command_seq)
unfolding apply_ack_to_command
apply_ack_identity now p c = apply_status_identity p.status now p c

-- On commands with distinct keys, an acknowledgement by number is applied to the one command of
-- the device with that number: the query that found it then finds the acknowledged command, and
-- the query for any other device or number finds what it found before.
pub process_ack_applied :
    (now device_id seq : ℕ) (p : DeviceCommandAckPayload) (rows : List DeviceCommand)
    {c : DeviceCommand}
    → UniqueKeys id_of rows
    → p.command_seq ≡ some seq
    → select (by_device_and_seq device_id seq) rows ≡ c ∷ []
    → (rows' : List DeviceCommand) × (process_ack_by_command_seq now device_id p rows
        ≡ ok (applied (apply_ack_to_command now p c) c.status, rows'))
      × (select (by_device_and_seq device_id seq) rows' ≡ apply_ack_to_command now p c ∷ [])
      × ((d s : ℕ)
          → (d ≢ device_id) ⊎ (s ≢ seq)
          → select (by_device_and_seq d s) rows' ≡ select (by_device_and_seq d s) rows)
unfolding process_ack_by_command_seq
process_ack_applied now device_id seq p rows {c} u hseq one =
    let c' = apply_ack_to_command now p c in
    let (same_id, same_device, same_seq) = apply_ack_identity now p c in
    let (m, seen) = select_one_mem id_of (by_device_and_seq device_id seq) c rows one in
    (
      save id_of c' rows,
      rw (hseq, one),
      select-save_self id_of (by_device_and_seq device_id seq) c c' rows u one same_id
          (rw (same_device, same_seq) seen),
      λ d s other.
          let unseen : by_device_and_seq d s c ≡ false = ground (arith, seen, other) in
          select-save_ne id_of (by_device_and_seq d s) c c' rows u m same_id unseen
            (rw (same_device, same_seq) unseen),
    )
