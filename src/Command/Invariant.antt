-- ===== src/Command/Invariant.antt =====
-- What the columns of a command of src/models/device_command.py say together.
use tlrs.Prelude.{◌≡◌, true, none, is_some}
use tlrs.Model.Command.{DeviceCommand, DeviceCommandStatus, pending, sent, acked}

-- The times agree with the status.
pub record IsConsistent (c : DeviceCommand) : Type 0 where
  pub pending_unsent : c.status ≡ pending → c.sent_at ≡ none
  pub pending_unfailed : c.status ≡ pending → c.failed_at ≡ none
  pub pending_unacked : c.status ≡ pending → c.ack_at ≡ none
  pub sent_marked : c.status ≡ sent → is_some c.sent_at ≡ true
  pub sent_unfailed : c.status ≡ sent → c.failed_at ≡ none
  pub acked_marked : c.status ≡ acked → is_some c.ack_at ≡ true
  pub acked_unfailed : c.status ≡ acked → c.failed_at ≡ none
  pub failed_marked : c.status ≡ DeviceCommandStatus.failed → is_some c.failed_at ≡ true
