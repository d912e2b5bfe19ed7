-- ===== src/Command/Ack.antt =====
-- src/service/device_command_ack_service.py: what a device reports of a command.
pub mod Applied
use text.Mathlib.Text.{◌==◌ as str_eq}
use tlrs.Prelude.{
  ℕ, Bool, true, false, ◌&&◌, Option, none, some, List, [], ◌∷◌, ◌==◌, opt_is, or_else,
  if◌then◌else◌, select, String, Result, ok, err, ◌>>=◌,
}
use tlrs.Model.Time.{to_utc_naive}
use tlrs.Model.Query.{scalar_one_or_none}
use tlrs.Model.Table.{save}
use tlrs.Model.Command.{
  DeviceCommand, DeviceCommandStatus, DeviceCommandAckStatus, DeviceCommandAckPayload, Message,
  message, message_or,
}

-- `failure_reason`
pub data AckFailure : Type 0 where
  command_not_found invalid_command_seq command_seq_not_found : AckFailure

-- `DeviceCommandAckResult`: `applied` has `success`, the command and the status before.
pub data AckResult : Type 0 where
  failed : AckFailure → AckResult
  applied : DeviceCommand → DeviceCommandStatus → AckResult

-- The exception of a query that finds two rows where one is expected.
pub data QueryError : Type 0 where
  multiple_results : QueryError

-- The branches of `_apply_ack_to_command`, on the reported status
abbrev pub apply_status :
    DeviceCommandAckStatus → ℕ → DeviceCommandAckPayload → DeviceCommand → DeviceCommand
apply_status DeviceCommandAckStatus.executed now p c = record c {
  status = DeviceCommandStatus.acked;
  ack_at = some (or_else (to_utc_naive p.executed_at) now);
  failed_at = none;
  error_message = p.error_message;
}
apply_status DeviceCommandAckStatus.duplicate now p c = record c {
  status = DeviceCommandStatus.acked;
  ack_at = some (or_else (to_utc_naive p.executed_at) now);
  failed_at = none;
  error_message = p.error_message;
}
apply_status DeviceCommandAckStatus.expired now p c = record c {
  status = DeviceCommandStatus.expired;
  error_message = some (message_or p.error_message (message "Device reported command expired"));
}
apply_status DeviceCommandAckStatus.rejected now p c = record c {
  status = DeviceCommandStatus.failed;
  failed_at = some now;
  error_message = some (message_or p.error_message (message "Device reported command rejected"));
}
apply_status DeviceCommandAckStatus.failed now p c = record c {
  status = DeviceCommandStatus.failed;
  failed_at = some now;
  error_message = some (message_or p.error_message (message "Device reported command failed"));
}

-- `_apply_ack_to_command`: the command as it is left
unfoldable pub apply_ack_to_command : ℕ → DeviceCommandAckPayload → DeviceCommand → DeviceCommand
apply_ack_to_command now p c = apply_status p.status now p c

-- `_get_command_by_device_and_seq`, as a query
abbrev pub by_device_and_seq : ℕ → ℕ → DeviceCommand → Bool
by_device_and_seq device_id seq c = (c.device_id == device_id) && opt_is c.command_seq seq

-- `_get_command_by_uuid`, as a query
abbrev pub by_uuid : String → DeviceCommand → Bool
by_uuid uuid c = str_eq c.command_uuid uuid

-- The end of both operations, on the command that was found
unfoldable pub apply_found :
    ℕ
    → DeviceCommandAckPayload
    → AckFailure
    → List DeviceCommand
    → Option DeviceCommand
    → AckResult × List DeviceCommand
unfolding apply_ack_to_command
apply_found now p missing rows none = (failed missing, rows)
apply_found now p missing rows (some c) =
    let c' = apply_ack_to_command now p c in
    (applied c' c.status, save (λ (r : DeviceCommand). r.id_command) c' rows)

-- `process_ack`; `None` and the empty text are no uuid
unfoldable pub process_ack :
    ℕ
    → DeviceCommandAckPayload
    → List DeviceCommand
    → Result QueryError (AckResult × List DeviceCommand)
unfolding apply_found scalar_one_or_none
process_ack now p rows = elim p.command_id [
  | none ↦ ok (failed command_not_found, rows)
  | some uuid ↦
      if str_eq uuid ""
      then ok (failed command_not_found, rows)
      else scalar_one_or_none multiple_results (select (by_uuid uuid) rows) >>= λ found.
          ok (apply_found now p command_not_found rows found)
]

-- `process_ack_by_command_seq`
unfoldable pub process_ack_by_command_seq :
    ℕ
    → ℕ
    → DeviceCommandAckPayload
    → List DeviceCommand
    → Result QueryError (AckResult × List DeviceCommand)
unfolding apply_found scalar_one_or_none
process_ack_by_command_seq now device_id p rows = elim p.command_seq [
  | none ↦ ok (failed invalid_command_seq, rows)
  | some seq ↦
      scalar_one_or_none multiple_results (select (by_device_and_seq device_id seq) rows)
      >>= λ found. ok (apply_found now p command_seq_not_found rows found)
]
