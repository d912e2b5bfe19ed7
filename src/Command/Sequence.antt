-- ===== src/Command/Sequence.antt =====
-- src/service/device_command_sequence_service.py: the sequence numbers of a device.
pub mod Fresh
pub mod Room
use tlrs.Prelude.{
  ℕ, ◌+◌, ◌≤◌, ◌<◌, ◌≡◌, ◌≢◌, Bool, true, false, ◌&&◌, Option, none, some, List, [], ◌∷◌, ◌++◌, max,
  leb, ltb, ◌==◌, if◌then◌else◌, Result, ok, err, is_some,
}
use tlrs.Model.Command.{DeviceCommand}

-- The table `device_commands`, and the commands of `session.new`, which no query sees: the session
-- has `autoflush=False`.
pub record CommandStore : Type 0 where
  pub rows : List DeviceCommand
  pub pending : List DeviceCommand

abbrev min_command_seq : ℕ
min_command_seq = 1

abbrev pub max_command_seq : ℕ
max_command_seq = 65535

-- `DeviceCommandSequenceError`
pub data SequenceError : Type 0 where
  no_command_seq_available : SequenceError

abbrev pub max_opt : Option ℕ → Option ℕ → Option ℕ
max_opt none b = b
max_opt (some a) none = some a
max_opt (some a) (some b) = some (max a b)

-- The sequence number of a command, if it is the device's.
abbrev pub seq_of : ℕ → DeviceCommand → Option ℕ
seq_of device_id c = if c.device_id == device_id then c.command_seq else none

-- `SELECT max(command_seq)` over the device's commands: `_get_last_command_seq` on the rows, and
-- the `max` of `_get_pending_last_command_seq` on the pending ones
unfoldable pub last_command_seq : ℕ → List DeviceCommand → Option ℕ
last_command_seq device_id [] = none
last_command_seq device_id (c ∷ rows) =
    max_opt (seq_of device_id c) (last_command_seq device_id rows)

-- The `if` on the pending number in `allocate_next_command_seq`
unfoldable pub prefer_pending : Option ℕ → Option ℕ → Option ℕ
prefer_pending last none = last
prefer_pending none (some p) = some p
prefer_pending (some l) (some p) = if ltb l p then some p else some l

-- What `allocate_next_command_seq` makes of the last number
unfoldable pub next_seq : Option ℕ → Result SequenceError ℕ
next_seq none = ok min_command_seq
next_seq (some last) =
    if leb max_command_seq last then err no_command_seq_available else ok (last + 1)

-- `allocate_next_command_seq`. The advisory lock serialises the transactions of a device, so the
-- call runs on one state of the table.
unfoldable pub allocate_next_command_seq : ℕ → CommandStore → Result SequenceError ℕ
unfolding next_seq prefer_pending last_command_seq
allocate_next_command_seq device_id db =
    next_seq
      (prefer_pending (last_command_seq device_id db.rows) (last_command_seq device_id db.pending))
