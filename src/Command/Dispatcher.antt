-- ===== src/Command/Dispatcher.antt =====
-- command_dispatcher_worker/main.py: one cycle of the dispatcher. The cycle runs alone on the
-- table, but for the rows that other transactions hold locked, which it skips.
pub mod Rows
pub mod Moves
pub mod Limits
pub mod Total
use Prim.Native.String
use text.Mathlib.Text.{◌==◌ as str_eq}
use tlrs.Prelude.{
  ℕ, zero, suc, ◌+◌, ◌-◌, Bool, true, false, ◌&&◌, not, Option, none, some, List, [], ◌∷◌, leb, ltb,
  if◌then◌else◌, select, take, first, length, String, is_some, is_none, or_else,
}
use tlrs.Model.Update.{sort_by, update_rows}
use tlrs.Model.Command.{
  DeviceCommand, DeviceCommandStatus, Message, message, is_terminal, is_pending,
}

-- `DownlinkEnqueueResult`
pub record DownlinkEnqueueResult : Type 0 where
  pub sent : Bool
  pub queue_item_id : Option String
  pub error_message : Option String
  pub retryable : Bool

-- What a cycle takes from outside. The clocks and locks are read anew at each query, which is
-- numbered; `transport` is the ChirpStack API, and gives `none` where its call raises.
pub record Environment : Type 0 where
  pub batch_limit : ℕ
  pub now : ℕ
  pub pending_now : ℕ → ℕ
  pub enqueue_now : ℕ → ℕ
  pub expired_locked : ℕ → Bool
  pub pending_locked : ℕ → ℕ → Bool
  pub transport : ℕ → DeviceCommand → Option DownlinkEnqueueResult

abbrev pub id_of : DeviceCommand → ℕ
id_of c = c.id_command

abbrev pub created_of : DeviceCommand → ℕ
created_of c = c.created_at

-- `text[:n]`
abbrev truncate : ℕ → String → String
truncate zero s = ""
truncate (suc n) String.[] = ""
truncate (suc n) (String.◌∷◌ c s) = String.◌∷◌ c (truncate n s)

-- `result.error_message or "Command enqueue failed"`
abbrev error_or_default : Option String → String
error_or_default none = "Command enqueue failed"
error_or_default (some s) = if str_eq s "" then "Command enqueue failed" else s

-- `if result.queue_item_id: …`
abbrev new_queue_item : Option String → Option String → Option String
new_queue_item none old = old
new_queue_item (some s) old = if str_eq s "" then old else some s

-- `_enqueue_command`, behind the call of the transport
unfoldable pub enqueue_command : ℕ → DownlinkEnqueueResult → DeviceCommand → DeviceCommand
enqueue_command now r c =
    if r.sent
    then (record c {
      chirpstack_queue_item_id = new_queue_item r.queue_item_id c.chirpstack_queue_item_id;
      status = DeviceCommandStatus.sent;
      sent_at = some now;
      failed_at = none;
      error_message = none;
    })
    else if r.retryable
    then (record c {
      error_message = some (message (truncate 500 (error_or_default r.error_message)));
    })
    else (record c {
      status = DeviceCommandStatus.failed;
      failed_at = some now;
      error_message = some (message (truncate 500 (error_or_default r.error_message)));
    })

-- `expires_at is not None and expires_at <= now`
abbrev has_expired : Option ℕ → ℕ → Bool
has_expired none now = false
has_expired (some t) now = leb t now

-- The query of the expired commands, as a test
abbrev pub is_expirable : Environment → DeviceCommand → Bool
is_expirable env c =
    not (is_terminal c.status)
    && has_expired c.expires_at env.now
    && not (env.expired_locked c.id_command)

-- The query of the next pending command, as a test
abbrev pub is_due : Environment → ℕ → DeviceCommand → Bool
is_due env k c =
    is_pending c.status
    && not (has_expired c.expires_at (env.pending_now k))
    && not (env.pending_locked k c.id_command)

-- The body of the loop over `expired_commands`
abbrev pub expire : ℕ → DeviceCommand → DeviceCommand
expire now c = record c {
  status = DeviceCommandStatus.expired;
  failed_at = some now;
  error_message = some (message "Command expired before application ACK");
}

-- `expired_commands`
unfoldable pub expired_commands : Environment → List DeviceCommand → List DeviceCommand
expired_commands env rows =
    take env.batch_limit (sort_by created_of (select (is_expirable env) rows))

-- The command that the k-th query of the loop gives
unfoldable pub next_pending : Environment → ℕ → List DeviceCommand → Option DeviceCommand
next_pending env k rows = first (sort_by created_of (select (is_due env k) rows))

-- A cycle: the table that it leaves, the ids handed to the transport, and whether it raised.
pub record Cycle : Type 0 where
  pub rows : List DeviceCommand
  pub attempts : List ℕ
  pub raised : Bool

-- `for _ in range(remaining_limit)`, from the k-th query on
unfoldable pub dispatch_pending : Environment → ℕ → ℕ → List DeviceCommand → Cycle
dispatch_pending env zero k rows = record { rows = rows; attempts = []; raised = false }
dispatch_pending env (suc remaining) k rows = elim (next_pending env k rows) [
  | none ↦ record { rows = rows; attempts = []; raised = false }
  | some c ↦ elim (env.transport k c) [
    | none ↦ record { rows = rows; attempts = c.id_command ∷ []; raised = true }
    | some r ↦
        let rest =
          dispatch_pending env remaining (suc k)
            (update_rows id_of (c ∷ []) (enqueue_command (env.enqueue_now k) r) rows) in
        record { rows = rest.rows; attempts = c.id_command ∷ rest.attempts; raised = rest.raised }
  ]
]

-- `process_once`
unfoldable pub process_once : Environment → List DeviceCommand → Cycle
unfolding expired_commands
process_once env rows =
    let expired = expired_commands env rows in
    dispatch_pending env (env.batch_limit - length expired) 0
      (update_rows id_of expired (expire env.now) rows)
