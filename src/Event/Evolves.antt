-- ===== src/Event/Evolves.antt =====
-- What a writer does to the table of commands: each row takes steps of its life, and new ones follow.
use mathlib.Core.List.{append-nil}
use tlrs.Prelude.{
  ℕ, ◌≡◌, sym, ◌∙◌, subst, Bool, Option, none, some, List, [], ◌∷◌, ◌++◌, select, Result, ok, ◌>>=◌,
  >>=-eq-ok, ok-injective, All, Bool-cases, Option-cases, inl, inr,
}
use text.Mathlib.Text.{◌==◌ as str_eq}
use tlrs.Model.Query.{scalar_one_or_none}
use tlrs.Model.Keys.{to_list, scalar_one_or_none-to_list}
use tlrs.Model.Table.{UniqueKeys, save, select_one_mem}
use tlrs.Model.Update.{All₂, All₂-refl, All₂-save, All₂-append}
use tlrs.Model.Command.{DeviceCommand, DeviceCommandAckPayload}
use tlrs.Command.Ack.{
  AckFailure, AckResult, apply_ack_to_command, apply_found, by_uuid, by_device_and_seq, process_ack,
  process_ack_by_command_seq, command_not_found, command_seq_not_found, QueryError,
}
use tlrs.Command.Dispatcher.{Environment, process_once}
use tlrs.Command.Dispatcher.Rows.{process_once_rows}
use tlrs.Geofence.Evaluation.Created.{IsCreated}
use tlrs.Event.Lifecycle.{
  Reach, here, next, Reach-trans, enqueued, timed_out, acknowledged, Reach-Refines,
}

abbrev pub key : DeviceCommand → ℕ
key c = c.id_command

-- Between the commands before and after.
abbrev pub Evolves : List DeviceCommand → List DeviceCommand → Type 0
Evolves rows rows' =
    (kept new : List DeviceCommand) × (rows' ≡ kept ++ new)
    × All₂ Reach rows kept
    × All IsCreated new

All₂-Reach_refl : (rows : List DeviceCommand) → All₂ Reach rows rows
All₂-Reach_refl rows = All₂-refl Reach (λ x. here) rows

pub Evolves-same : (rows rows' : List DeviceCommand) → rows' ≡ rows → Evolves rows rows'
Evolves-same rows rows' e = (rows, [], e ∙ sym (append-nil rows), All₂-Reach_refl rows, tt)

pub Evolves-new :
    (rows rows' new : List DeviceCommand)
    → rows' ≡ rows ++ new
    → All IsCreated new
    → Evolves rows rows'
Evolves-new rows rows' new e h = (rows, new, e, All₂-Reach_refl rows, h)

-- The rows take steps, and the pending commands are as before.
pub Evolves-rows :
    (rows rows' pending : List DeviceCommand)
    → All₂ Reach rows rows'
    → Evolves (rows ++ pending) (rows' ++ pending)
Evolves-rows rows rows' pending h = (
  rows' ++ pending,
  [],
  sym (append-nil (rows' ++ pending)),
  All₂-append Reach rows rows' pending pending h (All₂-Reach_refl pending),
  tt,
)

-- The command that a query found is saved after a step.
pub saved-Reach :
    (p : DeviceCommand → Bool) (c c' : DeviceCommand) (rows : List DeviceCommand)
    → UniqueKeys key rows
    → select p rows ≡ c ∷ []
    → Reach c c'
    → All₂ Reach rows (save key c' rows)
saved-Reach p c c' rows u one r =
    All₂-save key Reach c c' rows (λ x. here) u (select_one_mem key p c rows one).0
      ((Reach-Refines r).same_id) r

apply_found-Reach :
    (now : ℕ) (p : DeviceCommandAckPayload) (missing : AckFailure) (q : DeviceCommand → Bool)
    (rows : List DeviceCommand) (found : Option DeviceCommand)
    → UniqueKeys key rows
    → select q rows ≡ to_list found
    → All₂ Reach rows (apply_found now p missing rows found).1
unfolding apply_found
apply_found-Reach now p missing q rows none u e = All₂-Reach_refl rows
apply_found-Reach now p missing q rows (some c) u e =
    saved-Reach q c (apply_ack_to_command now p c) rows u e (next here (acknowledged now p c))

queried-Reach :
    (now : ℕ) (p : DeviceCommandAckPayload) (missing : AckFailure) (many : QueryError)
    (q : DeviceCommand → Bool) (rows : List DeviceCommand) {v : AckResult × List DeviceCommand}
    → UniqueKeys key rows
    → (scalar_one_or_none many (select q rows) >>= λ found.
        ok (apply_found now p missing rows found))
      ≡ ok v
    → All₂ Reach rows v.1
queried-Reach now p missing many q rows u h =
    let (found, e, h₁) = >>=-eq-ok (scalar_one_or_none many (select q rows)) _ h in
    subst (λ (w : AckResult × List DeviceCommand). All₂ Reach rows w.1) (ok-injective h₁)
      (apply_found-Reach now p missing q rows found u
        (scalar_one_or_none-to_list many (select q rows) e))

unchanged-Reach :
    (rows : List DeviceCommand) (r : AckResult) {v : AckResult × List DeviceCommand}
    → ◌≡◌ {A = Result QueryError (AckResult × List DeviceCommand)} (ok (r, rows)) (ok v)
    → All₂ Reach rows v.1
unchanged-Reach rows r h =
    subst (λ (w : AckResult × List DeviceCommand). All₂ Reach rows w.1) (ok-injective h)
      (All₂-Reach_refl rows)

pub process_ack-Reach :
    (now : ℕ) (p : DeviceCommandAckPayload) (rows : List DeviceCommand)
    {v : AckResult × List DeviceCommand}
    → UniqueKeys key rows
    → process_ack now p rows ≡ ok v
    → All₂ Reach rows v.1
unfolding process_ack
process_ack-Reach now p rows u h = elim (Option-cases p.command_id) [
  | inl e ↦ unchanged-Reach rows (AckResult.failed command_not_found) (rw e at h)
  | inr (uuid, e) ↦ elim (Bool-cases (str_eq uuid "")) [
    | inl b ↦ unchanged-Reach rows (AckResult.failed command_not_found) (rw (e, b) at h)
    | inr b ↦
        queried-Reach now (record p { command_id = some uuid }) command_not_found
          QueryError.multiple_results (by_uuid uuid) rows u (rw (e, b) at h)
  ]
]

pub process_ack_by_command_seq-Reach :
    (now device_id : ℕ) (p : DeviceCommandAckPayload) (rows : List DeviceCommand)
    {v : AckResult × List DeviceCommand}
    → UniqueKeys key rows
    → process_ack_by_command_seq now device_id p rows ≡ ok v
    → All₂ Reach rows v.1
unfolding process_ack_by_command_seq
process_ack_by_command_seq-Reach now device_id p rows u h = elim (Option-cases p.command_seq) [
  | inl e ↦ unchanged-Reach rows (AckResult.failed AckFailure.invalid_command_seq) (rw e at h)
  | inr (seq, e) ↦
      queried-Reach now (record p { command_seq = some seq }) command_seq_not_found
        QueryError.multiple_results (by_device_and_seq device_id seq) rows u (rw e at h)
]

-- On commands with distinct keys, what a cycle of the dispatcher does to each row is a sequence of
-- steps of its life.
pub process_once-Reach :
    (env : Environment) (rows : List DeviceCommand)
    → UniqueKeys key rows
    → All₂ Reach rows (process_once env rows).rows
process_once-Reach env rows u =
    process_once_rows Reach (λ x. here) (λ x y z h k. Reach-trans h k)
      (λ x y h. (Reach-Refines h).same_id) (λ now c h. next here (timed_out now c h))
      (λ now r c h. next here (enqueued now r c h)) env rows u
