-- ===== src/Command/Dispatcher/Total.antt =====
-- When a cycle raises.
use tlrs.Prelude.{ℕ, zero, suc, ◌≡◌, Bool, false, true, none, List, inl, inr, Option-cases}
use tlrs.Model.Command.{DeviceCommand}
use tlrs.Command.Dispatcher.{Environment, next_pending, dispatch_pending, process_once}
use tlrs.Command.Dispatcher.Rows.{dispatch_none, dispatch_step, after_round}

dispatch_pending_raised :
    (env : Environment) (n k : ℕ) (rows : List DeviceCommand)
    → (dispatch_pending env n k rows).raised ≡ true
    → (j : ℕ) × (c : DeviceCommand) × (env.transport j c ≡ none)
dispatch_pending_raised env zero k rows h =
    let no : ◌≡◌ {A = Bool} false true = unfold dispatch_pending in h in cc no
dispatch_pending_raised env (suc n) k rows h = elim (Option-cases (next_pending env k rows)) [
  | inl e ↦ cc (rw (dispatch_none env n k rows e) at h)
  | inr (c, e) ↦ elim (Option-cases (env.transport k c)) [
    | inl gone ↦ (k, c, gone)
    | inr (r, answered) ↦
        dispatch_pending_raised env n (suc k) (after_round env k r c rows)
          (rw (dispatch_step env n k rows e answered) at h)
  ]
]

-- A cycle raises only at a command for which the transport did.
pub process_once_raised :
    (env : Environment) (rows : List DeviceCommand)
    → (process_once env rows).raised ≡ true
    → (j : ℕ) × (c : DeviceCommand) × (env.transport j c ≡ none)
unfolding process_once
process_once_raised env rows h = dispatch_pending_raised env _ 0 _ h
