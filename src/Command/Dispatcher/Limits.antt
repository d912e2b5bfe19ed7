-- ===== src/Command/Dispatcher/Limits.antt =====
-- How much a cycle of the dispatcher does: the commands it expires and the calls it makes of the
-- transport, against its limit.
use tlrs.Prelude.{
  ℕ, zero, suc, ◌+◌, ◌-◌, ◌≤◌, select, inl, inr, List, [], ◌∷◌, take, length, arith, Option-cases,
}
use tlrs.Model.Update.{sort_by, update_rows}
use tlrs.Model.Command.{DeviceCommand}
use tlrs.Command.Dispatcher.{
  Environment, id_of, created_of, is_expirable, expire, expired_commands, next_pending,
  dispatch_pending, process_once,
}
use tlrs.Command.Dispatcher.Rows.{dispatch_none, dispatch_raised, dispatch_step, after_round}

length-take_le : {A : Type 0} (n : ℕ) (xs : List A) → length (take n xs) ≤ n
length-take_le zero xs = omega arith
length-take_le (suc n) [] = omega arith
length-take_le (suc n) (x ∷ xs) = omega (arith, length-take_le n xs)

length-attempts :
    (env : Environment) (n k : ℕ) (rows : List DeviceCommand)
    → length (dispatch_pending env n k rows).attempts ≤ n
length-attempts env zero k rows = unfold dispatch_pending in omega arith
length-attempts env (suc n) k rows = elim (Option-cases (next_pending env k rows)) [
  | inl e ↦ rw (dispatch_none env n k rows e) (omega arith)
  | inr (c, e) ↦ elim (Option-cases (env.transport k c)) [
    | inl f ↦ rw (dispatch_raised env n k rows e f) (omega arith)
    | inr (r, f) ↦
        rw (dispatch_step env n k rows e f)
          (omega (arith, length-attempts env n (suc k) (after_round env k r c rows)))
  ]
]

-- A cycle never does more than its limit: the commands it expires and its calls of the transport
-- are together at most `batch_limit`.
pub process_once_within_limit :
    (env : Environment) (rows : List DeviceCommand)
    → length (expired_commands env rows) + length (process_once env rows).attempts ≤ env.batch_limit
unfolding expired_commands process_once
process_once_within_limit env rows =
    let expired = take env.batch_limit (sort_by created_of (select (is_expirable env) rows)) in
    omega (
      arith,
      length-take_le env.batch_limit (sort_by created_of (select (is_expirable env) rows)),
      length-attempts env (env.batch_limit - length expired) 0
          (update_rows id_of expired (expire env.now) rows),
    )
