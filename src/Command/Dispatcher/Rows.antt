-- ===== src/Command/Dispatcher/Rows.antt =====
-- A relation between rows that both kinds of change respect holds between the rows before and after
-- a cycle of the dispatcher.
use mathlib.Core.List.{Memᴰ}
use tlrs.Prelude.{
  ℕ, zero, suc, ◌-◌, ◌≡◌, inl, inr, Bool, true, false, none, some, List, [], ◌∷◌, select, length,
  arith, Option-cases, All,
}
use tlrs.Model.Update.{
  sort_by, update_rows, All₂, All₂-refl, All₂-update_rows, All-select, All-sort_by, All-take,
  All-first, All-of, UniqueKeys-All₂, All₂-trans,
}
use tlrs.Model.Table.{UniqueKeys}
use tlrs.Model.Command.{DeviceCommand, is_terminal, is_pending}
use tlrs.Command.Dispatcher.{
  DownlinkEnqueueResult, Environment, id_of, created_of, enqueue_command, is_expirable, is_due,
  expire, expired_commands, next_pending, dispatch_pending, process_once,
}

-- The rows that the query of the loop looks through.
All-self : (rows : List DeviceCommand) → All (λ c. Memᴰ c rows) rows
All-self rows = All-of (λ c. Memᴰ c rows) rows (λ x m. m)

abbrev Seen : (DeviceCommand → Bool) → List DeviceCommand → DeviceCommand → Type 0
Seen p rows c = Memᴰ c rows × (p c ≡ true)

expired_commands-Seen :
    (env : Environment) (rows : List DeviceCommand)
    → All (Seen (is_expirable env) rows) (expired_commands env rows)
unfolding expired_commands
expired_commands-Seen env rows =
    let p = is_expirable env in
    All-take (Seen p rows) env.batch_limit (sort_by created_of (select p rows)) (
      All-sort_by created_of (Seen p rows) (select p rows)
        (All-select (λ c. Memᴰ c rows) p rows (All-self rows)))

next_pending-Seen :
    (env : Environment) (k : ℕ) (rows : List DeviceCommand) {c : DeviceCommand}
    → next_pending env k rows ≡ some c
    → Seen (is_due env k) rows c
unfolding next_pending
next_pending-Seen env k rows h =
    let p = is_due env k in
    All-first (Seen p rows) (sort_by created_of (select p rows))
      (All-sort_by created_of (Seen p rows) (select p rows)
        (All-select (λ c. Memᴰ c rows) p rows (All-self rows)))
      h

is_due-is_pending :
    (env : Environment) (k : ℕ) (c : DeviceCommand)
    → is_due env k c ≡ true
    → is_pending c.status ≡ true
is_due-is_pending env k c h = ground arith

is_expirable-not_terminal :
    (env : Environment) (c : DeviceCommand)
    → is_expirable env c ≡ true
    → is_terminal c.status ≡ false
is_expirable-not_terminal env c h = ground arith

-- The table after a round.
pub after_round :
    Environment
    → ℕ
    → DownlinkEnqueueResult
    → DeviceCommand
    → List DeviceCommand
    → List DeviceCommand
after_round env k r c rows = update_rows id_of (c ∷ []) (enqueue_command (env.enqueue_now k) r) rows

-- The three ways that a round of the loop goes.
pub dispatch_none :
    (env : Environment) (n k : ℕ) (rows : List DeviceCommand)
    → next_pending env k rows ≡ none
    → dispatch_pending env (suc n) k rows ≡ record { rows = rows; attempts = []; raised = false }
unfolding dispatch_pending
dispatch_none env n k rows e = rw (e, dispatch_pending)

pub dispatch_raised :
    (env : Environment) (n k : ℕ) (rows : List DeviceCommand) {c : DeviceCommand}
    → next_pending env k rows ≡ some c
    → env.transport k c ≡ none
    → dispatch_pending env (suc n) k rows
      ≡ record { rows = rows; attempts = c.id_command ∷ []; raised = true }
unfolding dispatch_pending
dispatch_raised env n k rows e f = rw (e, dispatch_pending) (rw (f, dispatch_pending))

pub dispatch_step :
    (env : Environment) (n k : ℕ) (rows : List DeviceCommand) {c : DeviceCommand}
    {r : DownlinkEnqueueResult}
    → next_pending env k rows ≡ some c
    → env.transport k c ≡ some r
    → let rest = dispatch_pending env n (suc k) (after_round env k r c rows) in
      dispatch_pending env (suc n) k rows
      ≡ record { rows = rest.rows; attempts = c.id_command ∷ rest.attempts; raised = rest.raised }
unfolding dispatch_pending after_round
dispatch_step env n k rows e f = rw (e, dispatch_pending) (rw (f, dispatch_pending))

module _ (R : DeviceCommand → DeviceCommand → Type 0) (R-refl : (x : DeviceCommand) → R x x)
    (R-trans : (x y z : DeviceCommand) → R x y → R y z → R x z)
    (R-id : (x y : DeviceCommand) → R x y → id_of y ≡ id_of x)
    (expires : (now : ℕ) (c : DeviceCommand) → is_terminal c.status ≡ false → R c (expire now c))
    (enqueues : (now : ℕ) (r : DownlinkEnqueueResult) (c : DeviceCommand)
      → is_pending c.status ≡ true
      → R c (enqueue_command now r c)) where
  All₂-same_id : (xs ys : List DeviceCommand) → All₂ R xs ys → All₂ (λ x y. id_of y ≡ id_of x) xs ys
  All₂-same_id [] [] h = tt
  All₂-same_id [] (y ∷ ys) h = h
  All₂-same_id (x ∷ xs) [] h = h
  All₂-same_id (x ∷ xs) (y ∷ ys) h = (R-id x y h.0, All₂-same_id xs ys h.1)

  UniqueKeys-rows :
      (xs ys : List DeviceCommand) → All₂ R xs ys → UniqueKeys id_of xs → UniqueKeys id_of ys
  UniqueKeys-rows xs ys h u = UniqueKeys-All₂ id_of xs ys (All₂-same_id xs ys h) u

  -- One round of the loop.
  dispatch_one :
      (env : Environment) (k : ℕ) (r : DownlinkEnqueueResult) (rows : List DeviceCommand)
      (c : DeviceCommand)
      → UniqueKeys id_of rows
      → next_pending env k rows ≡ some c
      → All₂ R rows (after_round env k r c rows)
  unfolding after_round
  dispatch_one env k r rows c u e =
      All₂-update_rows id_of R (is_due env k) (enqueue_command (env.enqueue_now k) r) (c ∷ []) rows
        R-refl u (next_pending-Seen env k rows e, tt)
        (λ x m due. enqueues (env.enqueue_now k) r x (is_due-is_pending env k x due))

  dispatch_pending_rows :
      (env : Environment) (n k : ℕ) (rows : List DeviceCommand)
      → UniqueKeys id_of rows
      → All₂ R rows (dispatch_pending env n k rows).rows
  dispatch_pending_rows env zero k rows u = unfold dispatch_pending in All₂-refl R R-refl rows
  dispatch_pending_rows env (suc n) k rows u = elim (Option-cases (next_pending env k rows)) [
    | inl e ↦ rw (dispatch_none env n k rows e) (All₂-refl R R-refl rows)
    | inr (c, e) ↦ elim (Option-cases (env.transport k c)) [
      | inl f ↦ rw (dispatch_raised env n k rows e f) (All₂-refl R R-refl rows)
      | inr (r, f) ↦
          let rows' = after_round env k r c rows in
          let one = dispatch_one env k r rows c u e in
          let rest = dispatch_pending_rows env n (suc k) rows' (UniqueKeys-rows rows rows' one u) in
          rw (dispatch_step env n k rows e f)
            (All₂-trans R R-trans rows rows' (dispatch_pending env n (suc k) rows').rows one rest)
    ]
  ]

  pub process_once_rows :
      (env : Environment) (rows : List DeviceCommand)
      → UniqueKeys id_of rows
      → All₂ R rows (process_once env rows).rows
  unfolding process_once
  process_once_rows env rows u =
      let expired = expired_commands env rows in
      let rows' = update_rows id_of expired (expire env.now) rows in
      let n = env.batch_limit - length expired in
      let first_phase =
        All₂-update_rows id_of R (is_expirable env) (expire env.now) expired rows R-refl u
          (expired_commands-Seen env rows)
          (λ x m h. expires env.now x (is_expirable-not_terminal env x h)) in
      All₂-trans R R-trans rows rows' (dispatch_pending env n 0 rows').rows first_phase
        (dispatch_pending_rows env n 0 rows' (UniqueKeys-rows rows rows' first_phase u))
