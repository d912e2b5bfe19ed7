-- ===== src/Command/Sequence/Room.antt =====
-- device_command_sequence_service.py: numbers are given out as long as there is room.
use tlrs.Prelude.{ℕ, suc, ◌+◌, ◌≡◌, ◌≤◌, refl, Option, none, some, List, [], ◌∷◌, ◌++◌, ok, arith}
use tlrs.Model.Command.{DeviceCommand}
use tlrs.Command.Sequence.{
  CommandStore, allocate_next_command_seq, max_command_seq, last_command_seq, prefer_pending,
  next_seq, max_opt,
}

-- The largest number in use, stored or pending.
unfoldable pub last_used : ℕ → CommandStore → Option ℕ
last_used device_id db =
    prefer_pending (last_command_seq device_id db.rows) (last_command_seq device_id db.pending)

-- `k` more numbers are left after the last one in use.
abbrev pub HasRoom : ℕ → Option ℕ → Type 0
HasRoom k none = k ≤ max_command_seq
HasRoom k (some m) = m + k ≤ max_command_seq

last_command_seq-append :
    (device_id : ℕ) (xs ys : List DeviceCommand)
    → last_command_seq device_id (xs ++ ys)
      ≡ max_opt (last_command_seq device_id xs) (last_command_seq device_id ys)
unfolding last_command_seq
last_command_seq-append device_id [] ys = refl
last_command_seq-append device_id (x ∷ xs) ys =
    ground (arith, last_command_seq-append device_id xs ys)

abbrev next_number : Option ℕ → ℕ
next_number none = 1
next_number (some m) = m + 1

next_number_room :
    (k : ℕ) (last : Option ℕ)
    → HasRoom (suc k) last
    → (next_seq last ≡ ok (next_number last))
      × (1 ≤ next_number last)
      × HasRoom k (some (next_number last))
unfolding next_seq
next_number_room k none h = ground arith
next_number_room k (some m) h = ground arith

prefer_pending_next :
    (a b : Option ℕ)
    → let n = next_number (prefer_pending a b) in prefer_pending a (max_opt b (some n)) ≡ some n
unfolding prefer_pending
prefer_pending_next none none = refl
prefer_pending_next none (some p) = ground arith
prefer_pending_next (some l) none = ground arith
prefer_pending_next (some l) (some p) = ground arith

last_command_seq_one :
    (device_id n : ℕ) (c : DeviceCommand)
    → c.device_id ≡ device_id
    → c.command_seq ≡ some n
    → last_command_seq device_id (c ∷ []) ≡ some n
unfolding last_command_seq
last_command_seq_one device_id n c hd hs = ground arith

-- With room, the service gives out the next number, and it becomes the last one in use.
pub allocate_with_room :
    (device_id k : ℕ) (db : CommandStore)
    → HasRoom (suc k) (last_used device_id db)
    → (n : ℕ) × (allocate_next_command_seq device_id db ≡ ok n)
      × (1 ≤ n)
      × HasRoom k (some n)
      × ((c : DeviceCommand)
          → c.device_id ≡ device_id
          → c.command_seq ≡ some n
          → last_used device_id (record { rows = db.rows; pending = db.pending ++ (c ∷ []) })
            ≡ some n)
unfolding last_used allocate_next_command_seq
allocate_with_room device_id k db room =
    let a = last_command_seq device_id db.rows in
    let b = last_command_seq device_id db.pending in
    let n = next_number (prefer_pending a b) in
    let (next, low, high) = next_number_room k (prefer_pending a b) room in
    (
      n,
      next,
      low,
      high,
      λ c hd hs.
          rw
            (
              last_command_seq-append device_id db.pending (c ∷ []),
              last_command_seq_one device_id n c hd hs,
            )
            (prefer_pending_next a b),
    )
