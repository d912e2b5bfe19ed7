-- ===== src/Command/Sequence/Fresh.antt =====
-- The numbers that the sequence service gives out are new.
use tlrs.Prelude.{
  ℕ, ◌+◌, ◌≤◌, ◌<◌, ◌≡◌, ◌⊎◌, inl, inr, refl, Option, none, some, List, [], ◌∷◌, ok, err, arith,
  All,
}
use mathlib.Core.List.{Memᴰ}
use tlrs.Model.Command.{DeviceCommand}
use tlrs.Command.Sequence.{
  CommandStore, SequenceError, max_command_seq, seq_of, max_opt, last_command_seq, prefer_pending,
  next_seq, allocate_next_command_seq,
}

-- Every sequence number that the device has used in these commands is below `n`.
abbrev pub IsBelow : ℕ → ℕ → DeviceCommand → Type 0
IsBelow device_id n c = (s : ℕ) → c.device_id ≡ device_id → c.command_seq ≡ some s → s < n

-- Nothing used, or the largest used is at most `n`.
abbrev Bounds : Option ℕ → ℕ → Type 0
Bounds none n = Unit
Bounds (some m) n = m ≤ n

Bounds-max_opt : (a b : Option ℕ) (n : ℕ) → Bounds (max_opt a b) n → Bounds a n × Bounds b n
Bounds-max_opt none b n h = (tt, h)
Bounds-max_opt (some a) none n h = (h, tt)
Bounds-max_opt (some a) (some b) n h = omega arith

seq_of_bound :
    (device_id n : ℕ) (c : DeviceCommand)
    → Bounds (seq_of device_id c) n
    → IsBelow device_id (n + 1) c
seq_of_bound device_id n c h s hd hs = ground arith

last_command_seq_bound :
    (device_id n : ℕ) (rows : List DeviceCommand)
    → Bounds (last_command_seq device_id rows) n
    → All (IsBelow device_id (n + 1)) rows
unfolding last_command_seq
last_command_seq_bound device_id n [] h = tt
last_command_seq_bound device_id n (c ∷ rows) h =
    let (hc, hr) = Bounds-max_opt (seq_of device_id c) (last_command_seq device_id rows) n h in
    (seq_of_bound device_id n c hc, last_command_seq_bound device_id n rows hr)

prefer_pending-Bounds :
    (a b : Option ℕ) (n : ℕ) → Bounds (prefer_pending a b) n → Bounds a n × Bounds b n
unfolding prefer_pending
prefer_pending-Bounds none none n h = (tt, tt)
prefer_pending-Bounds (some l) none n h = (h, tt)
prefer_pending-Bounds none (some p) n h = (tt, h)
prefer_pending-Bounds (some l) (some p) n h = ground arith

next_seq-Bounds :
    (last : Option ℕ) {n : ℕ}
    → next_seq last ≡ ok n
    → (m : ℕ) × (n ≡ m + 1) × Bounds last m × (n ≤ max_command_seq)
unfolding next_seq
next_seq-Bounds none h = (0, ground arith, tt, ground arith)
next_seq-Bounds (some last) h = (last, ground arith, omega arith, ground arith)

-- A number that the service gives out is from 1 to 65535 and larger than every number that a
-- stored or a pending command of the device has.
pub allocate_is_fresh :
    (device_id : ℕ) (db : CommandStore) {n : ℕ}
    → allocate_next_command_seq device_id db ≡ ok n
    → (1 ≤ n)
      × (n ≤ max_command_seq)
      × All (IsBelow device_id n) db.rows
      × All (IsBelow device_id n) db.pending
unfolding allocate_next_command_seq
allocate_is_fresh device_id db h =
    let a = last_command_seq device_id db.rows in
    let b = last_command_seq device_id db.pending in
    let (m, e, bound, top) = next_seq-Bounds (prefer_pending a b) h in
    let (ha, hb) = prefer_pending-Bounds a b m bound in
    (
      omega arith,
      top,
      rw e (last_command_seq_bound device_id m db.rows ha),
      rw e (last_command_seq_bound device_id m db.pending hb),
    )

-- A command of the device with the number `s`, among some commands.
abbrev pub Uses : ℕ → ℕ → List DeviceCommand → Type 0
Uses device_id s cs =
    (c : DeviceCommand) × Memᴰ c cs × (c.device_id ≡ device_id) × (c.command_seq ≡ some s)

seq_of_attained :
    (device_id m : ℕ) (c : DeviceCommand)
    → seq_of device_id c ≡ some m
    → (c.device_id ≡ device_id) × (c.command_seq ≡ some m)
seq_of_attained device_id m c h = ground arith

max_opt_attained : (a b : Option ℕ) (m : ℕ) → max_opt a b ≡ some m → (a ≡ some m) ⊎ (b ≡ some m)
max_opt_attained none b m h = inr h
max_opt_attained (some a) none m h = inl h
max_opt_attained (some a) (some b) m h = ground arith

last_command_seq_attained :
    (device_id m : ℕ) (rows : List DeviceCommand)
    → last_command_seq device_id rows ≡ some m
    → Uses device_id m rows
unfolding last_command_seq
last_command_seq_attained device_id m [] h = cc
last_command_seq_attained device_id m (c ∷ rows) h =
    elim (max_opt_attained (seq_of device_id c) (last_command_seq device_id rows) m h) [
      | inl e ↦ let (hd, hs) = seq_of_attained device_id m c e in (c, Memᴰ.head refl, hd, hs)
      | inr e ↦
          let (x, mem, hd, hs) = last_command_seq_attained device_id m rows e in
          (x, Memᴰ.tail mem, hd, hs)
    ]

prefer_pending_attained :
    (a b : Option ℕ) (m : ℕ) → prefer_pending a b ≡ some m → (a ≡ some m) ⊎ (b ≡ some m)
unfolding prefer_pending
prefer_pending_attained none none m h = cc
prefer_pending_attained (some l) none m h = inl h
prefer_pending_attained none (some p) m h = inr h
prefer_pending_attained (some l) (some p) m h = ground arith

next_seq_err :
    (last : Option ℕ) (e : SequenceError)
    → next_seq last ≡ err e
    → (m : ℕ) × (last ≡ some m) × (max_command_seq ≤ m)
unfolding next_seq
next_seq_err none e h = cc
next_seq_err (some m) e h = (m, refl, ground arith)

-- The service refuses only when it must: then a stored or a pending command of the device has a
-- number of 65535 or more.
pub allocate_exhausted :
    (device_id : ℕ) (db : CommandStore) (e : SequenceError)
    → allocate_next_command_seq device_id db ≡ err e
    → (m : ℕ) × (max_command_seq ≤ m) × (Uses device_id m db.rows ⊎ Uses device_id m db.pending)
unfolding allocate_next_command_seq
allocate_exhausted device_id db e h =
    let a = last_command_seq device_id db.rows in
    let b = last_command_seq device_id db.pending in
    let (m, top, hm) = next_seq_err (prefer_pending a b) e h in
    (
      m,
      hm,
      elim (prefer_pending_attained a b m top) [
        | inl ea ↦ inl (last_command_seq_attained device_id m db.rows ea)
        | inr eb ↦ inr (last_command_seq_attained device_id m db.pending eb)
      ],
    )
