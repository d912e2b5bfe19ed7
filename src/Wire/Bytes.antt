-- ===== src/Wire/Bytes.antt =====
-- Python's `struct` for the formats that the contract uses: big-endian `B`, `H`, `h` and `i`.
use tlrs.Prelude.{
  ℕ, ◌+◌, ◌-◌, ◌*◌, ◌/◌, ◌%◌, ◌<◌, ◌≡◌, ltb, if◌then◌else◌, List, [], ◌∷◌, All, Result, ok, err,
  arith,
}
use tlrs.Prelude.Int.{ℤ, pos, negsuc}

-- A list of numbers that are bytes.
abbrev pub IsBytes : List ℕ → Type 0
IsBytes = All (λ b. b < 256)

-- `struct.pack(">B", n)` and `struct.pack(">H", n)`, which raise `struct.error` out of range.
unfoldable pub pack_u8 : {E : Type 0} → E → ℕ → Result E (List ℕ)
pack_u8 struct_error n = if ltb n 256 then ok (n ∷ []) else err struct_error

unfoldable pub pack_u16 : {E : Type 0} → E → ℕ → Result E (List ℕ)
pack_u16 struct_error n = if ltb n 65536 then ok (n / 256 ∷ n % 256 ∷ []) else err struct_error

-- `struct.unpack(">H", …)`
abbrev pub u16 : ℕ → ℕ → ℕ
u16 hi lo = hi * 256 + lo

-- The two's complement values of 2 and 4 bytes: `h` and `i`.
abbrev pub i16 : ℕ → ℕ → ℤ
i16 b1 b0 = let n = u16 b1 b0 in if ltb n 32768 then pos n else negsuc (65536 - n - 1)

abbrev pub i32 : ℕ → ℕ → ℕ → ℕ → ℤ
i32 b3 b2 b1 b0 =
    let n = ((b3 * 256 + b2) * 256 + b1) * 256 + b0 in
    if ltb n 2147483648 then pos n else negsuc (4294967296 - n - 1)

pub u16-split : (n : ℕ) → u16 (n / 256) (n % 256) ≡ n
u16-split n = omega arith
