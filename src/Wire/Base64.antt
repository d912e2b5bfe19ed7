-- ===== src/Wire/Base64.antt =====
-- Python's `base64.b64encode` and `base64.b64decode(…, validate=True)`, over byte values. Texts are
-- lists of code points; a code point above 127 is in no alphabet, as `encode("ascii")` refuses it.
pub mod RoundTrip
pub mod Errors
use tlrs.Prelude.{
  ℕ, ◌+◌, ◌-◌, ◌*◌, ◌/◌, ◌%◌, Bool, true, ◌&&◌, leb, ltb, ◌==◌, if◌then◌else◌, List, [], ◌∷◌, ◌++◌,
  Result, ok, err, ◌>>=◌,
}

-- `=`, the padding
abbrev pub pad : ℕ
pad = 61

unfoldable pub digit_char : ℕ → ℕ
digit_char n =
    if ltb n 26
    then n + 65
    else if ltb n 52
    then n + 71
    else if ltb n 62
    then n - 4
    else if n == 62
    then 43
    else 47

unfoldable pub char_digit : {E : Type 0} → E → ℕ → Result E ℕ
char_digit e c =
    if leb 65 c && leb c 90
    then ok (c - 65)
    else if leb 97 c && leb c 122
    then ok (c - 71)
    else if leb 48 c && leb c 57
    then ok (c + 4)
    else if c == 43
    then ok 62
    else if c == 47
    then ok 63
    else err e

unfoldable pub b64encode : List ℕ → List ℕ
b64encode [] = []
b64encode (a ∷ []) = digit_char (a / 4) ∷ digit_char (a % 4 * 16) ∷ pad ∷ pad ∷ []
b64encode (a ∷ b ∷ []) =
    digit_char (a / 4) ∷ digit_char (a % 4 * 16 + b / 16) ∷ digit_char (b % 16 * 4) ∷ pad ∷ []
b64encode (a ∷ b ∷ c ∷ rest) =
    digit_char (a / 4)
    ∷ digit_char (a % 4 * 16 + b / 16)
    ∷ digit_char (b % 16 * 4 + c / 64)
    ∷ digit_char (c % 64)
    ∷ b64encode rest

-- A last group with padding: nothing may stand behind it.
unfoldable pub last_group : {E : Type 0} → E → ℕ → ℕ → ℕ → List ℕ → Result E (List ℕ)
last_group e a b c (x ∷ rest) = err e
last_group e a b c [] = do
  x ← char_digit e a
  y ← char_digit e b
  if c == pad
      then ok ((x * 4 + y / 16) ∷ [])
      else char_digit e c >>= λ z. ok ((x * 4 + y / 16) ∷ (y % 16 * 16 + z / 4) ∷ [])

unfoldable pub full_group : {E : Type 0} → E → ℕ → ℕ → ℕ → ℕ → Result E (List ℕ) → Result E (List ℕ)
full_group e a b c d tail = do
  x ← char_digit e a
  y ← char_digit e b
  z ← char_digit e c
  w ← char_digit e d
  rest ← tail
  ok ((x * 4 + y / 16) ∷ (y % 16 * 16 + z / 4) ∷ (z % 4 * 64 + w) ∷ rest)

unfoldable pub b64decode : {E : Type 0} → E → List ℕ → Result E (List ℕ)
unfolding last_group full_group
b64decode e [] = ok []
b64decode e (a ∷ []) = err e
b64decode e (a ∷ b ∷ []) = err e
b64decode e (a ∷ b ∷ c ∷ []) = err e
b64decode e (a ∷ b ∷ c ∷ d ∷ rest) =
    let tail = b64decode e rest in
    if d == pad then last_group e a b c rest else full_group e a b c d tail
