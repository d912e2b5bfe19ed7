-- ===== src/Wire/Base64/RoundTrip.antt =====
-- base64: what is encoded decodes to the same bytes.
use tlrs.Prelude.{ℕ, ◌+◌, ◌*◌, ◌/◌, ◌%◌, ◌<◌, ◌≡◌, ◌≢◌, refl, List, [], ◌∷◌, ok, arith}
use tlrs.Wire.Bytes.{IsBytes}
use tlrs.Wire.Base64.{pad, digit_char, char_digit, b64encode, last_group, full_group, b64decode}

char_digit-digit_char : {E : Type 0} (e : E) (n : ℕ) → n < 64 → char_digit e (digit_char n) ≡ ok n
unfolding char_digit digit_char
char_digit-digit_char e n h = ground arith

digit_char-ne-pad : (n : ℕ) → digit_char n ≢ pad
unfolding digit_char
digit_char-ne-pad n = ground arith

last_group-one :
    {E : Type 0} (e : E) (a : ℕ)
    → a < 256
    → last_group e (digit_char (a / 4)) (digit_char (a % 4 * 16)) pad [] ≡ ok (a ∷ [])
unfolding last_group
last_group-one e a h =
    ground (arith, char_digit-digit_char e (a / 4), char_digit-digit_char e (a % 4 * 16))

last_group-two :
    {E : Type 0} (e : E) (a b : ℕ)
    → a < 256
    → b < 256
    → last_group e
        (digit_char (a / 4))
        (digit_char (a % 4 * 16 + b / 16))
        (digit_char (b % 16 * 4))
        []
      ≡ ok (a ∷ b ∷ [])
unfolding last_group
last_group-two e a b h k = ground (
  arith,
  char_digit-digit_char e (a / 4),
  char_digit-digit_char e (a % 4 * 16 + b / 16),
  char_digit-digit_char e (b % 16 * 4),
  digit_char-ne-pad (b % 16 * 4),
)

full_group-three :
    {E : Type 0} (e : E) (a b c : ℕ) (rest : List ℕ)
    → a < 256
    → b < 256
    → c < 256
    → full_group e
        (digit_char (a / 4))
        (digit_char (a % 4 * 16 + b / 16))
        (digit_char (b % 16 * 4 + c / 64))
        (digit_char (c % 64))
        (ok rest)
      ≡ ok (a ∷ b ∷ c ∷ rest)
unfolding full_group
full_group-three e a b c rest h k l = ground (
  arith,
  char_digit-digit_char e (a / 4),
  char_digit-digit_char e (a % 4 * 16 + b / 16),
  char_digit-digit_char e (b % 16 * 4 + c / 64),
  char_digit-digit_char e (c % 64),
)

-- Decoding what was encoded gives back the bytes, for every list of bytes.
pub b64decode-b64encode :
    {E : Type 0} (e : E) (bytes : List ℕ) → IsBytes bytes → b64decode e (b64encode bytes) ≡ ok bytes
unfolding b64decode b64encode
b64decode-b64encode e [] bs = refl
b64decode-b64encode e (a ∷ []) bs = last_group-one e a bs.0
b64decode-b64encode e (a ∷ b ∷ []) bs = ground (arith, last_group-two e a b bs.0 bs.1.0)
b64decode-b64encode e (a ∷ b ∷ c ∷ rest) bs = ground (
  arith,
  digit_char-ne-pad (c % 64),
  full_group-three e a b c rest bs.0 bs.1.0 bs.1.1.0,
  b64decode-b64encode e rest bs.1.1.1,
)
