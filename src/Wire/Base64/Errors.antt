-- ===== src/Wire/Base64/Errors.antt =====
-- Decoding base64 fails with the error that it was given, and with no other one.
use tlrs.Prelude.{
  ℕ, ◌≡◌, refl, subst, Bool, true, false, List, [], ◌∷◌, Result, ok, err, ◌>>=◌, ◌==◌,
  if◌then◌else◌, arith,
}
use tlrs.Wire.Base64.{char_digit, last_group, full_group, b64decode, pad}

-- The one error of a result.
pub data Only {E A : Type 0} : Result E A → E → Type 0 where
  fine : (a : A) (e : E) → Only (ok a) e
  fails : (e : E) → Only (err e) e

pub Only-err :
    {E A : Type 0} (m : Result E A) (e : E) {raised : E} → Only m e → m ≡ err raised → raised ≡ e
Only-err m e (fine a e') same = cc
Only-err m e (fails e') same = cc

Only->>= :
    {E A B : Type 0} (m : Result E A) (k : A → Result E B) (e : E)
    → Only m e
    → ((a : A) → Only (k a) e)
    → Only (m >>= k) e
Only->>= m k e (fine a _) f = f a
Only->>= m k e (fails _) f = fails e

Only-if :
    {E A : Type 0} (b : Bool) (x y : Result E A) (e : E)
    → Only x e
    → Only y e
    → Only (if b then x else y) e
Only-if true x y e h k = h
Only-if false x y e h k = k

Only-of :
    {E A : Type 0} (m : Result E A) (e : E)
    → ((raised : E) → m ≡ err raised → raised ≡ e)
    → Only m e
Only-of (ok a) e f = fine a e
Only-of {A = A} (err r) e f = subst (λ x. Only {A = A} (err r) x) (f r refl) (fails r)

char_digit_error :
    {E : Type 0} (e : E) (c : ℕ) (raised : E) → char_digit e c ≡ err raised → raised ≡ e
unfolding char_digit
char_digit_error e c raised h = ground arith

char_digit-Only : {E : Type 0} (e : E) (c : ℕ) → Only (char_digit e c) e
char_digit-Only e c = Only-of (char_digit e c) e (char_digit_error e c)

last_group-Only :
    {E : Type 0} (e : E) (a b c : ℕ) (rest : List ℕ) → Only (last_group e a b c rest) e
unfolding last_group
last_group-Only e a b c (x ∷ rest) = fails e
last_group-Only e a b c [] = Only->>= (char_digit e a) _ e (char_digit-Only e a) λ x.
    Only->>= (char_digit e b) _ e (char_digit-Only e b) λ y.
      Only-if (c == pad) _ _ e (fine _ e)
        (Only->>= (char_digit e c) _ e (char_digit-Only e c) λ z. fine _ e)

full_group-Only :
    {E : Type 0} (e : E) (a b c d : ℕ) (tail : Result E (List ℕ))
    → Only tail e
    → Only (full_group e a b c d tail) e
unfolding full_group
full_group-Only e a b c d tail h = Only->>= (char_digit e a) _ e (char_digit-Only e a) λ x.
    Only->>= (char_digit e b) _ e (char_digit-Only e b) λ y.
      Only->>= (char_digit e c) _ e (char_digit-Only e c) λ z.
        Only->>= (char_digit e d) _ e (char_digit-Only e d)
          λ w. Only->>= tail _ e h λ rest. fine _ e

pub b64decode-Only : {E : Type 0} (e : E) (text : List ℕ) → Only (b64decode e text) e
unfolding b64decode
b64decode-Only e [] = fine [] e
b64decode-Only e (a ∷ []) = fails e
b64decode-Only e (a ∷ b ∷ []) = fails e
b64decode-Only e (a ∷ b ∷ c ∷ []) = fails e
b64decode-Only e (a ∷ b ∷ c ∷ d ∷ rest) =
    Only-if (d == pad) _ _ e (last_group-Only e a b c rest)
      (full_group-Only e a b c d (b64decode e rest) (b64decode-Only e rest))
