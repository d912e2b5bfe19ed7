-- ===== src/Model/Keys.antt =====
-- Tables whose primary keys come from a sequence, and what an INSERT does to them.
use tlrs.Prelude.{
  ℕ, ◌<◌, ◌≡◌, refl, Bool, Option, none, some, List, [], ◌∷◌, ◌++◌, select, ok, All, arith,
}
use tlrs.Model.Table.{UniqueKeys}
use tlrs.Model.Query.{scalar_one_or_none}

-- The rows of an optional result.
abbrev pub to_list : {A : Type 0} → Option A → List A
to_list none = []
to_list (some a) = a ∷ []

pub scalar_one_or_none-to_list :
    {E A : Type 0} (many : E) (rows : List A) {o : Option A}
    → scalar_one_or_none many rows ≡ ok o
    → rows ≡ to_list o
unfolding scalar_one_or_none
scalar_one_or_none-to_list many [] h = cc
scalar_one_or_none-to_list many (x ∷ []) h = cc
scalar_one_or_none-to_list many (x ∷ y ∷ rows) h = cc

module _ {A : Type 0} (key : A → ℕ) where
  -- The keys are distinct, and below the next one of the sequence.
  pub record IsSequenced (rows : List A) (next : ℕ) : Type 0 where
    pub unique : UniqueKeys key rows
    pub below : All (λ r. key r < next) rows

  pub select-insert :
      (p : A → Bool) (xs ys : List A) → select p (xs ++ ys) ≡ select p xs ++ select p ys
  select-insert p [] ys = refl
  select-insert p (x ∷ xs) ys = ground (arith, select-insert p xs ys)
