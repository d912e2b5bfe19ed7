-- ===== src/Model/Query.antt =====
-- What SQLAlchemy's `scalar_one_or_none` makes of the rows that a query selects.
use tlrs.Prelude.{Option, none, some, List, [], ◌∷◌, Result, ok, err}

-- `many` is the exception `MultipleResultsFound`.
unfoldable pub scalar_one_or_none : {E A : Type 0} → E → List A → Result E (Option A)
scalar_one_or_none many [] = ok none
scalar_one_or_none many (x ∷ []) = ok (some x)
scalar_one_or_none many (x ∷ y ∷ rows) = err many
