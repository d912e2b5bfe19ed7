-- ===== src/Model/Update.antt =====
-- Queries with `ORDER BY … LIMIT`, and changing in place the rows that a query gave.
use mathlib.Core.List.{Memᴰ}
use tlrs.Prelude.{
  ℕ, zero, suc, ◌≡◌, ◌≢◌, inl, inr, refl, sym, subst, Bool, true, false, ◌||◌, List, [], ◌∷◌, ◌++◌,
  map, ◌==◌, leb, if◌then◌else◌, select, take, first, update_where, some, All, Bool-cases, ==_iff,
  ap, ◌∙◌,
}
use tlrs.Model.Table.{UniqueKeys, save}

-- Membership in a list of numbers.
abbrev pub elem : ℕ → List ℕ → Bool
elem k [] = false
elem k (j ∷ js) = (j == k) || elem k js

module _ {A : Type 0} (key : A → ℕ) where
  -- Ordered insertion; equal keys keep the order of the table.
  abbrev pub insert_by : A → List A → List A
  insert_by a [] = a ∷ []
  insert_by a (x ∷ xs) =
      let rest = insert_by a xs in if leb (key a) (key x) then a ∷ x ∷ xs else x ∷ rest

  -- `ORDER BY key ASC`
  unfoldable pub sort_by : List A → List A
  sort_by [] = []
  sort_by (x ∷ xs) = insert_by x (sort_by xs)

  All-insert_by : (P : A → Type 0) (a : A) (xs : List A) → P a → All P xs → All P (insert_by a xs)
  All-insert_by P a [] h hs = (h, tt)
  All-insert_by P a (x ∷ xs) h hs = elim (Bool-cases (leb (key a) (key x))) [
    | inl e ↦ rw e (h, hs)
    | inr e ↦ rw e (hs.0, All-insert_by P a xs h hs.1)
  ]

  pub All-sort_by : (P : A → Type 0) (xs : List A) → All P xs → All P (sort_by xs)
  unfolding sort_by
  All-sort_by P [] h = tt
  All-sort_by P (x ∷ xs) h = All-insert_by P x (sort_by xs) h.0 (All-sort_by P xs h.1)

module _ {A : Type 0} where
  pub All-select :
      (P : A → Type 0) (p : A → Bool) (xs : List A)
      → All P xs
      → All (λ c. P c × (p c ≡ true)) (select p xs)
  All-select P p [] h = tt
  All-select P p (x ∷ xs) h = elim (Bool-cases (p x)) [
    | inl e ↦ rw e ((h.0, e), All-select P p xs h.1)
    | inr e ↦ rw e (All-select P p xs h.1)
  ]

  pub All-take : (P : A → Type 0) (n : ℕ) (xs : List A) → All P xs → All P (take n xs)
  All-take P zero xs h = tt
  All-take P (suc n) [] h = tt
  All-take P (suc n) (x ∷ xs) h = (h.0, All-take P n xs h.1)

  pub All-first : (P : A → Type 0) (xs : List A) {c : A} → All P xs → first xs ≡ some c → P c
  All-first P [] h e = cc
  All-first P (x ∷ xs) {c} h e = subst P (cc) h.0

  pub All-of : (P : A → Type 0) (xs : List A) → ((x : A) → Memᴰ x xs → P x) → All P xs
  All-of P [] f = tt
  All-of P (x ∷ xs) f = (f x (Memᴰ.head refl), All-of P xs (λ y m. f y (Memᴰ.tail m)))

  pub All-Mem : (P : A → Type 0) (xs : List A) {c : A} → All P xs → Memᴰ c xs → P c
  All-Mem P [] h m = elim m [ ]
  All-Mem P (x ∷ xs) h (Memᴰ.head e) = subst P (sym e) h.0
  All-Mem P (x ∷ xs) h (Memᴰ.tail m) = All-Mem P xs h.1 m

  -- Two tables, row by row.
  abbrev pub All₂ : (A → A → Type 0) → List A → List A → Type 0
  All₂ R [] [] = Unit
  All₂ R [] (y ∷ ys) = ⊥
  All₂ R (x ∷ xs) [] = ⊥
  All₂ R (x ∷ xs) (y ∷ ys) = R x y × All₂ R xs ys

  pub All₂-trans :
      (R : A → A → Type 0)
      → ((x y z : A) → R x y → R y z → R x z)
      → (xs ys zs : List A) → All₂ R xs ys
      → All₂ R ys zs
      → All₂ R xs zs
  All₂-trans R t [] [] [] h k = tt
  All₂-trans R t [] [] (z ∷ zs) h k = k
  All₂-trans R t [] (y ∷ ys) zs h k = absurd h
  All₂-trans R t (x ∷ xs) [] zs h k = absurd h
  All₂-trans R t (x ∷ xs) (y ∷ ys) [] h k = k
  All₂-trans R t (x ∷ xs) (y ∷ ys) (z ∷ zs) h k = (t x y z h.0 k.0, All₂-trans R t xs ys zs h.1 k.1)

  pub All₂-refl : (R : A → A → Type 0) → ((x : A) → R x x) → (xs : List A) → All₂ R xs xs
  All₂-refl R r [] = tt
  All₂-refl R r (x ∷ xs) = (r x, All₂-refl R r xs)

  All₂-update_where :
      (R : A → A → Type 0) (hit : A → Bool) (f : A → A) (xs : List A)
      → ((x : A) → R x x)
      → All (λ x. hit x ≡ true → R x (f x)) xs
      → All₂ R xs (update_where hit f xs)
  All₂-update_where R hit f [] r h = tt
  All₂-update_where R hit f (x ∷ xs) r h = elim (Bool-cases (hit x)) [
    | inl e ↦ rw e (h.0 e, All₂-update_where R hit f xs r h.1)
    | inr e ↦ rw e (r x, All₂-update_where R hit f xs r h.1)
  ]

module _ {A : Type 0} (key : A → ℕ) where
  elem_mem : (k : ℕ) (cs : List A) → elem k (map key cs) ≡ true → (c : A) × Memᴰ c cs × (key c ≡ k)
  elem_mem k [] h = cc
  elem_mem k (c ∷ cs) h = elim (Bool-cases (key c == k)) [
    | inl e ↦ (c, Memᴰ.head refl, (==_iff (key c) k).0 e)
    | inr e ↦ let (d, m, q) = elem_mem k cs (rw e at h) in (d, Memᴰ.tail m, q)
  ]

  pub unique_mem :
      (xs : List A) (x y : A) → UniqueKeys key xs → Memᴰ x xs → Memᴰ y xs → key x ≡ key y → x ≡ y
  unique_mem [] x y u m n e = elim m [ ]
  unique_mem (z ∷ xs) x y u (Memᴰ.head p) (Memᴰ.head q) e = p ∙ sym q
  unique_mem (z ∷ xs) x y u (Memᴰ.head p) (Memᴰ.tail n) e =
      absurd (All-Mem (λ w. key w ≢ key z) xs u.0 n (sym e ∙ ap key p))
  unique_mem (z ∷ xs) x y u (Memᴰ.tail m) (Memᴰ.head q) e =
      absurd (All-Mem (λ w. key w ≢ key z) xs u.0 m (e ∙ ap key q))
  unique_mem (z ∷ xs) x y u (Memᴰ.tail m) (Memᴰ.tail n) e = unique_mem xs x y u.1 m n e

  -- The rows that a query gave are changed where they stand, and no other row is.
  abbrev pub update_rows : List A → (A → A) → List A → List A
  update_rows cs f = update_where (λ x. elem (key x) (map key cs)) f

  -- So each row is as it was, or one that the query saw, changed.
  pub All₂-update_rows :
      (R : A → A → Type 0) (p : A → Bool) (f : A → A) (cs rows : List A)
      → ((x : A) → R x x)
      → UniqueKeys key rows
      → All (λ c. Memᴰ c rows × (p c ≡ true)) cs
      → ((x : A) → Memᴰ x rows → p x ≡ true → R x (f x))
      → All₂ R rows (update_rows cs f rows)
  All₂-update_rows R p f cs rows r u seen step =
      All₂-update_where R (λ x. elem (key x) (map key cs)) f rows r
        (All-of (λ x. elem (key x) (map key cs) ≡ true → R x (f x)) rows
          λ x m h.
            let (c, mc, ec) = elem_mem (key x) cs h in
            let (mc', pc) = All-Mem (λ c. Memᴰ c rows × (p c ≡ true)) cs seen mc in
            let same : c ≡ x = unique_mem rows c x u mc' m ec in
            step x m (subst (λ v. p v ≡ true) same pc))

  -- Rows that keep their keys keep them apart.
  pub UniqueKeys-All₂ :
      (xs ys : List A) → All₂ (λ x y. key y ≡ key x) xs ys → UniqueKeys key xs → UniqueKeys key ys
  UniqueKeys-All₂ [] [] h u = tt
  UniqueKeys-All₂ [] (y ∷ ys) h u = absurd h
  UniqueKeys-All₂ (x ∷ xs) [] h u = absurd h
  UniqueKeys-All₂ (x ∷ xs) (y ∷ ys) h u = (apart xs ys h.1 u.0, UniqueKeys-All₂ xs ys h.1 u.1)
    where
      apart :
          (vs bs : List A)
          → All₂ (λ v w. key w ≡ key v) vs bs
          → All (λ v. key v ≢ key x) vs
          → All (λ w. key w ≢ key y) bs
      apart [] [] k n = tt
      apart [] (b ∷ bs) k n = absurd k
      apart (v ∷ vs) [] k n = absurd k
      apart (v ∷ vs) (b ∷ bs) k n = (λ e. n.0 (sym k.0 ∙ e ∙ h.0), apart vs bs k.1 n.1)

  -- What a save does to each row.
  pub All₂-save :
      (R : A → A → Type 0) (old a : A) (rows : List A)
      → ((x : A) → R x x)
      → UniqueKeys key rows
      → Memᴰ old rows
      → key a ≡ key old
      → R old a
      → All₂ R rows (save key a rows)
  All₂-save R old a rows r u m k step = at_each rows (
      All-of (λ x. (key x == key a) ≡ true → R x a) rows
        λ x n e.
          let same : old ≡ x =
            unique_mem rows old x u m n (sym k ∙ sym ((==_iff (key x) (key a)).0 e)) in
          subst (λ v. R v a) same step)
    where
      at_each :
          (xs : List A) → All (λ x. (key x == key a) ≡ true → R x a) xs → All₂ R xs (save key a xs)
      at_each [] h = tt
      at_each (x ∷ xs) h = elim (Bool-cases (key x == key a)) [
        | inl e ↦ rw e (h.0 e, at_each xs h.1)
        | inr e ↦ rw e (r x, at_each xs h.1)
      ]

module _ {A : Type 0} (R : A → A → Type 0) where
  pub All₂-append :
      (xs ys vs ws : List A) → All₂ R xs ys → All₂ R vs ws → All₂ R (xs ++ vs) (ys ++ ws)
  All₂-append [] [] vs ws h k = k
  All₂-append [] (y ∷ ys) vs ws h k = absurd h
  All₂-append (x ∷ xs) [] vs ws h k = absurd h
  All₂-append (x ∷ xs) (y ∷ ys) vs ws h k = (h.0, All₂-append xs ys vs ws h.1 k)
