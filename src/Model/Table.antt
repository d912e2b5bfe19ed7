-- ===== src/Model/Table.antt =====
-- Rows with a primary key: what saving a changed row does to the other queries on a table.
use mathlib.Core.List.{Memᴰ}
use tlrs.Prelude.{
  ℕ, ◌≡◌, ◌≢◌, refl, sym, Bool, true, false, List, [], ◌∷◌, ◌==◌, if◌then◌else◌, select, All, arith,
  subst, ==_iff, Bool-cases, inl, inr, ◌∙◌, ap,
}

module _ {A : Type 0} (key : A → ℕ) where
  -- The row with the key of `a` becomes `a`.
  abbrev pub save : A → List A → List A
  save a [] = []
  save a (x ∷ rows) = (if key x == key a then a else x) ∷ save a rows

  -- No two rows have the same key.
  abbrev pub UniqueKeys : List A → Type 0
  UniqueKeys [] = Unit
  UniqueKeys (x ∷ rows) = All (λ y. key y ≢ key x) rows × UniqueKeys rows

  save_absent : (a : A) (rows : List A) → All (λ y. key y ≢ key a) rows → save a rows ≡ rows
  save_absent a [] h = refl
  save_absent a (x ∷ rows) h = ground (arith, save_absent a rows h.1)

  -- A row that another query does not see, before and after it is saved, changes no result of it.
  pub select-save_other :
      (p : A → Bool) (a : A) (rows : List A)
      → p a ≡ false
      → All (λ y. key y ≡ key a → p y ≡ false) rows
      → select p (save a rows) ≡ select p rows
  select-save_other p a [] ha h = refl
  select-save_other p a (x ∷ rows) ha h = elim (Bool-cases (key x == key a)) [
    | inl e ↦ rw (e, ha, h.0 ((==_iff _ _).0 e)) (select-save_other p a rows ha h.1)
    | inr e ↦ rw (e, select-save_other p a rows ha h.1)
  ]

  All-Mem : (P : A → Type 0) (a : A) (rows : List A) → All P rows → Memᴰ a rows → P a
  All-Mem P a [] h m = elim m [ ]
  All-Mem P a (x ∷ rows) h (Memᴰ.head e) = subst P (sym e) h.0
  All-Mem P a (x ∷ rows) h (Memᴰ.tail m) = All-Mem P a rows h.1 m

  -- The only row that a query selects is a row, and the query sees it.
  pub select_one_mem :
      (p : A → Bool) (old : A) (rows : List A)
      → select p rows ≡ old ∷ []
      → Memᴰ old rows × (p old ≡ true)
  select_one_mem p old [] h = cc
  select_one_mem p old (x ∷ rows) h = elim (Bool-cases (p x)) [
    | inl e ↦ let same : x ≡ old = cc (rw e at h) in (Memᴰ.head (sym same), rw same at e)
    | inr e ↦ let (m, seen) = select_one_mem p old rows (rw e at h) in (Memᴰ.tail m, seen)
  ]

  pub unique_rows :
      (p : A → Bool) (old a : A) (rows : List A)
      → UniqueKeys rows
      → Memᴰ old rows
      → key a ≡ key old
      → p old ≡ false
      → All (λ y. key y ≡ key a → p y ≡ false) rows
  unique_rows p old a [] u m k e = tt
  unique_rows p old a (x ∷ rows) u (Memᴰ.head same) k e = (λ _. rw (← same) e, others rows u.0)
    where
      others :
          (ys : List A) → All (λ y. key y ≢ key x) ys → All (λ y. key y ≡ key a → p y ≡ false) ys
      others [] h = tt
      others (y ∷ ys) h = (λ q. absurd (h.0 (q ∙ k ∙ ap key same)), others ys h.1)
  unique_rows p old a (x ∷ rows) u (Memᴰ.tail m) k e = (
    λ q. absurd (All-Mem (λ y. key y ≢ key x) old rows u.0 m (sym (q ∙ k))),
    unique_rows p old a rows u.1 m k e,
  )

  -- A query that the old and the new row both escape gives the same rows after the save.
  pub select-save_ne :
      (p : A → Bool) (old a : A) (rows : List A)
      → UniqueKeys rows
      → Memᴰ old rows
      → key a ≡ key old
      → p old ≡ false
      → p a ≡ false
      → select p (save a rows) ≡ select p rows
  select-save_ne p old a rows u m k e ha =
      select-save_other p a rows ha (unique_rows p old a rows u m k e)

  -- A query that selects one row selects the new one after the save.
  pub select-save_self :
      (p : A → Bool) (old a : A) (rows : List A)
      → UniqueKeys rows
      → select p rows ≡ old ∷ []
      → key a ≡ key old
      → p a ≡ true
      → select p (save a rows) ≡ a ∷ []
  select-save_self p old a [] u h k e = cc
  select-save_self p old a (x ∷ rows) u h k e = elim (Bool-cases (p x)) [
    | inl ex ↦
        let same : x ≡ old = cc (rw ex at h) in
        let rest : select p rows ≡ [] = cc (rw ex at h) in
        let apart : All (λ y. key y ≢ key a) rows =
          subst (λ v. All (λ y. key y ≢ v) rows) (ap key same ∙ sym k) u.0 in
        rw ((==_iff (key x) (key a)).1 (ap key same ∙ sym k), e, save_absent a rows apart, rest)
    | inr ex ↦
        let m = (select_one_mem p old rows (rw ex at h)).0 in
        let apart : key x ≢ key a =
          λ q. All-Mem (λ y. key y ≢ key x) old rows u.0 m (sym (q ∙ k)) in
        ground (arith, apart, ex, select-save_self p old a rows u.1 (rw ex at h) k e)
  ]

  -- A save keeps the keys in their places.
  key_saved : (a x : A) → key (if key x == key a then a else x) ≡ key x
  key_saved a x = elim (Bool-cases (key x == key a)) [
    | inl e ↦ rw e (sym ((==_iff (key x) (key a)).0 e))
    | inr e ↦ rw e refl
  ]

  pub All-save_keys :
      (Q : ℕ → Type 0) (a : A) (rows : List A)
      → All (λ y. Q (key y)) rows
      → All (λ y. Q (key y)) (save a rows)
  All-save_keys Q a [] h = tt
  All-save_keys Q a (x ∷ rows) h = (subst Q (sym (key_saved a x)) h.0, All-save_keys Q a rows h.1)

  pub UniqueKeys-save : (a : A) (rows : List A) → UniqueKeys rows → UniqueKeys (save a rows)
  UniqueKeys-save a [] u = tt
  UniqueKeys-save a (x ∷ rows) u = (
    subst (λ k. All (λ y. key y ≢ k) (save a rows)) (sym (key_saved a x))
        (All-save_keys (λ k. k ≢ key x) a rows u.0),
    UniqueKeys-save a rows u.1,
  )

  -- A query that selects one row, and not the one saved in its place, then selects none.
  pub select-save_gone :
      (p : A → Bool) (old a : A) (rows : List A)
      → UniqueKeys rows
      → select p rows ≡ old ∷ []
      → key a ≡ key old
      → p a ≡ false
      → select p (save a rows) ≡ []
  select-save_gone p old a [] u h k e = cc
  select-save_gone p old a (x ∷ rows) u h k e = elim (Bool-cases (p x)) [
    | inl ex ↦
        let same : x ≡ old = cc (rw ex at h) in
        let rest : select p rows ≡ [] = cc (rw ex at h) in
        let apart : All (λ y. key y ≢ key a) rows =
          subst (λ v. All (λ y. key y ≢ v) rows) (ap key same ∙ sym k) u.0 in
        rw ((==_iff (key x) (key a)).1 (ap key same ∙ sym k), e, save_absent a rows apart) rest
    | inr ex ↦
        let m = (select_one_mem p old rows (rw ex at h)).0 in
        let apart : key x ≢ key a =
          λ q. All-Mem (λ y. key y ≢ key x) old rows u.0 m (sym (q ∙ k)) in
        ground (arith, apart, ex, select-save_gone p old a rows u.1 (rw ex at h) k e)
  ]
