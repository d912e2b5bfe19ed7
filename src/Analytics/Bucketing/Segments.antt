-- ===== src/Analytics/Bucketing/Segments.antt =====
-- What the loop over the segments of a span does to the totals.
use tlrs.Prelude.{
  ℕ, zero, suc, ◌+◌, ◌-◌, ◌*◌, ◌/◌, ◌≤◌, ◌<◌, ◌≡◌, refl, sym, subst, min, true, false, List, [],
  ◌∷◌, ltb, ◌==◌, All, arith, Bool-cases, ltb→lt, inl, inr, ==_iff,
}
use tlrs.Model.Division.{div_add_mod, mod_lt}
use tlrs.Analytics.Bucketing.{Total, floor_bucket_start, add_total, distribute}

-- A total of a bucket of the width, when all time before the frontier was distributed.
pub record IsTotal (width frontier : ℕ) (t : Total) : Type 0 where
  pub index : ℕ
  pub aligned : t.start ≡ index * width
  pub observed : 1 ≤ t.seconds
  pub before : t.start + t.seconds ≤ frontier
  pub fits : t.seconds ≤ width

abbrev pub sum_totals : List Total → ℕ
sum_totals [] = 0
sum_totals (t ∷ totals) = t.seconds + sum_totals totals

floor_bucket_start_bounds :
    (time width : ℕ)
    → 0 < width
    → (floor_bucket_start time width ≤ time) × (time < floor_bucket_start time width + width)
unfolding floor_bucket_start
floor_bucket_start_bounds time width h =
    let whole = div_add_mod time width in
    let rest = mod_lt time width h in omega (arith, whole, rest)

sum-add_total :
    (start seconds : ℕ) (totals : List Total)
    → sum_totals (add_total start seconds totals) ≡ sum_totals totals + seconds
sum-add_total start seconds [] = omega arith
sum-add_total start seconds (t ∷ totals) = ground (arith, sum-add_total start seconds totals)

IsTotal-mono : (width a b : ℕ) (t : Total) → a ≤ b → IsTotal width a t → IsTotal width b t
IsTotal-mono width a b t le h = record {
  index = h.index;
  aligned = h.aligned;
  observed = h.observed;
  before = omega (arith, le, h.before);
  fits = h.fits;
}

pub All-mono :
    (width a b : ℕ) (totals : List Total)
    → a ≤ b
    → All (IsTotal width a) totals
    → All (IsTotal width b) totals
All-mono width a b [] le h = tt
All-mono width a b (t ∷ totals) le h =
    (IsTotal-mono width a b t le h.0, All-mono width a b totals le h.1)

-- A segment from `start` to `end` in the bucket at `base`.
module _ (width index base start end : ℕ) (aligned : base ≡ index * width) (low : base ≤ start)
    (nonempty : start < end) (high : end ≤ base + width) where
  add_total-IsTotal :
      (frontier : ℕ) (totals : List Total)
      → frontier ≤ start
      → All (IsTotal width frontier) totals
      → All (IsTotal width end) (add_total base (end - start) totals)
  add_total-IsTotal frontier [] le h = (
    record {
      index = index;
      aligned = aligned;
      observed = omega (arith, nonempty);
      before = omega (arith, low, nonempty);
      fits = omega (arith, low, high);
    },
    tt,
  )
  add_total-IsTotal frontier (t ∷ totals) le h = elim (Bool-cases (t.start == base)) [
    | inl e ↦
        let same = (==_iff t.start base).0 e in
        rw e (
          record {
            index = h.0.index;
            aligned = h.0.aligned;
            observed = omega (arith, h.0.observed);
            before = omega (arith, h.0.before, same, le, nonempty);
            fits = omega (arith, h.0.before, same, le, nonempty, high);
          },
          All-mono width frontier end totals (omega (arith, le, nonempty)) h.1,
        )
    | inr e ↦ rw e (
      IsTotal-mono width frontier end t (omega (arith, le, nonempty)) h.0,
      add_total-IsTotal frontier totals le h.1,
    )
  ]

distribute_done :
    (width fuel start end : ℕ) (totals : List Total)
    → ltb start end ≡ false
    → distribute width (suc fuel) start end totals ≡ totals
unfolding distribute
distribute_done width fuel start end totals e = rw (e, distribute) refl

distribute_next :
    (width fuel start end : ℕ) (totals : List Total)
    → ltb start end ≡ true
    → let base = floor_bucket_start start width in
      let stop = min (base + width) end in
      distribute width (suc fuel) start end totals
      ≡ distribute width fuel stop end (add_total base (stop - start) totals)
unfolding distribute
distribute_next width fuel start end totals e = rw (e, distribute) refl

-- What the loop leaves.
abbrev IsDistributed : ℕ → ℕ → ℕ → List Total → List Total → Type 0
IsDistributed width start end totals totals' =
    All (IsTotal width end) totals' × (sum_totals totals' ≡ sum_totals totals + (end - start))

-- With enough fuel, the loop distributes all the time from the start to the end.
pub distribute-IsDistributed :
    (width fuel start end frontier : ℕ) (totals : List Total)
    → 0 < width
    → end - start ≤ fuel
    → start ≤ end
    → frontier ≤ start
    → All (IsTotal width frontier) totals
    → IsDistributed width start end totals (distribute width fuel start end totals)
unfolding floor_bucket_start
distribute-IsDistributed width zero start end frontier totals pos enough le front h =
    unfold distribute in
    (All-mono width frontier end totals (omega (arith, front, le)) h, omega (arith, enough))
distribute-IsDistributed width (suc fuel) start end frontier totals pos enough le front h =
    elim (Bool-cases (ltb start end)) [
      | inl e ↦
          let base = floor_bucket_start start width in
          let stop = min (base + width) end in
          let (low, next) = floor_bucket_start_bounds start width pos in
          let less : start < end = ltb→lt start end e in
          let moved : start < stop = omega (arith, next, less) in
          let added =
            add_total-IsTotal width (start / width) base start stop refl low moved (omega arith)
              frontier totals front h in
          let totals' = add_total base (stop - start) totals in
          let (all, sum) =
            distribute-IsDistributed width fuel stop end stop totals' pos
              (omega (arith, moved, enough)) (omega arith) (omega arith) added in
          subst (IsDistributed width start end totals)
            (sym (distribute_next width fuel start end totals e))
            (all, omega (arith, sum, sum-add_total base (stop - start) totals, moved))
      | inr e ↦
          let past : end ≤ start = ground (arith, e) in
          subst (IsDistributed width start end totals)
            (sym (distribute_done width fuel start end totals e))
            (All-mono width frontier end totals (omega (arith, front, le)) h, omega (arith, past))
    ]
