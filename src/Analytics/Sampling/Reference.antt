-- ===== src/Analytics/Sampling/Reference.antt =====
-- The resolution that is to be chosen, without the required width by which the code leaves out
-- buckets before it estimates their points.
use tlrs.Prelude.{
  ℕ, ◌*◌, ◌≤◌, ◌<◌, ◌≡◌, ◌⊎◌, refl, ◌∙◌, ap, subst, Bool, true, false, none, some, List, [], ◌∷◌,
  ◌++◌, select, leb, ◌==◌, if◌then◌else◌, Result, ok, err, All, arith, Bool-cases, ==_iff, inl, inr,
}
use tlrs.Model.Division.{mul_le_mul, mul_le_left, div_ceil_le, mul_swap}
use tlrs.Analytics.{micros}
use tlrs.Analytics.Sampling.{
  Query, BucketResolution, ResolutionError, no_bucket, limit_exceeded, allowed_bucket_seconds,
  validate_inputs, buckets_in, estimate_points, is_within, allowed_buckets, is_candidate,
  first_fitting, last_bucket, resolution, within_max, within_target, choose_bucket,
  calculate_bucket_resolution,
}

-- The first bucket with at most so many points: all before it have more.
pub record IsFirst (q : Query) (limit : ℕ) (buckets : List ℕ) (bucket : ℕ) : Type 0 where
  pub before : List ℕ
  pub after : List ℕ
  pub split : buckets ≡ before ++ (bucket ∷ after)
  pub fits : estimate_points q bucket ≤ limit
  pub exceeded : All (λ b. limit < estimate_points q b) before

abbrev NoneFits : Query → ℕ → List ℕ → Type 0
NoneFits q limit buckets = All (λ b. limit < estimate_points q b) buckets

abbrev too_many : Query → ℕ → ResolutionError
too_many q largest = limit_exceeded (estimate_points q largest) q.max_points largest

-- What is to be chosen from some buckets, in each case.
pub data Chosen (q : Query) : List ℕ → Result ResolutionError BucketResolution → Type 0 where
  nothing_allowed : Chosen q [] (err no_bucket)
  meets_target :
      (buckets : List ℕ) (b : ℕ)
      → IsFirst q q.target_points buckets b
      → Chosen q buckets (ok (resolution q b (estimate_points q b) true))
  meets_max :
      (buckets : List ℕ) (b : ℕ)
      → NoneFits q q.target_points buckets
      → IsFirst q q.max_points buckets b
      → Chosen q buckets (ok (resolution q b (estimate_points q b) false))
  meets_none :
      (bucket : ℕ) (buckets : List ℕ)
      → NoneFits q q.target_points (bucket ∷ buckets)
      → NoneFits q q.max_points (bucket ∷ buckets)
      → Chosen q (bucket ∷ buckets) (err (too_many q (last_bucket bucket buckets)))

buckets_cover :
    (window bucket : ℕ) → 1 ≤ bucket → window ≤ bucket * micros * buckets_in window bucket
unfolding buckets_in
buckets_cover window bucket h = div_ceil_le window (bucket * micros) (omega (arith, h))

-- A bucket below the required width has more points than the target.
narrow_exceeds :
    (q : Query) (bucket : ℕ)
    → 1 ≤ bucket
    → is_candidate q bucket ≡ false
    → q.target_points < estimate_points q bucket
narrow_exceeds q bucket h e =
    let width = bucket * micros in
    let count = buckets_in q.window_micros bucket in
    let below : width * q.target_points < q.window_micros * q.device_count = ground (arith, e) in
    let covered =
      mul_le_mul q.window_micros (width * count) q.device_count
        (buckets_cover q.window_micros bucket h) in
    let same = mul_swap width count q.device_count in
    let more : width * q.target_points < width * (count * q.device_count) =
      omega (arith, below, covered, same) in
    elim (Bool-cases (leb (count * q.device_count) q.target_points)) [
      | inl f ↦ omega (
        arith,
        more,
        mul_le_left width (count * q.device_count) q.target_points (ground (arith, f)),
      )
      | inr f ↦ ground (arith, f)
    ]

first_fitting_cases :
    (q : Query) (limit : ℕ) (buckets : List ℕ)
    → ((b : ℕ) × (first_fitting q limit buckets ≡ some b) × IsFirst q limit buckets b)
      ⊎ ((first_fitting q limit buckets ≡ none) × NoneFits q limit buckets)
unfolding first_fitting
first_fitting_cases q limit [] = inr (refl, tt)
first_fitting_cases q limit (b ∷ buckets) = elim (Bool-cases (leb (estimate_points q b) limit)) [
  | inl e ↦ rw e (
      inl (
        b,
        refl,
        record {
          before = [];
          after = buckets;
          split = refl;
          fits = ground (arith, e);
          exceeded = tt;
        },
      ))
  | inr e ↦ rw e (elim (first_fitting_cases q limit buckets) [
    | inl (b', found, h) ↦ inl (
      b',
      found,
      record {
        before = b ∷ h.before;
        after = h.after;
        split = ap (λ rest. b ∷ rest) h.split;
        fits = h.fits;
        exceeded = (ground (arith, e), h.exceeded);
      },
    )
    | inr (found, h) ↦ inr (found, (ground (arith, e), h))
  ])
]

-- The filter leaves out no bucket that the loop would have chosen.
first_fitting-select :
    (q : Query) (buckets : List ℕ)
    → All (λ b. 1 ≤ b) buckets
    → first_fitting q q.target_points (select (is_candidate q) buckets)
      ≡ first_fitting q q.target_points buckets
unfolding first_fitting
first_fitting-select q [] h = refl
first_fitting-select q (b ∷ buckets) h = elim (Bool-cases (is_candidate q b)) [
  | inl e ↦ rw e (
      ap (λ rest. if leb (estimate_points q b) q.target_points then some b else rest)
        (first_fitting-select q buckets h.1))
  | inr e ↦
      let more = narrow_exceeds q b h.0 e in
      let f : leb (estimate_points q b) q.target_points ≡ false = ground (arith, more) in
      rw (e, f) (first_fitting-select q buckets h.1)
]

within_max-Chosen :
    (q : Query) (bucket : ℕ) (buckets : List ℕ)
    → NoneFits q q.target_points (bucket ∷ buckets)
    → Chosen q (bucket ∷ buckets) (within_max q bucket buckets)
unfolding within_max
within_max-Chosen q bucket buckets h =
    elim (first_fitting_cases q q.max_points (bucket ∷ buckets)) [
      | inl (b, e, first) ↦ rw (e, within_max) (meets_max (bucket ∷ buckets) b h first)
      | inr (e, unfit) ↦ rw (e, within_max) (meets_none bucket buckets h unfit)
    ]

within_target-Chosen :
    (q : Query) (bucket : ℕ) (buckets : List ℕ)
    → All (λ b. 1 ≤ b) (bucket ∷ buckets)
    → Chosen q (bucket ∷ buckets) (within_target q bucket buckets)
unfolding within_target
within_target-Chosen q bucket buckets h =
    let filtered = first_fitting-select q (bucket ∷ buckets) h in
    elim (first_fitting_cases q q.target_points (bucket ∷ buckets)) [
      | inl (b, e, first) ↦
          rw (filtered ∙ e, within_target) (meets_target (bucket ∷ buckets) b first)
      | inr (e, unfit) ↦ rw (filtered ∙ e, within_target) (within_max-Chosen q bucket buckets unfit)
    ]

no_points : (q : Query) (bucket : ℕ) → q.device_count ≡ 0 → estimate_points q bucket ≡ 0
no_points q bucket h = omega (arith, ap (λ n. buckets_in q.window_micros bucket * n) h)

choose_bucket-Chosen :
    (q : Query) (buckets : List ℕ)
    → All (λ b. 1 ≤ b) buckets
    → Chosen q buckets (choose_bucket q buckets)
unfolding choose_bucket
choose_bucket-Chosen q [] h = nothing_allowed
choose_bucket-Chosen q (bucket ∷ buckets) h = elim (Bool-cases (q.device_count == 0)) [
  | inl e ↦
      let none_there : q.device_count ≡ 0 = (==_iff q.device_count 0).0 e in
      let points = no_points q bucket none_there in
      rw e (
        subst (λ n. Chosen q (bucket ∷ buckets) (ok (resolution q bucket n true))) points
          (meets_target (bucket ∷ buckets) bucket (record {
            before = [];
            after = buckets;
            split = refl;
            fits = omega (arith, points);
            exceeded = tt;
          })))
  | inr e ↦ rw e (within_target-Chosen q bucket buckets h)
]

selected_are_positive :
    (p : ℕ → Bool) (buckets : List ℕ)
    → All (λ b. 1 ≤ b) buckets
    → All (λ b. 1 ≤ b) (select p buckets)
selected_are_positive p [] h = tt
selected_are_positive p (b ∷ buckets) h = elim (Bool-cases (p b)) [
  | inl e ↦ rw e (h.0, selected_are_positive p buckets h.1)
  | inr e ↦ rw e (selected_are_positive p buckets h.1)
]

allowed_are_positive : All (λ b. 1 ≤ b) allowed_bucket_seconds
allowed_are_positive = ground arith

-- For arguments that pass the validation, the resolution is the one of the first allowed bucket
-- whose points do not exceed the target; where there is none, the one of the first whose points do
-- not exceed the maximum, reported as missing the target; and where there is none of these either,
-- the error with the points of the largest bucket.
pub calculate_bucket_resolution-Chosen :
    (q : Query)
    → validate_inputs q ≡ ok tt
    → Chosen q (allowed_buckets q) (calculate_bucket_resolution q)
unfolding calculate_bucket_resolution
calculate_bucket_resolution-Chosen q h = rw h (
    choose_bucket-Chosen q (allowed_buckets q)
      (selected_are_positive (is_within q) allowed_bucket_seconds allowed_are_positive))
