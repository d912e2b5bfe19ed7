-- ===== src/Analytics/Sampling.antt =====
-- src/application/analytics/temporal_sampling.py: the width of the buckets for a query. A window is
-- a number of microseconds, so that what the source divides is exact.
pub mod Reference
use tlrs.Prelude.{
  ℕ, ◌+◌, ◌-◌, ◌*◌, ◌/◌, Bool, true, false, ◌&&◌, ◌||◌, Option, none, some, List, [], ◌∷◌, select,
  leb, ltb, ◌==◌, if◌then◌else◌, Result, ok, err, ◌>>=◌, ◌>>◌, raise_if,
}
use tlrs.Analytics.{micros}

-- `ALLOWED_BUCKET_SECONDS`
abbrev pub allowed_bucket_seconds : List ℕ
allowed_bucket_seconds =
    60 ∷ 120 ∷ 300 ∷ 600 ∷ 900 ∷ 1200 ∷ 1800 ∷ 2700 ∷ 3600 ∷ 5400 ∷ 7200 ∷ 10_800 ∷ 14_400 ∷ 21_600
    ∷ 43_200 ∷ 86_400 ∷ []

-- The keyword arguments of `calculate_bucket_resolution`
pub record Query : Type 0 where
  pub window_micros : ℕ
  pub device_count : ℕ
  pub target_points : ℕ
  pub max_points : ℕ
  pub min_bucket_seconds : ℕ
  pub max_bucket_seconds : ℕ

-- `BucketResolution`; `required_bucket_micros` is to be divided by `target_points`.
pub record BucketResolution : Type 0 where
  pub bucket_seconds : ℕ
  pub estimated_points : ℕ
  pub required_bucket_micros : ℕ
  pub target_points : ℕ
  pub max_points : ℕ
  pub target_met : Bool

-- The errors; the last is `BucketResolutionLimitError` with its fields, the points of the largest
-- bucket, their limit, and that bucket.
pub data ResolutionError : Type 0 where
  window_not_positive limit_not_positive points_order bucket_order no_bucket : ResolutionError
  limit_exceeded : (estimated_points max_points max_bucket_seconds : ℕ) → ResolutionError

-- `_validate_inputs`
abbrev pub validate_inputs : Query → Result ResolutionError (Unit {0})
validate_inputs q = do
  raise_if (q.window_micros == 0) window_not_positive
  raise_if ((q.target_points == 0) || (q.max_points == 0)) limit_not_positive
  raise_if ((q.min_bucket_seconds == 0) || (q.max_bucket_seconds == 0)) limit_not_positive
  raise_if (ltb q.max_points q.target_points) points_order
  raise_if (ltb q.max_bucket_seconds q.min_bucket_seconds) bucket_order

-- `ceil(window_seconds / bucket_seconds)`
unfoldable pub buckets_in : ℕ → ℕ → ℕ
buckets_in window bucket = (window + (bucket * micros - 1)) / (bucket * micros)

-- `_estimate_points`
abbrev pub estimate_points : Query → ℕ → ℕ
estimate_points q bucket = buckets_in q.window_micros bucket * q.device_count

-- `min_bucket_seconds <= bucket <= max_bucket_seconds`
abbrev pub is_within : Query → ℕ → Bool
is_within q bucket = leb q.min_bucket_seconds bucket && leb bucket q.max_bucket_seconds

-- `allowed_buckets`
abbrev pub allowed_buckets : Query → List ℕ
allowed_buckets q = select (is_within q) allowed_bucket_seconds

-- `required_bucket_seconds`, as a numerator over the target
abbrev required_bucket : Query → ℕ
required_bucket q = q.window_micros * q.device_count

-- `bucket_seconds >= required_bucket_seconds`
abbrev pub is_candidate : Query → ℕ → Bool
is_candidate q bucket = leb (required_bucket q) (bucket * micros * q.target_points)

-- Both loops: the first bucket with at most so many points
unfoldable pub first_fitting : Query → ℕ → List ℕ → Option ℕ
first_fitting q limit [] = none
first_fitting q limit (bucket ∷ buckets) =
    if leb (estimate_points q bucket) limit then some bucket else first_fitting q limit buckets

-- `allowed_buckets[-1]`, behind a first one
abbrev pub last_bucket : ℕ → List ℕ → ℕ
last_bucket bucket [] = bucket
last_bucket bucket (next ∷ buckets) = last_bucket next buckets

abbrev pub resolution : Query → ℕ → ℕ → Bool → BucketResolution
resolution q bucket points met = record {
  bucket_seconds = bucket;
  estimated_points = points;
  required_bucket_micros = required_bucket q;
  target_points = q.target_points;
  max_points = q.max_points;
  target_met = met;
}

-- The loop over all allowed buckets, and the error behind it
unfoldable pub within_max : Query → ℕ → List ℕ → Result ResolutionError BucketResolution
unfolding first_fitting
within_max q bucket buckets = elim (first_fitting q q.max_points (bucket ∷ buckets)) [
  | some b ↦ ok (resolution q b (estimate_points q b) false)
  | none ↦
      let largest = last_bucket bucket buckets in
      err (limit_exceeded (estimate_points q largest) q.max_points largest)
]

-- The loop over the candidates, and what follows it
unfoldable pub within_target : Query → ℕ → List ℕ → Result ResolutionError BucketResolution
unfolding first_fitting within_max
within_target q bucket buckets =
    elim (first_fitting q q.target_points (select (is_candidate q) (bucket ∷ buckets))) [
      | some b ↦ ok (resolution q b (estimate_points q b) true)
      | none ↦ within_max q bucket buckets
    ]

-- What `calculate_bucket_resolution` does with the allowed buckets
unfoldable pub choose_bucket : Query → List ℕ → Result ResolutionError BucketResolution
unfolding within_target
choose_bucket q [] = err no_bucket
choose_bucket q (bucket ∷ buckets) =
    if q.device_count == 0 then ok (resolution q bucket 0 true) else within_target q bucket buckets

-- `calculate_bucket_resolution`
unfoldable pub calculate_bucket_resolution : Query → Result ResolutionError BucketResolution
unfolding choose_bucket
calculate_bucket_resolution q = do validate_inputs q; choose_bucket q (allowed_buckets q)
