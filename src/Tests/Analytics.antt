-- ===== src/Tests/Analytics.antt =====
-- Analytics at concrete inputs: five observations a minute apart, and one an hour later.
use tlrs.Prelude.{true, false, ℕ, ◌*◌, ◌≡◌, refl, none, List, [], ◌∷◌, ok, All}
use tlrs.Analytics.{micros}
use tlrs.Analytics.Bucketing.{
  ObservedSpan, TemporalBucketingResult, validate_spans, sum_observed, bucket_observed_time,
}
use tlrs.Analytics.Bucketing.Returns.{IsBucket, sum_overlaps, bucket_observed_time_returns}
use tlrs.Analytics.Continuity.{Configuration}
use tlrs.Analytics.Sampling.{
  Query, allowed_buckets, resolution, calculate_bucket_resolution, buckets_in,
}
use tlrs.Analytics.Sampling.Reference.{Chosen, calculate_bucket_resolution-Chosen}

abbrev spans : List ObservedSpan
spans =
    record { start_at = 30 * micros; end_at = 100 * micros; observed_seconds = 70 * micros }
    ∷ record { start_at = 110 * micros; end_at = 200 * micros; observed_seconds = 90 * micros }
    ∷ []

spans_are_valid : validate_spans none spans ≡ ok tt
unfolding validate_spans
spans_are_valid = refl

bucket_observed_time_returns_example :
    (r : TemporalBucketingResult) × (bucket_observed_time spans (40 * micros) (180 * micros) 60
      ≡ ok r)
    × (sum_observed r.buckets ≡ sum_overlaps (40 * micros) (180 * micros) spans)
    × (r.metadata.bucketed_observed_seconds ≡ sum_overlaps (40 * micros) (180 * micros) spans)
    × (r.metadata.in_window_observed_seconds ≡ sum_overlaps (40 * micros) (180 * micros) spans)
    × All (IsBucket 60) r.buckets
bucket_observed_time_returns_example =
    bucket_observed_time_returns spans (40 * micros) (180 * micros) 60 refl refl spans_are_valid

abbrev configuration : Configuration
configuration = record {
  cadence_window_size = 4;
  min_cadence_samples = 3;
  gap_factor = 3_000_000;
  min_jitter_allowance = 5 * micros;
  max_cadence_variability = 250_000;
}

abbrev later : List ℕ
later =
    60 * micros ∷ 120 * micros ∷ 180 * micros ∷ 240 * micros ∷ 300 * micros ∷ 3_900 * micros ∷ []

-- A day of twenty devices: minutes would be too many points, and two minutes are not.
abbrev one_day : Query
one_day = record {
  window_micros = 86_400 * micros;
  device_count = 20;
  target_points = 15_000;
  max_points = 25_000;
  min_bucket_seconds = 60;
  max_bucket_seconds = 86_400;
}

calculate_bucket_resolution-Chosen_example :
    Chosen one_day (allowed_buckets one_day) (calculate_bucket_resolution one_day)
calculate_bucket_resolution-Chosen_example = calculate_bucket_resolution-Chosen one_day refl

two_minutes : calculate_bucket_resolution one_day ≡ ok (resolution one_day 120 14_400 true)
unfolding calculate_bucket_resolution buckets_in
two_minutes = refl

-- The same day of eighty devices, with buckets of at most five minutes: the target is missed.
five_minutes :
    let q = record one_day { device_count = 80; max_bucket_seconds = 300 } in
    calculate_bucket_resolution q ≡ ok (resolution q 300 23_040 false)
unfolding calculate_bucket_resolution buckets_in
five_minutes = refl
