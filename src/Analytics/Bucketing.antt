-- ===== src/Analytics/Bucketing.antt =====
-- src/application/analytics/temporal_bucketing.py: observed time, clipped to a window and distributed
-- over buckets that are aligned to the epoch.
pub mod Segments
pub mod Returns
use tlrs.Prelude.{
  ℕ, zero, suc, ◌+◌, ◌-◌, ◌*◌, ◌/◌, min, max, Bool, true, false, ◌||◌, not, Option, none, some,
  List, [], ◌∷◌, length, leb, ltb, ◌==◌, if◌then◌else◌, Result, ok, err, ◌>>=◌, ◌>>◌, raise_if,
}
use tlrs.Prelude.Int.{ℤ, pos, negsuc}
use tlrs.Model.Update.{sort_by}
use tlrs.Analytics.{micros, distance, is_close}

-- `ObservedSpan`
pub record ObservedSpan : Type 0 where
  pub start_at : ℕ
  pub end_at : ℕ
  pub observed_seconds : ℕ

-- `TemporalBucket`
pub record TemporalBucket : Type 0 where
  pub bucket_start : ℕ
  pub bucket_end : ℕ
  pub observed_seconds : ℕ
  pub contributing_span_count : ℕ

-- `TemporalBucketingMetadata`
pub record TemporalBucketingMetadata : Type 0 where
  pub window_start : ℕ
  pub window_end : ℕ
  pub bucket_seconds : ℕ
  pub input_observed_seconds : ℕ
  pub in_window_observed_seconds : ℕ
  pub outside_window_observed_seconds : ℤ
  pub bucketed_observed_seconds : ℕ
  pub input_span_count : ℕ
  pub contributing_span_count : ℕ
  pub bucket_count : ℕ

-- `TemporalBucketingResult`
pub record TemporalBucketingResult : Type 0 where
  pub buckets : List TemporalBucket
  pub metadata : TemporalBucketingMetadata

-- The reasons of `TemporalBucketingInputError`
pub data BucketingError : Type 0 where
  window_order bucket_not_positive span_not_positive nothing_observed : BucketingError
  span_mismatch spans_overlap total_mismatch invalid_total : BucketingError

-- An entry of `bucket_totals`
pub record Total : Type 0 where
  pub start : ℕ
  pub seconds : ℕ
  pub spans : ℕ

-- `_validate_window`
abbrev pub validate_window : ℕ → ℕ → Result BucketingError (Unit {0})
validate_window window_start window_end = raise_if (leb window_end window_start) window_order

-- `_validate_bucket_seconds`
abbrev pub validate_bucket_seconds : ℕ → Result BucketingError (Unit {0})
validate_bucket_seconds bucket_seconds = raise_if (bucket_seconds == 0) bucket_not_positive

abbrev starts_before : ObservedSpan → Option ℕ → Bool
starts_before span none = false
starts_before span (some previous_end) = ltb span.start_at previous_end

-- The body of the loop of `_validate_spans`, behind a span that ended at `previous_end`
unfoldable pub validate_span : Option ℕ → ObservedSpan → Result BucketingError (Unit {0})
validate_span previous_end span = do
  raise_if (leb span.end_at span.start_at) span_not_positive
  raise_if (span.observed_seconds == 0) nothing_observed
  raise_if (not (is_close span.observed_seconds (span.end_at - span.start_at))) span_mismatch
  raise_if (starts_before span previous_end) spans_overlap

-- `_validate_spans`
unfoldable pub validate_spans : Option ℕ → List ObservedSpan → Result BucketingError (Unit {0})
unfolding validate_span
validate_spans previous_end [] = ok tt
validate_spans previous_end (span ∷ spans) = do
  validate_span previous_end span
  validate_spans (some span.end_at) spans

-- `_floor_bucket_start`, for buckets of so many microseconds
unfoldable pub floor_bucket_start : ℕ → ℕ → ℕ
floor_bucket_start timestamp width = timestamp / width * width

-- `setdefault(bucket_start, [0.0, 0])`, and the two additions
abbrev pub add_total : ℕ → ℕ → List Total → List Total
add_total start seconds [] = record { start = start; seconds = seconds; spans = 1 } ∷ []
add_total start seconds (t ∷ totals) =
    let rest = add_total start seconds totals in
    if t.start == start
    then (record t { seconds = t.seconds + seconds; spans = t.spans + 1 }) ∷ totals
    else t ∷ rest

-- The loop `while current_start < clipped_end`. Each round moves the start, so that as many rounds
-- as microseconds are enough.
unfoldable pub distribute : ℕ → ℕ → ℕ → ℕ → List Total → List Total
unfolding floor_bucket_start
distribute width zero start end totals = totals
distribute width (suc fuel) start end totals = elim (ltb start end) [
  | false ↦ totals
  | true ↦
      let bucket_start = floor_bucket_start start width in
      let segment_end = min (bucket_start + width) end in
      distribute width fuel segment_end end (add_total bucket_start (segment_end - start) totals)
]

-- What the loop over the spans has found.
pub record Tally : Type 0 where
  pub totals : List Total
  pub in_window : ℕ
  pub contributing : ℕ

-- The body of the loop over the spans
unfoldable pub add_span : ℕ → ℕ → ℕ → ObservedSpan → Tally → Tally
unfolding distribute
add_span width window_start window_end span tally =
    let start = max span.start_at window_start in
    let end = min span.end_at window_end in
    if leb end start then tally else (record {
      totals = distribute width (end - start) start end tally.totals;
      in_window = tally.in_window + (end - start);
      contributing = tally.contributing + 1;
    })

unfoldable pub add_spans : ℕ → ℕ → ℕ → List ObservedSpan → Tally → Tally
unfolding add_span
add_spans width window_start window_end [] tally = tally
add_spans width window_start window_end (span ∷ spans) tally =
    add_spans width window_start window_end spans
      (add_span width window_start window_end span tally)

abbrev pub start_of : Total → ℕ
start_of t = t.start

-- `_build_bucket`
unfoldable pub build_bucket : ℕ → Total → Result BucketingError TemporalBucket
build_bucket bucket_seconds t = do
  raise_if (t.seconds == 0 || ltb (bucket_seconds * micros + 1) t.seconds) invalid_total
  ok (record {
    bucket_start = t.start;
    bucket_end = t.start + bucket_seconds * micros;
    observed_seconds = t.seconds;
    contributing_span_count = t.spans;
  })

unfoldable pub build_buckets : ℕ → List Total → Result BucketingError (List TemporalBucket)
unfolding build_bucket
build_buckets bucket_seconds [] = ok []
build_buckets bucket_seconds (t ∷ totals) = do
  bucket ← build_bucket bucket_seconds t
  rest ← build_buckets bucket_seconds totals
  ok (bucket ∷ rest)

abbrev pub sum_observed : List TemporalBucket → ℕ
sum_observed [] = 0
sum_observed (b ∷ buckets) = b.observed_seconds + sum_observed buckets

abbrev sum_spans : List ObservedSpan → ℕ
sum_spans [] = 0
sum_spans (s ∷ spans) = s.observed_seconds + sum_spans spans

-- `input - in_window`, made zero up to a microsecond
abbrev outside_window : ℕ → ℕ → ℤ
outside_window input in_window =
    if leb (distance input in_window) 1
    then pos 0
    else if leb in_window input
    then pos (input - in_window)
    else negsuc (in_window - input - 1)

abbrev pub empty_tally : Tally
empty_tally = record { totals = []; in_window = 0; contributing = 0 }

-- The result that `bucket_observed_time` returns
abbrev pub result_of :
    List ObservedSpan → ℕ → ℕ → ℕ → Tally → List TemporalBucket → TemporalBucketingResult
result_of spans window_start window_end bucket_seconds tally buckets = record {
  buckets = buckets;
  metadata = record {
    window_start = window_start;
    window_end = window_end;
    bucket_seconds = bucket_seconds;
    input_observed_seconds = sum_spans spans;
    in_window_observed_seconds = tally.in_window;
    outside_window_observed_seconds = outside_window (sum_spans spans) tally.in_window;
    bucketed_observed_seconds = sum_observed buckets;
    input_span_count = length spans;
    contributing_span_count = tally.contributing;
    bucket_count = length buckets;
  };
}

-- `bucket_observed_time`
unfoldable pub bucket_observed_time :
    List ObservedSpan → ℕ → ℕ → ℕ → Result BucketingError TemporalBucketingResult
unfolding validate_spans add_spans build_buckets sort_by
bucket_observed_time spans window_start window_end bucket_seconds = do
  validate_window window_start window_end
  validate_bucket_seconds bucket_seconds
  validate_spans none spans
  let tally = add_spans (bucket_seconds * micros) window_start window_end spans empty_tally
  buckets ← build_buckets bucket_seconds (sort_by start_of tally.totals)
  raise_if (not (is_close (sum_observed buckets) tally.in_window)) total_mismatch
  ok (result_of spans window_start window_end bucket_seconds tally buckets)
