-- ===== src/Analytics/Bucketing/Returns.antt =====
-- The buckets hold all the time that the spans spent in the window.
use tlrs.Prelude.{
  ℕ, ◌+◌, ◌-◌, ◌*◌, ◌≤◌, ◌<◌, ◌≡◌, refl, ap, ◌∙◌, min, max, false, not, Option, none, some, List,
  [], ◌∷◌, leb, ok, All, arith, Bool-cases, inl, inr,
}
use tlrs.Model.Update.{sort_by, insert_by, All-sort_by}
use tlrs.Analytics.{micros, is_close}
use tlrs.Analytics.Bucketing.{
  ObservedSpan, TemporalBucket, TemporalBucketingResult, Total, Tally, validate_window,
  validate_bucket_seconds, validate_spans, add_span, add_spans, start_of, build_bucket,
  build_buckets, sum_observed, empty_tally, result_of, bucket_observed_time,
}
use tlrs.Analytics.Bucketing.Segments.{IsTotal, sum_totals, All-mono, distribute-IsDistributed}

-- The time that a span spends in the window.
abbrev overlap : ℕ → ℕ → ObservedSpan → ℕ
overlap window_start window_end span = min span.end_at window_end - max span.start_at window_start

abbrev pub sum_overlaps : ℕ → ℕ → List ObservedSpan → ℕ
sum_overlaps window_start window_end [] = 0
sum_overlaps window_start window_end (s ∷ spans) =
    overlap window_start window_end s + sum_overlaps window_start window_end spans

abbrev pub frontier : Option ℕ → ℕ
frontier none = 0
frontier (some end) = end

validated_span :
    (previous : Option ℕ) (span : ObservedSpan) (spans : List ObservedSpan)
    → validate_spans previous (span ∷ spans) ≡ ok tt
    → (frontier previous ≤ span.start_at)
      × (span.start_at < span.end_at)
      × (validate_spans (some span.end_at) spans ≡ ok tt)
unfolding validate_spans
validated_span none span spans h = ground arith
validated_span (some end) span spans h = ground arith

-- What the loop over the spans keeps.
record IsTally (width front : ℕ) (tally : Tally) : Type 0 where
  all : All (IsTotal width front) tally.totals
  sum : sum_totals tally.totals ≡ tally.in_window

add_span-IsTally :
    (width window_start window_end front : ℕ) (span : ObservedSpan) (tally : Tally)
    → 0 < width
    → front ≤ span.start_at
    → span.start_at < span.end_at
    → IsTally width front tally
    → IsTally width span.end_at (add_span width window_start window_end span tally)
      × ((add_span width window_start window_end span tally).in_window
          ≡ tally.in_window + overlap window_start window_end span)
unfolding add_span
add_span-IsTally width window_start window_end front span tally pos le less h =
    let start = max span.start_at window_start in
    let end = min span.end_at window_end in
    elim (Bool-cases (leb end start)) [
      | inl e ↦ rw e (
        record {
          all = All-mono width front span.end_at tally.totals (omega (arith, le, less)) h.all;
          sum = h.sum;
        },
        ground (arith, e),
      )
      | inr e ↦
          let low : start ≤ end = ground (arith, e) in
          let (all, sum) =
            distribute-IsDistributed width (end - start) start end front tally.totals pos
              (omega arith) low (omega (arith, le)) h.all in
          rw e (
            record {
              all = All-mono width end span.end_at _ (omega arith) all;
              sum = omega (arith, sum, h.sum);
            },
            refl,
          )
    ]

add_spans-IsTally :
    (width window_start window_end : ℕ) (previous : Option ℕ) (spans : List ObservedSpan)
    (tally : Tally)
    → 0 < width
    → validate_spans previous spans ≡ ok tt
    → IsTally width (frontier previous) tally
    → (front : ℕ) × IsTally width front (add_spans width window_start window_end spans tally)
      × ((add_spans width window_start window_end spans tally).in_window
          ≡ tally.in_window + sum_overlaps window_start window_end spans)
unfolding add_spans
add_spans-IsTally width window_start window_end previous [] tally pos valid h =
    (frontier previous, h, omega arith)
add_spans-IsTally width window_start window_end previous (span ∷ spans) tally pos valid h =
    let (le, less, rest) = validated_span previous span spans valid in
    let (one, added) =
      add_span-IsTally width window_start window_end (frontier previous) span tally pos le less h in
    let (front, all, sum) =
      add_spans-IsTally width window_start window_end (some span.end_at) spans
        (add_span width window_start window_end span tally) pos rest one in
    (front, all, omega (arith, added, sum))

sum-insert_by :
    (t : Total) (totals : List Total)
    → sum_totals (insert_by start_of t totals) ≡ t.seconds + sum_totals totals
sum-insert_by t [] = refl
sum-insert_by t (x ∷ totals) = ground (arith, sum-insert_by t totals)

sum-sort_by : (totals : List Total) → sum_totals (sort_by start_of totals) ≡ sum_totals totals
unfolding sort_by
sum-sort_by [] = refl
sum-sort_by (t ∷ totals) =
    sum-insert_by t (sort_by start_of totals) ∙ ap (λ n. t.seconds + n) (sum-sort_by totals)

-- A bucket of the resolution.
pub record IsBucket (bucket_seconds : ℕ) (b : TemporalBucket) : Type 0 where
  pub index : ℕ
  pub aligned : b.bucket_start ≡ index * (bucket_seconds * micros)
  pub one_width : b.bucket_end ≡ b.bucket_start + bucket_seconds * micros
  pub observed : 1 ≤ b.observed_seconds
  pub fits : b.observed_seconds ≤ bucket_seconds * micros

bucket_of : ℕ → Total → TemporalBucket
bucket_of bucket_seconds t = record {
  bucket_start = t.start;
  bucket_end = t.start + bucket_seconds * micros;
  observed_seconds = t.seconds;
  contributing_span_count = t.spans;
}

build_bucket_returns :
    (bucket_seconds front : ℕ) (t : Total)
    → IsTotal (bucket_seconds * micros) front t
    → build_bucket bucket_seconds t ≡ ok (bucket_of bucket_seconds t)
unfolding build_bucket bucket_of
build_bucket_returns bucket_seconds front t h = ground (arith, h.observed, h.fits)

build_buckets_return :
    (bucket_seconds front : ℕ) (totals : List Total)
    → All (IsTotal (bucket_seconds * micros) front) totals
    → (buckets : List TemporalBucket) × (build_buckets bucket_seconds totals ≡ ok buckets)
      × (sum_observed buckets ≡ sum_totals totals)
      × All (IsBucket bucket_seconds) buckets
unfolding build_buckets bucket_of
build_buckets_return bucket_seconds front [] h = ([], refl, refl, tt)
build_buckets_return bucket_seconds front (t ∷ totals) h =
    let (buckets, built, sum, all) = build_buckets_return bucket_seconds front totals h.1 in
    (
      bucket_of bucket_seconds t ∷ buckets,
      rw (build_bucket_returns bucket_seconds front t h.0, built) refl,
      ap (λ n. t.seconds + n) sum,
      (
        record {
          index = h.0.index;
          aligned = h.0.aligned;
          one_width = refl;
          observed = h.0.observed;
          fits = h.0.fits;
        },
        all,
      ),
    )

is_close_refl : (a b : ℕ) → a ≡ b → not (is_close a b) ≡ false
is_close_refl a b h = ground arith

-- For a window, a resolution and spans that pass the validation, the bucketing returns: neither of
-- its two checks fails. The time in its buckets is what it reports as observed in the window, and
-- is the sum of the overlaps of the spans with the window; and each bucket starts at a multiple
-- of its width and holds between a microsecond and that width.
pub bucket_observed_time_returns :
    (spans : List ObservedSpan) (window_start window_end bucket_seconds : ℕ)
    → validate_window window_start window_end ≡ ok tt
    → validate_bucket_seconds bucket_seconds ≡ ok tt
    → validate_spans none spans ≡ ok tt
    → (r : TemporalBucketingResult) × (bucket_observed_time spans window_start window_end
          bucket_seconds
        ≡ ok r)
      × (sum_observed r.buckets ≡ sum_overlaps window_start window_end spans)
      × (r.metadata.bucketed_observed_seconds ≡ sum_overlaps window_start window_end spans)
      × (r.metadata.in_window_observed_seconds ≡ sum_overlaps window_start window_end spans)
      × All (IsBucket bucket_seconds) r.buckets
unfolding bucket_observed_time
bucket_observed_time_returns spans window_start window_end bucket_seconds window bucket valid =
    let width = bucket_seconds * micros in
    let pos : 0 < width = ground (arith, bucket) in
    let tally = add_spans width window_start window_end spans empty_tally in
    let (front, it, grown) =
      add_spans-IsTally width window_start window_end none spans empty_tally pos valid
        (record { all = tt; sum = refl }) in
    let whole : tally.in_window ≡ sum_overlaps window_start window_end spans =
      omega (arith, grown) in
    let sorted = All-sort_by start_of (IsTotal width front) tally.totals it.all in
    let (buckets, built, sum, all) =
      build_buckets_return bucket_seconds front (sort_by start_of tally.totals) sorted in
    let total : sum_observed buckets ≡ tally.in_window = sum ∙ sum-sort_by tally.totals ∙ it.sum in
    (
      result_of spans window_start window_end bucket_seconds tally buckets,
      rw (window, bucket, valid, built, is_close_refl (sum_observed buckets) tally.in_window total)
          refl,
      total ∙ whole,
      total ∙ whole,
      whole,
      all,
    )
