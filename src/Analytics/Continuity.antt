-- ===== src/Analytics/Continuity.antt =====
-- src/application/analytics/temporal_continuity.py: the intervals between observations are
-- classified by the cadence on their left and on their right. Factors are in millionths.
use tlrs.Prelude.{
  ℕ, ◌+◌, ◌-◌, ◌*◌, ◌/◌, ◌%◌, max, Bool, false, ◌&&◌, ◌||◌, Option, none, some, List, [], ◌∷◌, map,
  length, select, take, drop, leb, ltb, ◌==◌, if◌then◌else◌, is_some, Result, ok, ◌>>◌, raise_if,
}
use tlrs.Model.Update.{sort_by}
use tlrs.Analytics.{distance}

pub data ContinuityStatus : Type 0 where
  continuous gap indeterminate : ContinuityStatus

-- `CadenceSource`; `nowhere` is its NONE
pub data CadenceSource : Type 0 where
  nowhere left right both : CadenceSource

pub data ContinuityError : Type 0 where
  invalid_configuration samples_exceed_window unordered_timestamps : ContinuityError

-- `_CadenceEstimate`: the expected interval in half microseconds, and the threshold in millionths
-- of one, so that both are exact.
pub record CadenceEstimate : Type 0 where
  pub expected_interval : ℕ
  pub continuity_threshold : ℕ

pub record TemporalIntervalAssessment : Type 0 where
  pub start_at : ℕ
  pub end_at : ℕ
  pub delta_seconds : ℕ
  pub status : ContinuityStatus
  pub cadence_source : CadenceSource
  pub left_expected_interval_seconds : Option ℕ
  pub right_expected_interval_seconds : Option ℕ
  pub left_continuity_threshold_seconds : Option ℕ
  pub right_continuity_threshold_seconds : Option ℕ

-- The keyword arguments of `analyze_temporal_continuity`
pub record Configuration : Type 0 where
  pub cadence_window_size : ℕ
  pub min_cadence_samples : ℕ
  pub gap_factor : ℕ
  pub min_jitter_allowance : ℕ
  pub max_cadence_variability : ℕ

-- `_validate_configuration`
abbrev pub validate_configuration : Configuration → Result ContinuityError (Unit {0})
validate_configuration c =
    raise_if ((c.cadence_window_size == 0) || (c.min_cadence_samples == 0)) invalid_configuration
    >> (raise_if (ltb c.cadence_window_size c.min_cadence_samples) samples_exceed_window
        >> raise_if (c.gap_factor == 0) invalid_configuration)

abbrev is_before : ℕ → Option ℕ → Bool
is_before t none = false
is_before t (some previous) = ltb t previous

-- `_validate_timestamps`, behind a timestamp
unfoldable pub validate_timestamps : Option ℕ → List ℕ → Result ContinuityError (Unit {0})
validate_timestamps previous [] = ok tt
validate_timestamps previous (t ∷ timestamps) = do
  raise_if (is_before t previous) unordered_timestamps
  validate_timestamps (some t) timestamps

-- `deltas`
abbrev pub deltas_of : List ℕ → List ℕ
deltas_of [] = []
deltas_of (t ∷ []) = []
deltas_of (t ∷ u ∷ timestamps) = (u - t) ∷ deltas_of (u ∷ timestamps)

-- An item of a list; every index below is in range.
abbrev item : ℕ → List ℕ → ℕ
item n xs = elim (drop n xs) [ [] ↦ 0 | x ∷ rest ↦ x ]

abbrev itself : ℕ → ℕ
itself n = n

-- Twice `median`: the sum of the two middle items
unfoldable median_doubled : List ℕ → ℕ
unfolding sort_by
median_doubled xs =
    let sorted = sort_by itself xs in
    let middle = length xs / 2 in
    if length xs % 2 == 1
    then item middle sorted * 2
    else item (middle - 1) sorted + item middle sorted

-- The estimate from the positive deltas, when there are enough: `median_absolute_deviation` is in
-- quarters of a microsecond
unfoldable estimate_from : Configuration → List ℕ → Option CadenceEstimate
unfolding median_doubled
estimate_from c valid_deltas =
    let expected = median_doubled valid_deltas in
    let deviation = median_doubled (map (λ d. distance (d * 2) expected) valid_deltas) in
    if ltb (c.max_cadence_variability * (expected * 2)) (deviation * 1_000_000)
    then none
    else some (record {
      expected_interval = expected;
      continuity_threshold =
          max (expected * c.gap_factor) ((expected + c.min_jitter_allowance * 2) * 1_000_000);
    })

-- `_estimate_cadence`
unfoldable estimate_cadence : Configuration → List ℕ → Option CadenceEstimate
unfolding estimate_from
estimate_cadence c deltas =
    let valid_deltas = select (ltb 0) deltas in
    if ltb (length valid_deltas) c.min_cadence_samples then none else estimate_from c valid_deltas

-- `estimate is not None and delta_seconds <= estimate.continuity_threshold_seconds`
abbrev supports : ℕ → Option CadenceEstimate → Bool
supports delta none = false
supports delta (some e) = leb (delta * 2 * 1_000_000) e.continuity_threshold

-- The status in `_assess_interval`
abbrev status_for : ℕ → Option CadenceEstimate → Option CadenceEstimate → ContinuityStatus
status_for delta l r =
    if supports delta l || supports delta r
    then continuous
    else if is_some l && is_some r
    then gap
    else indeterminate

-- `_resolve_cadence_source`
abbrev resolve_cadence_source : ℕ → Option CadenceEstimate → Option CadenceEstimate → CadenceSource
resolve_cadence_source delta l r =
    if supports delta l && supports delta r
    then both
    else if supports delta l
    then left
    else if supports delta r
    then right
    else if is_some l && is_some r
    then both
    else if is_some l
    then left
    else if is_some r
    then right
    else nowhere

-- `estimate.expected_interval_seconds if estimate else None`
abbrev expected_of : Option CadenceEstimate → Option ℕ
expected_of none = none
expected_of (some e) = some e.expected_interval

-- `estimate.continuity_threshold_seconds if estimate else None`
abbrev threshold_of : Option CadenceEstimate → Option ℕ
threshold_of none = none
threshold_of (some e) = some e.continuity_threshold

-- `_assess_interval`
unfoldable pub assess_interval :
    ℕ → ℕ → ℕ → Option CadenceEstimate → Option CadenceEstimate → TemporalIntervalAssessment
assess_interval start end delta l r = record {
  start_at = start;
  end_at = end;
  delta_seconds = delta;
  status = status_for delta l r;
  cadence_source = resolve_cadence_source delta l r;
  left_expected_interval_seconds = expected_of l;
  right_expected_interval_seconds = expected_of r;
  left_continuity_threshold_seconds = threshold_of l;
  right_continuity_threshold_seconds = threshold_of r;
}

-- `_indeterminate_assessment`
abbrev indeterminate_assessment : ℕ → ℕ → ℕ → TemporalIntervalAssessment
indeterminate_assessment start end delta = record {
  start_at = start;
  end_at = end;
  delta_seconds = delta;
  status = indeterminate;
  cadence_source = nowhere;
  left_expected_interval_seconds = none;
  right_expected_interval_seconds = none;
  left_continuity_threshold_seconds = none;
  right_continuity_threshold_seconds = none;
}

-- The body of the loop over the deltas, for the interval at an index
unfoldable pub assess : Configuration → List ℕ → ℕ → ℕ → ℕ → TemporalIntervalAssessment
unfolding estimate_cadence assess_interval
assess c deltas index start end =
    let window = c.cadence_window_size in
    let delta = end - start in
    if delta == 0
    then indeterminate_assessment start end delta
    else assess_interval start end delta
        (estimate_cadence c (drop (index - window) (take index deltas)))
        (estimate_cadence c (take window (drop (index + 1) deltas)))

-- The loop over the deltas, from an index on
unfoldable pub assess_all : Configuration → List ℕ → ℕ → List ℕ → List TemporalIntervalAssessment
unfolding assess
assess_all c deltas index [] = []
assess_all c deltas index (t ∷ []) = []
assess_all c deltas index (t ∷ u ∷ timestamps) =
    assess c deltas index t u ∷ assess_all c deltas (index + 1) (u ∷ timestamps)

-- `analyze_temporal_continuity`
unfoldable pub analyze_temporal_continuity :
    Configuration → List ℕ → Result ContinuityError (List TemporalIntervalAssessment)
unfolding validate_timestamps assess_all
analyze_temporal_continuity c timestamps = do
  validate_configuration c
  validate_timestamps none timestamps
  ok (assess_all c (deltas_of timestamps) 0 timestamps)
