-- ===== src/Analytics/Observed.antt =====
-- src/application/analytics/observed_time.py: how much of the assessed time was observed.
use tlrs.Prelude.{
  ℕ, ◌+◌, ◌-◌, not, List, [], ◌∷◌, ◌++◌, length, ltb, ◌==◌, if◌then◌else◌, Result, ok, ◌>>=◌, ◌>>◌,
  raise_if,
}
use tlrs.Analytics.Continuity.{
  ContinuityStatus, continuous, gap, indeterminate, TemporalIntervalAssessment,
}
use tlrs.Analytics.{is_close}
use tlrs.Analytics.Bucketing.{ObservedSpan}

-- `ObservedTimeMetadata`
pub record ObservedTimeMetadata : Type 0 where
  pub observed_seconds : ℕ
  pub gap_seconds : ℕ
  pub indeterminate_seconds : ℕ
  pub continuous_interval_count : ℕ
  pub gap_interval_count : ℕ
  pub indeterminate_interval_count : ℕ
  pub assessed_seconds : ℕ
  pub assessment_count : ℕ

-- `ObservedTimeResult`
pub record ObservedTimeResult : Type 0 where
  pub spans : List ObservedSpan
  pub metadata : ObservedTimeMetadata

-- The reasons of `ObservedTimeInputError`; a delta is a natural number.
pub data ObservedTimeError : Type 0 where
  end_before_start delta_mismatch : ObservedTimeError

-- `unknown_seconds`
abbrev unknown_seconds : ObservedTimeMetadata → ℕ
unknown_seconds m = m.gap_seconds + m.indeterminate_seconds

-- `_validate_assessment`
unfoldable pub validate_assessment :
    TemporalIntervalAssessment → Result ObservedTimeError (Unit {0})
validate_assessment a = do
  raise_if (ltb a.end_at a.start_at) end_before_start
  raise_if (not (is_close a.delta_seconds (a.end_at - a.start_at))) delta_mismatch

-- What the loop has found.
pub record Observation : Type 0 where
  pub spans : List ObservedSpan
  pub observed : ℕ
  pub gaps : ℕ
  pub unclear : ℕ
  pub continuous_count : ℕ
  pub gap_count : ℕ
  pub unclear_count : ℕ

abbrev pub span_of : TemporalIntervalAssessment → ObservedSpan
span_of a = record { start_at = a.start_at; end_at = a.end_at; observed_seconds = a.delta_seconds }

-- `if positive_seconds > 0: spans.append(…)`
abbrev pub append_span : TemporalIntervalAssessment → List ObservedSpan → List ObservedSpan
append_span a spans = if a.delta_seconds == 0 then spans else spans ++ (span_of a ∷ [])

-- The body of the loop, on the status
abbrev pub count_as : ContinuityStatus → TemporalIntervalAssessment → Observation → Observation
count_as continuous a o = record o {
  spans = append_span a o.spans;
  observed = o.observed + a.delta_seconds;
  continuous_count = o.continuous_count + 1;
}
count_as gap a o = record o { gaps = o.gaps + a.delta_seconds; gap_count = o.gap_count + 1 }
count_as indeterminate a o = record o {
  unclear = o.unclear + a.delta_seconds;
  unclear_count = o.unclear_count + 1;
}

-- The loop of `calculate_observed_time`
unfoldable pub observe :
    List TemporalIntervalAssessment → Observation → Result ObservedTimeError Observation
unfolding validate_assessment
observe [] o = ok o
observe (a ∷ assessments) o = do validate_assessment a; observe assessments (count_as a.status a o)

abbrev pub nothing_observed : Observation
nothing_observed = record {
  spans = [];
  observed = 0;
  gaps = 0;
  unclear = 0;
  continuous_count = 0;
  gap_count = 0;
  unclear_count = 0;
}

abbrev pub observed_result : ℕ → Observation → ObservedTimeResult
observed_result count o = record {
  spans = o.spans;
  metadata = record {
    observed_seconds = o.observed;
    gap_seconds = o.gaps;
    indeterminate_seconds = o.unclear;
    continuous_interval_count = o.continuous_count;
    gap_interval_count = o.gap_count;
    indeterminate_interval_count = o.unclear_count;
    assessed_seconds = o.observed + o.gaps + o.unclear;
    assessment_count = count;
  };
}

-- `calculate_observed_time`
unfoldable pub calculate_observed_time :
    List TemporalIntervalAssessment → Result ObservedTimeError ObservedTimeResult
unfolding observe
calculate_observed_time assessments = do
  o ← observe assessments nothing_observed
  ok (observed_result (length assessments) o)
