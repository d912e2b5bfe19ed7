-- ===== src/Analytics/Pipeline.antt =====
-- From observations to buckets: what the three parts say of one another.
use tlrs.Prelude.{ℕ, ◌+◌, ◌-◌, ◌≤◌, ◌≡◌, Option, none, some, List, [], ◌∷◌, ok}
use tlrs.Analytics.Bucketing.{ObservedSpan, validate_spans}
use tlrs.Analytics.Bucketing.Returns.{frontier}
use tlrs.Analytics.Continuity.{TemporalIntervalAssessment}
use tlrs.Analytics.Observed.{Observation}

-- Intervals that follow one another from a start to an end.
abbrev Chain : ℕ → List TemporalIntervalAssessment → ℕ → Type 0
Chain start [] end = start ≡ end
Chain start (a ∷ assessments) end =
    (a.start_at ≡ start)
    × (a.start_at ≤ a.end_at)
    × (a.delta_seconds ≡ a.end_at - a.start_at)
    × Chain a.end_at assessments end

-- The last of some timestamps.
abbrev pub last_of : ℕ → List ℕ → ℕ
last_of t [] = t
last_of t (u ∷ timestamps) = last_of u timestamps

-- Where the spans end.
abbrev end_of : Option ℕ → List ObservedSpan → Option ℕ
end_of previous [] = previous
end_of previous (s ∷ spans) = end_of (some s.end_at) spans

abbrev total : Observation → ℕ
total o = o.observed + o.gaps + o.unclear

-- What the loop over the assessments keeps.
record IsObserved (front : ℕ) (o : Observation) : Type 0 where
  valid : validate_spans none o.spans ≡ ok tt
  behind : frontier (end_of none o.spans) ≤ front
